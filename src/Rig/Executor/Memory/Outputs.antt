-- ===== src/Rig/Executor/Memory/Outputs.antt =====
-- internal/perfrig/workload_memory.go: the numbers in the output of commands, and the manifests of the
-- clones.
use natra.Base.{
  ℕ, zero, suc, ◌+◌, ◌-◌, ◌*◌, not, ◌%◌, ◌^◌, Bool, true, false, ltb, leb, ◌==◌, Option, none, some,
  List, [], ◌∷◌, ◌++◌, if◌then◌else◌, Text, codes, has_prefix, is_digit, ℤ, pos, neg, pos_part,
  ltb_ℤ, max_int64, to_bits, of_bits,
}
use natra.Rig.Manifest.{newline, drop, replace_once}

unfoldable pub value_or {ℓ} : {A : Type ℓ} → A → Option A → A
value_or d none = d
value_or d (some x) = x

-- `strconv.ParseInt(s, 10, 64)` where the error is dropped: what is no number is 0, and a number out
-- of range is the nearest int64. The reading stops where the number leaves 64 bits.
unfoldable pub uint_value : Text → ℕ → Option ℕ
uint_value [] n = some n
uint_value (c ∷ s) n =
    let n' = n * 10 + (c - b'0') in
    let rest = uint_value s n' in
    if not (is_digit c) then none else if ltb n' (2 ^ 64) then rest else some (2 ^ 64 - 1)

unfoldable pub saturate : Bool → ℕ → ℤ
saturate true n = if leb n (2 ^ 63) then neg n else neg (2 ^ 63)
saturate false n = if leb n max_int64 then pos n else pos max_int64

unfoldable pub signed_value : Bool → Text → ℤ
unfolding saturate uint_value
signed_value negative [] = pos 0
signed_value negative (c ∷ s) = elim (uint_value (c ∷ s) 0) [
  | none ↦ pos 0
  | some n ↦ saturate negative n
]

unfoldable pub parse_int_value : Text → ℤ
unfolding signed_value
parse_int_value [] = pos 0
parse_int_value (c ∷ s) =
    if c == b'+'
    then signed_value false s
    else if c == b'-'
    then signed_value true s
    else signed_value false (c ∷ s)

-- `a + b` on int64.
unfoldable pub add64 : ℤ → ℤ → ℤ
add64 a b = of_bits ((to_bits a + to_bits b) % 2 ^ 64)

-- `sumNatraBpfMemlock` over the decoded objects.
unfoldable pub sum_memlock : ℤ → List (Text × ℤ) → ℤ
sum_memlock total [] = total
sum_memlock total ((name, bytes) ∷ rest) =
    sum_memlock (if has_prefix name (codes "natra_") then add64 total bytes else total) rest

abbrev pub time_label : Text
time_label = codes "Maximum resident set size (kbytes):"

-- The digits at the start of a text.
unfoldable pub digits : Text → Text
digits [] = []
digits (c ∷ s) = let rest = digits s in if is_digit c then c ∷ rest else []

-- RE2's `\s`.
unfoldable pub skip_spaces : Text → Text
skip_spaces [] = []
skip_spaces (c ∷ s) =
    if (c == 32)
    then skip_spaces s
    else if (c == 9)
    then skip_spaces s
    else if (c == 10)
    then skip_spaces s
    else if (c == 12)
    then skip_spaces s
    else if (c == 13)
    then skip_spaces s
    else c ∷ s

-- A match of the expression at the start of a text: its digits.
unfoldable pub peak_here : Text → Text
unfolding digits skip_spaces
peak_here s = if has_prefix s time_label then digits (skip_spaces (drop 35 s)) else []

-- The digits of the first match.
unfoldable pub find_peak : Text → Text
unfolding peak_here
find_peak [] = []
find_peak (c ∷ s) = elim (peak_here (c ∷ s)) [ [] ↦ find_peak s | d ∷ ds ↦ d ∷ ds ]

-- `parseTimeVPeakKB`
unfoldable pub parse_time_v_peak_kb : Text → ℤ
parse_time_v_peak_kb out = parse_int_value (find_peak out)

-- `n` of runMemory.
unfoldable pub pod_count : ℤ → ℕ
pod_count n = if ltb_ℤ (pos 1) n then pos_part n else 8

-- The manifest up to the first `---` line.
unfoldable pub first_document : Text → Text
first_document [] = []
first_document (c ∷ s) =
    let rest = c ∷ first_document s in
    if has_prefix (c ∷ s) (newline ∷ (codes "---" ++ (newline ∷ []))) then [] else rest

-- A clone, with its number as `%d` prints it.
unfoldable pub clone_of : (ℕ → Text) → Text → ℕ → Text
clone_of decimal manifest i =
    replace_once
      (replace_once manifest (codes "name: perf-server")
        (codes "name: perf-server-mem-" ++ decimal i))
      (codes "app: perf-server") (codes "app: perf-server-mem")

-- The clones from number `i` on.
unfoldable pub clones : (ℕ → Text) → Text → ℕ → ℕ → List Text
clones decimal manifest i zero = []
clones decimal manifest i (suc left) =
    clone_of decimal manifest i ∷ clones decimal manifest (i + 1) left
