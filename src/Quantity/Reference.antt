-- ===== src/Quantity/Reference.antt =====
-- `parse_bandwidth` against an independent description: the decimal value of the digits times the
-- unit, if that stays within `max_rate`.
use native.Mathlib.Nat.{pow-suc}
use mathlib.Core.Option
use natra.Base.{
  ℕ, ◌+◌, ◌-◌, ◌*◌, ◌/◌, ◌^◌, ◌≤◌, ◌<◌, ◌≡◌, refl, ◌∙◌, ap, true, false, none, some, [], ◌∷◌, ◌++◌,
  append-nil, arith, ltb, leb, leb→le, ◌==◌, if◌then◌else◌, Bool-cases, inl, inr, length, All,
  All-append, Text, is_digit, is_space, to_upper, ℤ, pos, mul64_exact, ltb_ℤ-pos, max_int64,
}
use natra.Base.Result.{Result, ok, err}
use natra.Quantity.{
  QuantityError, scale_parsed, pick_parts, invalid_number, unknown_suffix, too_large, max_rate,
  parse_digits, to_int64, parse_int, suffix_multiplier, break_at_suffix, split_suffix, scale,
  parse_trimmed, parse_bandwidth,
}
use natra.Quantity.Trim.{Spaces, NoSpaces, trim_space_between}

abbrev pub Digits : Text → Type 0
Digits = All (λ c. is_digit c ≡ true)

-- A text that begins with no digit.
abbrev pub NoDigitFirst : Text → Type 0
NoDigitFirst [] = Unit
NoDigitFirst (c ∷ _) = is_digit c ≡ false

-- The number that decimal digits stand for, each at its power of ten.
unfoldable pub value : Text → ℕ
value [] = 0
value (c ∷ s) = (c - b'0') * 10 ^ length s + value s

-- What a number with a unit means.
unfoldable pub reference : ℕ → ℕ → Result QuantityError ℤ
reference n multiplier =
    if ltb max_int64 n
    then err invalid_number
    else if multiplier == 0
    then err unknown_suffix
    else if ltb max_rate (n * multiplier)
    then err too_large
    else ok (pos (n * multiplier))

horner : (n d p q : ℕ) → q ≡ p * 10 → (n * 10 + d) * p ≡ n * q + d * p
horner n d p q e = rw e (grind arith)

parse_digits-eq-value :
    (ds : Text) (n : ℕ) → Digits ds → parse_digits ds n ≡ some (n * 10 ^ length ds + value ds)
unfolding parse_digits value
parse_digits-eq-value [] n h = ground arith
parse_digits-eq-value (c ∷ s) n (hc, h) =
    rw (hc, parse_digits-eq-value s (n * 10 + (c - b'0')) h)
      (ap some (
        omega (
          arith,
          horner n (c - b'0') (10 ^ length s) (10 ^ length (c ∷ s)) (pow-suc 10 (length s)),
        )))

digit-not_sign : (c : ℕ) → is_digit c ≡ true → ((c == b'+') ≡ false) × ((c == b'-') ≡ false)
digit-not_sign c h = ground arith

parse_int-eq-value :
    (c : ℕ) (s : Text) → Digits (c ∷ s) → parse_int (c ∷ s) ≡ to_int64 false (value (c ∷ s))
unfolding parse_int Option.bind value
parse_int-eq-value c s h =
    let (plus, minus) = digit-not_sign c h.0 in
    let e : parse_digits (c ∷ s) 0 ≡ some (value (c ∷ s)) =
      parse_digits-eq-value (c ∷ s) 0 h ∙ ap some (omega arith) in
    rw (plus, minus, e)

break_at_suffix-Digits : (ds : Text) → Digits ds → break_at_suffix ds ≡ none
unfolding break_at_suffix
break_at_suffix-Digits [] h = refl
break_at_suffix-Digits (c ∷ s) (hc, h) = rw (hc, break_at_suffix-Digits s h)

break_at_suffix-append :
    (ds : Text) (c : ℕ) (u : Text)
    → Digits ds
    → is_digit c ≡ false
    → break_at_suffix (ds ++ c ∷ u) ≡ some (ds, c ∷ u)
unfolding break_at_suffix
break_at_suffix-append [] c u h hc = rw hc
break_at_suffix-append (d ∷ ds) c u (hd, h) hc = rw (hd, break_at_suffix-append ds c u h hc)

pub suffix_multiplier-le : (u : Text) → suffix_multiplier u ≤ 2 ^ 30
unfolding suffix_multiplier
suffix_multiplier-le u = ground arith

pub div-lt_iff : (m n k : ℕ) → 0 < k → ltb (m / k) n ≡ ltb m (n * k)
div-lt_iff m n k h = grind arith

scale_checked :
    (n m : ℕ)
    → n ≤ max_int64
    → m ≤ 2 ^ 30
    → scale (pos n) m ≡ (
        if m == 0
        then err unknown_suffix
        else if ltb max_rate (n * m)
        then err too_large
        else ok (pos (n * m)))
unfolding scale
scale_checked n m hn hm = elim (Bool-cases (m == 0)) [
  | inl z ↦ rw z
  | inr k ↦
      rw (k, ltb_ℤ-pos, div-lt_iff max_rate n m (ground arith))
        (elim (Bool-cases (ltb max_rate (n * m))) [
          | inl big ↦ rw big
          | inr fits ↦ rw (fits, mul64_exact n m (omega arith) (omega arith) (ground arith))
        ])
]

split_suffix_lem :
    (c : ℕ) (s u : Text)
    → Digits (c ∷ s)
    → NoDigitFirst u
    → split_suffix (c ∷ s ++ u) ≡ (c ∷ s, to_upper u)
unfolding split_suffix pick_parts
split_suffix_lem c s [] hd hu = rw (append-nil s, break_at_suffix-Digits (c ∷ s) hd)
split_suffix_lem c s (x ∷ u) hd hu = rw (break_at_suffix-append (c ∷ s) x u hd hu)

scale_parsed_lem : (n m : ℕ) → m ≤ 2 ^ 30 → scale_parsed (to_int64 false n) m ≡ reference n m
unfolding to_int64 reference scale_parsed
scale_parsed_lem n m hm = elim (Bool-cases (leb n max_int64)) [
  | inl fits ↦
      let e : ltb max_int64 n ≡ false = ground arith in
      rw (fits, e, scale_checked n m (leb→le n max_int64 fits) hm)
  | inr big ↦ let e : ltb max_int64 n ≡ true = ground arith in rw (big, e)
]

-- The text between the spaces: digits, then a rest that begins with no digit.
parse_trimmed_lem :
    (c : ℕ) (s u : Text)
    → Digits (c ∷ s)
    → NoDigitFirst u
    → parse_trimmed (c ∷ s ++ u) ≡ reference (value (c ∷ s)) (suffix_multiplier (to_upper u))
unfolding parse_trimmed
parse_trimmed_lem c s u hd hu =
    rw (split_suffix_lem c s u hd hu, parse_int-eq-value c s hd)
      (scale_parsed_lem (value (c ∷ s)) (suffix_multiplier (to_upper u)) (suffix_multiplier-le _))

pub digit-not_space : (ds : Text) → Digits ds → NoSpaces ds
unfolding is_space
digit-not_space [] h = tt
digit-not_space (c ∷ s) (hc, h) = (ground arith, digit-not_space s h)

-- A quantity is read as its decimal value in its unit, between any spaces: digits that exceed
-- int64 are an invalid number, a unit that is not known is an error, so is a value
-- above `max_rate`, and in every other case the result is exactly value times unit.
pub parse_bandwidth-eq-reference :
    (l : Text) (c : ℕ) (s u r : Text)
    → Spaces l
    → Digits (c ∷ s)
    → NoDigitFirst u
    → NoSpaces u
    → Spaces r
    → parse_bandwidth (l ++ ((c ∷ s ++ u) ++ r))
      ≡ reference (value (c ∷ s)) (suffix_multiplier (to_upper u))
unfolding parse_bandwidth
parse_bandwidth-eq-reference l c s u r hl hd hu nu hr =
    rw
      (trim_space_between l (c ∷ s ++ u) r hl
        (All-append _ (c ∷ s) u (digit-not_space (c ∷ s) hd) nu) hr)
      (parse_trimmed_lem c s u hd hu)
