-- ===== src/Quantity.antt =====
-- Bandwidth quantities such as "10M" or "1Gi": `parseBandwidth` and `suffixMultiplier` of
-- pkg/cni/config/config.go, with `strconv.ParseInt(s, 10, 64)` of the standard library.
-- Messages are not modelled: an error is one of the three places that return one.
pub mod Trim
pub mod Reference
pub mod Bounds
use mathlib.Core.Option
use natra.Base.{
  ℕ, ◌+◌, ◌-◌, ◌*◌, ◌/◌, ◌^◌, Bool, true, false, Option, none, some, List, [], ◌∷◌, leb, ◌==◌,
  if◌then◌else◌, Text, codes, is_empty, is_digit, one_of, trim_space, to_upper, ℤ, pos, neg, ltb_ℤ,
  mul64, max_int64,
}
use natra.Base.Result.{Result, ok, err}

pub data QuantityError : Type 0 where
  invalid_number unknown_suffix too_large : QuantityError

-- `maxRate`
abbrev pub max_rate : ℕ
max_rate = max_int64 / 2

unfoldable pub parse_digits : Text → ℕ → Option ℕ
parse_digits [] n = some n
parse_digits (c ∷ s) n = if is_digit c then parse_digits s (n * 10 + (c - b'0')) else none

-- At least one digit, and nothing else.
unfoldable pub parse_uint : Text → Option ℕ
unfolding parse_digits
parse_uint [] = none
parse_uint (c ∷ s) = parse_digits (c ∷ s) 0

-- The range of int64. The first argument tells whether a minus sign was read.
unfoldable pub to_int64 : Bool → ℕ → Option ℤ
to_int64 true n = if leb n (2 ^ 63) then some (neg n) else none
to_int64 false n = if leb n max_int64 then some (pos n) else none

-- `strconv.ParseInt(s, 10, 64)`
unfoldable pub parse_int : Text → Option ℤ
unfolding parse_uint to_int64
parse_int [] = none
parse_int (c ∷ s) =
    if c == b'+'
    then Option.bind (parse_uint s) (to_int64 false)
    else if c == b'-'
    then Option.bind (parse_uint s) (to_int64 true)
    else Option.bind (parse_uint (c ∷ s)) (to_int64 false)

unfoldable pub suffix_multiplier : Text → ℕ
unfolding one_of
suffix_multiplier suffix =
    if one_of suffix (codes "" ∷ codes "B" ∷ [])
    then 1
    else if one_of suffix (codes "K" ∷ codes "KB" ∷ [])
    then 1000
    else if one_of suffix (codes "M" ∷ codes "MB" ∷ [])
    then 1000 * 1000
    else if one_of suffix (codes "G" ∷ codes "GB" ∷ [])
    then 1000 * 1000 * 1000
    else if one_of suffix (codes "KI" ∷ codes "KIB" ∷ [])
    then 1024
    else if one_of suffix (codes "MI" ∷ codes "MIB" ∷ [])
    then 1024 * 1024
    else if one_of suffix (codes "GI" ∷ codes "GIB" ∷ [])
    then 1024 * 1024 * 1024
    else 0

-- The loop over the text: where it breaks, the digits before and the text from there on.
unfoldable pub break_at_suffix : Text → Option (Text × Text)
break_at_suffix [] = none
break_at_suffix (c ∷ s) =
    if is_digit c
    then Option.map (λ (p : Text × Text). (c ∷ p.0, p.1)) (break_at_suffix s)
    else some ([], c ∷ s)

-- `numStr` and `suffix` after the loop and the test below it.
unfoldable pub pick_parts : Text → Option (Text × Text) → Text × Text
pick_parts s none = (s, [])
pick_parts s (some (num, rest)) = (if is_empty num then s else num, to_upper rest)

unfoldable pub split_suffix : Text → Text × Text
split_suffix s = pick_parts s (break_at_suffix s)

-- The two tests and the product at the end of `parseBandwidth`.
unfoldable pub scale : ℤ → ℕ → Result QuantityError ℤ
scale num multiplier =
    if multiplier == 0
    then err unknown_suffix
    else if ltb_ℤ (pos (max_rate / multiplier)) num
    then err too_large
    else ok (mul64 num (pos multiplier))

-- `scale` where the number was read.
unfoldable pub scale_parsed : Option ℤ → ℕ → Result QuantityError ℤ
scale_parsed none multiplier = err invalid_number
scale_parsed (some num) multiplier = scale num multiplier

-- What follows the trimming and the test for the empty text.
unfoldable pub parse_trimmed : Text → Result QuantityError ℤ
parse_trimmed s =
    let (num, suffix) = split_suffix s in scale_parsed (parse_int num) (suffix_multiplier suffix)

unfoldable pub parse_bandwidth : Text → Result QuantityError ℤ
parse_bandwidth s = let t = trim_space s in if is_empty t then ok (pos 0) else parse_trimmed t
