-- ===== src/Quantity/Bounds.antt =====
-- What `parse_bandwidth` returns on any text at all: never a negative number, and never more than
-- `max_rate`, so that no product in it wraps around.
use mathlib.Core.Option
use natra.Base.{
  ℕ, zero, suc, ◌<◌, ◌*◌, ◌^◌, ◌≤◌, ◌≡◌, refl, true, false, Option, none, some, [], ◌∷◌, arith, ltb,
  ◌==◌, if◌then◌else◌, Bool-cases, Option-cases, inl, inr, Text, is_empty, is_digit, trim_space,
  to_upper, ℤ, pos, negsuc, ltb_ℤ-pos, mul64_exact,
}
use natra.Base.Result.{ok}
use natra.Quantity.{
  max_rate, parse_uint, to_int64, parse_int, suffix_multiplier, break_at_suffix, split_suffix,
  pick_parts, scale, scale_parsed, parse_trimmed, parse_bandwidth,
}
use natra.Quantity.Reference.{suffix_multiplier-le, div-lt_iff}

-- A value that fits.
abbrev pub InRange : ℤ → Type 0
InRange v = (n : ℕ) × (v ≡ pos n) × (n ≤ max_rate)

abbrev head_code : Text → Option ℕ
head_code [] = none
head_code (c ∷ _) = some c

to_int64-nonneg : (o : Option ℕ) (n : ℕ) → Option.bind o (to_int64 false) ≡ some (negsuc n) → ⊥
unfolding to_int64 Option.bind
to_int64-nonneg none n h = cc
to_int64-nonneg (some k) n h = ground arith

-- Only a minus sign makes a number negative.
parse_int-negative : (s : Text) (n : ℕ) → parse_int s ≡ some (negsuc n) → head_code s ≡ some b'-'
unfolding parse_int
parse_int-negative [] n h = cc
parse_int-negative (c ∷ s) n h =
    ground (arith, to_int64-nonneg (parse_uint s) n, to_int64-nonneg (parse_uint (c ∷ s)) n)

split_suffix-digit :
    (c : ℕ) (s : Text) → is_digit c ≡ true → head_code (split_suffix (c ∷ s)).0 ≡ some c
unfolding split_suffix pick_parts break_at_suffix
split_suffix-digit c s h = elim (Option-cases (break_at_suffix s)) [
  | inl e ↦ rw (h, e)
  | inr (p, e) ↦ rw (h, e)
]

split_suffix-not_digit :
    (c : ℕ) (s : Text) → is_digit c ≡ false → split_suffix (c ∷ s) ≡ (c ∷ s, to_upper (c ∷ s))
unfolding split_suffix pick_parts break_at_suffix
split_suffix-not_digit c s h = rw h

minus-unknown : (s : Text) → suffix_multiplier (b'-' ∷ s) ≡ 0
unfolding suffix_multiplier
minus-unknown s = refl

pub le-mul_of_pos : (n m : ℕ) → 0 < m → n ≤ n * m
le-mul_of_pos n zero h = absurd (omega arith)
le-mul_of_pos n (suc m) h = omega arith

scale-InRange : (n m : ℕ) (v : ℤ) → m ≤ 2 ^ 30 → scale (pos n) m ≡ ok v → InRange v
unfolding scale
scale-InRange n m v hm = elim (Bool-cases (m == 0)) [
  | inl z ↦ rw z (λ h. cc)
  | inr k ↦
      rw (k, ltb_ℤ-pos, div-lt_iff max_rate n m (ground arith))
        (elim (Bool-cases (ltb max_rate (n * m))) [
          | inl big ↦ rw big (λ h. cc)
          | inr fits ↦
              let small : n ≤ n * m = le-mul_of_pos n m (ground arith) in
              rw (fits, mul64_exact n m (ground arith) (omega arith) (ground arith))
                (λ h. (n * m, ground arith, ground arith))
        ])
]

-- A sign never meets a unit.
parse_trimmed-sign :
    (c : ℕ) (s : Text) (n : ℕ)
    → parse_int (split_suffix (c ∷ s)).0 ≡ some (negsuc n)
    → suffix_multiplier (split_suffix (c ∷ s)).1 ≡ 0
parse_trimmed-sign c s n h = elim (Bool-cases (is_digit c)) [
  | inl d ↦
      absurd
        (ground (arith, split_suffix-digit c s d, parse_int-negative (split_suffix (c ∷ s)).0 n h))
  | inr d ↦ rw (split_suffix-not_digit c s d) (
      let e : c ≡ b'-' =
        ground
          (arith, split_suffix-not_digit c s d, parse_int-negative (split_suffix (c ∷ s)).0 n h) in
      rw e (minus-unknown (to_upper s)))
]

scale_of_zero : (k v : ℤ) → scale k 0 ≡ ok v → ⊥
unfolding scale
scale_of_zero k v h = cc

parse_trimmed-InRange : (c : ℕ) (s : Text) (v : ℤ) → parse_trimmed (c ∷ s) ≡ ok v → InRange v
unfolding parse_trimmed scale_parsed
parse_trimmed-InRange c s v = go (parse_int (split_suffix (c ∷ s)).0) refl
  where
    go :
        (o : Option ℤ)
        → parse_int (split_suffix (c ∷ s)).0 ≡ o
        → scale_parsed o (suffix_multiplier (split_suffix (c ∷ s)).1) ≡ ok v
        → InRange v
    go none e h = cc
    go (some (pos n)) e h = scale-InRange n _ v (suffix_multiplier-le _) h
    go (some (negsuc n)) e h =
        absurd (scale_of_zero (negsuc n) v (rw (parse_trimmed-sign c s n e) at h))

-- Whatever the text, a quantity that is read without an error lies between 0 and `max_rate`.
pub parse_bandwidth-InRange : (s : Text) (v : ℤ) → parse_bandwidth s ≡ ok v → InRange v
unfolding parse_bandwidth
parse_bandwidth-InRange s v = go (trim_space s)
  where
    go : (t : Text) → (if is_empty t then ok (pos 0) else parse_trimmed t) ≡ ok v → InRange v
    go [] h = (0, ground arith, omega arith)
    go (c ∷ t) h = parse_trimmed-InRange c t v h
