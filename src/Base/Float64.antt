-- ===== src/Base/Float64.antt =====
-- Go's float64, which the code uses to scale a rate by a burst ratio: its operations are
-- parameters, and what the code relies on is a law.
use natra.Base.Tests.{◌==◌}
use Prim.Native.Nat.{ℕ, ◌+◌, ◌*◌, ◌/◌, ◌^◌, ◌<◌}
use mathlib.Core.Path.{◌≡◌, ap}
use mathlib.Core.Bool.{Bool, not}
use native.Mathlib.Omega.{arith}
use natra.Base.Int64.{ℤ, pos, pos_part}

pub record Float64 : Type 1 where
  pub F : Type 0
  pub of_int : ℤ → F  -- float64(n)
  pub to_int : F → ℤ  -- int64(x), which cuts the fraction off
  pub mul : F → F → F
  pub half : F  -- the constant 0.5
  pub is_pos : F → Bool  -- x > 0

-- An integer below 2^53 has an exact float64, and so has its half.
pub record IsLawful (fl : Float64) : Type 0 where
  pub half_exact :
      (n : ℕ) → n < 2 ^ 53 → fl.to_int (fl.mul (fl.of_int (pos n)) fl.half) ≡ pos (n / 2)

-- Numbers n / 2^k without rounding, where negative numbers stand as 0: they meet the law.
abbrev pub dyadic : Float64
dyadic = record {
  F = ℕ × ℕ;
  of_int = λ n. (pos_part n, 0);
  to_int = λ x. pos (x.0 / 2 ^ x.1);
  mul = λ x y. (x.0 * y.0, x.1 + y.1);
  half = (1, 1);
  is_pos = λ x. not (x.0 == 0);
}

pub dyadic-IsLawful : IsLawful dyadic
dyadic-IsLawful = record { half_exact = λ n h. ap pos (omega arith) }
