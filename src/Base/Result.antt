-- ===== src/Base/Result.antt =====
-- A value or an error, for Go's `(T, error)`.
use mathlib.Core.Path.{◌≡◌, refl}

pub data Result {ℓ} (E A : Type ℓ) : Type ℓ where
  err : E → Result E A
  ok : A → Result E A

infixl 5 ◌>>=◌
abbrev pub ◌>>=◌ {ℓ} : {E A B : Type ℓ} → Result E A → (A → Result E B) → Result E B
err failure >>= next = err failure
ok value >>= next = next value

abbrev pub map_err {ℓ} : {D E A : Type ℓ} → (D → E) → Result D A → Result E A
map_err wrap (err failure) = err (wrap failure)
map_err wrap (ok value) = ok value

-- The two steps of a sequence that ends well.
pub ok-of->>= {ℓ} :
    {E A B : Type ℓ} {last : B} (first : Result E A) (next : A → Result E B)
    → (first >>= next) ≡ ok last
    → (value : A) × (first ≡ ok value) × (next value ≡ ok last)
ok-of->>= (err failure) next done = cc
ok-of->>= (ok value) next done = (value, refl, done)
