-- ===== src/Base/State/Returns.antt =====
-- What holds of the value of a computation that ends well: one rule for each way to build it.
use natra.Base.Tests.{if◌then◌else◌}
use natra.Base.Result.{Result, ok, err}
use natra.Base.State.{Computation, pure, throw, bind_result, ◌>>=◌, ◌>>◌, catch, finally}
use mathlib.Core.Path.{◌≡◌, refl, subst}
use mathlib.Core.Bool.{Bool, true, false}

pub record Returns {T F A : Type 0} (P : A → Type 0) (m : Computation T F A) : Type 0 where
  pub holds : (t : T) (a : A) → (m t).0 ≡ ok a → P a

module _ {T F : Type 0} where
  pub pure-Returns :
      {A : Type 0} {P : A → Type 0} (a : A) → P a → Returns {T = T} {F = F} P (pure a)
  unfolding pure
  pure-Returns {P} a p = record { holds = λ t b e. let same : a ≡ b = cc in subst P same p }

  pub throw-Returns : {A : Type 0} {P : A → Type 0} (e : F) → Returns {T = T} P (throw {A = A} e)
  unfolding throw
  throw-Returns e = record { holds = λ t b h. absurd cc }

  bind_result-Returns :
      {A B : Type 0} {P : B → Type 0} {Q : A → Type 0} (r : Result F A) (t : T)
      (f : A → Computation T F B) (b : B)
      → ((a : A) → r ≡ ok a → Q a)
      → ((a : A) → Q a → Returns P (f a))
      → (bind_result (r, t) f).0 ≡ ok b
      → P b
  unfolding bind_result
  bind_result-Returns (ok a) t f b hq hf h = (hf a (hq a refl)).holds t b h
  bind_result-Returns (err e) t f b hq hf h = absurd cc

  pub bind-Returns :
      {A B : Type 0} {P : B → Type 0} {Q : A → Type 0} {m : Computation T F A}
      {f : A → Computation T F B}
      → Returns Q m
      → ((a : A) → Q a → Returns P (f a))
      → Returns P (m >>= f)
  unfolding ◌>>=◌
  bind-Returns {m} {f} hm hf = record {
    holds = λ t b h. bind_result-Returns (m t).0 (m t).1 f b (hm.holds t) hf h;
  }

  anything-Returns : {A : Type 0} (m : Computation T F A) → Returns (λ _. Unit {0}) m
  anything-Returns m = record { holds = λ t a h. tt }

  -- A step whose value does not matter.
  pub skip-Returns :
      {A B : Type 0} {P : B → Type 0} (m : Computation T F A) {f : A → Computation T F B}
      → ((a : A) → Returns P (f a))
      → Returns P (m >>= f)
  skip-Returns m hf = bind-Returns (anything-Returns m) (λ a _. hf a)

  pub then-Returns :
      {A B : Type 0} {P : B → Type 0} (m : Computation T F A) {k : Computation T F B}
      → Returns P k
      → Returns P (m >> k)
  unfolding ◌>>◌
  then-Returns m hk = skip-Returns m (λ _. hk)

  pub finally-Returns :
      {A : Type 0} {P : A → Type 0} {m : Computation T F A} (c : Computation T F (Unit {0}))
      → Returns P m
      → Returns P (finally m c)
  unfolding finally
  finally-Returns c hm = record { holds = hm.holds }

  pub if-Returns :
      {A : Type 0} {P : A → Type 0} (b : Bool) {m k : Computation T F A}
      → (b ≡ true → Returns P m)
      → (b ≡ false → Returns P k)
      → Returns P (if b then m else k)
  if-Returns true hm hk = hm refl
  if-Returns false hm hk = hk refl

  -- The value of `catch` is the outcome.
  pub catch-Returns :
      {A : Type 0} {P : A → Type 0} {m : Computation T F A}
      → Returns P m
      → Returns (λ (r : Result F A). (a : A) → r ≡ ok a → P a) (catch m)
  unfolding catch
  catch-Returns {A} {P} {m} hm = record { holds = λ t r h a e. hm.holds t a (outcome_of t r a h e) }
    where
      outcome_of :
          (t : T) (r : Result F A) (a : A) → (catch m t).0 ≡ ok r → r ≡ ok a → (m t).0 ≡ ok a
      outcome_of t r a h e = cc
