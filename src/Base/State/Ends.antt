-- ===== src/Base/State/Ends.antt =====
-- What holds of the state after a computation that ends well: it comes from the last part, or from an
-- earlier one and the later parts keep it.
use natra.Base.Tests.{if◌then◌else◌}
use natra.Base.Result.{Result, ok, err}
use natra.Base.State.{Computation, throw, bind_result, ◌>>=◌, ◌>>◌}
use natra.Base.State.Rules.{Keeps}
use natra.Base.State.Returns.{Returns}
use mathlib.Core.Path.{◌≡◌, refl}
use mathlib.Core.Bool.{Bool, true, false}

pub record Ends {T F A : Type 0} (Q : T → Type 0) (m : Computation T F A) : Type 0 where
  pub reached : (t : T) (a : A) → (m t).0 ≡ ok a → Q (m t).1

module _ {T F : Type 0} {Q : T → Type 0} where
  pub throw-Ends : {A : Type 0} (e : F) → Ends Q (throw {A = A} e)
  unfolding throw
  throw-Ends e = record { reached = λ t a h. absurd cc }

  bind_result-Ends :
      {A B : Type 0} (r : Result F A) (t : T) (f : A → Computation T F B) (b : B)
      → ((a : A) → r ≡ ok a → Ends Q (f a))
      → (bind_result (r, t) f).0 ≡ ok b
      → Q (bind_result (r, t) f).1
  unfolding bind_result
  bind_result-Ends (ok a) t f b hf h = (hf a refl).reached t b h
  bind_result-Ends (err e) t f b hf h = absurd cc

  -- From the last part.
  pub bind-Ends :
      {A B : Type 0} (m : Computation T F A) {f : A → Computation T F B}
      → ((a : A) → Ends Q (f a))
      → Ends Q (m >>= f)
  unfolding ◌>>=◌
  bind-Ends m {f} hf = record {
    reached = λ t b h. bind_result-Ends (m t).0 (m t).1 f b (λ a e. hf a) h;
  }

  -- From the last part, where the value of the first is known.
  pub bind_where-Ends :
      {A B : Type 0} {P : A → Type 0} {m : Computation T F A} {f : A → Computation T F B}
      → Returns P m
      → ((a : A) → P a → Ends Q (f a))
      → Ends Q (m >>= f)
  unfolding ◌>>=◌
  bind_where-Ends {m} {f} hm hf = record {
    reached = λ t b h. bind_result-Ends (m t).0 (m t).1 f b (λ a e. hf a (hm.holds t a e)) h;
  }

  pub then-Ends :
      {A B : Type 0} (m : Computation T F A) {k : Computation T F B} → Ends Q k → Ends Q (m >> k)
  unfolding ◌>>◌
  then-Ends m hk = bind-Ends m (λ _. hk)

  bind_result_kept :
      {A B : Type 0} (r : Result F A) (t : T) (f : A → Computation T F B) (b : B)
      → ((a : A) → r ≡ ok a → Q t)
      → ((a : A) → Keeps Q (f a))
      → (bind_result (r, t) f).0 ≡ ok b
      → Q (bind_result (r, t) f).1
  unfolding bind_result
  bind_result_kept (ok a) t f b hq hf h = (hf a).after t (hq a refl)
  bind_result_kept (err e) t f b hq hf h = absurd cc

  -- From the first part.
  pub first-Ends :
      {A B : Type 0} {m : Computation T F A} {f : A → Computation T F B}
      → Ends Q m
      → ((a : A) → Keeps Q (f a))
      → Ends Q (m >>= f)
  unfolding ◌>>=◌
  first-Ends {m} {f} hm hf = record {
    reached = λ t b h. bind_result_kept (m t).0 (m t).1 f b (hm.reached t) hf h;
  }

  pub first_then-Ends :
      {A B : Type 0} {m : Computation T F A} {k : Computation T F B}
      → Ends Q m
      → Keeps Q k
      → Ends Q (m >> k)
  unfolding ◌>>◌
  first_then-Ends hm hk = first-Ends hm (λ _. hk)

  pub if-Ends :
      {A : Type 0} (b : Bool) {m k : Computation T F A}
      → (b ≡ true → Ends Q m)
      → (b ≡ false → Ends Q k)
      → Ends Q (if b then m else k)
  if-Ends true hm hk = hm refl
  if-Ends false hm hk = hk refl
