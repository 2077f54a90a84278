-- ===== src/Base/State.antt =====
-- Computations over a state, here the trace of the calls, that return a value or a fault.
pub mod Rules
pub mod Returns
pub mod Ends
use natra.Base.Result.{Result, ok, err}

abbrev pub Computation : Type 0 → Type 0 → Type 0 → Type 0
Computation T F A = T → Result F A × T

module _ {T F : Type 0} where
  unfoldable pub pure : {A : Type 0} → A → Computation T F A
  pure a t = (ok a, t)

  unfoldable pub throw : {A : Type 0} → F → Computation T F A
  throw f t = (err f, t)

  unfoldable pub bind_result :
      {A B : Type 0} → Result F A × T → (A → Computation T F B) → Result F B × T
  bind_result (ok a, t) f = f a t
  bind_result (err e, t) f = (err e, t)

  infixl 5 ◌>>=◌ ◌>>◌
  unfoldable pub ◌>>=◌ :
      {A B : Type 0} → Computation T F A → (A → Computation T F B) → Computation T F B
  unfolding bind_result
  ◌>>=◌ m f t = bind_result (m t) f

  unfoldable pub ◌>>◌ : {A B : Type 0} → Computation T F A → Computation T F B → Computation T F B
  unfolding ◌>>=◌
  m >> k = m >>= λ _. k

  -- Both outcomes as a value.
  unfoldable pub catch : {A : Type 0} → Computation T F A → Computation T F (Result F A)
  catch m t = (ok (m t).0, (m t).1)

  -- `defer cleanup()`: the cleanup runs whatever the outcome, which stays.
  unfoldable pub finally :
      {A : Type 0} → Computation T F A → Computation T F (Unit {0}) → Computation T F A
  finally m cleanup t = ((m t).0, (cleanup (m t).1).1)

  -- A cleanup on the error path, before the error is returned.
  unfoldable pub settle : {A : Type 0} → Result F A → Computation T F (Unit {0}) → Computation T F A
  unfolding pure throw ◌>>◌
  settle (ok a) cleanup = pure a
  settle (err e) cleanup = cleanup >> throw e

  unfoldable pub or_cleanup :
      {A : Type 0} → Computation T F A → Computation T F (Unit {0}) → Computation T F A
  unfolding settle
  or_cleanup m cleanup t = settle (m t).0 cleanup (m t).1
