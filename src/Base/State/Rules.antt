-- ===== src/Base/State/Rules.antt =====
-- What computations keep of a property of the state: one rule for each way to build them.
use natra.Base.Tests.{if◌then◌else◌}
use natra.Base.Result.{Result, ok, err}
use natra.Base.State.{
  Computation, pure, throw, bind_result, ◌>>=◌, ◌>>◌, catch, finally, settle, or_cleanup,
}
use mathlib.Core.Path.{◌≡◌, refl}
use mathlib.Core.Bool.{Bool, true, false}

-- A computation that keeps the property of the state, whatever its outcome.
pub record Keeps {T F : Type 0} (I : T → Type 0) {A : Type 0} (m : Computation T F A) : Type 0 where
  pub after : (t : T) → I t → I (m t).1

-- A computation that leads from one property of the state to another, whatever its outcome.
pub record Moves {T F : Type 0} (I J : T → Type 0) {A : Type 0} (m : Computation T F A)
    : Type 0 where
  pub reach : (t : T) → I t → J (m t).1

module _ {T F : Type 0} {J K : T → Type 0} where
  bind_result-Moves :
      {A B : Type 0} (r : Result F A) (t : T) (f : A → Computation T F B)
      → ((t' : T) → J t' → K t')
      → ((a : A) → Moves J K (f a))
      → J t
      → K (bind_result (r, t) f).1
  unfolding bind_result
  bind_result-Moves (ok a) t f stop h j = (h a).reach t j
  bind_result-Moves (err e) t f stop h j = stop t j

module _ {T F : Type 0} {I J K : T → Type 0} where
  -- A sequence through `J`, which an error leaves at `J`.
  pub bind-Moves :
      {A B : Type 0} {m : Computation T F A} {f : A → Computation T F B}
      → Moves I J m
      → ((t : T) → J t → K t)
      → ((a : A) → Moves J K (f a))
      → Moves I K (m >>= f)
  unfolding ◌>>=◌
  bind-Moves {m} {f} hm stop hf = record {
    reach = λ t i. bind_result-Moves (m t).0 (m t).1 f stop hf (hm.reach t i);
  }

  pub then-Moves :
      {A B : Type 0} {m : Computation T F A} {k : Computation T F B}
      → Moves I J m
      → ((t : T) → J t → K t)
      → Moves J K k
      → Moves I K (m >> k)
  unfolding ◌>>◌
  then-Moves hm stop hk = bind-Moves hm stop (λ _. hk)

  pub finally-Moves :
      {A : Type 0} {m : Computation T F A} {c : Computation T F (Unit {0})}
      → Moves I J m
      → Moves J K c
      → Moves I K (finally m c)
  unfolding finally
  finally-Moves {m} hm hc = record { reach = λ t i. hc.reach (m t).1 (hm.reach t i) }

module _ {T F : Type 0} {I : T → Type 0} where
  pub pure-Keeps : {A : Type 0} (a : A) → Keeps {F = F} I (pure a)
  unfolding pure
  pure-Keeps a = record { after = λ t i. i }

  pub throw-Keeps : {A : Type 0} (f : F) → Keeps I (throw {A = A} f)
  unfolding throw
  throw-Keeps f = record { after = λ t i. i }

  bind_result-Keeps :
      {A B : Type 0} (r : Result F A) (t : T) (f : A → Computation T F B)
      → ((a : A) → Keeps I (f a))
      → I t
      → I (bind_result (r, t) f).1
  unfolding bind_result
  bind_result-Keeps (ok a) t f h i = (h a).after t i
  bind_result-Keeps (err e) t f h i = i

  pub bind-Keeps :
      {A B : Type 0} {m : Computation T F A} {f : A → Computation T F B}
      → Keeps I m
      → ((a : A) → Keeps I (f a))
      → Keeps I (m >>= f)
  unfolding ◌>>=◌
  bind-Keeps {m} {f} hm hf = record {
    after = λ t i. bind_result-Keeps (m t).0 (m t).1 f hf (hm.after t i);
  }

  bind_result_where-Keeps :
      {A B : Type 0} (r : Result F A) (t : T) (f : A → Computation T F B)
      → ((a : A) → r ≡ ok a → Keeps I (f a))
      → I t
      → I (bind_result (r, t) f).1
  unfolding bind_result
  bind_result_where-Keeps (ok a) t f h i = (h a refl).after t i
  bind_result_where-Keeps (err e) t f h i = i

  -- A step after one whose value is known.
  pub bind_where-Keeps :
      {A B : Type 0} {P : A → Type 0} {m : Computation T F A} {f : A → Computation T F B}
      → Keeps I m
      → ((t : T) (a : A) → (m t).0 ≡ ok a → P a)
      → ((a : A) → P a → Keeps I (f a))
      → Keeps I (m >>= f)
  unfolding ◌>>=◌
  bind_where-Keeps {m} {f} hm hp hf = record {
    after =
        λ t i. bind_result_where-Keeps (m t).0 (m t).1 f (λ a e. hf a (hp t a e)) (hm.after t i);
  }

  pub then-Keeps :
      {A B : Type 0} {m : Computation T F A} {k : Computation T F B}
      → Keeps I m
      → Keeps I k
      → Keeps I (m >> k)
  unfolding ◌>>◌
  then-Keeps hm hk = bind-Keeps hm (λ _. hk)

  pub if-Keeps :
      {A : Type 0} (b : Bool) {m k : Computation T F A}
      → Keeps I m
      → Keeps I k
      → Keeps I (if b then m else k)
  if-Keeps true hm hk = hm
  if-Keeps false hm hk = hk

  pub catch-Keeps : {A : Type 0} {m : Computation T F A} → Keeps I m → Keeps I (catch m)
  unfolding catch
  catch-Keeps hm = record { after = hm.after }

  pub finally-Keeps :
      {A : Type 0} {m : Computation T F A} {c : Computation T F (Unit {0})}
      → Keeps I m
      → Keeps I c
      → Keeps I (finally m c)
  unfolding finally
  finally-Keeps {m} hm hc = record { after = λ t i. hc.after (m t).1 (hm.after t i) }

  settle-Keeps :
      {A : Type 0} (r : Result F A) {c : Computation T F (Unit {0})}
      → Keeps I c
      → Keeps I (settle r c)
  unfolding settle
  settle-Keeps (ok a) hc = pure-Keeps a
  settle-Keeps (err e) hc = then-Keeps hc (throw-Keeps e)

  pub or_cleanup-Keeps :
      {A : Type 0} {m : Computation T F A} {c : Computation T F (Unit {0})}
      → Keeps I m
      → Keeps I c
      → Keeps I (or_cleanup m c)
  unfolding or_cleanup
  or_cleanup-Keeps {m} {c} hm hc = record {
    after = λ t i. (settle-Keeps (m t).0 hc).after (m t).1 (hm.after t i);
  }
