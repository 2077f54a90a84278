-- ===== src/Host/Rules.antt =====
-- What computations on the host keep of a property of the trace.
use natra.Base.{ℕ, zero, suc, Bool, true, false, List, [], ◌∷◌}
use natra.Base.State.Rules.{
  Keeps, pure-Keeps, throw-Keeps, bind-Keeps, then-Keeps, if-Keeps, catch-Keeps,
}
use natra.Host.{
  Host, HostEnv, HostTrace, HostCall, HostFault, Command, capture, sleep, ask, must, try_ask,
  ignore, succeeds, captured, poll, when, require_that, for_all,
}

-- Whatever the call returns, the trace with it has the property.
pub record HostStable (I : HostTrace → Type 0) (env : HostEnv) (c : HostCall) : Type 0 where
  pub extend : (t : HostTrace) → I t → I (record { call = c; reply = env t c } ∷ t)

module _ {I : HostTrace → Type 0} {env : HostEnv} where
  pub ask-Keeps : {c : HostCall} → HostStable I env c → Keeps I (ask env c)
  unfolding ask
  ask-Keeps h = record { after = h.extend }

  pub must-Keeps : {c : HostCall} → HostStable I env c → Keeps I (must env c)
  unfolding must
  must-Keeps h = bind-Keeps (ask-Keeps h) (λ r. pure-Keeps tt)

  pub try_ask-Keeps : {c : HostCall} → HostStable I env c → Keeps I (try_ask env c)
  unfolding try_ask
  try_ask-Keeps h = catch-Keeps (ask-Keeps h)

  pub ignore-Keeps : {c : HostCall} → HostStable I env c → Keeps I (ignore env c)
  unfolding ignore
  ignore-Keeps h = record { after = h.extend }

  pub succeeds-Keeps : {c : HostCall} → HostStable I env c → Keeps I (succeeds env c)
  unfolding succeeds
  succeeds-Keeps h = bind-Keeps (try_ask-Keeps h) (λ r. pure-Keeps _)

  pub captured-Keeps : {c : Command} → HostStable I env (capture c) → Keeps I (captured env c)
  unfolding captured
  captured-Keeps h = bind-Keeps (ask-Keeps h) (λ r. pure-Keeps _)

  pub poll-Keeps :
      (delay left : ℕ) {attempt : Host Bool}
      → HostStable I env (sleep delay)
      → Keeps I attempt
      → Keeps I (poll env delay left attempt)
  unfolding poll
  poll-Keeps delay zero pause h = pure-Keeps false
  poll-Keeps delay (suc left) pause h = bind-Keeps h (λ done.
      if-Keeps done (pure-Keeps true)
        (then-Keeps (ignore-Keeps pause) (poll-Keeps delay left pause h)))

module _ {I : HostTrace → Type 0} where
  pub when-Keeps : (b : Bool) {m : Host (Unit {0})} → Keeps I m → Keeps I (when b m)
  unfolding when
  when-Keeps true h = h
  when-Keeps false h = pure-Keeps tt

  pub require_that-Keeps : (b : Bool) (e : HostFault) → Keeps I (require_that b e)
  unfolding require_that
  require_that-Keeps true e = pure-Keeps tt
  require_that-Keeps false e = throw-Keeps e

  pub for_all-Keeps :
      {A : Type 0} (xs : List A) (body : A → Host (Unit {0}))
      → ((x : A) → Keeps I (body x))
      → Keeps I (for_all xs body)
  unfolding for_all
  for_all-Keeps [] body h = pure-Keeps tt
  for_all-Keeps (x ∷ xs) body h = then-Keeps (h x) (for_all-Keeps xs body h)
