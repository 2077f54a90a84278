-- ===== src/Kernel/Rules.antt =====
-- The rules for computations over the trace, with those for the calls.
use natra.Base.{◌∷◌}
use natra.Kernel.{Call, Trace, Env, ask, invoke, discard}
pub use natra.Base.State.Rules.{
  Keeps, pure-Keeps, throw-Keeps, bind-Keeps, bind_where-Keeps, then-Keeps, if-Keeps, catch-Keeps,
  finally-Keeps, or_cleanup-Keeps,
}

-- Whatever the call returns, the trace with it has the property.
pub record Stable (I : Trace → Type 0) (env : Env) (c : Call) : Type 0 where
  pub extend : (t : Trace) → I t → I (record { call = c; reply = env t c } ∷ t)

module _ {I : Trace → Type 0} where
  pub ask-Keeps : {env : Env} {c : Call} → Stable I env c → Keeps I (ask env c)
  unfolding ask
  ask-Keeps h = record { after = h.extend }

  pub invoke-Keeps : {env : Env} {c : Call} → Stable I env c → Keeps I (invoke env c)
  unfolding invoke
  invoke-Keeps h = record { after = h.extend }

  pub discard-Keeps : {env : Env} {c : Call} → Stable I env c → Keeps I (discard env c)
  unfolding discard
  discard-Keeps h = record { after = h.extend }
