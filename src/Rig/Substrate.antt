-- ===== src/Rig/Substrate.antt =====
-- The executor on an implementation of `Substrate` (internal/perfrig/substrate.go): what the implementation
-- does with the calls of a trace, in their order, and the answers that it gives.
use natra.Base.{true, false, [], ◌∷◌}
use natra.Base.Result.{Result, ok, err}
use natra.Rig.Cluster.{RigCall, RigReply, RigTrace, RigEnv}

-- An implementation over a state of its own.
pub record Implementation (S : Type 0) : Type 0 where
  pub perform : RigCall → S → RigReply × S

module _ {S : Type 0} (impl : Implementation S) (start : S) where
  -- The state after the calls of a trace.
  unfoldable pub replay : RigTrace → S
  replay [] = start
  replay (event ∷ t) = (impl.perform event.call (replay t)).1

  -- Its answers.
  unfoldable pub answers : RigEnv
  unfolding replay
  answers t c = (impl.perform c (replay t)).0

-- What the executor is told of an outcome.
unfoldable pub reply_of : {F A : Type 0} → Result F A → RigReply
reply_of (ok a) = record { failed = false; output = [] }
reply_of (err e) = record { failed = true; output = [] }
