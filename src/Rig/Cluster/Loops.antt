-- ===== src/Rig/Cluster/Loops.antt =====
-- The loops of the perf rig.
use natra.Base.{ℕ, zero, suc, ◌+◌, Bool, true, false, List, [], ◌∷◌, ◌++◌, if◌then◌else◌}
use natra.Rig.Cluster.{RigEnv, Rig, sleep, ignore, pure, ◌>>=◌, ◌>>◌}

-- A loop over a list that appends to a slice and stops at the first error.
unfoldable pub for_each : {A B : Type 0} → List A → (A → Rig (List B)) → Rig (List B)
for_each [] body = pure []
for_each (x ∷ xs) body = do here ← body x; rest ← for_each xs body; pure (here ++ rest)

-- `for s := 1; s <= samples; s++`, from the number of the next sample and the samples left.
unfoldable pub for_samples : {B : Type 0} → ℕ → ℕ → (ℕ → Rig (List B)) → Rig (List B)
for_samples s zero body = pure []
for_samples s (suc left) body = do
  here ← body s
  rest ← for_samples (s + 1) left body
  pure (here ++ rest)

-- A loop that tries until a try succeeds, two seconds apart.
unfoldable pub poll : RigEnv → ℕ → Rig Bool → Rig Bool
poll env zero attempt = pure false
poll env (suc left) attempt = do
  done ← attempt
  let again = ignore env (sleep 2000) >> poll env left attempt
  if done then pure true else again
