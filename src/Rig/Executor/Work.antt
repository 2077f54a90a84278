-- ===== src/Rig/Executor/Work.antt =====
-- What the work on a cluster keeps of a property of the trace: everything but the calls that bring a
-- cluster up or down or install natra.
pub mod Workloads
use natra.Base.{ℕ, zero, suc, ◌+◌, Bool, true, false, Option, none, some, List, [], ◌∷◌, ◌++◌, Text}
use natra.Base.Result.{Result, ok, err}
use natra.Base.State.Rules.{
  Keeps, pure-Keeps, throw-Keeps, bind-Keeps, then-Keeps, if-Keeps, catch-Keeps, finally-Keeps,
}
use natra.Rig.{Phase, baseline, vanilla, natra_phase}
use natra.Rig.Cluster.{
  Rig, RigTrace, RigEnv, RigCall, RigFault, Script, import_image, ensure_bpftool, node_shell,
  kubectl, capture_kubectl, read_manifest, sleep, ask, try_ask, ignore,
}
use natra.Rig.Cluster.Loops.{for_each, for_samples, poll}
use natra.Rig.Executor.{Readings, Executor}
use natra.Rig.Executor.Stage.{
  when, require_that, render_perf_manifest, apply_manifest, deploy_perf, patch_vanilla_tbf,
  read_bps, iperf_measure, service_account_ready, traffic_flows, warm_up, stage_phase,
}
use natra.Rig.Executor.Iperf.{
  deploy_iperf_sweep_pod, deploy_sweep_pods, try_reach, wait_iperf_reachable, sweep_sample,
  sweep_rate, sweep_deployed, run_iperf_sweep,
}
use natra.Rig.Executor.Mixed.{
  from_result, run_heys, run_mixed_sample, deploy_bystander, mixed_sample, run_mixed,
}
use natra.Rig.Executor.Memory.{
  read_memlock, read_qdiscs, snapshot_memory, invoke_peak, plugin_invoke_peak_rss, installer_peak,
  installer_ds_peak_rss, deploy_memory_pods, teardown_memory_pods, memory_sample, run_memory,
}

-- Whatever the call returns, the trace with it has the property.
pub record RigStable (I : RigTrace → Type 0) (env : RigEnv) (c : RigCall) : Type 0 where
  pub extend : (t : RigTrace) → I t → I (record { call = c; reply = env t c } ∷ t)

pub record WorkStable (I : RigTrace → Type 0) (env : RigEnv) : Type 0 where
  pub image : (i d : Text) → RigStable I env (import_image i d)
  pub bpftool : (n : Text) → RigStable I env (ensure_bpftool n)
  pub shell : (n : Text) (s : Script) → RigStable I env (node_shell n s)
  pub kube : (s : Text) (args : List Text) → RigStable I env (kubectl s args)
  pub capture : (args : List Text) → RigStable I env (capture_kubectl args)
  pub file : (p : Text) → RigStable I env (read_manifest p)
  pub pause : (n : ℕ) → RigStable I env (sleep n)

module _ {I : RigTrace → Type 0} where
  pub ask-Keeps : {env : RigEnv} {c : RigCall} → RigStable I env c → Keeps I (ask env c)
  unfolding ask
  ask-Keeps h = record { after = h.extend }

  pub try_ask-Keeps : {env : RigEnv} {c : RigCall} → RigStable I env c → Keeps I (try_ask env c)
  unfolding try_ask
  try_ask-Keeps h = catch-Keeps (ask-Keeps h)

  pub ignore-Keeps : {env : RigEnv} {c : RigCall} → RigStable I env c → Keeps I (ignore env c)
  unfolding ignore
  ignore-Keeps h = record { after = h.extend }

  pub for_each-Keeps :
      {A B : Type 0} (xs : List A) (body : A → Rig (List B))
      → ((x : A) → Keeps I (body x))
      → Keeps I (for_each xs body)
  unfolding for_each
  for_each-Keeps [] body h = pure-Keeps []
  for_each-Keeps (x ∷ xs) body h =
      bind-Keeps (h x)
        (λ here. bind-Keeps (for_each-Keeps xs body h) (λ rest. pure-Keeps (here ++ rest)))

  pub for_samples-Keeps :
      {B : Type 0} (s left : ℕ) (body : ℕ → Rig (List B))
      → ((i : ℕ) → Keeps I (body i))
      → Keeps I (for_samples s left body)
  unfolding for_samples
  for_samples-Keeps s zero body h = pure-Keeps []
  for_samples-Keeps s (suc left) body h = bind-Keeps (h s) (λ here.
      bind-Keeps (for_samples-Keeps (s + 1) left body h) (λ rest. pure-Keeps (here ++ rest)))

  pub when-Keeps : (b : Bool) {m : Rig (Unit {0})} → Keeps I m → Keeps I (when b m)
  unfolding when
  when-Keeps true h = h
  when-Keeps false h = pure-Keeps tt

  pub require_that-Keeps : (b : Bool) (e : RigFault) → Keeps I (require_that b e)
  unfolding require_that
  require_that-Keeps true e = pure-Keeps tt
  require_that-Keeps false e = throw-Keeps e

  pub from_result-Keeps : {A : Type 0} (r : Result RigFault A) → Keeps I (from_result r)
  unfolding from_result
  from_result-Keeps (ok a) = pure-Keeps a
  from_result-Keeps (err e) = throw-Keeps e

  pub poll-Keeps :
      {env : RigEnv} (left : ℕ) (attempt : Rig Bool)
      → WorkStable I env
      → Keeps I attempt
      → Keeps I (poll env left attempt)
  unfolding poll
  poll-Keeps zero attempt S h = pure-Keeps false
  poll-Keeps (suc left) attempt S h = bind-Keeps h (λ done.
      if-Keeps done (pure-Keeps true)
        (then-Keeps (ignore-Keeps (S.pause 2000)) (poll-Keeps left attempt S h)))

pub ruleset working = (
  pure-Keeps, throw-Keeps, bind-Keeps, then-Keeps, catch-Keeps, finally-Keeps, ask-Keeps,
  try_ask-Keeps, ignore-Keeps, when-Keeps, require_that-Keeps, from_result-Keeps, poll-Keeps,
  for_each-Keeps, for_samples-Keeps,
)

module _ {I : RigTrace → Type 0} (env : RigEnv) (rd : Readings) (S : WorkStable I env) where
  pub render_perf_manifest-Keeps :
      (e : Executor) (p ns : Text) → Keeps I (render_perf_manifest env rd e p ns)
  unfolding render_perf_manifest
  render_perf_manifest-Keeps e p ns = search (working, S.file) depth 12

  pub apply_manifest-Keeps : (m : Text) → Keeps I (apply_manifest env rd m)
  unfolding apply_manifest
  apply_manifest-Keeps m = search (working, S.kube) depth 12

  deploy_perf-Keeps :
      (e : Executor) (ph : Phase) (p : Text) (b : Bool) → Keeps I (deploy_perf env rd e ph p b)
  unfolding deploy_perf
  deploy_perf-Keeps e ph p b =
      search (working, render_perf_manifest-Keeps, apply_manifest-Keeps) depth 12

  pub patch_vanilla_tbf-Keeps : (e : Executor) → Keeps I (patch_vanilla_tbf env rd e)
  unfolding patch_vanilla_tbf
  patch_vanilla_tbf-Keeps e = search (working, S.shell) depth 12

  read_bps-Keeps : (o : Option rd.F) → Keeps I (read_bps env rd o)
  unfolding read_bps
  read_bps-Keeps none = throw-Keeps _
  read_bps-Keeps (some bps) = pure-Keeps bps

  pub iperf_measure-Keeps : (ns : Text) (c : List Text) → Keeps I (iperf_measure env rd ns c)
  unfolding iperf_measure
  iperf_measure-Keeps ns c = search (working, S.capture, read_bps-Keeps) depth 12

  service_account_ready-Keeps : (ns : Text) → Keeps I (service_account_ready env rd ns)
  unfolding service_account_ready
  service_account_ready-Keeps ns = search (working, S.capture) depth 12

  traffic_flows-Keeps : (ns : Text) → Keeps I (traffic_flows env rd ns)
  unfolding traffic_flows
  traffic_flows-Keeps ns = search (working, S.capture) depth 12

  warm_up-Keeps : (ns : Text) → Keeps I (warm_up env rd ns)
  unfolding warm_up
  warm_up-Keeps ns = search (working, S.kube, S.capture) depth 12

  pub stage_phase-Keeps : (e : Executor) (ph : Phase) → Keeps I (stage_phase env rd e ph)
  unfolding stage_phase
  stage_phase-Keeps e ph =
      search
        (
          working, S, apply_manifest-Keeps, service_account_ready-Keeps, traffic_flows-Keeps,
          warm_up-Keeps, deploy_perf-Keeps, patch_vanilla_tbf-Keeps, S.kube, S.shell,
        )
        depth 40
