-- ===== src/K3d/Runs/Deleted.antt =====
-- A run on k3d deletes its cluster.
use natra.Base.{
  ℕ, ◌≡◌, ◌≢◌, ◌⊎◌, inl, inr, refl, Bool, true, false, ◌&&◌, Bool-cases, if◌then◌else◌, text_eq,
  text_eq_refl, List, [], ◌∷◌, Text,
}
use natra.Base.State.{pure, bind_result, ◌>>=◌, ◌>>◌}
use natra.Host.{HostEnv, HostTrace, HostCall, k3d_create, k3d_delete, capture, ignore}
use natra.Host.Last.{LastCall, LastWorked, LastFailed}
use natra.Rig.{Phase}
use natra.Rig.Cluster.{RigTrace, RigCall, Script}
use natra.Rig.Substrate.{replay, answers}
use natra.Rig.Executor.{Readings, Executor}
use natra.Rig.Executor.Run.{run}
use natra.Rig.Executor.Run.Fresh.{
  Cluster, torn_down, fresh, installed, misused, worked, brought_up, with_natra, after_call,
  cluster_after, run-torn_down,
}
use natra.K3d.{K3dSubstrate, delete_cluster}
use natra.K3d.Bpftool.{K3dState, on_host}
use natra.K3d.Runs.{outcome_of, perform, k3d_rig}

worked-ne-torn_down : (c : Cluster) → worked c ≢ torn_down
worked-ne-torn_down torn_down e = absurd cc
worked-ne-torn_down fresh e = absurd cc
worked-ne-torn_down installed e = absurd cc
worked-ne-torn_down misused e = absurd cc

brought_up-ne-torn_down : (c : Cluster) → brought_up c ≢ torn_down
brought_up-ne-torn_down torn_down e = absurd cc
brought_up-ne-torn_down fresh e = absurd cc
brought_up-ne-torn_down installed e = absurd cc
brought_up-ne-torn_down misused e = absurd cc

with_natra-ne-torn_down : (c : Cluster) → with_natra c ≢ torn_down
with_natra-ne-torn_down torn_down e = absurd cc
with_natra-ne-torn_down fresh e = absurd cc
with_natra-ne-torn_down installed e = absurd cc
with_natra-ne-torn_down misused e = absurd cc

module _ (env : HostEnv) (quote : Text → Text) (mode_ : Text) (linux : Bool) (arch : Text)
    (script_text : Script → Text) (k : K3dSubstrate) where
  -- What the substrate does with the calls of a trace.
  abbrev pub k3d_state : K3dState → RigTrace → K3dState
  k3d_state start = replay (k3d_rig env quote mode_ linux arch script_text k) start

  call_deletes :
      (c : RigCall) (before : Cluster) (s : K3dState)
      → after_call c before ≡ torn_down
      → LastCall
          (capture (k3d_delete k.cluster))
          (perform env quote mode_ linux arch script_text k c s).1.trace
  unfolding perform outcome_of on_host delete_cluster ignore bind_result pure ◌>>=◌ ◌>>◌
  call_deletes RigCall.up before s e = absurd (brought_up-ne-torn_down before e)
  call_deletes RigCall.down before s e = refl
  call_deletes RigCall.install_natra before s e = absurd (with_natra-ne-torn_down before e)
  call_deletes (RigCall.import_image i d) before s e = absurd (worked-ne-torn_down before e)
  call_deletes (RigCall.ensure_bpftool n) before s e = absurd (worked-ne-torn_down before e)
  call_deletes (RigCall.node_shell n x) before s e = absurd (worked-ne-torn_down before e)
  call_deletes (RigCall.kubectl i a) before s e = absurd (worked-ne-torn_down before e)
  call_deletes (RigCall.capture_kubectl a) before s e = absurd (worked-ne-torn_down before e)
  call_deletes (RigCall.read_manifest p) before s e = absurd (worked-ne-torn_down before e)
  call_deletes (RigCall.sleep n) before s e = absurd (worked-ne-torn_down before e)

  trace_deletes :
      (start : K3dState) (t : RigTrace)
      → cluster_after fresh t ≡ torn_down
      → LastCall (capture (k3d_delete k.cluster)) (k3d_state start t).trace
  unfolding replay cluster_after
  trace_deletes start [] e = absurd cc
  trace_deletes start (event ∷ t) e =
      call_deletes event.call (cluster_after fresh t) (k3d_state start t) e

fresh-ne-misused : fresh ≢ misused
fresh-ne-misused e = absurd cc

-- Whether the cluster of a name exists after the calls of a trace, if it did before the first: it is
-- there from an attempt to make it on, until a deletion works.
abbrev pub after_host : Text → HostCall → Bool → Bool → Bool
after_host name (capture (k3d_create n)) failed before = if text_eq n name then true else before
after_host name (capture (k3d_delete n)) failed before =
    if text_eq n name then failed && before else before
after_host name _ failed before = before

unfoldable pub cluster_exists : Text → Bool → HostTrace → Bool
cluster_exists name before [] = before
cluster_exists name before (event ∷ t) =
    after_host name event.call event.reply.failed (cluster_exists name before t)

-- The last command deletes the cluster. Either it works, and the cluster does not exist, or it fails.
abbrev pub IsDeleted : Text → Bool → HostTrace → Type 0
IsDeleted name before t =
    (LastWorked (capture (k3d_delete name)) t × (cluster_exists name before t ≡ false))
    ⊎ LastFailed (capture (k3d_delete name)) t

LastCall-IsDeleted :
    (name : Text) (before : Bool) (t : HostTrace)
    → LastCall (capture (k3d_delete name)) t
    → IsDeleted name before t
unfolding cluster_exists
LastCall-IsDeleted name before [] h = elim h [ ]
LastCall-IsDeleted name before (event ∷ t) h = elim (Bool-cases event.reply.failed) [
  | inl no_ ↦ inr (h, no_)
  | inr worked_ ↦ inl ((h, worked_), rw (h, worked_, text_eq_refl name) refl)
]

-- The last command of a run of the perf rig on k3d, whose plan has a phase, deletes the cluster,
-- wherever the run fails and whatever the commands return. If this command works, no cluster of the
-- name is left by the commands of the trace; if it fails, which the run does not look at, nothing is
-- said of the cluster.
pub run_on_k3d-deletes :
    (env : HostEnv) (quote : Text → Text) (mode_ : Text) (linux : Bool) (arch : Text)
    (script_text : Script → Text) (k : K3dSubstrate) (start : K3dState) (rd : Readings)
    (pod_first : Bool) (decimal : ℕ → Text) (e : Executor) (ph : Phase) (phases : List Phase)
    (existed : Bool)
    → e.plan.phases ≡ ph ∷ phases
    → let rig = answers (k3d_rig env quote mode_ linux arch script_text k) start in
      IsDeleted k.cluster existed
        (k3d_state env quote mode_ linux arch script_text k start
          (run rig rd pod_first decimal e []).1).trace
run_on_k3d-deletes env quote mode_ linux arch script_text k start rd pod_first decimal e ph phases
      existed h =
    let rig = answers (k3d_rig env quote mode_ linux arch script_text k) start in
    LastCall-IsDeleted k.cluster existed _ (
      trace_deletes env quote mode_ linux arch script_text k start
        (run rig rd pod_first decimal e []).1
        (run-torn_down rig fresh rd pod_first decimal e ph phases fresh-ne-misused h))
