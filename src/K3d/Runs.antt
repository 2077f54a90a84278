-- ===== src/K3d/Runs.antt =====
-- A run of the perf rig on k3d.
pub mod Deleted
use natra.Base.{Bool, List, [], ◌∷◌, ◌++◌, Text, codes}
use natra.Host.{Host, HostEnv, HostCall, docker_exec, HostTrace, capture, read_file}
use natra.Rig.Cluster.{RigCall, RigReply, Script, words}
use natra.Rig.Substrate.{Implementation, reply_of}
use natra.K3d.{
  K3dSubstrate, kubeconfig_path, delete_cluster, up, import_image, install_natra, widened_path,
}
use natra.K3d.Bpftool.{K3dState, OnK3d, on_host, ensure_bpftool}

module _ (env : HostEnv) (quote : Text → Text) (mode_ : Text) (linux : Bool) (arch : Text)
    (script_text : Script → Text) (k : K3dSubstrate) where
  -- A call that is one command, whose output is returned also where it fails.
  unfoldable pub answer_by : HostCall → K3dState → RigReply × K3dState
  answer_by c s =
      let r = env s.trace c in
      (
        record { failed = r.failed; output = r.output },
        record s { trace = record { call = c; reply = r } ∷ s.trace },
      )

  unfoldable pub outcome_of : {A : Type 0} → OnK3d A → K3dState → RigReply × K3dState
  unfolding reply_of
  outcome_of m s = (reply_of (m s).0, (m s).1)

  -- The methods of `k3dSubstrate`, and kubectl with its kubeconfig.
  unfoldable pub perform : RigCall → K3dState → RigReply × K3dState
  unfolding answer_by outcome_of
  perform RigCall.up = outcome_of (on_host (up env linux k))
  perform RigCall.down = outcome_of (on_host (delete_cluster env k))
  perform RigCall.install_natra = outcome_of (on_host (install_natra env quote mode_ k))
  perform (RigCall.import_image image dockerfile) =
      outcome_of (on_host (import_image env k image dockerfile))
  perform (RigCall.ensure_bpftool node) = outcome_of (ensure_bpftool env k arch node)
  perform (RigCall.node_shell node script) = answer_by (
      capture
        (docker_exec node (codes "sh" ∷ codes "-c" ∷ (widened_path ++ script_text script) ∷ [])))
  perform (RigCall.kubectl stdin args) = answer_by (HostCall.kubectl (kubeconfig_path k) stdin args)
  perform (RigCall.capture_kubectl args) =
      answer_by (HostCall.capture_kubectl (kubeconfig_path k) args)
  perform (RigCall.read_manifest path) = answer_by (read_file path)
  perform (RigCall.sleep millis) = answer_by (HostCall.sleep millis)

  abbrev pub k3d_rig : Implementation K3dState
  k3d_rig = record { perform = perform }
