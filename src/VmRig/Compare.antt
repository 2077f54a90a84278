-- ===== src/VmRig/Compare.antt =====
-- `cmdPerfVsVanilla` of cmd/vm-rig/perfvsvanilla.go: the executor of the perf rig on lima. `profile_name` is the
-- value of PVV_PROFILE, `generated` the time of the report.
use natra.Base.{ℕ, Bool, if◌then◌else◌, Text, codes, text_eq, pos}
use natra.Base.Result.{Result, ok, err}
use natra.Host.{Host, HostEnv, bad_plan, throw}
use natra.Rig.{Plan, PlanError, Profile, apply, default_spec, profile_full, profile_ci}
use natra.Rig.Cluster.{Script}
use natra.Rig.Executor.{Readings, Executor}
use natra.Rig.Report.{Figures}
use natra.Rig.Report.Measure.{measure_and_report}
use natra.VmRig.{Config}
use natra.VmRig.Substrate.{nodes, lima_rig}

unfoldable pub profile_of : Text → Profile
profile_of name = if text_eq name (codes "ci") then profile_ci else profile_full

unfoldable pub lima_executor : Config → Plan → Executor
lima_executor c plan = record {
  plan = plan;
  server = (nodes c).0;
  worker = (nodes c).1;
  repo_root = c.repo_root;
  namespace = codes "natra-vm-rig";
  perfclient_image = c.perfclient_image;
  memory_n_pod_count = pos 8;
}

module _ (env : HostEnv) (rd : Readings) (fig : Figures rd) (pod_first : Bool) (decimal : ℕ → Text)
    (quote : Text → Text) (mode_ : Text) (darwin : Bool) (script_text : Script → Text)
    (generated : Text) where
  unfoldable pub measure_plan : Config → Result PlanError Plan → Host (Unit {0})
  measure_plan c (err _) = throw bad_plan
  measure_plan c (ok plan) =
      measure_and_report rd fig pod_first decimal env
        (record {
          impl = lima_rig env quote mode_ darwin script_text c;
          name = codes "vm-rig";
          into = λ t. t;
          trace_of = λ t. t;
        })
        generated (codes "/tmp/natra-vm-rig-perf-vs-vanilla-result.txt") (lima_executor c plan)

  -- `cmdPerfVsVanilla`
  unfoldable pub cmd_perf_vs_vanilla : Text → Config → Host (Unit {0})
  cmd_perf_vs_vanilla profile_name c = measure_plan c (apply default_spec (profile_of profile_name))
