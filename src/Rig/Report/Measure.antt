-- ===== src/Rig/Report/Measure.antt =====
-- A run of the executor on an implementation of `Substrate` and the report that follows, as cmd/vm-rig and
-- cmd/perfrig write it.
use natra.Base.{ℕ, Bool, Option, none, some, List, [], Text}
use natra.Base.Result.{Result, ok, err}
use natra.Host.{Host, HostEnv, HostTrace, run_failed, throw}
use natra.Rig.Cluster.{RigEnv, RigFault}
use natra.Rig.Substrate.{Implementation, replay, answers}
use natra.Rig.Executor.{Readings, Executor}
use natra.Rig.Executor.Run.{PhaseReport, run}
use natra.Rig.Report.{Figures}
use natra.Rig.Report.Write.{write_report}

-- An implementation with its name, and its state from the host's trace and back.
pub record Rig (S : Type 0) : Type 0 where
  pub impl : Implementation S
  pub name : Text
  pub into : HostTrace → S
  pub trace_of : S → HostTrace

module _ (rd : Readings) (fig : Figures rd) (pod_first : Bool) (decimal : ℕ → Text)
    (host : HostEnv) where
  -- What follows the run: its error, or the report.
  unfoldable pub report_on :
      (env : RigEnv)
      → Text
      → Text
      → Text
      → Executor
      → Result RigFault (List (PhaseReport env rd) × Option RigFault)
      → Host (Unit {0})
  report_on env name generated path e (err _) = throw run_failed
  report_on env name generated path e (ok (phases, some _)) = throw run_failed
  report_on env name generated path e (ok (phases, none)) =
      write_report env rd fig host
        (record { substrate = name; profile = e.plan.profile; phases = phases }) generated path

  unfoldable pub measure_and_report :
      {S : Type 0} → Rig S → Text → Text → Executor → Host (Unit {0})
  unfolding report_on
  measure_and_report rig generated path e t =
      let env = answers rig.impl (rig.into t) in
      let out = run env rd pod_first decimal e [] in
      report_on env rig.name generated path e out.0
        (rig.trace_of (replay rig.impl (rig.into t) out.1))
