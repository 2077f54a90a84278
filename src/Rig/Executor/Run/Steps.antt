-- ===== src/Rig/Executor/Run/Steps.antt =====
-- What the steps of a phase between the installation and the end keep of a property of the trace.
use natra.Base.{ℕ, Bool, Text, text_eq}
use natra.Base.State.Rules.{Keeps, pure-Keeps, throw-Keeps, bind-Keeps, then-Keeps, if-Keeps}
use natra.Rig.{Phase, iperf_sweep, mixed, memory}
use natra.Rig.Cluster.{RigTrace, RigEnv, pure, ◌>>=◌, ◌>>◌}
use natra.Rig.Cluster.Loops.{for_each}
use natra.Rig.Executor.{Readings, Executor}
use natra.Rig.Executor.Stage.{stage_phase}
use natra.Rig.Executor.Work.{WorkStable, for_each-Keeps, stage_phase-Keeps}
use natra.Rig.Executor.Work.Workloads.{run_iperf_sweep-Keeps, run_mixed-Keeps, run_memory-Keeps}
use natra.Rig.Executor.Run.{PhaseReport, report_iperf, report_mixed, report_memory, run_workload}

module _ {I : RigTrace → Type 0} (env : RigEnv) (rd : Readings) (pod_first : Bool)
    (decimal : ℕ → Text) (S : WorkStable I env) where
  run_workload-Keeps :
      (e : Executor) (ph : Phase) (kind : Text)
      → Keeps I (run_workload env rd pod_first decimal e ph kind)
  unfolding run_workload report_iperf report_mixed report_memory
  run_workload-Keeps e ph kind =
      if-Keeps (text_eq kind iperf_sweep)
        (bind-Keeps (run_iperf_sweep-Keeps env rd S e ph) (λ cells. pure-Keeps _))
        (if-Keeps (text_eq kind mixed)
          (bind-Keeps (run_mixed-Keeps env rd S pod_first e ph) (λ samples. pure-Keeps _))
          (if-Keeps (text_eq kind memory)
            (bind-Keeps (run_memory-Keeps env rd S decimal e ph) (λ samples. pure-Keeps _))
            (throw-Keeps _)))

  pub measured-Keeps :
      (e : Executor) (ph : Phase)
      → Keeps I {A = PhaseReport env rd} (
          stage_phase env rd e ph
          >> (for_each e.plan.workloads (run_workload env rd pod_first decimal e ph) >>= λ reports.
              pure (record { phase = ph; workloads = reports })))
  measured-Keeps e ph = then-Keeps (stage_phase-Keeps env rd S e ph) (
      bind-Keeps
        (for_each-Keeps e.plan.workloads (run_workload env rd pod_first decimal e ph)
          (run_workload-Keeps e ph))
        (λ reports. pure-Keeps _))
