-- ===== src/Rig/Executor/Run.antt =====
-- internal/perfrig/executor.go: `runWorkload`, `runPhase` and `Run`, with the types of report.go.
pub mod Fresh
pub mod Installs
pub mod Reports
pub mod Steps
use natra.Base.{
  ℕ, Bool, true, false, Option, none, some, List, [], ◌∷◌, ◌++◌, if◌then◌else◌, Text, codes,
  text_eq,
}
use natra.Base.Result.{Result, ok, err}
use natra.Rig.{Phase, Plan, iperf_sweep, mixed, memory}
use natra.Rig.Cluster.{
  Rig, RigEnv, RigFault, unknown_workload, up, down, install_natra, import_image, ask, ignore, pure,
  throw, catch, finally, ◌>>=◌, ◌>>◌,
}
use natra.Rig.Cluster.Loops.{for_each}
use natra.Rig.Executor.{Readings, Executor, is_natra}
use natra.Rig.Executor.Stage.{when, stage_phase}
use natra.Rig.Executor.Iperf.{IperfCell, run_iperf_sweep}
use natra.Rig.Executor.Mixed.{MixedSample, run_mixed}
use natra.Rig.Executor.Memory.{MemorySample, run_memory}

module _ (env : RigEnv) (rd : Readings) where
  -- `WorkloadReport`
  pub record WorkloadReport : Type 0 where
    pub kind : Text
    pub iperf_cells : List (IperfCell env rd)
    pub mixed_samples : List (MixedSample rd)
    pub memory_samples : List MemorySample

  abbrev pub empty_report : Text → WorkloadReport
  empty_report kind = record {
    kind = kind;
    iperf_cells = [];
    mixed_samples = [];
    memory_samples = [];
  }

  -- `PhaseReport`
  pub record PhaseReport : Type 0 where
    pub phase : Phase
    pub workloads : List WorkloadReport

  module _ (pod_first : Bool) (decimal : ℕ → Text) where
    unfoldable pub report_iperf : Executor → Phase → Rig (List WorkloadReport)
    report_iperf e phase = do
      cells ← run_iperf_sweep env rd e phase
      pure ((record (empty_report iperf_sweep) { iperf_cells = cells }) ∷ [])

    unfoldable pub report_mixed : Executor → Phase → Rig (List WorkloadReport)
    report_mixed e phase = do
      samples ← run_mixed env rd pod_first e phase
      pure ((record (empty_report mixed) { mixed_samples = samples }) ∷ [])

    unfoldable pub report_memory : Executor → Phase → Rig (List WorkloadReport)
    report_memory e phase = do
      samples ← run_memory env rd decimal e phase
      pure ((record (empty_report memory) { memory_samples = samples }) ∷ [])

    -- `runWorkload`
    unfoldable pub run_workload : Executor → Phase → Text → Rig (List WorkloadReport)
    run_workload e phase kind =
        if text_eq kind iperf_sweep
        then report_iperf e phase
        else if text_eq kind mixed
        then report_mixed e phase
        else if text_eq kind memory
        then report_memory e phase
        else throw (unknown_workload kind)

    unfoldable pub install_for : Phase → Rig (Unit {0})
    install_for phase = when (is_natra phase) (ask env install_natra >>= λ _. pure tt)

    -- `runPhase` from `Up` on, which the deferred `Down` covers.
    unfoldable pub measure_phase : Executor → Phase → Rig PhaseReport
    measure_phase e phase = do
      started ← ask env up
      imported ← ask env (import_image e.perfclient_image (codes "Dockerfile.perfclient"))
      install_for phase
      stage_phase env rd e phase
      reports ← for_each e.plan.workloads (run_workload e phase)
      pure (record { phase = phase; workloads = reports })

    -- `runPhase`
    unfoldable pub run_phase : Executor → Phase → Rig PhaseReport
    run_phase e phase = do ignore env down; finally (measure_phase e phase) (ignore env down)

    -- What follows a phase in the loop of `Run`.
    unfoldable pub go_on :
        Result RigFault PhaseReport
        → Rig (List PhaseReport × Option RigFault)
        → Rig (List PhaseReport × Option RigFault)
    go_on (err failure) more = pure ([], some failure)
    go_on (ok report) more = more >>= λ rest. pure (report ∷ rest.0, rest.1)

    -- The loop of `Run`: the reports of the phases that ended well, and the error that ended it.
    unfoldable pub run_phases : Executor → List Phase → Rig (List PhaseReport × Option RigFault)
    run_phases e [] = pure ([], none)
    run_phases e (phase ∷ phases) = do r ← catch (run_phase e phase); go_on r (run_phases e phases)

    -- `Run`
    unfoldable pub run : Executor → Rig (List PhaseReport × Option RigFault)
    run e = run_phases e e.plan.phases
