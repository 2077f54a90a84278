-- ===== src/Rig/Executor/Run/Installs.antt =====
-- How often a run installs natra.
use natra.Base.{ℕ, ◌+◌, ◌≤◌, ◌≡◌, refl, arith, Bool, Option, List, [], ◌∷◌, Text}
use natra.Base.Result.{Result, ok, err}
use natra.Base.State.Rules.{Moves, bind-Moves, then-Moves, finally-Moves}
use natra.Rig.{Phase, baseline, vanilla, natra_phase}
use natra.Rig.Cluster.{
  Rig, RigTrace, RigEnv, RigCall, RigFault, up, down, install_natra, ask, ignore, pure, catch,
}
use natra.Rig.Executor.{Readings, Executor}
use natra.Rig.Executor.Stage.{when}
use natra.Rig.Executor.Work.{RigStable, WorkStable, ask-Keeps, ignore-Keeps}
use natra.Rig.Executor.Run.Steps.{measured-Keeps}
use natra.Rig.Executor.Run.{
  PhaseReport, install_for, measure_phase, run_phase, go_on, run_phases, run,
}

abbrev pub is_install : RigCall → ℕ
is_install install_natra = 1
is_install _ = 0

-- The installations of a trace.
unfoldable pub installs : RigTrace → ℕ
installs [] = 0
installs (event ∷ t) = is_install event.call + installs t

abbrev pub wants_natra : Phase → ℕ
wants_natra baseline = 0
wants_natra vanilla = 0
wants_natra natra_phase = 1

unfoldable pub natra_phases : List Phase → ℕ
natra_phases [] = 0
natra_phases (ph ∷ phases) = wants_natra ph + natra_phases phases

module _ (env : RigEnv) where
  -- At most `n` installations so far.
  abbrev AtMost : ℕ → RigTrace → Type 0
  AtMost n t = installs t ≤ n

  stable : (n : ℕ) (c : RigCall) → is_install c ≡ 0 → RigStable (AtMost n) env c
  unfolding installs
  stable n c none_ = record { extend = λ t h. omega arith }

  work : (n : ℕ) → WorkStable (AtMost n) env
  work n = record {
    image = λ i d. stable n _ refl;
    bpftool = λ m. stable n _ refl;
    shell = λ m s. stable n _ refl;
    kube = λ s args. stable n _ refl;
    capture = λ args. stable n _ refl;
    file = λ p. stable n _ refl;
    pause = λ ms. stable n _ refl;
  }

  install-Moves : (n : ℕ) → Moves (AtMost n) (AtMost (1 + n)) (ask env install_natra)
  unfolding ask installs
  install-Moves n = record { reach = λ t h. omega arith }

  module _ (rd : Readings) (pod_first : Bool) (decimal : ℕ → Text) where
    install_for-Moves :
        (ph : Phase) (n : ℕ)
        → Moves (AtMost n) (AtMost (wants_natra ph + n)) (install_for env rd pod_first decimal ph)
    unfolding install_for when pure
    install_for-Moves baseline n = record { reach = λ t h. omega arith }
    install_for-Moves vanilla n = record { reach = λ t h. omega arith }
    install_for-Moves natra_phase n =
        bind-Moves (install-Moves n) (λ t h. h) (λ _. record { reach = λ t h. h })

    run_phase-Moves :
        (e : Executor) (ph : Phase) (n : ℕ)
        → Moves (AtMost n) (AtMost (wants_natra ph + n)) (run_phase env rd pod_first decimal e ph)
    unfolding run_phase measure_phase
    run_phase-Moves e ph n =
        let m = wants_natra ph + n in
        let more : (t : RigTrace) → AtMost n t → AtMost m t = λ t h. omega arith in
        let quiet : (k : ℕ) (c : RigCall)
            → is_install c ≡ 0
            → Moves (AtMost k) (AtMost k) (ask env c) =
          λ k c h. record { reach = (ask-Keeps (stable k c h)).after } in
        let wipe : (k : ℕ) → Moves (AtMost k) (AtMost k) (ignore env down) =
          λ k. record { reach = (ignore-Keeps (stable k down refl)).after } in
        then-Moves (wipe n) more (
          finally-Moves
            (bind-Moves (quiet n up refl) more (λ _. bind-Moves (quiet n _ refl) more (λ _.
              then-Moves (install_for-Moves ph n) (λ t h. h)
                (record {
                  reach = (measured-Keeps env rd pod_first decimal (work m) e ph).after;
                }))))
            (wipe m))

    go_on-Moves :
        (n m : ℕ) (r : Result RigFault (PhaseReport env rd))
        (more : Rig (List (PhaseReport env rd) × Option RigFault))
        → n ≤ m
        → Moves (AtMost n) (AtMost m) more
        → Moves (AtMost n) (AtMost m) (go_on env rd pod_first decimal r more)
    unfolding go_on pure
    go_on-Moves n m (err failure) more le h = record { reach = λ t i. omega arith }
    go_on-Moves n m (ok report) more le h =
        bind-Moves h (λ t i. i) (λ rest. record { reach = λ t i. i })

    run_phases-Moves :
        (e : Executor) (phases : List Phase) (n : ℕ)
        → Moves
            (AtMost n)
            (AtMost (natra_phases phases + n))
            (run_phases env rd pod_first decimal e phases)
    unfolding run_phases natra_phases catch pure
    run_phases-Moves e [] n = record { reach = λ t h. omega arith }
    run_phases-Moves e (ph ∷ phases) n =
        let k = wants_natra ph + n in
        let m = (wants_natra ph + natra_phases phases) + n in
        let caught : Moves (AtMost n) (AtMost k) (catch (run_phase env rd pod_first decimal e ph)) =
          record { reach = (run_phase-Moves e ph n).reach } in
        let later : Moves (AtMost k) (AtMost m) (run_phases env rd pod_first decimal e phases) =
          record { reach = λ t h. omega (arith, (run_phases-Moves e phases k).reach t h) } in
        bind-Moves caught (λ t h. omega arith)
          (λ r.
            go_on-Moves k m r (run_phases env rd pod_first decimal e phases) (omega arith) later)

-- Whatever the calls return, a run installs natra at most as often as the plan has a natra phase:
-- never in a baseline or a vanilla phase, and at most once in a phase of natra.
run-installs-le :
    (env : RigEnv) (rd : Readings) (pod_first : Bool) (decimal : ℕ → Text) (e : Executor)
    → installs (run env rd pod_first decimal e []).1 ≤ natra_phases e.plan.phases
unfolding run installs
run-installs-le env rd pod_first decimal e =
    omega
      (arith, (run_phases-Moves env rd pod_first decimal e e.plan.phases 0).reach [] (omega arith))
