-- ===== src/Rig/Executor/Run/Fresh.antt =====
-- The fresh-cluster contract of a run.
use natra.Base.{ℕ, ◌≡◌, refl, ◌≢◌, ap, sym, subst, Bool, Option, List, [], ◌∷◌, Text}
use natra.Base.Result.{Result, ok, err}
use natra.Base.State.Rules.{
  Keeps, pure-Keeps, bind-Keeps, Moves, bind-Moves, then-Moves, finally-Moves,
}
use natra.Rig.{Phase, baseline, vanilla, natra_phase}
use natra.Rig.Cluster.{
  Rig, RigTrace, RigEnv, RigCall, RigFault, up, down, install_natra, import_image, ask, ignore,
  pure, catch,
}
use natra.Rig.Executor.{Readings, Executor}
use natra.Rig.Executor.Stage.{when}
use natra.Rig.Executor.Work.{WorkStable}
use natra.Rig.Executor.Run.Steps.{measured-Keeps}
use natra.Rig.Executor.Run.{
  PhaseReport, install_for, measure_phase, run_phase, go_on, run_phases, run,
}

-- What a run has made of the cluster: `misused` by an `Up` on a cluster that is not torn down, by
-- work without a cluster, or by an installation on a cluster that is not fresh.
pub data Cluster : Type 0 where
  torn_down fresh installed misused : Cluster

abbrev pub worked : Cluster → Cluster
worked torn_down = misused
worked fresh = fresh
worked installed = installed
worked misused = misused

abbrev pub brought_up : Cluster → Cluster
brought_up torn_down = fresh
brought_up _ = misused

abbrev pub wiped : Cluster → Cluster
wiped misused = misused
wiped _ = torn_down

abbrev pub with_natra : Cluster → Cluster
with_natra fresh = installed
with_natra _ = misused

abbrev pub after_call : RigCall → Cluster → Cluster
after_call up = brought_up
after_call down = wiped
after_call install_natra = with_natra
after_call _ = worked

-- The cluster after the calls of a trace, from a first state on.
unfoldable pub cluster_after : Cluster → RigTrace → Cluster
cluster_after start [] = start
cluster_after start (event ∷ t) = after_call event.call (cluster_after start t)

-- There is a cluster that has seen an `Up` and no `Down` since.
abbrev pub IsLive : Cluster → Type 0
IsLive fresh = Unit
IsLive installed = Unit
IsLive torn_down = ⊥
IsLive misused = ⊥

module _ (env : RigEnv) (start : Cluster) where
  abbrev At : Cluster → RigTrace → Type 0
  At c t = cluster_after start t ≡ c

  abbrev Live : RigTrace → Type 0
  Live t = IsLive (cluster_after start t)

  worked-IsLive : (c : Cluster) → IsLive c → IsLive (worked c)
  worked-IsLive fresh h = tt
  worked-IsLive installed h = tt
  worked-IsLive torn_down h = h
  worked-IsLive misused h = h

  Live-work : WorkStable Live env
  unfolding cluster_after
  Live-work = record {
    image = λ i d. record { extend = λ t h. worked-IsLive _ h };
    bpftool = λ n. record { extend = λ t h. worked-IsLive _ h };
    shell = λ n s. record { extend = λ t h. worked-IsLive _ h };
    kube = λ s args. record { extend = λ t h. worked-IsLive _ h };
    capture = λ args. record { extend = λ t h. worked-IsLive _ h };
    file = λ p. record { extend = λ t h. worked-IsLive _ h };
    pause = λ n. record { extend = λ t h. worked-IsLive _ h };
  }

  fresh-Live : (t : RigTrace) → At fresh t → Live t
  fresh-Live t h = subst IsLive (sym h) tt

  up-Moves : Moves (At torn_down) (At fresh) (ask env up)
  unfolding ask cluster_after
  up-Moves = record { reach = λ t h. ap brought_up h }

  image-Moves : (i d : Text) → Moves (At fresh) (At fresh) (ask env (import_image i d))
  unfolding ask cluster_after
  image-Moves i d = record { reach = λ t h. ap worked h }

  install-Moves : Moves (At fresh) Live (ask env install_natra)
  unfolding ask cluster_after
  install-Moves = record { reach = λ t h. subst IsLive (sym (ap with_natra h)) tt }

  wipe : (c : Cluster) → c ≢ misused → wiped c ≡ torn_down
  wipe torn_down h = refl
  wipe fresh h = refl
  wipe installed h = refl
  wipe misused h = absurd (h refl)

  live-ne-misused : (c : Cluster) → IsLive c → c ≢ misused
  live-ne-misused torn_down h = absurd h
  live-ne-misused fresh h = λ e. cc
  live-ne-misused installed h = λ e. cc
  live-ne-misused misused h = absurd h

  -- A cluster that has not been misused.
  abbrev Sound : RigTrace → Type 0
  Sound t = cluster_after start t ≢ misused

  down-Moves : Moves Sound (At torn_down) (ignore env down)
  unfolding ignore cluster_after
  down-Moves = record { reach = λ t h. wipe (cluster_after start t) h }

  module _ (rd : Readings) (pod_first : Bool) (decimal : ℕ → Text) where
    install_for-Moves :
        (ph : Phase) → Moves (At fresh) Live (install_for env rd pod_first decimal ph)
    unfolding install_for when pure
    install_for-Moves baseline = record { reach = fresh-Live }
    install_for-Moves vanilla = record { reach = fresh-Live }
    install_for-Moves natra_phase =
        bind-Moves install-Moves (λ t h. h) (λ _. record { reach = λ t h. h })

    measure_phase-Moves :
        (e : Executor) (ph : Phase)
        → Moves (At torn_down) Live (measure_phase env rd pod_first decimal e ph)
    unfolding measure_phase
    measure_phase-Moves e ph = bind-Moves up-Moves fresh-Live (λ _.
        bind-Moves (image-Moves _ _) fresh-Live (λ _.
          then-Moves (install_for-Moves ph) (λ t h. h)
            (record { reach = (measured-Keeps env rd pod_first decimal Live-work e ph).after })))

    run_phase-Moves :
        (e : Executor) (ph : Phase)
        → Moves Sound (At torn_down) (run_phase env rd pod_first decimal e ph)
    unfolding run_phase
    run_phase-Moves e ph =
        then-Moves down-Moves (λ t h. h)
          (finally-Moves (measure_phase-Moves e ph) (record {
            reach = λ t h. down-Moves.reach t (live-ne-misused (cluster_after start t) h);
          }))

    torn_down-Sound : (t : RigTrace) → At torn_down t → Sound t
    torn_down-Sound t h e = absurd cc

    go_on-Moves :
        (r : Result RigFault (PhaseReport env rd))
        (more : Rig (List (PhaseReport env rd) × Option RigFault))
        → Keeps (At torn_down) more
        → Moves (At torn_down) (At torn_down) (go_on env rd pod_first decimal r more)
    unfolding go_on
    go_on-Moves (err failure) more h = record { reach = (pure-Keeps _).after }
    go_on-Moves (ok report) more h = record { reach = (bind-Keeps h (λ rest. pure-Keeps _)).after }

    one_phase-Moves :
        (e : Executor) (ph : Phase) (phases : List Phase)
        → Keeps (At torn_down) (run_phases env rd pod_first decimal e phases)
        → Moves Sound (At torn_down) (run_phases env rd pod_first decimal e (ph ∷ phases))
    unfolding run_phases catch
    one_phase-Moves e ph phases h =
        let caught : Moves Sound (At torn_down) (catch (run_phase env rd pod_first decimal e ph)) =
          record { reach = (run_phase-Moves e ph).reach } in
        bind-Moves caught (λ t h. h)
          (λ r. go_on-Moves r (run_phases env rd pod_first decimal e phases) h)

    run_phases-Keeps :
        (e : Executor) (phases : List Phase)
        → Keeps (At torn_down) (run_phases env rd pod_first decimal e phases)
    unfolding run_phases
    run_phases-Keeps e [] = pure-Keeps _
    run_phases-Keeps e (ph ∷ phases) = record {
      after = λ t h.
          (one_phase-Moves e ph phases (run_phases-Keeps e phases)).reach t (torn_down-Sound t h);
    }

-- From any state of the cluster but `misused`, and whatever the calls return: a run with a phase
-- ends with the cluster torn down and has not misused it. So it brings a cluster up only after
-- tearing down, installs natra at most once on a cluster, works only between
-- `Up` and `Down`, and ends with a `Down`, also where a step fails.
pub run-torn_down :
    (env : RigEnv) (start : Cluster) (rd : Readings) (pod_first : Bool) (decimal : ℕ → Text)
    (e : Executor) (phase : Phase) (phases : List Phase)
    → start ≢ misused
    → e.plan.phases ≡ phase ∷ phases
    → cluster_after start (run env rd pod_first decimal e []).1 ≡ torn_down
unfolding run cluster_after
run-torn_down env start rd pod_first decimal e phase phases sound some_phase =
    subst
      (λ (ps : List Phase).
        cluster_after start (run_phases env rd pod_first decimal e ps []).1 ≡ torn_down)
      (sym some_phase)
      ((one_phase-Moves env start rd pod_first decimal e phase phases
          (run_phases-Keeps env start rd pod_first decimal e phases)).reach
        [] sound)
