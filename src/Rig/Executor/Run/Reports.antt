-- ===== src/Rig/Executor/Run/Reports.antt =====
-- What a run reports: one entry for each thing that the plan asks for, in the plan's order.
use natra.Base.{
  ℕ, zero, suc, ◌+◌, ◌≡◌, refl, ap, sym, ◌∙◌, Bool, true, Option, none, List, [], ◌∷◌, ◌++◌, map,
  Text, text_eq, text_eq→eq, pos_part,
}
use natra.Base.Result.{Result, ok, err}
use natra.Base.State.Returns.{
  Returns, catch-Returns, pure-Returns, throw-Returns, bind-Returns, skip-Returns, then-Returns,
  finally-Returns, if-Returns,
}
use natra.Bpf.Types.{Direction, ingress, egress}
use natra.Rig.{Phase, iperf_sweep, mixed, memory}
use natra.Rig.Cluster.{Rig, RigTrace, RigEnv, RigFault}
use natra.Rig.Cluster.Loops.{for_each, for_samples}
use natra.Rig.Executor.{Readings, Executor}
use natra.Rig.Executor.Iperf.{IperfCell, sweep_sample, sweep_rate, sweep_deployed, run_iperf_sweep}
use natra.Rig.Executor.Run.{
  WorkloadReport, PhaseReport, report_iperf, report_mixed, report_memory, run_workload,
  measure_phase, run_phase, go_on, run_phases, run,
}

-- What a loop over a list is expected to give, by a label of the results.
abbrev pub each {ℓ κ} : {A : Type ℓ} {C : Type κ} → (A → List C) → List A → List C
each expected [] = []
each expected (x ∷ xs) = expected x ++ each expected xs

abbrev pub numbered {ℓ} : {C : Type ℓ} → (ℕ → List C) → ℕ → ℕ → List C
numbered expected s zero = []
numbered expected s (suc left) = expected s ++ numbered expected (s + 1) left

map-append_each {ℓ κ} :
    {B : Type ℓ} {C : Type κ} (f : B → C) (xs ys : List B) → map f (xs ++ ys) ≡ map f xs ++ map f ys
map-append_each f [] ys = refl
map-append_each f (x ∷ xs) ys = ap (λ l. f x ∷ l) (map-append_each f xs ys)

module _ {B C : Type 0} (label : B → C) where
  for_each-labels :
      {A : Type 0} (expected : A → List C) (xs : List A) (body : A → Rig (List B))
      → ((x : A) → Returns (λ bs. map label bs ≡ expected x) (body x))
      → Returns (λ bs. map label bs ≡ each expected xs) (for_each xs body)
  unfolding for_each
  for_each-labels expected [] body h = pure-Returns [] refl
  for_each-labels expected (x ∷ xs) body h = bind-Returns (h x) (λ here eh.
      bind-Returns (for_each-labels expected xs body h) (λ rest er.
        pure-Returns (here ++ rest) (map-append_each label here rest ∙ rw (eh, er) refl)))

  for_samples-labels :
      (expected : ℕ → List C) (s left : ℕ) (body : ℕ → Rig (List B))
      → ((i : ℕ) → Returns (λ bs. map label bs ≡ expected i) (body i))
      → Returns (λ bs. map label bs ≡ numbered expected s left) (for_samples s left body)
  unfolding for_samples
  for_samples-labels expected s zero body h = pure-Returns [] refl
  for_samples-labels expected s (suc left) body h = bind-Returns (h s) (λ here eh.
      bind-Returns (for_samples-labels expected (s + 1) left body h) (λ rest er.
        pure-Returns (here ++ rest) (map-append_each label here rest ∙ rw (eh, er) refl)))

-- What a cell of the sweep is about.
abbrev pub CellLabel : Type 0
CellLabel = Text × Direction × ℕ

abbrev pub sample_labels : Text → ℕ → List CellLabel
sample_labels rate s = (rate, ingress, s) ∷ (rate, egress, s) ∷ []

-- The cells of a sweep: for each rate and sample, one per direction.
abbrev pub sweep_labels : Executor → List CellLabel
sweep_labels e =
    each (λ rate. numbered (sample_labels rate) 1 (pos_part e.plan.samples)) e.plan.rates

module _ (env : RigEnv) (rd : Readings) where
  abbrev pub cell_label : IperfCell env rd → CellLabel
  cell_label c = (c.rate, c.direction, c.sample)

  sweep_sample-labels :
      (ns rate : Text) (s : ℕ)
      → Returns (λ bs. map cell_label bs ≡ sample_labels rate s) (sweep_sample env rd ns rate s)
  unfolding sweep_sample
  sweep_sample-labels ns rate s = skip-Returns _ (λ ing. skip-Returns _ (λ eg. pure-Returns _ refl))

  sweep_rate-labels :
      (e : Executor) (rate : Text)
      → Returns
          (λ bs. map cell_label bs ≡ numbered (sample_labels rate) 1 (pos_part e.plan.samples))
          (sweep_rate env rd e rate)
  unfolding sweep_rate
  sweep_rate-labels e rate =
      then-Returns _
        (for_samples-labels cell_label (sample_labels rate) 1 _ _ (sweep_sample-labels _ rate))

-- A sweep that ends well has measured each rate of the plan, in its order, in each sample of the
-- plan, once per direction and nothing else.
run_iperf_sweep-labels :
    (env : RigEnv) (rd : Readings) (e : Executor) (phase : Phase) (t : RigTrace)
    (cells : List (IperfCell env rd))
    → (run_iperf_sweep env rd e phase t).0 ≡ ok cells
    → map (cell_label env rd) cells ≡ sweep_labels e
unfolding run_iperf_sweep sweep_deployed
run_iperf_sweep-labels env rd e phase t cells =
    let swept : Returns (λ bs. map (cell_label env rd) bs ≡ sweep_labels e)
        (run_iperf_sweep env rd e phase) =
      then-Returns _ (
        finally-Returns _ (
          skip-Returns _ (λ ready. then-Returns _ (
            for_each-labels (cell_label env rd) _ e.plan.rates (sweep_rate env rd e)
              (sweep_rate-labels env rd e))))) in
    swept.holds t cells

module _ (env : RigEnv) (rd : Readings) (pod_first : Bool) (decimal : ℕ → Text) where
  abbrev pub kind_of : WorkloadReport env rd → Text
  kind_of r = r.kind

  run_workload-kind :
      (e : Executor) (ph : Phase) (kind : Text)
      → Returns (λ rs. map kind_of rs ≡ kind ∷ []) (run_workload env rd pod_first decimal e ph kind)
  unfolding run_workload report_iperf report_mixed report_memory
  run_workload-kind e ph kind =
      let names : (known : Text) → text_eq kind known ≡ true → known ∷ [] ≡ kind ∷ [] =
        λ known same. ap (λ (k : Text). k ∷ []) (sym (text_eq→eq kind known same)) in
      if-Returns (text_eq kind iperf_sweep)
        (λ same. skip-Returns _ (λ cells. pure-Returns _ (names iperf_sweep same)))
        (λ _.
          if-Returns (text_eq kind mixed)
            (λ same. skip-Returns _ (λ samples. pure-Returns _ (names mixed same)))
            (λ _.
              if-Returns (text_eq kind memory)
                (λ same. skip-Returns _ (λ samples. pure-Returns _ (names memory same)))
                (λ _. throw-Returns _)))

  -- A phase with the kinds of its workloads.
  abbrev pub contents : PhaseReport env rd → Phase × List Text
  contents r = (r.phase, map kind_of r.workloads)

  each-single : (xs : List Text) → each (λ x. x ∷ []) xs ≡ xs
  each-single [] = refl
  each-single (x ∷ xs) = ap (λ (l : List Text). x ∷ l) (each-single xs)

  run_phase-contents :
      (e : Executor) (ph : Phase)
      → Returns (λ r. contents r ≡ (ph, e.plan.workloads)) (run_phase env rd pod_first decimal e ph)
  unfolding run_phase measure_phase
  run_phase-contents e ph = then-Returns _ (
      finally-Returns _ (
        skip-Returns _ (λ started. skip-Returns _ (λ imported. then-Returns _ (
          then-Returns _ (
            bind-Returns
              (for_each-labels kind_of (λ x. x ∷ []) e.plan.workloads
                (run_workload env rd pod_first decimal e ph) (run_workload-kind e ph))
              (λ reports kinds.
                pure-Returns _
                  (ap (λ (l : List Text). (ph, l)) (kinds ∙ each-single e.plan.workloads)))))))))

  -- The reports are complete where no error ended the run.
  abbrev IsComplete : Executor → List Phase → List (PhaseReport env rd) × Option RigFault → Type 0
  IsComplete e phases out =
      out.1 ≡ none → map contents out.0 ≡ map (λ ph. (ph, e.plan.workloads)) phases

  go_on-IsComplete :
      (e : Executor) (ph : Phase) (phases : List Phase) (r : Result RigFault (PhaseReport env rd))
      (more : Rig (List (PhaseReport env rd) × Option RigFault))
      → ((report : PhaseReport env rd) → r ≡ ok report → contents report ≡ (ph, e.plan.workloads))
      → Returns (IsComplete e phases) more
      → Returns (IsComplete e (ph ∷ phases)) (go_on env rd pod_first decimal r more)
  unfolding go_on
  go_on-IsComplete e ph phases (err failure) more hr hm = pure-Returns _ (λ none_. absurd cc)
  go_on-IsComplete e ph phases (ok report) more hr hm =
      bind-Returns hm
        (λ rest complete. pure-Returns _ (λ done. rw (hr report refl, complete done) refl))

  run_phases-IsComplete :
      (e : Executor) (phases : List Phase)
      → Returns (IsComplete e phases) (run_phases env rd pod_first decimal e phases)
  unfolding run_phases
  run_phases-IsComplete e [] = pure-Returns _ (λ _. refl)
  run_phases-IsComplete e (ph ∷ phases) =
      bind-Returns (catch-Returns (run_phase-contents e ph))
        (λ r hr. go_on-IsComplete e ph phases r _ hr (run_phases-IsComplete e phases))

-- A run that no error ended reports each phase of the plan, in its order, and in each phase each
-- workload of the plan, in its order, and nothing else.
pub run-contents :
    (env : RigEnv) (rd : Readings) (pod_first : Bool) (decimal : ℕ → Text) (e : Executor)
    (t : RigTrace) (reports : List (PhaseReport env rd))
    → (run env rd pod_first decimal e t).0 ≡ ok (reports, none)
    → map (contents env rd pod_first decimal) reports
      ≡ map (λ ph. (ph, e.plan.workloads)) e.plan.phases
unfolding run
run-contents env rd pod_first decimal e t reports h =
    (run_phases-IsComplete env rd pod_first decimal e e.plan.phases).holds t (reports, none) h refl
