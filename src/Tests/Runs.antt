-- ===== src/Tests/Runs.antt =====
-- The perf rig on a cluster whose every call works.
use natra.Base.{
  any, not, Without, ℕ, suc, ◌+◌, ◌≤◌, ◌≡◌, ◌≢◌, ◌⊎◌, refl, inl, inr, Bool, true, false, Option,
  none, some, List, [], ◌∷◌, ◌++◌, map, length, Text, codes, pos, ltb, text_eq, arith,
}
use natra.Base.Result.{ok}
use natra.Bpf.Types.{ingress, egress}
use natra.Rig.{Phase, Plan, baseline, vanilla, natra_phase, iperf_sweep, mixed, memory, rate_10m}
use natra.Rig.Cluster.{RigEnv, unreachable}
use natra.Rig.Manifest.{
  newline, split, join, contains, is_annotation, kept_lines, strip_bandwidth_annotations,
}
use natra.Rig.Manifest.Occurs.{IsAnnotation}
use natra.Rig.Manifest.Lines.{IsUnannotated, strip_bandwidth_annotations-lines}
use natra.Rig.Executor.{Readings, Executor}
use natra.Rig.Executor.Iperf.{IperfCell, wait_iperf_reachable, run_iperf_sweep}
use natra.Rig.Executor.Run.{WorkloadReport, PhaseReport, run}
use natra.Rig.Executor.Run.Fresh.{fresh, torn_down, misused, cluster_after, run-torn_down}
use natra.Rig.Executor.Run.Reports.{contents, run-contents}

abbrev pub works : RigEnv
works t c = record { failed = false; output = [] }

abbrev pub readings : Readings
readings = record {
  F = ℕ;
  zero_f = 0;
  is_pos = λ n. ltb 0 n;
  received_bps = λ _. some 9;
  sender_bps = λ _. some (9 ∷ 8 ∷ []);
  csv_rows = λ _. none;
  parse_float = λ _. none;
  sort = λ xs. xs;
  rank = λ k n. pos n;
  median = 50;
  tail = 99;
  per_second = λ n s. n;
  to_millis = λ n. n;
  bpf_objects = λ _. [];
}

abbrev pub no_decimal : ℕ → Text
no_decimal n = []

abbrev pub plan : Plan
plan = record {
  phases = baseline ∷ natra_phase ∷ [];
  rates = rate_10m ∷ [];
  workloads = iperf_sweep ∷ [];
  samples = pos 2;
  profile = codes "ci";
}

abbrev pub executor : Executor
executor = record {
  plan = plan;
  server = codes "s";
  worker = codes "w";
  repo_root = [];
  namespace = [];
  perfclient_image = codes "i";
  memory_n_pod_count = pos 8;
}

fresh-ne-misused : fresh ≢ misused
fresh-ne-misused e = absurd cc

run-torn_down_example :
    cluster_after fresh (run works readings true no_decimal executor []).1 ≡ torn_down
run-torn_down_example =
    run-torn_down works fresh readings true no_decimal executor baseline (natra_phase ∷ [])
      fresh-ne-misused refl

abbrev pub cells : List (IperfCell works readings)
cells =
    (record { rate = rate_10m; direction = ingress; sample = 1; bps = 9 })
    ∷ (record { rate = rate_10m; direction = egress; sample = 1; bps = 9 })
    ∷ (record { rate = rate_10m; direction = ingress; sample = 2; bps = 9 })
    ∷ (record { rate = rate_10m; direction = egress; sample = 2; bps = 9 })
    ∷ []

sweep_works : (run_iperf_sweep works readings executor baseline []).0 ≡ ok cells
unfolding natra.Base.State.pure natra.Base.State.throw natra.Base.State.bind_result
    natra.Base.State.◌>>=◌ natra.Base.State.◌>>◌ natra.Base.State.catch natra.Base.State.finally
    natra.Base.State.settle natra.Base.State.or_cleanup natra.Rig.Cluster.ask
    natra.Rig.Cluster.try_ask natra.Rig.Cluster.ignore natra.Rig.Cluster.Loops.for_each
    natra.Rig.Cluster.Loops.for_samples natra.Rig.Cluster.Loops.poll natra.Rig.Manifest.contains
    natra.Rig.Manifest.replace_from natra.Rig.Manifest.replace_all natra.Rig.Manifest.replace_once
    natra.Rig.Manifest.first_match natra.Rig.Manifest.replacer_from natra.Rig.Manifest.split
    natra.Rig.Manifest.join natra.Rig.Manifest.is_annotation natra.Rig.Manifest.kept_lines
    natra.Rig.Manifest.strip_bandwidth_annotations natra.Rig.Manifest.apply_natra_attach_mode_env
    natra.Rig.Manifest.perf_pairs natra.Rig.Executor.namespace_for_phase
    natra.Rig.Executor.Stage.when natra.Rig.Executor.Stage.require_that
    natra.Rig.Executor.Stage.is_ok natra.Rig.Executor.Stage.render_perf_manifest
    natra.Rig.Executor.Stage.annotated natra.Rig.Executor.Stage.apply_manifest
    natra.Rig.Executor.Stage.deploy_perf natra.Rig.Executor.Stage.patch_vanilla_tbf
    natra.Rig.Executor.Stage.read_bps natra.Rig.Executor.Stage.iperf_measure
    natra.Rig.Executor.Stage.has_traffic natra.Rig.Executor.Stage.namespace_manifest
    natra.Rig.Executor.Stage.service_account_ready natra.Rig.Executor.Stage.traffic_flows
    natra.Rig.Executor.Stage.warm_up natra.Rig.Executor.Stage.stage_phase
    natra.Rig.Executor.Iperf.iperf_sweep_pod_name natra.Rig.Executor.Iperf.set_rate
    natra.Rig.Executor.Iperf.sweep_manifest natra.Rig.Executor.Iperf.deploy_iperf_sweep_pod
    natra.Rig.Executor.Iperf.deploy_sweep_pods natra.Rig.Executor.Iperf.is_reached
    natra.Rig.Executor.Iperf.try_reach natra.Rig.Executor.Iperf.wait_iperf_reachable
    natra.Rig.Executor.Iperf.sweep_sample natra.Rig.Executor.Iperf.sweep_rate
    natra.Rig.Executor.Iperf.sweep_deployed natra.Rig.Executor.Iperf.run_iperf_sweep
    natra.Base.text_eq natra.Base.has_prefix
sweep_works = refl

abbrev sweep_report : WorkloadReport works readings
sweep_report = record {
  kind = iperf_sweep;
  iperf_cells = cells;
  mixed_samples = [];
  memory_samples = [];
}

abbrev reports : List (PhaseReport works readings)
reports =
    (record { phase = baseline; workloads = sweep_report ∷ [] })
    ∷ (record { phase = natra_phase; workloads = sweep_report ∷ [] })
    ∷ []

run_succeeds : (run works readings true no_decimal executor []).0 ≡ ok (reports, none)
unfolding natra.Base.State.pure natra.Base.State.throw natra.Base.State.bind_result
    natra.Base.State.◌>>=◌ natra.Base.State.◌>>◌ natra.Base.State.catch natra.Base.State.finally
    natra.Base.State.settle natra.Base.State.or_cleanup natra.Rig.Cluster.ask
    natra.Rig.Cluster.try_ask natra.Rig.Cluster.ignore natra.Rig.Cluster.Loops.for_each
    natra.Rig.Cluster.Loops.for_samples natra.Rig.Cluster.Loops.poll natra.Rig.Manifest.contains
    natra.Rig.Manifest.replace_from natra.Rig.Manifest.replace_all natra.Rig.Manifest.replace_once
    natra.Rig.Manifest.first_match natra.Rig.Manifest.replacer_from natra.Rig.Manifest.split
    natra.Rig.Manifest.join natra.Rig.Manifest.is_annotation natra.Rig.Manifest.kept_lines
    natra.Rig.Manifest.strip_bandwidth_annotations natra.Rig.Manifest.apply_natra_attach_mode_env
    natra.Rig.Manifest.perf_pairs natra.Rig.Executor.namespace_for_phase
    natra.Rig.Executor.Stage.when natra.Rig.Executor.Stage.require_that
    natra.Rig.Executor.Stage.is_ok natra.Rig.Executor.Stage.render_perf_manifest
    natra.Rig.Executor.Stage.annotated natra.Rig.Executor.Stage.apply_manifest
    natra.Rig.Executor.Stage.deploy_perf natra.Rig.Executor.Stage.patch_vanilla_tbf
    natra.Rig.Executor.Stage.read_bps natra.Rig.Executor.Stage.iperf_measure
    natra.Rig.Executor.Stage.has_traffic natra.Rig.Executor.Stage.namespace_manifest
    natra.Rig.Executor.Stage.service_account_ready natra.Rig.Executor.Stage.traffic_flows
    natra.Rig.Executor.Stage.warm_up natra.Rig.Executor.Stage.stage_phase
    natra.Rig.Executor.Iperf.iperf_sweep_pod_name natra.Rig.Executor.Iperf.set_rate
    natra.Rig.Executor.Iperf.sweep_manifest natra.Rig.Executor.Iperf.deploy_iperf_sweep_pod
    natra.Rig.Executor.Iperf.deploy_sweep_pods natra.Rig.Executor.Iperf.is_reached
    natra.Rig.Executor.Iperf.try_reach natra.Rig.Executor.Iperf.wait_iperf_reachable
    natra.Rig.Executor.Iperf.sweep_sample natra.Rig.Executor.Iperf.sweep_rate
    natra.Rig.Executor.Iperf.sweep_deployed natra.Rig.Executor.Iperf.run_iperf_sweep
    natra.Rig.Executor.Run.report_iperf natra.Rig.Executor.Run.report_mixed
    natra.Rig.Executor.Run.report_memory natra.Rig.Executor.Run.run_workload
    natra.Rig.Executor.Run.install_for natra.Rig.Executor.Run.measure_phase
    natra.Rig.Executor.Run.run_phase natra.Rig.Executor.Run.go_on natra.Rig.Executor.Run.run_phases
    natra.Rig.Executor.Run.run natra.Base.text_eq natra.Base.has_prefix
run_succeeds = refl

run-contents_example :
    map (contents works readings true no_decimal) reports
    ≡ map (λ ph. (ph, iperf_sweep ∷ [])) (baseline ∷ natra_phase ∷ [])
run-contents_example = run-contents works readings true no_decimal executor [] reports run_succeeds

abbrev manifest : Text
manifest =
    codes "name: a"
    ++ (newline ∷ codes "  kubernetes.io/ingress-bandwidth: 10M")
    ++ (newline ∷ codes "spec:")

abbrev stripped : Text
stripped = codes "name: a" ++ (newline ∷ codes "spec:")

some_line : any (λ l. not (is_annotation l)) (split newline manifest) ≡ true
unfolding split is_annotation contains natra.Base.has_prefix
some_line = refl

strip_bandwidth_annotations-lines_example :
    Without IsAnnotation
      (split newline manifest)
      (split newline (strip_bandwidth_annotations manifest))
    × IsUnannotated (split newline (strip_bandwidth_annotations manifest))
    × (strip_bandwidth_annotations (strip_bandwidth_annotations manifest)
        ≡ strip_bandwidth_annotations manifest)
strip_bandwidth_annotations-lines_example = strip_bandwidth_annotations-lines manifest some_line

strips : strip_bandwidth_annotations manifest ≡ stripped
unfolding strip_bandwidth_annotations kept_lines split join is_annotation contains
    natra.Base.has_prefix
strips = refl
