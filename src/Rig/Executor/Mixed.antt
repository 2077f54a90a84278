-- ===== src/Rig/Executor/Mixed.antt =====
-- internal/perfrig/workload_mixed.go and hey.go. The three commands of a sample run at once; the
-- elephant starts two seconds before the others, and `pod_first` tells which of these starts first.
use natra.Base.{
  ℕ, zero, suc, ◌+◌, ◌-◌, Bool, leb, ◌||◌, ◌==◌, Option, none, some, List, [], ◌∷◌, ◌++◌, length,
  if◌then◌else◌, Text, codes, ℤ, pos, pos_part, ltb_ℤ, leb_ℤ,
}
use natra.Base.Result.{Result, ok, err}
use natra.Quantity.{parse_int}
use natra.Rig.{Phase}
use natra.Rig.Cluster.{
  Rig, RigEnv, RigFault, bad_json, bad_csv, too_few_streams, kubectl, capture_kubectl, sleep, words,
  ask, try_ask, ignore, pure, throw, ◌>>=◌, ◌>>◌,
}
use natra.Rig.Cluster.Loops.{for_samples}
use natra.Rig.Executor.{Readings, Executor, namespace_for_phase}
use natra.Rig.Executor.Stage.{in_client, render_perf_manifest, annotated, apply_manifest}

abbrev pub mixed_hey_dur : ℕ
mixed_hey_dur = 25

unfoldable pub hey_command : Text → List Text
hey_command target =
    words "hey -z 25s -c 50 -disable-keepalive -o csv"
    ++ ((codes "http://" ++ (target ++ codes ":80/")) ∷ [])

abbrev pub get_elem? {ℓ} : {A : Type ℓ} → List A → ℕ → Option A
get_elem? [] i = none
get_elem? (x ∷ xs) zero = some x
get_elem? (x ∷ xs) (suc i) = get_elem? xs i

unfoldable pub from_result : {A : Type 0} → Result RigFault A → Rig A
from_result (ok a) = pure a
from_result (err e) = throw e

-- `percentile`: the index, and the value there.
unfoldable pub percentile_index : ℤ → ℕ → ℕ
percentile_index rank n = if leb n (pos_part rank - 1) then n - 1 else pos_part rank - 1

module _ (rd : Readings) where
  unfoldable pub get_or : rd.F → List rd.F → ℕ → rd.F
  get_or d xs i = elim (get_elem? xs i) [ none ↦ d | some x ↦ x ]

  unfoldable pub percentile : List rd.F → rd.F → rd.F
  unfolding get_or
  percentile sorted k =
      if length sorted == 0
      then rd.zero_f
      else get_or rd.zero_f sorted (percentile_index (rd.rank k (length sorted)) (length sorted))

  -- `heyResult`, without the duration, which is always `mixed_hey_dur`.
  pub record HeyResult : Type 0 where
    pub succeeded : ℕ
    pub errors : ℕ
    pub p50 : rd.F
    pub p99 : rd.F

  -- The counts and the latencies of the rows so far.
  pub record Tally : Type 0 where
    pub succeeded : ℕ
    pub errors : ℕ
    pub latencies : List rd.F

  unfoldable pub count_request : Tally → rd.F → ℤ → Tally
  count_request t latency status =
      if ltb_ℤ status (pos 200) || leb_ℤ (pos 400) status
      then record t { errors = t.errors + 1 }
      else record t { succeeded = t.succeeded + 1; latencies = t.latencies ++ (latency ∷ []) }

  unfoldable pub count_parsed : Tally → Option rd.F → Option ℤ → Tally
  count_parsed t none status = t
  count_parsed t (some latency) none = t
  count_parsed t (some latency) (some status) = count_request t latency status

  -- One row of the loop. A row with less than seven fields has no status.
  unfoldable pub count_row : Tally → List Text → Tally
  count_row t row = elim (get_elem? row 6) [
    | none ↦ t
    | some status ↦ elim (get_elem? row 0) [
      | none ↦ t
      | some latency ↦ count_parsed t (rd.parse_float latency) (parse_int status)
    ]
  ]

  unfoldable pub count_rows : Tally → List (List Text) → Tally
  count_rows t [] = t
  count_rows t (row ∷ rows) = count_rows (count_row t row) rows

  unfoldable pub hey_result : Tally → HeyResult
  hey_result t =
      let sorted = rd.sort t.latencies in
      record {
        succeeded = t.succeeded;
        errors = t.errors;
        p50 = percentile sorted rd.median;
        p99 = percentile sorted rd.tail;
      }

  -- What follows the reading of the CSV: the first row is the header.
  unfoldable pub parse_rows : Option (List (List Text)) → Result RigFault HeyResult
  parse_rows none = err bad_csv
  parse_rows (some []) = err bad_csv
  parse_rows (some (header ∷ [])) = err bad_csv
  parse_rows (some (header ∷ row ∷ rows)) =
      ok (
        hey_result (count_rows (record { succeeded = 0; errors = 0; latencies = [] }) (row ∷ rows)))

  -- `parseHeyCSV`
  unfoldable pub parse_hey_csv : Text → Result RigFault HeyResult
  parse_hey_csv raw = parse_rows (rd.csv_rows raw)

  -- `parseIperfBidir`
  unfoldable pub first_two : Option (List rd.F) → Result RigFault (rd.F × rd.F)
  first_two none = err bad_json
  first_two (some []) = err too_few_streams
  first_two (some (a ∷ [])) = err too_few_streams
  first_two (some (a ∷ b ∷ _)) = ok (a, b)

  unfoldable pub parse_iperf_bidir : Text → Result RigFault (rd.F × rd.F)
  parse_iperf_bidir raw = first_two (rd.sender_bps raw)

  pub record MixedSample : Type 0 where
    pub sample : ℕ
    pub iperf_ingress_bps : rd.F
    pub iperf_egress_bps : rd.F
    pub pod_rps : rd.F
    pub pod_p50 : rd.F
    pub pod_p99 : rd.F
    pub bystander_rps : rd.F
    pub bystander_p50 : rd.F
    pub bystander_p99 : rd.F

module _ (env : RigEnv) (rd : Readings) (pod_first : Bool) where
  -- The two hey runs: the results of the pod's and of the bystander's.
  unfoldable pub run_heys : Text → Rig (Result RigFault Text × Result RigFault Text)
  run_heys ns =
      let pod = try_ask env (capture_kubectl (in_client ns (hey_command (codes "perf-server")))) in
      let bystander =
        try_ask env (capture_kubectl (in_client ns (hey_command (codes "bystander")))) in
      if pod_first
      then (pod >>= λ p. bystander >>= λ b. pure (p, b))
      else (bystander >>= λ b. pod >>= λ p. pure (p, b))

  -- `runMixedSample`: the results are looked at when all three commands have ended.
  unfoldable pub run_mixed_sample : Text → ℕ → Rig (MixedSample rd)
  run_mixed_sample ns s = do
    elephant ←
        try_ask env
          (capture_kubectl (in_client ns (words "iperf3 -c perf-server -t 30 --bidir -J")))
    ignore env (sleep 2000)
    heys ← run_heys ns
    iperf_raw ← from_result elephant
    bps ← from_result (parse_iperf_bidir rd iperf_raw)
    pod_raw ← from_result heys.0
    pod ← from_result (parse_hey_csv rd pod_raw)
    by_raw ← from_result heys.1
    by ← from_result (parse_hey_csv rd by_raw)
    pure (record {
      sample = s;
      iperf_ingress_bps = bps.0;
      iperf_egress_bps = bps.1;
      pod_rps = rd.per_second pod.succeeded mixed_hey_dur;
      pod_p50 = rd.to_millis pod.p50;
      pod_p99 = rd.to_millis pod.p99;
      bystander_rps = rd.per_second by.succeeded mixed_hey_dur;
      bystander_p50 = rd.to_millis by.p50;
      bystander_p99 = rd.to_millis by.p99;
    })

  -- `deployBystander`
  unfoldable pub deploy_bystander : Executor → Phase → Rig (Unit {0})
  deploy_bystander e phase = do
    manifest ←
        render_perf_manifest env rd e (codes "test/perf/realworld/bystander.yaml")
          (namespace_for_phase e)
    apply_manifest env rd (annotated env rd phase manifest)

  unfoldable pub mixed_sample : Text → ℕ → Rig (List (MixedSample rd))
  mixed_sample ns s = do ms ← run_mixed_sample ns s; pure (ms ∷ [])

  -- `runMixed`: its samples.
  unfoldable pub run_mixed : Executor → Phase → Rig (List (MixedSample rd))
  run_mixed e phase = do
    let ns = namespace_for_phase e
    deploy_bystander e phase
    ready ← ask env (
        kubectl []
          (words "wait --for=condition=Ready pod/bystander -n" ++ (ns ∷ words "--timeout=120s")))
    for_samples 1 (pos_part e.plan.samples) (mixed_sample ns)
