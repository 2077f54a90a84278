-- ===== src/Rig/Executor/Stage.antt =====
-- internal/perfrig/stage.go, with `renderPerfManifest` of manifest.go and `iperfMeasure` of
-- workload_iperf.go.
use natra.Base.{
  Bool, true, false, Option, none, some, List, [], ◌∷◌, ◌++◌, if◌then◌else◌, Text, codes,
}
use natra.Base.Result.{Result, ok, err}
use natra.Rig.{Phase}
use natra.Rig.Cluster.{
  Rig, RigEnv, RigFault, no_service_account, no_traffic, bad_json, attach_lines, patch_burst,
  node_shell, kubectl, capture_kubectl, read_manifest, words, ask, try_ask, ignore, pure, throw,
  ◌>>=◌, ◌>>◌,
}
use natra.Rig.Cluster.Loops.{poll}
use natra.Rig.Manifest.{newline, perf_pairs, replacer_from, strip_bandwidth_annotations}
use natra.Rig.Executor.{Readings, Executor, namespace_for_phase, is_baseline, is_vanilla, is_natra}

-- What follows a call where the phase calls for it.
unfoldable pub when : Bool → Rig (Unit {0}) → Rig (Unit {0})
when true m = m
when false m = pure tt

unfoldable pub require_that : Bool → RigFault → Rig (Unit {0})
require_that true e = pure tt
require_that false e = throw e

unfoldable pub is_ok : {A : Type 0} → Result RigFault A → Bool
is_ok (ok _) = true
is_ok (err _) = false

abbrev pub in_client : Text → List Text → List Text
in_client ns command = codes "exec" ∷ codes "-n" ∷ ns ∷ words "perf-client -c tools --" ++ command

module _ (env : RigEnv) (rd : Readings) where
  -- `renderPerfManifest`
  unfoldable pub render_perf_manifest : Executor → Text → Text → Rig Text
  render_perf_manifest e rel_path ns = do
    text ← ask env (read_manifest (e.repo_root ++ codes "/" ++ rel_path))
    pure (replacer_from (perf_pairs ns e.server e.worker e.perfclient_image) 0 text)

  -- What an unannotated phase leaves of a manifest.
  unfoldable pub annotated : Phase → Text → Text
  annotated phase manifest =
      if is_baseline phase then strip_bandwidth_annotations manifest else manifest

  unfoldable pub apply_manifest : Text → Rig (Unit {0})
  apply_manifest manifest = do done ← ask env (kubectl manifest (words "apply -f -")); pure tt

  -- One manifest of the loop of `stagePhase`.
  unfoldable pub deploy_perf : Executor → Phase → Text → Bool → Rig (Unit {0})
  deploy_perf e phase rel_path is_server = do
    manifest ← render_perf_manifest e rel_path (namespace_for_phase e)
    apply_manifest (if is_server then annotated phase manifest else manifest)

  -- `patchVanillaTBF`
  unfoldable pub patch_vanilla_tbf : Executor → Rig (Unit {0})
  patch_vanilla_tbf e = do
    on_server ← ask env (node_shell e.server patch_burst)
    on_worker ← ask env (node_shell e.worker patch_burst)
    pure tt

  unfoldable pub read_bps : Option rd.F → Rig rd.F
  read_bps none = throw bad_json
  read_bps (some bps) = pure bps

  -- `iperfMeasure`
  unfoldable pub iperf_measure : Text → List Text → Rig rd.F
  unfolding read_bps
  iperf_measure ns command = do
    out ← ask env (capture_kubectl (in_client ns command))
    read_bps (rd.received_bps out)

  unfoldable pub has_traffic : Result RigFault Text → Bool
  has_traffic (err _) = false
  has_traffic (ok out) = elim (rd.received_bps out) [ none ↦ false | some bps ↦ rd.is_pos bps ]

  unfoldable pub namespace_manifest : Text → Text
  namespace_manifest ns =
      codes "apiVersion: v1"
      ++ (newline ∷ codes "kind: Namespace")
      ++ (newline ∷ codes "metadata:")
      ++ (newline ∷ codes "  name: ")
      ++ ns
      ++ (newline ∷ [])

  -- The poll for the ServiceAccount, and the one for traffic.
  unfoldable pub service_account_ready : Text → Rig Bool
  service_account_ready ns = do
    r ← try_ask env (capture_kubectl (words "get sa default -n" ++ (ns ∷ [])))
    pure (is_ok r)

  unfoldable pub traffic_flows : Text → Rig Bool
  traffic_flows ns = do
    r ← try_ask env (capture_kubectl (in_client ns (words "iperf3 -c perf-server -t 1 -J")))
    pure (has_traffic r)

  unfoldable pub warm_up : Text → Rig (Unit {0})
  warm_up ns = do
    ignore env (kubectl [] (in_client ns (words "iperf3 -c perf-server -t 20 -P 4")))
    ignore env (kubectl [] (in_client ns (words "iperf3 -c perf-server -t 20 -P 4 -R")))
    ignore env (
        capture_kubectl
          (in_client ns (words "hey -z 5s -c 50 -disable-keepalive http://perf-server:80/")))

  -- `stagePhase`. `logNatraAttachState` is the call that it makes.
  unfoldable pub stage_phase : Executor → Phase → Rig (Unit {0})
  stage_phase e phase = do
    let ns = namespace_for_phase e
    apply_manifest (namespace_manifest ns)
    ready ← poll env 30 (service_account_ready ns)
    require_that ready no_service_account
    ignore env (
        kubectl [] (
          words "delete pod perf-server perf-client -n"
          ++ (ns ∷ words "--ignore-not-found --grace-period=0 --force")))
    deploy_perf e phase (codes "test/perf/realworld/perf-server.yaml") true
    deploy_perf e phase (codes "test/perf/realworld/perf-client.yaml") false
    running ← ask env (
        kubectl [] (
          words "wait --for=condition=Ready pod/perf-server pod/perf-client -n"
          ++ (ns ∷ words "--timeout=180s")))
    when (is_vanilla phase) (patch_vanilla_tbf e)
    connected ← poll env 30 (traffic_flows ns)
    require_that connected no_traffic
    warm_up ns
    when (is_natra phase) (ignore env (node_shell e.worker attach_lines))
