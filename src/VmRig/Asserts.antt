-- ===== src/VmRig/Asserts.antt =====
-- cmd/vm-rig/test.go: the assertions of the rig. The JSON of iperf3 and the CSV of hey are read as in
-- internal/perfrig, whose hey.go is the rig's hey.go but for the slowest request, which only a
-- message names. What is printed is not modelled.
pub mod Keeps
pub mod Passed
use Prim.Native.String.{String}
use natra.Base.{
  ℕ, ◌/◌, Bool, true, false, not, all, Option, none, some, List, [], ◌∷◌, ◌++◌, reverse,
  if◌then◌else◌, ◌==◌, ltb, Text, codes,
}
use natra.Base.Result.{Result, ok, err}
use natra.Host.{
  Host, HostEnv, HostReply, HostFault, no_cluster, no_connection, bad_json, bad_csv, long_line,
  above_cap, below_floor, slow_requests, failed_requests, HostCall, kubectl, capture_kubectl, stat,
  read_file, join_path, ask, try_ask, must, ignore, succeeds, poll, require_that, trim_right, pure,
  throw, ◌>>=◌, ◌>>◌,
}
use natra.Rig.Cluster.{RigFault, words}
use natra.Rig.Manifest.{newline, split, replace_all, replacer_from, perf_pairs}
use natra.Rig.Executor.{Readings}
use natra.Rig.Executor.Mixed.{HeyResult, parse_hey_csv}
use natra.VmRig.{Config}

-- The assertions' comparisons of a float64, and what a `bufio.Scanner` takes as a line.
pub record Limits (rd : Readings) : Type 0 where
  pub exceeds_cap : rd.F → Bool  -- above 10e6 * 1.30
  pub is_below_floor : rd.F → Bool  -- below 10e6 * 0.50
  pub fits_buffer : Text → Bool

abbrev pub namespace : Text
namespace = codes "natra-vm-rig"

abbrev pub server_node : Text
server_node = codes "lima-natra-server"

abbrev pub worker_node : Text
worker_node = codes "lima-natra-agent"

-- `bufio.ScanLines`: the lines without their newline, the last one only if it is not empty.
unfoldable pub scan_lines : List Text → List Text
scan_lines [] = []
scan_lines ([] ∷ []) = []
scan_lines ((c ∷ s) ∷ []) = (c ∷ s) ∷ []
scan_lines (l ∷ m ∷ ls) = l ∷ scan_lines (m ∷ ls)

-- A line ends before a carriage return.
abbrev drop_return : Text → Text
drop_return [] = []
drop_return (c ∷ s) = if c == 13 then s else c ∷ s

unfoldable pub render_lines : List (Text × Text) → List Text → Text
render_lines pairs [] = []
render_lines pairs (l ∷ ls) =
    replacer_from pairs 0 (reverse (drop_return (reverse l))) ++ (newline ∷ render_lines pairs ls)

abbrev pub e2e_pairs : List (Text × Text)
e2e_pairs =
    (codes "k3d-natra-e2e-agent-0", worker_node)
    ∷ (codes "k3d-natra-e2e-server-0", server_node)
    ∷ (codes "namespace: natra-e2e", codes "namespace: " ++ namespace)
    ∷ []

abbrev pub in_pod : Text → List Text → List Text
in_pod pod command = words "exec -n" ++ (namespace ∷ pod ∷ codes "--" ∷ command)

-- A measurement of 15 seconds, forward or in reverse.
abbrev pub measure_args : Text → List Text → List Text
measure_args server reverse_flag =
    in_pod (codes "iperf-client")
      (words "iperf3 -c" ++ ((server ∷ words "-t 15") ++ (reverse_flag ++ words "-J")))

abbrev pub hey_args : List Text
hey_args =
    words "exec -n"
    ++ (namespace
        ∷ words
            "perf-client -c tools -- hey -z 15s -c 50 -disable-keepalive -o csv http://perf-server:80/")

module _ (env : HostEnv) (rd : Readings) (limits : Limits rd) where
  -- `renderManifest`
  unfoldable pub render_manifest : Text → List (Text × Text) → Host Text
  render_manifest src pairs = do
    text ← ask env (read_file src)
    let lines = scan_lines (split newline text.output)
    require_that (all limits.fits_buffer lines) long_line
    pure (render_lines pairs lines)

  -- `renderE2EManifest`
  unfoldable pub render_e2e_manifest : Config → Text → Host Text
  render_e2e_manifest c name =
      render_manifest (join_path c.repo_root (join_path (codes "test/e2e/manifests") name))
        e2e_pairs

  -- `renderPerfManifest`
  unfoldable pub render_perf_manifest : Config → Text → Host Text
  render_perf_manifest c rel_path =
      render_manifest (join_path c.repo_root rel_path)
        (perf_pairs namespace server_node worker_node c.perfclient_image)

  unfoldable pub apply_manifest : Config → Text → Host (Unit {0})
  apply_manifest c manifest = must env (kubectl c.kubeconfig_path manifest (words "apply -f -"))

  unfoldable pub wait_ready : Config → List Text → Text → Host (Unit {0})
  wait_ready c pods timeout = must env (
      kubectl c.kubeconfig_path []
        (words "wait --for=condition=Ready" ++ (pods ++ (codes "-n" ∷ namespace ∷ timeout ∷ []))))

  -- The assertion on a measured throughput.
  unfoldable pub assert_within : Text → Option rd.F → Host (Unit {0})
  assert_within label none = throw bad_json
  assert_within label (some bps) = do
    require_that (not (limits.exceeds_cap bps)) (above_cap label)
    require_that (not (limits.is_below_floor bps)) (below_floor label)

  -- A measurement and its assertion.
  unfoldable pub measure : Config → Text → Text → List Text → Host (Unit {0})
  measure c label server reverse_flag = do
    out ← ask env (capture_kubectl c.kubeconfig_path (measure_args server reverse_flag))
    assert_within label (rd.received_bps (trim_right out.output))

  unfoldable pub warm_up : Config → Text → List Text → Host (Unit {0})
  warm_up c server flags = ignore env (
      kubectl c.kubeconfig_path [] (
        in_pod (codes "iperf-client")
          (words "iperf3 -c" ++ ((server ∷ words "-t 20 -P 4") ++ flags))))

  unfoldable pub is_connected : Result HostFault HostReply → Bool
  is_connected (err _) = false
  is_connected (ok reply) = elim (rd.received_bps (trim_right reply.output)) [
    | none ↦ false
    | some bps ↦ rd.is_pos bps
  ]

  unfoldable pub try_connect : Config → Text → Host Bool
  try_connect c server = do
    r ← try_ask env (
        capture_kubectl c.kubeconfig_path
          (in_pod (codes "iperf-client") (words "iperf3 -c" ++ (server ∷ words "-t 1 -J"))))
    pure (is_connected r)

  -- `waitForIperfConnect`
  unfoldable pub wait_for_iperf_connect : Config → Text → ℕ → Host (Unit {0})
  wait_for_iperf_connect c server attempts = do
    connected ← poll env 2000 attempts (try_connect c server)
    require_that connected no_connection

  -- `testIperfThrottle`
  unfoldable pub test_iperf_throttle : Config → Host (Unit {0})
  test_iperf_throttle c = do
    client ← render_e2e_manifest c (codes "iperf-client.yaml")
    apply_manifest c client
    server ← render_e2e_manifest c (codes "iperf-server-bidi.yaml")
    apply_manifest c (replace_all server (codes "iperf-server-bidi") (codes "iperf-server"))
    wait_ready c (words "pod/iperf-client pod/iperf-server") (codes "--timeout=120s")
    wait_for_iperf_connect c (codes "iperf-server") 30
    warm_up c (codes "iperf-server") []
    warm_up c (codes "iperf-server") (words "-R")
    measure c (codes "iperf/ingress") (codes "iperf-server") []
    measure c (codes "iperf/egress") (codes "iperf-server") (words "-R")

  -- `testEgressOnly`
  unfoldable pub test_egress_only : Config → Host (Unit {0})
  test_egress_only c = do
    manifest ← render_e2e_manifest c (codes "iperf-server-egress.yaml")
    apply_manifest c manifest
    wait_ready c (words "pod/iperf-server-egress") (codes "--timeout=120s")
    warm_up c (codes "iperf-server-egress") (words "-R")
    measure c (codes "egress-only") (codes "iperf-server-egress") (words "-R")

  -- The assertions on the requests: the rate over 15 seconds is below 200 below 3000 requests.
  unfoldable pub assert_requests : ℕ → ℕ → Host (Unit {0})
  assert_requests served failures = do
    require_that (not (ltb served 3000)) slow_requests
    require_that (not (ltb (served / 10) failures)) failed_requests

  unfoldable pub deploy_perf : Config → Text → Host (Unit {0})
  deploy_perf c rel_path = do manifest ← render_perf_manifest c rel_path; apply_manifest c manifest

  unfoldable pub assert_hey : Result RigFault (HeyResult rd) → Host (Unit {0})
  assert_hey (err _) = throw bad_csv
  assert_hey (ok res) = assert_requests res.succeeded res.errors

  -- `testHeyFastPass`
  unfoldable pub test_hey_fast_pass : Config → Host (Unit {0})
  test_hey_fast_pass c = do
    deploy_perf c (codes "test/perf/realworld/perf-server.yaml")
    deploy_perf c (codes "test/perf/realworld/perf-client.yaml")
    wait_ready c (words "pod/perf-server pod/perf-client") (codes "--timeout=180s")
    out ← ask env (capture_kubectl c.kubeconfig_path hey_args)
    assert_hey (parse_hey_csv rd (trim_right out.output))

  -- `cmdTest`
  unfoldable pub cmd_test : Config → Host (Unit {0})
  cmd_test c = do
    up ← succeeds env (stat c.kubeconfig_path)
    require_that up no_cluster
    apply_manifest c (
        codes "apiVersion: v1"
        ++ (newline ∷ codes "kind: Namespace")
        ++ (newline ∷ codes "metadata:")
        ++ (newline ∷ codes "  name: ")
        ++ namespace
        ++ (newline ∷ []))
    test_iperf_throttle c
    test_egress_only c
    test_hey_fast_pass c
