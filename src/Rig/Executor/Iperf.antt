-- ===== src/Rig/Executor/Iperf.antt =====
-- internal/perfrig/workload_iperf.go: the sweep over the rates.
pub mod Reach
use Prim.Native.String.{String}
use natra.Base.{
  ℕ, ◌+◌, ◌-◌, Bool, true, false, leb, ◌&&◌, ◌||◌, ◌==◌, Option, none, some, List, [], ◌∷◌, ◌++◌,
  map, if◌then◌else◌, Text, codes, pos_part,
}
use natra.Base.Result.{Result, ok, err}
use natra.Bpf.Types.{Direction, ingress, egress}
use natra.Rig.{Phase}
use natra.Rig.Cluster.{
  Rig, RigEnv, RigFault, unreachable, kubectl, sleep, words, ask, ignore, pure, catch, finally,
  ◌>>=◌, ◌>>◌,
}
use natra.Rig.Cluster.Loops.{for_each, for_samples, poll}
use natra.Rig.Manifest.{newline, replace_all, replace_once}
use natra.Rig.Executor.{Readings, Executor, namespace_for_phase, is_vanilla}
use natra.Rig.Executor.Stage.{
  when, require_that, render_perf_manifest, annotated, apply_manifest, patch_vanilla_tbf,
  iperf_measure,
}

-- `strings.ToLower` on ASCII, of which all rates are.
abbrev pub to_lower : Text → Text
to_lower = map λ c. if leb b'A' c && leb c b'Z' then c + 32 else c

-- `iperfSweepPodName`
unfoldable pub iperf_sweep_pod_name : Text → Text
iperf_sweep_pod_name rate = codes "perf-server-r" ++ to_lower rate

abbrev quoted : Text → Text
quoted s = b'"' ∷ (s ++ (b'"' ∷ []))

unfoldable pub set_rate : String → Text → Text → Text
set_rate key rate manifest =
    replace_all manifest (codes key ++ quoted (codes "10M")) (codes key ++ quoted rate)

-- The manifest of a rate's pod, from the rendered one.
unfoldable pub sweep_manifest : Text → Text → Text → Text
unfolding set_rate
sweep_manifest name rate manifest =
    let renamed = replace_all manifest (codes "name: perf-server") (codes "name: " ++ name) in
    let labelled = replace_all renamed (codes "app: perf-server") (codes "app: " ++ name) in
    let app = codes "app: " ++ name in
    let marked =
      replace_once labelled (app ++ (newline ∷ codes "spec:"))
        (app ++ (newline ∷ codes "    rig: perf-server-rateSweep") ++ (newline ∷ codes "spec:")) in
    set_rate "kubernetes.io/egress-bandwidth: " rate
      (set_rate "kubernetes.io/ingress-bandwidth: " rate marked)

abbrev rate_pods : Text → List Text
rate_pods ns = codes "-n" ∷ ns ∷ words "-l rig=perf-server-rateSweep"

module _ (env : RigEnv) (rd : Readings) where
  -- `IperfCell`. Every cell is of the kind "elephant".
  pub record IperfCell : Type 0 where
    pub rate : Text
    pub direction : Direction
    pub sample : ℕ
    pub bps : rd.F

  -- `deployIperfSweepPod`
  unfoldable pub deploy_iperf_sweep_pod : Executor → Phase → Text → Rig (Unit {0})
  deploy_iperf_sweep_pod e phase rate = do
    manifest ←
        render_perf_manifest env rd e (codes "test/perf/realworld/perf-server.yaml")
          (namespace_for_phase e)
    apply_manifest env rd
        (annotated env rd phase (sweep_manifest (iperf_sweep_pod_name rate) rate manifest))
    ignore env (sleep 500)

  unfoldable pub deploy_sweep_pods : Executor → Phase → List Text → Rig (Unit {0})
  deploy_sweep_pods e phase [] = pure tt
  deploy_sweep_pods e phase (rate ∷ rates) = do
    deploy_iperf_sweep_pod e phase rate
    deploy_sweep_pods e phase rates

  unfoldable pub is_reached : Result RigFault rd.F → Bool
  is_reached (err _) = false
  is_reached (ok bps) = rd.is_pos bps

  -- One try of `waitIperfReachable`.
  unfoldable pub try_reach : Text → Text → Rig Bool
  try_reach ns target = do
    r ← catch (iperf_measure env rd ns (words "iperf3 -c" ++ (target ∷ words "-t 1 -J")))
    pure (is_reached r)

  -- `waitIperfReachable`
  unfoldable pub wait_iperf_reachable : Text → Text → Rig (Unit {0})
  wait_iperf_reachable ns target = do
    reached ← poll env 30 (try_reach ns target)
    require_that reached (unreachable target)

  -- One sample of a rate.
  unfoldable pub sweep_sample : Text → Text → ℕ → Rig (List IperfCell)
  sweep_sample ns rate s = do
    let target = iperf_sweep_pod_name rate
    ing ← iperf_measure env rd ns (words "iperf3 -c" ++ (target ∷ words "-t 15 -J"))
    eg ← iperf_measure env rd ns (words "iperf3 -c" ++ (target ∷ words "-t 15 -R -J"))
    pure (
        (record { rate = rate; direction = ingress; sample = s; bps = ing })
        ∷ (record { rate = rate; direction = egress; sample = s; bps = eg })
        ∷ [])

  unfoldable pub sweep_rate : Executor → Text → Rig (List IperfCell)
  sweep_rate e rate = do
    wait_iperf_reachable (namespace_for_phase e) (iperf_sweep_pod_name rate)
    for_samples 1 (pos_part e.plan.samples) (sweep_sample (namespace_for_phase e) rate)

  -- What the deferred deletion covers.
  unfoldable pub sweep_deployed : Executor → Phase → Rig (List IperfCell)
  sweep_deployed e phase = do
    ready ← ask env (
        kubectl [] (
          words "wait --for=condition=Ready pods"
          ++ (rate_pods (namespace_for_phase e) ++ words "--timeout=180s")))
    when (is_vanilla phase) (patch_vanilla_tbf env rd e)
    for_each e.plan.rates (sweep_rate e)

  -- `runIperfSweep`: its cells.
  unfoldable pub run_iperf_sweep : Executor → Phase → Rig (List IperfCell)
  run_iperf_sweep e phase = do
    deploy_sweep_pods e phase e.plan.rates
    finally (sweep_deployed e phase) (
        ignore env (
          kubectl [] (
            words "delete pod"
            ++ (rate_pods (namespace_for_phase e)
                ++ words "--ignore-not-found --grace-period=0 --force"))))
