-- ===== src/Rig/Executor/Work/Workloads.antt =====
-- What the workloads keep of a property of the trace.
use natra.Base.{ℕ, Bool, true, false, List, [], ◌∷◌, Text}
use natra.Base.State.Rules.{Keeps, pure-Keeps, then-Keeps}
use natra.Rig.{Phase, baseline, vanilla, natra_phase}
use natra.Rig.Cluster.{RigTrace, RigEnv}
use natra.Rig.Executor.{Readings, Executor}
use natra.Rig.Executor.Iperf.{
  deploy_iperf_sweep_pod, deploy_sweep_pods, try_reach, wait_iperf_reachable, sweep_sample,
  sweep_rate, sweep_deployed, run_iperf_sweep,
}
use natra.Rig.Executor.Mixed.{run_heys, run_mixed_sample, deploy_bystander, mixed_sample, run_mixed}
use natra.Rig.Executor.Memory.{
  read_memlock, read_qdiscs, snapshot_memory, invoke_peak, plugin_invoke_peak_rss, installer_peak,
  installer_ds_peak_rss, deploy_memory_pods, teardown_memory_pods, memory_sample, run_memory,
}
use natra.Rig.Executor.Work.{
  WorkStable, working, render_perf_manifest-Keeps, apply_manifest-Keeps, patch_vanilla_tbf-Keeps,
  iperf_measure-Keeps,
}

module _ {I : RigTrace → Type 0} (env : RigEnv) (rd : Readings) (S : WorkStable I env) where
  deploy_iperf_sweep_pod-Keeps :
      (e : Executor) (ph : Phase) (r : Text) → Keeps I (deploy_iperf_sweep_pod env rd e ph r)
  unfolding deploy_iperf_sweep_pod
  deploy_iperf_sweep_pod-Keeps e ph r =
      search (working, render_perf_manifest-Keeps env rd S, apply_manifest-Keeps env rd S, S.pause)
        depth 12

  deploy_sweep_pods-Keeps :
      (e : Executor) (ph : Phase) (rs : List Text) → Keeps I (deploy_sweep_pods env rd e ph rs)
  unfolding deploy_sweep_pods
  deploy_sweep_pods-Keeps e ph [] = pure-Keeps tt
  deploy_sweep_pods-Keeps e ph (r ∷ rs) =
      then-Keeps (deploy_iperf_sweep_pod-Keeps e ph r) (deploy_sweep_pods-Keeps e ph rs)

  try_reach-Keeps : (ns target : Text) → Keeps I (try_reach env rd ns target)
  unfolding try_reach
  try_reach-Keeps ns target = search (working, iperf_measure-Keeps env rd S) depth 12

  wait_iperf_reachable-Keeps : (ns target : Text) → Keeps I (wait_iperf_reachable env rd ns target)
  unfolding wait_iperf_reachable
  wait_iperf_reachable-Keeps ns target = search (working, S, try_reach-Keeps) depth 12

  sweep_sample-Keeps : (ns r : Text) (s : ℕ) → Keeps I (sweep_sample env rd ns r s)
  unfolding sweep_sample
  sweep_sample-Keeps ns r s = search (working, iperf_measure-Keeps env rd S) depth 12

  sweep_rate-Keeps : (e : Executor) (r : Text) → Keeps I (sweep_rate env rd e r)
  unfolding sweep_rate
  sweep_rate-Keeps e r = search (working, wait_iperf_reachable-Keeps, sweep_sample-Keeps) depth 12

  sweep_deployed-Keeps : (e : Executor) (ph : Phase) → Keeps I (sweep_deployed env rd e ph)
  unfolding sweep_deployed
  sweep_deployed-Keeps e ph =
      search (working, S.kube, patch_vanilla_tbf-Keeps env rd S, sweep_rate-Keeps) depth 14

  pub run_iperf_sweep-Keeps : (e : Executor) (ph : Phase) → Keeps I (run_iperf_sweep env rd e ph)
  unfolding run_iperf_sweep
  run_iperf_sweep-Keeps e ph =
      search (working, S.kube, deploy_sweep_pods-Keeps, sweep_deployed-Keeps) depth 12

  run_heys-Keeps : (b : Bool) (ns : Text) → Keeps I (run_heys env rd b ns)
  unfolding run_heys
  run_heys-Keeps true ns = search (working, S.capture) depth 12
  run_heys-Keeps false ns = search (working, S.capture) depth 12

  run_mixed_sample-Keeps : (b : Bool) (ns : Text) (s : ℕ) → Keeps I (run_mixed_sample env rd b ns s)
  unfolding run_mixed_sample
  run_mixed_sample-Keeps b ns s = search (working, S.capture, S.pause, run_heys-Keeps) depth 40

  deploy_bystander-Keeps :
      (b : Bool) (e : Executor) (ph : Phase) → Keeps I (deploy_bystander env rd b e ph)
  unfolding deploy_bystander
  deploy_bystander-Keeps b e ph =
      search (working, render_perf_manifest-Keeps env rd S, apply_manifest-Keeps env rd S) depth 12

  mixed_sample-Keeps : (b : Bool) (ns : Text) (s : ℕ) → Keeps I (mixed_sample env rd b ns s)
  unfolding mixed_sample
  mixed_sample-Keeps b ns s = search (working, run_mixed_sample-Keeps) depth 12

  pub run_mixed-Keeps : (b : Bool) (e : Executor) (ph : Phase) → Keeps I (run_mixed env rd b e ph)
  unfolding run_mixed
  run_mixed-Keeps b e ph =
      search (working, S.kube, deploy_bystander-Keeps, mixed_sample-Keeps) depth 14

  read_memlock-Keeps : (n : Text) (ph : Phase) → Keeps I (read_memlock env rd n ph)
  unfolding read_memlock
  read_memlock-Keeps n natra_phase = search (working, S.shell) depth 12
  read_memlock-Keeps n baseline = pure-Keeps _
  read_memlock-Keeps n vanilla = pure-Keeps _

  read_qdiscs-Keeps : (n : Text) (ph : Phase) → Keeps I (read_qdiscs env rd n ph)
  unfolding read_qdiscs
  read_qdiscs-Keeps n vanilla = search (working, S.shell) depth 12
  read_qdiscs-Keeps n baseline = pure-Keeps _
  read_qdiscs-Keeps n natra_phase = pure-Keeps _

  snapshot_memory-Keeps : (n : Text) (ph : Phase) → Keeps I (snapshot_memory env rd n ph)
  unfolding snapshot_memory
  snapshot_memory-Keeps n ph =
      search (working, S.shell, read_memlock-Keeps, read_qdiscs-Keeps) depth 12

  invoke_peak-Keeps : (n p : Text) → Keeps I (invoke_peak env rd n p)
  unfolding invoke_peak
  invoke_peak-Keeps n p = search (working, S.shell) depth 12

  plugin_invoke_peak_rss-Keeps :
      (n : Text) (ph : Phase) → Keeps I (plugin_invoke_peak_rss env rd n ph)
  unfolding plugin_invoke_peak_rss
  plugin_invoke_peak_rss-Keeps n baseline = pure-Keeps _
  plugin_invoke_peak_rss-Keeps n vanilla = invoke_peak-Keeps n _
  plugin_invoke_peak_rss-Keeps n natra_phase = invoke_peak-Keeps n _

  installer_peak-Keeps : (n p : Text) → Keeps I (installer_peak env rd n p)
  unfolding installer_peak
  installer_peak-Keeps n p = search (working, S.shell) depth 12

  installer_ds_peak_rss-Keeps :
      (n : Text) (ph : Phase) → Keeps I (installer_ds_peak_rss env rd n ph)
  unfolding installer_ds_peak_rss
  installer_ds_peak_rss-Keeps n baseline = pure-Keeps _
  installer_ds_peak_rss-Keeps n vanilla = installer_peak-Keeps n _
  installer_ds_peak_rss-Keeps n natra_phase = installer_peak-Keeps n _

  module _ (decimal : ℕ → Text) where
    deploy_memory_pods-Keeps :
        (e : Executor) (ph : Phase) (n : ℕ) → Keeps I (deploy_memory_pods env rd decimal e ph n)
    unfolding deploy_memory_pods
    deploy_memory_pods-Keeps e ph n =
        search (working, render_perf_manifest-Keeps env rd S, apply_manifest-Keeps env rd S) depth
          12

    teardown_memory_pods-Keeps : (e : Executor) → Keeps I (teardown_memory_pods env rd decimal e)
    unfolding teardown_memory_pods
    teardown_memory_pods-Keeps e = search (working, S.kube) depth 12

    memory_sample-Keeps :
        (e : Executor) (ph : Phase) (n s : ℕ) → Keeps I (memory_sample env rd decimal e ph n s)
    unfolding memory_sample
    memory_sample-Keeps e ph n s =
        search
          (
            working,
            S.kube,
            snapshot_memory-Keeps,
            deploy_memory_pods-Keeps,
            teardown_memory_pods-Keeps,
            patch_vanilla_tbf-Keeps env rd S,
            plugin_invoke_peak_rss-Keeps,
            installer_ds_peak_rss-Keeps,
          )
          depth 40

    pub run_memory-Keeps : (e : Executor) (ph : Phase) → Keeps I (run_memory env rd decimal e ph)
    unfolding run_memory
    run_memory-Keeps e ph = search (working, S.bpftool, memory_sample-Keeps) depth 12
