-- ===== src/Rig/Executor/Memory.antt =====
-- internal/perfrig/workload_memory.go. The log line below a sample is not modelled.
pub mod Outputs
use natra.Base.{
  ℕ, zero, suc, ◌+◌, ◌-◌, ◌*◌, not, ◌%◌, ◌^◌, Bool, true, false, ltb, leb, ◌==◌, Option, none, some,
  List, [], ◌∷◌, ◌++◌, if◌then◌else◌, Text, codes, has_prefix, trim_space, is_digit, ℤ, pos, neg,
  pos_part, ltb_ℤ, max_int64, mul64, to_bits, of_bits,
}
use natra.Rig.Executor.Memory.Outputs.{
  value_or, uint_value, saturate, signed_value, parse_int_value, add64, sum_memlock, digits,
  skip_spaces, peak_here, find_peak, parse_time_v_peak_kb, pod_count, first_document, clone_of,
  clones,
}
use natra.Base.Result.{Result, ok, err}
use natra.Quantity.{parse_int}
use natra.Rig.{Phase, baseline, vanilla, natra_phase}
use natra.Rig.Cluster.{
  Rig, RigEnv, RigFault, node_shell, ensure_bpftool, meminfo, bpftool_show, count_qdiscs,
  invoke_plugin, installer_rss, kubectl, words, ask, try_ask, pure, catch, ◌>>=◌, ◌>>◌,
}
use natra.Rig.Cluster.Loops.{for_samples}
use natra.Rig.Manifest.{newline, drop, replace_once, join}
use natra.Rig.Executor.{Readings, Executor, namespace_for_phase, is_vanilla}
use natra.Rig.Executor.Stage.{
  when, render_perf_manifest, annotated, apply_manifest, patch_vanilla_tbf,
}

pub record MemSnapshot : Type 0 where
  pub kernel_mem_bytes : ℤ
  pub bpf_memlock_bytes : ℤ
  pub tc_qdisc_count : ℤ

pub record MemorySample : Type 0 where
  pub sample : ℕ
  pub dataplane_kmem_bytes_1 : ℤ
  pub dataplane_kmem_bytes_n : ℤ
  pub vanilla_qdisc_bytes : ℤ
  pub natra_bpf_memlock_bytes : ℤ
  pub plugin_invoke_peak_rss_bytes : ℤ
  pub installer_ds_bytes : ℤ
  pub n_pod_count : ℕ

-- The number in an output, where the command worked and printed one.
unfoldable pub number_in : Result RigFault Text → ℤ
number_in (err _) = pos 0
number_in (ok out) = value_or (pos 0) (parse_int (trim_space out))

-- A value whose error is only logged.
unfoldable pub or_zero : Result RigFault ℤ → ℤ
or_zero (err _) = pos 0
or_zero (ok n) = n

module _ (env : RigEnv) (rd : Readings) where
  unfoldable pub memlock_of : Result RigFault Text → ℤ
  memlock_of (err _) = pos 0
  memlock_of (ok out) = sum_memlock (pos 0) (rd.bpf_objects out)

  unfoldable pub read_memlock : Text → Phase → Rig ℤ
  read_memlock node natra_phase = do
    out ← try_ask env (node_shell node bpftool_show)
    pure (memlock_of out)
  read_memlock node baseline = pure (pos 0)
  read_memlock node vanilla = pure (pos 0)

  unfoldable pub read_qdiscs : Text → Phase → Rig ℤ
  read_qdiscs node vanilla = do
    out ← try_ask env (node_shell node count_qdiscs)
    pure (number_in out)
  read_qdiscs node baseline = pure (pos 0)
  read_qdiscs node natra_phase = pure (pos 0)

  -- `snapshotMemory`
  unfoldable pub snapshot_memory : Text → Phase → Rig MemSnapshot
  snapshot_memory node phase = do
    out ← ask env (node_shell node meminfo)
    memlock ← read_memlock node phase
    qdiscs ← read_qdiscs node phase
    pure (record {
      kernel_mem_bytes = number_in (ok out);
      bpf_memlock_bytes = memlock;
      tc_qdisc_count = qdiscs;
    })

  unfoldable pub invoke_peak : Text → Text → Rig ℤ
  invoke_peak node name = do
    out ← ask env (node_shell node (invoke_plugin name))
    pure (mul64 (parse_time_v_peak_kb out) (pos 1024))

  -- `pluginInvokePeakRSS`
  unfoldable pub plugin_invoke_peak_rss : Text → Phase → Rig ℤ
  plugin_invoke_peak_rss node baseline = pure (pos 0)
  plugin_invoke_peak_rss node vanilla = invoke_peak node (codes "bandwidth")
  plugin_invoke_peak_rss node natra_phase = invoke_peak node (codes "natra")

  unfoldable pub installer_peak : Text → Text → Rig ℤ
  installer_peak node label = do
    out ← ask env (node_shell node (installer_rss label))
    pure (parse_int_value (trim_space out))

  -- `installerDSPeakRSS`
  unfoldable pub installer_ds_peak_rss : Text → Phase → Rig ℤ
  installer_ds_peak_rss node baseline = pure (pos 0)
  installer_ds_peak_rss node vanilla = installer_peak node (codes "app=vanilla-installer")
  installer_ds_peak_rss node natra_phase = installer_peak node (codes "app=natra")

  module _ (decimal : ℕ → Text) where
    -- `deployMemoryPods`
    unfoldable pub deploy_memory_pods : Executor → Phase → ℕ → Rig (Unit {0})
    deploy_memory_pods e phase n = do
      manifest ←
          render_perf_manifest env rd e (codes "test/perf/realworld/perf-server.yaml")
            (namespace_for_phase e)
      apply_manifest env rd (
          join (newline ∷ (codes "---" ++ (newline ∷ [])))
            (clones decimal (first_document (annotated env rd phase manifest)) 2 (n - 1)))

    -- `teardownMemoryPods`
    unfoldable pub teardown_memory_pods : Executor → Rig (Unit {0})
    teardown_memory_pods e = do
      done ← ask env (
          kubectl [] (
            words "delete pod -n"
            ++ (namespace_for_phase e
                ∷ words "-l app=perf-server-mem --ignore-not-found --grace-period=0 --force")))
      pure tt

    -- A round of the loop of `runMemory`.
    unfoldable pub memory_sample : Executor → Phase → ℕ → ℕ → Rig (List MemorySample)
    memory_sample e phase n s = do
      base ← snapshot_memory e.worker phase
      deploy_memory_pods e phase n
      ready ← ask env (
          kubectl [] (
            words "wait --for=condition=Ready pods -n"
            ++ (namespace_for_phase e ∷ words "-l app=perf-server-mem --timeout=180s")))
      when (is_vanilla phase) (patch_vanilla_tbf env rd e)
      at_n ← snapshot_memory e.worker phase
      invoke_rss ← catch (plugin_invoke_peak_rss e.worker phase)
      ds_rss ← catch (installer_ds_peak_rss e.worker phase)
      teardown_memory_pods e
      pure (
          (record {
            sample = s;
            dataplane_kmem_bytes_1 = base.kernel_mem_bytes;
            dataplane_kmem_bytes_n = at_n.kernel_mem_bytes;
            vanilla_qdisc_bytes = at_n.tc_qdisc_count;
            natra_bpf_memlock_bytes = at_n.bpf_memlock_bytes;
            plugin_invoke_peak_rss_bytes = or_zero invoke_rss;
            installer_ds_bytes = or_zero ds_rss;
            n_pod_count = n;
          })
          ∷ [])

    -- `runMemory`: its samples.
    unfoldable pub run_memory : Executor → Phase → Rig (List MemorySample)
    run_memory e phase = do
      ready ← ask env (ensure_bpftool e.worker)
      for_samples 1 (pos_part e.plan.samples)
          (memory_sample e phase (pod_count e.memory_n_pod_count))
