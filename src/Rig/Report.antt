-- ===== src/Rig/Report.antt =====
-- internal/perfrig/report_write.go: the report of a run as text. `generated` is the time of the report; the
-- operations on float64 and their printing with a number of decimals are the parameter `Figures`.
pub mod Rates
pub mod Write
pub mod Measure
use Prim.Native.String.{String}
use natra.Base.{
  ℕ, zero, suc, ◌+◌, ◌-◌, Bool, true, false, ◌||◌, any, List, [], ◌∷◌, ◌++◌, map, if◌then◌else◌,
  ltb, length, Text, codes, text_eq, ℤ, to_bits, of_bits, ◌%◌, ◌^◌, is_empty,
}
use natra.Rig.{Phase, baseline, vanilla, natra_phase, iperf_sweep, mixed, memory}
use natra.Rig.Cluster.{RigEnv}
use natra.Rig.Manifest.{newline}
use natra.Rig.Executor.{Readings}
use natra.Rig.Executor.Iperf.{IperfCell}
use natra.Rig.Executor.Mixed.{MixedSample}
use natra.Rig.Executor.Memory.{MemorySample}
use natra.Rig.Executor.Run.{WorkloadReport, PhaseReport}
use natra.Rig.Report.Rates.{rate_rows}

pub record Figures (rd : Readings) : Type 0 where
  pub add : rd.F → rd.F → rd.F
  pub sub : rd.F → rd.F → rd.F
  pub mul : rd.F → rd.F → rd.F
  pub div : rd.F → rd.F → rd.F
  pub sqrt : rd.F → rd.F
  pub of_nat : ℕ → rd.F
  pub of_int : ℤ → rd.F  -- float64 of an int64
  pub format : ℕ → rd.F → Text  -- `%.*f`

abbrev pub phase_text : Phase → Text
phase_text baseline = codes "baseline"
phase_text vanilla = codes "vanilla"
phase_text natra_phase = codes "natra"

abbrev pub repeat : ℕ → ℕ → Text
repeat zero c = []
repeat (suc n) c = c ∷ repeat n c

-- `%-10s` and its like.
unfoldable pub pad : ℕ → Text → Text
pad width s = s ++ repeat (width - length s) 32

-- A line of cells with their widths, two spaces apart.
unfoldable pub line_of : List (ℕ × Text) → Text
unfolding pad
line_of [] = newline ∷ []
line_of ((width, s) ∷ []) = pad width s ++ (newline ∷ [])
line_of ((width, s) ∷ c ∷ cells) = pad width s ++ (codes "  " ++ line_of (c ∷ cells))

abbrev pub lines_of : {A : Type 0} → (A → Text) → List A → Text
lines_of render [] = []
lines_of render (x ∷ xs) = render x ++ lines_of render xs

abbrev pub gather : {A B : Type 0} → (A → List B) → List A → List B
gather f [] = []
gather f (x ∷ xs) = f x ++ gather f xs

abbrev pub has_some : {A : Type 0} → List A → Bool
has_some [] = false
has_some (_ ∷ _) = true

-- The difference of two int64.
unfoldable pub sub64 : ℤ → ℤ → ℤ
sub64 a b = of_bits ((to_bits a + 2 ^ 64 - to_bits b) % 2 ^ 64)

module _ (rd : Readings) (fig : Figures rd) where
  unfoldable pub sum_from : rd.F → List rd.F → rd.F
  sum_from total [] = total
  sum_from total (x ∷ xs) = sum_from (fig.add total x) xs

  unfoldable pub squares_from : rd.F → rd.F → List rd.F → rd.F
  squares_from mean v [] = v
  squares_from mean v (x ∷ xs) =
      squares_from mean (fig.add v (fig.mul (fig.sub x mean) (fig.sub x mean))) xs

  -- `meanStd`
  unfoldable pub mean_std : List rd.F → rd.F × rd.F
  unfolding sum_from squares_from
  mean_std [] = (rd.zero_f, rd.zero_f)
  mean_std (x ∷ []) = (fig.div (sum_from rd.zero_f (x ∷ [])) (fig.of_nat 1), rd.zero_f)
  mean_std (x ∷ y ∷ xs) =
      let n = length (x ∷ y ∷ xs) in
      let mean = fig.div (sum_from rd.zero_f (x ∷ y ∷ xs)) (fig.of_nat n) in
      (mean, fig.sqrt (fig.div (squares_from mean rd.zero_f (x ∷ y ∷ xs)) (fig.of_nat (n - 1))))

  -- `cell`
  unfoldable pub cell : List rd.F → ℕ → ℕ → Text
  unfolding mean_std
  cell [] scale dp = codes "—"
  cell (x ∷ []) scale dp = fig.format dp (fig.div (mean_std (x ∷ [])).0 (fig.of_nat scale))
  cell (x ∷ y ∷ xs) scale dp =
      let ms = mean_std (x ∷ y ∷ xs) in
      fig.format dp (fig.div ms.0 (fig.of_nat scale))
      ++ (codes "±" ++ fig.format dp (fig.div ms.1 (fig.of_nat scale)))

  module _ (env : RigEnv) where
    abbrev pub of_kind : Text → List (WorkloadReport env rd) → List (WorkloadReport env rd)
    of_kind kind [] = []
    of_kind kind (w ∷ ws) =
        let rest = of_kind kind ws in if text_eq w.kind kind then w ∷ rest else rest

    unfoldable pub has_data : WorkloadReport env rd → Bool
    has_data w = has_some w.iperf_cells || has_some w.mixed_samples || has_some w.memory_samples

    -- `anyWorkloadHasData`
    unfoldable pub any_workload_has_data : List (PhaseReport env rd) → Text → Bool
    unfolding has_data
    any_workload_has_data phases kind = any (λ p. any has_data (of_kind kind p.workloads)) phases

    abbrev pub cells_of : PhaseReport env rd → List (IperfCell env rd)
    cells_of p = gather (λ w. w.iperf_cells) (of_kind iperf_sweep p.workloads)

    unfoldable pub iperf_line : Phase → Text × List rd.F × List rd.F → Text
    iperf_line ph (rate, ing, eg) =
        line_of (
          (10, phase_text ph) ∷ (6, rate) ∷ (14, cell ing 1000000 1) ∷ (14, cell eg 1000000 1) ∷ [])

    -- `writeIperfTable`
    unfoldable pub iperf_table : List (PhaseReport env rd) → Text
    iperf_table phases =
        if any_workload_has_data phases iperf_sweep
        then codes "\niperfSweep: per-direction elephant throughput (per phase × rate)\n"
          ++ line_of (
              (10, codes "Phase")
              ∷ (6, codes "rate")
              ∷ (14, codes "iperf ing Mbps")
              ∷ (14, codes "iperf eg Mbps")
              ∷ [])
          ++ repeat 52 b'-'
          ++ (newline ∷ [])
          ++ lines_of (λ p. lines_of (iperf_line p.phase) (rate_rows env rd (cells_of p))) phases
        else []

    abbrev pub mixed_of : PhaseReport env rd → List (MixedSample rd)
    mixed_of p = gather (λ w. w.mixed_samples) (of_kind mixed p.workloads)

    unfoldable pub mixed_line : Phase → List (MixedSample rd) → Text
    mixed_line ph ms = line_of (
        (10, phase_text ph)
        ∷ (13, cell (map (λ m. m.iperf_ingress_bps) ms) 1000000 1)
        ∷ (13, cell (map (λ m. m.iperf_egress_bps) ms) 1000000 1)
        ∷ (11, cell (map (λ m. m.pod_rps) ms) 1 0)
        ∷ (9, cell (map (λ m. m.pod_p50) ms) 1 1)
        ∷ (11, cell (map (λ m. m.pod_p99) ms) 1 1)
        ∷ (11, cell (map (λ m. m.bystander_rps) ms) 1 0)
        ∷ (9, cell (map (λ m. m.bystander_p50) ms) 1 1)
        ∷ (11, cell (map (λ m. m.bystander_p99) ms) 1 1)
        ∷ (12, cell (map (λ m. fig.add m.pod_rps m.bystander_rps) ms) 1 0)
        ∷ [])

    -- `writeMixedTable`
    unfoldable pub mixed_table : List (PhaseReport env rd) → Text
    mixed_table phases =
        if any_workload_has_data phases mixed
        then codes
            "\nmixed: iperf3 --bidir elephant + concurrent hey mice on annotated + bystander pods\n"
          ++ line_of (
              (10, codes "Phase")
              ∷ (13, codes "ing Mbps")
              ∷ (13, codes "eg Mbps")
              ∷ (11, codes "pod rps")
              ∷ (9, codes "p50 ms")
              ∷ (11, codes "p99 ms")
              ∷ (11, codes "by rps")
              ∷ (9, codes "p50 ms")
              ∷ (11, codes "p99 ms")
              ∷ (12, codes "mice total")
              ∷ [])
          ++ repeat 124 b'-'
          ++ (newline ∷ [])
          ++ lines_of (λ p. mixed_line p.phase (mixed_of p)) phases
        else []

    abbrev pub memory_of : PhaseReport env rd → List MemorySample
    memory_of p = gather (λ w. w.memory_samples) (of_kind memory p.workloads)

    -- The memory per pod of a sample with several pods.
    unfoldable pub per_pod : MemorySample → List rd.F
    unfolding sub64
    per_pod m =
        if ltb 1 m.n_pod_count
        then fig.div (fig.of_int (sub64 m.dataplane_kmem_bytes_n m.dataplane_kmem_bytes_1))
            (fig.of_nat (m.n_pod_count - 1))
          ∷ []
        else []

    abbrev pub column : (MemorySample → ℤ) → List MemorySample → List rd.F
    column read ms = map (λ m. fig.of_int (read m)) ms

    unfoldable pub memory_line : Phase → List MemorySample → Text
    unfolding per_pod
    memory_line ph ms = line_of (
        (10, phase_text ph)
        ∷ (14, cell (gather per_pod ms) 1024 1)
        ∷ (14, cell (column (λ m. m.dataplane_kmem_bytes_n) ms) 1024 1)
        ∷ (12, cell (column (λ m. m.vanilla_qdisc_bytes) ms) 1 0)
        ∷ (12, cell (column (λ m. m.natra_bpf_memlock_bytes) ms) 1 0)
        ∷ (14, cell (column (λ m. m.plugin_invoke_peak_rss_bytes) ms) 1024 1)
        ∷ (12, cell (column (λ m. m.installer_ds_bytes) ms) 1024 1)
        ∷ [])

    -- `writeMemoryTable`
    unfoldable pub memory_table : List (PhaseReport env rd) → Text
    memory_table phases =
        if any (λ p. has_some (memory_of p)) phases
        then codes "\nMemory comparison (per worker node, baseline = 0 / noise floor)\n"
          ++ line_of (
              (10, codes "Phase")
              ∷ (14, codes "kmem/pod KB")
              ∷ (14, codes "kmem@N KB")
              ∷ (12, codes "qdiscs@N")
              ∷ (12, codes "bpf memlock")
              ∷ (14, codes "invokeRSS KB")
              ∷ (12, codes "DS RSS KB")
              ∷ [])
          ++ repeat 96 b'-'
          ++ (newline ∷ [])
          ++ lines_of (λ p. memory_line p.phase (memory_of p)) phases
        else []
