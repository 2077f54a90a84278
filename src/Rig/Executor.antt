-- ===== src/Rig/Executor.antt =====
-- internal/perfrig/executor.go and stage.go: the phases of a run on a fresh cluster each. Reading
-- JSON, CSV and floats is the parameter `Readings`. `logf` is not modelled.
pub mod Stage
pub mod Iperf
pub mod Mixed
pub mod Memory
pub mod Run
pub mod Work
use natra.Base.{
  ℕ, Bool, true, false, Option, none, some, List, [], ◌∷◌, ◌++◌, if◌then◌else◌, Text, codes,
  is_empty, text_eq, ℤ,
}
use natra.Rig.{Phase, baseline, vanilla, natra_phase, Plan}

-- What the rig reads off the output of iperf3, hey and bpftool, and the float64 that it reads.
pub record Readings : Type 1 where
  pub F : Type 0
  pub zero_f : F
  pub is_pos : F → Bool
  pub received_bps : Text → Option F  -- the JSON of iperf3, at end.sum_received.bits_per_second
  pub sender_bps : Text → Option (List F)  -- its streams, at sender.bits_per_second
  pub csv_rows : Text → Option (List (List Text))
  pub parse_float : Text → Option F
  pub sort : List F → List F
  pub rank : F → ℕ → ℤ  -- int(math.Ceil(k * float64(n)))
  pub median : F  -- 0.50
  pub tail : F  -- 0.99
  pub per_second : ℕ → ℕ → F  -- float64(n) / float64(seconds)
  pub to_millis : F → F  -- a number times 1000
  pub bpf_objects : Text → List (Text × ℤ)  -- name and bytes_memlock of the decoded objects

-- `Executor`, with what its substrate answers for `Nodes`.
pub record Executor : Type 0 where
  pub plan : Plan
  pub server : Text
  pub worker : Text
  pub repo_root : Text
  pub namespace : Text
  pub perfclient_image : Text
  pub memory_n_pod_count : ℤ

-- `namespaceForPhase`
unfoldable pub namespace_for_phase : Executor → Text
namespace_for_phase e = if is_empty e.namespace then codes "natra-perfrig" else e.namespace

abbrev pub is_baseline : Phase → Bool
is_baseline baseline = true
is_baseline vanilla = false
is_baseline natra_phase = false

abbrev pub is_vanilla : Phase → Bool
is_vanilla baseline = false
is_vanilla vanilla = true
is_vanilla natra_phase = false

abbrev pub is_natra : Phase → Bool
is_natra baseline = false
is_natra vanilla = false
is_natra natra_phase = true
