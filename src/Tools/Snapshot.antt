-- ===== src/Tools/Snapshot.antt =====
-- `collectPodSnapshots`, `readPodMaps` and `readStatSlot` of cmd/natra-tools/profile_linux.go. The
-- containers are in the order of the directory; the code visits them in no fixed order.
pub mod Slots
use natra.Base.{
  ℕ, suc, ◌+◌, ◌*◌, Bool, true, false, Option, none, some, List, [], ◌∷◌, ◌++◌, ◌==◌, if◌then◌else◌,
  Text, codes, text_eq,
}
use natra.Bpf.Types.{Direction, ingress, egress, direction_key}
use natra.Dataplane.Flow.{Bytes}
use natra.Tools.{
  PinnedMap, Pins, CmsSummary, Scan, scanned, scan_failed, out_of_fuel, no_cells, uint64_at,
  sum_counters, scan_cells,
}
use natra.Tools.Names.{pin_of}

pub record ConfigRecord : Type 0 where
  pub direction : Direction
  pub rate_bps : ℕ
  pub burst_bytes : ℕ
  pub hh_threshold : ℕ

pub record StatRecord : Type 0 where
  pub direction : Direction
  pub passed : ℕ
  pub throttled : ℕ
  pub hh_hits : ℕ

pub record PodSnapshot : Type 0 where
  pub container_id : Text
  pub configs : List ConfigRecord
  pub stats : List StatRecord
  pub bucket_tokens : List (Direction × ℕ)
  pub cms : CmsSummary

-- `byContainer`: for each container its maps and their paths.
abbrev pub Pods : Type 0
Pods = List (Text × List (Text × Text))

unfoldable pub add_pin : Pods → Text → Text → Text → Pods
add_pin [] container name path = (container, (name, path) ∷ []) ∷ []
add_pin ((c, paths) ∷ pods) container name path =
    let rest = add_pin pods container name path in
    if text_eq c container then (c, (name, path) ∷ paths) ∷ pods else (c, paths) ∷ rest

unfoldable pub add_entry : Text → Pods → Text → Option (Text × Text) → Pods
add_entry dir pods entry none = pods
add_entry dir pods entry (some (container, name)) =
    add_pin pods container name (dir ++ (codes "/" ++ entry))

unfoldable pub group_pins : Text → Pods → List Text → Pods
group_pins dir pods [] = pods
group_pins dir pods (entry ∷ entries) =
    group_pins dir (add_entry dir pods entry (pin_of entry)) entries

unfoldable pub path_of : Text → List (Text × Text) → Option Text
path_of name [] = none
path_of name ((n, path) ∷ paths) =
    let rest = path_of name paths in if text_eq n name then some path else rest

unfoldable pub open_path : Pins → Option Text → Option PinnedMap
open_path pins none = none
open_path pins (some path) = pins.open_map path

unfoldable pub config_record : Direction → Option Bytes → List ConfigRecord
config_record dir none = []
config_record dir (some raw) =
    (record {
      direction = dir;
      rate_bps = uint64_at raw 0;
      burst_bytes = uint64_at raw 8;
      hh_threshold = uint64_at raw 16;
    })
    ∷ []

unfoldable pub read_configs : Option PinnedMap → List ConfigRecord
read_configs none = []
read_configs (some m) =
    config_record ingress (m.lookup_bytes 24 0) ++ config_record egress (m.lookup_bytes 24 1)

unfoldable pub slot_value : Option (List ℕ) → ℕ
slot_value none = 0
slot_value (some values) = sum_counters 0 values

-- `readStatSlot`
unfoldable pub read_stat_slot : PinnedMap → Direction → ℕ → ℕ
unfolding slot_value
read_stat_slot m dir slot = slot_value (m.lookup_counters (direction_key dir * 3 + slot))

unfoldable pub stat_record : PinnedMap → Direction → StatRecord
stat_record m dir = record {
  direction = dir;
  passed = read_stat_slot m dir 0;
  throttled = read_stat_slot m dir 1;
  hh_hits = read_stat_slot m dir 2;
}

unfoldable pub read_stats : Option PinnedMap → List StatRecord
read_stats none = []
read_stats (some m) = stat_record m ingress ∷ stat_record m egress ∷ []

unfoldable pub tokens_of : Direction → Option Bytes → List (Direction × ℕ)
tokens_of dir none = []
tokens_of dir (some raw) = (dir, uint64_at raw 8) ∷ []

unfoldable pub read_buckets : Option PinnedMap → List (Direction × ℕ)
read_buckets none = []
read_buckets (some m) =
    tokens_of ingress (m.lookup_bytes 24 0) ++ tokens_of egress (m.lookup_bytes 24 1)

-- The loop ends at every error, with what it has counted.
unfoldable pub scan_result : Scan → CmsSummary
scan_result (scanned sum) = sum
scan_result (scan_failed sum) = sum
scan_result out_of_fuel = no_cells

unfoldable pub read_cells : ℕ → Option PinnedMap → CmsSummary
read_cells fuel none = no_cells
read_cells fuel (some m) = scan_result (scan_cells m fuel 0 no_cells)

-- `readPodMaps`
unfoldable pub read_pod_maps : Pins → ℕ → Text × List (Text × Text) → PodSnapshot
read_pod_maps pins fuel (container, paths) = record {
  container_id = container;
  configs = read_configs (open_path pins (path_of (codes "config") paths));
  stats = read_stats (open_path pins (path_of (codes "stats") paths));
  bucket_tokens = read_buckets (open_path pins (path_of (codes "bucket") paths));
  cms = read_cells fuel (open_path pins (path_of (codes "cms") paths));
}

unfoldable pub read_pods : Pins → ℕ → Pods → List PodSnapshot
read_pods pins fuel [] = []
read_pods pins fuel (pod ∷ pods) = read_pod_maps pins fuel pod ∷ read_pods pins fuel pods

unfoldable pub snapshots_of : Pins → Text → ℕ → Option (List Text) → List PodSnapshot
snapshots_of pins dir fuel none = []
snapshots_of pins dir fuel (some entries) = read_pods pins fuel (group_pins dir [] entries)

-- `collectPodSnapshots`
unfoldable pub collect_pod_snapshots : Pins → Text → ℕ → List PodSnapshot
collect_pod_snapshots pins dir fuel = snapshots_of pins dir fuel pins.entries
