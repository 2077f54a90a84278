-- ===== src/Tools/Dump.antt =====
-- `dumpStats` of cmd/natra-tools/dump_linux.go: the sections that it prints.
use natra.Base.{
  ℕ, Option, none, some, List, [], ◌∷◌, ◌++◌, ◌==◌, if◌then◌else◌, Text, codes, has_prefix,
}
use natra.Base.Result.{Result, ok, err, ◌>>=◌}
use natra.Bpf.Types.{
  Direction, ingress, egress, direction_key, Stat, passed, throttled, hh_hits, ecn_marked,
  edt_delayed, dropped, stat_key,
}
use natra.Dataplane.Flow.{Bytes}
use natra.Tools.{
  PinnedMap, Pins, CmsSummary, Scan, scanned, scan_failed, out_of_fuel, no_cells, uint64_at,
  sum_counters, scan_cells,
}
use natra.Tools.Names.{map_pin_name}

pub data DumpFault : Type 0 where
  usage : DumpFault
  cannot_open : Text → DumpFault
  no_config : Direction → DumpFault
  no_counter : Direction → Stat → DumpFault
  cms_unreadable endless : DumpFault

pub record Section : Type 0 where
  pub direction : Direction
  pub rate : ℕ
  pub burst : ℕ
  pub hh_threshold : ℕ
  pub counters : List ℕ

pub record Dump : Type 0 where
  pub sections : List Section
  pub cms : Option CmsSummary
  pub pinned : List Text

abbrev pub all_stats : List Stat
all_stats = passed ∷ throttled ∷ hh_hits ∷ ecn_marked ∷ edt_delayed ∷ dropped ∷ []

unfoldable pub opened : Text → Option PinnedMap → Result DumpFault PinnedMap
opened name none = err (cannot_open name)
opened name (some m) = ok m

-- `open`
unfoldable pub open_pin : Pins → Text → Text → Text → Option PinnedMap
open_pin pins dir container name = pins.open_map (dir ++ (codes "/" ++ map_pin_name container name))

unfoldable pub sum_or : DumpFault → Option (List ℕ) → Result DumpFault ℕ
sum_or fault none = err fault
sum_or fault (some values) = ok (sum_counters 0 values)

-- The loop over the slots of a direction.
unfoldable pub read_counters : PinnedMap → Direction → List Stat → Result DumpFault (List ℕ)
unfolding sum_or stat_key
read_counters m dir [] = ok []
read_counters m dir (slot ∷ slots) = do
  sum ← sum_or (no_counter dir slot) (m.lookup_counters (stat_key dir slot))
  rest ← read_counters m dir slots
  ok (sum ∷ rest)

unfoldable pub read_section : PinnedMap → Direction → Bytes → Result DumpFault (List Section)
read_section stats dir raw = do
  counters ← read_counters stats dir all_stats
  ok (
      (record {
        direction = dir;
        rate = uint64_at raw 0;
        burst = uint64_at raw 8;
        hh_threshold = uint64_at raw 16;
        counters = counters;
      })
      ∷ [])

-- What follows the lookup of a direction's configuration, which is read into 24 bytes. A slot with
-- the rate 0 has no section.
unfoldable pub section_of : PinnedMap → Direction → Option Bytes → Result DumpFault (List Section)
section_of stats dir none = err (no_config dir)
section_of stats dir (some raw) = if uint64_at raw 0 == 0 then ok [] else read_section stats dir raw

unfoldable pub dump_direction : PinnedMap → PinnedMap → Direction → Result DumpFault (List Section)
dump_direction config stats dir = section_of stats dir (config.lookup_bytes 24 (direction_key dir))

unfoldable pub dump_scan : Scan → Result DumpFault (Option CmsSummary)
dump_scan (scanned sum) = ok (some sum)
dump_scan (scan_failed sum) = err cms_unreadable
dump_scan out_of_fuel = err endless

-- The cms map may be absent.
unfoldable pub dump_cms : ℕ → Option PinnedMap → Result DumpFault (Option CmsSummary)
dump_cms fuel none = ok none
dump_cms fuel (some m) = dump_scan (scan_cells m fuel 0 no_cells)

unfoldable pub filter_prefix : Text → List Text → List Text
filter_prefix prefix [] = []
filter_prefix prefix (name ∷ names) =
    let rest = filter_prefix prefix names in if has_prefix name prefix then name ∷ rest else rest

unfoldable pub pinned_names : Text → Option (List Text) → List Text
pinned_names container none = []
pinned_names container (some names) = filter_prefix container names

unfoldable pub dump_container : Pins → Text → ℕ → Text → Result DumpFault Dump
dump_container pins dir fuel container = do
  config ← opened (codes "config") (open_pin pins dir container (codes "config"))
  stats ← opened (codes "stats") (open_pin pins dir container (codes "stats"))
  toward_pod ← dump_direction config stats ingress
  from_pod ← dump_direction config stats egress
  cms ← dump_cms fuel (open_pin pins dir container (codes "cms"))
  ok (record {
    sections = toward_pod ++ from_pod;
    cms = cms;
    pinned = pinned_names container pins.entries;
  })

-- `dumpStats` where the memlock limit can be removed.
unfoldable pub dump_stats : Pins → Text → ℕ → List Text → Result DumpFault Dump
dump_stats pins dir fuel [] = err usage
dump_stats pins dir fuel (container ∷ []) = dump_container pins dir fuel container
dump_stats pins dir fuel (container ∷ _ ∷ _) = err usage
