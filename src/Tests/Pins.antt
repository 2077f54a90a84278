-- ===== src/Tests/Pins.antt =====
-- The operator tools on a directory of pins.
use natra.Base.{ℕ, ◌≡◌, refl, some, none, List, [], ◌∷◌, ◌++◌, map, All, Text, codes}
use natra.Base.Result.{ok}
use natra.Bpf.Types.{
  Direction, ingress, egress, Stat, passed, throttled, hh_hits, ecn_marked, edt_delayed, dropped,
  stat_key,
}
use natra.Bpf.Program.{map_names, map_pin_path}
use natra.Tools.{PinnedMap, no_key, sum_counters}
use natra.Tools.Names.{map_pin_name, pin_of, pin_of-map_pin_path}
use natra.Tools.Dump.{all_stats, read_counters}
use natra.Tools.Snapshot.{stat_record}
use natra.Tools.Snapshot.Slots.{stat_record-slots}

abbrev counted : ℕ → List ℕ
counted key = key ∷ 100 ∷ []

abbrev two_cpus : PinnedMap
two_cpus = record {
  lookup_bytes = λ size key. none;
  lookup_counters = λ key. some (counted key);
  lookup_cell = λ key. no_key;
}

pin_of-map_pin_path_example :
    All
      (λ name.
        (map_pin_path (codes "/p") (codes "a1-b2") name
          ≡ codes "/p" ++ (codes "/" ++ map_pin_name (codes "a1-b2") name))
        × (pin_of (map_pin_name (codes "a1-b2") name) ≡ some (codes "a1-b2", name)))
      map_names
pin_of-map_pin_path_example = pin_of-map_pin_path (codes "/p") (codes "a1-b2")

stat_record-slots_example :
    let sum = λ (dir : Direction) (slot : Stat). sum_counters 0 (counted (stat_key dir slot)) in
    ((dir : Direction) → read_counters two_cpus dir all_stats ≡ ok (map (sum dir) all_stats))
    × (stat_record two_cpus ingress ≡ record {
      direction = ingress;
      passed = sum ingress passed;
      throttled = sum ingress throttled;
      hh_hits = sum ingress hh_hits;
    })
    × (stat_record two_cpus egress ≡ record {
      direction = egress;
      passed = sum ingress ecn_marked;
      throttled = sum ingress edt_delayed;
      hh_hits = sum ingress dropped;
    })
stat_record-slots_example = stat_record-slots two_cpus counted (λ key. refl)

-- A link pin is no map pin.
link_pin_skipped : pin_of (codes "a1-podside-egress-link") ≡ none
unfolding pin_of mathlib.Core.Option.bind natra.Tools.Names.strip_suffix natra.Base.text_eq
link_pin_skipped = refl
