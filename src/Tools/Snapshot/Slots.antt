-- ===== src/Tools/Snapshot/Slots.antt =====
-- The slots that a snapshot and a dump read.
use natra.Base.{ℕ, ◌≡◌, refl, some, List, map}
use natra.Base.Result.{ok}
use natra.Bpf.Types.{
  Direction, ingress, egress, Stat, passed, throttled, hh_hits, ecn_marked, edt_delayed, dropped,
  stat_key,
}
use natra.Tools.{PinnedMap, sum_counters}
use natra.Tools.Dump.{all_stats, read_counters}
use natra.Tools.Snapshot.{stat_record, read_stat_slot}

-- For a stats map that holds the slots of both directions: a dump reads each slot of a direction where
-- the dataplane counts it, and so does a snapshot of the ingress direction. The egress record of a
-- snapshot holds other counters: the marked, the delayed and the dropped packets of the ingress
-- direction in place of the passed, the throttled and the heavy ones of the egress direction.
pub stat_record-slots :
    (m : PinnedMap) (values : ℕ → List ℕ)
    → ((key : ℕ) → m.lookup_counters key ≡ some (values key))
    → let sum = λ (dir : Direction) (slot : Stat). sum_counters 0 (values (stat_key dir slot)) in
      ((dir : Direction) → read_counters m dir all_stats ≡ ok (map (sum dir) all_stats))
      × (stat_record m ingress ≡ record {
        direction = ingress;
        passed = sum ingress passed;
        throttled = sum ingress throttled;
        hh_hits = sum ingress hh_hits;
      })
      × (stat_record m egress ≡ record {
        direction = egress;
        passed = sum ingress ecn_marked;
        throttled = sum ingress edt_delayed;
        hh_hits = sum ingress dropped;
      })
unfolding stat_record read_stat_slot read_counters stat_key
stat_record-slots m values h = (counters, rw (h 0, h 1, h 2) refl, rw (h 3, h 4, h 5) refl)
  where
    counters :
        (dir : Direction)
        → read_counters m dir all_stats
          ≡ ok (map (λ slot. sum_counters 0 (values (stat_key dir slot))) all_stats)
    counters dir = simp h
