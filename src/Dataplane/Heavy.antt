-- ===== src/Dataplane/Heavy.antt =====
-- A flow that has sent more than the threshold within a decay interval meets the token bucket.
use natra.Base.{ℕ, ◌+◌, ◌*◌, ◌^◌, ◌≤◌, ◌<◌, ◌≡◌, refl, Bool, false, some, List, arith, leb, ◌==◌}
use natra.Bpf.Types.{Direction}
use natra.Dataplane.{Skb, Maps, gate_heavy, classify_flow, classify_parsed, classify}
use natra.Dataplane.Flow.{Bytes, parse_flow}
use natra.Dataplane.Sketch.{age, cms_update_and_min, decay_index}
use natra.Dataplane.Sketch.Counters.{Seen, observe}
use natra.Dataplane.Sketch.Estimate.{total_bytes, bytes_of, cms_update_and_min-ge}

-- The packets `earlier` have passed the sketch in the interval of `now_ns`, and then comes one of
-- the flow `key`, in a direction with a limit. If the flow's bytes among `earlier` and the
-- packet's own are above the threshold, the packet goes to the token bucket with the sketch
-- updated. It is supposed that the aged cells were at most at `high` before them, and that `high`
-- and four times all bytes stay below 2^64.
pub classify_heavy :
    (ecn_set_ce : Skb → Bool × Skb) (skb : Skb) (dir : Direction) (now_ns high : ℕ) (m : Maps)
    (key : Bytes) (earlier : List Seen)
    → parse_flow skb.bytes ≡ some key
    → 0 < (m.config dir).rate_bps
    → high + 4 * (total_bytes earlier + skb.len) < 2 ^ 64
    → ((i : ℕ) → age (decay_index now_ns) (m.cms i) ≤ high)
    → (m.config dir).hh_threshold < bytes_of key earlier + skb.len
    → let cells = (observe dir (decay_index now_ns) earlier m.cms).1 in
      classify ecn_set_ce skb dir now_ns (record m { cms = cells })
      ≡ gate_heavy ecn_set_ce skb dir now_ns
          (record m { cms = (cms_update_and_min cells dir key (decay_index now_ns) skb.len).1 })
unfolding classify classify_parsed classify_flow
classify_heavy ecn_set_ce skb dir now_ns high m key earlier flow limited room below above =
    let cells = (observe dir (decay_index now_ns) earlier m.cms).1 in
    let on : ((m.config dir).rate_bps == 0) ≡ false = ground arith in
    let least =
      cms_update_and_min-ge dir key (decay_index now_ns) skb.len earlier high m.cms room below in
    let heavy : leb (cms_update_and_min cells dir key (decay_index now_ns) skb.len).0
          (m.config dir).hh_threshold
        ≡ false =
      ground arith in
    rw (on, flow, heavy) refl
