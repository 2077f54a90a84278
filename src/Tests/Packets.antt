-- ===== src/Tests/Packets.antt =====
-- The dataplane on concrete packets.
use natra.Base.{
  text_eq, ℕ, ◌+◌, ◌-◌, ◌*◌, ◌%◌, ◌^◌, ◌≤◌, ◌<◌, ◌≡◌, refl, Bool, true, false, some, List, [], ◌∷◌,
  ◌++◌, arith,
}
use natra.Bpf.Types.{Direction, ingress, egress, BpfConfig, TokenBucket}
use natra.Dataplane.{Skb, Maps, Packet, act_ok, act_shot, classify, classify_all, gate_heavy}
use natra.Dataplane.Flow.{Bytes, zeros, flow_key, parse_flow}
use natra.Dataplane.Bucket.{pacing_step, consume_tokens, later, pace}
use natra.Dataplane.Bucket.Rate.{Arrival, drain, passed_bytes, passed_bytes-le, consume_tokens_idle}
use natra.Dataplane.Bucket.Pacing.{pace_spacing}
use natra.Dataplane.Sketch.{Cells, age, cms_update_and_min, decay_index}
use natra.Dataplane.Sketch.Counters.{Seen, observe}
use natra.Dataplane.Sketch.Estimate.{total_bytes, bytes_of, cms_update_and_min-ge}
use natra.Dataplane.Heavy.{classify_heavy}
use natra.Dataplane.Fate.{Fate, HasFate, classify-HasFate}
use natra.Dataplane.Stats.{
  IsBalanced, packets_of, packets_toward, classify_all-IsBalanced, classify_all-packets_of,
}

abbrev tcp_packet : Bytes
tcp_packet =
    zeros 12
    ++ (8 ∷ 0 ∷ 0x45 ∷ [])
    ++ zeros 8
    ++ (6 ∷ 0 ∷ 0 ∷ [])
    ++ (10 ∷ 0 ∷ 0 ∷ 1 ∷ 10 ∷ 0 ∷ 0 ∷ 2 ∷ [])
    ++ (0x1f ∷ 0x90 ∷ 0 ∷ 80 ∷ [])
    ++ zeros 16

abbrev tcp_key : Bytes
tcp_key = flow_key (10 ∷ 0 ∷ 0 ∷ 1 ∷ 10 ∷ 0 ∷ 0 ∷ 2 ∷ []) (0x1f ∷ 0x90 ∷ 0 ∷ 80 ∷ []) 6

tcp_packet_parses : parse_flow tcp_packet ≡ some tcp_key
unfolding parse_flow natra.Dataplane.Flow.byte_at natra.Dataplane.Flow.with_ports
    natra.Dataplane.Flow.parse_transport natra.Dataplane.Flow.ports_at natra.Dataplane.Flow.bytes_at
tcp_packet_parses = refl

abbrev skb : Skb
skb = record { bytes = tcp_packet; len = 1500; tstamp = 0 }

abbrev limit : BpfConfig
limit = record { rate_bps = 1250000; burst_bytes = 2000; hh_threshold = 2000; edt_pacing = 0 }

abbrev full : TokenBucket
full = record { tokens = 2000; last_update_ns = 5; next_release_ns = 0 }

abbrev maps : Maps
maps = record {
  config = λ _. limit;
  bucket = λ _. full;
  cms = λ _. record { bytes = 0; last_decay_idx = 0 };
  stats = λ _. 0;
}

abbrev no_ecn : Skb → Bool × Skb
no_ecn s = (false, s)

-- Four packets in a row: the sketch lets one pass, the bucket the next, and two are dropped.
abbrev burst : List Packet
burst =
    (record { skb = skb; dir = egress; now_ns = 6 })
    ∷ (record { skb = skb; dir = egress; now_ns = 7 })
    ∷ (record { skb = skb; dir = egress; now_ns = 8 })
    ∷ (record { skb = skb; dir = ingress; now_ns = 9 })
    ∷ []

burst_drops : (classify_all no_ecn burst maps).stats 11 ≡ 1
unfolding classify_all classify natra.Dataplane.classify_parsed parse_flow
    natra.Dataplane.Flow.byte_at natra.Dataplane.Flow.with_ports
    natra.Dataplane.Flow.parse_transport natra.Dataplane.Flow.ports_at natra.Dataplane.Flow.bytes_at
    natra.Dataplane.classify_flow cms_update_and_min natra.Dataplane.Sketch.update_rows
    natra.Dataplane.Sketch.touch age natra.Dataplane.Sketch.set_cell
    natra.Dataplane.Sketch.cell_index natra.Dataplane.Flow.cms_hash natra.Dataplane.Flow.fnv
    flow_key natra.Bpf.Types.stat_key natra.Dataplane.Bucket.available natra.Dataplane.Bucket.charge
    consume_tokens natra.Dataplane.Bucket.elapsed_since natra.Dataplane.Bucket.refill decay_index
    natra.Dataplane.Sketch.intervals_since natra.Dataplane.bump_stat natra.Dataplane.finish
    gate_heavy natra.Dataplane.mark_or_drop natra.Dataplane.same_direction
    natra.Dataplane.set_bucket natra.Dataplane.throttle_disposition
burst_drops = refl

abbrev two : List Arrival
two = (record { bytes = 1500; now = 10 }) ∷ (record { bytes = 1500; now = 4000005 }) ∷ []

two_pass : passed_bytes 1250000 2000 full two ≡ 3000
unfolding passed_bytes consume_tokens natra.Dataplane.Bucket.available natra.Dataplane.Bucket.refill
    natra.Dataplane.Bucket.elapsed_since natra.Dataplane.Bucket.charge
two_pass = refl

drained : (drain 1250000 2000 full two).last_update_ns ≤ 5000005
unfolding drain consume_tokens natra.Dataplane.Bucket.available natra.Dataplane.Bucket.refill
    natra.Dataplane.Bucket.elapsed_since natra.Dataplane.Bucket.charge
drained = omega arith

passed_bytes-le_example :
    passed_bytes 1250000 2000 (drain 1250000 2000 full two) two * 1000000000
    ≤ 2000 * 1000000000 + 1250000 * (5000005 - (drain 1250000 2000 full two).last_update_ns)
passed_bytes-le_example =
    passed_bytes-le 1250000 2000 5000005 full two two (omega arith) drained (omega arith)

consume_tokens_idle_example :
    (consume_tokens (record full { tokens = 0 }) 1500 1250000 2000 2000005).0 ≡ true
consume_tokens_idle_example =
    consume_tokens_idle (record full { tokens = 0 }) 1500 1250000 2000 2000005 (omega arith)
      (omega arith) (omega arith) (omega arith) (omega arith) (omega arith)

room : later 0 6 + pacing_step 1500 1250000 < 2 ^ 64
unfolding pacing_step
room = omega arith

pace_spacing_example :
    let next = (pace full 1500 1250000 6).next_release_ns in
    (later 0 6 ≤ next)
    × (1250000 * (next - later 0 6) ≤ 1500 * 8000000000)
    × (1500 * 8000000000 < 1250000 * (next - later 0 6) + 1250000)
pace_spacing_example = pace_spacing full 1500 1250000 6 (omega arith) (omega arith) room

abbrev seen : List Seen
seen = (record { key = tcp_key; bytes = 1500 }) ∷ (record { key = zeros 16; bytes = 60 }) ∷ []

fresh : (i : ℕ) → age 0 (maps.cms i) ≤ 0
unfolding age
fresh i = omega arith

cms_update_and_min-ge_example :
    3000 ≤ (cms_update_and_min (observe egress 0 seen maps.cms).1 egress tcp_key 0 1500).0
unfolding bytes_of total_bytes text_eq flow_key
cms_update_and_min-ge_example =
    cms_update_and_min-ge egress tcp_key 0 1500 seen 0 maps.cms (omega arith) fresh

fresh' : (i : ℕ) → age (decay_index 7) (maps.cms i) ≤ 0
unfolding age decay_index
fresh' i = omega arith

classify_heavy_example :
    let cells = (observe egress (decay_index 7) seen maps.cms).1 in
    classify no_ecn skb egress 7 (record maps { cms = cells })
    ≡ gate_heavy no_ecn skb egress 7
        (record maps { cms = (cms_update_and_min cells egress tcp_key (decay_index 7) 1500).1 })
unfolding bytes_of total_bytes text_eq flow_key
classify_heavy_example =
    classify_heavy no_ecn skb egress 7 0 maps tcp_key seen tcp_packet_parses (omega arith)
      (omega arith) fresh' (omega arith)

-- A packet above the threshold that the bucket denies.
abbrev long : Skb
long = record skb { len = 2500 }

classify-HasFate_example :
    (fate : Fate) × HasFate no_ecn long egress 7 maps (classify no_ecn long egress 7 maps) fate
classify-HasFate_example = classify-HasFate no_ecn long egress 7 maps

classify_all-IsBalanced_example : IsBalanced (classify_all no_ecn burst maps).stats egress
classify_all-IsBalanced_example = classify_all-IsBalanced no_ecn burst maps egress refl

classify_all-packets_of_example :
    packets_of (classify_all no_ecn burst maps).stats egress
    ≡ (packets_of maps.stats egress + packets_toward egress burst) % 2 ^ 64
classify_all-packets_of_example = classify_all-packets_of no_ecn burst maps egress
