-- ===== src/Dataplane.antt =====
-- bpf/natra.bpf.c: `bump_stat`, `throttle_disposition` and `natra_classify`, on one CPU. All maps are
-- arrays and every key stays below the map's size, so no lookup fails. The helper
-- `bpf_skb_ecn_set_ce` is a parameter, and the clock's answer an argument.
pub mod Flow
pub mod Bucket
pub mod Sketch
pub mod Heavy
pub mod Fate
pub mod Stats
use natra.Base.{
  ℕ, ◌+◌, ◌-◌, ◌*◌, ◌%◌, ◌^◌, Bool, true, false, not, ◌&&◌, Option, none, some, List, [], ◌∷◌, ltb,
  leb, ◌==◌, if◌then◌else◌,
}
use natra.Bpf.Types.{
  Direction, ingress, egress, direction_key, BpfConfig, TokenBucket, Stat, passed, throttled,
  hh_hits, ecn_marked, edt_delayed, dropped, stat_key,
}
use natra.Dataplane.Flow.{Bytes, parse_flow}
use natra.Dataplane.Bucket.{consume_tokens, pace, release_at, within_bound}
use natra.Dataplane.Sketch.{Cells, decay_index, cms_update_and_min}

-- What the program reads and writes of `struct __sk_buff`: the linear data, `len` and `tstamp`.
pub record Skb : Type 0 where
  pub bytes : Bytes
  pub len : ℕ
  pub tstamp : ℕ

-- The maps, with this CPU's slots of `natra_stats_map`.
pub record Maps : Type 0 where
  pub config : Direction → BpfConfig
  pub bucket : Direction → TokenBucket
  pub cms : Cells
  pub stats : ℕ → ℕ

-- `TC_ACT_OK` and `TC_ACT_SHOT`
pub data Verdict : Type 0 where
  act_ok act_shot : Verdict

pub record Outcome : Type 0 where
  pub verdict : Verdict
  pub skb : Skb
  pub maps : Maps

unfoldable pub same_direction : Direction → Direction → Bool
same_direction a b = direction_key a == direction_key b

unfoldable pub set_bucket : Maps → Direction → TokenBucket → Maps
set_bucket m dir tb = record m { bucket = λ d. if same_direction d dir then tb else m.bucket d }

unfoldable pub bump_stat : Direction → Stat → Maps → Maps
unfolding stat_key
bump_stat dir slot m = record m {
  stats = λ k. if k == stat_key dir slot then (m.stats k + 1) % 2 ^ 64 else m.stats k;
}

abbrev pub is_egress : Direction → Bool
is_egress ingress = false
is_egress egress = true

-- The return after a stat is bumped.
unfoldable pub finish : Verdict → Skb → Direction → Stat → Maps → Outcome
finish verdict skb dir slot m = record { verdict = verdict; skb = skb; maps = bump_stat dir slot m }

-- A packet at a hook, with the time at which it comes.
pub record Packet : Type 0 where
  pub skb : Skb
  pub dir : Direction
  pub now_ns : ℕ

module _ (ecn_set_ce : Skb → Bool × Skb) where
  -- `throttle_disposition` from the ECN mark on.
  unfoldable pub mark_or_drop : Skb → Direction → Maps → Outcome
  mark_or_drop skb dir m =
      let (marked, skb') = ecn_set_ce skb in
      if marked then finish act_ok skb' dir ecn_marked m else finish act_shot skb' dir dropped m

  unfoldable pub throttle_disposition : Skb → Direction → ℕ → ℕ → ℕ → ℕ → Maps → Outcome
  throttle_disposition skb dir now_ns rate_bps bytes edt_pacing m =
      let tb = m.bucket dir in
      let release = release_at tb bytes rate_bps now_ns in
      let paced = set_bucket m dir (pace tb bytes rate_bps now_ns) in
      if is_egress dir && not (edt_pacing == 0) && ltb 0 rate_bps
      then if within_bound release now_ns
        then finish act_ok (record skb { tstamp = release }) dir edt_delayed paced
        else mark_or_drop skb dir paced
      else mark_or_drop skb dir m

  -- `natra_classify` from the token bucket on.
  unfoldable pub gate_heavy : Skb → Direction → ℕ → Maps → Outcome
  gate_heavy skb dir now_ns m =
      let cfg = m.config dir in
      let hit = bump_stat dir hh_hits m in
      let (allowed, tb) =
        consume_tokens (m.bucket dir) skb.len cfg.rate_bps cfg.burst_bytes now_ns in
      let charged = set_bucket hit dir tb in
      if allowed
      then finish act_ok skb dir passed charged
      else throttle_disposition skb dir now_ns cfg.rate_bps skb.len cfg.edt_pacing
          (bump_stat dir throttled charged)

  -- `natra_classify` from the sketch on.
  unfoldable pub classify_flow : Skb → Direction → ℕ → Bytes → Maps → Outcome
  classify_flow skb dir now_ns key m =
      let (bytes_est, cells) = cms_update_and_min m.cms dir key (decay_index now_ns) skb.len in
      let counted = record m { cms = cells } in
      if leb bytes_est (m.config dir).hh_threshold
      then finish act_ok skb dir passed counted
      else gate_heavy skb dir now_ns counted

  unfoldable pub classify_parsed : Skb → Direction → ℕ → Option Bytes → Maps → Outcome
  classify_parsed skb dir now_ns none m = finish act_ok skb dir passed m
  classify_parsed skb dir now_ns (some key) m = classify_flow skb dir now_ns key m

  -- `natra_classify`
  unfoldable pub classify : Skb → Direction → ℕ → Maps → Outcome
  classify skb dir now_ns m =
      if (m.config dir).rate_bps == 0
      then finish act_ok skb dir passed m
      else classify_parsed skb dir now_ns (parse_flow skb.bytes) m

  unfoldable pub classify_all : List Packet → Maps → Maps
  classify_all [] m = m
  classify_all (p ∷ rest) m = classify_all rest (classify p.skb p.dir p.now_ns m).maps
