-- ===== src/Dataplane/Fate.antt =====
-- What becomes of a packet, why, and which slots count it.
use natra.Base.{
  ℕ, ◌+◌, ◌%◌, ◌^◌, ◌≡◌, ◌<◌, ◌≤◌, ◌⊎◌, refl, ap, Bool, true, false, Option, none, some, List, [],
  ◌∷◌, arith, Bool-cases, inl, inr, ltb, leb, not, ◌&&◌, ◌==◌, if◌then◌else◌,
}
use natra.Bpf.Types.{
  Direction, Stat, TokenBucket, passed, throttled, hh_hits, ecn_marked, edt_delayed, dropped,
  stat_key,
}
use natra.Dataplane.{
  Skb, Maps, Verdict, act_ok, act_shot, Outcome, is_egress, bump_stat, set_bucket, same_direction,
  finish, mark_or_drop, throttle_disposition, gate_heavy, classify_flow, classify_parsed, classify,
}
use natra.Dataplane.Bucket.{consume_tokens, pace, release_at, within_bound}
use natra.Dataplane.Flow.{Bytes, parse_flow}
use natra.Dataplane.Sketch.{Cells, cms_update_and_min, decay_index}

-- What becomes of a packet.
pub data Fate : Type 0 where
  unmetered : Fate
  within_rate : Fate
  marked : Fate
  delayed : Fate
  shot : Fate

abbrev pub fate_verdict : Fate → Verdict
fate_verdict unmetered = act_ok
fate_verdict within_rate = act_ok
fate_verdict marked = act_ok
fate_verdict delayed = act_ok
fate_verdict shot = act_shot

-- The slots that a packet bumps, in the order of the code.
abbrev pub fate_stats : Fate → List Stat
fate_stats unmetered = passed ∷ []
fate_stats within_rate = hh_hits ∷ passed ∷ []
fate_stats marked = hh_hits ∷ throttled ∷ ecn_marked ∷ []
fate_stats delayed = hh_hits ∷ throttled ∷ edt_delayed ∷ []
fate_stats shot = hh_hits ∷ throttled ∷ dropped ∷ []

abbrev pub bump_all : Direction → List Stat → Maps → Maps
bump_all dir [] m = m
bump_all dir (slot ∷ slots) m = bump_all dir slots (bump_stat dir slot m)

module _ (ecn_set_ce : Skb → Bool × Skb) (skb : Skb) (dir : Direction) (now_ns : ℕ) (m : Maps) where
  -- The sketch's estimate of a flow with this packet.
  abbrev pub estimate : Bytes → ℕ
  estimate key = (cms_update_and_min m.cms dir key (decay_index now_ns) skb.len).0

  -- The direction has no limit, the packet belongs to no flow, or its flow is not above the threshold.
  abbrev pub IsUnmetered : Type 0
  IsUnmetered =
      ((m.config dir).rate_bps ≡ 0)
      ⊎ ((parse_flow skb.bytes ≡ none)
          ⊎ ((key : Bytes) × (parse_flow skb.bytes ≡ some key)
              × (estimate key ≤ (m.config dir).hh_threshold)))

  abbrev pub IsMetered : Type 0
  IsMetered =
      (0 < (m.config dir).rate_bps)
      × ((key : Bytes) × (parse_flow skb.bytes ≡ some key)
          × ((m.config dir).hh_threshold < estimate key))

  -- What the bucket answers, and the bucket after it.
  abbrev pub charged : Bool × TokenBucket
  charged =
      consume_tokens (m.bucket dir) skb.len (m.config dir).rate_bps (m.config dir).burst_bytes
        now_ns

  -- When a packet that the bucket denies may be sent.
  abbrev pub release : ℕ
  release = release_at charged.1 skb.len (m.config dir).rate_bps now_ns

  abbrev pub paces : Bool
  paces = is_egress dir && not ((m.config dir).edt_pacing == 0) && ltb 0 (m.config dir).rate_bps

  -- The direction paces, and the wait is not too long.
  abbrev pub can_wait : Bool
  can_wait = paces && within_bound release now_ns

  -- Why a packet has its fate.
  abbrev pub Cause : Fate → Type 0
  Cause unmetered = IsUnmetered
  Cause within_rate = IsMetered × (charged.0 ≡ true)
  Cause delayed = IsMetered × (charged.0 ≡ false) × (can_wait ≡ true)
  Cause marked = IsMetered × (charged.0 ≡ false) × (can_wait ≡ false) × ((ecn_set_ce skb).0 ≡ true)
  Cause shot = IsMetered × (charged.0 ≡ false) × (can_wait ≡ false) × ((ecn_set_ce skb).0 ≡ false)

  -- The packet as the program leaves it.
  abbrev pub fate_skb : Fate → Skb
  fate_skb unmetered = skb
  fate_skb within_rate = skb
  fate_skb delayed = record skb { tstamp = release }
  fate_skb marked = (ecn_set_ce skb).1
  fate_skb shot = (ecn_set_ce skb).1

  -- An outcome that is of a fate.
  abbrev pub HasFate : Outcome → Fate → Type 0
  HasFate out fate =
      (out.verdict ≡ fate_verdict fate)
      × (out.skb ≡ fate_skb fate)
      × (out.maps.stats ≡ (bump_all dir (fate_stats fate) m).stats)
      × Cause fate

  -- The maps after the slots of a packet above the rate are bumped.
  abbrev above : Maps
  above = bump_stat dir throttled (bump_stat dir hh_hits m)

  bump_stat-stats :
      (slot : Stat) (a b : Maps)
      → a.stats ≡ b.stats
      → (bump_stat dir slot a).stats ≡ (bump_stat dir slot b).stats
  unfolding bump_stat
  bump_stat-stats slot a b same =
      ap {B = ℕ → ℕ} (λ (f : ℕ → ℕ) k. if k == stat_key dir slot then (f k + 1) % 2 ^ 64 else f k)
        same

  set_bucket-held :
      (low : Maps) (tb : TokenBucket)
      → (bump_stat dir throttled (set_bucket low dir tb)).bucket dir ≡ tb
  unfolding bump_stat set_bucket same_direction
  set_bucket-held low tb = ground arith

  module _ (metered : IsMetered) where
    mark_or_drop-HasFate :
        (low : Maps)
        → low.stats ≡ above.stats
        → charged.0 ≡ false
        → can_wait ≡ false
        → (fate : Fate) × HasFate (mark_or_drop ecn_set_ce skb dir low) fate
    unfolding mark_or_drop finish
    mark_or_drop-HasFate low same denied late = elim (Bool-cases (ecn_set_ce skb).0) [
      | inl ce ↦ (
        marked,
        rw ce
            (refl, refl, bump_stat-stats ecn_marked low above same, (metered, denied, late, refl)),
      )
      | inr no_ect ↦ (
        shot,
        rw no_ect
            (refl, refl, bump_stat-stats dropped low above same, (metered, denied, late, refl)),
      )
    ]

    throttle_disposition-HasFate :
        (low : Maps)
        → low.stats ≡ above.stats
        → low.bucket dir ≡ charged.1
        → charged.0 ≡ false
        → (fate : Fate) × HasFate
            (throttle_disposition ecn_set_ce skb dir now_ns
              (m.config dir).rate_bps
              skb.len
              (m.config dir).edt_pacing
              low)
            fate
    unfolding throttle_disposition finish
    throttle_disposition-HasFate low same held denied =
        let paced = set_bucket low dir (pace charged.1 skb.len (m.config dir).rate_bps now_ns) in
        let kept : paced.stats ≡ above.stats = unfold set_bucket in same in
        elim (Bool-cases paces) [
          | inl edt ↦ elim (Bool-cases (within_bound release now_ns)) [
            | inl soon ↦ (
              delayed,
              rw (held, edt, soon)
                  (
                    refl,
                    refl,
                    bump_stat-stats edt_delayed paced above kept,
                    (metered, denied, refl),
                  ),
            )
            | inr late ↦
                let short : can_wait ≡ false = rw (edt, late) refl in
                rw (held, edt, late) (mark_or_drop-HasFate paced kept denied short)
          ]
          | inr plain ↦
              let short : can_wait ≡ false = rw plain refl in
              rw plain (mark_or_drop-HasFate low same denied short)
        ]

  gate_heavy-HasFate :
      (cells : Cells)
      → IsMetered
      → (fate : Fate) × HasFate
          (gate_heavy ecn_set_ce skb dir now_ns (record m { cms = cells }))
          fate
  unfolding gate_heavy finish
  gate_heavy-HasFate cells metered =
      let hit = bump_stat dir hh_hits m in
      let low = set_bucket (bump_stat dir hh_hits (record m { cms = cells })) dir charged.1 in
      let same : low.stats ≡ hit.stats =
        unfold set_bucket in bump_stat-stats hh_hits (record m { cms = cells }) m refl in
      elim (Bool-cases charged.0) [
        | inl yes_ ↦ (
          within_rate,
          rw yes_ (refl, refl, bump_stat-stats passed low hit same, (metered, refl)),
        )
        | inr no_ ↦ rw no_ (
            throttle_disposition-HasFate metered (bump_stat dir throttled low)
              (bump_stat-stats throttled low hit same) (set_bucket-held _ charged.1) no_)
      ]

  classify_flow-HasFate :
      (key : Bytes)
      → 0 < (m.config dir).rate_bps
      → parse_flow skb.bytes ≡ some key
      → (fate : Fate) × HasFate (classify_flow ecn_set_ce skb dir now_ns key m) fate
  unfolding classify_flow finish
  classify_flow-HasFate key limited parsed =
      let counted = record m {
        cms = (cms_update_and_min m.cms dir key (decay_index now_ns) skb.len).1;
      } in
      elim (Bool-cases (leb (estimate key) (m.config dir).hh_threshold)) [
        | inl mouse ↦ (
          unmetered,
          rw mouse (
            refl,
            refl,
            bump_stat-stats passed counted m refl,
            inr (inr (key, parsed, ground arith)),
          ),
        )
        | inr heavy ↦ rw heavy (gate_heavy-HasFate _ (limited, (key, parsed, ground arith)))
      ]

  classify_parsed-HasFate :
      (key : Option Bytes)
      → 0 < (m.config dir).rate_bps
      → parse_flow skb.bytes ≡ key
      → (fate : Fate) × HasFate (classify_parsed ecn_set_ce skb dir now_ns key m) fate
  unfolding classify_parsed finish
  classify_parsed-HasFate none limited parsed = (unmetered, (refl, refl, refl, inr (inl parsed)))
  classify_parsed-HasFate (some key) limited parsed = classify_flow-HasFate key limited parsed

-- Whatever the maps hold, the packet is and the helper answers, a packet has one of five fates, each
-- with its cause. It passes as it is and unmetered where its direction has no limit, it belongs to
-- no flow, or its flow's estimate is not above the threshold. Any other passes as it is where the
-- bucket allows it; else it passes with its send time set to the release time, where the direction
-- paces and the wait is within the bound; else with its ECN mark, where the helper sets it; else it
-- is dropped. No other packet is dropped. The slots of its direction that belong to its fate are
-- bumped once each, and no other slot changes.
pub classify-HasFate :
    (ecn_set_ce : Skb → Bool × Skb) (skb : Skb) (dir : Direction) (now_ns : ℕ) (m : Maps)
    → (fate : Fate) × HasFate ecn_set_ce skb dir now_ns m
        (classify ecn_set_ce skb dir now_ns m)
        fate
unfolding classify finish
classify-HasFate ecn_set_ce skb dir now_ns m = elim (Bool-cases ((m.config dir).rate_bps == 0)) [
  | inl off ↦ (unmetered, rw off (refl, refl, refl, inl (ground arith)))
  | inr limited ↦ rw limited (
      classify_parsed-HasFate ecn_set_ce skb dir now_ns m (parse_flow skb.bytes) (ground arith)
        refl)
]
