-- ===== src/Dataplane/Stats.antt =====
-- The stat slots account for every packet.
use natra.Base.{ℕ, ◌+◌, ◌%◌, ◌^◌, ◌≡◌, sym, subst, Bool, List, [], ◌∷◌, arith}
use natra.Bpf.Types.{
  Direction, ingress, egress, passed, throttled, ecn_marked, edt_delayed, dropped, stat_key,
}
use natra.Dataplane.{Skb, Maps, Packet, bump_stat, classify, classify_all}
use natra.Dataplane.Fate.{Fate, unmetered, fate_stats, bump_all, classify-HasFate}

-- `STAT_THROTTLED` is the sum of the three dispositions, on u64.
abbrev pub IsBalanced : (ℕ → ℕ) → Direction → Type 0
IsBalanced stats dir =
    stats (stat_key dir throttled)
    ≡ (stats (stat_key dir ecn_marked)
        + stats (stat_key dir edt_delayed)
        + stats (stat_key dir dropped))
      % 2 ^ 64

-- The packets that are counted as let through or as above the rate.
abbrev pub packets_of : (ℕ → ℕ) → Direction → ℕ
packets_of stats dir = (stats (stat_key dir passed) + stats (stat_key dir throttled)) % 2 ^ 64

bump_all-IsBalanced :
    (dir d : Direction) (fate : Fate) (m : Maps)
    → IsBalanced m.stats d
    → IsBalanced (bump_all dir (fate_stats fate) m).stats d
unfolding bump_stat stat_key
bump_all-IsBalanced ingress ingress unmetered m h = ground arith
bump_all-IsBalanced _ _ _ m h = ground arith

abbrev pub toward : Direction → Direction → ℕ
toward ingress ingress = 1
toward ingress egress = 0
toward egress ingress = 0
toward egress egress = 1

bump_all-packets_of :
    (dir d : Direction) (fate : Fate) (m : Maps)
    → packets_of (bump_all dir (fate_stats fate) m).stats d
      ≡ (packets_of m.stats d + toward dir d) % 2 ^ 64
unfolding bump_stat stat_key
bump_all-packets_of ingress ingress unmetered m = ground arith
bump_all-packets_of _ _ _ m = ground arith

-- The packets of a direction.
unfoldable pub packets_toward : Direction → List Packet → ℕ
packets_toward d [] = 0
packets_toward d (p ∷ rest) = toward p.dir d + packets_toward d rest

-- After any run of packets at both hooks, in any order and at any times: if the throttled slots
-- were the sum of the marked, the delayed and the dropped ones, on u64, they still are, in each
-- direction.
pub classify_all-IsBalanced :
    (ecn_set_ce : Skb → Bool × Skb) (packets : List Packet) (m : Maps) (d : Direction)
    → IsBalanced m.stats d
    → IsBalanced (classify_all ecn_set_ce packets m).stats d
unfolding classify_all
classify_all-IsBalanced ecn_set_ce [] m d h = h
classify_all-IsBalanced ecn_set_ce (p ∷ rest) m d h =
    let (fate, (_, _, stats, _)) = classify-HasFate ecn_set_ce p.skb p.dir p.now_ns m in
    classify_all-IsBalanced ecn_set_ce rest (classify ecn_set_ce p.skb p.dir p.now_ns m).maps d
      (subst (λ s. IsBalanced s d) (sym stats) (bump_all-IsBalanced p.dir d fate m h))

-- After any run of packets, a direction's passed and throttled slots together have grown by the
-- number of the packets in this direction, on u64: each packet is counted once.
pub classify_all-packets_of :
    (ecn_set_ce : Skb → Bool × Skb) (packets : List Packet) (m : Maps) (d : Direction)
    → packets_of (classify_all ecn_set_ce packets m).stats d
      ≡ (packets_of m.stats d + packets_toward d packets) % 2 ^ 64
unfolding classify_all packets_toward
classify_all-packets_of ecn_set_ce [] m d = omega arith
classify_all-packets_of ecn_set_ce (p ∷ rest) m d =
    let m' = (classify ecn_set_ce p.skb p.dir p.now_ns m).maps in
    let (fate, (_, _, stats, _)) = classify-HasFate ecn_set_ce p.skb p.dir p.now_ns m in
    let once : packets_of m'.stats d ≡ (packets_of m.stats d + toward p.dir d) % 2 ^ 64 =
      subst (λ s. packets_of s d ≡ (packets_of m.stats d + toward p.dir d) % 2 ^ 64) (sym stats)
        (bump_all-packets_of p.dir d fate m) in
    omega (arith, once, classify_all-packets_of ecn_set_ce rest m' d)
