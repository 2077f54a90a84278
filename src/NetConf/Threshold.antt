-- ===== src/NetConf/Threshold.antt =====
-- The heavy-hitter threshold: its exact value without overflow, what overflow does to it, and that
-- it is positive in any case.
use Prim.Native.Nat.{max}
use natra.Base.{
  ℕ, zero, suc, neg, ◌-◌, ◌*◌, ◌/◌, ◌%◌, ◌^◌, ◌≤◌, ◌<◌, ◌≡◌, refl, Option, none, some, arith,
  if◌then◌else◌, Bool-cases, Option-cases, inl, inr, ℤ, pos, negsuc, ltb_ℤ, quot, to_bits, of_bits,
  mul64, mul64_exact,
}
use natra.Base.Float64.{Float64}
use natra.NetConf.{
  NetConfDefaults, scaled_threshold, time_constant, explicit_threshold, resolve_hh_threshold,
  min_hh_threshold_bytes,
}

scaled_threshold_exact :
    (r t : ℕ)
    → r < 2 ^ 63
    → t < 2 ^ 63
    → r * t < 2 ^ 63
    → scaled_threshold (pos r) (pos t) ≡ pos (max (r * t / 1000) (16 * 1024))
unfolding scaled_threshold quot
scaled_threshold_exact r t hr ht h = rw (mul64_exact r t hr ht h) (ground arith)

mul64_overflow :
    (a b : ℕ)
    → a < 2 ^ 63
    → b < 2 ^ 63
    → 2 ^ 63 ≤ a * b
    → a * b < 2 ^ 64
    → mul64 (pos a) (pos b) ≡ negsuc (2 ^ 64 - 1 - a * b)
unfolding mul64 to_bits of_bits
mul64_overflow a b ha hb low high =
    let ea : a % 2 ^ 64 ≡ a = omega arith in
    let eb : b % 2 ^ 64 ≡ b = omega arith in
    let e : (a * b) % 2 ^ 64 ≡ a * b = omega arith in rw (ea, eb, e) (ground arith)

threshold_floor :
    (v : ℤ)
    → (n : ℕ) × ((if ltb_ℤ v (pos min_hh_threshold_bytes) then pos min_hh_threshold_bytes else v)
        ≡ pos n)
      × (min_hh_threshold_bytes ≤ n)
threshold_floor (pos n) = elim (Bool-cases (ltb_ℤ (pos n) (pos min_hh_threshold_bytes))) [
  | inl low ↦ (min_hh_threshold_bytes, rw low, omega arith)
  | inr high ↦ (n, rw high, ground arith)
]
threshold_floor (negsuc n) = (min_hh_threshold_bytes, ground arith, omega arith)

floor_of_neg :
    (k : ℕ)
    → (if ltb_ℤ (neg k) (pos min_hh_threshold_bytes) then pos min_hh_threshold_bytes else neg k)
      ≡ pos (16 * 1024)
floor_of_neg zero = refl
floor_of_neg (suc k) = ground arith

module _ (fl : Float64) where
  explicit_threshold-pos :
      (d : Option (NetConfDefaults fl)) (v : ℤ)
      → explicit_threshold fl d ≡ some v
      → (n : ℕ) × (v ≡ pos n) × (0 < n)
  unfolding explicit_threshold
  explicit_threshold-pos none v = λ h. cc
  explicit_threshold-pos (some d) v = go d.hh_threshold
    where
      go :
          (t : ℤ)
          → (if ltb_ℤ (pos 0) t then some t else none) ≡ some v
          → (n : ℕ) × (v ≡ pos n) × (0 < n)
      go (pos n) h = (n, ground arith, ground arith)
      go (negsuc n) h = absurd (ground arith)

  -- Without a cluster-wide threshold, and where rate times milliseconds fits int64, the threshold
  -- is the bytes that the rate passes in the time constant, and at least 16 KiB.
  resolve_hh_threshold_exact :
      (d : Option (NetConfDefaults fl)) (r t : ℕ)
      → explicit_threshold fl d ≡ none
      → time_constant fl d ≡ pos t
      → r < 2 ^ 63
      → t < 2 ^ 63
      → r * t < 2 ^ 63
      → resolve_hh_threshold fl d (pos r) ≡ pos (max (r * t / 1000) (16 * 1024))
  unfolding resolve_hh_threshold
  resolve_hh_threshold_exact d r t none_set const hr ht h =
      rw (none_set, resolve_hh_threshold) (rw const (scaled_threshold_exact r t hr ht h))

  -- Where rate times milliseconds passes 2^63, and stays below 2^64, the product turns negative:
  -- the threshold falls to its floor of 16 KiB, however high the rate is.
  pub resolve_hh_threshold_overflow :
      (d : Option (NetConfDefaults fl)) (r t : ℕ)
      → explicit_threshold fl d ≡ none
      → time_constant fl d ≡ pos t
      → r < 2 ^ 63
      → t < 2 ^ 63
      → 2 ^ 63 ≤ r * t
      → r * t < 2 ^ 64
      → resolve_hh_threshold fl d (pos r) ≡ pos (16 * 1024)
  unfolding resolve_hh_threshold scaled_threshold quot
  resolve_hh_threshold_overflow d r t none_set const hr ht low high =
      rw (none_set, resolve_hh_threshold)
        (rw (const, mul64_overflow r t hr ht low high)
          (floor_of_neg (suc (2 ^ 64 - 1 - r * t) / 1000)))

  -- The threshold is positive for every rate, every time constant and every cluster default, also
  -- where the product overflows.
  pub resolve_hh_threshold-pos :
      (d : Option (NetConfDefaults fl)) (rate : ℤ)
      → (n : ℕ) × (resolve_hh_threshold fl d rate ≡ pos n) × (0 < n)
  unfolding resolve_hh_threshold scaled_threshold
  resolve_hh_threshold-pos d rate = elim (Option-cases (explicit_threshold fl d)) [
    | inl none_set ↦
        let (n, e, le) = threshold_floor (quot (mul64 rate (time_constant fl d)) 1000) in
        (n, rw (none_set, resolve_hh_threshold) e, omega arith)
    | inr (v, set) ↦
        let (n, e, lt) = explicit_threshold-pos d v set in (n, rw (set, resolve_hh_threshold) e, lt)
  ]
