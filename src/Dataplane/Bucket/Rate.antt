-- ===== src/Dataplane/Bucket/Rate.antt =====
-- The rate limit: what a bucket lets pass over a run of packets.
use natra.Base.{
  ℕ, ◌+◌, ◌-◌, ◌*◌, ◌/◌, ◌%◌, ◌^◌, ◌≤◌, ◌<◌, ◌≡◌, ap, All, true, List, [], ◌∷◌, arith, leb,
  if◌then◌else◌,
}
use natra.Bpf.Types.{TokenBucket}
use natra.Dataplane.Bucket.{elapsed_since, refill, available, later, charge, consume_tokens}

-- A packet at the bucket: its bytes and its time.
pub record Arrival : Type 0 where
  pub bytes : ℕ
  pub now : ℕ

mul_mono : (a b c : ℕ) → a ≤ b → a * c ≤ b * c
mul_mono a b c h = grind arith

mul_swap : (a b c : ℕ) → a * b * c ≡ a * c * b
mul_swap a b c = grind arith

mul_mono' : (a b c : ℕ) → a ≤ b → c * a ≤ c * b
mul_mono' a b c h = grind arith

split : (a b r : ℕ) → b ≤ a → r * a ≡ r * (a - b) + r * b
split a b r h = grind arith

distribute : (r e l : ℕ) → r * (e + l) ≡ e * r + r * l
distribute r e l = grind arith

refill-le : (elapsed rate : ℕ) → refill elapsed rate * 1000000000 ≤ elapsed * rate
unfolding refill
refill-le elapsed rate =
    let whole : elapsed / 1000 * 1000 ≤ elapsed = omega arith in
    let wrapped : elapsed / 1000 * rate % 2 ^ 64 ≤ elapsed / 1000 * rate = omega arith in
    let scaled : elapsed / 1000 * 1000 * rate ≤ elapsed * rate =
      mul_mono (elapsed / 1000 * 1000) elapsed rate whole in
    let swapped : elapsed / 1000 * 1000 * rate ≡ elapsed / 1000 * rate * 1000 =
      mul_swap (elapsed / 1000) 1000 rate in
    omega arith

available-le :
    (tb : TokenBucket) (rate burst now : ℕ)
    → available tb rate burst now ≤ tb.tokens + refill (elapsed_since tb.last_update_ns now) rate
unfolding available
available-le tb rate burst now = ground arith

available-le-burst : (tb : TokenBucket) (rate burst now : ℕ) → available tb rate burst now ≤ burst
unfolding available
available-le-burst tb rate burst now = ground arith

elapsed-later : (last now : ℕ) → elapsed_since last now + last ≡ later last now
unfolding elapsed_since
elapsed-later last now = ground arith

module _ (rate burst : ℕ) where
  -- The bucket after the arrivals in their order.
  unfoldable pub drain : TokenBucket → List Arrival → TokenBucket
  drain tb [] = tb
  drain tb (a ∷ rest) = drain (consume_tokens tb a.bytes rate burst a.now).1 rest

  -- The bytes of the arrivals that pass.
  unfoldable pub passed_bytes : TokenBucket → List Arrival → ℕ
  passed_bytes tb [] = 0
  passed_bytes tb (a ∷ rest) =
      let (allowed, tb') = consume_tokens tb a.bytes rate burst a.now in
      (if allowed then a.bytes else 0) + passed_bytes tb' rest

  -- One packet: what passes and what is left come from what was there and what the time adds.
  consume-le :
      (tb : TokenBucket) (bytes now : ℕ)
      → let (allowed, tb') = consume_tokens tb bytes rate burst now in
        ((if allowed then bytes else 0) + tb'.tokens) * 1000000000 + rate * tb.last_update_ns
        ≤ tb.tokens * 1000000000 + rate * tb'.last_update_ns
  unfolding consume_tokens charge
  consume-le tb bytes now =
      let e = elapsed_since tb.last_update_ns now in
      let time : e + tb.last_update_ns ≡ later tb.last_update_ns now =
        elapsed-later tb.last_update_ns now in
      let spent : (if leb bytes (available tb rate burst now) then bytes else 0)
            + charge bytes (available tb rate burst now)
          ≡ available tb rate burst now =
        ground arith in
      let gain : refill e rate * 1000000000 ≤ e * rate = refill-le e rate in
      let have : available tb rate burst now ≤ tb.tokens + refill e rate =
        available-le tb rate burst now in
      let spread : rate * (e + tb.last_update_ns) ≡ e * rate + rate * tb.last_update_ns =
        distribute rate e tb.last_update_ns in
      let moved : rate * (e + tb.last_update_ns) ≡ rate * later tb.last_update_ns now =
        ap (λ (t : ℕ). rate * t) time in
      rw spent (omega arith)

  -- A run of packets: the same, summed.
  drain-le :
      (tb : TokenBucket) (arrivals : List Arrival)
      → (passed_bytes tb arrivals + (drain tb arrivals).tokens) * 1000000000
          + rate * tb.last_update_ns
        ≤ tb.tokens * 1000000000 + rate * (drain tb arrivals).last_update_ns
  unfolding drain passed_bytes
  drain-le tb [] = omega arith
  drain-le tb (a ∷ rest) =
      let (allowed, tb') = consume_tokens tb a.bytes rate burst a.now in
      let now : ((if (consume_tokens tb a.bytes rate burst a.now).0 then a.bytes else 0)
                + (consume_tokens tb a.bytes rate burst a.now).1.tokens)
              * 1000000000
            + rate * tb.last_update_ns
          ≤ tb.tokens * 1000000000
            + rate * (consume_tokens tb a.bytes rate burst a.now).1.last_update_ns =
        consume-le tb a.bytes a.now in
      omega (arith, drain-le (consume_tokens tb a.bytes rate burst a.now).1 rest)

  drain-last-le :
      (limit : ℕ) (tb : TokenBucket) (arrivals : List Arrival)
      → All (λ a. a.now ≤ limit) arrivals
      → tb.last_update_ns ≤ limit
      → (drain tb arrivals).last_update_ns ≤ limit
  unfolding drain consume_tokens
  drain-last-le limit tb [] _ h = h
  drain-last-le limit tb (a ∷ rest) (ha, hr) h =
      drain-last-le limit (consume_tokens tb a.bytes rate burst a.now).1 rest hr (ground arith)

  -- However many packets it has seen, a bucket never holds more than the burst, if it did not
  -- before: also where the clock goes back and where the sums wrap.
  pub drain-le-burst :
      (tb : TokenBucket) (arrivals : List Arrival)
      → tb.tokens ≤ burst
      → (drain tb arrivals).tokens ≤ burst
  unfolding drain consume_tokens charge
  drain-le-burst tb [] h = h
  drain-le-burst tb (a ∷ rest) h =
      drain-le-burst (consume_tokens tb a.bytes rate burst a.now).1 rest
        (ground (arith, available-le-burst tb rate burst a.now))

-- Take any packets at a bucket that starts with at most its burst, then more packets, which come at
-- the latest at `limit`, which is not before the bucket's last update. The bytes of these that pass are at most the burst and what
-- the rate, in bytes per second, gives from the last update before them up to `limit`. It holds
-- in every order of the times, and where the sums wrap.
pub passed_bytes-le :
    (rate burst limit : ℕ) (tb : TokenBucket) (before during : List Arrival)
    → tb.tokens ≤ burst
    → (drain rate burst tb before).last_update_ns ≤ limit
    → All (λ a. a.now ≤ limit) during
    → passed_bytes rate burst (drain rate burst tb before) during * 1000000000
      ≤ burst * 1000000000 + rate * (limit - (drain rate burst tb before).last_update_ns)
passed_bytes-le rate burst limit tb before during full start times =
    let tb' = drain rate burst tb before in
    let kept : tb'.tokens ≤ burst = drain-le-burst rate burst tb before full in
    let total : (passed_bytes rate burst tb' during + (drain rate burst tb' during).tokens)
            * 1000000000
          + rate * tb'.last_update_ns
        ≤ tb'.tokens * 1000000000 + rate * (drain rate burst tb' during).last_update_ns =
      drain-le rate burst tb' during in
    let ends : (drain rate burst tb' during).last_update_ns ≤ limit =
      drain-last-le rate burst limit tb' during times start in
    let spent : rate * (drain rate burst tb' during).last_update_ns ≤ rate * limit =
      mul_mono' (drain rate burst tb' during).last_update_ns limit rate ends in
    let apart : rate * limit ≡ rate * (limit - tb'.last_update_ns) + rate * tb'.last_update_ns =
      split limit tb'.last_update_ns rate start in
    omega arith

-- A packet within the burst passes once the idle time has earned its bytes: with the tokens and the
-- burst below 2^63 and a product of microseconds and rate that does not wrap.
pub consume_tokens_idle :
    (tb : TokenBucket) (bytes rate burst now : ℕ)
    → bytes ≤ burst
    → burst < 2 ^ 63
    → tb.tokens ≤ burst
    → tb.last_update_ns ≤ now
    → bytes * 1000000 ≤ (now - tb.last_update_ns) / 1000 * rate
    → (now - tb.last_update_ns) / 1000 * rate < 2 ^ 63
    → (consume_tokens tb bytes rate burst now).0 ≡ true
unfolding consume_tokens available refill elapsed_since
consume_tokens_idle tb bytes rate burst now small high full later earned exact = ground arith
