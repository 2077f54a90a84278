-- ===== src/Dataplane/Bucket/Pacing.antt =====
-- EDT pacing: the release times of packets above the rate.
use natra.Base.{ℕ, ◌+◌, ◌-◌, ◌*◌, ◌/◌, ◌%◌, ◌^◌, ◌≤◌, ◌<◌, ◌≡◌, arith}
use natra.Bpf.Types.{TokenBucket}
use natra.Dataplane.Bucket.{later, pacing_step, release_at, pace}

div-bounds : (n k : ℕ) → 0 < k → (k * (n / k) ≤ n) × (n < k * (n / k) + k)
div-bounds n k h = grind arith

pacing_step_bounds :
    (bytes rate : ℕ)
    → 0 < rate
    → bytes * 8000000000 < 2 ^ 64
    → (rate * pacing_step bytes rate ≤ bytes * 8000000000)
      × (bytes * 8000000000 < rate * pacing_step bytes rate + rate)
unfolding pacing_step
pacing_step_bounds bytes rate positive exact =
    let e : bytes * 8000 % 2 ^ 64 * 1000000 % 2 ^ 64 ≡ bytes * 8000000000 = omega arith in
    rw e (div-bounds (bytes * 8000000000) rate positive)

-- Where no product or sum wraps and the bucket has a limit, a paced packet is released after the
-- bucket's last release and after its own time, later than both by eight times its bytes in units of
-- 10^9 over the rate: the time that its bits take at the rate, read as bits per second.
pub pace_spacing :
    (tb : TokenBucket) (bytes rate now : ℕ)
    → 0 < rate
    → bytes * 8000000000 < 2 ^ 64
    → later tb.next_release_ns now + pacing_step bytes rate < 2 ^ 64
    → let next = (pace tb bytes rate now).next_release_ns in
      (later tb.next_release_ns now ≤ next)
      × (rate * (next - later tb.next_release_ns now) ≤ bytes * 8000000000)
      × (bytes * 8000000000 < rate * (next - later tb.next_release_ns now) + rate)
unfolding pace release_at
pace_spacing tb bytes rate now positive exact room =
    let step = pacing_step bytes rate in
    let next : release_at tb bytes rate now ≡ later tb.next_release_ns now + step =
      unfold release_at in omega arith in
    let gap : (later tb.next_release_ns now + step) - later tb.next_release_ns now ≡ step =
      omega arith in
    let (low, high) = pacing_step_bounds bytes rate positive exact in
    rw (next, gap) (omega arith, low, high)
