-- ===== src/Dataplane/Bucket.antt =====
-- bpf/natra.bpf.c: the token bucket, `consume_tokens` and the pacing of `throttle_disposition`. The
-- numbers are u64 and the C wraps are written out. The lock is held from the read to the write, so
-- each call is one step. A lookup in an array map below its size does not fail.
pub mod Rate
pub mod Pacing
use natra.Base.{ℕ, ◌+◌, ◌-◌, ◌*◌, ◌/◌, ◌%◌, ◌^◌, Bool, true, false, ltb, leb, if◌then◌else◌}
use natra.Bpf.Types.{TokenBucket}

-- `now - last` where the clock moved on, and 0 where it did not.
unfoldable pub elapsed_since : ℕ → ℕ → ℕ
elapsed_since last now = if ltb last now then now - last else 0

-- The tokens that an idle time adds, in two steps as the code does it.
unfoldable pub refill : ℕ → ℕ → ℕ
refill elapsed_ns rate = elapsed_ns / 1000 * rate % 2 ^ 64 / 1000000

-- The tokens before the charge.
unfoldable pub available : TokenBucket → ℕ → ℕ → ℕ → ℕ
available tb rate burst now =
    let tokens = (tb.tokens + refill (elapsed_since tb.last_update_ns now) rate) % 2 ^ 64 in
    if ltb burst tokens then burst else tokens

abbrev pub later : ℕ → ℕ → ℕ
later last now = if ltb last now then now else last

unfoldable pub charge : ℕ → ℕ → ℕ
charge bytes tokens = if leb bytes tokens then tokens - bytes else tokens

-- `consume_tokens`: whether the packet may pass, and the bucket after it.
unfoldable pub consume_tokens : TokenBucket → ℕ → ℕ → ℕ → ℕ → Bool × TokenBucket
consume_tokens tb bytes rate burst now =
    let tokens = available tb rate burst now in
    (
      leb bytes tokens,
      record tb { tokens = charge bytes tokens; last_update_ns = later tb.last_update_ns now },
    )

abbrev pub max_edt_delay_ns : ℕ
max_edt_delay_ns = 50000000

-- `add_ns`
unfoldable pub pacing_step : ℕ → ℕ → ℕ
pacing_step bytes rate = bytes * 8000 % 2 ^ 64 * 1000000 % 2 ^ 64 / rate

-- `release_at`
unfoldable pub release_at : TokenBucket → ℕ → ℕ → ℕ → ℕ
release_at tb bytes rate now =
    ((if ltb tb.next_release_ns now then now else tb.next_release_ns) + pacing_step bytes rate)
    % 2 ^ 64

-- The bucket is advanced whether the packet is delayed or not.
unfoldable pub pace : TokenBucket → ℕ → ℕ → ℕ → TokenBucket
pace tb bytes rate now = record tb { next_release_ns = release_at tb bytes rate now }

-- `delay_ns <= MAX_EDT_DELAY_NS`
unfoldable pub within_bound : ℕ → ℕ → Bool
within_bound release now = leb ((release + 2 ^ 64 - now) % 2 ^ 64) max_edt_delay_ns
