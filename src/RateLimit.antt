-- ===== src/RateLimit.antt =====
-- packages/ratelimit/src/index.ts: the fixed-window limiter, in memory and over Upstash Redis.
-- Times are epoch milliseconds. The injected clock is an argument; the map of buckets is threaded.
pub mod Window
pub mod Gateway
mod Tests
use lms_saas.Prelude.{
  ℕ, zero, suc, ◌+◌, ◌-◌, ◌*◌, ◌/◌, ◌≤◌, ◌<◌, max, Bool, true, false, Option, none, some, List, [],
  ◌∷◌, Text, Map, lookup, insert, leb, ltb, if◌then◌else◌, text_eq,
}

-- RateLimitResult
pub record RateLimitResult : Type 0 where
  pub allowed : Bool
  pub limit : ℕ
  pub remaining : ℕ
  pub retry_after_seconds : ℕ

pub record Bucket : Type 0 where
  pub count : ℕ
  pub reset_at : ℕ

abbrev pub Buckets : Type 0
Buckets = Map Text Bucket

-- `Math.ceil(ms / 1000)`
abbrev pub ceil_seconds : ℕ → ℕ
ceil_seconds ms = (ms + 999) / 1000

-- The bucket a hit is counted in: the stored one while its window lasts, else a new one.
unfoldable pub open_bucket : Option Bucket → ℕ → ℕ → Bucket
open_bucket none now window = record { count = 0; reset_at = now + window * 1000 }
open_bucket (some b) now window =
    if leb b.reset_at now then record { count = 0; reset_at = now + window * 1000 } else b

-- The answer once the hit is counted.
unfoldable pub verdict : Bucket → ℕ → ℕ → RateLimitResult
verdict b now limit =
    let allowed = leb b.count limit in
    record {
      allowed = allowed;
      limit = limit;
      remaining = limit - b.count;
      retry_after_seconds = if allowed then 0 else max 1 (ceil_seconds (b.reset_at - now));
    }

-- `bucket.count += 1` on that bucket.
unfoldable pub counted : Buckets → ℕ → Text → ℕ → Bucket
unfolding open_bucket
counted buckets now key window =
    let bucket = open_bucket (lookup key buckets) now window in
    record bucket { count = bucket.count + 1 }

-- MemoryRateLimiter.check
unfoldable pub check : Buckets → ℕ → Text → ℕ → ℕ → RateLimitResult × Buckets
unfolding counted verdict
check buckets now key limit window =
    let bucket = counted buckets now key window in
    (verdict bucket now limit, insert key bucket buckets)

-- A number of a Redis reply: PTTL answers -1 and -2 for a key without a window.
pub data Reply : Type 0 where
  missing : Reply
  nonnegative : ℕ → Reply
  negative : Reply

abbrev reply_or : ℕ → Reply → Option ℕ
reply_or d missing = some d
reply_or d (nonnegative n) = some n
reply_or d negative = none

-- UpstashRateLimiter.check, from the replies to INCR and PTTL.
unfoldable pub upstash_check : Reply → Reply → ℕ → ℕ → RateLimitResult
upstash_check incr pttl limit window =
    let count = elim (reply_or 0 incr) as (λ _. ℕ) [ none ↦ 0 | some n ↦ n ] in
    let allowed = leb count limit in
    let wait = elim (reply_or (window * 1000) pttl) as (λ _. ℕ) [
      | none ↦ window
      | some ms ↦ if ltb 0 ms then ceil_seconds ms else window
    ] in
    record {
      allowed = allowed;
      limit = limit;
      remaining = limit - count;
      retry_after_seconds = if allowed then 0 else max 1 wait;
    }
