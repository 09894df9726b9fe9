-- ===== src/RateLimit/Window.antt =====
-- What a window grants: never more than the limit, to each key apart, and again once it is over.
use lms_saas.Prelude.{
  ℕ, ◌+◌, ◌-◌, ◌*◌, ◌≤◌, ◌<◌, min, ◌≡◌, ◌≢◌, true, false, Option, none, some, List, [], ◌∷◌, Text,
  lookup, leb, if◌then◌else◌, text_eq, arith, All, length, lookup-insert_self, lookup-insert_ne,
}
use lms_saas.RateLimit.{Bucket, Buckets, counted, check}

-- How many of a row of checks on one key, at the given times, are allowed.
pub granted : Buckets → Text → ℕ → ℕ → List ℕ → ℕ
granted buckets key limit window [] = 0
granted buckets key limit window (now ∷ nows) =
    let r = check buckets now key limit window in
    (if r.0.allowed then 1 else 0) + granted r.1 key limit window nows

abbrev pub HasEnded : Option Bucket → ℕ → Type 0
HasEnded none now = Unit
HasEnded (some b) now = b.reset_at ≤ now

-- No window of the key is running at this time.
abbrev pub IsIdle : Buckets → Text → ℕ → Type 0
IsIdle buckets key now = HasEnded (lookup key buckets) now

module _ (buckets : Buckets) (key : Text) (limit window now : ℕ) where
  check-open :
      (b : Bucket)
      → lookup key buckets ≡ some b
      → now < b.reset_at
      → ((check buckets now key limit window).0.allowed ≡ leb (b.count + 1) limit)
        × (lookup key (check buckets now key limit window).1
            ≡ some (record b { count = b.count + 1 }))
  unfolding check
  check-open b h lt =
      ground (arith, lookup-insert_self key (record b { count = b.count + 1 }) buckets)

  check-idle :
      IsIdle buckets key now
      → ((check buckets now key limit window).0.allowed ≡ leb 1 limit)
        × (lookup key (check buckets now key limit window).1
            ≡ some (record { count = 1; reset_at = now + window * 1000 }))
  unfolding check
  check-idle h =
      ground (
        arith,
        lookup-insert_self key (record { count = 1; reset_at = now + window * 1000 }) buckets,
      )

granted-open :
    (buckets : Buckets) (key : Text) (limit window : ℕ) (b : Bucket) (nows : List ℕ)
    → lookup key buckets ≡ some b
    → All (λ now. now < b.reset_at) nows
    → granted buckets key limit window nows ≡ min (length nows) (limit - b.count)
unfolding granted
granted-open buckets key limit window b [] h lt = omega arith
granted-open buckets key limit window b (now ∷ nows) h lt = ground (
  arith,
  check-open buckets key limit window now b h lt.0,
  granted-open (check buckets now key limit window).1 key limit window
      (record b { count = b.count + 1 }) nows,
)

-- A fresh window grants exactly the first `limit` of the checks that fall into it: `n` checks at
-- any times before its reset, the first of which finds no running window, see `min n limit` allowed.
pub granted-window :
    (buckets : Buckets) (key : Text) (limit window now : ℕ) (nows : List ℕ)
    → IsIdle buckets key now
    → All (λ later. later < now + window * 1000) nows
    → granted buckets key limit window (now ∷ nows) ≡ min (length (now ∷ nows)) limit
unfolding granted
granted-window buckets key limit window now nows idle inside = ground (
  arith,
  check-idle buckets key limit window now idle,
  granted-open (check buckets now key limit window).1 key limit window
      (record { count = 1; reset_at = now + window * 1000 }) nows,
)

-- A check on one key changes no answer for another key, at any later time and with any limit.
pub check-apart :
    (buckets : Buckets) (key other : Text) (now limit window later limit' window' : ℕ)
    → key ≢ other
    → let after = (check buckets now key limit window).1 in
      (check after later other limit' window').0 ≡ (check buckets later other limit' window').0
unfolding check
check-apart buckets key other now limit window later limit' window' h =
    rw (lookup-insert_ne other key (counted buckets now key window) buckets h)

-- A refused caller who waits for `retry_after_seconds` is served: no bucket is then running, so
-- with a positive limit the next check is allowed and leaves `limit - 1`.
pub retry_after_suffices :
    (buckets : Buckets) (key : Text) (limit window now : ℕ)
    → (check buckets now key limit window).0.allowed ≡ false
    → 0 < limit
    → let r = check buckets now key limit window in
      let r' = (check r.1 (now + r.0.retry_after_seconds * 1000) key limit window).0 in
      (r'.allowed ≡ true) × (r'.remaining + 1 ≡ limit)
unfolding check
retry_after_suffices buckets key limit window now refused positive =
    ground (arith, lookup-insert_self key (counted buckets now key window) buckets)
