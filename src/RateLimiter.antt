-- ===== src/RateLimiter.antt =====
-- node/src/rate-limiter.ts: requests per address in windows of fixed length. The clock is an argument.
pub mod Window
pub mod Examples
use coc.Prelude.{
  ℕ, Text, Dict, [], keep, insert, Bool, not, ◌+◌, if◌then◌else◌, get, leb, none, text_eq, length,
  some, false, true,
}

pub record Bucket : Type 0 where
  pub count : ℕ
  pub reset_at : ℕ

pub record RateLimiter : Type 0 where
  pub window_ms : ℕ
  pub max_requests : ℕ
  pub max_buckets : ℕ
  pub buckets : Dict Text Bucket

-- constructor
pub new_limiter : ℕ → ℕ → ℕ → RateLimiter
new_limiter window_ms max_requests max_buckets = record {
  window_ms = window_ms;
  max_requests = max_requests;
  max_buckets = max_buckets;
  buckets = [];
}

pub cleanup : RateLimiter → ℕ → RateLimiter
cleanup limiter now = record limiter {
  buckets = keep (λ e. not (leb e.1.reset_at now)) limiter.buckets;
}

pub open_window : RateLimiter → Text → ℕ → RateLimiter
open_window limiter ip now = record limiter {
  buckets = insert ip (record { count = 1; reset_at = now + limiter.window_ms }) limiter.buckets;
}

-- A first request from an address: at the limit on addresses the expired ones go first.
pub allow_new : RateLimiter → Text → ℕ → RateLimiter × Bool
allow_new limiter ip now =
    let limiter' =
      if leb limiter.max_buckets (length limiter.buckets) then cleanup limiter now else limiter in
    if leb limiter.max_buckets (length limiter'.buckets)
    then (limiter', false)
    else (open_window limiter' ip now, true)

-- A request within a window: the count stops at one more than the maximum.
pub count_request : RateLimiter → Text → Bucket → RateLimiter × Bool
count_request limiter ip bucket =
    let count' : ℕ =
      if leb bucket.count limiter.max_requests then bucket.count + 1 else bucket.count in
    (
      record limiter { buckets = insert ip (record bucket { count = count' }) limiter.buckets },
      leb count' limiter.max_requests,
    )

pub allow : RateLimiter → Text → ℕ → RateLimiter × Bool
allow limiter ip now = elim (get ip limiter.buckets) [
  | none ↦ allow_new limiter ip now
  | some bucket ↦
      if leb bucket.reset_at now
      then (open_window limiter ip now, true)
      else count_request limiter ip bucket
]
