-- ===== src/RateLimiter/Window.antt =====
-- node/src/rate-limiter.ts, allow: what one window lets through.
use coc.Prelude.{
  ◌∷◌, Text, get, ℕ, List, keep, Dict, ◌<◌, ◌≡◌, some, not, ◌≢◌, arith, All, leb, ◌+◌, ◌≤◌, text_eq,
  get-insert, ◌-◌, if◌then◌else◌, Bool-cases, [], ◌==◌, ◌&&◌, inr, inl,
}
use coc.RateLimiter.{RateLimiter, Bucket, allow, allow_new, count_request, open_window, cleanup}

-- A request: the address and the time.
abbrev pub Request : Type 0
Request = Text × ℕ

-- How many requests of an address are allowed among those of all addresses, in their order.
unfoldable pub allowed_of : Text → RateLimiter → List Request → ℕ
allowed_of ip limiter [] = 0
allowed_of ip limiter ((from, now) ∷ requests) =
    let (limiter', ok) = allow limiter from now in
    (if from == ip && ok then 1 else 0) + allowed_of ip limiter' requests

get-keep :
    (ip : Text) {b : Bucket} (now : ℕ) (m : Dict Text Bucket)
    → now < b.reset_at
    → get ip m ≡ some b
    → get ip (keep (λ e. not (leb e.1.reset_at now)) m) ≡ some b
unfolding get keep
get-keep ip now [] h found = cc
get-keep ip {b} now ((k, c) ∷ m) h found = ground (arith, get-keep ip {b = b} now m h)

-- A request of another address leaves an open window and the maximum as they are.
allow_other :
    (limiter : RateLimiter) (ip from : Text) (now : ℕ) {b : Bucket}
    → from ≢ ip
    → now < b.reset_at
    → get ip limiter.buckets ≡ some b
    → (get ip (allow limiter from now).0.buckets ≡ some b)
      × ((allow limiter from now).0.max_requests ≡ limiter.max_requests)
unfolding allow allow_new count_request open_window cleanup
allow_other limiter ip from now {b} other open_still found =
    let kept = get-keep ip {b = b} now limiter.buckets open_still found in
    let fresh : Bucket = record { count = 1; reset_at = now + limiter.window_ms } in
    grind (arith, text_eq.beq_iff, get-insert)

-- A request of the address itself, in its open window.
allow_own :
    (limiter : RateLimiter) (ip : Text) (now : ℕ) {b : Bucket}
    → now < b.reset_at
    → get ip limiter.buckets ≡ some b
    → allow limiter ip now ≡ count_request limiter ip b
unfolding allow
allow_own limiter ip now open_still found = rw (found, allow) (ground arith)

-- From an open window of an address on, whoever else sends requests: until the window ends, no more
-- of its requests are allowed than the maximum less those counted already, and none once the count
-- has reached the maximum.
pub allowed_of-le :
    (ip : Text) (requests : List Request) (limiter : RateLimiter) (count reset_at : ℕ)
    → get ip limiter.buckets ≡ some (record { count = count; reset_at = reset_at })
    → All (λ r. r.1 < reset_at) requests
    → allowed_of ip limiter requests ≤ limiter.max_requests - count
unfolding allowed_of count_request
allowed_of-le ip [] limiter count reset_at found early = omega arith
allowed_of-le ip ((from, now) ∷ requests) limiter count reset_at found early =
    elim (Bool-cases (from == ip)) [
      | inr other ↦
          let (same, limit) =
            allow_other limiter ip from now {b = record { count = count; reset_at = reset_at }}
              (λ e. ground (arith, text_eq.beq_iff from ip)) early.0 found in
          rw other (
            omega (
              arith,
              allowed_of-le ip requests (allow limiter from now).0 count reset_at same early.1,
              limit,
            ))
      | inl own ↦
          let b : Bucket = record { count = count; reset_at = reset_at } in
          let same = (text_eq.beq_iff from ip).0 own in
          let counted : allow limiter from now ≡ count_request limiter ip b =
            rw same (allow_own limiter ip now {b = b} early.0 found) in
          let next : ℕ = if leb count limiter.max_requests then count + 1 else count in
          let rest =
            allowed_of-le ip requests (count_request limiter ip b).0 next reset_at
              (ground (
                arith,
                get-insert ip ip (record b { count = next }) limiter.buckets,
                text_eq.beq_iff ip ip,
              ))
              early.1 in
          rw (own, counted) (ground (arith, rest))
    ]
