-- ===== src/RateLimiter/Examples.antt =====
-- node/src/rate-limiter.ts: a limiter that allows two requests per window, and the theorem applied
-- to it.
use coc.RateLimiter.Window.{allowed_of, Request, allowed_of-le}
use coc.RateLimiter.{RateLimiter, allow, allow_new, count_request, open_window}
use coc.Prelude.{Text, List, get, text, ◌∷◌, text_beq, [], ◌≤◌, ◌-◌, insert, arith, refl, ◌≡◌}

abbrev home : Text
home = text "10.0.0.1"

abbrev limiter : RateLimiter
limiter = record {
  window_ms = 100;
  max_requests = 2;
  max_buckets = 5;
  buckets = (home, record { count = 1; reset_at = 100 }) ∷ [];
}

abbrev requests : List Request
requests = (home, 20) ∷ (text "10.0.0.2", 30) ∷ (home, 40) ∷ (home, 50) ∷ []

one_more_allowed : allowed_of home limiter requests ≡ 1
unfolding allowed_of allow allow_new count_request open_window get insert text_beq
one_more_allowed = refl

allowed_of-le_example : allowed_of home limiter requests ≤ 2 - 1
unfolding get text_beq
allowed_of-le_example = allowed_of-le home requests limiter 1 100 refl (ground arith)
