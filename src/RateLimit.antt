-- ===== src/RateLimit.antt =====
-- internal/middleware/ratelimit.go: the limiter of requests for each remote address. Times are
-- nanoseconds; the readings of the clock under one lock are one instant.
pub mod Windows
use jd_shop_server.Common.{
  ℕ, suc, ◌+◌, ◌*◌, String, Bool, true, false, not, Option, none, some, List, [], ◌∷◌, ltb, leb,
  if◌then◌else◌, lookup, insert, retain, string_eq,
}

pub record Visitor : Type 0 where
  pub count : ℕ
  pub last_seen : ℕ

pub record RateLimiter : Type 0 where
  pub visitors : List (String × Visitor)
  pub limit : ℕ
  pub window : ℕ

unfoldable pub new_rate_limiter : ℕ → ℕ → RateLimiter
new_rate_limiter limit window = record { visitors = []; limit = limit; window = window }

-- `time.Since(v.lastSeen) > rl.window`.
abbrev pub is_over : RateLimiter → Visitor → ℕ → Bool
is_over rl v now = ltb (v.last_seen + rl.window) now

-- One round of the loop of `cleanup`.
unfoldable pub cleanup : RateLimiter → ℕ → RateLimiter
cleanup rl now = record rl { visitors = retain (λ _ v. not (is_over rl v now)) rl.visitors }

abbrev pub visitor_or_new : ℕ → Option Visitor → Visitor
visitor_or_new now none = record { count = 0; last_seen = now }
visitor_or_new now (some v) = v

-- The visitor that a request leaves.
unfoldable pub visit : RateLimiter → Option Visitor → ℕ → Visitor
visit rl found now =
    let v = visitor_or_new now found in
    let v' = if is_over rl v now then record { count = 0; last_seen = now } else v in
    record v' { count = v'.count + 1 }

-- `Handler`: `true` passes the request on, `false` answers 429.
unfoldable pub handle : RateLimiter → String → ℕ → RateLimiter × Bool
handle rl ip now =
    let v = visit rl (lookup ip rl.visitors) now in
    (record rl { visitors = insert ip v rl.visitors }, not (ltb rl.limit v.count))
