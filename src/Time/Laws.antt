-- ===== src/Time/Laws.antt =====
-- What timestamps keep of the instants they stand for.
use jd_shop_server.Common.{ℕ, ◌/◌, ◌≡◌, some, arith, ltb}
use jd_shop_server.Time.{
  text_lt, nanos, seconds_per_day, format_rfc3339, sqlite_datetime, parse_rfc3339,
}

pub parse_rfc3339-format_rfc3339 :
    (now : ℕ) → parse_rfc3339 (format_rfc3339 now) ≡ some (now / nanos)
unfolding parse_rfc3339 format_rfc3339
parse_rfc3339-format_rfc3339 now = ground arith

-- Two timestamps that Go writes are ordered as their instants, to the second.
pub text_lt-format_rfc3339 :
    (a b : ℕ) → text_lt (format_rfc3339 a) (format_rfc3339 b) ≡ ltb (a / nanos) (b / nanos)
unfolding text_lt format_rfc3339
text_lt-format_rfc3339 a b = ground arith

-- A timestamp of SQLite is after one of Go only on a later day.
pub text_lt-sqlite_datetime :
    (a b : ℕ)
    → text_lt (format_rfc3339 a) (sqlite_datetime b)
      ≡ ltb (a / nanos / seconds_per_day) (b / nanos / seconds_per_day)
unfolding text_lt format_rfc3339 sqlite_datetime
text_lt-sqlite_datetime a b = ground arith
