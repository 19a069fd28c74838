-- ===== src/Repository/LoginLogs/Window.antt =====
-- Which failures internal/repository/login_log.go counts.
use jd_shop_server.Common.{
  ℕ, ◌/◌, ◌≤◌, String, false, ◌≡◌, refl, List, [], ◌∷◌, count_where, All, ltb, arith,
}
use jd_shop_server.Time.{nanos, seconds_per_day, sqlite_datetime, format_rfc3339}
use jd_shop_server.Time.Laws.{text_lt-sqlite_datetime}
use jd_shop_server.Model.{LoginLog}
use jd_shop_server.Repository.LoginLogs.{is_counted, minutes_before}

-- The number of the UTC day of an instant.
abbrev pub day_of : ℕ → ℕ
day_of t = t / nanos / seconds_per_day

-- The row was written at an instant whose day is not after that of `since`.
abbrev pub NoLaterDay : ℕ → LoginLog → Type 0
NoLaterDay since l = (t : ℕ) × (l.created_at ≡ sqlite_datetime t) × (day_of t ≤ day_of since)

is_counted-NoLaterDay :
    (since : ℕ) (name ip : String) (l : LoginLog)
    → NoLaterDay since l
    → is_counted (format_rfc3339 since) name ip l ≡ false
is_counted-NoLaterDay since name ip l (t, written, day) =
    let order = text_lt-sqlite_datetime since t in
    let no_later : ltb (day_of since) (day_of t) ≡ false = ground arith in
    rw (written, order, no_later) (ground arith)

-- Rows that were written no later than the end of the UTC day on which the counted period starts
-- are not counted, however many they are, and how shortly before `now` they were written.
pub count_where-NoLaterDay :
    (minutes now : ℕ) (name ip : String) (logs : List LoginLog)
    → All (NoLaterDay (minutes_before minutes now)) logs
    → count_where (is_counted (format_rfc3339 (minutes_before minutes now)) name ip) logs ≡ 0
unfolding count_where
count_where-NoLaterDay minutes now name ip [] a = refl
count_where-NoLaterDay minutes now name ip (l ∷ ls) (p, a) =
    rw (is_counted-NoLaterDay (minutes_before minutes now) name ip l p)
      (count_where-NoLaterDay minutes now name ip ls a)
