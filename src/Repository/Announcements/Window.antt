-- ===== src/Repository/Announcements/Window.antt =====
-- The comparison of an announcement's start with the clock in internal/repository/announcement.go.
use jd_shop_server.Common.{ℕ, ◌+◌, ◌-◌, ◌*◌, ◌/◌, ◌<◌, ◌≡◌, refl, false, some, List, arith}
use jd_shop_server.Time.{
  Timestamp, letter_t, east, parse_rfc3339, unix_second, format_rfc3339, text_lt, nanos,
  seconds_per_day,
}
use jd_shop_server.Model.Announcements.{Announcement, TimeText}
use jd_shop_server.Db.{Link}
use jd_shop_server.Repository.Announcements.Receipts.{is_available, has_started}

-- The timestamp of a second of a day, some minutes east of UTC.
abbrev pub eastern : ℕ → ℕ → ℕ → Timestamp
eastern day second minutes = record {
  day = day;
  separator = letter_t;
  second = second;
  zone = east minutes;
}

not_started :
    (day second minutes now : ℕ)
    → second < seconds_per_day
    → now / nanos < day * seconds_per_day + second
    → has_started (some (TimeText.instant (eastern day second minutes))) (format_rfc3339 now)
      ≡ false
unfolding text_lt format_rfc3339
not_started day second minutes now fits early = ground arith

-- An announcement that starts at a time east of UTC, which validation reads as the instant that is
-- as many minutes before the one with the same digits in UTC, is available to nobody before the
-- latter: the column is compared as a text with the time in UTC.
pub available_late :
    (a : Announcement) (day second minutes user now : ℕ) (links : List Link)
    → a.starts_at ≡ some (TimeText.instant (eastern day second minutes))
    → second < seconds_per_day
    → now / nanos < day * seconds_per_day + second
    → (parse_rfc3339 (eastern day second minutes)
        ≡ some (day * seconds_per_day + second - minutes * 60))
      × (is_available user now links a ≡ false)
unfolding is_available parse_rfc3339 unix_second
available_late a day second minutes user now links starts fits early =
    let late = not_started day second minutes now fits early in
    let closed : has_started a.starts_at (format_rfc3339 now) ≡ false = rw starts late in
    (refl, ground arith)
