-- ===== src/Repository/LoginLogs.antt =====
-- internal/repository/login_log.go: the log of login attempts. The column created_at has SQLite's
-- own default, `datetime('now')`, while the start of the counted period is an RFC 3339 text.
pub mod Window
use jd_shop_server.Common.{
  ℕ, ◌-◌, ◌*◌, String, Bool, true, false, ◌&&◌, ◌||◌, Option, none, some, ◌∷◌, str_eq, count_where,
}
use jd_shop_server.Time.{Timestamp, nanos, format_rfc3339, sqlite_datetime, text_lt}
use jd_shop_server.Model.{LoginLog, LoginResult, failed}
use jd_shop_server.Db.{M, query, exec}

abbrev pub is_failed : LoginResult → Bool
is_failed failed = true
is_failed _ = false

abbrev pub is_ip : String → Option String → Bool
is_ip ip none = false
is_ip ip (some a) = str_eq a ip

unfoldable pub create : LoginLog → ℕ → M (Unit {0})
create log now =
    exec λ db. record db {
      login_logs = record log { created_at = sqlite_datetime now } ∷ db.login_logs;
    }

-- `now` less a number of minutes.
abbrev pub minutes_before : ℕ → ℕ → ℕ
minutes_before minutes now = now - minutes * 60 * nanos

abbrev pub is_counted : Timestamp → String → String → LoginLog → Bool
is_counted since username ip l =
    is_failed l.result
    && text_lt since l.created_at
    && (str_eq l.username username || is_ip ip l.ip_address)

unfoldable pub count_failures : String → String → ℕ → ℕ → M ℕ
count_failures username ip minutes now = query λ db.
    count_where (is_counted (format_rfc3339 (minutes_before minutes now)) username ip) db.login_logs
