-- ===== src/Repository/Heartbeats.antt =====
-- internal/repository/heartbeat.go: the log of heartbeats.
use jd_shop_server.Common.{ℕ, ◌∷◌, ◌-◌, ◌*◌, delete_where}
use jd_shop_server.Time.{nanos, seconds_per_day, sqlite_datetime, text_lt}
use jd_shop_server.Model.{HeartbeatLog}
use jd_shop_server.Db.{M, exec}

unfoldable pub create : HeartbeatLog → ℕ → M (Unit {0})
create h now = exec λ db. record db {
  heartbeat_logs = record h { created_at = sqlite_datetime now } ∷ db.heartbeat_logs;
}

-- `datetime('now', '-N days')`.
unfoldable pub cleanup_older_than : ℕ → ℕ → M (Unit {0})
cleanup_older_than days now = exec λ db. record db {
  heartbeat_logs =
      delete_where
        (λ h. text_lt h.created_at (sqlite_datetime (now - days * seconds_per_day * nanos)))
        db.heartbeat_logs;
}
