-- ===== src/Service/Heartbeats.antt =====
-- internal/service/heartbeat.go: the report of a client, answered by its access and the latest
-- version.
use jd_shop_server.Common.{
  ℕ, String, Bool, false, not, ◌&&◌, Option, none, some, ◌==◌, str_eq, ltb, if◌then◌else◌,
}
use jd_shop_server.Common.Int.{ℤ, pos, negsuc}
use jd_shop_server.Time.{format_rfc3339}
use jd_shop_server.Model.{
  AccountAccess, AppVersion, HeartbeatLog, HeartbeatRequest, HeartbeatResponse,
}
use jd_shop_server.Db.{M, pure, ◌>>=◌, ◌>>◌, attempt}
use jd_shop_server.Repository.Heartbeats
use jd_shop_server.Repository.Users
use jd_shop_server.Repository.Versions
use jd_shop_server.Service.Access
use jd_shop_server.Service.Users.{user_or_fail}

abbrev non_blank : String → Option String
non_blank s = if str_eq s "" then none else some s

abbrev pub log_of : ℕ → HeartbeatRequest → String → HeartbeatLog
log_of user req ip = record {
  user_id = user;
  device_id = req.device_id;
  platform = non_blank req.platform;
  app_version = non_blank req.app_version;
  ip_address = non_blank ip;
  created_at = format_rfc3339 0;
}

-- `req.AppVersionCode > 0`, and the comparison with it.
abbrev pub is_newer : ℤ → String → AppVersion → Bool
is_newer (negsuc n) name latest = not (str_eq name "") && not (str_eq latest.version_name name)
is_newer (pos n) name latest =
    if n == 0
    then not (str_eq name "") && not (str_eq latest.version_name name)
    else ltb n latest.version_code

unfoldable pub response : AccountAccess → HeartbeatRequest → Option AppVersion → HeartbeatResponse
response access req none = record {
  has_new_version = false;
  latest_version_code = 0;
  latest_version_name = "";
  latest_download_url = none;
  latest_file_hash = none;
  latest_file_size = none;
  is_force_update = false;
  access = access;
}
response access req (some latest) =
    let newer = is_newer req.app_version_code req.app_version latest in
    record {
      has_new_version = newer;
      latest_version_code = latest.version_code;
      latest_version_name = latest.version_name;
      latest_download_url = latest.download_url;
      latest_file_hash = latest.file_hash;
      latest_file_size = latest.file_size;
      is_force_update = newer && latest.is_force == 1;
      access = access;
    }

-- The version is looked up for a platform only, and an error of that is dropped.
unfoldable pub latest_for : String → M (Option AppVersion)
latest_for platform =
    if str_eq platform "" then pure none else attempt none (Versions.find_latest platform)

unfoldable pub report : String → ℕ → HeartbeatRequest → String → ℕ → M HeartbeatResponse
report super user req ip now = do
  Heartbeats.create (log_of user req ip) now
  found ← Users.find_by_id user
  account ← user_or_fail found
  access ← Access.evaluate super account now
  latest ← latest_for req.platform
  pure (response access req latest)
