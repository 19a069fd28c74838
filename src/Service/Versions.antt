-- ===== src/Service/Versions.antt =====
-- internal/service/version.go: the versions of the client, and whether there is a newer one.
pub mod Updates
use jd_shop_server.Common.{
  ℕ, String, Bool, true, false, Option, none, some, ◌==◌, str_eq, ltb, if◌then◌else◌,
}
use jd_shop_server.Time.{format_rfc3339}
use jd_shop_server.Model.{
  AppVersion, CreateVersionRequest, UpdateVersionRequest, CheckVersionResponse,
}
use jd_shop_server.Db.{version_not_found, M, pure, fail, ◌>>=◌, ◌>>◌}
use jd_shop_server.Repository.Versions

abbrev non_blank : String → Option String
non_blank s = if str_eq s "" then none else some s

-- `req.IsForce != nil && *req.IsForce`.
abbrev pub forced : Option Bool → ℕ
forced none = 0
forced (some b) = if b then 1 else 0

unfoldable pub create_version : CreateVersionRequest → ℕ → M (Option AppVersion)
create_version req now = do
  id ←
      Versions.create
        (record {
          id = 0;
          platform = req.platform;
          version_code = req.version_code;
          version_name = req.version_name;
          title = req.title;
          description = non_blank req.description;
          download_url = non_blank req.download_url;
          file_size = req.file_size;
          file_hash = non_blank req.file_hash;
          is_force = forced req.is_force;
          is_latest = 0;
          created_at = format_rfc3339 0;
        })
        now
  Versions.find_by_id id

unfoldable pub version_or_fail : Option AppVersion → M AppVersion
version_or_fail none = fail version_not_found
version_or_fail (some v) = pure v

abbrev pub bool_int : Option Bool → Option ℕ
bool_int none = none
bool_int (some b) = some (if b then 1 else 0)

unfoldable pub update_version : ℕ → UpdateVersionRequest → M (Option AppVersion)
update_version id req = do
  found ← Versions.find_by_id id
  _ ← version_or_fail found
  Versions.update id (record {
    title = req.title;
    description = req.description;
    download_url = req.download_url;
    file_hash = req.file_hash;
    file_size = req.file_size;
    is_force = bool_int req.is_force;
    is_latest = bool_int req.is_latest;
  })
  Versions.find_by_id id

unfoldable pub delete_version : ℕ → M (Unit {0})
delete_version id = do found ← Versions.find_by_id id; _ ← version_or_fail found; Versions.delete id

-- The answer, given the latest version.
unfoldable pub answer : ℕ → Option AppVersion → CheckVersionResponse
answer current none = record { has_update = false; is_force = false; version = none }
answer current (some v) =
    if ltb current v.version_code
    then record { has_update = true; is_force = v.is_force == 1; version = some v }
    else record { has_update = false; is_force = false; version = none }

unfoldable pub check_latest : String → ℕ → M CheckVersionResponse
check_latest platform current = do
  latest ← Versions.find_latest platform
  pure (answer current latest)
