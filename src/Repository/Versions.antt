-- ===== src/Repository/Versions.antt =====
-- internal/repository/version.go: the versions of the client, of which one for each platform is the
-- latest.
pub mod Latest
pub mod Sound
pub mod Kept
use jd_shop_server.Common.{
  ℕ, suc, String, Bool, true, false, not, ◌&&◌, Option, none, some, List, [], ◌∷◌, ◌==◌, str_eq,
  ltb, if◌then◌else◌, find, update_where, delete_where, is_some,
}
use jd_shop_server.Time.{sqlite_datetime}
use jd_shop_server.Model.{AppVersion}
use jd_shop_server.Db.{
  Db, no_rows, M, pure, fail, ◌>>=◌, ◌>>◌, when, query, exec, insert_row, transaction,
}

abbrev pub has_id : ℕ → AppVersion → Bool
has_id id v = v.id == id

abbrev pub is_platform : String → AppVersion → Bool
is_platform platform v = str_eq v.platform platform

abbrev pub is_latest_of : String → AppVersion → Bool
is_latest_of platform v = is_platform platform v && v.is_latest == 1

-- `UNIQUE(platform, version_code)`.
abbrev pub is_version : String → ℕ → AppVersion → Bool
is_version platform code v = is_platform platform v && v.version_code == code

abbrev pub marked : ℕ → AppVersion → AppVersion
marked latest v = record v { is_latest = latest }

-- `UPDATE … SET is_latest = 0 WHERE platform = ? AND id != ?`.
unfoldable pub clear_others : String → ℕ → List AppVersion → List AppVersion
clear_others platform id =
    update_where (λ v. is_platform platform v && not (has_id id v)) (marked 0)

unfoldable pub create : AppVersion → ℕ → M ℕ
create v now = transaction do
  id ←
      insert_row (λ db. is_some (find (is_version v.platform v.version_code) db.app_versions))
        λ db. (
          db.next_version,
          record db {
            app_versions =
                record v { id = db.next_version; is_latest = 1; created_at = sqlite_datetime now }
                ∷ db.app_versions;
            next_version = suc db.next_version;
          },
        )
  exec (λ db. record db { app_versions = clear_others v.platform id db.app_versions })
  pure id

unfoldable pub find_by_id : ℕ → M (Option AppVersion)
find_by_id id = query (λ db. find (has_id id) db.app_versions)

-- The row of two that `ORDER BY version_code DESC` puts first.
abbrev pub higher : AppVersion → Option AppVersion → AppVersion
higher v none = v
higher v (some best) = if ltb v.version_code best.version_code then best else v

-- `WHERE p ORDER BY version_code DESC LIMIT 1`.
unfoldable pub greatest : (AppVersion → Bool) → List AppVersion → Option AppVersion
greatest p [] = none
greatest p (v ∷ vs) = let best = greatest p vs in if p v then some (higher v best) else best

unfoldable pub find_latest : String → M (Option AppVersion)
find_latest platform = query (λ db. greatest (is_latest_of platform) db.app_versions)

-- The columns that an update sets.
pub record VersionPatch : Type 0 where
  pub title : Option String
  pub description : Option String
  pub download_url : Option String
  pub file_hash : Option String
  pub file_size : Option ℕ
  pub is_force : Option ℕ
  pub is_latest : Option ℕ

abbrev pub given {ℓ} : {A : Type ℓ} → A → Option A → A
given old none = old
given old (some new) = new

abbrev pub given_column {ℓ} : {A : Type ℓ} → Option A → Option A → Option A
given_column old none = old
given_column old (some new) = some new

abbrev pub patched : VersionPatch → AppVersion → AppVersion
patched p v = record v {
  title = given v.title p.title;
  description = given_column v.description p.description;
  download_url = given_column v.download_url p.download_url;
  file_hash = given_column v.file_hash p.file_hash;
  file_size = given_column v.file_size p.file_size;
  is_force = given v.is_force p.is_force;
  is_latest = given v.is_latest p.is_latest;
}

-- `len(setParts) == 0`.
abbrev pub sets_nothing : VersionPatch → Bool
sets_nothing p =
    not (is_some p.title)
    && not (is_some p.description)
    && not (is_some p.download_url)
    && not (is_some p.file_hash)
    && not (is_some p.file_size)
    && not (is_some p.is_force)
    && not (is_some p.is_latest)

abbrev pub is_one : Option ℕ → Bool
is_one none = false
is_one (some n) = n == 1

unfoldable pub clear : String → List AppVersion → List AppVersion
clear platform = update_where (is_platform platform) (marked 0)

unfoldable pub patch_row : ℕ → VersionPatch → List AppVersion → List AppVersion
patch_row id p = update_where (has_id id) (patched p)

-- `QueryRow(…).Scan(…)`, an error where there is no row.
unfoldable pub row_or_fail : Option AppVersion → M AppVersion
row_or_fail none = fail no_rows
row_or_fail (some v) = pure v

unfoldable pub update : ℕ → VersionPatch → M (Unit {0})
update id p =
    if sets_nothing p
    then pure tt
    else if is_one p.is_latest
    then (do
      found ← query (λ db. find (has_id id) db.app_versions)
      v ← row_or_fail found
      transaction do
        exec (λ db. record db { app_versions = clear v.platform db.app_versions })
        exec (λ db. record db { app_versions = patch_row id p db.app_versions }))
    else exec (λ db. record db { app_versions = patch_row id p db.app_versions })

-- The row with the greatest code of the platform becomes the latest, if there is one.
unfoldable pub promote : Option AppVersion → List AppVersion → List AppVersion
promote none vs = vs
promote (some best) vs = update_where (has_id best.id) (marked 1) vs

unfoldable pub delete : ℕ → M (Unit {0})
delete id = do
  found ← query (λ db. find (has_id id) db.app_versions)
  v ← row_or_fail found
  transaction do
    exec (λ db. record db { app_versions = delete_where (has_id id) db.app_versions })
    when (v.is_latest == 1) (
        exec λ db. record db {
          app_versions =
              promote (greatest (is_platform v.platform) db.app_versions) db.app_versions;
        })
