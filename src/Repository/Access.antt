-- ===== src/Repository/Access.antt =====
-- internal/repository/access.go and registration_defaults.go: what an account may use and until
-- when, and what a new account gets.
use jd_shop_server.Common.{
  ℕ, ◌+◌, ◌*◌, Bool, true, false, Option, some, List, [], ◌∷◌, ◌==◌, if◌then◌else◌, find,
  update_where, is_some,
}
use jd_shop_server.Time.{nanos, seconds_per_day, format_rfc3339}
use jd_shop_server.Model.{AccessPolicy, RegistrationDefaults}
use jd_shop_server.Db.{RegistrationDefaultsRow, no_rows, M, pure, fail, ◌>>=◌, query, exec}

abbrev pub bool_int : Bool → ℕ
bool_int true = 1
bool_int false = 0

abbrev pub is_policy_of : ℕ → AccessPolicy → Bool
is_policy_of id p = p.user_id == id

-- `now` and a number of days, in UTC.
abbrev pub days_after : ℕ → ℕ → ℕ
days_after days now = now + days * seconds_per_day * nanos

-- `INSERT OR IGNORE`.
unfoldable pub insert_or_ignore : AccessPolicy → List AccessPolicy → List AccessPolicy
insert_or_ignore p rows = if is_some (find (is_policy_of p.user_id) rows) then rows else p ∷ rows

unfoldable pub create_default : ℕ → RegistrationDefaults → ℕ → M (Unit {0})
create_default id defaults now = exec λ db. record db {
  access_control =
      insert_or_ignore
        (record {
          user_id = id;
          competitor_monitor = bool_int defaults.competitor_monitor;
          merchant_backend = bool_int defaults.merchant_backend;
          analysis_center = bool_int defaults.analysis_center;
          expires_at = some (format_rfc3339 (days_after defaults.usage_days now));
          updated_at = format_rfc3339 now;
        })
        db.access_control;
}

unfoldable pub find_by_user_id : ℕ → M (Option AccessPolicy)
find_by_user_id id = query (λ db. find (is_policy_of id) db.access_control)

-- `INSERT … ON CONFLICT(user_id) DO UPDATE`.
unfoldable pub upsert : AccessPolicy → List AccessPolicy → List AccessPolicy
upsert p rows =
    if is_some (find (is_policy_of p.user_id) rows)
    then update_where (is_policy_of p.user_id) (λ _. p) rows
    else p ∷ rows

unfoldable pub update : AccessPolicy → M (Unit {0})
update p = exec (λ db. record db { access_control = upsert p db.access_control })

unfoldable pub defaults_of : List RegistrationDefaultsRow → M RegistrationDefaults
defaults_of [] = fail no_rows
defaults_of (r ∷ _) = pure (record {
  usage_days = r.usage_days;
  competitor_monitor = r.competitor_monitor == 1;
  merchant_backend = r.merchant_backend == 1;
  analysis_center = r.analysis_center == 1;
})

unfoldable pub get_defaults : M RegistrationDefaults
get_defaults = do rows ← query (λ db. db.registration_defaults); defaults_of rows

unfoldable pub update_defaults : RegistrationDefaults → ℕ → M (Unit {0})
update_defaults req now = exec λ db. record db {
  registration_defaults =
      update_where (λ _. true)
        (λ _. record {
          usage_days = req.usage_days;
          competitor_monitor = bool_int req.competitor_monitor;
          merchant_backend = bool_int req.merchant_backend;
          analysis_center = bool_int req.analysis_center;
          updated_at = format_rfc3339 now;
        })
        db.registration_defaults;
}
