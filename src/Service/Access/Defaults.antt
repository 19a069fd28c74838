-- ===== src/Service/Access/Defaults.antt =====
-- The access that internal/service/access.go gives to an account that has none yet.
use jd_shop_server.Common.{
  ℕ, ◌+◌, ◌*◌, ◌/◌, Bool, true, false, ◌≡◌, refl, ◌∙◌, Option, none, some, List, ◌∷◌, ◌==◌, str_eq,
  ltb, find, arith, Option-cases, inl, inr, ==_refl, String,
}
use jd_shop_server.Time.{nanos, seconds_per_day, format_rfc3339, parse_rfc3339, Timestamp}
use jd_shop_server.Hub.{ControlHub}
use jd_shop_server.Model.{AccountAccess, AccessPolicy, User, RegistrationDefaults}
use jd_shop_server.Db.{Db, RegistrationDefaultsRow, ok, calm, pure, query}
use jd_shop_server.Db.Success.{bind-eq, query-calm, exec-calm}
use jd_shop_server.Repository.Access.{
  bool_int, is_policy_of, days_after, insert_or_ignore, create_default, find_by_user_id,
  defaults_of, get_defaults,
}
use jd_shop_server.Service.Access.{
  access_of, apply_expiry, with_remaining, remaining, create_default_access, made_policy,
  policy_or_default, evaluate,
}
use jd_shop_server.Service.Access.Lease.{access_of_default}

abbrev defaults_in : RegistrationDefaultsRow → RegistrationDefaults
defaults_in row = record {
  usage_days = row.usage_days;
  competitor_monitor = row.competitor_monitor == 1;
  merchant_backend = row.merchant_backend == 1;
  analysis_center = row.analysis_center == 1;
}

bool_int-is_one : (b : Bool) → (bool_int b == 1) ≡ b
bool_int-is_one true = refl
bool_int-is_one false = refl

-- The expiry leaves the modules.
with_remaining-modules :
    (access : AccountAccess) (left : Option ℕ)
    → (with_remaining access left).modules ≡ access.modules
with_remaining-modules access none = refl
with_remaining-modules access (some s) = refl

apply_expiry-modules :
    (access : AccountAccess) (expiry : Option Timestamp) (now : ℕ)
    → (apply_expiry access expiry now).modules ≡ access.modules
unfolding apply_expiry
apply_expiry-modules access none now = refl
apply_expiry-modules access (some t) now = elim (Option-cases (parse_rfc3339 t)) [
  | inl unread ↦ rw (apply_expiry, unread) refl
  | inr (e, read) ↦ rw (apply_expiry, read) (with_remaining-modules access (remaining e now))
]

-- An account with the status 1 has the modules of its row.
access_of-modules :
    (p : AccessPolicy) (now : ℕ)
    → (access_of 1 p now).modules ≡ record {
      competitor_monitor = p.competitor_monitor == 1;
      merchant_backend = p.merchant_backend == 1;
      analysis_center = p.analysis_center == 1;
    }
unfolding access_of
access_of-modules p now = apply_expiry-modules _ p.expires_at now

abbrev default_policy : ℕ → RegistrationDefaultsRow → ℕ → AccessPolicy
default_policy id row now = record {
  user_id = id;
  competitor_monitor = bool_int (row.competitor_monitor == 1);
  merchant_backend = bool_int (row.merchant_backend == 1);
  analysis_center = bool_int (row.analysis_center == 1);
  expires_at = some (format_rfc3339 (days_after row.usage_days now));
  updated_at = format_rfc3339 now;
}

abbrev with_policy : AccessPolicy → Db → Db
with_policy p db = record db { access_control = p ∷ db.access_control }

module _ (db : Db) (hub : ControlHub) where
  find_by_user_id-calm :
      (id : ℕ)
      → find_by_user_id id (calm db hub)
        ≡ (ok (find (is_policy_of id) db.access_control), calm db hub)
  unfolding find_by_user_id
  find_by_user_id-calm id = query-calm db hub _

  evaluate-calm :
      (super : String) (user : User) (now : ℕ) {p : AccessPolicy}
      → str_eq user.username super ≡ false
      → find (is_policy_of user.id) db.access_control ≡ some p
      → evaluate super user now (calm db hub) ≡ (ok (access_of user.status p now), calm db hub)
  unfolding evaluate policy_or_default pure
  evaluate-calm super user now {p} ordinary there = rw ordinary (
      bind-eq _ _ (calm db hub) (find_by_user_id-calm user.id)
      ∙ rw there (bind-eq _ _ (calm db hub) refl))

  get_defaults-calm :
      (row : RegistrationDefaultsRow) (rest : List RegistrationDefaultsRow)
      → db.registration_defaults ≡ row ∷ rest
      → get_defaults (calm db hub) ≡ (ok (defaults_in row), calm db hub)
  unfolding get_defaults defaults_of pure
  get_defaults-calm row rest rows =
      bind-eq (query (λ db. db.registration_defaults)) defaults_of (calm db hub)
        (query-calm db hub (λ db. db.registration_defaults))
      ∙ rw rows refl

  create_default_access-calm :
      (id now : ℕ) (row : RegistrationDefaultsRow) (rest : List RegistrationDefaultsRow)
      → db.registration_defaults ≡ row ∷ rest
      → find (is_policy_of id) db.access_control ≡ none
      → create_default_access id now (calm db hub)
        ≡ (ok tt, calm (with_policy (default_policy id row now) db) hub)
  unfolding create_default_access create_default insert_or_ignore
  create_default_access-calm id now row rest rows new =
      bind-eq get_defaults _ (calm db hub) (get_defaults-calm row rest rows)
      ∙ exec-calm db hub _
      ∙ rw new refl

  policy_or_default-calm :
      (id now : ℕ) (row : RegistrationDefaultsRow) (rest : List RegistrationDefaultsRow)
      → db.registration_defaults ≡ row ∷ rest
      → find (is_policy_of id) db.access_control ≡ none
      → policy_or_default id now none (calm db hub)
        ≡ (ok (default_policy id row now), calm (with_policy (default_policy id row now) db) hub)
  unfolding policy_or_default made_policy find_by_user_id pure find
  policy_or_default-calm id now row rest rows new =
      let p = default_policy id row now in
      bind-eq (create_default_access id now) _ (calm db hub)
        (create_default_access-calm id now row rest rows new)
      ∙ bind-eq (find_by_user_id id) made_policy (calm (with_policy p db) hub)
          (query-calm (with_policy p db) hub _)
      ∙ rw (==_refl id) refl

-- Where no statement fails, the evaluation at `start` of an account with the status 1, that is not
-- the super administrator's and has no access yet, gives it access by default: a row for it is
-- added, and nothing else changes. It may be used at once. An evaluation at `now` of what that
-- leaves gives it the modules of the defaults, and allows its use for the days of the defaults from
-- `start`, cut to full seconds, and one second more, and no longer.
pub evaluate_by_default :
    (super : String) (user : User) (start now : ℕ) (row : RegistrationDefaultsRow)
    (rest : List RegistrationDefaultsRow) (db : Db) (hub : ControlHub)
    → str_eq user.username super ≡ false
    → user.status ≡ 1
    → db.registration_defaults ≡ row ∷ rest
    → find (is_policy_of user.id) db.access_control ≡ none
    → (p : AccessPolicy) × (first : AccountAccess) × (later : AccountAccess) × (evaluate super user
          start
          (calm db hub)
        ≡ (ok first, calm (record db { access_control = p ∷ db.access_control }) hub))
      × (evaluate super user now (calm (record db { access_control = p ∷ db.access_control }) hub)
          ≡ (ok later, calm (record db { access_control = p ∷ db.access_control }) hub))
      × (p.user_id ≡ user.id)
      × (first.allowed ≡ true)
      × (later.allowed ≡ ltb now ((start / nanos + row.usage_days * seconds_per_day + 1) * nanos))
      × (later.modules ≡ record {
        competitor_monitor = row.competitor_monitor == 1;
        merchant_backend = row.merchant_backend == 1;
        analysis_center = row.analysis_center == 1;
      })
unfolding evaluate pure
evaluate_by_default super user start now row rest db hub ordinary on rows new =
    let p = default_policy user.id row start in
    let db' = with_policy p db in
    let lease = λ (t : ℕ). access_of_default p row.usage_days start t refl in
    (
      p,
      access_of user.status p start,
      access_of user.status p now,
      rw ordinary (
          bind-eq _ _ (calm db hub) (find_by_user_id-calm db hub user.id)
          ∙ rw new (
              bind-eq _ _ (calm db hub)
                (policy_or_default-calm db hub user.id start row rest rows new))),
      evaluate-calm db' hub super user now ordinary (unfold find in rw (==_refl user.id) refl),
      refl,
      rw on (lease start ∙ ground arith),
      rw on (lease now),
      rw on (
          access_of-modules p now
          ∙ rw
              (
                bool_int-is_one (row.competitor_monitor == 1),
                bool_int-is_one (row.merchant_backend == 1),
                bool_int-is_one (row.analysis_center == 1),
              )
              refl),
    )
