-- ===== src/Service/Access.antt =====
-- internal/service/access.go: what an account may use now.
pub mod Lease
pub mod Defaults
use jd_shop_server.Common.{
  ℕ, ◌+◌, ◌-◌, ◌*◌, ◌/◌, String, Bool, true, false, Option, none, some, ◌==◌, str_eq, ltb, leb,
  if◌then◌else◌,
}
use jd_shop_server.Time.{
  Timestamp, nanos, seconds_per_day, rfc3339_second, parse_rfc3339, parse_datetime, format_rfc3339,
}
use jd_shop_server.Model.{
  AccountAccess, active, disabled, expired, User, AccessPolicy, RegistrationDefaults, ExpiryText,
  empty, instant, minute, date, unreadable, UpdateUserAccessRequest,
}
use jd_shop_server.Db.{storage, invalid_expiry, M, pure, fail, ◌>>=◌, ◌>>◌}
use jd_shop_server.Repository.Access.{
  bool_int, create_default, find_by_user_id, update, get_defaults, update_defaults,
}

abbrev pub default_lease_seconds : ℕ
default_lease_seconds = 600

abbrev is_empty_text : String → Bool
is_empty_text s = str_eq s ""

-- The configured name, or "admin".
unfoldable pub super_admin_name : String → String
super_admin_name name = if is_empty_text name then "admin" else name

unfoldable pub create_default_access : ℕ → ℕ → M (Unit {0})
create_default_access id now = do defaults ← get_defaults; create_default id defaults now

-- The time left until the second `expiry`, cut to full seconds towards zero; `none` if that is
-- negative.
unfoldable pub remaining : ℕ → ℕ → Option ℕ
remaining expiry now =
    if leb now (expiry * nanos)
    then some ((expiry * nanos - now) / nanos)
    else if ltb (now - expiry * nanos) nanos
    then some 0
    else none

abbrev pub with_remaining : AccountAccess → Option ℕ → AccountAccess
with_remaining access (some s) = record access { remaining_seconds = s }
with_remaining access none = record access {
  allowed = false;
  reason = expired;
  remaining_seconds = 0;
}

-- The effect of `policy.ExpiresAt`; a text that cannot be parsed has none.
unfoldable pub apply_expiry : AccountAccess → Option Timestamp → ℕ → AccountAccess
unfolding remaining
apply_expiry access none now = access
apply_expiry access (some t) now = elim (parse_rfc3339 t) [
  | none ↦ access
  | some expiry ↦ with_remaining access (remaining expiry now)
]

unfoldable pub access_of : ℕ → AccessPolicy → ℕ → AccountAccess
unfolding apply_expiry
access_of status policy now =
    let access : AccountAccess = record {
      allowed = true;
      reason = active;
      expires_at = policy.expires_at;
      remaining_seconds = 0;
      lease_seconds = default_lease_seconds;
      modules = record {
        competitor_monitor = policy.competitor_monitor == 1;
        merchant_backend = policy.merchant_backend == 1;
        analysis_center = policy.analysis_center == 1;
      };
    } in
    if status == 1
    then apply_expiry access policy.expires_at now
    else record access { allowed = false; reason = disabled }

unfoldable pub super_admin_access : ℕ → AccountAccess
super_admin_access status = record {
  allowed = status == 1;
  reason = if status == 1 then active else disabled;
  expires_at = none;
  remaining_seconds = 0;
  lease_seconds = default_lease_seconds;
  modules = record { competitor_monitor = true; merchant_backend = true; analysis_center = true };
}

-- A policy that is missing after it was made would be a nil dereference.
unfoldable pub made_policy : Option AccessPolicy → M AccessPolicy
made_policy none = fail storage
made_policy (some policy) = pure policy

-- The policy of an account, made from the defaults if there is none.
unfoldable pub policy_or_default : ℕ → ℕ → Option AccessPolicy → M AccessPolicy
policy_or_default id now (some policy) = pure policy
policy_or_default id now none = do
  create_default_access id now
  found ← find_by_user_id id
  made_policy found

unfoldable pub evaluate : String → User → ℕ → M AccountAccess
evaluate super user now =
    if str_eq user.username super then pure (super_admin_access user.status) else do
      found ← find_by_user_id user.id
      policy ← policy_or_default user.id now found
      pure (access_of user.status policy now)

abbrev second_or : Option ℕ → Option ℕ → Option ℕ
second_or (some s) other = some s
second_or none other = other

-- The second that an expiry text stands for; a bare date means its last second.
unfoldable pub expiry_second : ExpiryText → Option ℕ
expiry_second empty = none
expiry_second (instant t) = second_or (parse_rfc3339 t) (parse_datetime t)
expiry_second (minute day m) = some (day * seconds_per_day + m * 60)
expiry_second (date day) = some (day * seconds_per_day + (seconds_per_day - 1))
expiry_second unreadable = none

unfoldable pub stamp_or_fail : Option ℕ → M (Option Timestamp)
stamp_or_fail none = fail invalid_expiry
stamp_or_fail (some s) = pure (some (rfc3339_second s))

unfoldable pub normalize_expiry : Option ExpiryText → M (Option Timestamp)
unfolding expiry_second
normalize_expiry none = pure none
normalize_expiry (some empty) = pure none
normalize_expiry (some text) = stamp_or_fail (expiry_second text)

unfoldable pub update_access : String → User → UpdateUserAccessRequest → ℕ → M AccountAccess
update_access super user req now = do
  expires_at ← normalize_expiry req.expires_at
  update (record {
    user_id = user.id;
    competitor_monitor = bool_int req.competitor_monitor;
    merchant_backend = bool_int req.merchant_backend;
    analysis_center = bool_int req.analysis_center;
    expires_at = expires_at;
    updated_at = format_rfc3339 now;
  })
  evaluate super user now

unfoldable pub update_registration_defaults : RegistrationDefaults → ℕ → M RegistrationDefaults
update_registration_defaults req now = do update_defaults req now; get_defaults
