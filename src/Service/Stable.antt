-- ===== src/Service/Stable.antt =====
-- Every operation of the services keeps what is stable, whichever of its statements fail.
pub mod Auth
pub mod Admin
pub mod Histories
use jd_shop_server.Common.{ℕ, String, Bool, true, false, Option, none, some, List, [], ◌∷◌}
use jd_shop_server.Model.{
  User, AccountAccess, AccessPolicy, RegistrationDefaults, RefreshToken, LoginResult,
  RegisterRequest, LoginRequest, ExpiryText, empty, instant, minute, date, unreadable,
  UpdateUserAccessRequest, UpdateProfileRequest, ChangePasswordRequest, CreateRoleRequest,
  UpdateRoleRequest, Role,
}
use jd_shop_server.Db.{Db, Error, Keeps, M, pure, fail}
use jd_shop_server.Db.Laws.{keeping}
use jd_shop_server.Repository.Sms.{Verification}
use jd_shop_server.Repository.Stable.{Stable, user_rules}
use jd_shop_server.Repository.Stable.Others.{other_rules}
use jd_shop_server.Service.Packages.{Packages}
use jd_shop_server.Service.Access
use jd_shop_server.Service.Sms

module _ (P : Db → Type 0) (s : Stable P) where
  pub keeps_create_default_access : (id now : ℕ) → Keeps P (Access.create_default_access id now)
  unfolding Access.create_default_access
  keeps_create_default_access id now = search (keeping, other_rules, s)

  keeps_made_policy : (found : Option AccessPolicy) → Keeps P (Access.made_policy found)
  unfolding Access.made_policy
  keeps_made_policy none = search keeping
  keeps_made_policy (some policy) = search keeping

  keeps_policy_or_default :
      (id now : ℕ) (found : Option AccessPolicy) → Keeps P (Access.policy_or_default id now found)
  unfolding Access.policy_or_default
  keeps_policy_or_default id now none =
      search (keeping, other_rules, keeps_create_default_access, keeps_made_policy, s)
  keeps_policy_or_default id now (some policy) = search keeping

  pub keeps_evaluate :
      (super : String) (user : User) (now : ℕ) → Keeps P (Access.evaluate super user now)
  unfolding Access.evaluate
  keeps_evaluate super user now = search (keeping, other_rules, keeps_policy_or_default, s)

  keeps_stamp_or_fail : (o : Option ℕ) → Keeps P (Access.stamp_or_fail o)
  unfolding Access.stamp_or_fail
  keeps_stamp_or_fail none = search keeping
  keeps_stamp_or_fail (some n) = search keeping

  keeps_normalize_expiry : (o : Option ExpiryText) → Keeps P (Access.normalize_expiry o)
  unfolding Access.normalize_expiry
  keeps_normalize_expiry none = search keeping
  keeps_normalize_expiry (some empty) = search keeping
  keeps_normalize_expiry (some _) = keeps_stamp_or_fail _

  pub keeps_update_access :
      (super : String) (user : User) (req : UpdateUserAccessRequest) (now : ℕ)
      → Keeps P (Access.update_access super user req now)
  unfolding Access.update_access
  keeps_update_access super user req now =
      search (keeping, other_rules, keeps_normalize_expiry, keeps_evaluate, s)

  pub keeps_update_registration_defaults :
      (req : RegistrationDefaults) (now : ℕ) → Keeps P (Access.update_registration_defaults req now)
  unfolding Access.update_registration_defaults
  keeps_update_registration_defaults req now = search (keeping, other_rules, s)

  pub keeps_normalize_phone : (phone : String) → Keeps P (Sms.normalize_phone phone)
  unfolding Sms.normalize_phone
  keeps_normalize_phone phone = search keeping

  module _ (k : Packages) where
    keeps_refuse_code : (v : Verification) → Keeps P (Sms.refuse_code v)
    unfolding Sms.refuse_code
    keeps_refuse_code v = search (keeping, other_rules, s)

    keeps_check_found :
        (found : Option Verification) (code : String) (now : ℕ)
        → Keeps P (Sms.check_found k found code now)
    unfolding Sms.check_found Sms.check_code
    keeps_check_found none code now = search keeping
    keeps_check_found (some v) code now = search (keeping, other_rules, keeps_refuse_code, s)

    pub keeps_verify_code :
        (phone purpose code : String) (now : ℕ) → Keeps P (Sms.verify_code k phone purpose code now)
    unfolding Sms.verify_code
    keeps_verify_code phone purpose code now =
        search (keeping, other_rules, keeps_normalize_phone, keeps_check_found, s)
