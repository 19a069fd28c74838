-- ===== src/Repository/Stable/Others.antt =====
-- The statements on access control, codes, roles and tokens keep what is stable.
use jd_shop_server.Common.{ℕ, String, Bool, Option, none, some, List, [], ◌∷◌}
use jd_shop_server.Model.{AccessPolicy, RegistrationDefaults, Role, SmsVerification}
use jd_shop_server.Db.{Db, RegistrationDefaultsRow, Keeps, exec, Link}
use jd_shop_server.Db.Laws.{keeping, keeps_bind, keeps_exec, keeps_insert_row, keeps_query}
use jd_shop_server.Repository.Access
use jd_shop_server.Repository.Sms
use jd_shop_server.Repository.Roles
use jd_shop_server.Repository.Stable.{Stable}

module _ (P : Db → Type 0) (s : Stable P) where
  pub keeps_create_default :
      (id : ℕ) (defaults : RegistrationDefaults) (now : ℕ)
      → Keeps P (Access.create_default id defaults now)
  unfolding Access.create_default
  keeps_create_default id defaults now = keeps_exec P _ (λ db. s.access_control db _)

  pub keeps_find_by_user_id : (id : ℕ) → Keeps P (Access.find_by_user_id id)
  unfolding Access.find_by_user_id
  keeps_find_by_user_id id = keeps_query P _

  pub keeps_update_access : (p : AccessPolicy) → Keeps P (Access.update p)
  unfolding Access.update
  keeps_update_access p = keeps_exec P _ (λ db. s.access_control db _)

  keeps_defaults_of : (rows : List RegistrationDefaultsRow) → Keeps P (Access.defaults_of rows)
  unfolding Access.defaults_of
  keeps_defaults_of [] = search keeping
  keeps_defaults_of (r ∷ rows) = search keeping

  pub keeps_get_defaults : Keeps P Access.get_defaults
  unfolding Access.get_defaults
  keeps_get_defaults = search (keeping, keeps_defaults_of)

  pub keeps_update_defaults :
      (req : RegistrationDefaults) (now : ℕ) → Keeps P (Access.update_defaults req now)
  unfolding Access.update_defaults
  keeps_update_defaults req now = keeps_exec P _ (λ db. s.registration_defaults db _)

  keeps_parsed_or_fail : (o : Option ℕ) → Keeps P (Sms.parsed_or_fail o)
  unfolding Sms.parsed_or_fail
  keeps_parsed_or_fail none = search keeping
  keeps_parsed_or_fail (some n) = search keeping

  keeps_verification_of : (found : Option SmsVerification) → Keeps P (Sms.verification_of found)
  unfolding Sms.verification_of
  keeps_verification_of none = search keeping
  keeps_verification_of (some v) = search (keeping, keeps_parsed_or_fail)

  pub keeps_latest : (phone purpose : String) → Keeps P (Sms.latest phone purpose)
  unfolding Sms.latest
  keeps_latest phone purpose = search (keeping, keeps_verification_of)

  pub keeps_increment_attempts : (id : ℕ) (b : Bool) → Keeps P (Sms.increment_attempts id b)
  unfolding Sms.increment_attempts
  keeps_increment_attempts id b = keeps_exec P _ (λ db. s.sms_verifications db _ db.next_sms)

  pub keeps_consume : (id : ℕ) → Keeps P (Sms.consume id)
  unfolding Sms.consume
  keeps_consume id = keeps_exec P _ (λ db. s.sms_verifications db _ db.next_sms)

  keeps_with_permissions : (found : Option Role) → Keeps P (Roles.with_permissions found)
  unfolding Roles.with_permissions Roles.role_permissions
  keeps_with_permissions none = search keeping
  keeps_with_permissions (some role) = search keeping

  pub keeps_find_role : (id : ℕ) → Keeps P (Roles.find_by_id id)
  unfolding Roles.find_by_id
  keeps_find_role id = search (keeping, keeps_with_permissions)

  pub keeps_create_role :
      (name : String) (description : Option String) (now : ℕ)
      → Keeps P (Roles.create name description now)
  unfolding Roles.create
  keeps_create_role name description now = keeps_insert_row P _ _ (λ db _. s.roles db _ _)

  pub keeps_update_role :
      (id : ℕ) (name description : Option String) → Keeps P (Roles.update id name description)
  unfolding Roles.update
  keeps_update_role id name description = keeps_insert_row P _ _ (λ db _. s.roles db _ db.next_role)

  pub keeps_delete_role : (id : ℕ) → Keeps P (Roles.delete id)
  unfolding Roles.delete
  keeps_delete_role id = keeps_exec P _ (λ db. s.roles db _ db.next_role)

  keeps_permissions :
      (f : Db → List Link) → Keeps P (exec (λ db. record db { role_permissions = f db }))
  keeps_permissions f = keeps_exec P _ (λ db. s.role_permissions db (f db))

  keeps_add_permissions : (id : ℕ) (ps : List ℕ) → Keeps P (Roles.add_permissions id ps)
  unfolding Roles.add_permissions
  keeps_add_permissions id [] = search keeping
  keeps_add_permissions id (q ∷ qs) =
      keeps_bind P (exec _) _ (keeps_permissions _) (λ _. keeps_add_permissions id qs)

  pub keeps_set_permissions : (id : ℕ) (ps : List ℕ) → Keeps P (Roles.set_permissions id ps)
  unfolding Roles.set_permissions
  keeps_set_permissions id ps = search (keeping, keeps_permissions, keeps_add_permissions)

pub ruleset other_rules = (
  keeps_create_default, keeps_find_by_user_id, keeps_update_access, keeps_get_defaults,
  keeps_update_defaults, keeps_latest, keeps_increment_attempts, keeps_consume, keeps_find_role,
  keeps_create_role, keeps_update_role, keeps_delete_role, keeps_set_permissions,
)
