-- ===== src/Repository/Stable.antt =====
-- What it takes for a property of the database to survive every statement of the repositories: that
-- it does not depend on most tables, and is kept by the statements on the versions of access tokens
-- and on refresh tokens.
pub mod Others
use jd_shop_server.Common.{
  ℕ, String, Bool, true, false, ◌≡◌, refl, Option, none, some, List, [], ◌∷◌, ◌==◌, find, is_some,
  if◌then◌else◌, Bool-cases, inl, inr,
}
use jd_shop_server.Time.{Timestamp}
use jd_shop_server.Model.{
  User, LoginLog, AccessPolicy, RegistrationDefaults, Role, SmsVerification, AppVersion,
}
use jd_shop_server.Db.{
  Db, AuthVersionRow, RegistrationDefaultsRow, Link, Keeps, M, query, exec, insert_row, attempt,
}
use jd_shop_server.Db.Laws.{
  keeps_pure, keeps_bind, keeps_when, keeps_exec, keeps_insert_row, keeps_transaction, keeps_query,
  keeping, keeps_attempt, keeps_fail,
}
use jd_shop_server.Repository.Users
use jd_shop_server.Repository.Tokens
use jd_shop_server.Repository.LoginLogs
use jd_shop_server.Repository.Access
use jd_shop_server.Repository.Sms
use jd_shop_server.Repository.Roles

pub record Stable (P : Db → Type 0) : Type 0 where
  pub users :
      (db : Db) (us : List User) (n : ℕ) → P db → P (record db { users = us; next_user = n })
  pub login_logs : (db : Db) (ls : List LoginLog) → P db → P (record db { login_logs = ls })
  pub access_control :
      (db : Db) (ps : List AccessPolicy) → P db → P (record db { access_control = ps })
  pub registration_defaults :
      (db : Db) (rs : List RegistrationDefaultsRow)
      → P db
      → P (record db { registration_defaults = rs })
  pub roles :
      (db : Db) (rs : List Role) (n : ℕ) → P db → P (record db { roles = rs; next_role = n })
  pub user_roles : (db : Db) (ls : List Link) → P db → P (record db { user_roles = ls })
  pub role_permissions : (db : Db) (ls : List Link) → P db → P (record db { role_permissions = ls })
  pub sms_verifications :
      (db : Db) (vs : List SmsVerification) (n : ℕ)
      → P db
      → P (record db { sms_verifications = vs; next_sms = n })
  pub first_version :
      (db : Db) (id : ℕ) (now : Timestamp)
      → is_some (find (Users.is_of id) db.auth_versions) ≡ false
      → P db
      → P (record db {
        auth_versions = record { user_id = id; version = 1; updated_at = now } ∷ db.auth_versions;
      })
  pub revoke_access_tokens : (id now : ℕ) → Keeps P (Users.revoke_access_tokens id now)
  pub create_token :
      (id : ℕ) (hash : String) (expiry : Timestamp) (now : ℕ)
      → Keeps P (Tokens.create id hash expiry now)
  pub revoke : (hash : String) → Keeps P (Tokens.revoke hash)
  pub revoke_all_for_user : (id : ℕ) → Keeps P (Tokens.revoke_all_for_user id)
  pub delete_expired : (now : ℕ) → Keeps P (Tokens.delete_expired now)

module _ (P : Db → Type 0) (s : Stable P) where
  keeps_users : (f : Db → List User) → Keeps P (exec (λ db. record db { users = f db }))
  keeps_users f = keeps_exec P _ (λ db. s.users db (f db) db.next_user)

  keeps_links : (f : Db → List Link) → Keeps P (exec (λ db. record db { user_roles = f db }))
  keeps_links f = keeps_exec P _ (λ db. s.user_roles db (f db))

  pub keeps_update_status : (id status now : ℕ) → Keeps P (Users.update_status id status now)
  unfolding Users.update_status
  keeps_update_status id status now = search (keeping, keeps_users, s.revoke_access_tokens)

  pub keeps_update_password :
      (id : ℕ) (hash : String) (now : ℕ) → Keeps P (Users.update_password id hash now)
  unfolding Users.update_password
  keeps_update_password id hash now = search (keeping, keeps_users, s.revoke_access_tokens)

  pub keeps_update_profile :
      (id : ℕ) (nickname email avatar : Option String) (now : ℕ)
      → Keeps P (Users.update_profile id nickname email avatar now)
  unfolding Users.update_profile
  keeps_update_profile id nickname email avatar now = keeps_users _

  pub keeps_update_last_login : (id now : ℕ) → Keeps P (Users.update_last_login id now)
  unfolding Users.update_last_login
  keeps_update_last_login id now = keeps_users _

  keeps_add_roles : (id : ℕ) (roles : List ℕ) → Keeps P (Users.add_roles id roles)
  unfolding Users.add_roles
  keeps_add_roles id [] = search keeping
  keeps_add_roles id (role ∷ roles) =
      keeps_bind P (exec _) _ (keeps_links _) (λ _. keeps_add_roles id roles)

  pub keeps_assign_roles : (id : ℕ) (roles : List ℕ) → Keeps P (Users.assign_roles id roles)
  unfolding Users.assign_roles
  keeps_assign_roles id roles = search (keeping, keeps_links, keeps_add_roles)

  pub keeps_create : (user : User) (now : ℕ) → Keeps P (Users.create user now)
  unfolding Users.create
  keeps_create user now = keeps_transaction P _ (
      keeps_bind P (insert_row _ _) _ (keeps_insert_row P _ _ (λ db _. s.users db _ _)) λ id.
        keeps_bind P (insert_row _ _) _
          (keeps_insert_row P _ _ (λ db free. s.first_version db id _ free)) (λ _. keeps_pure P id))

  pub keeps_user_roles : (id : ℕ) → Keeps P (Users.user_roles id)
  unfolding Users.user_roles
  keeps_user_roles id = keeps_query P _

  keeps_with_roles : (found : Option User) → Keeps P (Users.with_roles found)
  unfolding Users.with_roles
  keeps_with_roles none = search keeping
  keeps_with_roles (some user) = search (keeping, keeps_user_roles)

  pub keeps_find_by_id : (id : ℕ) → Keeps P (Users.find_by_id id)
  unfolding Users.find_by_id
  keeps_find_by_id id = search (keeping, keeps_with_roles)

  pub keeps_find_by_phone : (phone : String) → Keeps P (Users.find_by_phone phone)
  unfolding Users.find_by_phone
  keeps_find_by_phone phone = search (keeping, keeps_with_roles)

  pub keeps_find_by_username : (name : String) → Keeps P (Users.find_by_username name)
  unfolding Users.find_by_username
  keeps_find_by_username name = search (keeping, keeps_with_roles)

  pub keeps_auth_version : (id : ℕ) → Keeps P (Users.auth_version id)
  unfolding Users.auth_version
  keeps_auth_version id = keeps_query P _

  pub keeps_find_by_hash : (hash : String) → Keeps P (Tokens.find_by_hash hash)
  unfolding Tokens.find_by_hash
  keeps_find_by_hash hash = keeps_query P _

  pub keeps_create_log : (log : LoginLog) (now : ℕ) → Keeps P (LoginLogs.create log now)
  unfolding LoginLogs.create
  keeps_create_log log now = keeps_exec P _ (λ db. s.login_logs db _)

  pub keeps_count_failures :
      (name ip : String) (minutes now : ℕ) → Keeps P (LoginLogs.count_failures name ip minutes now)
  unfolding LoginLogs.count_failures
  keeps_count_failures name ip minutes now = keeps_query P _

pub ruleset user_rules = (
  keeps_update_status, keeps_update_password, keeps_update_profile, keeps_update_last_login,
  keeps_assign_roles, keeps_create, keeps_user_roles, keeps_find_by_id, keeps_find_by_phone,
  keeps_find_by_username, keeps_auth_version, keeps_find_by_hash, keeps_create_log,
  keeps_count_failures,
)
