-- ===== src/Service/Stable/Auth.antt =====
-- Registration, login, tokens, profiles and passwords keep what is stable.
use jd_shop_server.Common.{ℕ, String, Option, none, some, List}
use jd_shop_server.Model.{
  User, AccountAccess, RefreshToken, LoginResult, RegisterRequest, LoginRequest,
  UpdateProfileRequest, ChangePasswordRequest,
}
use jd_shop_server.Db.{Db, Error, Keeps}
use jd_shop_server.Db.Laws.{keeping}
use jd_shop_server.Repository.Stable.{Stable, user_rules}
use jd_shop_server.Service.Packages.{Packages}
use jd_shop_server.Service.Auth
use jd_shop_server.Service.Auth.{Context}
use jd_shop_server.Service.Users
use jd_shop_server.Service.Stable.{
  keeps_create_default_access, keeps_evaluate, keeps_normalize_phone, keeps_verify_code,
}

module _ (P : Db → Type 0) (s : Stable P) (k : Packages) (c : Context) where
  pub keeps_or_storage : {A : Type 0} (o : Option A) → Keeps P (Auth.or_storage o)
  unfolding Auth.or_storage
  keeps_or_storage none = search keeping
  keeps_or_storage (some a) = search keeping

  keeps_registered_phone : (req : RegisterRequest) → Keeps P (Auth.registered_phone k c req)
  unfolding Auth.registered_phone
  keeps_registered_phone req =
      search (keeping, user_rules, keeps_normalize_phone, keeps_verify_code, s) depth 8

  pub keeps_register : (req : RegisterRequest) → Keeps P (Auth.register k c req)
  unfolding Auth.register
  keeps_register req =
      search
        (
          keeping, user_rules, keeps_registered_phone, keeps_or_storage,
          keeps_create_default_access, s,
        )
        depth 12

  keeps_log_login :
      (id : Option ℕ) (name ip agent : String) (result : LoginResult) (reason : String)
      → Keeps P (Auth.log_login k c id name ip agent result reason)
  unfolding Auth.log_login
  keeps_log_login id name ip agent result reason = search (keeping, user_rules, s)

  keeps_generate_access_token :
      (user : User) (roles : List String) → Keeps P (Auth.generate_access_token k c user roles)
  unfolding Auth.generate_access_token
  keeps_generate_access_token user roles = search (keeping, user_rules, keeps_or_storage, s)

  keeps_generate_refresh_token : (id : ℕ) → Keeps P (Auth.generate_refresh_token k c id)
  unfolding Auth.generate_refresh_token
  keeps_generate_refresh_token id = search (keeping, keeps_or_storage, s.create_token)

  keeps_issue :
      (req : LoginRequest) (ip agent : String) (user : User) (access : AccountAccess)
      → Keeps P (Auth.issue k c req ip agent user access)
  unfolding Auth.issue
  keeps_issue req ip agent user access =
      search
        (
          keeping, user_rules, keeps_log_login, keeps_generate_access_token,
          keeps_generate_refresh_token, s,
        )
        depth 12

  keeps_refuse_login :
      {A : Type 0} (id : Option ℕ) (name ip agent : String) (result : LoginResult) (reason : String)
      (e : Error)
      → Keeps P (Auth.refuse_login k c {A = A} id name ip agent result reason e)
  unfolding Auth.refuse_login
  keeps_refuse_login id name ip agent result reason e = search (keeping, keeps_log_login)

  keeps_login_found :
      (req : LoginRequest) (name ip agent : String) (found : Option User)
      → Keeps P (Auth.login_found k c req name ip agent found)
  unfolding Auth.login_found Auth.login_evaluated
  keeps_login_found req name ip agent none = search keeps_refuse_login
  keeps_login_found req name ip agent (some user) =
      search (keeping, keeps_refuse_login, keeps_evaluate, keeps_issue, s) depth 8

  keeps_login_identifier : (req : LoginRequest) → Keeps P (Auth.login_identifier k c req)
  unfolding Auth.login_identifier
  keeps_login_identifier req = search (keeping, keeps_normalize_phone, s)

  keeps_login_account :
      (req : LoginRequest) (name : String) → Keeps P (Auth.login_account k c req name)
  unfolding Auth.login_account
  keeps_login_account req name = search (keeping, user_rules, s)

  pub keeps_login : (req : LoginRequest) (ip agent : String) → Keeps P (Auth.login k c req ip agent)
  unfolding Auth.login
  keeps_login req ip agent =
      search
        (
          keeping, user_rules, keeps_login_identifier, keeps_login_account, keeps_refuse_login,
          keeps_login_found, s,
        )
        depth 8

  keeps_refresh_tokens :
      (user : User) (access : AccountAccess) → Keeps P (Auth.refresh_tokens k c user access)
  unfolding Auth.refresh_tokens
  keeps_refresh_tokens user access =
      search (keeping, user_rules, keeps_generate_access_token, keeps_generate_refresh_token, s)
        depth 8

  pub keeps_refresh_user : (found : Option User) → Keeps P (Auth.refresh_user k c found)
  unfolding Auth.refresh_user
  keeps_refresh_user none = search keeping
  keeps_refresh_user (some user) = search (keeping, keeps_evaluate, keeps_refresh_tokens, s) depth 8

  keeps_refresh_stored :
      (hash : String) (found : Option RefreshToken) → Keeps P (Auth.refresh_stored k c hash found)
  unfolding Auth.refresh_stored
  keeps_refresh_stored hash none = search keeping
  keeps_refresh_stored hash (some stored) =
      search (keeping, user_rules, keeps_refresh_user, s, s.revoke) depth 8

  pub keeps_refresh_token : (token : String) → Keeps P (Auth.refresh_token k c token)
  unfolding Auth.refresh_token
  keeps_refresh_token token = search (keeping, user_rules, keeps_refresh_stored, s)

  pub keeps_logout : (token : String) → Keeps P (Auth.logout k c token)
  unfolding Auth.logout
  keeps_logout token = search (keeping, s.revoke)

  pub keeps_user_or_fail : (found : Option User) → Keeps P (Users.user_or_fail found)
  unfolding Users.user_or_fail
  keeps_user_or_fail none = search keeping
  keeps_user_or_fail (some user) = search keeping

  pub keeps_update_profile :
      (id : ℕ) (req : UpdateProfileRequest) → Keeps P (Users.update_profile k c id req)
  unfolding Users.update_profile Users.get_profile
  keeps_update_profile id req =
      search (keeping, user_rules, keeps_user_or_fail, keeps_evaluate, s) depth 8

  pub keeps_prove_identity :
      (user : User) (req : ChangePasswordRequest) (phone : Option String)
      → Keeps P (Users.prove_identity k c user req phone)
  unfolding Users.prove_identity
  keeps_prove_identity user req none = search keeping
  keeps_prove_identity user req (some phone) = search (keeps_verify_code, s)

  pub keeps_change_password :
      (id : ℕ) (req : ChangePasswordRequest) → Keeps P (Users.change_password k c id req)
  unfolding Users.change_password
  keeps_change_password id req =
      search
        (
          keeping, user_rules, keeps_user_or_fail, keeps_prove_identity, keeps_or_storage, s,
          s.revoke_all_for_user,
        )
        depth 8
