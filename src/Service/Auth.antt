-- ===== src/Service/Auth.antt =====
-- internal/service/auth.go: registration, login, and the rotation of refresh tokens. `now` is the
-- instant of the request; the random refresh token and token id are arguments, `none` where the
-- source of randomness fails.
pub mod Sessions
pub mod Rotation
pub mod Logins
use jd_shop_server.Common.{
  ℕ, ◌+◌, ◌*◌, ◌/◌, String, Bool, true, false, not, ◌&&◌, ◌||◌, Option, none, some, List, [], ◌∷◌,
  ◌==◌, str_eq, leb, if◌then◌else◌,
}
use jd_shop_server.Time.{Timestamp, nanos, format_rfc3339, parse_rfc3339, is_after}
use jd_shop_server.Model.{
  AccountAccess, Reason, active, disabled, expired, User, RefreshToken, LoginLog, LoginResult,
  success, failed, locked, RegisterRequest, LoginRequest, LoginResponse, RefreshResponse, no_access,
}
use jd_shop_server.Db.{
  storage, invalid_credentials, account_disabled, account_expired, too_many_attempts, token_revoked,
  token_expired, username_taken, phone_taken, phone_required, M, pure, fail, ◌>>=◌, ◌>>◌, reject,
  ignore_error, attempt, Error,
}
use jd_shop_server.Repository.Users
use jd_shop_server.Repository.Tokens
use jd_shop_server.Repository.LoginLogs
use jd_shop_server.Service.Packages.{AuthConfig, Claims, Packages}
use jd_shop_server.Service.Access.{create_default_access, evaluate}
use jd_shop_server.Service.Sms.{normalize_phone, verify_code, purpose_register}

abbrev is_blank_text : String → Bool
is_blank_text s = str_eq s ""

-- A pointer to a text that is not "".
abbrev non_blank : String → Option String
non_blank s = if is_blank_text s then none else some s

abbrev is_present {ℓ} : {A : Type ℓ} → Option A → Bool
is_present none = false
is_present (some _) = true

abbrev pub is_expired : Reason → Bool
is_expired expired = true
is_expired _ = false

-- A value that the random source or a package yields, or its error.
unfoldable pub or_storage : {A : Type 0} → Option A → M A
or_storage none = fail storage
or_storage (some a) = pure a

-- What arrives with a request: the configuration, the instant, and the random values drawn.
pub record Context : Type 0 where
  pub config : AuthConfig
  pub now : ℕ
  pub random_token : Option String
  pub random_id : String

-- `err != nil || now.After(expiry)`.
abbrev pub is_stale : Option ℕ → ℕ → Bool
is_stale none now = true
is_stale (some expiry) now = is_after now expiry

module _ (k : Packages) (c : Context) where
  -- The identifier of a registration and its phone, the code of the phone verified.
  unfoldable pub registered_phone : RegisterRequest → M (String × Option String)
  registered_phone req = if is_blank_text req.phone then pure (req.username, none) else do
    number ← normalize_phone req.phone
    existing ← Users.find_by_phone number
    reject (is_present existing) phone_taken
    verify_code k number purpose_register req.sms_code c.now
    pure (number, some number)

  unfoldable pub register : RegisterRequest → M User
  register req = do
    reject (is_blank_text req.phone && not c.config.allow_legacy_registration) phone_required
    named ← registered_phone req
    existing ← Users.find_by_username named.0
    reject (is_present existing) username_taken
    hash ← or_storage (k.generate_hash req.password)
    let user : User = record {
      id = 0;
      username = named.0;
      phone = named.1;
      email = non_blank req.email;
      password_hash = hash;
      nickname = non_blank req.nickname;
      avatar_url = none;
      status = 1;
      last_login_at = none;
      created_at = format_rfc3339 0;
      updated_at = format_rfc3339 0;
      roles = [];
      access = no_access;
    }
    id ← Users.create user c.now
    Users.assign_roles id (2 ∷ [])
    create_default_access id c.now
    pure (record user { id = id })

  unfoldable pub log_login :
      Option ℕ → String → String → String → LoginResult → String → M (Unit {0})
  log_login user_id username ip user_agent result reason = ignore_error (
      LoginLogs.create
        (record {
          user_id = user_id;
          username = username;
          ip_address = some ip;
          user_agent = some user_agent;
          result = result;
          fail_reason = non_blank reason;
          created_at = format_rfc3339 0;
        })
        c.now)

  unfoldable pub generate_access_token : User → List String → M String
  generate_access_token user roles = do
    version ← Users.auth_version user.id
    or_storage (
        k.sign (record {
          sub = user.id;
          username = user.username;
          nickname = user.nickname;
          roles = roles;
          auth_version = version;
          iat = c.now / nanos;
          exp = c.now / nanos + c.config.access_token_ttl;
          jti = c.random_id;
        }))

  unfoldable pub generate_refresh_token : ℕ → M String
  generate_refresh_token user_id = do
    token ← or_storage c.random_token
    _ ←
        Tokens.create user_id (k.hash_token token)
          (format_rfc3339 (c.now + c.config.refresh_token_ttl * nanos)) c.now
    pure token

  unfoldable pub login_identifier : LoginRequest → M String
  login_identifier req =
      if is_blank_text req.phone then pure req.username else normalize_phone req.phone

  unfoldable pub login_account : LoginRequest → String → M (Option User)
  login_account req identifier =
      if is_blank_text req.phone
      then Users.find_by_username identifier
      else Users.find_by_phone identifier

  abbrev text_or_empty : Option String → String
  text_or_empty none = ""
  text_or_empty (some s) = s

  -- The tokens of a login that has passed every check.
  unfoldable pub issue : LoginRequest → String → String → User → AccountAccess → M LoginResponse
  issue req ip user_agent user access = do
    log_login (some user.id) req.username ip user_agent success ""
    ignore_error (Users.update_last_login user.id c.now)
    roles ← attempt [] (Users.user_roles user.id)
    access_token ← generate_access_token user roles
    refresh_token ← generate_refresh_token user.id
    pure (record {
      access_token = access_token;
      refresh_token = refresh_token;
      expires_in = c.config.access_token_ttl;
      user = record {
        id = user.id;
        username = user.username;
        phone = user.phone;
        nickname = text_or_empty user.nickname;
        roles = roles;
        status = user.status;
        access = access;
      };
    })

  -- A refusal is logged, whether or not that succeeds.
  unfoldable pub refuse_login :
      {A : Type 0} → Option ℕ → String → String → String → LoginResult → String → Error → M A
  refuse_login user_id identifier ip user_agent result reason e = do
    log_login user_id identifier ip user_agent result reason
    fail e

  unfoldable pub login_evaluated : LoginRequest → String → String → String → User → M LoginResponse
  login_evaluated req identifier ip user_agent user = do
    access ← evaluate c.config.super_admin_username user c.now
    if not access.allowed && is_expired access.reason
        then refuse_login (some user.id) identifier ip user_agent failed "account expired"
            account_expired
        else issue req ip user_agent user access

  unfoldable pub login_found :
      LoginRequest → String → String → String → Option User → M LoginResponse
  login_found req identifier ip user_agent none =
      refuse_login none identifier ip user_agent failed "user not found" invalid_credentials
  login_found req identifier ip user_agent (some user) =
      if not (user.status == 1)
      then refuse_login (some user.id) identifier ip user_agent failed "account disabled"
          account_disabled
      else if not (k.compare_hash user.password_hash req.password)
      then refuse_login (some user.id) identifier ip user_agent failed "wrong password"
          invalid_credentials
      else login_evaluated req identifier ip user_agent user

  unfoldable pub login : LoginRequest → String → String → M LoginResponse
  login req ip user_agent = do
    identifier ← login_identifier req
    found ← login_account req identifier
    failures ← LoginLogs.count_failures identifier ip c.config.login_lock_minutes c.now
    if leb c.config.login_max_attempts failures
        then refuse_login none identifier ip user_agent locked "too many attempts" too_many_attempts
        else login_found req identifier ip user_agent found

  unfoldable pub refresh_tokens : User → AccountAccess → M RefreshResponse
  refresh_tokens user access = do
    roles ← attempt [] (Users.user_roles user.id)
    access_token ← generate_access_token user roles
    new_token ← generate_refresh_token user.id
    pure (record {
      access_token = access_token;
      refresh_token = new_token;
      expires_in = c.config.access_token_ttl;
      access = access;
    })

  unfoldable pub refresh_user : Option User → M RefreshResponse
  refresh_user none = fail token_revoked
  refresh_user (some user) = do
    reject (not (user.status == 1)) account_disabled
    access ← evaluate c.config.super_admin_username user c.now
    reject (not access.allowed && is_expired access.reason) account_expired
    reject (not access.allowed) account_disabled
    refresh_tokens user access

  unfoldable pub refresh_stored : String → Option RefreshToken → M RefreshResponse
  refresh_stored hash none = fail token_revoked
  refresh_stored hash (some stored) =
      if stored.revoked == 1
      then fail token_revoked
      else if is_stale (parse_rfc3339 stored.expires_at) c.now
      then (do ignore_error (Tokens.revoke hash); fail token_expired)
      else do
        ignore_error (Tokens.revoke hash)
        user ← attempt none (Users.find_by_id stored.user_id)
        refresh_user user

  unfoldable pub refresh_token : String → M RefreshResponse
  refresh_token token = do
    let hash = k.hash_token token
    stored ← Tokens.find_by_hash hash
    refresh_stored hash stored

  unfoldable pub logout : String → M (Unit {0})
  logout token = if is_blank_text token then pure tt else Tokens.revoke (k.hash_token token)
