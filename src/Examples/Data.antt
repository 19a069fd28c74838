-- ===== src/Examples/Data.antt =====
-- A small database, and packages and requests to run the operations with.
use jd_shop_server.Common.{ℕ, ◌*◌, String, true, Option, none, some, [], ◌∷◌, str_eq}
use jd_shop_server.Common.Int.{pos}
use jd_shop_server.Time.{space, no_zone, letter_t, utc, nanos, Timestamp}
use jd_shop_server.Hub.{new_control_hub}
use jd_shop_server.Model.{
  User, RefreshToken, LoginLog, failed, AccessPolicy, Role, SmsVerification, LoginRequest,
  ChangePasswordRequest, no_access,
}
use jd_shop_server.Db.{Db, World}
use jd_shop_server.Service.Packages.{Packages, AuthConfig}
use jd_shop_server.Service.Auth.{Context}
use jd_shop_server.Service.Admin.{update_user_status}
use jd_shop_server.Middleware.{RawClaims, Principal, number}

-- A hash is the text itself.
abbrev pub packages : Packages
packages = record {
  compare_hash = λ h p. str_eq h p;
  generate_hash = λ p. some p;
  hash_token = λ t. t;
  hash_code = λ c. c;
  sign = λ claims. some claims.username;
}

abbrev pub config : AuthConfig
config = record {
  super_admin_username = "root";
  allow_legacy_registration = true;
  access_token_ttl = 900;
  refresh_token_ttl = 3600;
  login_max_attempts = 2;
  login_lock_minutes = 5;
}

-- Noon of the day with number 20000.
abbrev pub noon : ℕ
noon = 1_728_043_200 * nanos

abbrev pub stamp : Timestamp
stamp = record { day = 20000; separator = space; second = 0; zone = no_zone }

abbrev pub next_day : Timestamp
next_day = record { day = 20001; separator = letter_t; second = 0; zone = utc }

abbrev pub context : Context
context = record { config = config; now = noon; random_token = some "new"; random_id = "id" }

abbrev pub ann : User
ann = record {
  id = 7;
  username = "ann";
  phone = none;
  email = none;
  password_hash = "secret";
  nickname = none;
  avatar_url = none;
  status = 1;
  last_login_at = none;
  created_at = stamp;
  updated_at = stamp;
  roles = [];
  access = no_access;
}

abbrev pub session : RefreshToken
session = record {
  id = 1;
  user_id = 7;
  token_hash = "old";
  expires_at = next_day;
  revoked = 0;
  created_at = stamp;
}

abbrev pub policy : AccessPolicy
policy = record {
  user_id = 7;
  competitor_monitor = 1;
  merchant_backend = 1;
  analysis_center = 0;
  expires_at = some next_day;
  updated_at = stamp;
}

abbrev pub a_role : ℕ → String → Role
a_role id name = record {
  id = id;
  name = name;
  description = none;
  created_at = stamp;
  permissions = [];
}

abbrev pub code_row : SmsVerification
code_row = record {
  id = 3;
  phone = "13812345678";
  purpose = "register";
  code_hash = "123456";
  sent_at = record stamp { separator = letter_t; zone = utc };
  expires_at = next_day;
  attempts = 1;
  consumed = 0;
  request_ip = "1.2.3.4";
}

-- A failed login a minute before noon.
abbrev pub failure : LoginLog
failure = record {
  user_id = some 7;
  username = "ann";
  ip_address = some "1.2.3.4";
  user_agent = none;
  result = failed;
  fail_reason = none;
  created_at = record stamp { second = 43140 };
}

abbrev pub tables : Db
tables = record {
  users = ann ∷ [];
  next_user = 8;
  auth_versions = [];
  refresh_tokens = session ∷ [];
  next_token = 2;
  login_logs = failure ∷ failure ∷ failure ∷ [];
  access_control = policy ∷ [];
  registration_defaults = [];
  roles = a_role 2 "user" ∷ a_role 1 "admin" ∷ [];
  next_role = 3;
  user_roles = [];
  role_permissions = [];
  permissions = [];
  sms_verifications = code_row ∷ [];
  next_sms = 4;
  app_versions = [];
  next_version = 1;
  announcements = [];
  next_announcement = 1;
  announcement_targets = [];
  announcement_receipts = [];
  heartbeat_logs = [];
}

abbrev pub world : World
world = record { db = tables; faults = []; hub = new_control_hub }

abbrev pub login_request : LoginRequest
login_request = record { phone = ""; username = "ann"; password = "secret" }

abbrev pub password_request : ChangePasswordRequest
password_request = record { old_password = "secret"; new_password = "other"; sms_code = "" }

abbrev pub claims : RawClaims
claims = record {
  sub = some (pos 7);
  auth_version = number (pos 1);
  username = some "ann";
  roles = some "user" ∷ [];
}

-- A parser that takes every token.
abbrev pub parse : String → Option RawClaims
parse token = some claims

abbrev pub principal : Principal
principal = record { user_id = 7; username = "ann"; roles = "user" ∷ [] }

-- What the disabling of the account leaves; the line names what the runs compute with.
unfoldable pub disabled_world : World
unfolding jd_shop_server.Db.pure jd_shop_server.Db.fail jd_shop_server.Db.◌>>=◌
    jd_shop_server.Db.when jd_shop_server.Db.reject jd_shop_server.Db.schedule
    jd_shop_server.Db.statement jd_shop_server.Db.query jd_shop_server.Db.exec
    jd_shop_server.Db.insert_row jd_shop_server.Db.control jd_shop_server.Db.transaction
    jd_shop_server.Db.ignore_error jd_shop_server.Db.attempt jd_shop_server.Db.notify
    jd_shop_server.Repository.Users.create jd_shop_server.Repository.Users.role_names
    jd_shop_server.Repository.Users.user_roles jd_shop_server.Repository.Users.with_roles
    jd_shop_server.Repository.Users.find_by_username jd_shop_server.Repository.Users.find_by_phone
    jd_shop_server.Repository.Users.find_by_id jd_shop_server.Repository.Users.ensure_version
    jd_shop_server.Repository.Users.bump_version jd_shop_server.Repository.Users.version_of
    jd_shop_server.Repository.Users.revoke_access_tokens
    jd_shop_server.Repository.Users.update_status jd_shop_server.Repository.Users.auth_version
    jd_shop_server.Repository.Users.token_state jd_shop_server.Repository.Users.update_profile
    jd_shop_server.Repository.Users.update_password
    jd_shop_server.Repository.Users.update_last_login jd_shop_server.Repository.Users.add_link
    jd_shop_server.Repository.Users.add_roles jd_shop_server.Repository.Users.assign_roles
    jd_shop_server.Repository.Tokens.create jd_shop_server.Repository.Tokens.find_by_hash
    jd_shop_server.Repository.Tokens.revoke jd_shop_server.Repository.Tokens.revoke_all_for_user
    jd_shop_server.Repository.Tokens.delete_expired jd_shop_server.Repository.LoginLogs.create
    jd_shop_server.Repository.LoginLogs.count_failures
    jd_shop_server.Repository.Access.insert_or_ignore
    jd_shop_server.Repository.Access.create_default jd_shop_server.Repository.Access.find_by_user_id
    jd_shop_server.Repository.Access.upsert jd_shop_server.Repository.Access.update
    jd_shop_server.Repository.Access.defaults_of jd_shop_server.Repository.Access.get_defaults
    jd_shop_server.Repository.Access.update_defaults jd_shop_server.Repository.Roles.linked
    jd_shop_server.Repository.Roles.role_permissions
    jd_shop_server.Repository.Roles.with_permissions jd_shop_server.Repository.Roles.find_by_id
    jd_shop_server.Repository.Roles.create jd_shop_server.Repository.Roles.update
    jd_shop_server.Repository.Roles.delete jd_shop_server.Repository.Roles.add_permissions
    jd_shop_server.Repository.Roles.set_permissions jd_shop_server.Repository.Sms.parse_timestamp
    jd_shop_server.Repository.Sms.parsed_or_fail jd_shop_server.Repository.Sms.sent_at_of
    jd_shop_server.Repository.Sms.last_sent_at jd_shop_server.Repository.Sms.last_code_hash
    jd_shop_server.Repository.Sms.count_sent_since
    jd_shop_server.Repository.Sms.count_sent_by_ip_since jd_shop_server.Repository.Sms.create
    jd_shop_server.Repository.Sms.verification_of jd_shop_server.Repository.Sms.latest
    jd_shop_server.Repository.Sms.increment_attempts jd_shop_server.Repository.Sms.consume
    jd_shop_server.Service.Access.super_admin_name
    jd_shop_server.Service.Access.create_default_access jd_shop_server.Service.Access.remaining
    jd_shop_server.Service.Access.apply_expiry jd_shop_server.Service.Access.access_of
    jd_shop_server.Service.Access.super_admin_access jd_shop_server.Service.Access.made_policy
    jd_shop_server.Service.Access.policy_or_default jd_shop_server.Service.Access.evaluate
    jd_shop_server.Service.Access.expiry_second jd_shop_server.Service.Access.stamp_or_fail
    jd_shop_server.Service.Access.normalize_expiry jd_shop_server.Service.Access.update_access
    jd_shop_server.Service.Access.update_registration_defaults
    jd_shop_server.Service.Auth.or_storage jd_shop_server.Service.Auth.registered_phone
    jd_shop_server.Service.Auth.register jd_shop_server.Service.Auth.log_login
    jd_shop_server.Service.Auth.generate_access_token
    jd_shop_server.Service.Auth.generate_refresh_token jd_shop_server.Service.Auth.login_identifier
    jd_shop_server.Service.Auth.login_account jd_shop_server.Service.Auth.issue
    jd_shop_server.Service.Auth.refuse_login jd_shop_server.Service.Auth.login_evaluated
    jd_shop_server.Service.Auth.login_found jd_shop_server.Service.Auth.login
    jd_shop_server.Service.Auth.refresh_tokens jd_shop_server.Service.Auth.refresh_user
    jd_shop_server.Service.Auth.refresh_stored jd_shop_server.Service.Auth.refresh_token
    jd_shop_server.Service.Auth.logout jd_shop_server.Service.Users.user_or_fail
    jd_shop_server.Service.Users.get_profile jd_shop_server.Service.Users.update_profile
    jd_shop_server.Service.Users.prove_identity jd_shop_server.Service.Users.change_password
    jd_shop_server.Service.Admin.ordinary_user jd_shop_server.Service.Admin.update_user_access
    jd_shop_server.Service.Admin.update_user_status jd_shop_server.Service.Admin.check_roles
    jd_shop_server.Service.Admin.assign_user_roles jd_shop_server.Service.Admin.create_role
    jd_shop_server.Service.Admin.role_or_fail jd_shop_server.Service.Admin.ordinary_role
    jd_shop_server.Service.Admin.set_if_given jd_shop_server.Service.Admin.update_role
    jd_shop_server.Service.Admin.delete_role jd_shop_server.Service.Sms.matches_phone
    jd_shop_server.Service.Sms.normalize_phone jd_shop_server.Service.Sms.refuse_code
    jd_shop_server.Service.Sms.check_code jd_shop_server.Service.Sms.check_found
    jd_shop_server.Service.Sms.verify_code jd_shop_server.Hub.new_control_hub
    jd_shop_server.Hub.channels_of jd_shop_server.Hub.subscribe jd_shop_server.Hub.unsubscribe
    jd_shop_server.Hub.offer_all jd_shop_server.Hub.offer_to jd_shop_server.Hub.publish_event
    jd_shop_server.Hub.publish jd_shop_server.Hub.offer_everywhere jd_shop_server.Hub.broadcast
    jd_shop_server.Hub.receive jd_shop_server.Time.text_lt jd_shop_server.Time.format_rfc3339
    jd_shop_server.Time.sqlite_datetime jd_shop_server.Time.unix_second
    jd_shop_server.Time.parse_rfc3339 jd_shop_server.Time.parse_datetime jd_shop_server.Common.find
    jd_shop_server.Common.update_where jd_shop_server.Common.select
    jd_shop_server.Common.delete_where jd_shop_server.Common.count_where
    jd_shop_server.Common.lookup jd_shop_server.Common.insert jd_shop_server.Common.remove
    jd_shop_server.Common.retain
disabled_world = (update_user_status "root" 7 0 noon world).1
