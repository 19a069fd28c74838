-- ===== src/Examples/Accounts.antt =====
-- Tokens and sessions of an account.
use jd_shop_server.Common.{
  ℕ, ◌≡◌, ◌≢◌, refl, List, [], ◌∷◌, some, none, true, false, arith, drop_chars, count_where,
}
use jd_shop_server.Common.Int.{positive}
use jd_shop_server.Time.{format_rfc3339}
use jd_shop_server.Model.{RefreshResponse, LoginResponse, AccountAccess, active}
use jd_shop_server.Db.{ok, World}
use jd_shop_server.Middleware.{
  check_token, check_claims, judge, texts, RawClaims, authorized, auth, bearer, claimed_version,
}
use jd_shop_server.Middleware.Authentic.{Admits, auth_authorized}
use jd_shop_server.Repository.LoginLogs.{is_counted, minutes_before}
use jd_shop_server.Repository.LoginLogs.Window.{count_where-NoLaterDay, NoLaterDay}
use jd_shop_server.Service.Auth.{refresh_token, logout, Context}
use jd_shop_server.Service.Auth.Sessions.{Refreshable, refresh_token-ok}
use jd_shop_server.Service.Auth.Rotation.{refresh_token_once, logout_final}
use jd_shop_server.Service.Auth.Logins.{Accepted, login-ok}
use jd_shop_server.Service.Users.{change_password}
use jd_shop_server.Service.Stable.Histories.{Operation, perform_all, sets_status, logs_in}
use jd_shop_server.Service.Revocation.{disabled_tokens_refused, old_tokens_refused}
use jd_shop_server.Service.Revocation.Refresh.{disabled_sessions_final}
use jd_shop_server.Examples.Data.{
  packages, context, world, tables, claims, parse, principal, login_request, password_request, noon,
  disabled_world, session, failure, next_day,
}
use text.Mathlib.Text.{starts_with}

-- The account enabled again, and a login.
abbrev enabling : List (Operation × Context)
enabling = (sets_status 7 1, context) ∷ (logs_in login_request "" "", context) ∷ []

disabled_tokens_refused_example :
    (auth parse "Bearer t" (perform_all packages enabling disabled_world)).0 ≢ authorized principal
unfolding disabled_world
disabled_tokens_refused_example =
    disabled_tokens_refused packages parse "Bearer t" claims refl "root" 7 noon 1 world
      {w' = disabled_world} enabling principal refl refl refl (omega arith)

unfoldable changed_world : World
unfolding disabled_world
changed_world = (change_password packages context 7 password_request world).1

old_tokens_refused_example :
    (auth parse "Bearer t" (perform_all packages enabling changed_world)).0 ≢ authorized principal
unfolding changed_world
old_tokens_refused_example =
    old_tokens_refused packages parse "Bearer t" claims refl context password_request 7 1 world
      {w' = changed_world} enabling principal refl refl refl (omega arith)

abbrev full_access : AccountAccess
full_access = record {
  allowed = true;
  reason = active;
  expires_at = some next_day;
  remaining_seconds = 43200;
  lease_seconds = 600;
  modules = record { competitor_monitor = true; merchant_backend = true; analysis_center = false };
}

abbrev refreshed_response : RefreshResponse
refreshed_response = record {
  access_token = "ann";
  refresh_token = "new";
  expires_in = 900;
  access = full_access;
}

unfoldable refreshed_world : World
unfolding disabled_world
refreshed_world = (refresh_token packages context "old" world).1

refresh_token-ok_example :
    Refreshable "old" noon tables × (refreshed_response.access.allowed ≡ true)
unfolding refreshed_world
refresh_token-ok_example =
    refresh_token-ok packages context "old" world {r = refreshed_response} {w' = refreshed_world}
      refl

refresh_token_once_example :
    refresh_token packages context "old" (perform_all packages enabling refreshed_world)
    ≢ (ok refreshed_response, world)
unfolding refreshed_world
refresh_token_once_example =
    refresh_token_once packages context context "old" world {r = refreshed_response}
      {w' = refreshed_world} enabling refl refl

unfoldable logged_out_world : World
unfolding disabled_world
logged_out_world = (logout packages context "old" world).1

logout_final_example :
    refresh_token packages context "old" (perform_all packages enabling logged_out_world)
    ≢ (ok refreshed_response, world)
unfolding logged_out_world
logout_final_example =
    logout_final packages context context "old" session world {w' = logged_out_world} enabling refl
      refl refl

disabled_sessions_final_example :
    refresh_token packages context "old" (perform_all packages enabling disabled_world)
    ≢ (ok refreshed_response, world)
unfolding disabled_world
disabled_sessions_final_example =
    disabled_sessions_final packages context "root" "old" noon session world {w' = disabled_world}
      enabling refl (omega arith) refl

abbrev login_response : LoginResponse
login_response = record {
  access_token = "ann";
  refresh_token = "new";
  expires_in = 900;
  user = record {
    id = 7;
    username = "ann";
    phone = none;
    nickname = "";
    roles = [];
    status = 1;
    access = full_access;
  };
}

login-ok_example : Accepted packages context login_request "1.2.3.4" tables login_response
unfolding disabled_world
login-ok_example =
    login-ok packages context login_request "1.2.3.4" "" world {r = login_response} refl

auth_authorized_example :
    (starts_with "Bearer t" bearer ≡ true)
    × (c : RawClaims) × (v : ℕ) × (parse (drop_chars 7 "Bearer t") ≡ some c)
    × (positive c.sub ≡ some 7)
    × (claimed_version c.auth_version ≡ some v)
    × Admits tables 7 v
unfolding disabled_world auth check_token check_claims judge texts
auth_authorized_example = auth_authorized parse "Bearer t" world {p = principal} refl

failure-NoLaterDay : NoLaterDay (minutes_before 5 noon) failure
unfolding disabled_world
failure-NoLaterDay = (1_728_043_140_000_000_000, refl, omega arith)

-- Three failures within the five minutes before noon, none of them counted.
count_where-NoLaterDay_example :
    count_where
      (is_counted (format_rfc3339 (minutes_before 5 noon)) "ann" "1.2.3.4")
      (failure ∷ failure ∷ failure ∷ [])
    ≡ 0
unfolding disabled_world
count_where-NoLaterDay_example =
    count_where-NoLaterDay 5 noon "ann" "1.2.3.4" (failure ∷ failure ∷ failure ∷ [])
      (failure-NoLaterDay, (failure-NoLaterDay, (failure-NoLaterDay, tt)))
