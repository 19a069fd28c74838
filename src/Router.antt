-- ===== src/Router.antt =====
-- internal/router/router.go: the routes, and the middleware before each. The matching of a path with
-- a pattern is an argument; a request that no route takes is answered 404 or 405.
pub mod Guarded
use jd_shop_server.Common.{
  ℕ, String, Bool, true, false, ◌&&◌, Option, none, some, List, [], ◌∷◌, ◌++◌, str_eq, find,
}
use jd_shop_server.Db.{World}
use jd_shop_server.Middleware.{
  RawClaims, Refusal, Principal, Verdict, unauthorized, authorized, auth, require_super_admin,
}
use jd_shop_server.RateLimit.{RateLimiter, handle}

-- The methods of the handlers.
pub data Endpoint : Type 0 where
  health_check auth_encryption_key auth_register auth_login : Endpoint
  auth_captcha auth_send_sms auth_refresh auth_logout : Endpoint
  announcement_public_list version_check_latest user_get_profile user_update_profile : Endpoint
  user_change_password heartbeat_report control_stream announcement_user_list : Endpoint
  announcement_mark_read announcement_acknowledge admin_list_users admin_update_user_status :
      Endpoint
  admin_assign_user_roles admin_update_user_access admin_get_registration_defaults
        admin_update_registration_defaults :
      Endpoint
  admin_list_roles admin_create_role admin_update_role admin_delete_role : Endpoint
  admin_list_permissions announcement_admin_list announcement_create announcement_update : Endpoint
  announcement_delete announcement_publish announcement_unpublish version_admin_list : Endpoint
  version_create version_update version_delete : Endpoint

pub record Route : Type 0 where
  pub method : String
  pub pattern : String
  pub endpoint : Endpoint

pub record Request : Type 0 where
  pub method : String
  pub path : String
  pub remote_addr : String
  pub authorization : String

pub data Answer : Type 0 where
  not_routed too_many_requests forbidden : Answer
  refused : Refusal → Answer
  served : Endpoint → Option Principal → Answer

abbrev route : String → String → Endpoint → Route
route method pattern endpoint = record { method = method; pattern = pattern; endpoint = endpoint }

unfoldable pub public_routes : List Route
public_routes =
    route "GET" "/api/v1/health" health_check
    ∷ route "GET" "/api/v1/auth/encryption-key" auth_encryption_key
    ∷ route "POST" "/api/v1/auth/register" auth_register
    ∷ route "POST" "/api/v1/auth/login" auth_login
    ∷ route "GET" "/api/v1/auth/captcha" auth_captcha
    ∷ route "POST" "/api/v1/auth/sms/send" auth_send_sms
    ∷ route "POST" "/api/v1/auth/refresh" auth_refresh
    ∷ route "POST" "/api/v1/auth/logout" auth_logout
    ∷ route "GET" "/api/v1/announcements" announcement_public_list
    ∷ route "GET" "/api/v1/version/latest" version_check_latest
    ∷ []

unfoldable pub signed_in_routes : List Route
signed_in_routes =
    route "GET" "/api/v1/user/profile" user_get_profile
    ∷ route "PUT" "/api/v1/user/profile" user_update_profile
    ∷ route "PUT" "/api/v1/user/password" user_change_password
    ∷ route "POST" "/api/v1/heartbeat" heartbeat_report
    ∷ route "GET" "/api/v1/control/stream" control_stream
    ∷ route "GET" "/api/v1/user/announcements" announcement_user_list
    ∷ route "POST" "/api/v1/user/announcements/{id}/read" announcement_mark_read
    ∷ route "POST" "/api/v1/user/announcements/{id}/acknowledge" announcement_acknowledge
    ∷ []

unfoldable pub console_routes : List Route
console_routes =
    route "GET" "/api/v1/admin/users" admin_list_users
    ∷ route "PUT" "/api/v1/admin/users/{id}/status" admin_update_user_status
    ∷ route "POST" "/api/v1/admin/users/{id}/roles" admin_assign_user_roles
    ∷ route "PUT" "/api/v1/admin/users/{id}/access" admin_update_user_access
    ∷ route "GET" "/api/v1/admin/registration-defaults" admin_get_registration_defaults
    ∷ route "PUT" "/api/v1/admin/registration-defaults" admin_update_registration_defaults
    ∷ route "GET" "/api/v1/admin/roles" admin_list_roles
    ∷ route "POST" "/api/v1/admin/roles" admin_create_role
    ∷ route "PUT" "/api/v1/admin/roles/{id}" admin_update_role
    ∷ route "DELETE" "/api/v1/admin/roles/{id}" admin_delete_role
    ∷ route "GET" "/api/v1/admin/permissions" admin_list_permissions
    ∷ route "GET" "/api/v1/admin/announcements" announcement_admin_list
    ∷ route "POST" "/api/v1/admin/announcements" announcement_create
    ∷ route "PUT" "/api/v1/admin/announcements/{id}" announcement_update
    ∷ route "DELETE" "/api/v1/admin/announcements/{id}" announcement_delete
    ∷ route "POST" "/api/v1/admin/announcements/{id}/publish" announcement_publish
    ∷ route "POST" "/api/v1/admin/announcements/{id}/unpublish" announcement_unpublish
    ∷ route "GET" "/api/v1/admin/versions" version_admin_list
    ∷ route "POST" "/api/v1/admin/versions" version_create
    ∷ route "PUT" "/api/v1/admin/versions/{id}" version_update
    ∷ route "DELETE" "/api/v1/admin/versions/{id}" version_delete
    ∷ []

-- The group of the console: `Auth`, then `RequireSuperAdmin`.
unfoldable pub admit : String → Endpoint → Verdict × World → Answer × World
admit super endpoint (unauthorized why, w) = (refused why, w)
admit super endpoint (authorized p, w) = elim (require_super_admin super p) [
  | true ↦ (served endpoint (some p), w)
  | false ↦ (forbidden, w)
]

unfoldable pub identify : Endpoint → Verdict × World → Answer × World
identify endpoint (unauthorized why, w) = (refused why, w)
identify endpoint (authorized p, w) = (served endpoint (some p), w)

unfoldable pub limited : Endpoint → RateLimiter × Bool → RateLimiter × Answer
limited endpoint (limiter, true) = (limiter, served endpoint none)
limited endpoint (limiter, false) = (limiter, too_many_requests)

module _ (matches : String → String → Bool) where
  unfoldable pub takes : Request → Route → Bool
  takes request r = str_eq r.method request.method && matches r.pattern request.path

  module _ (parse : String → Option RawClaims) (super : String) where
    unfoldable pub serve_console : Request → Option Route → World → Answer × World
    serve_console request none w = (not_routed, w)
    serve_console request (some r) w = admit super r.endpoint (auth parse request.authorization w)

    unfoldable pub serve_signed_in : Request → Option Route → World → Answer × World
    serve_signed_in request none w = serve_console request (find (takes request) console_routes) w
    serve_signed_in request (some r) w = identify r.endpoint (auth parse request.authorization w)

    unfoldable pub serve_public :
        Request → Option Route → ℕ → RateLimiter → World → RateLimiter × (Answer × World)
    serve_public request none now limiter w =
        (limiter, serve_signed_in request (find (takes request) signed_in_routes) w)
    serve_public request (some r) now limiter w =
        let (limiter', answer) = limited r.endpoint (handle limiter request.remote_addr now) in
        (limiter', (answer, w))

    -- The middleware in front of a handler: what it answers, or the handler that is served.
    unfoldable pub serve : Request → ℕ → RateLimiter → World → RateLimiter × (Answer × World)
    serve request now limiter w =
        serve_public request (find (takes request) public_routes) now limiter w
