-- ===== src/Examples/Routes.antt =====
-- A request to the console by its super administrator.
use jd_shop_server.Common.{String, Option, some, [], ◌∷◌, str_eq, ◌≡◌, refl, Bool, find}
use jd_shop_server.Middleware.{
  RawClaims, Principal, auth, check_token, check_claims, judge, texts, require_super_admin,
  contains,
}
use jd_shop_server.Db.{query, statement, schedule}
use jd_shop_server.Repository.Users.{token_state}
use jd_shop_server.RateLimit.{RateLimiter}
use jd_shop_server.Router.{
  Request, served, admin_list_users, takes, serve, serve_public, serve_signed_in, serve_console,
  admit, public_routes, signed_in_routes, console_routes,
}
use jd_shop_server.Router.Guarded.{IsGuarded, serve-IsGuarded}
use jd_shop_server.Examples.Data.{claims, world, disabled_world}

abbrev admin_parse : String → Option RawClaims
admin_parse token = some (record claims { roles = some "admin" ∷ [] })

abbrev admin : Principal
admin = record { user_id = 7; username = "ann"; roles = "admin" ∷ [] }

abbrev idle : RateLimiter
idle = record { visitors = []; limit = 60; window = 60 }

abbrev list_users : Request
list_users = record {
  method = "GET";
  path = "/api/v1/admin/users";
  remote_addr = "1.2.3.4";
  authorization = "Bearer t";
}

abbrev equal : String → String → Bool
equal s t = str_eq s t

list_users_served :
    serve equal admin_parse "ann" list_users 0 idle world
    ≡ (idle, (served admin_list_users (some admin), world))
unfolding serve serve_public serve_signed_in serve_console admit takes find public_routes
    signed_in_routes console_routes auth check_token check_claims judge texts token_state query
    statement schedule require_super_admin contains disabled_world
list_users_served = refl

serve-IsGuarded_example :
    IsGuarded equal admin_parse "ann" list_users 0 idle world admin_list_users (some admin)
serve-IsGuarded_example =
    serve-IsGuarded equal admin_parse "ann" list_users 0 idle world list_users_served
