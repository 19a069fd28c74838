-- ===== src/Service/Stable/Histories.antt =====
-- Histories of requests: any operations of the services, in any order, each at its own instant,
-- with any statements failing.
use jd_shop_server.Common.{ℕ, String, List, [], ◌∷◌}
use jd_shop_server.Model.{
  RegisterRequest, LoginRequest, UpdateUserAccessRequest, UpdateProfileRequest,
  ChangePasswordRequest, CreateRoleRequest, UpdateRoleRequest, RegistrationDefaults,
}
use jd_shop_server.Db.{Db, World}
use jd_shop_server.Repository.Stable.{Stable}
use jd_shop_server.Repository.Tokens.{delete_expired}
use jd_shop_server.Service.Packages.{Packages}
use jd_shop_server.Service.Access
use jd_shop_server.Service.Auth
use jd_shop_server.Service.Auth.{Context}
use jd_shop_server.Service.Users
use jd_shop_server.Service.Admin
use jd_shop_server.Service.Stable.{keeps_update_registration_defaults}
use jd_shop_server.Service.Stable.Auth.{
  keeps_register, keeps_login, keeps_refresh_token, keeps_logout, keeps_update_profile,
  keeps_change_password,
}
use jd_shop_server.Service.Stable.Admin.{
  keeps_update_user_access, keeps_update_user_status, keeps_assign_user_roles, keeps_create_role,
  keeps_update_role, keeps_delete_role,
}

pub data Operation : Type 0 where
  registers : RegisterRequest → Operation
  logs_in : LoginRequest → String → String → Operation
  refreshes : String → Operation
  logs_out : String → Operation
  updates_profile : ℕ → UpdateProfileRequest → Operation
  changes_password : ℕ → ChangePasswordRequest → Operation
  sets_access : ℕ → UpdateUserAccessRequest → Operation
  sets_status : ℕ → ℕ → Operation
  assigns_roles : ℕ → List ℕ → Operation
  creates_role : CreateRoleRequest → Operation
  updates_role : ℕ → UpdateRoleRequest → Operation
  deletes_role : ℕ → Operation
  sets_defaults : RegistrationDefaults → Operation
  deletes_expired : Operation

module _ (k : Packages) where
  -- What an operation leaves.
  unfoldable pub perform : Operation → Context → World → World
  perform (registers req) c w = (Auth.register k c req w).1
  perform (logs_in req ip agent) c w = (Auth.login k c req ip agent w).1
  perform (refreshes token) c w = (Auth.refresh_token k c token w).1
  perform (logs_out token) c w = (Auth.logout k c token w).1
  perform (updates_profile id req) c w = (Users.update_profile k c id req w).1
  perform (changes_password id req) c w = (Users.change_password k c id req w).1
  perform (sets_access id req) c w =
      (Admin.update_user_access c.config.super_admin_username id req c.now w).1
  perform (sets_status id status) c w =
      (Admin.update_user_status c.config.super_admin_username id status c.now w).1
  perform (assigns_roles id roles) c w =
      (Admin.assign_user_roles c.config.super_admin_username id roles w).1
  perform (creates_role req) c w = (Admin.create_role req c.now w).1
  perform (updates_role id req) c w = (Admin.update_role id req w).1
  perform (deletes_role id) c w = (Admin.delete_role id w).1
  perform (sets_defaults req) c w = (Access.update_registration_defaults req c.now w).1
  perform deletes_expired c w = (delete_expired c.now w).1

  unfoldable pub perform_all : List (Operation × Context) → World → World
  perform_all [] w = w
  perform_all ((op, c) ∷ ops) w = perform_all ops (perform op c w)

  module _ (P : Db → Type 0) (s : Stable P) where
    perform-Stable : (op : Operation) (c : Context) (w : World) → P w.db → P (perform op c w).db
    unfolding perform
    perform-Stable (registers req) c = (keeps_register P s k c req).kept
    perform-Stable (logs_in req ip agent) c = (keeps_login P s k c req ip agent).kept
    perform-Stable (refreshes token) c = (keeps_refresh_token P s k c token).kept
    perform-Stable (logs_out token) c = (keeps_logout P s k c token).kept
    perform-Stable (updates_profile id req) c = (keeps_update_profile P s k c id req).kept
    perform-Stable (changes_password id req) c = (keeps_change_password P s k c id req).kept
    perform-Stable (sets_access id req) c = (keeps_update_user_access P s _ id req c.now).kept
    perform-Stable (sets_status id status) c = (keeps_update_user_status P s _ id status c.now).kept
    perform-Stable (assigns_roles id roles) c = (keeps_assign_user_roles P s _ id roles).kept
    perform-Stable (creates_role req) c = (keeps_create_role P s req c.now).kept
    perform-Stable (updates_role id req) c = (keeps_update_role P s id req).kept
    perform-Stable (deletes_role id) c = (keeps_delete_role P s id).kept
    perform-Stable (sets_defaults req) c = (keeps_update_registration_defaults P s req c.now).kept
    perform-Stable deletes_expired c = (s.delete_expired c.now).kept

    -- What is stable survives every history.
    pub perform_all-Stable :
        (ops : List (Operation × Context)) (w : World) → P w.db → P (perform_all ops w).db
    unfolding perform_all
    perform_all-Stable [] w p = p
    perform_all-Stable ((op, c) ∷ ops) w p =
        perform_all-Stable ops (perform op c w) (perform-Stable op c w p)
