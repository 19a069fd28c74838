-- ===== src/Service/Stable/Admin.antt =====
-- The operations of the console keep what is stable.
use jd_shop_server.Common.{ℕ, String, Option, none, some, List, [], ◌∷◌}
use jd_shop_server.Model.{User, Role, UpdateUserAccessRequest, CreateRoleRequest, UpdateRoleRequest}
use jd_shop_server.Db.{Db, Keeps, reject}
use jd_shop_server.Db.Laws.{keeping, keeps_bind, keeps_reject}
use jd_shop_server.Repository.Roles
use jd_shop_server.Repository.Stable.{Stable, user_rules}
use jd_shop_server.Repository.Stable.Others.{other_rules, keeps_find_role}
use jd_shop_server.Service.Users.{user_or_fail}
use jd_shop_server.Service.Admin
use jd_shop_server.Service.Stable.{keeps_update_access}

module _ (P : Db → Type 0) (s : Stable P) where
  keeps_user_or_fail : (found : Option User) → Keeps P (user_or_fail found)
  unfolding user_or_fail
  keeps_user_or_fail none = search keeping
  keeps_user_or_fail (some user) = search keeping

  pub keeps_ordinary_user : (super : String) (id : ℕ) → Keeps P (Admin.ordinary_user super id)
  unfolding Admin.ordinary_user
  keeps_ordinary_user super id = search (keeping, user_rules, keeps_user_or_fail, s)

  pub keeps_update_user_access :
      (super : String) (id : ℕ) (req : UpdateUserAccessRequest) (now : ℕ)
      → Keeps P (Admin.update_user_access super id req now)
  unfolding Admin.update_user_access
  keeps_update_user_access super id req now =
      search (keeping, keeps_ordinary_user, keeps_update_access, s) depth 8

  pub keeps_update_user_status :
      (super : String) (id status now : ℕ) → Keeps P (Admin.update_user_status super id status now)
  unfolding Admin.update_user_status
  keeps_update_user_status super id status now =
      search (keeping, user_rules, keeps_ordinary_user, s, s.revoke_all_for_user) depth 8

  keeps_check_roles : (ids : List ℕ) → Keeps P (Admin.check_roles ids)
  unfolding Admin.check_roles
  keeps_check_roles [] = search keeping
  keeps_check_roles (id ∷ ids) =
      keeps_bind P (Roles.find_by_id id) _ (keeps_find_role P s id)
        λ role. keeps_bind P (reject _ _) _ (keeps_reject P _ _) (λ _. keeps_check_roles ids)

  pub keeps_assign_user_roles :
      (super : String) (id : ℕ) (roles : List ℕ) → Keeps P (Admin.assign_user_roles super id roles)
  unfolding Admin.assign_user_roles
  keeps_assign_user_roles super id roles =
      search (keeping, user_rules, keeps_ordinary_user, keeps_check_roles, s)

  pub keeps_create_role : (req : CreateRoleRequest) (now : ℕ) → Keeps P (Admin.create_role req now)
  unfolding Admin.create_role
  keeps_create_role req now = search (keeping, other_rules, s) depth 8

  keeps_role_or_fail : (found : Option Role) → Keeps P (Admin.role_or_fail found)
  unfolding Admin.role_or_fail
  keeps_role_or_fail none = search keeping
  keeps_role_or_fail (some role) = search keeping

  keeps_ordinary_role : (id : ℕ) → Keeps P (Admin.ordinary_role id)
  unfolding Admin.ordinary_role
  keeps_ordinary_role id = search (keeping, other_rules, keeps_role_or_fail, s)

  keeps_set_if_given : (id : ℕ) (ps : Option (List ℕ)) → Keeps P (Admin.set_if_given id ps)
  unfolding Admin.set_if_given
  keeps_set_if_given id none = search keeping
  keeps_set_if_given id (some ps) = search (keeping, other_rules, s)

  pub keeps_update_role : (id : ℕ) (req : UpdateRoleRequest) → Keeps P (Admin.update_role id req)
  unfolding Admin.update_role
  keeps_update_role id req =
      search (keeping, other_rules, keeps_ordinary_role, keeps_set_if_given, s) depth 8

  pub keeps_delete_role : (id : ℕ) → Keeps P (Admin.delete_role id)
  unfolding Admin.delete_role
  keeps_delete_role id = search (keeping, other_rules, keeps_ordinary_role, s)
