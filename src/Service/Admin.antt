-- ===== src/Service/Admin.antt =====
-- internal/service/admin.go: what the console may change, and the account and the role that it
-- may not.
pub mod Protection
use jd_shop_server.Common.{
  ℕ, String, Bool, false, not, Option, none, some, List, [], ◌∷◌, ◌==◌, str_eq, if◌then◌else◌,
  is_empty,
}
use jd_shop_server.Hub.{access_changed, account_status_changed}
use jd_shop_server.Model.{
  AccountAccess, User, UpdateUserAccessRequest, Role, CreateRoleRequest, UpdateRoleRequest,
  Permission,
}
use jd_shop_server.Db.{
  role_not_found, super_admin_protected, admin_role_reserved, admin_role_protected, M, pure, fail,
  ◌>>=◌, ◌>>◌, when, reject, ignore_error, notify,
}
use jd_shop_server.Repository.Users
use jd_shop_server.Repository.Tokens
use jd_shop_server.Repository.Roles
use jd_shop_server.Service.Access.{update_access}
use jd_shop_server.Service.Users.{user_or_fail}

-- An account that is there and is not the super administrator's.
unfoldable pub ordinary_user : String → ℕ → M User
ordinary_user super id = do
  found ← Users.find_by_id id
  user ← user_or_fail found
  reject (str_eq user.username super) super_admin_protected
  pure user

unfoldable pub update_user_access : String → ℕ → UpdateUserAccessRequest → ℕ → M AccountAccess
update_user_access super id req now = do
  user ← ordinary_user super id
  access ← update_access super user req now
  notify id access_changed now
  pure access

unfoldable pub update_user_status : String → ℕ → ℕ → ℕ → M (Unit {0})
update_user_status super id status now = do
  _ ← ordinary_user super id
  Users.update_status id status now
  when (status == 0) (Tokens.revoke_all_for_user id)
  notify id account_status_changed now

abbrev pub is_admin_role : Option Role → Bool
is_admin_role none = false
is_admin_role (some role) = str_eq role.name "admin"

-- The loop that looks for the reserved role.
unfoldable pub check_roles : List ℕ → M (Unit {0})
check_roles [] = pure tt
check_roles (id ∷ ids) = do
  role ← Roles.find_by_id id
  reject (is_admin_role role) admin_role_reserved
  check_roles ids

unfoldable pub assign_user_roles : String → ℕ → List ℕ → M (Unit {0})
assign_user_roles super id roles = do
  _ ← ordinary_user super id
  check_roles roles
  Users.assign_roles id roles

abbrev non_blank : String → Option String
non_blank s = if str_eq s "" then none else some s

unfoldable pub create_role : CreateRoleRequest → ℕ → M (Option Role)
create_role req now = do
  id ← Roles.create req.name (non_blank req.description) now
  when (not (is_empty req.permission_ids))
      (ignore_error (Roles.set_permissions id req.permission_ids))
  Roles.find_by_id id

unfoldable pub role_or_fail : Option Role → M Role
role_or_fail none = fail role_not_found
role_or_fail (some role) = pure role

-- A role that is there and is not the administrator's.
unfoldable pub ordinary_role : ℕ → M Role
ordinary_role id = do
  found ← Roles.find_by_id id
  role ← role_or_fail found
  reject (str_eq role.name "admin") admin_role_protected
  pure role

unfoldable pub set_if_given : ℕ → Option (List ℕ) → M (Unit {0})
set_if_given id none = pure tt
set_if_given id (some ps) = ignore_error (Roles.set_permissions id ps)

unfoldable pub update_role : ℕ → UpdateRoleRequest → M (Option Role)
update_role id req = do
  _ ← ordinary_role id
  Roles.update id req.name req.description
  set_if_given id req.permission_ids
  Roles.find_by_id id

unfoldable pub delete_role : ℕ → M (Unit {0})
delete_role id = do _ ← ordinary_role id; Roles.delete id

unfoldable pub list_roles : M (List Role)
list_roles = Roles.list

unfoldable pub list_permissions : M (List Permission)
list_permissions = Roles.list_all_permissions
