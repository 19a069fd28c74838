-- ===== src/Handler/Admin.antt =====
-- internal/handler/admin.go.
use jd_shop_server.Common.{ℕ, String, not, ◌&&◌, Option, List, ◌==◌, if◌then◌else◌}
use jd_shop_server.Model.{
  AccountAccess, RegistrationDefaults, UpdateUserAccessRequest, Role, CreateRoleRequest,
  UpdateRoleRequest,
}
use jd_shop_server.Model.Validation.{validate_registration_defaults, validate_create_role}
use jd_shop_server.Db.{
  Error, user_not_found, super_admin_protected, admin_role_reserved, admin_role_protected,
  invalid_expiry, role_not_found,
}
use jd_shop_server.Handler.Responses.{
  Handler, Reply, data_of, message, with_id, with_body, checked, respond, refuse, internal,
}
use jd_shop_server.Repository.Access.{get_defaults}
use jd_shop_server.Service.Access
use jd_shop_server.Service.Admin

abbrev pub status_error : {A : Type 0} → Error → Reply A
status_error user_not_found = message 10004 "用户不存在"
status_error super_admin_protected = message 10003 "主管理员账号受保护，不能修改状态"
status_error e = internal e

abbrev pub assign_error : {A : Type 0} → Error → Reply A
assign_error user_not_found = message 10004 "用户不存在"
assign_error super_admin_protected = message 10003 "主管理员账号受保护，不能修改角色"
assign_error admin_role_reserved = message 10003 "admin 角色为主管理员专用，不能分配给普通账号"
assign_error e = internal e

abbrev pub access_error : {A : Type 0} → Error → Reply A
access_error user_not_found = message 10004 "用户不存在"
access_error super_admin_protected = message 10003 "主管理员账号受保护，不能修改使用权限"
access_error invalid_expiry = message 10001 "到期时间格式错误"
access_error e = internal e

abbrev pub update_role_error : {A : Type 0} → Error → Reply A
update_role_error role_not_found = message 10004 "角色不存在"
update_role_error admin_role_protected = message 10003 "主管理员角色受保护，不能修改"
update_role_error e = internal e

abbrev pub delete_role_error : {A : Type 0} → Error → Reply A
delete_role_error role_not_found = message 10004 "角色不存在"
delete_role_error admin_role_protected = message 10003 "主管理员角色受保护，不能删除"
delete_role_error e = internal e

-- `super` is the configured name of the super administrator.
module _ (super : String) (now : ℕ) where
  unfoldable pub update_user_status : Option ℕ → Option ℕ → Handler (Unit {0})
  update_user_status id body = with_id id λ id. with_body body λ status.
      if not (status == 0) && not (status == 1)
      then refuse 10001 "status须为0或1"
      else respond (λ _. message 0 "状态修改成功") status_error
          (Admin.update_user_status super id status now)

  unfoldable pub assign_user_roles : Option ℕ → Option (List ℕ) → Handler (Unit {0})
  assign_user_roles id body = with_id id λ id. with_body body λ role_ids.
      respond (λ _. message 0 "角色分配成功") assign_error (Admin.assign_user_roles super id role_ids)

  unfoldable pub update_user_access :
      Option ℕ → Option UpdateUserAccessRequest → Handler AccountAccess
  update_user_access id body = with_id id λ id.
      with_body body λ req. respond data_of access_error (Admin.update_user_access super id req now)

unfoldable pub get_registration_defaults : Handler RegistrationDefaults
get_registration_defaults = respond data_of internal get_defaults

unfoldable pub update_registration_defaults :
    Option RegistrationDefaults → ℕ → Handler RegistrationDefaults
update_registration_defaults body now = with_body body λ req.
    checked (validate_registration_defaults req)
      (respond data_of internal (Access.update_registration_defaults req now))

unfoldable pub create_role : Option CreateRoleRequest → ℕ → Handler (Option Role)
create_role body now =
    with_body body λ req.
      checked (validate_create_role req) (respond data_of internal (Admin.create_role req now))

unfoldable pub update_role : Option ℕ → Option UpdateRoleRequest → Handler (Option Role)
update_role id body =
    with_id id
      λ id. with_body body λ req. respond data_of update_role_error (Admin.update_role id req)

unfoldable pub delete_role : Option ℕ → Handler (Unit {0})
delete_role id =
    with_id id λ id. respond (λ _. message 0 "删除成功") delete_role_error (Admin.delete_role id)
