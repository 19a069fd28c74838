-- ===== src/Handler/Users.antt =====
-- internal/handler/user.go. The body is what `decodeUserBody` makes of it.
use jd_shop_server.Common.{ℕ, Option}
use jd_shop_server.Model.{User, UpdateProfileRequest, ChangePasswordRequest}
use jd_shop_server.Model.Validation.{validate_change_password}
use jd_shop_server.Db.{
  Error, user_not_found, wrong_password, sms_code_invalid, sms_code_not_found, sms_code_expired,
}
use jd_shop_server.Handler.Responses.{
  Handler, Reply, data_of, message, with_body, checked, respond, internal,
}
use jd_shop_server.Service.Packages.{Packages}
use jd_shop_server.Service.Auth.{Context}
use jd_shop_server.Service.Users

abbrev pub profile_error : {A : Type 0} → Error → Reply A
profile_error user_not_found = message 10004 "用户不存在"
profile_error e = internal e

abbrev pub password_error : {A : Type 0} → Error → Reply A
password_error wrong_password = message 10001 "旧密码错误"
password_error sms_code_invalid = message 10001 "短信验证码错误"
password_error sms_code_not_found = message 10001 "短信验证码错误"
password_error sms_code_expired = message 10001 "短信验证码已过期，请重新获取"
password_error e = internal e

module _ (k : Packages) (c : Context) where
  unfoldable pub get_profile : ℕ → Handler User
  get_profile user = respond data_of profile_error (Users.get_profile k c user)

  unfoldable pub update_profile : ℕ → Option UpdateProfileRequest → Handler User
  update_profile user body =
      with_body body λ req. respond data_of internal (Users.update_profile k c user req)

  unfoldable pub change_password : ℕ → Option ChangePasswordRequest → Handler (Unit {0})
  change_password user body = with_body body λ req.
      checked (validate_change_password req)
        (respond (λ _. message 0 "密码修改成功") password_error (Users.change_password k c user req))
