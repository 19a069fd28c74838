-- ===== src/Model/Validation.antt =====
-- internal/model/models.go: the checks of requests. `none` stands for "", which means that the
-- request passes.
use jd_shop_server.Common.{
  ℕ, String, Bool, false, not, ◌&&◌, ◌||◌, Option, none, some, ◌==◌, str_eq, ltb, if◌then◌else◌,
  byte_length,
}
use jd_shop_server.Model.{
  RegistrationDefaults, RegisterRequest, LoginRequest, SendSmsRequest, ChangePasswordRequest,
  CreateVersionRequest, CreateRoleRequest,
}
use jd_shop_server.Model.Announcements.{CreateAnnouncementRequest}

abbrev is_empty_text : String → Bool
is_empty_text s = str_eq s ""

-- Outside of a range of lengths.
abbrev pub is_outside : ℕ → ℕ → ℕ → Bool
is_outside least most n = ltb n least || ltb most n

unfoldable pub validate_registration_defaults : RegistrationDefaults → Option String
validate_registration_defaults r =
    if is_outside 1 3650 r.usage_days then some "默认赠送天数须为1-3650天" else none

unfoldable pub validate_register : RegisterRequest → Option String
validate_register r =
    if is_empty_text r.phone && is_empty_text r.username
    then some "手机号不能为空"
    else if not (is_empty_text r.phone) && not (byte_length r.phone == 11)
    then some "手机号格式错误"
    else if is_empty_text r.phone && is_outside 3 32 (byte_length r.username)
    then some "用户名长度须为3-32字符"
    else if not (is_empty_text r.phone) && not (byte_length r.sms_code == 6)
    then some "短信验证码须为6位"
    else if is_outside 6 64 (byte_length r.password)
    then some "密码长度须为6-64字符"
    else none

unfoldable pub validate_login : LoginRequest → Option String
validate_login r =
    if is_empty_text r.phone && is_empty_text r.username
    then some "手机号不能为空"
    else if is_empty_text r.password
    then some "密码不能为空"
    else none

unfoldable pub validate_send_sms : SendSmsRequest → Option String
validate_send_sms r =
    if not (byte_length r.phone == 11)
    then some "手机号格式错误"
    else if not (str_eq r.purpose "register") && not (str_eq r.purpose "password_reset")
    then some "验证码用途错误"
    else if is_empty_text r.captcha_id || is_empty_text r.captcha_code
    then some "请先完成图形验证码"
    else none

unfoldable pub validate_change_password : ChangePasswordRequest → Option String
validate_change_password r =
    if is_outside 6 64 (byte_length r.new_password) then some "新密码长度须为6-64字符" else none

unfoldable pub validate_create_announcement : CreateAnnouncementRequest → Option String
validate_create_announcement r =
    if is_empty_text r.title
    then some "公告标题不能为空"
    else if is_empty_text r.content
    then some "公告内容不能为空"
    else none

-- Codes and sizes are natural numbers.
unfoldable pub validate_create_version : CreateVersionRequest → Option String
validate_create_version r =
    if is_empty_text r.platform
    then some "平台不能为空"
    else if r.version_code == 0
    then some "版本码必须大于0"
    else if is_empty_text r.version_name
    then some "版本号不能为空"
    else if is_empty_text r.title
    then some "版本标题不能为空"
    else if is_empty_size r.file_size
    then some "文件大小必须大于0"
    else none
  where
    is_empty_size : Option ℕ → Bool
    is_empty_size none = false
    is_empty_size (some n) = n == 0

unfoldable pub validate_create_role : CreateRoleRequest → Option String
validate_create_role r = if is_empty_text r.name then some "角色名不能为空" else none
