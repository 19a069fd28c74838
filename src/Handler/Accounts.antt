-- ===== src/Handler/Accounts.antt =====
-- internal/handler/auth.go. The body is what `decodeAuthBody` makes of it, the address what
-- `requestIP` does.
use jd_shop_server.Common.{none, some, ℕ, String, Option, str_eq, if◌then◌else◌, some}
use jd_shop_server.Model.{
  User, RegisterRequest, LoginRequest, LoginResponse, RefreshResponse, SendSmsRequest,
}
use jd_shop_server.Model.Validation.{validate_register, validate_login, validate_send_sms}
use jd_shop_server.Db.{
  ok, err, Error, invalid_phone, captcha_invalid, sms_too_frequent, sms_daily_limit, sms_ip_limit,
  sms_not_configured, sms_insecure_endpoint, sms_provider, username_taken, phone_taken,
  phone_required, sms_code_invalid, sms_code_not_found, sms_code_expired, invalid_credentials,
  account_disabled, account_expired, too_many_attempts, token_revoked, token_expired, World, Result,
  ok, err,
}
use jd_shop_server.Handler.Responses.{
  Handler, Reply, data_of, message, with_body, checked, respond, refuse, internal,
}
use jd_shop_server.Service.Packages.{Packages}
use jd_shop_server.Service.Auth
use jd_shop_server.Service.Auth.{Context}
use jd_shop_server.Service.Sms.Sending.{Captchas}

-- The body of the reply to a registration.
pub record Registered : Type 0 where
  pub id : ℕ
  pub username : String
  pub phone : Option String
  pub nickname : Option String

abbrev pub registered : User → Registered
registered user = record {
  id = user.id;
  username = user.username;
  phone = user.phone;
  nickname = user.nickname;
}

abbrev pub send_error : {A : Type 0} → Error → Reply A
send_error invalid_phone = message 10001 "手机号格式错误"
send_error captcha_invalid = message 10001 "图形验证码错误或已过期，请刷新后重试"
send_error sms_too_frequent = message 10006 "同一手机号每分钟只能发送一条验证码"
send_error sms_daily_limit = message 10006 "该手机号今日验证码发送次数已达6次"
send_error sms_ip_limit = message 10006 "当前网络验证码请求过多，请1小时后再试"
send_error sms_not_configured = message 10503 "短信服务尚未配置"
send_error sms_insecure_endpoint = message 10503 "短信服务必须使用HTTPS安全接口"
send_error sms_provider = message 10503 "短信平台暂时不可用，请稍后重试"
send_error e = message 10500 "短信发送失败"

abbrev pub register_error : {A : Type 0} → Error → Reply A
register_error username_taken = message 10005 "该手机号已注册"
register_error phone_taken = message 10005 "该手机号已注册"
register_error invalid_phone = message 10001 "手机号格式错误"
register_error phone_required = message 10001 "新用户必须使用手机号注册"
register_error sms_code_invalid = message 10001 "短信验证码错误"
register_error sms_code_not_found = message 10001 "短信验证码错误"
register_error sms_code_expired = message 10001 "短信验证码已过期，请重新获取"
register_error e = internal e

abbrev pub login_error : {A : Type 0} → Error → Reply A
login_error invalid_credentials = message 10001 "手机号或密码错误"
login_error invalid_phone = message 10001 "手机号格式错误"
login_error account_disabled = message 10003 "账号已被禁用"
login_error account_expired = message 10003 "账号使用时间已到期"
login_error too_many_attempts = message 10003 "登录尝试过于频繁，请15分钟后再试"
login_error e = internal e

abbrev pub refresh_error : {A : Type 0} → Error → Reply A
refresh_error token_revoked = message 10002 "Token已失效，请重新登录"
refresh_error token_expired = message 10002 "Token已过期，请重新登录"
refresh_error account_disabled = message 10003 "账号已被禁用"
refresh_error account_expired = message 10003 "账号使用时间已到期"
refresh_error e = internal e

module _ (k : Packages) (c : Context) where
  unfoldable pub register : Option RegisterRequest → Handler Registered
  register body = with_body body λ req.
      checked (validate_register req)
        (respond (λ user. data_of (registered user)) register_error (Auth.register k c req))

  unfoldable pub login : Option LoginRequest → String → String → Handler LoginResponse
  login body ip user_agent = with_body body λ req.
      checked (validate_login req) (respond data_of login_error (Auth.login k c req ip user_agent))

  -- The body is the refresh token.
  unfoldable pub refresh : Option String → Handler RefreshResponse
  refresh body = with_body body λ token.
      if str_eq token ""
      then refuse 10001 "refresh_token不能为空"
      else respond data_of refresh_error (Auth.refresh_token k c token)

  unfoldable pub logout : Option String → Handler (Unit {0})
  logout body =
      with_body body λ token. respond (λ _. message 0 "退出成功") internal (Auth.logout k c token)

-- `SendSMS`, with the captchas that it leaves; the arguments are those of `Send`.
unfoldable pub send_sms :
    (SendSmsRequest → Captchas → World → Captchas × (Result (Unit {0}) × World))
    → Option SendSmsRequest
    → Captchas
    → World
    → Captchas × (Reply (Unit {0}) × World)
send_sms send none captchas w = (captchas, (message 10001 "请求格式错误", w))
send_sms send (some req) captchas w = elim (validate_send_sms req) [
  | some text ↦ (captchas, (message 10001 text, w))
  | none ↦ sent (send req captchas w)
]
  where
    sent : Captchas × (Result (Unit {0}) × World) → Captchas × (Reply (Unit {0}) × World)
    sent (left, (ok _, w')) = (left, (message 0 "验证码已发送，5分钟内有效", w'))
    sent (left, (err e, w')) = (left, (send_error e, w'))
