-- ===== src/Service/Sms/Sending.antt =====
-- internal/service/sms.go: captchas, and the sending of codes with its limits. The random values are
-- arguments: the captcha and its id, and the codes that the loop draws, `none` where the source of
-- randomness fails.
pub mod Limits
pub mod Sent
use jd_shop_server.Common.{
  ℕ, zero, suc, ◌+◌, ◌-◌, ◌*◌, ◌/◌, String, Bool, true, false, not, ◌&&◌, ◌||◌, Option, none, some,
  List, ◌∷◌, ◌==◌, str_eq, ltb, leb, if◌then◌else◌, trim_space, is_blank, lookup, insert, remove,
  retain, string_eq,
}
use jd_shop_server.Time.{nanos, seconds_per_day}
use jd_shop_server.Db.{
  World, Result, ok, err, storage, invalid_phone, captcha_invalid, invalid_purpose,
  sms_not_configured, sms_insecure_endpoint, sms_too_frequent, sms_daily_limit, sms_ip_limit,
  sms_provider, no_distinct_code, M, pure, fail, ◌>>=◌, ◌>>◌, reject,
}
use jd_shop_server.Repository.Sms
use jd_shop_server.Service.Packages.{Packages}
use jd_shop_server.Service.Sms.{matches_phone, purpose_register, purpose_password_reset}

pub record CaptchaRecord : Type 0 where
  pub code : String
  pub expires_at : ℕ

abbrev pub Captchas : Type 0
Captchas = List (String × CaptchaRecord)

pub record SmsConfig : Type 0 where
  pub enabled : Bool
  pub endpoint : String
  pub username : String
  pub api_key : String
  pub content_template : String

-- `strings.EqualFold`, `strings.Count`, the check of the parsed endpoint, and whether the provider
-- answers a phone and a code with a success.
pub record Sender : Type 0 where
  pub equal_fold : String → String → Bool
  pub count : String → String → ℕ
  pub is_secure : String → Bool
  pub accepts : String → String → Bool

-- Five minutes, and one.
abbrev pub captcha_ttl : ℕ
captcha_ttl = 300 * nanos

abbrev pub sms_code_ttl : ℕ
sms_code_ttl = 300 * nanos

abbrev pub sms_interval : ℕ
sms_interval = 60 * nanos

abbrev pub sms_daily_max : ℕ
sms_daily_max = 6

abbrev pub sms_ip_hourly_max : ℕ
sms_ip_hourly_max = 20

-- `cleanupCaptchasLocked`.
unfoldable pub cleanup_captchas : ℕ → Captchas → Captchas
cleanup_captchas now = retain (λ _ r. not (ltb r.expires_at now))

-- `Captcha`, once the code, the id and the image are made.
unfoldable pub captcha : String → String → ℕ → Captchas → Captchas
captcha id code now captchas =
    insert id (record { code = code; expires_at = now + captcha_ttl })
      (cleanup_captchas now captchas)

-- The seconds since 1970 at which the day began in China, as an instant.
abbrev pub china_day_start : ℕ → ℕ
china_day_start now = (((now / nanos + 28800) / seconds_per_day) * seconds_per_day - 28800) * nanos

-- `lastSent != nil && now.Sub(*lastSent) < SMSInterval`.
abbrev pub is_too_soon : Option ℕ → ℕ → Bool
is_too_soon none now = false
is_too_soon (some s) now = ltb now (s * nanos + sms_interval)

module _ (k : Packages) (s : Sender) (cfg : SmsConfig) where
  unfoldable pub captcha_matches : Option CaptchaRecord → String → ℕ → Bool
  captcha_matches none code now = false
  captcha_matches (some r) code now =
      not (ltb r.expires_at now || not (s.equal_fold (trim_space code) r.code))

  -- The captchas left, and whether the code was right.
  unfoldable pub verify_captcha : String → String → ℕ → Captchas → Captchas × Bool
  verify_captcha id code now captchas =
      (remove id captchas, captcha_matches (lookup id captchas) code now)

  abbrev pub is_configured : Bool
  is_configured =
      cfg.enabled
      && not (is_blank (trim_space cfg.endpoint))
      && not (is_blank (trim_space cfg.username))
      && not (is_blank (trim_space cfg.api_key))
      && s.count cfg.content_template "%s" == 1

  -- The loop that draws a code whose hash is not the last one's, at most `fuel` times, from the
  -- draw with number `i` on; `code` is the one drawn before.
  unfoldable pub draw_code : (ℕ → Option String) → String → ℕ → ℕ → String → M String
  draw_code draws last zero i code = pure code
  draw_code draws last (suc fuel) i code = elim (draws i) [
    | none ↦ fail storage
    | some drawn ↦ elim (str_eq (k.hash_code drawn) last) [
      | true ↦ draw_code draws last fuel (i + 1) drawn
      | false ↦ pure drawn
    ]
  ]

  -- `Send` under its lock.
  unfoldable pub send_locked : (ℕ → Option String) → String → String → String → ℕ → M (Unit {0})
  send_locked draws number purpose ip now = do
    reject (not is_configured) sms_not_configured
    reject (not (s.is_secure cfg.endpoint)) sms_insecure_endpoint
    last_sent ← Sms.last_sent_at number
    reject (is_too_soon last_sent now) sms_too_frequent
    count ← Sms.count_sent_since number (china_day_start now)
    reject (leb sms_daily_max count) sms_daily_limit
    ip_count ← Sms.count_sent_by_ip_since ip (now - 3600 * nanos)
    reject (leb sms_ip_hourly_max ip_count) sms_ip_limit
    last_hash ← Sms.last_code_hash number
    code ← draw_code draws last_hash 5 0 ""
    reject (str_eq (k.hash_code code) last_hash) no_distinct_code
    reject (not (s.accepts number code)) sms_provider
    Sms.create number purpose (k.hash_code code) now (now + sms_code_ttl) ip

  -- `Send`, with the captchas it leaves.
  unfoldable pub send :
      (ℕ → Option String)
      → String
      → String
      → String
      → String
      → String
      → ℕ
      → Captchas
      → World
      → Captchas × (Result (Unit {0}) × World)
  send draws phone purpose id answer ip now captchas w =
      let number = trim_space phone in
      let (left, right) = verify_captcha id answer now captchas in
      if not (matches_phone number)
      then (captchas, (err invalid_phone, w))
      else if not (str_eq purpose purpose_register) && not (str_eq purpose purpose_password_reset)
      then (captchas, (err invalid_purpose, w))
      else if right
      then (left, send_locked draws number purpose ip now w)
      else (left, (err captcha_invalid, w))
