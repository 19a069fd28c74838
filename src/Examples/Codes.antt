-- ===== src/Examples/Codes.antt =====
-- Captchas and codes that are sent.
use jd_shop_server.Common.{
  ℕ, ◌+◌, ◌*◌, ◌/◌, ◌≤◌, ◌≡◌, refl, String, true, false, Option, some, [], ◌∷◌, str_eq, trim_space,
  lookup, remove, string_eq,
}
use jd_shop_server.Time.{nanos}
use jd_shop_server.Db.{World}
use jd_shop_server.Service.Sms.{matches_phone, purpose_register}
use jd_shop_server.Service.Sms.Sending.{
  Captchas, Sender, SmsConfig, verify_captcha, captcha_matches, draw_code, send_locked, send,
  sms_interval,
}
use jd_shop_server.Service.Sms.Sending.Limits.{Sendable, Sent}
use jd_shop_server.Service.Sms.Sending.Sent.{send-ok, verify_captcha_once, send_interval}
use jd_shop_server.Examples.Data.{packages, world, tables, noon, disabled_world}

abbrev sender : Sender
sender = record {
  equal_fold = λ a b. str_eq a b;
  count = λ text part. 1;
  is_secure = λ endpoint. true;
  accepts = λ phone code. true;
}

abbrev settings : SmsConfig
settings = record {
  enabled = true;
  endpoint = "https://sms";
  username = "u";
  api_key = "k";
  content_template = "%s";
}

abbrev captchas : Captchas
captchas = ("c1", record { code = "AB"; expires_at = noon + 1 }) ∷ []

abbrev later_captchas : Captchas
later_captchas = ("c2", record { code = "CD"; expires_at = noon + 120 * nanos }) ∷ []

abbrev first_draw : ℕ → Option String
first_draw i = some "654321"

abbrev second_draw : ℕ → Option String
second_draw i = some "222222"

unfoldable sent_world : World
unfolding disabled_world trim_space send send_locked verify_captcha captcha_matches draw_code
sent_world =
    (send packages sender settings first_draw "13812345678" purpose_register "c1" "AB" "1.2.3.4"
      noon captchas world).1.1

send-ok_example :
    (matches_phone (trim_space "13812345678") ≡ true)
    × (captcha_matches packages sender settings (lookup "c1" captchas) "AB" noon ≡ true)
    × ([] ≡ remove "c1" captchas)
    × Sendable packages sender settings (trim_space "13812345678") "1.2.3.4" noon tables
    × Sent packages sender settings
        (trim_space "13812345678")
        purpose_register
        "1.2.3.4"
        noon
        tables
        sent_world.db
unfolding sent_world
send-ok_example =
    send-ok packages sender settings first_draw "13812345678" purpose_register "c1" "AB" "1.2.3.4"
      noon captchas [] world {w' = sent_world} refl

verify_captcha_once_example :
    (verify_captcha packages sender settings "c1" "AB" noon
      (verify_captcha packages sender settings "c1" "AB" noon captchas).0).1
    ≡ false
verify_captcha_once_example =
    verify_captcha_once packages sender settings "c1" "AB" "AB" noon noon captchas

send_interval_example : (noon / nanos) * nanos + sms_interval ≤ noon + 100 * nanos
unfolding sent_world
send_interval_example =
    send_interval packages sender settings first_draw second_draw "13812345678" purpose_register
      purpose_register "c1" "c2" "AB" "CD" "1.2.3.4" "1.2.3.4" noon (noon + 100 * nanos) captchas
      later_captchas [] [] world {w' = sent_world} refl refl
