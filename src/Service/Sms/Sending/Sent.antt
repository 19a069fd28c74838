-- ===== src/Service/Sms/Sending/Sent.antt =====
-- What holds where `Send` of internal/service/sms.go succeeds, and how far apart two codes are.
use jd_shop_server.Common.{
  ℕ, ◌+◌, ◌*◌, ◌/◌, ◌≤◌, String, true, false, not, ◌&&◌, ◌≡◌, refl, sym, ap, ◌∙◌, Option, some,
  str_eq, str_eq_refl, find, trim_space, lookup, remove, lookup-remove, string_eq, arith,
  Bool-cases, inl, inr,
}
use jd_shop_server.Time.{nanos}
use jd_shop_server.Time.Laws.{parse_rfc3339-format_rfc3339}
use jd_shop_server.Db.{Db, World, Result, ok, err}
use jd_shop_server.Repository.Sms.{parse_timestamp}
use jd_shop_server.Service.Packages.{Packages}
use jd_shop_server.Service.Sms.{matches_phone, purpose_register, purpose_password_reset}
use jd_shop_server.Service.Sms.Sending.{
  Captchas, Sender, SmsConfig, verify_captcha, captcha_matches, is_too_soon, send_locked, send,
  sms_interval,
}
use jd_shop_server.Service.Sms.Sending.Limits.{
  Sendable, Sent, send_locked-Sent, newest, sent_second, sent_row, with_sent,
}

abbrev Outcome : Type 0
Outcome = Captchas × (Result (Unit {0}) × World)

sent_second_own :
    (id : ℕ) (number purpose hash : String) (now : ℕ) (ip : String) (db : Db)
    → sent_second (newest number (with_sent (sent_row id number purpose hash now ip) db))
      ≡ some (now / nanos)
unfolding find parse_timestamp
sent_second_own id number purpose hash now ip db =
    rw (str_eq_refl number, parse_rfc3339-format_rfc3339 now) refl

waited_a_minute : (s now' : ℕ) → is_too_soon (some s) now' ≡ false → s * nanos + sms_interval ≤ now'
waited_a_minute s now' h = ground arith

module _ (k : Packages) (s : Sender) (cfg : SmsConfig) where
  -- Where a code is sent, the phone is a mobile number and the captcha was right and is gone, the
  -- last code of the phone was sent a minute ago or more, fewer than six were sent to it on this day
  -- in China and fewer than twenty for the address within the hour; the code's hash differs from
  -- that of the phone's last code, the provider took it, and all that changes is its row.
  pub send-ok :
      (draws : ℕ → Option String) (phone purpose id answer ip : String) (now : ℕ)
      (captchas left : Captchas) (w : World) {w' : World}
      → send k s cfg draws phone purpose id answer ip now captchas w ≡ (left, (ok tt, w'))
      → (matches_phone (trim_space phone) ≡ true)
        × (captcha_matches k s cfg (lookup id captchas) answer now ≡ true)
        × (left ≡ remove id captchas)
        × Sendable k s cfg (trim_space phone) ip now w.db
        × Sent k s cfg (trim_space phone) purpose ip now w.db w'.db
  unfolding send verify_captcha
  send-ok draws phone purpose id answer ip now captchas left w {w'} h =
      elim (Bool-cases (matches_phone (trim_space phone))) [
        | inr invalid ↦
            let refused : ◌≡◌ {A = Outcome} (captchas, (err _, w)) (left, (ok tt, w')) =
              rw invalid at h in
            cc
        | inl valid ↦
            elim (Bool-cases (
              not (str_eq purpose purpose_register)
              && not (str_eq purpose purpose_password_reset))) [
                | inl unknown ↦
                    let refused : ◌≡◌ {A = Outcome} (captchas, (err _, w)) (left, (ok tt, w')) =
                      rw (valid, unknown) at h in
                    cc
                | inr known ↦
                    elim (Bool-cases (captcha_matches k s cfg (lookup id captchas) answer now)) [
                      | inr wrong ↦
                          let refused : ◌≡◌ {A = Outcome} (remove id captchas, (err _, w))
                              (left, (ok tt, w')) =
                            rw (valid, known, wrong) at h in
                          cc
                      | inl right ↦
                          let ran : ◌≡◌ {A = Outcome}
                              (
                                remove id captchas,
                                send_locked k s cfg draws (trim_space phone) purpose ip now w,
                              )
                              (left, (ok tt, w')) =
                            rw (valid, known, right) at h in
                          let (_, sendable, sent) =
                            send_locked-Sent k s cfg draws (trim_space phone) purpose ip now w
                              (ap (λ (o : Outcome). o.1) ran) in
                          (valid, right, ap (λ (o : Outcome). o.0) (sym ran), sendable, sent)
                    ]
              ]
      ]

  -- A captcha is asked for once: after an answer, right or wrong, no answer to it is right.
  pub verify_captcha_once :
      (id code code' : String) (now now' : ℕ) (captchas : Captchas)
      → (verify_captcha k s cfg id code' now' (verify_captcha k s cfg id code now captchas).0).1
        ≡ false
  unfolding verify_captcha captcha_matches
  verify_captcha_once id code code' now now' captchas =
      let gone = lookup-remove id id captchas in let own = str_eq_refl id in ground arith

  -- A code that is sent right after another to the same phone is sent at least a minute after the
  -- full second of that one.
  pub send_interval :
      (draws draws' : ℕ → Option String)
      (phone purpose purpose' id id' answer answer' ip ip' : String) (now now' : ℕ)
      (captchas captchas' left left' : Captchas) (w : World) {w' w'' : World}
      → send k s cfg draws phone purpose id answer ip now captchas w ≡ (left, (ok tt, w'))
      → send k s cfg draws' phone purpose' id' answer' ip' now' captchas' w' ≡ (left', (ok tt, w''))
      → (now / nanos) * nanos + sms_interval ≤ now'
  send_interval draws draws' phone purpose purpose' id id' answer answer' ip ip' now now' captchas
        captchas' left left' w {w'} {w''} h h' =
      let number = trim_space phone in
      let (_, _, _, _, (code, _, _, stored)) =
        send-ok draws phone purpose id answer ip now captchas left w h in
      let (_, _, _, (waited, _, _), _) =
        send-ok draws' phone purpose' id' answer' ip' now' captchas' left' w' h' in
      let sent =
        ap (λ db. sent_second (newest number db)) stored
        ∙ sent_second_own _ number purpose _ now ip w.db in
      waited_a_minute (now / nanos) now' (ap (λ o. is_too_soon o now') (sym sent) ∙ waited)
