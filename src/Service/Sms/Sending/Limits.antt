-- ===== src/Service/Sms/Sending/Limits.antt =====
-- Under what conditions a code is sent, and how often (internal/service/sms.go).
use jd_shop_server.Common.{
  subst, ℕ, zero, suc, ◌+◌, ◌-◌, ◌*◌, ◌<◌, String, true, false, not, ◌&&◌, ◌≡◌, sym, ap, ◌∙◌,
  Option, none, some, ◌∷◌, str_eq, leb, find, count_where, string_eq, arith, Bool-cases,
  Option-cases, inl, inr,
}
use jd_shop_server.Time.{nanos, format_rfc3339, text_le}
use jd_shop_server.Model.{SmsVerification}
use jd_shop_server.Db.{
  Db, World, ok, M, ◌>>=◌, ◌>>◌, reject, no_distinct_code, sms_provider, sms_daily_limit,
  sms_ip_limit,
}
use jd_shop_server.Db.Success.{
  bind-eq-ok, query-eq-ok, pure-eq-ok, fail-ne-ok, reject-eq-ok, exec-eq-ok,
}
use jd_shop_server.Repository.Sms
use jd_shop_server.Repository.Sms.{
  parse_timestamp, parsed_or_fail, sent_at_of, code_hash_or_empty, has_phone,
}
use jd_shop_server.Service.Packages.{Packages}
use jd_shop_server.Service.Sms.Codes.{parsed_or_fail-ok}
use jd_shop_server.Service.Sms.Sending.{
  Sender, SmsConfig, china_day_start, is_too_soon, is_configured, draw_code, send_locked,
  sms_daily_max, sms_ip_hourly_max, sms_code_ttl,
}

-- The newest row of a phone.
abbrev pub newest : String → Db → Option SmsVerification
newest number db = find (has_phone number) db.sms_verifications

-- The second at which a row was sent, if its text can be read.
abbrev pub sent_second : Option SmsVerification → Option ℕ
sent_second none = none
sent_second (some v) = parse_timestamp v.sent_at

sent_at_of-ok :
    (found : Option SmsVerification) (w : World) {last : Option ℕ} {w' : World}
    → sent_at_of found w ≡ (ok last, w')
    → (last ≡ sent_second found) × (w' ≡ w)
unfolding sent_at_of
sent_at_of-ok none w h = let (same, kept) = pure-eq-ok _ w h in (sym same, sym kept)
sent_at_of-ok (some v) w h =
    let (second, w₁, parsed, rest) = bind-eq-ok _ _ w h in
    let (is_second, same) = parsed_or_fail-ok _ w parsed in
    let (made, kept) = pure-eq-ok _ w₁ rest in (sym made ∙ sym is_second, sym kept ∙ same)

last_sent_at-ok :
    (number : String) (w : World) {last : Option ℕ} {w' : World}
    → Sms.last_sent_at number w ≡ (ok last, w')
    → (last ≡ sent_second (newest number w.db)) × (w'.db ≡ w.db)
unfolding Sms.last_sent_at
last_sent_at-ok number w h =
    let (found, w₁, read, rest) = bind-eq-ok _ _ w h in
    let (is_found, kept) = query-eq-ok _ w read in
    let (is_last, same) = sent_at_of-ok found w₁ rest in
    (is_last ∙ ap sent_second is_found, ap (λ (x : World). x.db) same ∙ kept)

-- The row of a code that is sent.
abbrev pub sent_row : ℕ → String → String → String → ℕ → String → SmsVerification
sent_row id number purpose hash now ip = record {
  id = id;
  phone = number;
  purpose = purpose;
  code_hash = hash;
  sent_at = format_rfc3339 now;
  expires_at = format_rfc3339 (now + sms_code_ttl);
  attempts = 0;
  consumed = 0;
  request_ip = ip;
}

abbrev pub with_sent : SmsVerification → Db → Db
with_sent row db = record db {
  sms_verifications = row ∷ db.sms_verifications;
  next_sms = suc db.next_sms;
}

module _ (k : Packages) (s : Sender) (cfg : SmsConfig) where
  draw_code-ok :
      (draws : ℕ → Option String) (last : String) (fuel i : ℕ) (code : String) (w : World)
      {drawn : String} {w' : World}
      → draw_code k s cfg draws last fuel i code w ≡ (ok drawn, w')
      → w' ≡ w
  unfolding draw_code
  draw_code-ok draws last zero i code w h = let (_, kept) = pure-eq-ok _ w h in sym kept
  draw_code-ok draws last (suc fuel) i code w h = elim (Option-cases (draws i)) [
    | inl failed ↦ elim (fail-ne-ok _ _ w (rw (draw_code, failed) at h)) [ ]
    | inr (drawn, is_drawn) ↦ elim (Bool-cases (str_eq (k.hash_code drawn) last)) [
      | inl again ↦
          draw_code-ok draws last fuel (i + 1) drawn w (rw (draw_code, is_drawn, again) at h)
      | inr fresh ↦
          let (_, kept) = pure-eq-ok _ w (rw (draw_code, is_drawn, fresh) at h) in sym kept
    ]
  ]

  -- What is sent: a code with another hash than the newest one of the phone, accepted by the
  -- provider, and stored.
  abbrev pub Sent : String → String → String → ℕ → Db → Db → Type 0
  Sent number purpose ip now db db' =
      (code : String) × (str_eq (k.hash_code code) (code_hash_or_empty (newest number db)) ≡ false)
      × (s.accepts number code ≡ true)
      × (db' ≡ with_sent (sent_row db.next_sms number purpose (k.hash_code code) now ip) db)

  abbrev send_drawn : (ℕ → Option String) → String → String → String → ℕ → M (Unit {0})
  send_drawn draws number purpose ip now = do
    last_hash ← Sms.last_code_hash number
    code ← draw_code k s cfg draws last_hash 5 0 ""
    reject (str_eq (k.hash_code code) last_hash) no_distinct_code
    reject (not (s.accepts number code)) sms_provider
    Sms.create number purpose (k.hash_code code) now (now + sms_code_ttl) ip

  send_drawn-Sent :
      (draws : ℕ → Option String) (number purpose ip : String) (now : ℕ) (w : World) {w' : World}
      → send_drawn draws number purpose ip now w ≡ (ok tt, w')
      → Sent number purpose ip now w.db w'.db
  unfolding Sms.last_code_hash Sms.create
  send_drawn-Sent draws number purpose ip now w h =
      let (last, w₁, read, h₁) = bind-eq-ok _ _ w h in
      let (is_last, kept) = query-eq-ok _ w read in
      let (code, w₂, drawn, h₂) = bind-eq-ok _ _ w₁ h₁ in
      let same₂ = draw_code-ok draws last 5 0 "" w₁ drawn in
      let (_, w₃, distinct, h₃) = bind-eq-ok _ _ w₂ h₂ in
      let (other, same₃) = reject-eq-ok _ _ w₂ distinct in
      let (_, w₄, answered, h₄) = bind-eq-ok _ _ w₃ h₃ in
      let (accepted, same₄) = reject-eq-ok _ _ w₃ answered in
      let unchanged : w₄.db ≡ w.db = ap (λ (x : World). x.db) (same₄ ∙ same₃ ∙ same₂) ∙ kept in
      (
        code,
        ap (λ x. str_eq (k.hash_code code) x) (sym is_last) ∙ other,
        ground arith,
        exec-eq-ok _ w₄ h₄
            ∙ ap
                (λ (db : Db).
                  with_sent (sent_row db.next_sms number purpose (k.hash_code code) now ip) db)
                unchanged,
      )

  abbrev pub sent_today : String → ℕ → Db → ℕ
  sent_today number now db =
      count_where
        (λ v. str_eq v.phone number && text_le (format_rfc3339 (china_day_start now)) v.sent_at)
        db.sms_verifications

  abbrev pub sent_by_ip : String → ℕ → Db → ℕ
  sent_by_ip ip now db =
      count_where
        (λ v. str_eq v.request_ip ip && text_le (format_rfc3339 (now - 3600 * nanos)) v.sent_at)
        db.sms_verifications

  abbrev send_counted : (ℕ → Option String) → String → String → String → ℕ → M (Unit {0})
  send_counted draws number purpose ip now = do
    count ← Sms.count_sent_since number (china_day_start now)
    reject (leb sms_daily_max count) sms_daily_limit
    ip_count ← Sms.count_sent_by_ip_since ip (now - 3600 * nanos)
    reject (leb sms_ip_hourly_max ip_count) sms_ip_limit
    send_drawn draws number purpose ip now

  send_counted-Sent :
      (draws : ℕ → Option String) (number purpose ip : String) (now : ℕ) (w : World) {w' : World}
      → send_counted draws number purpose ip now w ≡ (ok tt, w')
      → (sent_today number now w.db < sms_daily_max)
        × (sent_by_ip ip now w.db < sms_ip_hourly_max)
        × Sent number purpose ip now w.db w'.db
  unfolding Sms.count_sent_since Sms.count_sent_by_ip_since
  send_counted-Sent draws number purpose ip now w {w'} h =
      let (count, w₁, read, h₁) = bind-eq-ok _ _ w h in
      let (is_count, kept) = query-eq-ok _ w read in
      let (_, w₂, few, h₂) = bind-eq-ok _ _ w₁ h₁ in
      let (below, same₂) = reject-eq-ok _ _ w₁ few in
      let (ip_count, w₃, read₃, h₃) = bind-eq-ok _ _ w₂ h₂ in
      let (is_ip_count, kept₃) = query-eq-ok _ w₂ read₃ in
      let (_, w₄, few₄, h₄) = bind-eq-ok _ _ w₃ h₃ in
      let (below₄, same₄) = reject-eq-ok _ _ w₃ few₄ in
      let at₂ : w₂.db ≡ w.db = ap (λ (x : World). x.db) same₂ ∙ kept in
      let at₄ : w₄.db ≡ w.db = ap (λ (x : World). x.db) same₄ ∙ kept₃ ∙ at₂ in
      let by_ip : ip_count ≡ sent_by_ip ip now w.db = is_ip_count ∙ ap (sent_by_ip ip now) at₂ in
      let today_few : count < sms_daily_max = ground arith in
      let ip_few : ip_count < sms_ip_hourly_max = ground arith in
      (
        subst (λ n. n < sms_daily_max) is_count today_few,
        subst (λ n. n < sms_ip_hourly_max) by_ip ip_few,
        subst (λ db. Sent number purpose ip now db w'.db) at₄
            (send_drawn-Sent draws number purpose ip now w₄ h₄),
      )

  -- What holds of the database where a code is sent.
  abbrev pub Sendable : String → String → ℕ → Db → Type 0
  Sendable number ip now db =
      (is_too_soon (sent_second (newest number db)) now ≡ false)
      × (sent_today number now db < sms_daily_max)
      × (sent_by_ip ip now db < sms_ip_hourly_max)

  pub send_locked-Sent :
      (draws : ℕ → Option String) (number purpose ip : String) (now : ℕ) (w : World) {w' : World}
      → send_locked k s cfg draws number purpose ip now w ≡ (ok tt, w')
      → (is_configured k s cfg ≡ true)
        × Sendable number ip now w.db
        × Sent number purpose ip now w.db w'.db
  unfolding send_locked
  send_locked-Sent draws number purpose ip now w {w'} h =
      let (_, w₁, set_up, h₁) = bind-eq-ok _ _ w h in
      let (configured, same₁) = reject-eq-ok _ _ w set_up in
      let (_, w₂, secured, h₂) = bind-eq-ok _ _ w₁ h₁ in
      let (_, same₂) = reject-eq-ok _ _ w₁ secured in
      let (last, w₃, read, h₃) = bind-eq-ok _ _ w₂ h₂ in
      let (is_last, kept) = last_sent_at-ok number w₂ read in
      let (_, w₄, waited, h₄) = bind-eq-ok _ _ w₃ h₃ in
      let (late_enough, same₄) = reject-eq-ok _ _ w₃ waited in
      let at₂ : w₂.db ≡ w.db = ap (λ (x : World). x.db) (same₂ ∙ same₁) in
      let at₄ : w₄.db ≡ w.db = ap (λ (x : World). x.db) same₄ ∙ kept ∙ at₂ in
      let is_last_of : last ≡ sent_second (newest number w.db) =
        is_last ∙ ap (λ db. sent_second (newest number db)) at₂ in
      let (today, by_ip, sent) = send_counted-Sent draws number purpose ip now w₄ h₄ in
      (
        ground arith,
        (
          ap (λ o. is_too_soon o now) (sym is_last_of) ∙ late_enough,
          subst (λ db. sent_today number now db < sms_daily_max) at₄ today,
          subst (λ db. sent_by_ip ip now db < sms_ip_hourly_max) at₄ by_ip,
        ),
        subst (λ db. Sent number purpose ip now db w'.db) at₄ sent,
      )
