-- ===== src/Repository/Sms.antt =====
-- internal/repository/sms_verification.go: the codes that were sent.
use jd_shop_server.Common.{
  ℕ, suc, ◌+◌, String, Bool, ◌&&◌, Option, none, some, ◌∷◌, ◌==◌, str_eq, if◌then◌else◌, find,
  update_where, count_where,
}
use jd_shop_server.Time.{Timestamp, format_rfc3339, text_le, parse_rfc3339, parse_datetime}
use jd_shop_server.Model.{SmsVerification}
use jd_shop_server.Db.{M, pure, fail, storage, ◌>>=◌, query, exec}

-- `SELECT … WHERE phone = ? ORDER BY id DESC LIMIT 1`: rows stand newest first.
abbrev pub has_phone : String → SmsVerification → Bool
has_phone phone v = str_eq v.phone phone

abbrev pub has_phone_and_purpose : String → String → SmsVerification → Bool
has_phone_and_purpose phone purpose v = str_eq v.phone phone && str_eq v.purpose purpose

abbrev pub has_id : ℕ → SmsVerification → Bool
has_id id v = v.id == id

abbrev pub or_parse : Option ℕ → Option ℕ → Option ℕ
or_parse (some s) second = some s
or_parse none second = second

-- The second since 1970 of either text.
unfoldable pub parse_timestamp : Timestamp → Option ℕ
parse_timestamp t = or_parse (parse_rfc3339 t) (parse_datetime t)

unfoldable pub parsed_or_fail : Option ℕ → M ℕ
parsed_or_fail none = fail storage
parsed_or_fail (some s) = pure s

unfoldable pub sent_at_of : Option SmsVerification → M (Option ℕ)
sent_at_of none = pure none
sent_at_of (some v) = do s ← parsed_or_fail (parse_timestamp v.sent_at); pure (some s)

unfoldable pub last_sent_at : String → M (Option ℕ)
last_sent_at phone = do
  found ← query (λ db. find (has_phone phone) db.sms_verifications)
  sent_at_of found

abbrev pub code_hash_or_empty : Option SmsVerification → String
code_hash_or_empty none = ""
code_hash_or_empty (some v) = v.code_hash

unfoldable pub last_code_hash : String → M String
last_code_hash phone =
    query (λ db. code_hash_or_empty (find (has_phone phone) db.sms_verifications))

unfoldable pub count_sent_since : String → ℕ → M ℕ
count_sent_since phone since = query λ db.
    count_where (λ v. str_eq v.phone phone && text_le (format_rfc3339 since) v.sent_at)
      db.sms_verifications

unfoldable pub count_sent_by_ip_since : String → ℕ → M ℕ
count_sent_by_ip_since ip since = query λ db.
    count_where (λ v. str_eq v.request_ip ip && text_le (format_rfc3339 since) v.sent_at)
      db.sms_verifications

unfoldable pub create : String → String → String → ℕ → ℕ → String → M (Unit {0})
create phone purpose code_hash sent_at expires_at request_ip = exec λ db. record db {
  sms_verifications =
      record {
        id = db.next_sms;
        phone = phone;
        purpose = purpose;
        code_hash = code_hash;
        sent_at = format_rfc3339 sent_at;
        expires_at = format_rfc3339 expires_at;
        attempts = 0;
        consumed = 0;
        request_ip = request_ip;
      }
      ∷ db.sms_verifications;
  next_sms = suc db.next_sms;
}

-- What `VerifyCode` reads of a row, the times parsed.
pub record Verification : Type 0 where
  pub id : ℕ
  pub code_hash : String
  pub sent_at : ℕ
  pub expires_at : ℕ
  pub attempts : ℕ
  pub consumed : Bool

unfoldable pub verification_of : Option SmsVerification → M (Option Verification)
verification_of none = pure none
verification_of (some v) = do
  sent_at ← parsed_or_fail (parse_timestamp v.sent_at)
  expires_at ← parsed_or_fail (parse_timestamp v.expires_at)
  pure (
      some (record {
        id = v.id;
        code_hash = v.code_hash;
        sent_at = sent_at;
        expires_at = expires_at;
        attempts = v.attempts;
        consumed = v.consumed == 1;
      }))

unfoldable pub latest : String → String → M (Option Verification)
latest phone purpose = do
  found ← query (λ db. find (has_phone_and_purpose phone purpose) db.sms_verifications)
  verification_of found

unfoldable pub increment_attempts : ℕ → Bool → M (Unit {0})
increment_attempts id consume = exec λ db. record db {
  sms_verifications =
      update_where (has_id id)
        (λ v. record v { attempts = v.attempts + 1; consumed = if consume then 1 else v.consumed })
        db.sms_verifications;
}

unfoldable pub consume : ℕ → M (Unit {0})
consume id = exec λ db. record db {
  sms_verifications =
      update_where (has_id id) (λ v. record v { consumed = 1 }) db.sms_verifications;
}
