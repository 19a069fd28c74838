-- ===== src/Service/Sms.antt =====
-- internal/service/sms.go: phone numbers and the verification of codes.
pub mod Codes
pub mod Sending
use Prim.Native.Char.{code}
use jd_shop_server.Common.{
  ℕ, ◌+◌, ◌-◌, String, Bool, false, not, ◌&&◌, ◌||◌, Option, none, some, ◌==◌, str_eq, ltb, leb,
  if◌then◌else◌, trim_space,
}
use jd_shop_server.Time.{is_after}
use jd_shop_server.Db.{
  invalid_phone, sms_code_invalid, sms_code_expired, sms_code_not_found, M, pure, fail, ◌>>=◌, ◌>>◌,
}
use jd_shop_server.Repository.Sms.{Verification, latest, increment_attempts, consume}
use jd_shop_server.Service.Packages.{Packages}

abbrev pub sms_max_attempts : ℕ
sms_max_attempts = 5

-- `SMSPurposeRegister` and `SMSPurposePasswordReset`.
abbrev pub purpose_register : String
purpose_register = "register"

abbrev pub purpose_password_reset : String
purpose_password_reset = "password_reset"

is_digit : ℕ → Bool
is_digit c = leb b'0' c && leb c b'9'

-- `[0-9]{n}$`.
digits : ℕ → String → Bool
unfolding is_digit
digits n String.[] = n == 0
digits n (String.◌∷◌ c s) = is_digit (code c) && (ltb 0 n && digits (n - 1) s)

-- `[3-9][0-9]{9}$`.
second_digit : String → Bool
unfolding digits
second_digit String.[] = false
second_digit (String.◌∷◌ c s) = leb b'3' (code c) && leb (code c) b'9' && digits 9 s

-- `^1[3-9][0-9]{9}$`.
unfoldable pub matches_phone : String → Bool
unfolding second_digit
matches_phone String.[] = false
matches_phone (String.◌∷◌ c s) = (code c == b'1') && second_digit s

unfoldable pub normalize_phone : String → M String
normalize_phone phone =
    let trimmed = trim_space phone in
    if matches_phone trimmed then pure trimmed else fail invalid_phone

unfoldable pub refuse_code : Verification → M (Unit {0})
refuse_code v = do
  increment_attempts v.id (leb sms_max_attempts (v.attempts + 1))
  fail sms_code_invalid

module _ (k : Packages) where
  -- The branches of `VerifyCode` once the latest code is found.
  unfoldable pub check_code : Verification → String → ℕ → M (Unit {0})
  check_code v code now =
      if v.consumed || is_after now v.expires_at
      then fail sms_code_expired
      else if leb sms_max_attempts v.attempts || not (str_eq (k.hash_code code) v.code_hash)
      then refuse_code v
      else consume v.id

  unfoldable pub check_found : Option Verification → String → ℕ → M (Unit {0})
  check_found none code now = fail sms_code_not_found
  check_found (some v) code now = check_code v code now

  unfoldable pub verify_code : String → String → String → ℕ → M (Unit {0})
  verify_code phone purpose code now = do
    number ← normalize_phone phone
    found ← latest number purpose
    check_found found code now
