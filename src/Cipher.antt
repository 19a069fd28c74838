-- ===== src/Cipher.antt =====
-- internal/service/request_crypto.go: the encrypted envelope of a request, its checks in their
-- order, and the table of request ids that have been used. Times are nanoseconds.
pub mod Replay
use jd_shop_server.Common.{
  ℕ, ◌+◌, ◌-◌, ◌*◌, ◌<◌, String, Bool, true, false, not, ◌&&◌, ◌||◌, Option, none, some, List, [],
  ◌∷◌, str_eq, ltb, ◌==◌, if◌then◌else◌, select, find, is_some, is_blank, trim_space,
}

pub record EncryptedRequest : Type 0 where
  pub version : ℕ
  pub algorithm : String
  pub key_id : String
  pub key : String
  pub nonce : String
  pub ciphertext : String
  pub timestamp : ℕ  -- Unix milliseconds
  pub request_id : String
  pub path : String

pub data CipherError : Type 0 where
  invalid_json invalid_key_version invalid_path_or_id expired already_used : CipherError
  invalid_key undecryptable_key invalid_nonce invalid_body : CipherError
  invalid_key_size invalid_nonce_size unauthentic : CipherError

pub data CipherResult {ℓ} (A : Type ℓ) : Type ℓ where
  ok : A → CipherResult A
  err : CipherError → CipherResult A

infixl 5 ◌>>=◌
abbrev pub ◌>>=◌ {ℓ κ} :
    {A : Type ℓ} {B : Type κ} → CipherResult A → (A → CipherResult B) → CipherResult B
ok a >>= f = f a
err e >>= f = err e

infixl 5 ◌>>◌
abbrev pub ◌>>◌ {ℓ} : {B : Type ℓ} → CipherResult (Unit {0}) → CipherResult B → CipherResult B
m >> k = m >>= λ _. k

abbrev guard : Bool → CipherError → CipherResult (Unit {0})
guard true e = ok tt
guard false e = err e

abbrev or_fail {ℓ} : {A : Type ℓ} → Option A → CipherError → CipherResult A
or_fail none e = err e
or_fail (some a) e = ok a

-- The packages that the source calls: JSON, base64, RSA-OAEP with the server's key, AES-GCM, and
-- `Sprintf("%s|%d|%s", …)`. Bytes are texts.
pub record Crypto : Type 0 where
  pub unmarshal : String → Option EncryptedRequest
  pub base64 : String → Option String
  pub decrypt_oaep : String → String → Option String
  pub new_cipher : String → Bool
  pub nonce_size_ok : String → String → Bool
  pub aad : String → ℕ → String → String
  pub open_sealed : String → String → String → String → Option String

pub record RequestCipher : Type 0 where
  pub key_id : String
  pub seen : List (String × ℕ)

abbrev pub encrypted_envelope_version : ℕ
encrypted_envelope_version = 1

-- 2 * time.Minute
abbrev pub encrypted_envelope_window : ℕ
encrypted_envelope_window = 120_000_000_000

-- `time.UnixMilli`.
abbrev pub unix_milli : ℕ → ℕ
unix_milli ms = ms * 1_000_000

abbrev pub is_id : String → String × ℕ → Bool
is_id id (key, _) = str_eq key id

-- An entry of `seen` that the loop keeps: the deadline has not passed.
abbrev pub is_live : ℕ → String × ℕ → Bool
is_live now (_, deadline) = not (ltb deadline now)

-- `now` is the instant at which the lock is held.
unfoldable pub mark_request_id : List (String × ℕ) → String → ℕ → ℕ → List (String × ℕ) × Bool
mark_request_id seen id expires now =
    let live = select (is_live now) seen in
    if is_some (find (is_id id) live) then (live, false) else ((id, expires) ∷ live, true)

module _ (k : Crypto) where
  -- The checks before the request id is marked.
  unfoldable pub check_envelope : String → String → String → ℕ → CipherResult EncryptedRequest
  check_envelope own_key path raw now = do
    env ← or_fail (k.unmarshal raw) invalid_json
    guard
        (env.version == encrypted_envelope_version
          && str_eq env.algorithm "RSA-OAEP-256+A256GCM"
          && str_eq env.key_id own_key)
        invalid_key_version
    guard (str_eq env.path path && not (is_blank (trim_space env.request_id))) invalid_path_or_id
    guard
        (not (
          ltb (unix_milli env.timestamp + encrypted_envelope_window) now
          || ltb (now + encrypted_envelope_window) (unix_milli env.timestamp)))
        expired
    ok env

  -- The steps after it.
  unfoldable pub unwrap : EncryptedRequest → CipherResult String
  unwrap env = do
    wrapped_key ← or_fail (k.base64 env.key) invalid_key
    aes_key ← or_fail (k.decrypt_oaep wrapped_key env.request_id) undecryptable_key
    nonce ← or_fail (k.base64 env.nonce) invalid_nonce
    ciphertext ← or_fail (k.base64 env.ciphertext) invalid_body
    guard (k.new_cipher aes_key) invalid_key_size
    guard (k.nonce_size_ok aes_key nonce) invalid_nonce_size
    or_fail (k.open_sealed aes_key nonce ciphertext (k.aad env.path env.timestamp env.request_id))
        unauthentic

  -- `Decrypt` from the marking of the request id on, given the outcome of the checks.
  unfoldable pub proceed :
      RequestCipher → ℕ → ℕ → CipherResult EncryptedRequest → RequestCipher × CipherResult String
  proceed c now marked (err e) = (c, err e)
  proceed c now marked (ok env) =
      let (seen, fresh) =
        mark_request_id c.seen env.request_id (now + encrypted_envelope_window) marked in
      (record c { seen = seen }, if fresh then unwrap env else err already_used)

  -- `now` is the reading of the clock in `Decrypt`, `marked` the one in `markRequestID`.
  unfoldable pub decrypt :
      RequestCipher → String → String → ℕ → ℕ → RequestCipher × CipherResult String
  unfolding proceed
  decrypt c path raw now marked = proceed c now marked (check_envelope c.key_id path raw now)
