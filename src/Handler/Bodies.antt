-- ===== src/Handler/Bodies.antt =====
-- internal/handler/auth.go and user.go: the bodies of requests that may have to be encrypted, and
-- the address of a client.
use jd_shop_server.Common.{
  ℕ, String, Bool, Option, none, some, str_eq, if◌then◌else◌, trim_space, to_lower,
  before_semicolon,
}
use jd_shop_server.Cipher.{Crypto, RequestCipher, CipherResult, decrypt}

abbrev encrypted_type : String
encrypted_type = "application/jdshop-encrypted+json"

-- Whether the header announces an encrypted body.
unfoldable pub is_encrypted : String → Bool
is_encrypted content_type =
    str_eq (to_lower (trim_space (before_semicolon content_type))) encrypted_type

module _ {R : Type 0} (k : Crypto) (decode : String → Option R) (required : Bool) where
  abbrev decoded : RequestCipher × CipherResult String → RequestCipher × Option R
  decoded (cipher, CipherResult.ok raw) = (cipher, decode raw)
  decoded (cipher, CipherResult.err e) = (cipher, none)

  -- `decodeAuthBody` and `decodeUserBody`, of a body that can be read: `now` and `marked` are the
  -- readings of the clock in `Decrypt`.
  unfoldable pub decode_body :
      RequestCipher → String → String → String → ℕ → ℕ → RequestCipher × Option R
  unfolding decoded
  decode_body cipher path content_type raw now marked =
      if is_encrypted content_type
      then decoded (decrypt k cipher path raw now marked)
      else (cipher, if required then none else decode raw)

-- `requestIP`, given what `SplitHostPort` makes of the remote address.
unfoldable pub request_ip : String → Option String → String → String
request_ip real_ip host remote_addr =
    let ip = trim_space real_ip in
    if str_eq ip "" then host_or host (trim_space remote_addr) else ip
  where
    host_or : Option String → String → String
    host_or none other = other
    host_or (some h) other = h
