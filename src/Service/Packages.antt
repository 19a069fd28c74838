-- ===== src/Service/Packages.antt =====
-- The settings of config/config.go that the services read, and the packages that they call: bcrypt
-- and the signing of JSON web tokens, which are not part of this repository, and the digests of
-- the standard library, of which nothing is used but that they are functions.
use jd_shop_server.Common.{ℕ, String, Bool, Option, List}

pub record AuthConfig : Type 0 where
  pub super_admin_username : String
  pub allow_legacy_registration : Bool
  pub access_token_ttl : ℕ
  pub refresh_token_ttl : ℕ
  pub login_max_attempts : ℕ
  pub login_lock_minutes : ℕ

pub record Claims : Type 0 where
  pub sub : ℕ
  pub username : String
  pub nickname : Option String
  pub roles : List String
  pub auth_version : ℕ
  pub iat : ℕ
  pub exp : ℕ
  pub jti : String

pub record Packages : Type 0 where
  -- `bcrypt.CompareHashAndPassword` has no error.
  pub compare_hash : String → String → Bool
  pub generate_hash : String → Option String
  -- `hashToken`: SHA-256, in hexadecimal.
  pub hash_token : String → String
  -- `hashCode`: HMAC with the server's pepper.
  pub hash_code : String → String
  pub sign : Claims → Option String
