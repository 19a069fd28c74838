-- ===== src/Middleware.antt =====
-- internal/middleware/auth.go and rbac.go: who a request comes from, and what its roles allow.
pub mod Authentic
use jd_shop_server.Common.{
  ℕ, String, Bool, true, false, not, ◌&&◌, ◌||◌, Option, none, some, List, [], ◌∷◌, ◌==◌, str_eq,
  if◌then◌else◌, drop_chars,
}
use jd_shop_server.Common.Int.{ℤ, pos, negsuc, positive}
use jd_shop_server.Db.{World, Result, ok, err, M}
use jd_shop_server.Repository.Users.{token_state}
use text.Mathlib.Text.{starts_with}

-- The claim `auth_version` of a token: absent, no number, or a number.
pub data VersionClaim : Type 0 where
  absent not_a_number : VersionClaim
  number : ℤ → VersionClaim

-- What `jwt.Parse` gives for a token with a valid HMAC signature that has not expired.
pub record RawClaims : Type 0 where
  pub sub : Option ℤ
  pub auth_version : VersionClaim
  pub username : Option String
  pub roles : List (Option String)  -- none for what is no text

pub data Refusal : Type 0 where
  no_credentials invalid_token bad_claims account_gone stale_token : Refusal

pub record Principal : Type 0 where
  pub user_id : ℕ
  pub username : String
  pub roles : List String

-- The answer 401 with a message, or the context that the next handler gets.
pub data Verdict : Type 0 where
  unauthorized : Refusal → Verdict
  authorized : Principal → Verdict

unfoldable pub texts : List (Option String) → List String
texts [] = []
texts (none ∷ rs) = texts rs
texts (some r ∷ rs) = r ∷ texts rs

abbrev pub text_or_empty : Option String → String
text_or_empty none = ""
text_or_empty (some s) = s

-- The version that a token claims, 1 if it claims none.
abbrev pub claimed_version : VersionClaim → Option ℕ
claimed_version absent = some 1
claimed_version not_a_number = none
claimed_version (number v) = positive (some v)

-- The decision on the state of the account.
unfoldable pub judge : RawClaims → ℕ → ℕ → Result (Option (ℕ × ℕ)) → Verdict
judge claims id version (err e) = unauthorized account_gone
judge claims id version (ok none) = unauthorized account_gone
judge claims id version (ok (some (status, current))) =
    if status == 0
    then unauthorized account_gone
    else if not (current == version)
    then unauthorized stale_token
    else authorized (record {
      user_id = id;
      username = text_or_empty claims.username;
      roles = texts claims.roles;
    })

unfoldable pub check_claims : RawClaims → Option ℕ → Option ℕ → World → Verdict × World
check_claims claims none version w = (unauthorized bad_claims, w)
check_claims claims (some id) none w = (unauthorized bad_claims, w)
check_claims claims (some id) (some version) w =
    let (r, w') = token_state id w in (judge claims id version r, w')

unfoldable pub check_token : Option RawClaims → World → Verdict × World
check_token none w = (unauthorized invalid_token, w)
check_token (some claims) w =
    check_claims claims (positive claims.sub) (claimed_version claims.auth_version) w

abbrev pub bearer : String
bearer = "Bearer "

-- `parse` is `jwt.Parse` at the instant of the request; the header is "" where there is none, and
-- what follows the seven characters of the prefix is the token.
unfoldable pub auth : (String → Option RawClaims) → String → World → Verdict × World
auth parse header w =
    if str_eq header "" || not (starts_with header bearer)
    then (unauthorized no_credentials, w)
    else check_token (parse (drop_chars 7 header)) w

unfoldable pub contains : List String → String → Bool
contains [] role = false
contains (r ∷ rs) role = str_eq r role || contains rs role

-- `RequireRole`, `RequireSuperAdmin` and `RequirePermission`: `true` runs the handler.
unfoldable pub require_role : String → Principal → Bool
require_role role p = contains p.roles role

unfoldable pub require_super_admin : String → Principal → Bool
require_super_admin name p =
    let super = if str_eq name "" then "admin" else name in
    str_eq p.username super && contains p.roles "admin"

unfoldable pub require_permission : String → Principal → Bool
require_permission permission p = contains p.roles "admin"
