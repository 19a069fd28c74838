-- ===== src/Middleware/Authentic.antt =====
-- What the middleware of internal/middleware/auth.go lets through.
use jd_shop_server.Common.{
  ℕ, String, true, not, ◌||◌, ◌≡◌, ◌≢◌, refl, Option, none, some, ◌==◌, str_eq, drop_chars, find,
  arith, Bool-cases, inl, inr,
}
use jd_shop_server.Common.Int.{positive}
use jd_shop_server.Model.{User}
use jd_shop_server.Db.{Db, World, Result, ok, err}
use jd_shop_server.Db.Success.{query-eq-ok}
use jd_shop_server.Repository.Users.{has_id, state_of, token_state, version_of}
use jd_shop_server.Middleware.{
  RawClaims, Principal, unauthorized, authorized, bearer, claimed_version, judge, check_claims,
  check_token, auth,
}
use text.Mathlib.Text.{starts_with}

-- The user `id` is there, is not disabled, and `version` is the version of its tokens.
abbrev pub Admits : Db → ℕ → ℕ → Type 0
Admits db id version =
    (u : User) × (find (has_id id) db.users ≡ some u)
    × (u.status ≢ 0)
    × (version ≡ version_of id db)

judge-Admits :
    (claims : RawClaims) (db : Db) (id version : ℕ) (found : Option User) {p : Principal}
    → find (has_id id) db.users ≡ found
    → judge claims id version (ok (state_of (version_of id db) found)) ≡ authorized p
    → (p.user_id ≡ id) × Admits db id version
unfolding judge
judge-Admits claims db id version none e h = cc
judge-Admits claims db id version (some u) e h = elim (Bool-cases (u.status == 0)) [
  | inl off ↦ let absurd : unauthorized _ ≡ authorized _ = rw off at h in cc
  | inr on ↦ elim (Bool-cases (version_of id db == version)) [
    | inl same ↦
        let given : authorized _ ≡ authorized _ = rw (on, same) at h in
        (cc, (u, e, λ zero. ground arith, ground arith))
    | inr stale ↦ let absurd : unauthorized _ ≡ authorized _ = rw (on, stale) at h in cc
  ]
]

judge_authorized :
    (claims : RawClaims) (id version : ℕ) (w : World) (r : Result (Option (ℕ × ℕ))) (w' : World)
    {p : Principal}
    → token_state id w ≡ (r, w')
    → judge claims id version r ≡ authorized p
    → (p.user_id ≡ id) × Admits w.db id version
unfolding judge token_state
judge_authorized claims id version w (err e) w' t h = cc
judge_authorized claims id version w (ok s) w' t h =
    let (same, _) = query-eq-ok _ w t in judge-Admits claims w.db id version _ refl (rw same at h)

check_claims-authorized :
    (claims : RawClaims) (id version : Option ℕ) (w : World) {p : Principal}
    → (check_claims claims id version w).0 ≡ authorized p
    → (v : ℕ) × (id ≡ some p.user_id) × (version ≡ some v) × Admits w.db p.user_id v
unfolding check_claims
check_claims-authorized claims none version w h = cc
check_claims-authorized claims (some id) none w h = cc
check_claims-authorized claims (some id) (some version) w h =
    let (same, admits) = judge_authorized claims id version w _ _ refl h in
    (version, rw same, refl, rw same admits)

check_token-authorized :
    (parsed : Option RawClaims) (w : World) {p : Principal}
    → (check_token parsed w).0 ≡ authorized p
    → (claims : RawClaims) × (v : ℕ) × (parsed ≡ some claims)
      × (positive claims.sub ≡ some p.user_id)
      × (claimed_version claims.auth_version ≡ some v)
      × Admits w.db p.user_id v
unfolding check_token
check_token-authorized none w h = cc
check_token-authorized (some claims) w h =
    let (v, id, version, admits) = check_claims-authorized claims _ _ w h in
    (claims, v, refl, id, version, admits)

-- A request that the middleware lets through as `p` carries, after the prefix `Bearer `, a token
-- with a valid signature whose subject is `p`, and that user is in the database, has a status other
-- than 0, and has the version that the token claims.
pub auth_authorized :
    (parse : String → Option RawClaims) (header : String) (w : World) {p : Principal}
    → (auth parse header w).0 ≡ authorized p
    → (starts_with header bearer ≡ true)
      × (claims : RawClaims) × (v : ℕ) × (parse (drop_chars 7 header) ≡ some claims)
      × (positive claims.sub ≡ some p.user_id)
      × (claimed_version claims.auth_version ≡ some v)
      × Admits w.db p.user_id v
unfolding auth
auth_authorized parse header w h =
    elim (Bool-cases (str_eq header "" || not (starts_with header bearer))) [
      | inl refused ↦ let absurd : unauthorized _ ≡ authorized _ = rw refused at h in cc
      | inr passed ↦
          let (claims, v, parsed, id, version, admits) =
            check_token-authorized (parse (drop_chars 7 header)) w (rw passed at h) in
          (ground arith, claims, v, parsed, id, version, admits)
    ]
