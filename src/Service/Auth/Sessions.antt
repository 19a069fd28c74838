-- ===== src/Service/Auth/Sessions.antt =====
-- How often, and under what conditions, a refresh token gives new tokens (internal/service/auth.go).
use jd_shop_server.Common.{
  ℕ, String, true, false, ◌≡◌, ◌≢◌, refl, Option, none, some, ◌==◌, find, arith, Bool-cases, inl,
  inr,
}
use jd_shop_server.Time.{parse_rfc3339}
use jd_shop_server.Model.{RefreshToken, RefreshResponse}
use jd_shop_server.Db.{Db, World, ok}
use jd_shop_server.Db.Success.{bind-eq-ok, query-eq-ok, fail-ne-ok}
use jd_shop_server.Repository.Tokens
use jd_shop_server.Repository.Tokens.{has_hash}
use jd_shop_server.Repository.Tokens.Revoked.{Spent}
use jd_shop_server.Service.Packages.{Packages}
use jd_shop_server.Service.Auth.{Context, is_stale, refresh_stored, refresh_token}
use jd_shop_server.Service.Auth.{refresh_tokens, refresh_user}
use jd_shop_server.Model.{User, AccountAccess}
use jd_shop_server.Repository.Users
use jd_shop_server.Repository.Users.{has_id}
use jd_shop_server.Repository.Users.Lookups.{find_by_id-eq-some}
use jd_shop_server.Time.{nanos}
use jd_shop_server.Db.Success.{pure-eq-ok, reject-eq-ok, bind_kept, attempt-eq-some}
use jd_shop_server.Db.Laws.{keeps_ignore_error, keeps_exec}
use jd_shop_server.Common.{◌≤◌, ◌*◌, ap, sym, ◌∙◌}

-- What the database holds where a refresh succeeds: the token, neither revoked nor expired at the
-- instant `now`, and its user, with status 1.
abbrev pub Refreshable : String → ℕ → Db → Type 0
Refreshable hash now db =
    (t : RefreshToken) × (find (has_hash hash) db.refresh_tokens ≡ some t)
    × (t.revoked ≢ 1)
    × (e : ℕ) × (parse_rfc3339 t.expires_at ≡ some e)
    × (now ≤ e * nanos)
    × (u : User) × (find (has_id t.user_id) db.users ≡ some u)
    × (u.status ≡ 1)

not_stale :
    (expiry : Option ℕ) (now : ℕ)
    → is_stale expiry now ≡ false
    → (e : ℕ) × (expiry ≡ some e) × (now ≤ e * nanos)
not_stale none now h = cc
not_stale (some e) now h = (e, refl, ground arith)

module _ (k : Packages) (c : Context) where
  refresh_tokens-ok :
      (u : User) (access : AccountAccess) (w : World) {r : RefreshResponse} {w' : World}
      → refresh_tokens k c u access w ≡ (ok r, w')
      → r.access ≡ access
  unfolding refresh_tokens
  refresh_tokens-ok u access w h =
      let (_, w₁, _, h₁) = bind-eq-ok _ _ w h in
      let (_, w₂, _, h₂) = bind-eq-ok _ _ w₁ h₁ in
      let (_, w₃, _, h₃) = bind-eq-ok _ _ w₂ h₂ in
      let (made, _) = pure-eq-ok _ w₃ h₃ in ap (λ (x : RefreshResponse). x.access) (sym made)

  refresh_user-ok :
      (found : Option User) (w : World) {r : RefreshResponse} {w' : World}
      → refresh_user k c found w ≡ (ok r, w')
      → (u : User) × (found ≡ some u) × (u.status ≡ 1) × (r.access.allowed ≡ true)
  unfolding refresh_user
  refresh_user-ok none w h = elim (fail-ne-ok _ _ w h) [ ]
  refresh_user-ok (some u) w {r} h =
      let (_, w₁, enabled, h₁) = bind-eq-ok _ _ w h in
      let (status, _) = reject-eq-ok _ _ w enabled in
      let (access, w₂, _, h₂) = bind-eq-ok _ _ w₁ h₁ in
      let (_, w₃, _, h₃) = bind-eq-ok _ _ w₂ h₂ in
      let (_, w₄, allowed, h₄) = bind-eq-ok _ _ w₃ h₃ in
      let (yes_allowed, _) = reject-eq-ok _ _ w₃ allowed in
      let same = refresh_tokens-ok u access w₄ h₄ in
      let allowed_now : access.allowed ≡ true = ground arith in
      (u, refl, ground arith, rw same allowed_now)

  pub refresh_stored-ok :
      (hash : String) (found : Option RefreshToken) (w : World) {r : RefreshResponse} {w' : World}
      → refresh_stored k c hash found w ≡ (ok r, w')
      → (t : RefreshToken) × (found ≡ some t)
        × (t.revoked ≢ 1)
        × (is_stale (parse_rfc3339 t.expires_at) c.now ≡ false)
        × (w₁ : World) × (w₂ : World) × (u : User) × (w₁.db.users ≡ w.db.users)
        × (Users.find_by_id t.user_id w₁ ≡ (ok (some u), w₂))
        × (u.status ≡ 1)
        × (r.access.allowed ≡ true)
  unfolding refresh_stored Tokens.revoke
  refresh_stored-ok hash none w h = elim (fail-ne-ok _ _ w h) [ ]
  refresh_stored-ok hash (some t) w {r} {w'} h = elim (Bool-cases (t.revoked == 1)) [
    | inl spent ↦ elim (fail-ne-ok _ _ w (rw spent at h)) [ ]
    | inr unspent ↦ elim (Bool-cases (is_stale (parse_rfc3339 t.expires_at) c.now)) [
      | inl stale ↦
          let (_, w₁, _, h₁) = bind-eq-ok _ _ w (rw (unspent, stale) at h) in
          elim (fail-ne-ok _ _ w₁ h₁) [ ]
      | inr fresh ↦
          let P : Db → Type 0 = λ db. db.users ≡ w.db.users in
          let (_, w₁, same, h₁) =
            bind_kept P (keeps_ignore_error P _ (keeps_exec P _ (λ db p. p))) w
              (rw (unspent, fresh) at h) refl in
          let (found, w₂, looked, h₂) = bind-eq-ok _ _ w₁ h₁ in
          let (u, is_u, enabled, allowed) = refresh_user-ok found w₂ h₂ in
          let found_u : Users.find_by_id t.user_id w₁ ≡ (ok (some u), w₂) =
            attempt-eq-some _ w₁ (rw is_u at looked) in
          (t, refl, λ one. ground arith, fresh, w₁, w₂, u, same, found_u, enabled, allowed)
    ]
  ]

  -- Where a refresh succeeds, the database held the token, neither revoked nor expired, and its user,
  -- with status 1, and the access that is answered is allowed.
  pub refresh_token-ok :
      (token : String) (w : World) {r : RefreshResponse} {w' : World}
      → refresh_token k c token w ≡ (ok r, w')
      → Refreshable (k.hash_token token) c.now w.db × (r.access.allowed ≡ true)
  unfolding refresh_token Tokens.find_by_hash
  refresh_token-ok token w h =
      let (found, w₁, read, rest) = bind-eq-ok _ _ w h in
      let (same, kept) = query-eq-ok _ w read in
      let (t, is_t, unspent, fresh, w₂, w₃, u, users, looked, enabled, allowed) =
        refresh_stored-ok (k.hash_token token) found w₁ rest in
      let (e, expiry, in_time) = not_stale _ _ fresh in
      let (u₀, roles, is_u₀, is_u) = find_by_id-eq-some t.user_id w₂ looked in
      let tokens : find (has_hash (k.hash_token token)) w.db.refresh_tokens ≡ some t = cc in
      let same_users : w₂.db.users ≡ w.db.users = users ∙ ap (λ (db : Db). db.users) kept in
      let is_user : find (has_id t.user_id) w.db.users ≡ some u₀ = rw (← same_users) is_u₀ in
      let status : u₀.status ≡ 1 = ap (λ (x : User). x.status) (sym is_u) ∙ enabled in
      ((t, tokens, unspent, e, expiry, in_time, u₀, is_user, status), allowed)

  -- A revoked token is refused.
  pub refresh_token-Spent :
      (token : String) (w : World) {r : RefreshResponse} {w' : World}
      → Spent (k.hash_token token) w.db
      → refresh_token k c token w ≢ (ok r, w')
  refresh_token-Spent token w (t, found, one) h =
      let ((t', found', unspent, _, _, _, _, _, _), _) = refresh_token-ok token w h in
      unspent (ground arith)
