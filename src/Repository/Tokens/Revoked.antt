-- ===== src/Repository/Tokens/Revoked.antt =====
-- A refresh token that was revoked stays so (internal/repository/token.go).
use jd_shop_server.Common.{
  ℕ, String, Bool, true, false, not, ◌&&◌, ◌≡◌, refl, ◌==◌, str_eq, some, List, find, is_some,
  update_where, arith, Bool-cases, inl, inr, find-update_where, find-select, eq_iff, delete_where,
  ◌≤◌,
}
use jd_shop_server.Time.{Timestamp, sqlite_datetime, text_lt}
use jd_shop_server.Model.{RefreshToken}
use jd_shop_server.Common.{find_passes, ==_refl}
use jd_shop_server.Db.Success.{exec-eq-ok}
use jd_shop_server.Db.{World, ok, Db, exec, Keeps}
use jd_shop_server.Db.Laws.{keeps_exec, keeps_insert_row, keeps_bind}
use jd_shop_server.Repository.Users.{revoke_access_tokens}
use jd_shop_server.Repository.Tokens.{has_hash, create, revoke, revoke_all_for_user, delete_expired}
use jd_shop_server.Repository.Stable.{Stable}

-- The row that a search for the hash finds is revoked.
abbrev pub Spent : String → Db → Type 0
Spent hash db =
    (t : RefreshToken) × (find (has_hash hash) db.refresh_tokens ≡ some t) × (t.revoked ≡ 1)

abbrev revoked_row : RefreshToken → RefreshToken
revoked_row t = record t { revoked = 1 }

-- An `UPDATE … SET revoked = 1`.
spent-update_where :
    (hash : String) (q : RefreshToken → Bool) (rows : List RefreshToken) (t : RefreshToken)
    → find (has_hash hash) rows ≡ some t
    → t.revoked ≡ 1
    → (u : RefreshToken) × (find (has_hash hash) (update_where q revoked_row rows) ≡ some u)
      × (u.revoked ≡ 1)
spent-update_where hash q rows t found one =
    let seen = find-update_where (has_hash hash) q revoked_row rows (λ x. refl) in
    elim (Bool-cases (q t)) [
      | inl marked ↦ (revoked_row t, rw (seen, found, marked), refl)
      | inr other ↦ (t, rw (seen, found, other), one)
    ]

module _ (hash : String) where
  create-Spent :
      (id : ℕ) (h : String) (expiry : Timestamp) (now : ℕ)
      → Keeps (Spent hash) (create id h expiry now)
  unfolding create find
  create-Spent id h expiry now = keeps_insert_row (Spent hash) _ _ λ db free (t, found, one).
      elim (Bool-cases (str_eq h hash)) [
        | inl same ↦
            let eq : h ≡ hash = (eq_iff h hash).0 same in
            let absent : is_some (find (has_hash hash) db.refresh_tokens) ≡ false = rw eq at free in
            let clash : true ≡ false = rw found at absent in cc
        | inr other ↦ (t, rw (other, found), one)
      ]

  delete_expired-Spent : (now : ℕ) → Keeps (Spent hash) (delete_expired now)
  unfolding delete_expired delete_where
  delete_expired-Spent now = keeps_exec (Spent hash) _ λ db (t, found, one). (
    t,
    find-select (has_hash hash)
        (λ u. not (text_lt u.expires_at (sqlite_datetime now) && u.revoked == 0)) db.refresh_tokens
        found (ground arith),
    one,
  )

  revoke_access_tokens-Spent : (id now : ℕ) → Keeps (Spent hash) (revoke_access_tokens id now)
  unfolding revoke_access_tokens
  revoke_access_tokens-Spent id now =
      keeps_bind (Spent hash) (exec _) _ (keeps_exec (Spent hash) _ (λ db p. p))
        (λ _. keeps_exec (Spent hash) _ (λ db p. p))

  pub Spent-Stable : Stable (Spent hash)
  unfolding revoke revoke_all_for_user
  Spent-Stable = record {
    users = λ db us n p. p;
    login_logs = λ db ls p. p;
    access_control = λ db ps p. p;
    registration_defaults = λ db rs p. p;
    roles = λ db rs n p. p;
    user_roles = λ db ls p. p;
    role_permissions = λ db ls p. p;
    sms_verifications = λ db vs n p. p;
    first_version = λ db j now free p. p;
    revoke_access_tokens = revoke_access_tokens-Spent;
    create_token = create-Spent;
    revoke = λ h.
        keeps_exec (Spent hash) _
          (λ db (t, found, one). spent-update_where hash _ db.refresh_tokens t found one);
    revoke_all_for_user = λ id.
        keeps_exec (Spent hash) _
          (λ db (t, found, one). spent-update_where hash _ db.refresh_tokens t found one);
    delete_expired = delete_expired-Spent;
  }

  -- Both ways to revoke a token make it spent.
  pub revoke-Spent :
      (db db' : Db) (t : RefreshToken)
      → find (has_hash hash) db.refresh_tokens ≡ some t
      → db' ≡ (record db {
        refresh_tokens = update_where (has_hash hash) revoked_row db.refresh_tokens;
      })
      → Spent hash db'
  revoke-Spent db db' t found e =
      let seen =
        find-update_where (has_hash hash) (has_hash hash) revoked_row db.refresh_tokens
          (λ x. refl) in
      let own = find_passes (has_hash hash) db.refresh_tokens found in
      rw e (revoked_row t, rw (seen, found, own), refl)

  pub revoke_all_for_user-Spent :
      (w : World) {w' : World} (t : RefreshToken)
      → find (has_hash hash) w.db.refresh_tokens ≡ some t
      → t.revoked ≤ 1
      → revoke_all_for_user t.user_id w ≡ (ok tt, w')
      → Spent hash w'.db
  unfolding revoke_all_for_user
  revoke_all_for_user-Spent w t found flag h =
      let q : RefreshToken → Bool = λ x. x.user_id == t.user_id && x.revoked == 0 in
      let seen = find-update_where (has_hash hash) q revoked_row w.db.refresh_tokens (λ x. refl) in
      let e = exec-eq-ok _ w h in
      rw e (elim (Bool-cases (t.revoked == 0)) [
        | inl live ↦
            let hit : q t ≡ true = rw (==_refl t.user_id, live) in
            (revoked_row t, rw (seen, found, hit), refl)
        | inr dead ↦
            let miss : q t ≡ false = rw (==_refl t.user_id, dead) in
            (t, rw (seen, found, miss), ground arith)
      ])
