-- ===== src/Service/Auth/Rotation.antt =====
-- The rotation of refresh tokens (internal/service/auth.go) over histories of requests.
use jd_shop_server.Common.{ℕ, String, ◌≡◌, ◌≢◌, List, [], some, find, str_eq, false}
use jd_shop_server.Model.{RefreshResponse, RefreshToken}
use jd_shop_server.Db.{World, ok}
use jd_shop_server.Db.Success.{bind-eq-ok, query-eq-ok, query-faults, ignore_error-exec, exec-eq-ok}
use jd_shop_server.Db.Laws.{kept_at}
use jd_shop_server.Repository.Tokens
use jd_shop_server.Repository.Tokens.{has_hash}
use jd_shop_server.Repository.Tokens.Revoked.{Spent, Spent-Stable, revoke-Spent}
use jd_shop_server.Service.Packages.{Packages}
use jd_shop_server.Service.Auth.{Context, refresh_token, refresh_stored, logout}
use jd_shop_server.Service.Auth.Sessions.{refresh_token-Spent, refresh_token-ok}
use jd_shop_server.Service.Stable.Histories.{Operation, perform_all, perform_all-Stable}
use jd_shop_server.Db.Laws.{keeps_attempt}
use jd_shop_server.Time.{parse_rfc3339}
use jd_shop_server.Repository.Stable.{keeps_find_by_id}
use jd_shop_server.Service.Stable.Auth.{keeps_refresh_user}
use jd_shop_server.Service.Auth.{is_stale}
use jd_shop_server.Service.Auth.Sessions.{refresh_token-ok}
use jd_shop_server.Common.{◌==◌, ◌∙◌, none}
use jd_shop_server.Db.{M, Keeps, attempt, ignore_error, ◌>>=◌}
use jd_shop_server.Repository.Users
use jd_shop_server.Service.Auth.{refresh_user}
use jd_shop_server.Db.Laws.{keeps_bind}
use jd_shop_server.Db.Success.{fail-ne-ok}
use jd_shop_server.Db.{◌>>◌}
use jd_shop_server.Common.{Bool-cases, inl, inr}

module _ (k : Packages) where
  pub never_again :
      (token : String) (c : Context) (w : World) {r : RefreshResponse} {w' : World}
      (ops : List (Operation × Context))
      → Spent (k.hash_token token) w.db
      → refresh_token k c token (perform_all k ops w) ≢ (ok r, w')
  never_again token c w ops spent =
      let later = perform_all-Stable k (Spent (k.hash_token token)) (Spent-Stable _) ops w spent in
      refresh_token-Spent k c token (perform_all k ops w) later

  -- What follows the revocation of the old token.
  abbrev found_user_refreshed : Context → ℕ → M RefreshResponse
  found_user_refreshed c id = do user ← attempt none (Users.find_by_id id); refresh_user k c user

  found_user_keeps :
      (c : Context) (hash : String) (id : ℕ) → Keeps (Spent hash) (found_user_refreshed c id)
  found_user_keeps c hash id =
      keeps_bind (Spent hash) (attempt none (Users.find_by_id id)) _
        (keeps_attempt (Spent hash) none _ (keeps_find_by_id (Spent hash) (Spent-Stable hash) id))
        (keeps_refresh_user (Spent hash) (Spent-Stable hash) k c)

  revocation_spends :
      (c : Context) (hash : String) (t : RefreshToken) (w : World) {r : RefreshResponse}
      {w' : World}
      → w.faults ≡ []
      → find (has_hash hash) w.db.refresh_tokens ≡ some t
      → (ignore_error (Tokens.revoke hash) >> found_user_refreshed c t.user_id) w ≡ (ok r, w')
      → Spent hash w'.db
  unfolding Tokens.revoke
  revocation_spends c hash t w sound found h =
      let (_, w₁, revoked, rest) =
        bind-eq-ok (ignore_error (Tokens.revoke hash)) (λ _. found_user_refreshed c t.user_id) w
          h in
      kept_at (Spent hash) (found_user_keeps c hash t.user_id) w₁ rest
        (revoke-Spent hash w.db w₁.db t found (ignore_error-exec _ w sound revoked))

  refresh_stored_spends :
      (c : Context) (hash : String) (t : RefreshToken) (w : World) {r : RefreshResponse}
      {w' : World}
      → w.faults ≡ []
      → find (has_hash hash) w.db.refresh_tokens ≡ some t
      → refresh_stored k c hash (some t) w ≡ (ok r, w')
      → Spent hash w'.db
  unfolding refresh_stored
  refresh_stored_spends c hash t w sound found h = elim (Bool-cases (t.revoked == 1)) [
    | inl spent ↦ elim (fail-ne-ok _ _ w (rw spent at h)) [ ]
    | inr live ↦ elim (Bool-cases (is_stale (parse_rfc3339 t.expires_at) c.now)) [
      | inl stale ↦
          let (_, w₁, _, rest) = bind-eq-ok _ _ w (rw (live, stale) at h) in
          elim (fail-ne-ok _ _ w₁ rest) [ ]
      | inr in_time ↦ revocation_spends c hash t w sound found (rw (live, in_time) at h)
    ]
  ]

  refresh_token_spends :
      (c : Context) (token : String) (w : World) {r : RefreshResponse} {w' : World}
      → w.faults ≡ []
      → refresh_token k c token w ≡ (ok r, w')
      → Spent (k.hash_token token) w'.db
  unfolding refresh_token Tokens.find_by_hash
  refresh_token_spends c token w sound h =
      let (found, w₁, read, rest) = bind-eq-ok _ _ w h in
      let (same, kept) = query-eq-ok _ w read in
      let ((t, is_t, _, _, _, _, _, _, _), _) = refresh_token-ok k c token w h in
      let is_found : found ≡ some t = same ∙ is_t in
      let here : find (has_hash (k.hash_token token)) w₁.db.refresh_tokens ≡ some t =
        rw kept is_t in
      refresh_stored_spends c (k.hash_token token) t w₁ (query-faults _ w sound read) here
        (rw is_found at rest)

  -- A refresh token that gave new tokens while no statement failed never does so again, whatever
  -- operations follow, each with any statements failing.
  pub refresh_token_once :
      (c c' : Context) (token : String) (w : World) {r r' : RefreshResponse} {w' w'' : World}
      (ops : List (Operation × Context))
      → w.faults ≡ []
      → refresh_token k c token w ≡ (ok r, w')
      → refresh_token k c' token (perform_all k ops w') ≢ (ok r', w'')
  refresh_token_once c c' token w {r} {r'} {w'} ops sound h =
      never_again token c' w' ops (refresh_token_spends c token w sound h)

  -- A refresh token that was logged out is never refreshed again, whatever operations follow.
  pub logout_final :
      (c c' : Context) (token : String) (t : RefreshToken) (w : World) {r : RefreshResponse}
      {w' w'' : World} (ops : List (Operation × Context))
      → str_eq token "" ≡ false
      → find (has_hash (k.hash_token token)) w.db.refresh_tokens ≡ some t
      → logout k c token w ≡ (ok tt, w')
      → refresh_token k c' token (perform_all k ops w') ≢ (ok r, w'')
  unfolding logout Tokens.revoke
  logout_final c c' token t w {w' = w'} ops given found h =
      let left = exec-eq-ok _ w (rw given at h) in
      never_again token c' w' ops (revoke-Spent _ w.db w'.db t found left)
