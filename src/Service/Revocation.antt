-- ===== src/Service/Revocation.antt =====
-- Access tokens after internal/service/admin.go and internal/service/user.go made them stale.
pub mod Refresh
use jd_shop_server.Common.{
  ℕ, ◌+◌, ◌≤◌, ◌≡◌, ◌≢◌, String, Option, some, arith, drop_chars, ap, List, ◌<◌,
}
use jd_shop_server.Common.Int.{positive}
use jd_shop_server.Model.{ChangePasswordRequest}
use jd_shop_server.Db.{Db, World, ok, when}
use jd_shop_server.Db.Success.{bind-eq-ok, exec-eq-ok, transaction-eq-ok}
use jd_shop_server.Repository.Users.{
  version_of, bump_version, revoke_access_tokens, update_status, update_password,
}
use jd_shop_server.Repository.Users.Versions.{
  AtLeast, in_rows, in_rows_fresh, in_rows_revoked, keeps_revoke_access_tokens,
}
use jd_shop_server.Repository.Stable.{Stable}
use jd_shop_server.Repository.Tokens
use jd_shop_server.Db.Laws.{keeps_exec, keeps_insert_row}
use jd_shop_server.Time.{format_rfc3339}
use jd_shop_server.Middleware.{RawClaims, Principal, authorized, auth, claimed_version}
use jd_shop_server.Middleware.Authentic.{auth_authorized}
use jd_shop_server.Service.Packages.{Packages}
use jd_shop_server.Service.Auth.{Context}
use jd_shop_server.Service.Admin.{update_user_status}
use jd_shop_server.Service.Users.{change_password}
use jd_shop_server.Service.Stable.Histories.{Operation, perform_all, perform_all-Stable}
use jd_shop_server.Service.Stable.Admin.{keeps_ordinary_user}
use jd_shop_server.Service.Stable.Auth.{keeps_prove_identity, keeps_or_storage, keeps_user_or_fail}
use jd_shop_server.Repository.Stable.{keeps_find_by_id}
use jd_shop_server.Db.Laws.{kept_at, keeps_notify, keeps_ignore_error}
use jd_shop_server.Db.Success.{bind_kept}

-- The version of a user's access tokens never falls.
pub AtLeast-Stable : (id v : ℕ) → Stable (AtLeast id v)
unfolding version_of Tokens.create Tokens.revoke Tokens.revoke_all_for_user Tokens.delete_expired
AtLeast-Stable id v = record {
  users = λ db us n p. p;
  login_logs = λ db ls p. p;
  access_control = λ db ps p. p;
  registration_defaults = λ db rs p. p;
  roles = λ db rs n p. p;
  user_roles = λ db ls p. p;
  role_permissions = λ db ls p. p;
  sms_verifications = λ db vs n p. p;
  first_version = λ db j now free p. rw (in_rows_fresh id j now db.auth_versions free) p;
  revoke_access_tokens = keeps_revoke_access_tokens id v;
  create_token = λ j hash expiry now. keeps_insert_row _ _ _ (λ db free p. p);
  revoke = λ hash. keeps_exec _ _ (λ db p. p);
  revoke_all_for_user = λ j. keeps_exec _ _ (λ db p. p);
  delete_expired = λ now. keeps_exec _ _ (λ db p. p);
}

-- The two statements together raise the version by one.
pub version_of-revoke_access_tokens :
    (id now : ℕ) (w : World) {w' : World}
    → revoke_access_tokens id now w ≡ (ok tt, w')
    → version_of id w'.db ≡ version_of id w.db + 1
unfolding revoke_access_tokens version_of
version_of-revoke_access_tokens id now w h =
    let (_, w₁, first, second) = bind-eq-ok _ _ w h in
    let ensured = exec-eq-ok _ w first in
    let bumped = ap (version_of id) (exec-eq-ok _ w₁ second) in
    let rows =
      ap (λ (db : Db). in_rows id (bump_version id (format_rfc3339 now) db.auth_versions))
        ensured in
    let raised = in_rows_revoked id (format_rfc3339 now) w.db.auth_versions in omega arith

pub version_of-update_status :
    (id now : ℕ) (w : World) {w' : World}
    → update_status id 0 now w ≡ (ok tt, w')
    → version_of id w'.db ≡ version_of id w.db + 1
unfolding update_status when version_of
version_of-update_status id now w h =
    let (w₀, w₂, began, body, done) = transaction-eq-ok _ w h in
    let (_, w₁, stored, revoked) = bind-eq-ok _ _ w₀ body in
    let at_start = ap (version_of id) began in
    let unchanged = ap (version_of id) (exec-eq-ok _ w₀ stored) in
    let raised = version_of-revoke_access_tokens id now w₁ revoked in
    let at_end = ap (version_of id) done in omega arith

pub version_of-update_password :
    (id : ℕ) (hash : String) (now : ℕ) (w : World) {w' : World}
    → update_password id hash now w ≡ (ok tt, w')
    → version_of id w'.db ≡ version_of id w.db + 1
unfolding update_password version_of
version_of-update_password id hash now w h =
    let (w₀, w₂, began, body, done) = transaction-eq-ok _ w h in
    let (_, w₁, stored, revoked) = bind-eq-ok _ _ w₀ body in
    let at_start = ap (version_of id) began in
    let unchanged = ap (version_of id) (exec-eq-ok _ w₀ stored) in
    let raised = version_of-revoke_access_tokens id now w₁ revoked in
    let at_end = ap (version_of id) done in omega arith

lt-update_user_status :
    (super : String) (id now : ℕ) (w : World) {w' : World}
    → update_user_status super id 0 now w ≡ (ok tt, w')
    → version_of id w.db < version_of id w'.db
unfolding update_user_status when version_of
lt-update_user_status super id now w h =
    let P = AtLeast id (version_of id w.db) in
    let s = AtLeast-Stable id (version_of id w.db) in
    let Q = AtLeast id (version_of id w.db + 1) in
    let t = AtLeast-Stable id (version_of id w.db + 1) in
    let (_, w₁, before, rest) = bind_kept P (keeps_ordinary_user P s super id) w h (omega arith) in
    let (_, w₂, updated, rest') = bind-eq-ok _ _ w₁ rest in
    let raised = version_of-update_status id now w₁ updated in
    let (_, w₃, after, notified) = bind_kept Q (t.revoke_all_for_user id) w₂ rest' (omega arith) in
    let at_end = kept_at Q (keeps_notify Q _ _ _) w₃ notified after in omega arith

lt-change_password :
    (k : Packages) (c : Context) (id : ℕ) (req : ChangePasswordRequest) (w : World) {w' : World}
    → change_password k c id req w ≡ (ok tt, w')
    → version_of id w.db < version_of id w'.db
unfolding change_password version_of
lt-change_password k c id req w h =
    let P = AtLeast id (version_of id w.db) in
    let s = AtLeast-Stable id (version_of id w.db) in
    let Q = AtLeast id (version_of id w.db + 1) in
    let t = AtLeast-Stable id (version_of id w.db + 1) in
    let (_, w₁, p₁, h₁) = bind_kept P (keeps_find_by_id P s id) w h (omega arith) in
    let (user, w₂, p₂, h₂) = bind_kept P (keeps_user_or_fail P s k c _) w₁ h₁ p₁ in
    let (_, w₃, p₃, h₃) = bind_kept P (keeps_prove_identity P s k c user req _) w₂ h₂ p₂ in
    let (hash, w₄, p₄, h₄) = bind_kept P (keeps_or_storage P s k c _) w₃ h₃ p₃ in
    let (_, w₅, updated, h₅) = bind-eq-ok _ _ w₄ h₄ in
    let raised = version_of-update_password id hash c.now w₄ updated in
    let at_end =
      kept_at Q (keeps_ignore_error Q _ (t.revoke_all_for_user id)) w₅ h₅ (omega arith) in
    omega arith

-- What a token with the old version gets from the middleware after any history.
module _ (k : Packages) (parse : String → Option RawClaims) (header : String) (claims : RawClaims)
    (parsed : parse (drop_chars 7 header) ≡ some claims) where
  old_token_refused :
      (id v : ℕ) (ops : List (Operation × Context)) (w : World) (p : Principal)
      → v < version_of id w.db
      → positive claims.sub ≡ some id
      → claimed_version claims.auth_version ≡ some v
      → (auth parse header (perform_all k ops w)).0 ≢ authorized p
  old_token_refused id v ops w p newer sub version passed =
      let (_, claims', v', parsed', sub', version', admits) =
        auth_authorized parse header (perform_all k ops w) passed in
      let later =
        perform_all-Stable k (AtLeast id (v + 1)) (AtLeast-Stable id (v + 1)) ops w (omega arith) in
      let same : id ≡ p.user_id = cc in
      let claimed : v ≡ v' = cc in
      let (_, _, _, current) = admits in
      let now_at : v' ≡ version_of id (perform_all k ops w).db = rw same current in omega arith

  -- Once an account is disabled, no access token that was issued for it before with its version of
  -- then or an older one is let through by the middleware, whatever operations follow, each with
  -- any statements failing, the enabling of the account included.
  pub disabled_tokens_refused :
      (super : String) (id now v : ℕ) (w : World) {w' : World} (ops : List (Operation × Context))
      (p : Principal)
      → update_user_status super id 0 now w ≡ (ok tt, w')
      → positive claims.sub ≡ some id
      → claimed_version claims.auth_version ≡ some v
      → v ≤ version_of id w.db
      → (auth parse header (perform_all k ops w')).0 ≢ authorized p
  disabled_tokens_refused super id now v w ops p done sub version old =
      let raised = lt-update_user_status super id now w done in
      old_token_refused id v ops _ p (omega arith) sub version

  -- Once the password of an account is changed, no access token that was issued for it before with
  -- its version of then or an older one is let through by the middleware, whatever operations
  -- follow, each with any statements failing.
  pub old_tokens_refused :
      (c : Context) (req : ChangePasswordRequest) (id v : ℕ) (w : World) {w' : World}
      (ops : List (Operation × Context)) (p : Principal)
      → change_password k c id req w ≡ (ok tt, w')
      → positive claims.sub ≡ some id
      → claimed_version claims.auth_version ≡ some v
      → v ≤ version_of id w.db
      → (auth parse header (perform_all k ops w')).0 ≢ authorized p
  old_tokens_refused c req id v w ops p done sub version old =
      let raised = lt-change_password k c id req w done in
      old_token_refused id v ops _ p (omega arith) sub version
