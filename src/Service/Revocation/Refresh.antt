-- ===== src/Service/Revocation/Refresh.antt =====
-- Refresh tokens after internal/service/admin.go disabled their account.
use jd_shop_server.Common.{ℕ, ◌≤◌, String, ◌≡◌, ◌≢◌, refl, ◌∙◌, List, some, find}
use jd_shop_server.Model.{RefreshToken, RefreshResponse}
use jd_shop_server.Db.{Db, World, ok, Keeps, when, exec}
use jd_shop_server.Db.Laws.{
  keeps_exec, kept_at, keeps_notify, keeps_bind, keeps_transaction, keeps_when,
}
use jd_shop_server.Db.Success.{bind-eq-ok, bind_kept}
use jd_shop_server.Repository.Users.{update_status, revoke_access_tokens}
use jd_shop_server.Repository.Tokens.{has_hash}
use jd_shop_server.Repository.Tokens.Revoked.{Spent, revoke_all_for_user-Spent}
use jd_shop_server.Service.Packages.{Packages}
use jd_shop_server.Service.Admin.{update_user_status}
use jd_shop_server.Service.Admin.Protection.{reads_ordinary_user}
use jd_shop_server.Service.Auth.{Context, refresh_token}
use jd_shop_server.Service.Auth.Rotation.{never_again}
use jd_shop_server.Service.Stable.Histories.{Operation, perform_all}

abbrev Sessions : List RefreshToken → Db → Type 0
Sessions ts db = db.refresh_tokens ≡ ts

module _ (ts : List RefreshToken) where
  exec-Sessions :
      (f : Db → Db)
      → ((db : Db) → (f db).refresh_tokens ≡ db.refresh_tokens)
      → Keeps (Sessions ts) (exec f)
  exec-Sessions f same = keeps_exec (Sessions ts) f (λ db p. same db ∙ p)

  revoke_access_tokens-Sessions : (id now : ℕ) → Keeps (Sessions ts) (revoke_access_tokens id now)
  unfolding revoke_access_tokens
  revoke_access_tokens-Sessions id now =
      keeps_bind (Sessions ts) (exec _) _ (exec-Sessions _ (λ db. refl))
        (λ _. exec-Sessions _ (λ db. refl))

  update_status-Sessions : (id status now : ℕ) → Keeps (Sessions ts) (update_status id status now)
  unfolding update_status
  update_status-Sessions id status now = keeps_transaction (Sessions ts) _ (
      keeps_bind (Sessions ts) (exec _) _ (exec-Sessions _ (λ db. refl))
        (λ _. keeps_when (Sessions ts) _ _ (revoke_access_tokens-Sessions id now)))

-- The disabling of an account revokes its sessions.
update_user_status-Spent :
    (super hash : String) (now : ℕ) (t : RefreshToken) (w : World) {w' : World}
    → find (has_hash hash) w.db.refresh_tokens ≡ some t
    → t.revoked ≤ 1
    → update_user_status super t.user_id 0 now w ≡ (ok tt, w')
    → Spent hash w'.db
unfolding update_user_status when
update_user_status-Spent super hash now t w found flag h =
    let P = Sessions w.db.refresh_tokens in
    let (_, w₁, same, h₁) = bind_kept P (reads_ordinary_user P super t.user_id) w h refl in
    let (_, w₂, still, h₂) =
      bind_kept P (update_status-Sessions w.db.refresh_tokens t.user_id 0 now) w₁ h₁ same in
    let (_, w₃, revoked, notified) = bind-eq-ok _ _ w₂ h₂ in
    kept_at (Spent hash) (keeps_notify (Spent hash) _ _ _) w₃ notified
      (revoke_all_for_user-Spent hash w₂ t (rw still found) flag revoked)

-- Once an account is disabled, a refresh token of it that the database held gives no new tokens,
-- whatever operations follow, each with any statements failing, the enabling of the account
-- included.
pub disabled_sessions_final :
    (k : Packages) (c : Context) (super token : String) (now : ℕ) (t : RefreshToken) (w : World)
    {r : RefreshResponse} {w' w'' : World} (ops : List (Operation × Context))
    → find (has_hash (k.hash_token token)) w.db.refresh_tokens ≡ some t
    → t.revoked ≤ 1
    → update_user_status super t.user_id 0 now w ≡ (ok tt, w')
    → refresh_token k c token (perform_all k ops w') ≢ (ok r, w'')
disabled_sessions_final k c super token now t w {w' = w'} ops found flag h =
    never_again k token c w' ops
      (update_user_status-Spent super (k.hash_token token) now t w found flag h)
