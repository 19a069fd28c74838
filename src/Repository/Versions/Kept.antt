-- ===== src/Repository/Versions/Kept.antt =====
-- The statements of internal/repository/version.go keep the latest version of each platform unique,
-- whichever of them fail.
use jd_shop_server.Common.{
  ℕ, Bool, true, false, ◌≡◌, refl, sym, ap, subst, ◌∙◌, Option, none, some, ◌==◌, find, Bool-cases,
  inl, inr,
}
use jd_shop_server.Time.{sqlite_datetime}
use jd_shop_server.Model.{AppVersion}
use jd_shop_server.Db.{Db, World, Keeps, M, pure, fail, ◌>>=◌, ◌>>◌, when, exec, transaction}
use jd_shop_server.Db.Laws.{keeps_exec, keeps_pure}
use jd_shop_server.Db.Success.{
  bind-eq-ok, exec-eq-ok, insert_row-eq-ok, pure-eq-ok, transaction_kept, keeps_query_then,
}
use jd_shop_server.Repository.Versions.{
  has_id, create, update, delete, VersionPatch, is_one, row_or_fail, sets_nothing,
}
use jd_shop_server.Repository.Versions.Sound.{
  IsSound, inserted, others_cleared, patched_in, cleared_in, deleted_in, promoted_in,
  IsSound-insert, IsSound-patch, IsSound-mark, IsSound-delete, IsSound-delete_latest,
}

-- The making of a version keeps it.
pub keeps_create : (v : AppVersion) (now : ℕ) → Keeps IsSound (create v now)
unfolding create
keeps_create v now = record {
  kept = λ w p. transaction_kept IsSound _ w p λ w₁ a w₂ began ran.
      let (id, w₃, made, h₁) = bind-eq-ok _ _ w₁ ran in
      let (_, is_id, left) = insert_row-eq-ok _ _ w₁ made in
      let (_, w₄, cleared, h₂) = bind-eq-ok _ _ w₃ h₁ in
      let (_, at_end) = pure-eq-ok _ w₄ h₂ in
      let q = v.platform in
      subst IsSound
        (sym (
          ap (λ (x : World). x.db) (sym at_end)
          ∙ exec-eq-ok _ w₃ cleared
          ∙ ap (others_cleared q id) left
          ∙ ap (λ i. others_cleared q i (inserted v now w₁.db)) is_id
          ∙ ap (λ (db : Db). others_cleared q db.next_version (inserted v now db)) began))
        (IsSound-insert w.db
          (record v { id = w.db.next_version; is_latest = 1; created_at = sqlite_datetime now })
          refl refl p);
}

-- A row that was found goes on to what follows.
row_then :
    (found : Option AppVersion) (k : AppVersion → M (Unit {0})) (w : World)
    → IsSound w.db
    → ((v : AppVersion) → found ≡ some v → IsSound (k v w).1.db)
    → IsSound ((row_or_fail found >>= k) w).1.db
unfolding row_or_fail ◌>>=◌ fail pure
row_then none k w p next = p
row_then (some v) k w p next = next v refl

mark_latest :
    (id : ℕ) (patch : VersionPatch) (v : AppVersion) (w : World)
    → find (has_id id) w.db.app_versions ≡ some v
    → IsSound w.db
    → IsSound (transaction (exec (cleared_in v.platform) >> exec (patched_in id patch)) w).1.db
mark_latest id patch v w found p = transaction_kept IsSound _ w p λ w₁ a w₂ began ran.
    let (_, w₃, cleared, rest) = bind-eq-ok _ _ w₁ ran in
    subst IsSound
      (sym (
        exec-eq-ok _ w₃ rest
        ∙ ap (patched_in id patch) (exec-eq-ok _ w₁ cleared)
        ∙ ap (λ db. patched_in id patch (cleared_in v.platform db)) began))
      (IsSound-mark id patch w.db v found p)

-- The change of a version keeps it.
pub keeps_update : (id : ℕ) (patch : VersionPatch) → Keeps IsSound (update id patch)
unfolding update
keeps_update id patch = elim (Bool-cases (sets_nothing patch)) [
  | inl nothing ↦ rw nothing (keeps_pure IsSound tt)
  | inr something ↦ elim (Bool-cases (is_one patch.is_latest)) [
    | inl one ↦
        rw (something, one)
          (keeps_query_then IsSound _ _
            λ w p. row_then _ _ w p (λ v found. mark_latest id patch v w found p))
    | inr no_one ↦
        rw (something, no_one)
          (keeps_exec IsSound (patched_in id patch) (λ db p. IsSound-patch id patch db no_one p))
  ]
]

delete_found :
    (id : ℕ) (v : AppVersion) (b : Bool) (w : World)
    → (v.is_latest == 1) ≡ b
    → find (has_id id) w.db.app_versions ≡ some v
    → IsSound w.db
    → IsSound (transaction (exec (deleted_in id) >> when b (exec (promoted_in v.platform))) w).1.db
unfolding when
delete_found id v true w latest found p = transaction_kept IsSound _ w p λ w₁ a w₂ began ran.
    let (_, w₃, gone, rest) = bind-eq-ok _ _ w₁ ran in
    subst IsSound
      (sym (
        exec-eq-ok _ w₃ rest
        ∙ ap (promoted_in v.platform) (exec-eq-ok _ w₁ gone)
        ∙ ap (λ db. promoted_in v.platform (deleted_in id db)) began))
      (IsSound-delete_latest id w.db v found latest p)
delete_found id v false w latest found p = transaction_kept IsSound _ w p λ w₁ a w₂ began ran.
    let (_, w₃, gone, rest) = bind-eq-ok _ _ w₁ ran in
    let (_, at_end) = pure-eq-ok _ w₃ rest in
    subst IsSound
      (sym
        (ap (λ (x : World). x.db) (sym at_end) ∙ exec-eq-ok _ w₁ gone ∙ ap (deleted_in id) began))
      (IsSound-delete id w.db p)

-- The deletion of a version keeps it.
pub keeps_delete : (id : ℕ) → Keeps IsSound (delete id)
unfolding delete
keeps_delete id =
    keeps_query_then IsSound _ _
      λ w p. row_then _ _ w p (λ v found. delete_found id v _ w refl found p)
