-- ===== src/Repository/Announcements/Kept.antt =====
-- The statements of internal/repository/announcement.go keep the receipts timely, whichever of them
-- fail.
use jd_shop_server.Common.{
  ℕ, suc, ◌≤◌, ◌≡◌, refl, Bool, Option, none, some, List, [], ◌∷◌, count_where, All-imp, arith,
  Bool-cases, inl, inr, String, update_where,
}
use jd_shop_server.Common.Int.{ℤ, pos, negsuc}
use jd_shop_server.Model.Announcements.{Announcement}
use jd_shop_server.Db.{Db, Keeps, Link}
use jd_shop_server.Db.Laws.{
  keeps_exec, keeps_pure, keeps_bind, keeps_query, keeps_if, keeps_transaction, keeps_insert_row,
}
use jd_shop_server.Repository.Announcements.{
  has_id, add_target, add_targets, replace_targets, create, update, publish, unpublish, delete,
  find_by_id, with_targets, target_user_ids, rewritten, published, withdrawn, inserted,
}
use jd_shop_server.Repository.Announcements.Targets.{
  with_links, skips, add_targets_negative, add_targets_skip, add_targets_take,
}
use jd_shop_server.Repository.Announcements.Sound.{
  IsSound, ids-update_where, ids-delete_where, IsPast-update_where, IsPast-delete_where,
  IsPast-cons,
}

-- What does not depend on the targets is kept by their replacement.
module _ (P : Db → Type 0)
    (free : (db : Db) (links : List Link) → P db → P (with_links db links)) where
  keeps_add_target : (id user : ℕ) → Keeps P (add_target id user)
  unfolding add_target
  keeps_add_target id user = keeps_insert_row P _ _ (λ db e p. free db _ p)

  keeps_add_targets :
      (id : ℕ) (users : List ℤ) (seen : List ℕ) → Keeps P (add_targets id users seen)
  keeps_add_targets id [] seen = unfold add_targets in keeps_pure P tt
  keeps_add_targets id (negsuc n ∷ users) seen =
      rw (add_targets_negative id n users seen) (keeps_add_targets id users seen)
  keeps_add_targets id (pos n ∷ users) seen = elim (Bool-cases (skips n seen)) [
    | inl skipped ↦ rw (add_targets_skip id n users seen skipped) (keeps_add_targets id users seen)
    | inr taken ↦
        rw (add_targets_take id n users seen taken)
          (keeps_bind P _ _ (keeps_add_target id n) (λ _. keeps_add_targets id users (n ∷ seen)))
  ]

  pub keeps_replace_targets :
      (id : ℕ) (type : String) (users : List ℤ) → Keeps P (replace_targets id type users)
  unfolding replace_targets
  keeps_replace_targets id type users =
      keeps_bind P _ _ (keeps_exec P _ (λ db p. free db _ p))
        (λ _. keeps_if P _ _ _ (keeps_pure P tt) (keeps_add_targets id users []))

-- An update that keeps the ids and lowers no revision.
updated_rows :
    (q : Announcement → Bool) (f : Announcement → Announcement) (db : Db)
    → ((v : Announcement) → (f v).id ≡ v.id)
    → ((v : Announcement) → v.revision ≤ (f v).revision)
    → IsSound db
    → IsSound (record db { announcements = update_where q f db.announcements })
updated_rows q f db same grows (ids, timely) = (
  λ id. rw (ids-update_where q f same grows id db.announcements) (ids id),
  All-imp
      (λ r (ordered, past). (
        ordered,
        IsPast-update_where q f same grows db.next_announcement db.announcements r.announcement_id
            r.revision past,
      ))
      db.announcement_receipts timely,
)

inserted_row :
    (v : Announcement) (db : Db)
    → v.id ≡ db.next_announcement
    → IsSound db
    → IsSound (record db {
      announcements = v ∷ db.announcements;
      next_announcement = suc db.next_announcement;
    })
unfolding count_where
inserted_row v db is_next (ids, timely) = (
  λ id. ground (arith, ids id),
  All-imp
      (λ r (ordered, past). (
        ordered,
        IsPast-cons db.next_announcement v db.announcements r.announcement_id r.revision is_next
            past,
      ))
      db.announcement_receipts timely,
)

pub keeps_create : (a : Announcement) (now : ℕ) → Keeps IsSound (create a now)
unfolding create
keeps_create a now = keeps_transaction IsSound _ (
    keeps_bind IsSound _ _
      (keeps_insert_row IsSound _ _
        (λ db e p. inserted_row (inserted db.next_announcement a now) db refl p))
      (λ id.
        keeps_bind IsSound _ _
          (keeps_replace_targets IsSound (λ db links p. p) id a.target_type a.target_user_ids)
          (λ _. keeps_pure IsSound id)))

pub keeps_update : (a : Announcement) (now : ℕ) → Keeps IsSound (update a now)
unfolding update
keeps_update a now = keeps_transaction IsSound _ (
    keeps_bind IsSound _ _
      (keeps_exec IsSound _
        (λ db p. updated_rows (has_id a.id) (rewritten a now) db (λ v. refl) (λ v. ground arith) p))
      (λ _. keeps_replace_targets IsSound (λ db links p. p) a.id a.target_type a.target_user_ids))

pub keeps_publish : (id now : ℕ) → Keeps IsSound (publish id now)
unfolding publish
keeps_publish id now =
    keeps_exec IsSound _
      (λ db p. updated_rows (has_id id) (published now) db (λ v. refl) (λ v. ground arith) p)

pub keeps_unpublish : (id now : ℕ) → Keeps IsSound (unpublish id now)
unfolding unpublish
keeps_unpublish id now =
    keeps_exec IsSound _
      (λ db p. updated_rows (has_id id) (withdrawn now) db (λ v. refl) (λ v. omega arith) p)

pub keeps_delete : (id : ℕ) → Keeps IsSound (delete id)
unfolding delete
keeps_delete id = keeps_exec IsSound _ (λ db (ids, timely). (
  (λ k. let few = ids-delete_where id k db.announcements in let before = ids k in omega arith),
  All-imp
      (λ r (ordered, past). (
        ordered,
        IsPast-delete_where db.next_announcement id db.announcements r.announcement_id r.revision
            past,
      ))
      db.announcement_receipts timely,
))

pub keeps_find_by_id : (id : ℕ) → Keeps IsSound (find_by_id id)
unfolding find_by_id target_user_ids
keeps_find_by_id id = keeps_bind IsSound _ _ (keeps_query IsSound _) (λ found. filled found)
  where
    filled : (found : Option Announcement) → Keeps IsSound (with_targets id found)
    filled none = keeps_pure IsSound none
    filled (some a) = keeps_bind IsSound _ _ (keeps_query IsSound _) (λ users. keeps_pure IsSound _)
