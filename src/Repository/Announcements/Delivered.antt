-- ===== src/Repository/Announcements/Delivered.antt =====
-- The writes of receipts in internal/repository/announcement.go keep the receipts timely, whichever
-- of them fail.
use jd_shop_server.Common.{
  ℕ, ◌≤◌, ◌≡◌, refl, sym, ◌∙◌, Bool, true, false, Option, none, some, List, [], ◌∷◌, find, select,
  map, count_where, All, All-imp, arith, Bool-cases, inl, inr, String,
}
use jd_shop_server.Model.Announcements.{Announcement, Receipt}
use jd_shop_server.Db.{Db, World, Keeps, pure, fail, ◌>>=◌, exec}
use jd_shop_server.Db.Laws.{exec_kept, keeps_exec, keeps_pure, keeps_bind, keeps_transaction}
use jd_shop_server.Db.Success.{keeps_query_then}
use jd_shop_server.Repository.Announcements.{has_id}
use jd_shop_server.Repository.Announcements.Receipts.{
  upserted, set_delivered, set_read, set_acknowledged, delivered_receipt, read_receipt,
  acknowledged_receipt, deliver_each, mark_delivered, revision_or_fail, receipted, mark_receipt,
  acknowledge,
}
use jd_shop_server.Repository.Announcements.Lists.{
  is_for, sorted, insert_sorted, received, announcement_of, list_for_user, precedes,
}
use jd_shop_server.Repository.Announcements.Sound.{
  bound, IsOrdered, IsPast, IsTimely, IsSound, All-upsert, All-found, found_counts,
}

-- The write of a receipt that is timely by a set that keeps receipts timely.
upserted_row :
    (new : Receipt) (f : Receipt → Receipt) (db : Db)
    → ((r : Receipt) → IsOrdered r → IsOrdered (f r))
    → ((r : Receipt) → ((f r).announcement_id ≡ r.announcement_id) × ((f r).revision ≡ r.revision))
    → IsTimely db.next_announcement db.announcements new
    → IsSound db
    → IsSound (upserted new f db)
upserted_row new f db ordered same timely (ids, receipts) = (
  ids,
  All-upsert (IsTimely db.next_announcement db.announcements) new f db.announcement_receipts timely
      (λ r (o, past). let (id, revision) = same r in (ordered r o, rw (id, revision) past))
      receipts,
)

receipted_row :
    (id user revision : ℕ) (acknowledge : Bool) (now : ℕ) (db : Db)
    → IsPast db.next_announcement db.announcements id revision
    → IsSound db
    → IsSound (receipted id user revision acknowledge now db)
receipted_row id user revision true now db past p =
    let new = acknowledged_receipt id user revision now in
    upserted_row new (set_acknowledged new) db (λ r o. ground arith) (λ r. (refl, refl))
      (((λ _. refl), (λ _. refl)), past) p
receipted_row id user revision false now db past p =
    let new = read_receipt id user revision now in
    upserted_row new (set_read new) db (λ r o. ground arith) (λ r. (refl, refl))
      (((λ h. cc), (λ _. refl)), past) p

-- A receipt for the revision that its announcement has now.
IsPast-now :
    (db : Db) (id : ℕ) {a : Announcement}
    → ((k : ℕ) → count_where (has_id k) db.announcements ≤ bound k db.next_announcement)
    → find (has_id id) db.announcements ≡ some a
    → IsPast db.next_announcement db.announcements id a.revision
IsPast-now db id {a} ids found = (
  ground (arith, ids id, found_counts id db.announcements {a = a}),
  λ b also. let same : some a ≡ some b = sym found ∙ also in ground arith,
)

receipt_found :
    (id user : ℕ) (acknowledge : Bool) (now : ℕ) (found : Option Announcement) (w : World)
    → find (has_id id) w.db.announcements ≡ found
    → IsSound w.db
    → IsSound
        ((revision_or_fail found >>= λ revision. exec (receipted id user revision acknowledge now))
          w).1.db
unfolding ◌>>=◌ fail pure
receipt_found id user acknowledge now none w e p = p
receipt_found id user acknowledge now (some a) w e p =
    exec_kept IsSound (receipted id user a.revision acknowledge now) w p
      (receipted_row id user a.revision acknowledge now w.db (IsPast-now w.db id p.0 e) p)

pub keeps_mark_receipt :
    (id user : ℕ) (acknowledge : Bool) (now : ℕ)
    → Keeps IsSound (mark_receipt id user acknowledge now)
unfolding mark_receipt
keeps_mark_receipt id user acknowledge now =
    keeps_query_then IsSound _ _ (λ w p. receipt_found id user acknowledge now _ w refl p)

-- The announcements that are listed for a user are rows of the table.
All-select :
    (P : Announcement → Type 0) (q : Announcement → Bool) (rows : List Announcement)
    → All P rows
    → All P (select q rows)
unfolding select
All-select P q [] a = tt
All-select P q (v ∷ rows) (p, a) = elim (Bool-cases (q v)) [
  | inl hit ↦ rw hit (p, All-select P q rows a)
  | inr miss ↦ rw miss (All-select P q rows a)
]

All-insert_sorted :
    (P : Announcement → Type 0) (v : Announcement) (rows : List Announcement)
    → P v
    → All P rows
    → All P (insert_sorted v rows)
unfolding insert_sorted
All-insert_sorted P v [] p a = (p, a)
All-insert_sorted P v (b ∷ rows) p (q, a) = elim (Bool-cases (precedes b v)) [
  | inl first ↦ rw first (q, All-insert_sorted P v rows p a)
  | inr last ↦ rw last (p, (q, a))
]

All-sorted :
    (P : Announcement → Type 0) (rows : List Announcement) → All P rows → All P (sorted rows)
unfolding sorted
All-sorted P [] a = tt
All-sorted P (v ∷ rows) (p, a) = All-insert_sorted P v (sorted rows) p (All-sorted P rows a)

All-received :
    (P : Announcement → Type 0) (user : ℕ) (receipts : List Receipt) (rows : List Announcement)
    → All P rows
    → All P (map announcement_of (map (received user receipts) rows))
All-received P user receipts [] a = tt
All-received P user receipts (v ∷ rows) (p, a) = (p, All-received P user receipts rows a)

abbrev IsCurrent : Db → Announcement → Type 0
IsCurrent db a = IsPast db.next_announcement db.announcements a.id a.revision

abbrev AllCurrent : List Announcement → Db → Type 0
AllCurrent listed db = All (IsCurrent db) listed × IsSound db

delivered_row :
    (user now : ℕ) (a : Announcement) (db : Db)
    → IsCurrent db a
    → IsSound db
    → IsSound (
        upserted
          (delivered_receipt a.id user a.revision now)
          (set_delivered (delivered_receipt a.id user a.revision now))
          db)
delivered_row user now a db current p =
    let new = delivered_receipt a.id user a.revision now in
    upserted_row new (set_delivered new) db (λ r o. ground arith) (λ r. (refl, refl))
      (((λ h. cc), (λ h. refl)), current) p

keeps_deliver_each :
    (listed : List Announcement) (user : ℕ) (items : List Announcement) (now : ℕ)
    → ((db : Db) → All (IsCurrent db) listed → All (IsCurrent db) items)
    → Keeps (AllCurrent listed) (deliver_each user items now)
unfolding deliver_each
keeps_deliver_each listed user [] now among = keeps_pure (AllCurrent listed) tt
keeps_deliver_each listed user (a ∷ items) now among =
    keeps_bind (AllCurrent listed) _ _
      (keeps_exec (AllCurrent listed) _
        (λ db (current, p). (current, delivered_row user now a db (among db current).0 p)))
      (λ _. keeps_deliver_each listed user items now (λ db current. (among db current).1))

keeps_mark_delivered :
    (user : ℕ) (items : List Announcement) (now : ℕ)
    → Keeps (AllCurrent items) (mark_delivered user items now)
unfolding mark_delivered
keeps_mark_delivered user [] now = keeps_pure (AllCurrent []) tt
keeps_mark_delivered user (a ∷ items) now =
    keeps_transaction (AllCurrent (a ∷ items)) _
      (keeps_deliver_each (a ∷ items) user (a ∷ items) now (λ db current. current))

-- Every row of a sound table is current.
All-IsCurrent : (db : Db) → IsSound db → All (IsCurrent db) db.announcements
All-IsCurrent db (ids, timely) =
    All-imp (λ a found. IsPast-now db a.id ids found) db.announcements
      (All-found db.announcements (λ id. let few = ids id in ground arith))

pub keeps_list_for_user :
    (user : ℕ) (platform : String) (code now : ℕ)
    → Keeps IsSound (list_for_user user platform code now)
unfolding list_for_user
keeps_list_for_user user platform code now = keeps_query_then IsSound _ _ λ w p.
    let rows = sorted (select (is_for user platform code now w.db) w.db.announcements) in
    let items = map (received user w.db.announcement_receipts) rows in
    let listed = map announcement_of items in
    let kept =
      keeps_bind (AllCurrent listed) _ (λ _. pure items) (keeps_mark_delivered user listed now)
        (λ _. keeps_pure (AllCurrent listed) items) in
    (kept.kept w (
      All-received (IsCurrent w.db) user w.db.announcement_receipts rows (
          All-sorted (IsCurrent w.db) _ (
            All-select (IsCurrent w.db) (is_for user platform code now w.db) w.db.announcements
              (All-IsCurrent w.db p))),
      p,
    )).1
