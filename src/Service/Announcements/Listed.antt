-- ===== src/Service/Announcements/Listed.antt =====
-- What internal/service/announcement.go lists for a user.
use jd_shop_server.Common.{
  ℕ, ◌≡◌, refl, sym, ap, subst, ◌∙◌, Bool, true, ◌&&◌, Option, none, some, List, [], ◌∷◌, find,
  select, count_where, is_some, map, All, Bool-cases, inl, inr, arith, String, ◌==◌,
}
use jd_shop_server.Time.{Timestamp}
use jd_shop_server.Model.Announcements.{Announcement, Receipt, Received}
use jd_shop_server.Db.{Db, World, ok, exec}
use jd_shop_server.Db.Success.{bind-eq-ok, query-eq-ok, pure-eq-ok, exec-eq-ok, transaction-eq-ok}
use jd_shop_server.Repository.Announcements.Lists
use jd_shop_server.Repository.Announcements.Lists.{is_for, sorted, received, announcement_of}
use jd_shop_server.Repository.Announcements.Receipts.{
  is_receipt, upserted, set_delivered, delivered_receipt, deliver_each, mark_delivered, coalesce,
}
use jd_shop_server.Repository.Announcements.Order.{
  sorted-IsSorted, count_where-sorted, count_where-select,
}
use jd_shop_server.Repository.Announcements.Chosen.{
  is_meant, is_for-is_meant, IsOrdered, IsSorted-IsOrdered, Reports, receipt_of, map-Reports,
}
use jd_shop_server.Service.Announcements.{list_for_user}
use jd_shop_server.Repository.Announcements.Upserts.{find-upsert, find-upsert_other, merged}

is_some-coalesce : (o : Option Timestamp) (t : Timestamp) → is_some (coalesce o (some t)) ≡ true
is_some-coalesce none t = refl
is_some-coalesce (some s) t = refl

-- A receipt that says when the announcement was delivered.
abbrev pub IsDelivered : ℕ → ℕ → ℕ → Db → Type 0
IsDelivered id user revision db =
    (r : Receipt) × (find
        (λ (r : Receipt). r.announcement_id == id && r.user_id == user && r.revision == revision)
        db.announcement_receipts
      ≡ some r)
    × (is_some r.delivered_at ≡ true)

abbrev delivered_in : ℕ → Announcement → ℕ → Db → Db
delivered_in user a now =
    upserted (delivered_receipt a.id user a.revision now)
      (set_delivered (delivered_receipt a.id user a.revision now))

delivered_in-IsDelivered :
    (user : ℕ) (a : Announcement) (now : ℕ) (db : Db)
    → IsDelivered a.id user a.revision (delivered_in user a now db)
delivered_in-IsDelivered user a now db =
    let new = delivered_receipt a.id user a.revision now in
    let old = find (is_receipt a.id user a.revision) db.announcement_receipts in
    (
      merged new (set_delivered new) old,
      find-upsert new (set_delivered new) db.announcement_receipts (λ i u k r. refl),
      says old,
    )
  where
    says :
        (old : Option Receipt)
        → is_some
            (merged
              (delivered_receipt a.id user a.revision now)
              (set_delivered (delivered_receipt a.id user a.revision now))
              old).delivered_at
          ≡ true
    says none = refl
    says (some r) = is_some-coalesce r.delivered_at _

IsDelivered-delivered_in :
    (user : ℕ) (a : Announcement) (now : ℕ) (b : Announcement) (db : Db)
    → IsDelivered b.id user b.revision db
    → IsDelivered b.id user b.revision (delivered_in user a now db)
IsDelivered-delivered_in user a now b db (r, there, said) =
    elim (Bool-cases
      (is_receipt b.id user b.revision (delivered_receipt a.id user a.revision now))) [
        | inl own ↦
            let same_id : a.id ≡ b.id = ground arith in
            let same_revision : a.revision ≡ b.revision = ground arith in
            subst (λ k. IsDelivered b.id user k (delivered_in user a now db)) same_revision
              (subst (λ i. IsDelivered i user a.revision (delivered_in user a now db)) same_id
                (delivered_in-IsDelivered user a now db))
        | inr other ↦
            let new = delivered_receipt a.id user a.revision now in
            (
              r,
              find-upsert_other new (set_delivered new) db.announcement_receipts (λ i u k r. refl)
                    b.id user b.revision other
                  ∙ there,
              said,
            )
      ]

deliver_each-eq-ok :
    (user : ℕ) (items : List Announcement) (now : ℕ) (w : World) {w' : World}
    → deliver_each user items now w ≡ (ok tt, w')
    → All (λ b. IsDelivered b.id user b.revision w'.db) items
      × ((b : Announcement)
          → IsDelivered b.id user b.revision w.db
          → IsDelivered b.id user b.revision w'.db)
unfolding deliver_each
deliver_each-eq-ok user [] now w h =
    let (_, at_end) = pure-eq-ok tt w h in
    (tt, λ b d. subst (λ (x : World). IsDelivered b.id user b.revision x.db) at_end d)
deliver_each-eq-ok user (a ∷ items) now w h =
    let (_, w₁, wrote, rest) = bind-eq-ok (exec (delivered_in user a now)) _ w h in
    let left = exec-eq-ok (delivered_in user a now) w wrote in
    let (each, keep) = deliver_each-eq-ok user items now w₁ rest in
    (
      (
        keep a (
            subst (IsDelivered a.id user a.revision) (sym left)
              (delivered_in-IsDelivered user a now w.db)),
        each,
      ),
      λ b d. keep b (
          subst (IsDelivered b.id user b.revision) (sym left)
            (IsDelivered-delivered_in user a now b w.db d)),
    )

mark_delivered-eq-ok :
    (user : ℕ) (items : List Announcement) (now : ℕ) (w : World) {w' : World}
    → mark_delivered user items now w ≡ (ok tt, w')
    → All (λ b. IsDelivered b.id user b.revision w'.db) items
unfolding mark_delivered
mark_delivered-eq-ok user [] now w h = tt
mark_delivered-eq-ok user (a ∷ items) now w {w'} h =
    let (w₁, w₂, began, body, done) = transaction-eq-ok _ w h in
    let (each, _) = deliver_each-eq-ok user (a ∷ items) now w₁ body in
    subst (λ db. All (λ b. IsDelivered b.id user b.revision db) (a ∷ items)) (sym done) each

map-announcement_of :
    (user : ℕ) (receipts : List Receipt) (rows : List Announcement)
    → map announcement_of (map (received user receipts) rows) ≡ rows
map-announcement_of user receipts [] = refl
map-announcement_of user receipts (a ∷ rows) =
    ap (λ rest. a ∷ rest) (map-announcement_of user receipts rows)

count_where-cong :
    (p q : Announcement → Bool) (rows : List Announcement)
    → ((a : Announcement) → p a ≡ q a)
    → count_where p rows ≡ count_where q rows
unfolding count_where
count_where-cong p q [] same = refl
count_where-cong p q (a ∷ rows) same = rw (same a, count_where-cong p q rows same) refl

-- The list of a user holds exactly the announcements that are published, begun and not over, for
-- all or for this user by a link, for all platforms or the given one, and for the version, each as
-- often as the table has it. Critical ones stand first, then warnings, the later published first
-- among those of a level, and the greater id first among those of one time. Each says what the
-- receipt of the user for its revision said before, or that nothing was received. After it each has
-- a receipt that says when it was delivered.
pub list_for_user_lem :
    (user : ℕ) (platform : String) (code now : ℕ) (w : World) {items : List Received} {w' : World}
    → list_for_user user platform code now w ≡ (ok items, w')
    → ((q : Announcement → Bool)
        → count_where q (map announcement_of items)
          ≡ count_where (λ a. is_meant user platform code now w.db a && q a) w.db.announcements)
      × IsOrdered (map announcement_of items)
      × All
          (λ (item : Received).
            Reports (receipt_of user item.announcement w.db.announcement_receipts) item)
          items
      × All (λ b. IsDelivered b.id user b.revision w'.db) (map announcement_of items)
unfolding list_for_user Lists.list_for_user
list_for_user_lem user platform code now w {items} {w'} h =
    let (listed, w₁, read, rest) = bind-eq-ok _ _ w h in
    let (is_listed, same) = query-eq-ok _ w read in
    let (_, w₂, delivered, answered) = bind-eq-ok _ _ w₁ rest in
    let (is_items, at_end) = pure-eq-ok listed w₂ answered in
    let passing = select (is_for user platform code now w.db) w.db.announcements in
    let rows = sorted passing in
    let is_rows : map announcement_of items ≡ rows =
      ap (map announcement_of) (sym is_items ∙ is_listed)
      ∙ map-announcement_of user w.db.announcement_receipts rows in
    (
      (λ q.
          ap (count_where q) is_rows
          ∙ count_where-sorted q passing
          ∙ count_where-select q (is_for user platform code now w.db) w.db.announcements
          ∙ count_where-cong (λ a. is_for user platform code now w.db a && q a)
              (λ a. is_meant user platform code now w.db a && q a) w.db.announcements
              (λ a. ap (λ b. b && q a) (is_for-is_meant user platform code now w.db a))),
      subst IsOrdered (sym is_rows) (IsSorted-IsOrdered rows (sorted-IsSorted passing)),
      subst
          (All (λ (item : Received).
            Reports (receipt_of user item.announcement w.db.announcement_receipts) item))
          (sym (sym is_items ∙ is_listed)) (map-Reports user w.db.announcement_receipts rows),
      subst (λ rows. All (λ b. IsDelivered b.id user b.revision w'.db) rows)
          (ap (map announcement_of) is_items)
          (subst
            (λ (x : World).
              All (λ b. IsDelivered b.id user b.revision x.db) (map announcement_of listed))
            at_end (mark_delivered-eq-ok user (map announcement_of listed) now w₁ delivered)),
    )
