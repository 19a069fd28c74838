-- ===== src/Service/Announcements/Receipted.antt =====
-- The receipts that internal/service/announcement.go takes from users.
use jd_shop_server.Common.{
  ℕ, ◌≤◌, ◌≡◌, refl, sym, ap, subst, ◌∙◌, Bool, true, false, not, ◌&&◌, Option, none, some, List,
  [], ◌∷◌, ◌==◌, ltb, if◌then◌else◌, find, count_where, arith, Bool-cases, inl, inr, ltb→lt,
}
use jd_shop_server.Time.{Timestamp, format_rfc3339}
use jd_shop_server.Model.Announcements.{Announcement, Receipt}
use jd_shop_server.Db.{announcement_not_found, Db, World, M, ok, ◌>>=◌, ◌>>◌, reject}
use jd_shop_server.Db.Success.{
  bind-eq-ok, query-eq-ok, pure-eq-ok, exec-eq-ok, fail-ne-ok, reject-eq-ok,
}
use jd_shop_server.Repository.Announcements.{has_id}
use jd_shop_server.Repository.Announcements.Receipts
use jd_shop_server.Repository.Announcements.Receipts.{
  is_receipt, is_available, upsert, upserted, coalesce, set_read, set_acknowledged, read_receipt,
  acknowledged_receipt, receipted, revision_or_fail,
}
use jd_shop_server.Repository.Announcements.Lists.{column}
use jd_shop_server.Repository.Announcements.Sound.{IsSound}
use jd_shop_server.Repository.Announcements.Upserts.{merged, find-upsert, find-upsert_other}
use jd_shop_server.Service.Announcements.{mark_read, acknowledge}

count_where-and {ℓ} :
    {A : Type ℓ} (p q : A → Bool) (rows : List A)
    → count_where (λ x. p x && q x) rows ≤ count_where p rows
unfolding count_where
count_where-and p q [] = omega arith
count_where-and p q (x ∷ rows) = ground (arith, count_where-and p q rows)

-- Where one row at most passes `p`, and some row passes `p` and `q`, the row found by `p` passes `q`.
passes_both {ℓ} :
    {A : Type ℓ} (p q : A → Bool) (rows : List A) {a : A}
    → find p rows ≡ some a
    → count_where p rows ≤ 1
    → 1 ≤ count_where (λ x. p x && q x) rows
    → q a ≡ true
unfolding find count_where
passes_both p q [] found one some_one = cc
passes_both p q (x ∷ rows) {a} found one some_one = elim (Bool-cases (p x)) [
  | inl hit ↦
      let same : some x ≡ some a = rw hit at found in
      let fits : q x ≡ true = ground (arith, count_where-and p q rows) in
      let eq : x ≡ a = cc in subst (λ y. q y ≡ true) eq fits
  | inr miss ↦
      let later : find p rows ≡ some a = rw miss at found in
      let few : count_where p rows ≤ 1 = rw miss at one in
      let more : 1 ≤ count_where (λ y. p y && q y) rows = rw miss at some_one in
      passes_both p q rows later few more
]

-- Which of the two receipts is taken.
abbrev pub mark : Bool → ℕ → ℕ → ℕ → M (Unit {0})
mark true = acknowledge
mark false = mark_read

-- The time that a receipt has from now on: the first one.
abbrev pub first : ℕ → Option Timestamp → Option Timestamp
first now old = coalesce old (some (format_rfc3339 now))

-- What the receipt of a user says after `mark`, given the one before.
abbrev pub Says : Bool → ℕ → Option Receipt → Receipt → Type 0
Says acknowledged now old r =
    (r.delivered_at ≡ first now (column (λ o. o.delivered_at) old))
    × (r.read_at ≡ first now (column (λ o. o.read_at) old))
    × (r.acknowledged_at ≡ (
        if acknowledged
        then first now (column (λ o. o.acknowledged_at) old)
        else column (λ o. o.acknowledged_at) old))

module _ (id user revision now : ℕ) (db : Db) where
  abbrev receipt_in : Db → Option Receipt
  receipt_in x = find (is_receipt id user revision) x.announcement_receipts

  receipted-Says :
      (acknowledged : Bool)
      → (r : Receipt) × (receipt_in (receipted id user revision acknowledged now db) ≡ some r)
        × Says acknowledged now (receipt_in db) r
  receipted-Says true =
      let new = acknowledged_receipt id user revision now in
      (
        merged new (set_acknowledged new) (receipt_in db),
        find-upsert new (set_acknowledged new) db.announcement_receipts (λ i u k r. refl),
        says (receipt_in db),
      )
    where
      says :
          (old : Option Receipt)
          → Says true now old (
              merged
                (acknowledged_receipt id user revision now)
                (set_acknowledged (acknowledged_receipt id user revision now))
                old)
      says none = (refl, refl, refl)
      says (some r) = (refl, refl, refl)
  receipted-Says false =
      let new = read_receipt id user revision now in
      (
        merged new (set_read new) (receipt_in db),
        find-upsert new (set_read new) db.announcement_receipts (λ i u k r. refl),
        says (receipt_in db),
      )
    where
      says :
          (old : Option Receipt)
          → Says false now old (
              merged
                (read_receipt id user revision now)
                (set_read (read_receipt id user revision now))
                old)
      says none = (refl, refl, refl)
      says (some r) = (refl, refl, refl)

  receipted_others :
      (acknowledged : Bool) (i u k : ℕ)
      → (id == i && user == u && revision == k) ≡ false
      → find
          (is_receipt i u k)
          (receipted id user revision acknowledged now db).announcement_receipts
        ≡ find (is_receipt i u k) db.announcement_receipts
  receipted_others true i u k other =
      let new = acknowledged_receipt id user revision now in
      find-upsert_other new (set_acknowledged new) db.announcement_receipts (λ i u k r. refl) i u k
        other
  receipted_others false i u k other =
      let new = read_receipt id user revision now in
      find-upsert_other new (set_read new) db.announcement_receipts (λ i u k r. refl) i u k other

mark_receipt-eq-ok :
    (id user : ℕ) (acknowledged : Bool) (now : ℕ) (w : World) {w' : World}
    → Receipts.mark_receipt id user acknowledged now w ≡ (ok tt, w')
    → (a : Announcement) × (find (has_id id) w.db.announcements ≡ some a)
      × (w'.db ≡ receipted id user a.revision acknowledged now w.db)
unfolding Receipts.mark_receipt
mark_receipt-eq-ok id user acknowledged now w h =
    let (found, w₁, read, rest) = bind-eq-ok _ _ w h in
    let (is_found, same) = query-eq-ok _ w read in
    let (revision, w₂, passed, wrote) = bind-eq-ok (revision_or_fail found) _ w₁ rest in
    let (a, there, is_revision, same') = row_of found w₁ passed in
    (
      a,
      sym is_found ∙ there,
      exec-eq-ok _ w₂ wrote
          ∙ ap (receipted id user revision acknowledged now) (ap (λ (x : World). x.db) same' ∙ same)
          ∙ ap (λ k. receipted id user k acknowledged now w.db) is_revision,
    )
  where
    row_of :
        (found : Option Announcement) (w₁ : World) {revision : ℕ} {w₂ : World}
        → revision_or_fail found w₁ ≡ (ok revision, w₂)
        → (a : Announcement) × (found ≡ some a) × (revision ≡ a.revision) × (w₂ ≡ w₁)
    row_of none w₁ p = absurd (fail-ne-ok _ _ w₁ p)
    row_of (some a) w₁ p =
        let (same, at_end) = pure-eq-ok a.revision w₁ p in (a, refl, sym same, sym at_end)

abbrev available_in : ℕ → ℕ → ℕ → Db → Bool
available_in id user now db = ltb 0 (
    count_where (λ a. has_id id a && is_available user now db.announcement_targets a)
      db.announcements)

-- The check that stands before both.
checked-eq-ok :
    (id user now : ℕ) (m : M (Unit {0})) (w : World) {w' : World}
    → (Receipts.available_for_user id user now >>= λ available.
          reject (not available) announcement_not_found >> m)
        w
      ≡ (ok tt, w')
    → (w₁ : World) × (available_in id user now w.db ≡ true) × (w₁.db ≡ w.db) × (m w₁ ≡ (ok tt, w'))
unfolding Receipts.available_for_user
checked-eq-ok id user now m w h =
    let (available, w₁, read, rest) = bind-eq-ok _ _ w h in
    let (is_available, same) = query-eq-ok _ w read in
    let (_, w₂, passed, done) =
      bind-eq-ok (reject (not available) announcement_not_found) _ w₁ rest in
    let (fits, at_end) = reject-eq-ok (not available) announcement_not_found w₁ passed in
    let yes_available : available ≡ true = ground arith in
    (w₂, sym is_available ∙ yes_available, ap (λ (x : World). x.db) at_end ∙ same, done)

mark-eq-ok :
    (acknowledged : Bool) (id user now : ℕ) (w : World) {w' : World}
    → mark acknowledged id user now w ≡ (ok tt, w')
    → (w₁ : World) × (available_in id user now w.db ≡ true)
      × (w₁.db ≡ w.db)
      × (Receipts.mark_receipt id user acknowledged now w₁ ≡ (ok tt, w'))
unfolding acknowledge mark_read Receipts.acknowledge Receipts.mark_read
mark-eq-ok true id user now w h =
    checked-eq-ok id user now (Receipts.mark_receipt id user true now) w h
mark-eq-ok false id user now w h =
    checked-eq-ok id user now (Receipts.mark_receipt id user false now) w h

-- Where a receipt of a user is taken, as read or as acknowledged, the announcement is there and
-- available to the user. The receipt for its revision then says when it was delivered and read, and
-- acknowledged in the second case, each with the time that was there before or else with the time
-- of the request, and no receipt of another announcement, user or revision changes, if no id
-- occurred twice before.
pub mark_lem :
    (acknowledged : Bool) (id user now : ℕ) (w : World) {w' : World}
    → IsSound w.db
    → mark acknowledged id user now w ≡ (ok tt, w')
    → (a : Announcement) × (find (has_id id) w.db.announcements ≡ some a)
      × (is_available user now w.db.announcement_targets a ≡ true)
      × ((r : Receipt) × (find (is_receipt id user a.revision) w'.db.announcement_receipts ≡ some r)
          × Says acknowledged now
              (find (is_receipt id user a.revision) w.db.announcement_receipts)
              r)
      × ((i u k : ℕ)
          → (id == i && user == u && a.revision == k) ≡ false
          → find (is_receipt i u k) w'.db.announcement_receipts
            ≡ find (is_receipt i u k) w.db.announcement_receipts)
mark_lem acknowledged id user now w (ids, timely) h =
    let (w₁, available, same, rest) = mark-eq-ok acknowledged id user now w h in
    let (a, row₁, left₁) = mark_receipt-eq-ok id user acknowledged now w₁ rest in
    let row = ap (λ (db : Db). find (has_id id) db.announcements) (sym same) ∙ row₁ in
    let left = left₁ ∙ ap (receipted id user a.revision acknowledged now) same in
    let (r, there, says) = receipted-Says id user a.revision now w.db acknowledged in
    (
      a,
      row,
      passes_both (has_id id) (is_available user now w.db.announcement_targets) w.db.announcements
          row (let few = ids id in ground arith) (ltb→lt 0 _ available),
      (
        r,
        ap (λ (db : Db). find (is_receipt id user a.revision) db.announcement_receipts) left
            ∙ there,
        says,
      ),
      (λ i u k other.
          ap (λ (db : Db). find (is_receipt i u k) db.announcement_receipts) left
          ∙ receipted_others id user a.revision now w.db acknowledged i u k other),
    )
