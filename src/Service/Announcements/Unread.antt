-- ===== src/Service/Announcements/Unread.antt =====
-- A new revision of an announcement is unread (internal/service/announcement.go).
use jd_shop_server.Common.{
  ℕ, ◌≤◌, ◌<◌, ◌≡◌, refl, sym, ap, subst, ◌∙◌, Bool, true, Option, none, some, List, [], ◌∷◌, ◌==◌,
  if◌then◌else◌, find, update_where, All, arith, Bool-cases, inl, inr, map, ==→eq,
  find-update_where, find_passes, updated,
}
use jd_shop_server.Common.Int.{pos}
use jd_shop_server.Time.{format_rfc3339}
use jd_shop_server.Model.Announcements.{Announcement, Receipt}
use jd_shop_server.Db.{Db, World, ok, ◌>>=◌, pure, signal, M, Result}
use jd_shop_server.Db.Success.{bind-eq-ok, query-eq-ok, pure-eq-ok, fail-ne-ok, exec-eq-ok}
use jd_shop_server.Repository.Announcements
use jd_shop_server.Repository.Announcements.{has_id, targets_of, with_targets, published, rewritten}
use jd_shop_server.Repository.Announcements.Receipts.{is_receipt}
use jd_shop_server.Repository.Announcements.Sound.{IsTimely, IsSound}
use jd_shop_server.Service.Announcements.{
  announcement_or_fail, tell_published, publish_announcement,
}

-- What `FindByID` makes of a row.
abbrev pub filled : ℕ → Db → Option Announcement → Option Announcement
filled id db none = none
filled id db (some a) =
    some (record a { target_user_ids = map pos (targets_of id db.announcement_targets) })

pub find_by_id-eq-ok :
    (id : ℕ) (w : World) {found : Option Announcement} {w' : World}
    → Announcements.find_by_id id w ≡ (ok found, w')
    → (found ≡ filled id w.db (find (has_id id) w.db.announcements)) × (w'.db ≡ w.db)
unfolding Announcements.find_by_id Announcements.target_user_ids
find_by_id-eq-ok id w {found} {w'} h =
    let (row, w₁, read, rest) = bind-eq-ok _ _ w h in
    let (is_row, same) = query-eq-ok _ w read in
    let (is_found, same') = go row w₁ rest in
    (
      is_found
          ∙ ap (filled id w₁.db) is_row
          ∙ ap (λ (db : Db). filled id db (find (has_id id) w.db.announcements)) same,
      same' ∙ same,
    )
  where
    go :
        (row : Option Announcement) (w₁ : World)
        → with_targets id row w₁ ≡ (ok found, w')
        → (found ≡ filled id w₁.db row) × (w'.db ≡ w₁.db)
    go none w₁ h =
        let (same, at_end) = pure-eq-ok _ w₁ h in (sym same, ap (λ (x : World). x.db) (sym at_end))
    go (some a) w₁ h =
        let (users, w₂, read, rest) = bind-eq-ok _ _ w₁ h in
        let (is_users, same) = query-eq-ok _ w₁ read in
        let (is_found, at_end) = pure-eq-ok _ w₂ rest in
        (
          sym is_found ∙ ap (λ us. some (record a { target_user_ids = us })) is_users,
          ap (λ (x : World). x.db) (sym at_end) ∙ same,
        )

pub none_above :
    (next : ℕ) (rows : List Announcement) (id user k : ℕ) (receipts : List Receipt)
    {a : Announcement}
    → find (has_id id) rows ≡ some a
    → a.revision < k
    → All (IsTimely next rows) receipts
    → find (is_receipt id user k) receipts ≡ none
unfolding find
none_above next rows id user k [] found above timely = refl
none_above next rows id user k (r ∷ receipts) {a} found above ((ordered, (below, past)), timely) =
    elim (Bool-cases (r.announcement_id == id)) [
      | inl same ↦
          let eq : r.announcement_id ≡ id = ==→eq r.announcement_id id same in
          let le : r.revision ≤ a.revision = past a (rw eq found) in
          ground (arith, none_above next rows id user k receipts {a = a} found above timely)
      | inr differ ↦
          ground (arith, none_above next rows id user k receipts {a = a} found above timely)
    ]

-- The repository's update of a row of the id, seen in the row that a search finds.
pub raised :
    (q : Announcement → Bool) (f : Announcement → Announcement) (id : ℕ) (rows : List Announcement)
    → ((v : Announcement) → (f v).id ≡ v.id)
    → {a : Announcement} → find (has_id id) rows ≡ some a
    → q a ≡ true
    → find (has_id id) (update_where q f rows) ≡ some (f a)
raised q f id rows same {a} was hit =
    find-update_where (has_id id) q f rows (λ v. ap (λ i. i == id) (same v))
    ∙ ap (updated q f) was
    ∙ ap (λ b. some (if b then f a else a)) hit

or_fail-eq-ok :
    (found : Option Announcement) (w : World) {a : Announcement} {w' : World}
    → announcement_or_fail found w ≡ (ok a, w')
    → (found ≡ some a) × (w' ≡ w)
unfolding announcement_or_fail
or_fail-eq-ok none w h = absurd (fail-ne-ok _ _ w h)
or_fail-eq-ok (some b) w h =
    let (same, at_end) = pure-eq-ok b w h in (ap (λ x. some x) same, sym at_end)

tell_published-db :
    (found : Option Announcement) (now : ℕ) (w : World) → (tell_published found now w).1.db ≡ w.db
unfolding pure signal
tell_published-db none now w = refl
tell_published-db (some a) now w = refl

-- The row of which `FindByID` was told.
row_of :
    (id : ℕ) (db : Db) (row : Option Announcement) {a : Announcement}
    → filled id db row ≡ some a
    → (b : Announcement) × (row ≡ some b)
      × (a ≡ record b { target_user_ids = map pos (targets_of id db.announcement_targets) })
row_of id db none h = cc
row_of id db (some b) h = (b, refl, cc)

-- The first two steps of an operation on an announcement: its row is there.
pub found_row :
    (id : ℕ) {B : Type 0} (k : Announcement → M B) (w : World) {r : B} {w' : World}
    → (Announcements.find_by_id id >>= λ found. announcement_or_fail found >>= k) w ≡ (ok r, w')
    → (b : Announcement) × (w₁ : World) × (find (has_id id) w.db.announcements ≡ some b)
      × (w₁.db ≡ w.db)
      × (k (record b { target_user_ids = map pos (targets_of id w.db.announcement_targets) }) w₁
          ≡ (ok r, w'))
found_row id k w {r} {w'} h =
    let (found, w₁, read, rest) = bind-eq-ok _ _ w h in
    let (is_found, same) = find_by_id-eq-ok id w read in
    let (a, w₂, passed, body) = bind-eq-ok _ k w₁ rest in
    let (there, kept) = or_fail-eq-ok found w₁ passed in
    let (b, row, is_a) = row_of id w.db _ (sym is_found ∙ there) in
    (b, w₂, row, ap (λ (x : World). x.db) kept ∙ same, subst (λ x. k x w₂ ≡ (ok r, w')) is_a body)

-- Nobody has a receipt for the row's revision.
abbrev pub IsUnread : ℕ → Announcement → Db → Type 0
IsUnread id b db = (user : ℕ) → find (is_receipt id user b.revision) db.announcement_receipts ≡ none

abbrev published_in : ℕ → ℕ → Db → Db
published_in id now db = record db {
  announcements = update_where (has_id id) (published now) db.announcements;
}

publish_announcement-db :
    (id now : ℕ) (w : World) {w' : World}
    → publish_announcement id now w ≡ (ok tt, w')
    → (a : Announcement) × (find (has_id id) w.db.announcements ≡ some a)
      × (w'.db ≡ published_in id now w.db)
unfolding publish_announcement Announcements.publish
publish_announcement-db id now w {w'} h =
    let (a, w₁, row, same, rest) = found_row id _ w h in
    let (_, w₂, wrote, rest') = bind-eq-ok _ _ w₁ rest in
    let (updated, w₃, read, told) = bind-eq-ok _ _ w₂ rest' in
    let (_, kept) = find_by_id-eq-ok id w₂ read in
    let silent = tell_published-db updated now w₃ in
    (
      a,
      row,
      ap (λ (x : Result (Unit {0}) × World). x.1.db) (sym told)
          ∙ silent
          ∙ kept
          ∙ exec-eq-ok (published_in id now) w₁ wrote
          ∙ ap (published_in id now) same,
    )

-- A publication that succeeds finds the announcement, marks it as published at `now` with a revision
-- above the one it had, and nobody has a receipt for that revision, if the receipts were in order before.
pub publish_announcement-IsUnread :
    (id now : ℕ) (w : World) {w' : World}
    → IsSound w.db
    → publish_announcement id now w ≡ (ok tt, w')
    → (a : Announcement) × (find (has_id id) w.db.announcements ≡ some a)
      × (find (has_id id) w'.db.announcements ≡ some (published now a))
      × ((published now a).is_published ≡ 1)
      × ((published now a).published_at ≡ some (format_rfc3339 now))
      × (a.revision < (published now a).revision)
      × IsUnread id (published now a) w'.db
publish_announcement-IsUnread id now w {w'} (ids, timely) h =
    let (a, row, left) = publish_announcement-db id now w h in
    let hit = find_passes (has_id id) w.db.announcements row in
    let above : a.revision < (published now a).revision = ground arith in
    (
      a,
      row,
      ap (λ (db : Db). find (has_id id) db.announcements) left
          ∙ raised (has_id id) (published now) id w.db.announcements (λ v. refl) row hit,
      refl,
      refl,
      above,
      (λ user.
          ap
            (λ (db : Db).
              find (is_receipt id user (published now a).revision) db.announcement_receipts)
            left
          ∙ none_above w.db.next_announcement w.db.announcements id user (published now a).revision
              w.db.announcement_receipts row above timely),
    )
