-- ===== src/Repository/Announcements/Sound.antt =====
-- What the receipts of internal/repository/announcement.go say: how they relate to the revisions of
-- the announcements.
use jd_shop_server.Common.{
  subst, updated, find-update_where, ℕ, suc, ◌≤◌, ◌<◌, ◌≡◌, refl, sym, ap, ◌∙◌, Bool, true, false,
  Option, none, some, List, [], ◌∷◌, ◌==◌, ltb, if◌then◌else◌, find, select, update_where,
  delete_where, count_where, is_some, All, All-imp, arith, Bool-cases, inl, inr,
}
use jd_shop_server.Model.Announcements.{Announcement, Receipt}
use jd_shop_server.Db.{Db}
use jd_shop_server.Repository.Announcements.{has_id}
use jd_shop_server.Repository.Announcements.Receipts.{is_receipt, upsert}

-- How often an id may occur.
abbrev pub bound : ℕ → ℕ → ℕ
bound id next = if ltb id next then 1 else 0

-- A receipt that is acknowledged is read, and one that is read is delivered.
abbrev pub IsOrdered : Receipt → Type 0
IsOrdered r =
    (is_some r.acknowledged_at ≡ true → is_some r.read_at ≡ true)
    × (is_some r.read_at ≡ true → is_some r.delivered_at ≡ true)

-- A pair of an announcement's id and a revision that it has or had.
abbrev pub IsPast : ℕ → List Announcement → ℕ → ℕ → Type 0
IsPast next rows id revision =
    (id < next) × ((a : Announcement) → find (has_id id) rows ≡ some a → revision ≤ a.revision)

-- A receipt is in order, and for a revision that its announcement has or had.
abbrev pub IsTimely : ℕ → List Announcement → Receipt → Type 0
IsTimely next rows r = IsOrdered r × IsPast next rows r.announcement_id r.revision

-- No id of an announcement occurs twice or is yet to be given out, and every receipt is timely.
abbrev pub IsSound : Db → Type 0
IsSound db =
    ((id : ℕ) → count_where (has_id id) db.announcements ≤ bound id db.next_announcement)
    × All (IsTimely db.next_announcement db.announcements) db.announcement_receipts

-- An update that keeps the ids and lowers no revision.
module _ (q : Announcement → Bool) (f : Announcement → Announcement)
    (same_id : (v : Announcement) → (f v).id ≡ v.id)
    (grows : (v : Announcement) → v.revision ≤ (f v).revision) where
  pub ids-update_where :
      (id : ℕ) (rows : List Announcement)
      → count_where (has_id id) (update_where q f rows) ≡ count_where (has_id id) rows
  unfolding count_where update_where
  ids-update_where id [] = refl
  ids-update_where id (v ∷ rows) = ground (arith, same_id v, ids-update_where id rows)

  same_test : (id : ℕ) (v : Announcement) → has_id id (f v) ≡ has_id id v
  same_test id v = ap (λ i. i == id) (same_id v)

  grows_if : (v : Announcement) → v.revision ≤ (if q v then f v else v).revision
  grows_if v = elim (Bool-cases (q v)) [
    | inl hit ↦ rw hit (grows v)
    | inr miss ↦ rw miss (omega arith)
  ]

  before :
      (o : Option Announcement) {a : Announcement}
      → updated q f o ≡ some a
      → (b : Announcement) × (o ≡ some b) × (b.revision ≤ a.revision)
  before none h = cc
  before (some b) {a} h =
      let same : (if q b then f b else b) ≡ a = cc in
      (b, refl, subst (λ (x : Announcement). b.revision ≤ x.revision) same (grows_if b))

  find_before :
      (id : ℕ) (rows : List Announcement) {a : Announcement}
      → find (has_id id) (update_where q f rows) ≡ some a
      → (b : Announcement) × (find (has_id id) rows ≡ some b) × (b.revision ≤ a.revision)
  find_before id rows h =
      before (find (has_id id) rows)
        (sym (find-update_where (has_id id) q f rows (same_test id)) ∙ h)

  pub IsPast-update_where :
      (next : ℕ) (rows : List Announcement) (id revision : ℕ)
      → IsPast next rows id revision
      → IsPast next (update_where q f rows) id revision
  IsPast-update_where next rows id revision (below, past) = (
    below,
    λ a found. let (b, was, le) = find_before id rows found in let old = past b was in omega arith,
  )

pub ids-delete_where :
    (id k : ℕ) (rows : List Announcement)
    → count_where (has_id k) (delete_where (has_id id) rows) ≤ count_where (has_id k) rows
unfolding delete_where select count_where
ids-delete_where id k [] = omega arith
ids-delete_where id k (v ∷ rows) = ground (arith, ids-delete_where id k rows)

find-delete_where_self :
    (id k : ℕ) (rows : List Announcement)
    → (id == k) ≡ true
    → find (has_id k) (delete_where (has_id id) rows) ≡ none
unfolding delete_where select find
find-delete_where_self id k [] h = refl
find-delete_where_self id k (v ∷ rows) h = ground (arith, find-delete_where_self id k rows h)

find-delete_where :
    (id k : ℕ) (rows : List Announcement)
    → (id == k) ≡ false
    → find (has_id k) (delete_where (has_id id) rows) ≡ find (has_id k) rows
unfolding delete_where select find
find-delete_where id k [] h = refl
find-delete_where id k (v ∷ rows) h = ground (arith, find-delete_where id k rows h)

pub IsPast-delete_where :
    (next id : ℕ) (rows : List Announcement) (k revision : ℕ)
    → IsPast next rows k revision
    → IsPast next (delete_where (has_id id) rows) k revision
IsPast-delete_where next id rows k revision (below, past) = elim (Bool-cases (id == k)) [
  | inl same ↦ (below, λ a found. let gone = find-delete_where_self id k rows same in cc)
  | inr differ ↦ (below, λ a found. past a (sym (find-delete_where id k rows differ) ∙ found))
]

pub IsPast-cons :
    (next : ℕ) (v : Announcement) (rows : List Announcement) (k revision : ℕ)
    → v.id ≡ next
    → IsPast next rows k revision
    → IsPast (suc next) (v ∷ rows) k revision
unfolding find
IsPast-cons next v rows k revision is_next (below, past) =
    let differ : (v.id == k) ≡ false = ground arith in
    (omega arith, λ a found. past a (rw differ at found))

-- The receipts after an upsert.
module _ {κ} (P : Receipt → Type κ) (new : Receipt) (f : Receipt → Receipt) where
  All-update_where :
      (q : Receipt → Bool) (rows : List Receipt)
      → ((r : Receipt) → P r → P (f r))
      → All P rows
      → All P (update_where q f rows)
  unfolding update_where
  All-update_where q [] keep a = tt
  All-update_where q (r ∷ rows) keep (p, a) = (
    elim (Bool-cases (q r)) [ inl hit ↦ rw hit (keep r p) | inr miss ↦ rw miss p ],
    All-update_where q rows keep a,
  )

  pub All-upsert :
      (rows : List Receipt)
      → P new
      → ((r : Receipt) → P r → P (f r))
      → All P rows
      → All P (upsert new f rows)
  unfolding upsert
  All-upsert rows p keep a =
      let same = is_receipt new.announcement_id new.user_id new.revision in
      elim (Bool-cases (is_some (find same rows))) [
        | inl there ↦ rw there (All-update_where same rows keep a)
        | inr absent ↦ rw absent (p, a)
      ]

pub found_counts :
    (id : ℕ) (rows : List Announcement) {a : Announcement}
    → find (has_id id) rows ≡ some a
    → 1 ≤ count_where (has_id id) rows
unfolding find count_where
found_counts id [] h = cc
found_counts id (v ∷ rows) {a} h = ground (arith, found_counts id rows {a = a})

-- Where no id occurs twice, the row that a search for an id finds is any row with that id.
pub All-found :
    (rows : List Announcement)
    → ((id : ℕ) → count_where (has_id id) rows ≤ 1)
    → All (λ a. find (has_id a.id) rows ≡ some a) rows
unfolding find count_where
All-found [] one = tt
All-found (v ∷ rows) one =
    let first : find (has_id v.id) (v ∷ rows) ≡ some v = ground arith in
    (first, All-imp (λ a found. later a found) rows (All-found rows (λ id. ground (arith, one id))))
  where
    later :
        (a : Announcement)
        → find (has_id a.id) rows ≡ some a
        → find (has_id a.id) (v ∷ rows) ≡ some a
    later a found = ground (arith, one a.id, found_counts a.id rows {a = a})
