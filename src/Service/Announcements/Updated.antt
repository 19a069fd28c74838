-- ===== src/Service/Announcements/Updated.antt =====
-- What an update of internal/service/announcement.go writes.
use jd_shop_server.Common.{
  ℕ, zero, suc, ◌+◌, ◌≡◌, ◌≢◌, refl, sym, ap, subst, ◌∙◌, true, false, Option, none, some, List,
  ◌==◌, if◌then◌else◌, find, update_where, arith, Bool-cases, inl, inr, map, ==→eq, String, str_eq,
  find-update_where, find_passes, updated,
}
use jd_shop_server.Common.Int.{ℤ, pos, negsuc}
use jd_shop_server.Time.{format_rfc3339}
use jd_shop_server.Model.Announcements.{Announcement, Receipt, TimeText, UpdateAnnouncementRequest}
use jd_shop_server.Db.{Db, World, ok, pure, signal, Result, when}
use jd_shop_server.Db.Laws.{kept_at}
use jd_shop_server.Db.Success.{bind-eq-ok, pure-eq-ok, exec-eq-ok, transaction-eq-ok}
use jd_shop_server.Repository.Announcements
use jd_shop_server.Repository.Announcements.{has_id, targets_of, rewritten}
use jd_shop_server.Repository.Announcements.Receipts.{is_receipt}
use jd_shop_server.Repository.Announcements.Kept.{keeps_replace_targets}
use jd_shop_server.Repository.Announcements.Sound.{IsSound}
use jd_shop_server.Service.Announcements.{
  update_announcement, tell_changed, changed, positive_number, clean_time, clean_string, cleaned,
  given,
}
use jd_shop_server.Service.Announcements.Unread.{
  find_by_id-eq-ok, none_above, raised, found_row, IsUnread,
}

-- What is told of an update changes no table.
tell_changed-db :
    (found : Option Announcement) (now : ℕ) (w : World) → (tell_changed found now w).1.db ≡ w.db
unfolding pure signal when
tell_changed-db none now w = refl
tell_changed-db (some a) now w = ground (arith)

-- The announcement as it is read before an update, and as it is written.
abbrev pub read_as : ℕ → Db → Announcement → Announcement
read_as id db a = record a { target_user_ids = map pos (targets_of id db.announcement_targets) }

abbrev pub rewritten_by :
    ℕ → UpdateAnnouncementRequest → ℕ → Db → Announcement → Announcement → Announcement
rewritten_by id req now db a row = rewritten (changed req (read_as id db a)) now row

-- The two tables that an update of the repository writes or leaves, with the targets aside.
abbrev Leaves : List Announcement → List Receipt → Db → Type 0
Leaves rows receipts db = (db.announcements ≡ rows) × (db.announcement_receipts ≡ receipts)

update-eq-ok :
    (a : Announcement) (now : ℕ) (w : World) {w' : World}
    → Announcements.update a now w ≡ (ok tt, w')
    → Leaves
        (update_where (has_id a.id) (rewritten a now) w.db.announcements)
        w.db.announcement_receipts
        w'.db
unfolding Announcements.update
update-eq-ok a now w h =
    let (w₁, w₂, began, body, done) = transaction-eq-ok _ w h in
    let (_, w₃, wrote, rest) = bind-eq-ok _ _ w₁ body in
    let left = exec-eq-ok _ w₁ wrote in
    let P =
      Leaves (update_where (has_id a.id) (rewritten a now) w.db.announcements)
        w.db.announcement_receipts in
    subst P (sym done) (
      kept_at P (keeps_replace_targets P (λ db links p. p) a.id a.target_type a.target_user_ids) w₃
        rest
        (subst P (sym left) (
          ap (λ (db : Db). update_where (has_id a.id) (rewritten a now) db.announcements) began,
          ap (λ (db : Db). db.announcement_receipts) began,
        )))

update_announcement-db :
    (id : ℕ) (req : UpdateAnnouncementRequest) (now : ℕ) (w : World) {updated : Option Announcement}
    {w' : World}
    → update_announcement id req now w ≡ (ok updated, w')
    → (a : Announcement) × (find (has_id id) w.db.announcements ≡ some a)
      × Leaves
          (update_where (has_id a.id) (rewritten_by id req now w.db a) w.db.announcements)
          w.db.announcement_receipts
          w'.db
unfolding update_announcement changed
update_announcement-db id req now w {updated} {w'} h =
    let (a, w₁, row, same, rest) = found_row id _ w h in
    let written = changed req (read_as id w.db a) in
    let (_, w₂, wrote, rest') = bind-eq-ok _ _ w₁ rest in
    let (found, w₃, read, told) = bind-eq-ok _ _ w₂ rest' in
    let (_, kept) = find_by_id-eq-ok id w₂ read in
    let (_, w₄, silent, answered) = bind-eq-ok (tell_changed found now) _ w₃ told in
    let (_, at_end) = pure-eq-ok found w₄ answered in
    let quiet : w₄.db ≡ w₃.db =
      ap (λ (x : Result (Unit {0}) × World). x.1.db) (sym silent) ∙ tell_changed-db found now w₃ in
    let left : w'.db ≡ w₂.db = ap (λ (x : World). x.db) (sym at_end) ∙ quiet ∙ kept in
    let (rows, receipts) = update-eq-ok written now w₁ wrote in
    let at_start =
      λ (db : Db). update_where (has_id a.id) (rewritten written now) db.announcements in
    (
      a,
      row,
      (
        ap (λ (db : Db). db.announcements) left ∙ rows ∙ ap at_start same,
        ap (λ (db : Db). db.announcement_receipts) left
            ∙ receipts
            ∙ ap (λ (db : Db). db.announcement_receipts) same,
      ),
    )

-- What a field of the request makes of its column: the old value, the new one, or, for the
-- columns that may be empty, nothing where the request has an empty text or a number below 1.
abbrev pub Writes {ℓ} : {A : Type ℓ} → Option A → A → A → Type ℓ
Writes none old new = new ≡ old
Writes (some given) old new = new ≡ given

abbrev pub WritesTime : Option TimeText → Option TimeText → Option TimeText → Type 0
WritesTime none old new = new ≡ old
WritesTime (some TimeText.empty) old new = new ≡ none
WritesTime (some t) old new = new ≡ some t

abbrev pub WritesText : Option String → Option String → Option String → Type 0
WritesText none old new = new ≡ old
WritesText (some s) old new = new ≡ (if str_eq s "" then none else some s)

abbrev pub WritesCode : Option ℤ → Option ℕ → Option ℕ → Type 0
WritesCode none old new = new ≡ old
WritesCode (some (negsuc n)) old new = new ≡ none
WritesCode (some (pos zero)) old new = new ≡ none
WritesCode (some (pos (suc n))) old new = new ≡ some (suc n)

unfoldable pub IsWritten : UpdateAnnouncementRequest → ℕ → Announcement → Announcement → Type 0
IsWritten req now old new =
    Writes req.title old.title new.title
    × Writes req.content old.content new.content
    × Writes req.level old.level new.level
    × Writes req.display_mode old.display_mode new.display_mode
    × Writes req.show_policy old.show_policy new.show_policy
    × Writes req.target_type old.target_type new.target_type
    × Writes req.target_platform old.target_platform new.target_platform
    × WritesTime req.starts_at old.starts_at new.starts_at
    × WritesTime req.ends_at old.ends_at new.ends_at
    × WritesCode req.min_version_code old.min_version_code new.min_version_code
    × WritesCode req.max_version_code old.max_version_code new.max_version_code
    × WritesText req.action_text old.action_text new.action_text
    × WritesText req.action_url old.action_url new.action_url
    × (new.id ≡ old.id)
    × (new.is_published ≡ old.is_published)
    × (new.published_at ≡ old.published_at)
    × (new.created_by ≡ old.created_by)
    × (new.created_at ≡ old.created_at)
    × (new.updated_at ≡ format_rfc3339 now)

writes {ℓ} : {A : Type ℓ} (field : Option A) (old : A) → Writes field old (given old field)
writes none old = refl
writes (some new) old = refl

writes_time : (field old : Option TimeText) → WritesTime field old (cleaned clean_time old field)
writes_time none old = refl
writes_time (some TimeText.empty) old = refl
writes_time (some (TimeText.instant t)) old = refl
writes_time (some (TimeText.spaced t below)) old = refl
writes_time (some (TimeText.other below)) old = refl

writes_text : (field old : Option String) → WritesText field old (cleaned clean_string old field)
writes_text none old = refl
writes_text (some s) old = refl

writes_code :
    (field : Option ℤ) (old : Option ℕ) → WritesCode field old (cleaned positive_number old field)
writes_code none old = refl
writes_code (some (negsuc n)) old = refl
writes_code (some (pos zero)) old = refl
writes_code (some (pos (suc n))) old = ground arith

rewritten_by-IsWritten :
    (id : ℕ) (req : UpdateAnnouncementRequest) (now : ℕ) (db : Db) (a : Announcement)
    → IsWritten req now a (rewritten_by id req now db a a)
unfolding IsWritten changed
rewritten_by-IsWritten id req now db a = (
  writes req.title a.title,
  writes req.content a.content,
  writes req.level a.level,
  writes req.display_mode a.display_mode,
  writes req.show_policy a.show_policy,
  writes req.target_type a.target_type,
  writes req.target_platform a.target_platform,
  writes_time req.starts_at a.starts_at,
  writes_time req.ends_at a.ends_at,
  writes_code req.min_version_code a.min_version_code,
  writes_code req.max_version_code a.max_version_code,
  writes_text req.action_text a.action_text,
  writes_text req.action_url a.action_url,
  refl,
  refl,
  refl,
  refl,
  refl,
  refl,
)

-- The row of any id after the row `id` was written.
seen_by_id :
    (id other : ℕ) (f : Announcement → Announcement) (rows : List Announcement)
    → ((v : Announcement) → (f v).id ≡ v.id)
    → {a : Announcement} → find (has_id id) rows ≡ some a
    → find (has_id other) (update_where (has_id id) f rows)
      ≡ (if other == id then some (f a) else find (has_id other) rows)
seen_by_id id other f rows same {a} was = elim (Bool-cases (other == id)) [
  | inl own ↦
      let eq : other ≡ id = ==→eq other id own in
      rw own (
        ap (λ i. find (has_id i) (update_where (has_id id) f rows)) eq
        ∙ raised (has_id id) f id rows same was (find_passes (has_id id) rows was))
  | inr differ ↦ rw differ (
      find-update_where (has_id other) (has_id id) f rows (λ v. ap (λ i. i == other) (same v))
      ∙ left (find (has_id other) rows) refl differ)
]
  where
    left :
        (found : Option Announcement)
        → find (has_id other) rows ≡ found
        → (other == id) ≡ false
        → updated (has_id id) f found ≡ found
    left none e differ = refl
    left (some v) e differ =
        let own : has_id other v ≡ true = find_passes (has_id other) rows e in
        let not_it : has_id id v ≡ false = ground arith in rw not_it refl

-- An update that succeeds finds the announcement and writes the columns that the request gives: a
-- time or a text that is empty and a version below 1 become nothing, and a column that the request
-- does not give stays as it was, like the id, the creator, the publication and the creation. No
-- other row changes. If the announcement is published, its revision rises and nobody has a receipt
-- for the new one, if the receipts were in order before; otherwise the revision stays.
pub update_announcement-IsUnread :
    (id : ℕ) (req : UpdateAnnouncementRequest) (now : ℕ) (w : World) {updated : Option Announcement}
    {w' : World}
    → IsSound w.db
    → update_announcement id req now w ≡ (ok updated, w')
    → (a : Announcement) × (b : Announcement) × (find (has_id id) w.db.announcements ≡ some a)
      × IsWritten req now a b
      × ((other : ℕ)
          → find (has_id other) w'.db.announcements
            ≡ (if other == id then some b else find (has_id other) w.db.announcements))
      × (a.is_published ≡ 1 → (b.revision ≡ a.revision + 1) × IsUnread id b w'.db)
      × (a.is_published ≢ 1 → b.revision ≡ a.revision)
unfolding changed
update_announcement-IsUnread id req now w {w' = w'} (ids, timely) h =
    let (a, row, (rows, receipts)) = update_announcement-db id req now w h in
    let hit = find_passes (has_id id) w.db.announcements row in
    let own : a.id ≡ id = ==→eq a.id id hit in
    let b = rewritten_by id req now w.db a a in
    let rises : a.is_published ≡ 1 → b.revision ≡ a.revision + 1 = λ p. ground arith in
    (
      a,
      b,
      row,
      rewritten_by-IsWritten id req now w.db a,
      (λ other.
          ap (find (has_id other)) rows
          ∙ ap
              (λ i.
                find (has_id other)
                  (update_where (has_id i) (rewritten_by id req now w.db a) w.db.announcements))
              own
          ∙ seen_by_id id other (rewritten_by id req now w.db a) w.db.announcements (λ v. refl)
              row),
      (λ p. (
        rises p,
        λ user.
            ap (find (is_receipt id user b.revision)) receipts
            ∙ none_above w.db.next_announcement w.db.announcements id user b.revision
                w.db.announcement_receipts row (let up = rises p in omega arith) timely,
      )),
      (λ p. ground arith),
    )
