-- ===== src/Repository/Announcements/Lists.antt =====
-- internal/repository/announcement.go: the pages of the console and of the public, and the
-- announcements of a user.
use jd_shop_server.Common.{
  ℕ, zero, suc, ◌-◌, ◌*◌, ◌%◌, ◌^◌, String, Bool, true, false, not, ◌&&◌, ◌||◌, Option, none, some,
  List, [], ◌∷◌, ◌==◌, ltb, leb, str_eq, if◌then◌else◌, find, select, count_where, is_some, map,
}
use jd_shop_server.Time.{Timestamp, format_rfc3339, text_lt}
use jd_shop_server.Model.Announcements.{Announcement, Counted, Received, Receipt}
use jd_shop_server.Db.{Db, M, pure, ◌>>=◌, ◌>>◌, query}
use jd_shop_server.Repository.Announcements.{target_user_ids}
use jd_shop_server.Repository.Announcements.Receipts.{
  has_started, has_not_ended, is_available, is_receipt, mark_delivered,
}

-- `SELECT COUNT(DISTINCT ar.user_id) …`: a user has one receipt for a revision.
abbrev pub counts_for : (Receipt → Option Timestamp) → Announcement → Receipt → Bool
counts_for column a r = r.announcement_id == a.id && r.revision == a.revision && is_some (column r)

abbrev pub counted : List Receipt → Announcement → Counted
counted receipts a = record {
  announcement = a;
  delivered_count = count_where (counts_for (λ r. r.delivered_at) a) receipts;
  read_count = count_where (counts_for (λ r. r.read_at) a) receipts;
  acknowledged_count = count_where (counts_for (λ r. r.acknowledged_at) a) receipts;
}

-- The conditions of `List`.
unfoldable pub is_listed : String → Bool → ℕ → Announcement → Bool
is_listed level published_only now a =
    (str_eq level "" || str_eq a.level level)
    && (not published_only
        || (a.is_published == 1
            && str_eq a.target_type "all"
            && has_started a.starts_at (format_rfc3339 now)
            && has_not_ended a.ends_at (format_rfc3339 now)))

unfoldable pub take {ℓ} : {A : Type ℓ} → ℕ → List A → List A
take zero xs = []
take (suc n) [] = []
take (suc n) (x ∷ xs) = x ∷ take n xs

unfoldable pub drop {ℓ} : {A : Type ℓ} → ℕ → List A → List A
drop zero xs = xs
drop (suc n) [] = []
drop (suc n) (x ∷ xs) = drop n xs

-- `(page - 1) * pageSize` as an int64, where SQLite reads a negative offset as 0.
unfoldable pub offset : ℕ → ℕ → ℕ
offset page page_size =
    let product = ((page - 1) * page_size) % 2 ^ 64 in if leb (2 ^ 63) product then 0 else product

-- `LIMIT ? OFFSET ?`.
unfoldable pub page_of {ℓ} : {A : Type ℓ} → ℕ → ℕ → List A → List A
page_of page page_size xs = take page_size (drop (offset page page_size) xs)

unfoldable pub fill_targets : List Counted → M (List Counted)
fill_targets [] = pure []
fill_targets (c ∷ items) = do
  users ← target_user_ids c.announcement.id
  filled ← fill_targets items
  pure (record c { announcement = record c.announcement { target_user_ids = users } } ∷ filled)

unfoldable pub list : ℕ → ℕ → String → Bool → ℕ → M (List Counted × ℕ)
list page page_size level published_only now = do
  total ← query (λ db. count_where (is_listed level published_only now) db.announcements)
  items ← query λ db.
      map (counted db.announcement_receipts)
        (page_of page page_size (select (is_listed level published_only now) db.announcements))
  filled ← fill_targets items
  pure (filled, total)

-- The conditions of `ListForUser`.
abbrev pub admits_platform : Announcement → String → Bool
admits_platform a platform = str_eq a.target_platform "all" || str_eq a.target_platform platform

abbrev pub at_least : Option ℕ → ℕ → Bool
at_least none code = true
at_least (some least) code = leb least code

abbrev pub at_most : Option ℕ → ℕ → Bool
at_most none code = true
at_most (some most) code = leb code most

unfoldable pub is_for : ℕ → String → ℕ → ℕ → Db → Announcement → Bool
unfolding is_available
is_for user platform code now db a =
    is_available user now db.announcement_targets a
    && admits_platform a platform
    && at_least a.min_version_code code
    && at_most a.max_version_code code

-- `CASE a.level WHEN 'critical' THEN 0 WHEN 'warning' THEN 1 ELSE 2 END`.
abbrev pub level_rank : String → ℕ
level_rank level = if str_eq level "critical" then 0 else if str_eq level "warning" then 1 else 2

-- `published_at DESC`, with NULL last.
abbrev pub published_later : Option Timestamp → Option Timestamp → Bool
published_later none b = false
published_later (some a) none = true
published_later (some a) (some b) = text_lt b a

-- `ORDER BY` of `ListForUser`: whether `a` stands before `b`.
unfoldable pub precedes : Announcement → Announcement → Bool
precedes a b =
    ltb (level_rank a.level) (level_rank b.level)
    || (level_rank a.level == level_rank b.level
        && (published_later a.published_at b.published_at
            || (not (published_later b.published_at a.published_at) && ltb b.id a.id)))

unfoldable pub insert_sorted : Announcement → List Announcement → List Announcement
insert_sorted a [] = a ∷ []
insert_sorted a (b ∷ items) = if precedes b a then b ∷ insert_sorted a items else a ∷ b ∷ items

unfoldable pub sorted : List Announcement → List Announcement
sorted [] = []
sorted (a ∷ items) = insert_sorted a (sorted items)

abbrev pub column : (Receipt → Option Timestamp) → Option Receipt → Option Timestamp
column f none = none
column f (some r) = f r

-- `LEFT JOIN announcement_receipts ar ON …`.
abbrev pub received : ℕ → List Receipt → Announcement → Received
received user receipts a =
    let receipt = find (is_receipt a.id user a.revision) receipts in
    record {
      announcement = a;
      is_read = is_some (column (λ r. r.read_at) receipt);
      is_acknowledged = is_some (column (λ r. r.acknowledged_at) receipt);
      delivered_at = column (λ r. r.delivered_at) receipt;
      read_at = column (λ r. r.read_at) receipt;
      acknowledged_at = column (λ r. r.acknowledged_at) receipt;
    }

abbrev pub announcement_of : Received → Announcement
announcement_of r = r.announcement

unfoldable pub list_for_user : ℕ → String → ℕ → ℕ → M (List Received)
list_for_user user platform code now = do
  items ← query λ db.
      map (received user db.announcement_receipts)
        (sorted (select (is_for user platform code now db) db.announcements))
  mark_delivered user (map announcement_of items) now
  pure items
