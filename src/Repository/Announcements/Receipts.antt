-- ===== src/Repository/Announcements/Receipts.antt =====
-- internal/repository/announcement.go: which user an announcement is available to, and what the
-- user has received of it.
use jd_shop_server.Common.{
  ℕ, Bool, true, false, not, ◌&&◌, ◌||◌, Option, none, some, List, [], ◌∷◌, ◌==◌, ltb, str_eq,
  if◌then◌else◌, find, update_where, count_where, is_some,
}
use jd_shop_server.Time.{Timestamp, format_rfc3339, text_le}
use jd_shop_server.Model.Announcements.{Announcement, TimeText, Receipt}
use jd_shop_server.Db.{Db, Link, no_rows, M, pure, fail, ◌>>=◌, ◌>>◌, query, exec, transaction}
use jd_shop_server.Repository.Announcements.{has_id, is_target}

-- `text <= now`, as SQLite compares texts.
abbrev pub not_after : TimeText → Timestamp → Bool
not_after TimeText.empty now = true
not_after (TimeText.instant t) now = text_le t now
not_after (TimeText.spaced t below) now = below now
not_after (TimeText.other below) now = below now

-- `starts_at IS NULL OR starts_at = '' OR starts_at <= ?`.
abbrev pub has_started : Option TimeText → Timestamp → Bool
has_started none now = true
has_started (some t) now = not_after t now

-- `ends_at IS NULL OR ends_at = '' OR ends_at > ?`.
abbrev pub has_not_ended : Option TimeText → Timestamp → Bool
has_not_ended none now = true
has_not_ended (some TimeText.empty) now = true
has_not_ended (some t) now = not (not_after t now)

abbrev pub is_targeted : Announcement → ℕ → List Link → Bool
is_targeted a user links = str_eq a.target_type "all" || is_some (find (is_target a.id user) links)

unfoldable pub is_available : ℕ → ℕ → List Link → Announcement → Bool
is_available user now links a =
    a.is_published == 1
    && has_started a.starts_at (format_rfc3339 now)
    && has_not_ended a.ends_at (format_rfc3339 now)
    && is_targeted a user links

-- `count > 0`.
unfoldable pub available_for_user : ℕ → ℕ → ℕ → M Bool
available_for_user id user now = query λ db. ltb 0 (
    count_where (λ a. has_id id a && is_available user now db.announcement_targets a)
      db.announcements)

-- `PRIMARY KEY (announcement_id, user_id, revision)`.
abbrev pub is_receipt : ℕ → ℕ → ℕ → Receipt → Bool
is_receipt id user revision r =
    r.announcement_id == id && r.user_id == user && r.revision == revision

abbrev pub coalesce : Option Timestamp → Option Timestamp → Option Timestamp
coalesce none new = new
coalesce (some old) new = some old

-- The sets of `ON CONFLICT … DO UPDATE SET`, with `excluded` as the first argument.
abbrev pub set_delivered : Receipt → Receipt → Receipt
set_delivered new r = record r { delivered_at = coalesce r.delivered_at new.delivered_at }

abbrev pub set_read : Receipt → Receipt → Receipt
set_read new r = record r {
  delivered_at = coalesce r.delivered_at new.delivered_at;
  read_at = coalesce r.read_at new.read_at;
}

abbrev pub set_acknowledged : Receipt → Receipt → Receipt
set_acknowledged new r = record r {
  delivered_at = coalesce r.delivered_at new.delivered_at;
  read_at = coalesce r.read_at new.read_at;
  acknowledged_at = coalesce r.acknowledged_at new.acknowledged_at;
}

-- `INSERT INTO announcement_receipts … ON CONFLICT …`.
unfoldable pub upsert : Receipt → (Receipt → Receipt) → List Receipt → List Receipt
upsert new f receipts =
    let same = is_receipt new.announcement_id new.user_id new.revision in
    if is_some (find same receipts) then update_where same f receipts else new ∷ receipts

abbrev pub delivered_receipt : ℕ → ℕ → ℕ → ℕ → Receipt
delivered_receipt id user revision now = record {
  announcement_id = id;
  user_id = user;
  revision = revision;
  delivered_at = some (format_rfc3339 now);
  read_at = none;
  acknowledged_at = none;
}

abbrev pub read_receipt : ℕ → ℕ → ℕ → ℕ → Receipt
read_receipt id user revision now = record (delivered_receipt id user revision now) {
  read_at = some (format_rfc3339 now);
}

abbrev pub acknowledged_receipt : ℕ → ℕ → ℕ → ℕ → Receipt
acknowledged_receipt id user revision now = record (read_receipt id user revision now) {
  acknowledged_at = some (format_rfc3339 now);
}

abbrev pub upserted : Receipt → (Receipt → Receipt) → Db → Db
upserted new f db = record db { announcement_receipts = upsert new f db.announcement_receipts }

unfoldable pub deliver_each : ℕ → List Announcement → ℕ → M (Unit {0})
deliver_each user [] now = pure tt
deliver_each user (a ∷ items) now =
    let new = delivered_receipt a.id user a.revision now in
    exec (upserted new (set_delivered new)) >> deliver_each user items now

unfoldable pub mark_delivered : ℕ → List Announcement → ℕ → M (Unit {0})
mark_delivered user [] now = pure tt
mark_delivered user (a ∷ items) now = transaction (deliver_each user (a ∷ items) now)

abbrev pub revision_or_fail : Option Announcement → M ℕ
revision_or_fail none = fail no_rows
revision_or_fail (some a) = pure a.revision

-- The write of a receipt, read or acknowledged.
abbrev pub receipted : ℕ → ℕ → ℕ → Bool → ℕ → Db → Db
receipted id user revision true now =
    let new = acknowledged_receipt id user revision now in upserted new (set_acknowledged new)
receipted id user revision false now =
    let new = read_receipt id user revision now in upserted new (set_read new)

unfoldable pub mark_receipt : ℕ → ℕ → Bool → ℕ → M (Unit {0})
mark_receipt id user acknowledge now = do
  found ← query (λ db. find (has_id id) db.announcements)
  revision ← revision_or_fail found
  exec (receipted id user revision acknowledge now)

unfoldable pub mark_read : ℕ → ℕ → ℕ → M (Unit {0})
unfolding mark_receipt
mark_read id user now = mark_receipt id user false now

unfoldable pub acknowledge : ℕ → ℕ → ℕ → M (Unit {0})
unfolding mark_receipt
acknowledge id user now = mark_receipt id user true now
