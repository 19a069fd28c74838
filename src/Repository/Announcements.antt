-- ===== src/Repository/Announcements.antt =====
-- internal/repository/announcement.go: announcements, the users that they are for, and the
-- receipts of users. `Lists` has the queries of several rows, `Receipts` the receipts.
pub mod Lists
pub mod Receipts
pub mod Targets
pub mod Replaced
pub mod Sound
pub mod Kept
pub mod Delivered
pub mod Order
pub mod Chosen
pub mod Upserts
pub mod Pages
pub mod Window
use jd_shop_server.Common.{
  ℕ, suc, ◌+◌, String, Bool, true, false, not, ◌&&◌, ◌||◌, Option, none, some, List, [], ◌∷◌, ◌==◌,
  str_eq, ltb, if◌then◌else◌, find, select, update_where, delete_where, is_some, map,
}
use jd_shop_server.Common.Int.{ℤ, pos, negsuc}
use jd_shop_server.Time.{format_rfc3339, sqlite_datetime}
use jd_shop_server.Model.Announcements.{Announcement}
use jd_shop_server.Db.{Db, Link, M, pure, ◌>>=◌, ◌>>◌, query, exec, insert_row, transaction}

abbrev pub has_id : ℕ → Announcement → Bool
has_id id a = a.id == id

abbrev pub targets_announcement : ℕ → Link → Bool
targets_announcement id l = l.left == id

abbrev pub is_target : ℕ → ℕ → Link → Bool
is_target id user l = l.left == id && l.right == user

-- `seen[userID]`.
unfoldable pub is_seen : ℕ → List ℕ → Bool
is_seen user [] = false
is_seen user (u ∷ seen) = u == user || is_seen user seen

-- `PRIMARY KEY (announcement_id, user_id)`.
unfoldable pub add_target : ℕ → ℕ → M (Unit {0})
add_target id user =
    insert_row (λ db. is_some (find (is_target id user) db.announcement_targets))
      λ db. (
        tt,
        record db {
          announcement_targets = record { left = id; right = user } ∷ db.announcement_targets;
        },
      )

-- The loop over `userIDs`; a case of `elim` waits for its test.
unfoldable pub add_targets : ℕ → List ℤ → List ℕ → M (Unit {0})
add_targets id [] seen = pure tt
add_targets id (negsuc n ∷ users) seen = add_targets id users seen
add_targets id (pos n ∷ users) seen = elim (n == 0 || is_seen n seen) [
  | true ↦ add_targets id users seen
  | false ↦ add_target id n >> add_targets id users (n ∷ seen)
]

unfoldable pub replace_targets : ℕ → String → List ℤ → M (Unit {0})
replace_targets id target_type users = do
  exec λ db. record db {
    announcement_targets = delete_where (targets_announcement id) db.announcement_targets;
  }
  if not (str_eq target_type "users") then pure tt else add_targets id users []

-- The row that `INSERT` makes.
abbrev pub inserted : ℕ → Announcement → ℕ → Announcement
inserted id a now = record a {
  id = id;
  revision = 0;
  is_published = 0;
  published_at = none;
  created_at = sqlite_datetime now;
  updated_at = sqlite_datetime now;
  target_user_ids = [];
}

-- The id of the new row is `a.ID` from then on.
unfoldable pub create : Announcement → ℕ → M ℕ
create a now = transaction do
  id ←
      insert_row (λ db. false)
        λ db. (
          db.next_announcement,
          record db {
            announcements = inserted db.next_announcement a now ∷ db.announcements;
            next_announcement = suc db.next_announcement;
          },
        )
  replace_targets id a.target_type a.target_user_ids
  pure id

-- `ORDER BY user_id`.
unfoldable pub insert_id : ℕ → List ℕ → List ℕ
insert_id n [] = n ∷ []
insert_id n (m ∷ ids) = if ltb m n then m ∷ insert_id n ids else n ∷ m ∷ ids

unfoldable pub targets_of : ℕ → List Link → List ℕ
targets_of id [] = []
targets_of id (l ∷ links) =
    let rest = targets_of id links in
    if targets_announcement id l then insert_id l.right rest else rest

unfoldable pub target_user_ids : ℕ → M (List ℤ)
target_user_ids id = query (λ db. map pos (targets_of id db.announcement_targets))

abbrev pub with_targets : ℕ → Option Announcement → M (Option Announcement)
with_targets id none = pure none
with_targets id (some a) = do
  users ← target_user_ids id
  pure (some (record a { target_user_ids = users }))

unfoldable pub find_by_id : ℕ → M (Option Announcement)
find_by_id id = do found ← query (λ db. find (has_id id) db.announcements); with_targets id found

-- The columns that an update sets.
abbrev pub rewritten : Announcement → ℕ → Announcement → Announcement
rewritten a now row = record row {
  title = a.title;
  content = a.content;
  level = a.level;
  display_mode = a.display_mode;
  show_policy = a.show_policy;
  starts_at = a.starts_at;
  ends_at = a.ends_at;
  target_type = a.target_type;
  target_platform = a.target_platform;
  min_version_code = a.min_version_code;
  max_version_code = a.max_version_code;
  action_text = a.action_text;
  action_url = a.action_url;
  revision = if row.is_published == 1 then row.revision + 1 else row.revision;
  updated_at = format_rfc3339 now;
}

unfoldable pub update : Announcement → ℕ → M (Unit {0})
update a now = transaction do
  exec λ db. record db {
    announcements = update_where (has_id a.id) (rewritten a now) db.announcements;
  }
  replace_targets a.id a.target_type a.target_user_ids

abbrev pub published : ℕ → Announcement → Announcement
published now row = record row {
  is_published = 1;
  published_at = some (format_rfc3339 now);
  revision = if ltb row.revision 1 then 1 else row.revision + 1;
  updated_at = format_rfc3339 now;
}

unfoldable pub publish : ℕ → ℕ → M (Unit {0})
publish id now =
    exec
      λ db. record db { announcements = update_where (has_id id) (published now) db.announcements }

abbrev pub withdrawn : ℕ → Announcement → Announcement
withdrawn now row = record row {
  is_published = 0;
  published_at = none;
  updated_at = format_rfc3339 now;
}

unfoldable pub unpublish : ℕ → ℕ → M (Unit {0})
unpublish id now =
    exec
      λ db. record db { announcements = update_where (has_id id) (withdrawn now) db.announcements }

unfoldable pub delete : ℕ → M (Unit {0})
delete id = exec λ db. record db { announcements = delete_where (has_id id) db.announcements }
