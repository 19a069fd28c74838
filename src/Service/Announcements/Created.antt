-- ===== src/Service/Announcements/Created.antt =====
-- What internal/service/announcement.go answers to the creation of an announcement.
use jd_shop_server.Common.{
  ℕ, suc, ◌≡◌, refl, ◌∙◌, ◌&&◌, some, none, List, ◌∷◌, str_eq, find, map, ==_refl,
}
use jd_shop_server.Common.Int.{pos}
use jd_shop_server.Time.{sqlite_datetime}
use jd_shop_server.Hub.{ControlHub}
use jd_shop_server.Model.Announcements.{Announcement}
use jd_shop_server.Db.{Db, Link, calm, ok, pure}
use jd_shop_server.Db.Success.{bind-eq, query-calm, insert_row-calm, transaction-calm}
use jd_shop_server.Repository.Announcements.{
  inserted, replace_targets, targets_of, create, find_by_id, has_id, is_seen, target_user_ids,
}
use jd_shop_server.Repository.Announcements.Targets.{
  names, with_links, IsAscending, is_seen-targets_of, targets_of-IsAscending,
}
use jd_shop_server.Repository.Announcements.Replaced.{
  replaced, replace_targets-calm, linked-replaced, replaced-IsDistinct,
}
use jd_shop_server.Service.Announcements.{create_announcement}

abbrev with_row : Announcement → ℕ → Db → Db
with_row a now db = record db {
  announcements = inserted db.next_announcement a now ∷ db.announcements;
  next_announcement = suc db.next_announcement;
}

create-calm :
    (a : Announcement) (now : ℕ) (db : Db) (hub : ControlHub)
    → create a now (calm db hub) ≡ (
      ok db.next_announcement,
      calm
          (with_links
            (with_row a now db)
            (replaced db.next_announcement a.target_type a.target_user_ids db.announcement_targets))
          hub,
    )
unfolding create pure
create-calm a now db hub =
    let id = db.next_announcement in
    transaction-calm db hub _ (
      bind-eq _ _ (calm db hub) (insert_row-calm db hub _ _ refl)
      ∙ bind-eq (replace_targets id a.target_type a.target_user_ids) (λ _. pure id)
          (calm (with_row a now db) hub)
          (replace_targets-calm id a.target_type a.target_user_ids (with_row a now db) hub))

pub find_by_id-calm :
    (id : ℕ) (db : Db) (hub : ControlHub) {a : Announcement}
    → find (has_id id) db.announcements ≡ some a
    → find_by_id id (calm db hub) ≡ (
      ok (some (record a { target_user_ids = map pos (targets_of id db.announcement_targets) })),
      calm db hub,
    )
unfolding find_by_id target_user_ids pure
find_by_id-calm id db hub {a} found =
    bind-eq _ _ (calm db hub) (query-calm db hub (λ db. find (has_id id) db.announcements))
    ∙ rw found (
        bind-eq _ _ (calm db hub)
          (query-calm db hub (λ db. map pos (targets_of id db.announcement_targets))))

abbrev pub made : Announcement → ℕ → ℕ → Db → Announcement
made a created_by now db = inserted db.next_announcement (record a { created_by = created_by }) now

-- The links that the creation leaves.
abbrev pub links_of : Announcement → Db → List Link
links_of a db =
    replaced db.next_announcement a.target_type a.target_user_ids db.announcement_targets

pub create_announcement-calm :
    (a : Announcement) (created_by now : ℕ) (db : Db) (hub : ControlHub)
    → create_announcement a created_by now (calm db hub) ≡ (
      ok (
          some (record (made a created_by now db) {
            target_user_ids = map pos (targets_of db.next_announcement (links_of a db));
          })),
      calm
          (record db {
            announcements = made a created_by now db ∷ db.announcements;
            next_announcement = suc db.next_announcement;
            announcement_targets = links_of a db;
          })
          hub,
    )
unfolding create_announcement
create_announcement-calm a created_by now db hub =
    let id = db.next_announcement in
    bind-eq (create (record a { created_by = created_by }) now) find_by_id (calm db hub)
      (create-calm (record a { created_by = created_by }) now db hub)
    ∙ find_by_id-calm id
        (with_links (with_row (record a { created_by = created_by }) now db) (links_of a db)) hub
        {a = made a created_by now db} (unfold find in rw (==_refl id))

pub targets_of-links_of :
    (a : Announcement) (db : Db)
    → IsAscending (targets_of db.next_announcement (links_of a db))
      × ((u : ℕ)
          → is_seen u (targets_of db.next_announcement (links_of a db))
            ≡ (str_eq a.target_type "users" && names u a.target_user_ids))
targets_of-links_of a db =
    let id = db.next_announcement in
    (
      targets_of-IsAscending id (links_of a db)
          (replaced-IsDistinct id a.target_type a.target_user_ids db.announcement_targets),
      (λ u.
          is_seen-targets_of id u (links_of a db)
          ∙ linked-replaced id a.target_type a.target_user_ids u db.announcement_targets),
    )

-- A row with the columns of the request, that is new and not published.
unfoldable pub IsNew : Announcement → ℕ → ℕ → ℕ → Announcement → Type 0
IsNew a id created_by now row =
    (row.id ≡ id)
    × (row.title ≡ a.title)
    × (row.content ≡ a.content)
    × (row.level ≡ a.level)
    × (row.display_mode ≡ a.display_mode)
    × (row.show_policy ≡ a.show_policy)
    × (row.starts_at ≡ a.starts_at)
    × (row.ends_at ≡ a.ends_at)
    × (row.target_type ≡ a.target_type)
    × (row.target_platform ≡ a.target_platform)
    × (row.min_version_code ≡ a.min_version_code)
    × (row.max_version_code ≡ a.max_version_code)
    × (row.action_text ≡ a.action_text)
    × (row.action_url ≡ a.action_url)
    × (row.revision ≡ 0)
    × (row.is_published ≡ 0)
    × (row.published_at ≡ none)
    × (row.created_by ≡ created_by)
    × (row.created_at ≡ sqlite_datetime now)
    × (row.updated_at ≡ sqlite_datetime now)

made-IsNew :
    (a : Announcement) (created_by now : ℕ) (db : Db)
    → IsNew a db.next_announcement created_by now (made a created_by now db)
unfolding IsNew
made-IsNew a created_by now db = (
  refl, refl, refl, refl, refl, refl, refl, refl, refl, refl, refl, refl, refl, refl, refl, refl,
  refl, refl, refl, refl,
)

-- Where no statement fails, the creation succeeds. Its answer is the announcement with the columns
-- of the request, unpublished and of revision 0, the next id and the creator, and with the ids it is
-- for: each once, in ascending order, those of the request above 0 if it is for single users, and
-- none otherwise. The row is added to the others, its targets are those ids, and nothing changes but
-- the row and the targets.
pub create_announcement_lem :
    (a : Announcement) (created_by now : ℕ) (db : Db) (hub : ControlHub)
    → (ids : List ℕ) × (links : List Link) × (create_announcement a created_by now (calm db hub) ≡ (
      ok (some (record (made a created_by now db) { target_user_ids = map pos ids })),
      calm
          (record db {
            announcements = made a created_by now db ∷ db.announcements;
            next_announcement = suc db.next_announcement;
            announcement_targets = links;
          })
          hub,
    ))
      × IsNew a db.next_announcement created_by now (made a created_by now db)
      × (targets_of db.next_announcement links ≡ ids)
      × IsAscending ids
      × ((u : ℕ) → is_seen u ids ≡ (str_eq a.target_type "users" && names u a.target_user_ids))
create_announcement_lem a created_by now db hub =
    let (ascending, named) = targets_of-links_of a db in
    (
      targets_of db.next_announcement (links_of a db),
      links_of a db,
      create_announcement-calm a created_by now db hub,
      made-IsNew a created_by now db,
      refl,
      ascending,
      named,
    )
