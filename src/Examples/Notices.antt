-- ===== src/Examples/Notices.antt =====
-- Announcements.
use jd_shop_server.Common.{
  ℕ, ◌+◌, ◌-◌, ◌*◌, ◌<◌, ◌≡◌, ◌≢◌, refl, true, false, not, ◌&&◌, ◌||◌, none, some, List, [], ◌∷◌,
  map, count_where, find, select, update_where, delete_where, arith, if◌then◌else◌, String, Option,
  str_eq, ◌==◌, All, Bool,
}
use jd_shop_server.Common.Int.{pos, negsuc}
use jd_shop_server.Hub.{
  new_control_hub, announcement_published, stamped, publish_event, offer_to, broadcast,
  offer_everywhere, offer_all,
}
use jd_shop_server.Hub.Laws.{channel, offered}
use jd_shop_server.Time.{format_rfc3339, parse_rfc3339, text_lt}
use jd_shop_server.Model.Announcements.{
  Announcement, Received, Receipt, TimeText, CreateAnnouncementRequest, UpdateAnnouncementRequest,
}
use jd_shop_server.Db.{
  Db, World, calm, ok, Link, ◌>>=◌, pure, fail, when, reject, query, exec, insert_row, transaction,
  control, statement, schedule, signal,
}
use jd_shop_server.Repository.Announcements
use jd_shop_server.Repository.Announcements.Receipts
use jd_shop_server.Repository.Announcements.Lists
use jd_shop_server.Repository.Announcements.{is_seen, has_id, published, targets_of, insert_id}
use jd_shop_server.Repository.Announcements.Lists.{
  is_for, announcement_of, received, take, sorted, insert_sorted, precedes,
}
use jd_shop_server.Repository.Announcements.Pages.{pages, pages-take}
use jd_shop_server.Repository.Announcements.Receipts.{is_available, is_receipt, upsert}
use jd_shop_server.Repository.Announcements.Sound.{IsSound}
use jd_shop_server.Repository.Announcements.Targets.{names, IsAscending}
use jd_shop_server.Repository.Announcements.Window.{available_late, eastern}
use jd_shop_server.Service.Announcements.{
  create_announcement, publish_announcement, update_announcement, list_for_user, mark_read,
  acknowledge, told, event_of, announcement_or_fail, changed, publish_each,
}
use jd_shop_server.Service.Announcements.Created.{IsNew, create_announcement_lem, made}
use jd_shop_server.Service.Announcements.Histories.{
  AnnouncementOperation, creates, publishes, updates, lists, reads, acknowledges, deletes, run_all,
  run_all-IsSound,
}
use jd_shop_server.Service.Announcements.Unread.{publish_announcement-IsUnread, IsUnread}
use jd_shop_server.Service.Announcements.Updated.{
  update_announcement-IsUnread, IsWritten, rewritten_by,
}
use jd_shop_server.Service.Announcements.Receipted.{mark_lem, Says, mark}
use jd_shop_server.Repository.Announcements.Chosen.{is_meant, IsOrdered, Reports, receipt_of}
use jd_shop_server.Service.Announcements.Listed.{list_for_user_lem, IsDelivered}
use jd_shop_server.Service.Announcements.Told.{told_lem, mentions}
use jd_shop_server.Handler.Announcements.{create, Url}
use jd_shop_server.Examples.Data.{tables, stamp, noon}

-- For the users 7 and 9.
abbrev notice : Announcement
notice = record {
  id = 1;
  title = "t";
  content = "c";
  level = "warning";
  display_mode = "modal";
  show_policy = "once";
  starts_at = none;
  ends_at = none;
  target_type = "users";
  target_platform = "all";
  min_version_code = none;
  max_version_code = none;
  action_text = none;
  action_url = none;
  revision = 1;
  is_published = 1;
  published_at = some (format_rfc3339 noon);
  created_by = 1;
  created_at = stamp;
  updated_at = stamp;
  target_user_ids = pos 9 ∷ negsuc 3 ∷ pos 7 ∷ pos 9 ∷ [];
}

methods : Unit {0}
unfolding ◌>>=◌ pure fail when reject query exec insert_row transaction control statement schedule
    signal find select update_where count_where take Announcements.create Announcements.find_by_id
    Announcements.target_user_ids Announcements.update Announcements.publish
    Announcements.replace_targets Announcements.add_target Announcements.add_targets is_seen
    targets_of insert_id announcement_or_fail changed publish_announcement update_announcement told
    publish_each publish_event offer_to broadcast offer_everywhere offer_all new_control_hub
    format_rfc3339 text_lt delete_where is_available Receipts.available_for_user Receipts.mark_read
    Receipts.acknowledge Receipts.mark_receipt mark_read acknowledge upsert Lists.list_for_user
    list_for_user is_for sorted insert_sorted precedes Receipts.mark_delivered Receipts.deliver_each
methods = tt

create_announcement_example :
    (ids : List ℕ) × (links : List Link) × (create_announcement notice 1 noon
        (calm tables new_control_hub)
      ≡ (
        ok (some (record (made notice 1 noon tables) { target_user_ids = map pos ids })),
        calm
            (record tables {
              announcements = made notice 1 noon tables ∷ [];
              next_announcement = 2;
              announcement_targets = links;
            })
            new_control_hub,
      ))
    × IsNew notice 1 1 noon (made notice 1 noon tables)
    × (targets_of 1 links ≡ ids)
    × IsAscending ids
    × ((u : ℕ) → is_seen u ids ≡ (str_eq "users" "users" && names u notice.target_user_ids))
create_announcement_example = create_announcement_lem notice 1 noon tables new_control_hub

abbrev numbers : List ℕ
numbers = 1 ∷ 2 ∷ 3 ∷ 4 ∷ 5 ∷ []

pages-take_example : pages 2 2 numbers ≡ take (2 * 2) numbers
pages-take_example = pages-take 2 2 numbers (omega arith)

abbrev posted : Db
posted = record tables {
  announcements = notice ∷ [];
  next_announcement = 2;
  announcement_targets = record { left = 1; right = 7 } ∷ [];
}

posted-IsSound : IsSound posted
unfolding count_where
posted-IsSound = (λ id. ground arith, tt)

abbrev at_noon : World
at_noon = calm posted new_control_hub

abbrev after_publish : World
unfolding methods
after_publish = (publish_announcement 1 noon at_noon).1

published_at_noon : publish_announcement 1 noon at_noon ≡ (ok tt, after_publish)
unfolding methods
published_at_noon = refl

publish_announcement-IsUnread_example :
    (a : Announcement) × (find (has_id 1) posted.announcements ≡ some a)
    × (find (has_id 1) after_publish.db.announcements ≡ some (published noon a))
    × ((published noon a).is_published ≡ 1)
    × ((published noon a).published_at ≡ some (format_rfc3339 noon))
    × (a.revision < (published noon a).revision)
    × IsUnread 1 (published noon a) after_publish.db
publish_announcement-IsUnread_example =
    publish_announcement-IsUnread 1 noon at_noon posted-IsSound published_at_noon

abbrev retitled : UpdateAnnouncementRequest
retitled = record {
  title = some "new";
  content = none;
  level = none;
  display_mode = none;
  show_policy = none;
  starts_at = none;
  ends_at = some TimeText.empty;
  target_type = none;
  target_platform = none;
  min_version_code = none;
  max_version_code = some (pos 3);
  action_text = none;
  action_url = none;
  target_user_ids = some (pos 9 ∷ []);
}

abbrev after_update : World
unfolding methods
after_update = (update_announcement 1 retitled noon at_noon).1

abbrev told_of_update : Option Announcement
told_of_update =
    some
      (record (rewritten_by 1 retitled noon posted notice notice) { target_user_ids = pos 9 ∷ [] })

updated_at_noon : update_announcement 1 retitled noon at_noon ≡ (ok told_of_update, after_update)
unfolding methods
updated_at_noon = refl

update_announcement-IsUnread_example :
    (a : Announcement) × (b : Announcement) × (find (has_id 1) posted.announcements ≡ some a)
    × IsWritten retitled noon a b
    × ((other : ℕ)
        → find (has_id other) after_update.db.announcements
          ≡ (if other == 1 then some b else find (has_id other) posted.announcements))
    × (a.is_published ≡ 1 → (b.revision ≡ a.revision + 1) × IsUnread 1 b after_update.db)
    × (a.is_published ≢ 1 → b.revision ≡ a.revision)
update_announcement-IsUnread_example =
    update_announcement-IsUnread 1 retitled noon at_noon posted-IsSound updated_at_noon

abbrev after_acknowledge : World
unfolding methods
after_acknowledge = (mark true 1 7 noon at_noon).1

acknowledged_at_noon : mark true 1 7 noon at_noon ≡ (ok tt, after_acknowledge)
unfolding methods
acknowledged_at_noon = refl

mark_example :
    (a : Announcement) × (find (has_id 1) posted.announcements ≡ some a)
    × (is_available 7 noon posted.announcement_targets a ≡ true)
    × ((r : Receipt) × (find (is_receipt 1 7 a.revision) after_acknowledge.db.announcement_receipts
          ≡ some r)
        × Says true noon (find (is_receipt 1 7 a.revision) posted.announcement_receipts) r)
    × ((i u k : ℕ)
        → (1 == i && 7 == u && a.revision == k) ≡ false
        → find (is_receipt i u k) after_acknowledge.db.announcement_receipts
          ≡ find (is_receipt i u k) posted.announcement_receipts)
mark_example = mark_lem true 1 7 noon at_noon posted-IsSound acknowledged_at_noon

abbrev after_list : World
unfolding methods
after_list = (list_for_user 7 "windows" 3 noon at_noon).1

abbrev listed : List Received
listed = received 7 [] notice ∷ []

lists_at_noon : list_for_user 7 "windows" 3 noon at_noon ≡ (ok listed, after_list)
unfolding methods
lists_at_noon = refl

list_for_user_example :
    ((q : Announcement → Bool)
      → count_where q (map announcement_of listed)
        ≡ count_where (λ a. is_meant 7 "windows" 3 noon posted a && q a) posted.announcements)
    × IsOrdered (map announcement_of listed)
    × All (λ (item : Received). Reports (receipt_of 7 item.announcement []) item) listed
    × All (λ b. IsDelivered b.id 7 b.revision after_list.db) (map announcement_of listed)
list_for_user_example = list_for_user_lem 7 "windows" 3 noon at_noon lists_at_noon

abbrev operations : List AnnouncementOperation
operations =
    creates notice 1 noon
    ∷ publishes 2 noon
    ∷ lists 7 "windows" 3 noon
    ∷ acknowledges 2 7 noon
    ∷ updates 2 retitled noon
    ∷ reads 1 7 noon
    ∷ deletes 1 noon
    ∷ []

announcements-IsSound_example : IsSound (run_all operations at_noon).db
announcements-IsSound_example = run_all-IsSound operations at_noon posted-IsSound

told_example : channel (told notice announcement_published noon new_control_hub) 7 1 ≡ (
    if not (str_eq notice.target_type "users") || mentions 7 notice.target_user_ids
    then offered (stamped (event_of announcement_published 1 1) noon) (channel new_control_hub 7 1)
    else channel new_control_hub 7 1)
told_example = told_lem notice announcement_published noon new_control_hub 7 1

-- From noon to eight in the evening of a day, eight hours east of UTC, it is noon in UTC before that.
abbrev in_the_east : Announcement
in_the_east = record notice {
  starts_at = some (TimeText.instant (eastern 20000 50400 480));
  target_type = "all";
}

available_late_example :
    (parse_rfc3339 (eastern 20000 50400 480) ≡ some (20000 * 86400 + 50400 - 480 * 60))
    × (is_available 7 noon [] in_the_east ≡ false)
available_late_example =
    available_late in_the_east 20000 50400 480 7 noon [] refl (omega arith) (omega arith)

abbrev request : CreateAnnouncementRequest
request = record {
  title = "t";
  content = "c";
  level = " INFO";
  display_mode = "";
  show_policy = "";
  starts_at = none;
  ends_at = none;
  target_type = "users";
  target_platform = "";
  min_version_code = none;
  max_version_code = none;
  action_text = none;
  action_url = none;
  target_user_ids = pos 7 ∷ [];
}

abbrev no_url : String → Option Url
no_url s = none
