-- ===== src/Service/Announcements/Histories.antt =====
-- The operations of internal/service/announcement.go in any order.
use jd_shop_server.Common.{ℕ, String, Option, none, some, List, [], ◌∷◌, false, true}
use jd_shop_server.Model.Announcements.{Announcement, UpdateAnnouncementRequest}
use jd_shop_server.Db.{World, Keeps}
use jd_shop_server.Db.Laws.{keeping}
use jd_shop_server.Repository.Announcements.Receipts
use jd_shop_server.Repository.Announcements.Sound.{IsSound}
use jd_shop_server.Repository.Announcements.Kept.{
  keeps_create, keeps_update, keeps_publish, keeps_unpublish, keeps_delete, keeps_find_by_id,
}
use jd_shop_server.Repository.Announcements.Delivered.{keeps_mark_receipt, keeps_list_for_user}
use jd_shop_server.Service.Announcements.{
  create_announcement, update_announcement, publish_announcement, unpublish_announcement,
  delete_announcement, list_for_user, mark_read, acknowledge, announcement_or_fail, tell_changed,
  tell_published,
}

pub data AnnouncementOperation : Type 0 where
  creates : Announcement → ℕ → ℕ → AnnouncementOperation
  updates : ℕ → UpdateAnnouncementRequest → ℕ → AnnouncementOperation
  publishes unpublishes deletes : ℕ → ℕ → AnnouncementOperation
  lists : ℕ → String → ℕ → ℕ → AnnouncementOperation
  reads acknowledges : ℕ → ℕ → ℕ → AnnouncementOperation

-- What an operation leaves.
unfoldable pub run : AnnouncementOperation → World → World
run (creates a created_by now) w = (create_announcement a created_by now w).1
run (updates id req now) w = (update_announcement id req now w).1
run (publishes id now) w = (publish_announcement id now w).1
run (unpublishes id now) w = (unpublish_announcement id now w).1
run (deletes id now) w = (delete_announcement id now w).1
run (lists user platform code now) w = (list_for_user user platform code now w).1
run (reads id user now) w = (mark_read id user now w).1
run (acknowledges id user now) w = (acknowledge id user now w).1

unfoldable pub run_all : List AnnouncementOperation → World → World
run_all [] w = w
run_all (op ∷ ops) w = run_all ops (run op w)

keeps_or_fail : (found : Option Announcement) → Keeps IsSound (announcement_or_fail found)
unfolding announcement_or_fail
keeps_or_fail none = search keeping
keeps_or_fail (some a) = search keeping

keeps_tell_changed :
    (found : Option Announcement) (now : ℕ) → Keeps IsSound (tell_changed found now)
keeps_tell_changed none now = search keeping
keeps_tell_changed (some a) now = search keeping

keeps_tell_published :
    (found : Option Announcement) (now : ℕ) → Keeps IsSound (tell_published found now)
keeps_tell_published none now = search keeping
keeps_tell_published (some a) now = search keeping

keeps_mark_read : (id user now : ℕ) → Keeps IsSound (Receipts.mark_read id user now)
unfolding Receipts.mark_read
keeps_mark_read id user now = keeps_mark_receipt id user false now

keeps_acknowledge : (id user now : ℕ) → Keeps IsSound (Receipts.acknowledge id user now)
unfolding Receipts.acknowledge
keeps_acknowledge id user now = keeps_mark_receipt id user true now

keeps_available : (id user now : ℕ) → Keeps IsSound (Receipts.available_for_user id user now)
unfolding Receipts.available_for_user
keeps_available id user now = search keeping

ruleset announcing = (
  keeping, keeps_find_by_id, keeps_or_fail, keeps_create, keeps_update, keeps_publish,
  keeps_unpublish, keeps_delete, keeps_tell_changed, keeps_tell_published, keeps_available,
  keeps_mark_read, keeps_acknowledge, keeps_list_for_user,
)

run-IsSound : (op : AnnouncementOperation) (w : World) → IsSound w.db → IsSound (run op w).db
unfolding run create_announcement update_announcement publish_announcement unpublish_announcement
    delete_announcement list_for_user mark_read acknowledge
run-IsSound (creates a created_by now) w p =
    let kept : Keeps IsSound (create_announcement a created_by now) = search announcing in
    kept.kept w p
run-IsSound (updates id req now) w p =
    let kept : Keeps IsSound (update_announcement id req now) = search announcing depth 8 in
    kept.kept w p
run-IsSound (publishes id now) w p =
    let kept : Keeps IsSound (publish_announcement id now) = search announcing in kept.kept w p
run-IsSound (unpublishes id now) w p =
    let kept : Keeps IsSound (unpublish_announcement id now) = search announcing in kept.kept w p
run-IsSound (deletes id now) w p =
    let kept : Keeps IsSound (delete_announcement id now) = search announcing in kept.kept w p
run-IsSound (lists user platform code now) w p =
    let kept : Keeps IsSound (list_for_user user platform code now) = search announcing in
    kept.kept w p
run-IsSound (reads id user now) w p =
    let kept : Keeps IsSound (mark_read id user now) = search announcing in kept.kept w p
run-IsSound (acknowledges id user now) w p =
    let kept : Keeps IsSound (acknowledge id user now) = search announcing in kept.kept w p

-- After any history of creations, updates, publications, withdrawals, deletions, lists for users
-- and receipts, each with any statements failing, no announcement's id occurs twice or is yet to be
-- given out, every receipt that is acknowledged is read, every one that is read is delivered, and
-- each is for an id that was given out and, if its announcement is still there, for no revision
-- above the announcement's own, if that was so before.
pub run_all-IsSound :
    (ops : List AnnouncementOperation) (w : World) → IsSound w.db → IsSound (run_all ops w).db
unfolding run_all
run_all-IsSound [] w p = p
run_all-IsSound (op ∷ ops) w p = run_all-IsSound ops (run op w) (run-IsSound op w p)
