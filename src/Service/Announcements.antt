-- ===== src/Service/Announcements.antt =====
-- internal/service/announcement.go: announcements, and the events that tell clients of them.
pub mod Created
pub mod Histories
pub mod Unread
pub mod Updated
pub mod Receipted
pub mod Listed
pub mod Told
use jd_shop_server.Common.{
  ℕ, String, true, false, not, Option, none, some, List, [], ◌∷◌, ◌==◌, str_eq, if◌then◌else◌, map,
}
use jd_shop_server.Common.Int.{ℤ, pos, negsuc, positive}
use jd_shop_server.Hub.{
  ControlHub, ControlEvent, EventType, announcement_changed, announcement_published, broadcast,
  publish_event,
}
use jd_shop_server.Model.Announcements.{
  Announcement, Counted, Received, TimeText, UpdateAnnouncementRequest,
}
use jd_shop_server.Db.{announcement_not_found, M, pure, fail, ◌>>=◌, ◌>>◌, when, reject, signal}
use jd_shop_server.Repository.Announcements
use jd_shop_server.Repository.Announcements.Lists
use jd_shop_server.Repository.Announcements.Receipts
use jd_shop_server.Repository.Versions.{given}

unfoldable pub create_announcement : Announcement → ℕ → ℕ → M (Option Announcement)
create_announcement a created_by now = do
  id ← Announcements.create (record a { created_by = created_by }) now
  Announcements.find_by_id id

-- `cleanOptionalString`.
abbrev pub clean_time : TimeText → Option TimeText
clean_time TimeText.empty = none
clean_time t = some t

abbrev pub clean_string : String → Option String
clean_string s = if str_eq s "" then none else some s

-- A field that is set by `clean` if the request has it.
abbrev pub cleaned {ℓ κ} :
    {A : Type ℓ} {B : Type κ} → (A → Option B) → Option B → Option A → Option B
cleaned clean old none = old
cleaned clean old (some new) = clean new

abbrev pub positive_number : ℤ → Option ℕ
positive_number n = positive (some n)

unfoldable pub changed : UpdateAnnouncementRequest → Announcement → Announcement
changed req a = record a {
  title = given a.title req.title;
  content = given a.content req.content;
  level = given a.level req.level;
  display_mode = given a.display_mode req.display_mode;
  show_policy = given a.show_policy req.show_policy;
  starts_at = cleaned clean_time a.starts_at req.starts_at;
  ends_at = cleaned clean_time a.ends_at req.ends_at;
  target_type = given a.target_type req.target_type;
  target_platform = given a.target_platform req.target_platform;
  min_version_code = cleaned positive_number a.min_version_code req.min_version_code;
  max_version_code = cleaned positive_number a.max_version_code req.max_version_code;
  action_text = cleaned clean_string a.action_text req.action_text;
  action_url = cleaned clean_string a.action_url req.action_url;
  target_user_ids = given a.target_user_ids req.target_user_ids;
}

unfoldable pub announcement_or_fail : Option Announcement → M Announcement
announcement_or_fail none = fail announcement_not_found
announcement_or_fail (some a) = pure a

abbrev pub event_of : EventType → ℕ → ℕ → ControlEvent
event_of type id revision = record {
  type = type;
  issued_at = none;
  announcement_id = id;
  revision = revision;
}

-- The broadcast that follows an update.
abbrev pub tell_changed : Option Announcement → ℕ → M (Unit {0})
tell_changed none now = pure tt
tell_changed (some a) now =
    when (a.is_published == 1)
      (signal λ hub. broadcast hub (event_of announcement_changed a.id a.revision) now)

unfoldable pub update_announcement : ℕ → UpdateAnnouncementRequest → ℕ → M (Option Announcement)
update_announcement id req now = do
  found ← Announcements.find_by_id id
  a ← announcement_or_fail found
  Announcements.update (changed req a) now
  updated ← Announcements.find_by_id id
  tell_changed updated now
  pure updated

-- The loop over the targets. No client has an id that is negative.
unfoldable pub publish_each : List ℤ → ControlEvent → ℕ → ControlHub → ControlHub
publish_each [] event now hub = hub
publish_each (negsuc n ∷ users) event now hub = publish_each users event now hub
publish_each (pos n ∷ users) event now hub =
    publish_each users event now (publish_event hub n event now)

-- `notify`.
unfoldable pub told : Announcement → EventType → ℕ → ControlHub → ControlHub
unfolding publish_each
told a type now hub =
    let event = event_of type a.id a.revision in
    if str_eq a.target_type "users"
    then publish_each a.target_user_ids event now hub
    else broadcast hub event now

abbrev pub tell_published : Option Announcement → ℕ → M (Unit {0})
tell_published none now = pure tt
tell_published (some a) now = signal (told a announcement_published now)

unfoldable pub publish_announcement : ℕ → ℕ → M (Unit {0})
publish_announcement id now = do
  found ← Announcements.find_by_id id
  _ ← announcement_or_fail found
  Announcements.publish id now
  updated ← Announcements.find_by_id id
  tell_published updated now

unfoldable pub unpublish_announcement : ℕ → ℕ → M (Unit {0})
unpublish_announcement id now = do
  found ← Announcements.find_by_id id
  _ ← announcement_or_fail found
  Announcements.unpublish id now
  signal λ hub. broadcast hub (event_of announcement_changed id 0) now

unfoldable pub delete_announcement : ℕ → ℕ → M (Unit {0})
delete_announcement id now = do
  found ← Announcements.find_by_id id
  a ← announcement_or_fail found
  Announcements.delete id
  when (a.is_published == 1) (signal λ hub. broadcast hub (event_of announcement_changed id 0) now)

unfoldable pub get_by_id : ℕ → M (Option Announcement)
get_by_id id = Announcements.find_by_id id

abbrev pub uncounted : Counted → Counted
uncounted c = record c { delivered_count = 0; read_count = 0; acknowledged_count = 0 }

unfoldable pub list_public : ℕ → ℕ → String → ℕ → M (List Counted × ℕ)
list_public page page_size level now = do
  found ← Lists.list page page_size level true now
  pure (map uncounted found.0, found.1)

unfoldable pub list_all : ℕ → ℕ → String → ℕ → M (List Counted × ℕ)
list_all page page_size level now = Lists.list page page_size level false now

unfoldable pub list_for_user : ℕ → String → ℕ → ℕ → M (List Received)
list_for_user user platform code now = Lists.list_for_user user platform code now

unfoldable pub mark_read : ℕ → ℕ → ℕ → M (Unit {0})
mark_read id user now = do
  available ← Receipts.available_for_user id user now
  reject (not available) announcement_not_found
  Receipts.mark_read id user now

unfoldable pub acknowledge : ℕ → ℕ → ℕ → M (Unit {0})
acknowledge id user now = do
  available ← Receipts.available_for_user id user now
  reject (not available) announcement_not_found
  Receipts.acknowledge id user now
