-- ===== src/Service/Announcements/Told.antt =====
-- Whom internal/service/announcement.go tells of a publication.
use jd_shop_server.Common.{
  ℕ, ◌≡◌, refl, Bool, false, not, ◌||◌, Option, none, some, List, [], ◌∷◌, ◌==◌, str_eq,
  if◌then◌else◌, Bool-cases, inl, inr, arith,
}
use jd_shop_server.Common.Int.{ℤ, pos, negsuc}
use jd_shop_server.Hub.{ControlHub, ControlEvent, EventType, Channel, stamped, publish_event}
use jd_shop_server.Hub.Laws.{channel, offered, channel-publish_event, channel-broadcast}
use jd_shop_server.Model.Announcements.{Announcement}
use jd_shop_server.Service.Announcements.{event_of, publish_each, told}

-- A second event finds the channel full.
offered_twice :
    (event : ControlEvent) (c : Option Channel) → offered event (offered event c) ≡ offered event c
offered_twice event none = refl
offered_twice event (some none) = refl
offered_twice event (some (some pending)) = refl

-- Whether the ids name a user.
unfoldable pub mentions : ℕ → List ℤ → Bool
mentions u [] = false
mentions u (negsuc n ∷ users) = mentions u users
mentions u (pos n ∷ users) = n == u || mentions u users

channel-publish_each :
    (users : List ℤ) (event : ControlEvent) (now : ℕ) (hub : ControlHub) (u id : ℕ)
    → channel (publish_each users event now hub) u id ≡ (
        if mentions u users
        then offered (stamped event now) (channel hub u id)
        else channel hub u id)
unfolding publish_each mentions
channel-publish_each [] event now hub u id = refl
channel-publish_each (negsuc n ∷ users) event now hub u id =
    channel-publish_each users event now hub u id
channel-publish_each (pos n ∷ users) event now hub u id = ground (
  arith,
  channel-publish_each users event now (publish_event hub n event now) u id,
  channel-publish_event hub n u id event now,
  offered_twice (stamped event now) (channel hub u id),
)

-- The event of a publication fills the empty channels of the users that the announcement names, if
-- it is for single users, and those of all users otherwise, and changes no other channel.
pub told_lem :
    (a : Announcement) (type : EventType) (now : ℕ) (hub : ControlHub) (u id : ℕ)
    → channel (told a type now hub) u id ≡ (
        if not (str_eq a.target_type "users") || mentions u a.target_user_ids
        then offered (stamped (event_of type a.id a.revision) now) (channel hub u id)
        else channel hub u id)
unfolding told
told_lem a type now hub u id = elim (Bool-cases (str_eq a.target_type "users")) [
  | inl for_users ↦
      rw for_users
        (channel-publish_each a.target_user_ids (event_of type a.id a.revision) now hub u id)
  | inr for_all ↦ rw for_all (channel-broadcast hub u id (event_of type a.id a.revision) now)
]
