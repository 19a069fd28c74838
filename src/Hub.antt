-- ===== src/Hub.antt =====
-- internal/service/control.go: the hub that distributes control events to the clients of a user,
-- each behind a channel that holds one event.
pub mod Laws
pub mod Refinement
use jd_shop_server.Common.{
  ℕ, suc, ◌+◌, ◌%◌, ◌^◌, Bool, true, false, Option, none, some, List, [], ◌∷◌, if◌then◌else◌,
  lookup, insert, remove, nat_eq, is_empty, ◌==◌,
}
use jd_shop_server.Time.{Timestamp, format_rfc3339}

-- The texts of `ControlEvent.Type`.
pub data EventType : Type 0 where
  access_changed account_status_changed announcement_changed announcement_published : EventType

pub record ControlEvent : Type 0 where
  pub type : EventType
  pub issued_at : Option Timestamp  -- none for ""
  pub announcement_id : ℕ
  pub revision : ℕ

-- A channel of capacity one.
abbrev pub Channel : Type 0
Channel = Option ControlEvent

pub record ControlHub : Type 0 where
  pub next_id : ℕ  -- uint64
  pub subscribers : List (ℕ × List (ℕ × Channel))

unfoldable pub new_control_hub : ControlHub
new_control_hub = record { next_id = 0; subscribers = [] }

abbrev pub or_empty : Option (List (ℕ × Channel)) → List (ℕ × Channel)
or_empty none = []
or_empty (some channels) = channels

-- The channels of a user.
unfoldable pub channels_of : ControlHub → ℕ → List (ℕ × Channel)
channels_of h user = or_empty (lookup user h.subscribers)

abbrev pub u64 : ℕ → ℕ
u64 n = n % 2 ^ 64

-- The new hub and the id of the subscriber.
unfoldable pub subscribe : ControlHub → ℕ → ControlHub × ℕ
subscribe h user =
    let id = u64 (h.next_id + 1) in
    (
      record {
        next_id = id;
        subscribers = insert user (insert id none (channels_of h user)) h.subscribers;
      },
      id,
    )

-- `delete(h.subscribers[userID], id)`, and the entry of the user with its last channel.
unfoldable pub unsubscribe : ControlHub → ℕ → ℕ → ControlHub
unsubscribe h user id =
    let channels = remove id (channels_of h user) in
    record h {
      subscribers =
          if is_empty channels
          then remove user h.subscribers
          else insert user channels h.subscribers;
    }

abbrev pub stamped : ControlEvent → ℕ → ControlEvent
stamped event now = record event { issued_at = issued event.issued_at }
  where
    issued : Option Timestamp → Option Timestamp
    issued none = some (format_rfc3339 now)
    issued (some t) = some t

-- `select { case channel <- event: default: }`: a full channel keeps what it has.
abbrev pub offer : ControlEvent → Channel → Channel
offer event none = some event
offer event (some pending) = some pending

unfoldable pub offer_all : ControlEvent → List (ℕ × Channel) → List (ℕ × Channel)
offer_all event [] = []
offer_all event ((id, channel) ∷ channels) = (id, offer event channel) ∷ offer_all event channels

unfoldable pub offer_to :
    ℕ → ControlEvent → List (ℕ × List (ℕ × Channel)) → List (ℕ × List (ℕ × Channel))
offer_to user event [] = []
offer_to user event ((u, channels) ∷ rest) =
    if u == user
    then (u, offer_all event channels) ∷ rest
    else (u, channels) ∷ offer_to user event rest

unfoldable pub publish_event : ControlHub → ℕ → ControlEvent → ℕ → ControlHub
publish_event h user event now = record h {
  subscribers = offer_to user (stamped event now) h.subscribers;
}

unfoldable pub publish : ControlHub → ℕ → EventType → ℕ → ControlHub
unfolding publish_event
publish h user type now =
    publish_event h user
      (record {
        type = type;
        issued_at = some (format_rfc3339 now);
        announcement_id = 0;
        revision = 0;
      })
      now

unfoldable pub offer_everywhere :
    ControlEvent → List (ℕ × List (ℕ × Channel)) → List (ℕ × List (ℕ × Channel))
offer_everywhere event [] = []
offer_everywhere event ((u, channels) ∷ rest) =
    (u, offer_all event channels) ∷ offer_everywhere event rest

unfoldable pub broadcast : ControlHub → ControlEvent → ℕ → ControlHub
broadcast h event now = record h {
  subscribers = offer_everywhere (stamped event now) h.subscribers;
}

-- A client takes what its channel holds.
unfoldable pub receive : ControlHub → ℕ → ℕ → ControlHub
receive h user id = record h {
  subscribers = insert user (insert id none (channels_of h user)) h.subscribers;
}
