-- ===== src/Hub/Laws.antt =====
-- What each operation of the hub does to each channel (internal/service/control.go).
use jd_shop_server.Common.{
  ℕ, ◌≡◌, refl, Option, none, some, List, [], ◌∷◌, arith, if◌then◌else◌, ◌==◌, lookup, nat_eq,
  is_empty, ◌<◌, ◌&&◌, true, lookup-insert, remove, lookup-remove, ◌+◌, insert, ◌^◌,
}
use jd_shop_server.Hub.{
  Channel, ControlEvent, ControlHub, or_empty, channels_of, stamped, offer, offer_all, offer_to,
  publish_event, offer_everywhere, broadcast, subscribe, unsubscribe, new_control_hub, u64, receive,
}

-- The channel of a subscriber, if the hub has it.
unfoldable pub channel : ControlHub → ℕ → ℕ → Option Channel
channel h user id = lookup id (channels_of h user)

abbrev pub offered : ControlEvent → Option Channel → Option Channel
offered event none = none
offered event (some none) = some (some event)
offered event (some (some pending)) = some (some pending)

offered-offer : (event : ControlEvent) (c : Channel) → some (offer event c) ≡ offered event (some c)
offered-offer event none = refl
offered-offer event (some pending) = refl

lookup-offer_all :
    (event : ControlEvent) (id : ℕ) (channels : List (ℕ × Channel))
    → lookup id (offer_all event channels) ≡ offered event (lookup id channels)
unfolding lookup offer_all
lookup-offer_all event id [] = refl
lookup-offer_all event id ((i, c) ∷ channels) =
    ground (arith, lookup-offer_all event id channels, offered-offer event c)

lookup-offer_to :
    (user u id : ℕ) (event : ControlEvent) (subs : List (ℕ × List (ℕ × Channel)))
    → lookup id (or_empty (lookup u (offer_to user event subs))) ≡ (
        if user == u
        then offered event (lookup id (or_empty (lookup u subs)))
        else lookup id (or_empty (lookup u subs)))
unfolding lookup offer_to
lookup-offer_to user u id event [] = ground arith
lookup-offer_to user u id event ((v, channels) ∷ subs) =
    ground (arith, lookup-offer_to user u id event subs, lookup-offer_all event id channels)

-- An event for a user reaches each of its clients whose channel is empty; every other channel,
-- a full one of the user and all those of other users, stays as it is.
pub channel-publish_event :
    (h : ControlHub) (user u id : ℕ) (event : ControlEvent) (now : ℕ)
    → channel (publish_event h user event now) u id
      ≡ (if user == u then offered (stamped event now) (channel h u id) else channel h u id)
unfolding channel channels_of publish_event
channel-publish_event h user u id event now =
    lookup-offer_to user u id (stamped event now) h.subscribers

lookup-offer_everywhere :
    (u id : ℕ) (event : ControlEvent) (subs : List (ℕ × List (ℕ × Channel)))
    → lookup id (or_empty (lookup u (offer_everywhere event subs)))
      ≡ offered event (lookup id (or_empty (lookup u subs)))
unfolding lookup offer_everywhere
lookup-offer_everywhere u id event [] = refl
lookup-offer_everywhere u id event ((v, channels) ∷ subs) =
    ground (arith, lookup-offer_everywhere u id event subs, lookup-offer_all event id channels)

-- A broadcast reaches every client whose channel is empty, and changes no other channel.
pub channel-broadcast :
    (h : ControlHub) (u id : ℕ) (event : ControlEvent) (now : ℕ)
    → channel (broadcast h event now) u id ≡ offered (stamped event now) (channel h u id)
unfolding channel channels_of broadcast
channel-broadcast h u id event now = lookup-offer_everywhere u id (stamped event now) h.subscribers

-- A subscription opens one empty channel, and leaves all others as they are.
pub channel-subscribe :
    (h : ControlHub) (user u id : ℕ)
    → channel (subscribe h user).0 u id
      ≡ (if user == u && (subscribe h user).1 == id then some none else channel h u id)
unfolding channel channels_of subscribe
channel-subscribe h user u id =
    let new = u64 (h.next_id + 1) in
    ground (
      arith,
      lookup-insert u user (insert new none (or_empty (lookup user h.subscribers))) h.subscribers,
      lookup-insert id new none (or_empty (lookup user h.subscribers)),
    )

lookup_of_is_empty :
    (id : ℕ) (channels : List (ℕ × Channel)) → is_empty channels ≡ true → lookup id channels ≡ none
unfolding lookup
lookup_of_is_empty id [] h = refl
lookup_of_is_empty id (c ∷ channels) h = cc

-- The end of a subscription closes its channel, and leaves all others as they are.
pub channel-unsubscribe :
    (h : ControlHub) (user u id i : ℕ)
    → channel (unsubscribe h user id) u i ≡ (if user == u && id == i then none else channel h u i)
unfolding channel channels_of unsubscribe
channel-unsubscribe h user u id i =
    let old = or_empty (lookup user h.subscribers) in
    ground (
      arith,
      lookup-insert u user (remove id old) h.subscribers,
      lookup-remove u user h.subscribers,
      lookup-remove i id old,
      lookup_of_is_empty i (remove id old),
    )

-- A client that takes its event empties its own channel.
pub channel-receive :
    (h : ControlHub) (user u id i : ℕ)
    → channel (receive h user id) u i ≡ (if user == u && id == i then some none else channel h u i)
unfolding channel channels_of receive
channel-receive h user u id i = ground (
  arith,
  lookup-insert u user (insert id none (or_empty (lookup user h.subscribers))) h.subscribers,
  lookup-insert i id none (or_empty (lookup user h.subscribers)),
)

-- No channel has an id above the last one that was given out.
abbrev pub IsBelow : ControlHub → Type 0
IsBelow h = (u id : ℕ) → h.next_id < id → channel h u id ≡ none

-- The operations of the hub, other than the subscription.
pub data Change (h : ControlHub) : ControlHub → Type 0 where
  unsubscribes : (user id : ℕ) → Change h (unsubscribe h user id)
  publishes :
      (user : ℕ) (event : ControlEvent) (now : ℕ) → Change h (publish_event h user event now)
  broadcasts : (event : ControlEvent) (now : ℕ) → Change h (broadcast h event now)
  receives : (user id : ℕ) {c : Channel} → channel h user id ≡ some c → Change h (receive h user id)

Change-IsBelow : {h h' : ControlHub} → Change h h' → IsBelow h → IsBelow h'
unfolding unsubscribe publish_event broadcast receive
Change-IsBelow {h} (unsubscribes user id) b u i lt =
    ground (arith, channel-unsubscribe h user u id i, b u i lt)
Change-IsBelow {h} (publishes user event now) b u i lt =
    ground (arith, channel-publish_event h user u i event now, b u i lt)
Change-IsBelow {h} (broadcasts event now) b u i lt =
    ground (arith, channel-broadcast h u i event now, b u i lt)
Change-IsBelow {h} (receives user id open_now) b u i lt =
    ground (arith, channel-receive h user u id i, b u i lt)

pub data Reach : ControlHub → Type 0 where
  start : Reach new_control_hub
  subscribes :
      {h : ControlHub} (user : ℕ) → h.next_id + 1 < 2 ^ 64 → Reach h → Reach (subscribe h user).0
  changes : {h h' : ControlHub} → Change h h' → Reach h → Reach h'

subscribe-IsBelow :
    (h : ControlHub) (user : ℕ) → h.next_id + 1 < 2 ^ 64 → IsBelow h → IsBelow (subscribe h user).0
unfolding subscribe
subscribe-IsBelow h user fits b u i lt =
    let id : u64 (h.next_id + 1) ≡ h.next_id + 1 = omega arith in
    ground (arith, channel-subscribe h user u i, b u i (omega arith))

Reach-IsBelow : {h : ControlHub} → Reach h → IsBelow h
unfolding new_control_hub channel channels_of lookup
Reach-IsBelow start u i lt = refl
Reach-IsBelow (subscribes {h} user fits r) u i lt =
    subscribe-IsBelow h user fits (Reach-IsBelow r) u i lt
Reach-IsBelow (changes c r) u i lt = Change-IsBelow c (Reach-IsBelow r) u i lt

-- In every reachable hub, up to 2 ^ 64 - 1 subscriptions, a subscription gets an id that no client
-- of any user has.
pub subscribe_fresh :
    (h : ControlHub) (user : ℕ)
    → Reach h
    → h.next_id + 1 < 2 ^ 64
    → (u : ℕ) → channel h u (subscribe h user).1 ≡ none
unfolding subscribe
subscribe_fresh h user r fits u = Reach-IsBelow r u (u64 (h.next_id + 1)) (omega arith)
