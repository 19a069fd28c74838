-- ===== src/Hub/Refinement.antt =====
-- The hub of internal/service/control.go against what it promises: a table of channels, one for each
-- client of each user.
use jd_shop_server.Common.{
  ℕ, ◌+◌, ◌≡◌, refl, ap, ◌∙◌, Bool, true, false, ◌&&◌, Option, none, some, List, [], ◌∷◌, ◌==◌,
  if◌then◌else◌, subst, is_some, Bool-cases, inl, inr, arith,
}
use jd_shop_server.Hub.{
  Channel, ControlEvent, ControlHub, subscribe, unsubscribe, publish_event, broadcast, receive,
  stamped, u64,
}
use jd_shop_server.Hub.Laws.{
  channel, offered, channel-publish_event, channel-broadcast, channel-subscribe,
  channel-unsubscribe, channel-receive,
}

-- What can be asked of a hub; a client takes from its own channel.
pub data HubOperation : Type 0 where
  subscribes : ℕ → HubOperation
  unsubscribes receives : ℕ → ℕ → HubOperation
  publishes : ℕ → ControlEvent → ℕ → HubOperation
  broadcasts : ControlEvent → ℕ → HubOperation

unfoldable pub operate : HubOperation → ControlHub → ControlHub
operate (subscribes user) h = (subscribe h user).0
operate (unsubscribes user id) h = unsubscribe h user id
operate (receives user id) h = if is_some (channel h user id) then receive h user id else h
operate (publishes user event now) h = publish_event h user event now
operate (broadcasts event now) h = broadcast h event now

unfoldable pub operate_all : List HubOperation → ControlHub → ControlHub
operate_all [] h = h
operate_all (op ∷ ops) h = operate_all ops (operate op h)

-- The promise: the number of the last client, and the channel of each.
pub record Table : Type 0 where
  pub last : ℕ
  pub at : ℕ → ℕ → Option Channel

abbrev pub opened : ℕ → ℕ → Table → ℕ → ℕ → Option Channel
opened user id t u i = if user == u && id == i then some none else t.at u i

abbrev pub emptied : Option Channel → Option Channel
emptied none = none
emptied (some c) = some none

unfoldable pub promised : HubOperation → Table → Table
promised (subscribes user) t =
    let id = u64 (t.last + 1) in record { last = id; at = opened user id t }
promised (unsubscribes user id) t = record t {
  at = λ u i. if user == u && id == i then none else t.at u i;
}
promised (receives user id) t = record t {
  at = λ u i. if user == u && id == i then emptied (t.at u i) else t.at u i;
}
promised (publishes user event now) t = record t {
  at = λ u i. if user == u then offered (stamped event now) (t.at u i) else t.at u i;
}
promised (broadcasts event now) t = record t { at = λ u i. offered (stamped event now) (t.at u i) }

unfoldable pub promised_all : List HubOperation → Table → Table
promised_all [] t = t
promised_all (op ∷ ops) t = promised_all ops (promised op t)

-- What a hub stands for.
unfoldable pub table_of : ControlHub → Table
table_of h = record { last = h.next_id; at = channel h }

table_at :
    (h : ControlHub) (last : ℕ) (f : ℕ → ℕ → Option Channel)
    → h.next_id ≡ last
    → ((u i : ℕ) → channel h u i ≡ f u i)
    → table_of h ≡ record { last = last; at = f }
unfolding table_of
table_at h last f same each = λ k. record { last = same k; at = λ u i. each u i k }

-- The channel that is taken from, in the two cases.
taken :
    (own : Bool) (c : Option Channel)
    → (own ≡ true → is_some c ≡ true)
    → (if own then some none else c) ≡ (if own then emptied c else c)
taken false c there = refl
taken true none there = let absurd_case = there refl in cc
taken true (some c) there = refl

untaken :
    (own : Bool) (c : Option Channel)
    → (own ≡ true → is_some c ≡ false)
    → c ≡ (if own then emptied c else c)
untaken false c gone = refl
untaken true none gone = refl
untaken true (some c) gone = let absurd_case = gone refl in cc

own_channel :
    (h : ControlHub) (user id u i : ℕ) (b : Bool)
    → is_some (channel h user id) ≡ b
    → (user == u && id == i) ≡ true
    → is_some (channel h u i) ≡ b
own_channel h user id u i b there own =
    let same_user : user ≡ u = ground arith in
    let same_id : id ≡ i = ground arith in
    subst (λ k. is_some (channel h u k) ≡ b) same_id
      (subst (λ v. is_some (channel h v id) ≡ b) same_user there)

channel-receives :
    (h : ControlHub) (user id u i : ℕ)
    → channel (if is_some (channel h user id) then receive h user id else h) u i
      ≡ (if user == u && id == i then emptied (channel h u i) else channel h u i)
channel-receives h user id u i = elim (Bool-cases (is_some (channel h user id))) [
  | inl there ↦ rw there (
      channel-receive h user u id i
      ∙ taken (user == u && id == i) (channel h u i) (own_channel h user id u i true there))
  | inr gone ↦
      rw gone
        (untaken (user == u && id == i) (channel h u i) (own_channel h user id u i false gone))
]

next-receive :
    (h : ControlHub) (user id : ℕ)
    → (if is_some (channel h user id) then receive h user id else h).next_id ≡ h.next_id
unfolding receive
next-receive h user id = elim (Bool-cases (is_some (channel h user id))) [
  | inl there ↦ rw there refl
  | inr gone ↦ rw gone refl
]

table_of-operate :
    (op : HubOperation) (h : ControlHub) → table_of (operate op h) ≡ promised op (table_of h)
unfolding operate promised table_of subscribe unsubscribe publish_event broadcast receive
table_of-operate (subscribes user) h =
    table_at (subscribe h user).0 _ _ refl (λ u i. channel-subscribe h user u i)
table_of-operate (unsubscribes user id) h =
    table_at (unsubscribe h user id) _ _ refl (λ u i. channel-unsubscribe h user u id i)
table_of-operate (receives user id) h =
    table_at (if is_some (channel h user id) then receive h user id else h) _ _
      (next-receive h user id) (λ u i. channel-receives h user id u i)
table_of-operate (publishes user event now) h =
    table_at (publish_event h user event now) _ _ refl
      (λ u i. channel-publish_event h user u i event now)
table_of-operate (broadcasts event now) h =
    table_at (broadcast h event now) _ _ refl (λ u i. channel-broadcast h u i event now)

-- Any sequence of operations on the hub does to each channel what the table promises, from any
-- hub on.
pub table_of-operate_all :
    (ops : List HubOperation) (h : ControlHub)
    → table_of (operate_all ops h) ≡ promised_all ops (table_of h)
unfolding operate_all promised_all
table_of-operate_all [] h = refl
table_of-operate_all (op ∷ ops) h =
    table_of-operate_all ops (operate op h) ∙ ap (promised_all ops) (table_of-operate op h)
