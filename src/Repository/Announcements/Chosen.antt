-- ===== src/Repository/Announcements/Chosen.antt =====
-- What the list of a user in internal/repository/announcement.go is to hold, and in which order.
use jd_shop_server.Common.{
  ℕ, ◌≤◌, ◌≡◌, refl, ◌∙◌, Bool, true, false, not, ◌&&◌, ◌||◌, ◌⊎◌, inl, inr, Option, none, some,
  List, [], ◌∷◌, ◌==◌, ltb, leb, str_eq, if◌then◌else◌, find, is_some, arith, Bool-cases,
  Option-cases, eq_iff, sym, subst, String, All, map,
}
use jd_shop_server.Time.{Timestamp, format_rfc3339, text_lt}
use jd_shop_server.Model.Announcements.{Announcement, Received, Receipt, TimeText}
use jd_shop_server.Db.{Db, Link}
use jd_shop_server.Repository.Announcements.{is_target}
use jd_shop_server.Repository.Announcements.Receipts.{is_available, has_started, has_not_ended}
use jd_shop_server.Repository.Announcements.Lists.{
  is_for, at_least, at_most, level_rank, published_later, precedes, received,
}
use jd_shop_server.Repository.Announcements.Order.{IsSorted}

-- The start is not given, or not behind `now` as a text.
unfoldable pub begun : Option TimeText → Timestamp → Bool
begun none now = true
begun (some TimeText.empty) now = true
begun (some (TimeText.instant t)) now = not (text_lt now t)
begun (some (TimeText.spaced t below)) now = below now
begun (some (TimeText.other below)) now = below now

-- The end is not given, or behind `now` as a text.
unfoldable pub lasting : Option TimeText → Timestamp → Bool
lasting none now = true
lasting (some TimeText.empty) now = true
lasting (some (TimeText.instant t)) now = text_lt now t
lasting (some (TimeText.spaced t below)) now = not (below now)
lasting (some (TimeText.other below)) now = not (below now)

-- A link from the announcement to the user.
unfoldable pub is_named : ℕ → ℕ → List Link → Bool
is_named id user [] = false
is_named id user (l ∷ links) = (l.left == id && l.right == user) || is_named id user links

unfoldable pub is_between : Option ℕ → Option ℕ → ℕ → Bool
is_between none none code = true
is_between (some least) none code = leb least code
is_between none (some most) code = leb code most
is_between (some least) (some most) code = leb least code && leb code most

-- An announcement that the user is to see: published, begun and not over, for all or for this user,
-- for all platforms or this one, and for this version.
unfoldable pub is_meant : ℕ → String → ℕ → ℕ → Db → Announcement → Bool
is_meant user platform code now db a =
    a.is_published == 1
    && begun a.starts_at (format_rfc3339 now)
    && lasting a.ends_at (format_rfc3339 now)
    && (str_eq a.target_type "all" || is_named a.id user db.announcement_targets)
    && (str_eq a.target_platform "all" || str_eq a.target_platform platform)
    && is_between a.min_version_code a.max_version_code code

has_started-begun : (t : Option TimeText) (now : Timestamp) → has_started t now ≡ begun t now
unfolding begun
has_started-begun none now = refl
has_started-begun (some TimeText.empty) now = refl
has_started-begun (some (TimeText.instant t)) now = refl
has_started-begun (some (TimeText.spaced t below)) now = refl
has_started-begun (some (TimeText.other below)) now = refl

not-not : (b : Bool) → not (not b) ≡ b
not-not true = refl
not-not false = refl

has_not_ended-lasting :
    (t : Option TimeText) (now : Timestamp) → has_not_ended t now ≡ lasting t now
unfolding lasting
has_not_ended-lasting none now = refl
has_not_ended-lasting (some TimeText.empty) now = refl
has_not_ended-lasting (some (TimeText.instant t)) now = not-not (text_lt now t)
has_not_ended-lasting (some (TimeText.spaced t below)) now = refl
has_not_ended-lasting (some (TimeText.other below)) now = refl

find-is_named :
    (id user : ℕ) (links : List Link)
    → is_some (find (is_target id user) links) ≡ is_named id user links
unfolding find is_named
find-is_named id user [] = refl
find-is_named id user (l ∷ links) = ground (arith, find-is_named id user links)

bounds-is_between :
    (least most : Option ℕ) (code : ℕ)
    → (at_least least code && at_most most code) ≡ is_between least most code
unfolding is_between
bounds-is_between none none code = refl
bounds-is_between none (some m) code = refl
bounds-is_between (some l) none code = ground arith
bounds-is_between (some l) (some m) code = refl

last_two : (p l m : Bool) {b : Bool} → (l && m) ≡ b → (p && l && m) ≡ (p && b)
last_two true l m h = h
last_two false l m h = refl

pub is_for-is_meant :
    (user : ℕ) (platform : String) (code now : ℕ) (db : Db) (a : Announcement)
    → is_for user platform code now db a ≡ is_meant user platform code now db a
unfolding is_for is_available is_meant
is_for-is_meant user platform code now db a =
    rw
      (
        has_started-begun a.starts_at (format_rfc3339 now),
        has_not_ended-lasting a.ends_at (format_rfc3339 now),
        find-is_named a.id user db.announcement_targets,
      )
      (last_two _ _ _ (bounds-is_between a.min_version_code a.max_version_code code))

-- Critical stands above all else, and a warning above what is neither.
abbrev pub IsAbove : String → String → Type 0
IsAbove x y =
    ((str_eq x "critical" ≡ true) × (str_eq y "critical" ≡ false))
    ⊎ ((str_eq x "warning" ≡ true) × (str_eq y "critical" ≡ false) × (str_eq y "warning" ≡ false))

abbrev pub IsBeside : String → String → Type 0
IsBeside x y =
    (str_eq x "critical" ≡ str_eq y "critical") × (str_eq x "warning" ≡ str_eq y "warning")

-- Published later, as the texts say; what has no time is behind what has one.
abbrev pub IsLater : Option Timestamp → Option Timestamp → Type 0
IsLater none t = ⊥
IsLater (some s) none = Unit {0}
IsLater (some s) (some t) = text_lt t s ≡ true

abbrev pub IsTogether : Option Timestamp → Option Timestamp → Type 0
IsTogether none none = Unit {0}
IsTogether none (some t) = ⊥
IsTogether (some s) none = ⊥
IsTogether (some s) (some t) = (text_lt s t ≡ false) × (text_lt t s ≡ false)

-- The first announcement may stand before the second: it is above it, or beside it and published
-- later, or published at the same time with an id that is no smaller.
abbrev pub IsBefore : Announcement → Announcement → Type 0
IsBefore a b =
    IsAbove a.level b.level
    ⊎ (IsBeside a.level b.level
        × (IsLater a.published_at b.published_at
            ⊎ (IsTogether a.published_at b.published_at × (b.id ≤ a.id))))

abbrev pub IsOrdered : List Announcement → Type 0
IsOrdered [] = Unit {0}
IsOrdered (a ∷ []) = Unit {0}
IsOrdered (a ∷ b ∷ rows) = IsBefore a b × IsOrdered (b ∷ rows)

by_bools :
    (c w d v : Bool)
    → (c ≡ true → w ≡ false)
    → (d ≡ true → v ≡ false)
    → ltb (if d then 0 else if v then 1 else 2) (if c then 0 else if w then 1 else 2) ≡ false
    → (((c ≡ true) × (d ≡ false)) ⊎ ((w ≡ true) × (d ≡ false) × (v ≡ false)))
      ⊎ (((c ≡ d) × (w ≡ v))
          × (((if d then 0 else if v then 1 else 2) == (if c then 0 else if w then 1 else 2))
              ≡ true))
by_bools true w true v only only' h = inr ((refl, only refl ∙ sym (only' refl)), refl)
by_bools true w false v only only' h = inl (inl (refl, refl))
by_bools false true true v only only' h = ground arith
by_bools false false true v only only' h = ground arith
by_bools false true false true only only' h = inr ((refl, refl), refl)
by_bools false true false false only only' h = inl (inr (refl, refl, refl))
by_bools false false false true only only' h = ground arith
by_bools false false false false only only' h = inr ((refl, refl), refl)

critical_only : (x : String) → str_eq x "critical" ≡ true → str_eq x "warning" ≡ false
critical_only x h =
    let same : x ≡ "critical" = (eq_iff x "critical").0 h in
    subst (λ s. str_eq s "warning" ≡ false) (sym same) refl

levels :
    (x y : String)
    → ltb (level_rank y) (level_rank x) ≡ false
    → IsAbove x y ⊎ (IsBeside x y × ((level_rank y == level_rank x) ≡ true))
levels x y h =
    by_bools (str_eq x "critical") (str_eq x "warning") (str_eq y "critical") (str_eq y "warning")
      (critical_only x) (critical_only y) h

times :
    (s t : Option Timestamp)
    → published_later t s ≡ false
    → IsLater s t ⊎ (IsTogether s t × (published_later s t ≡ false))
times none none h = inr (tt, refl)
times none (some t) h = cc
times (some s) none h = inl tt
times (some s) (some t) h = elim (Bool-cases (text_lt t s)) [
  | inl later ↦ inl later
  | inr not_later ↦ inr ((h, not_later), not_later)
]

lexicographic :
    (l e p q i : Bool)
    → (l || (e && (p || (not q && i)))) ≡ false
    → (l ≡ false) × (e ≡ true → (p ≡ false) × (q ≡ false → i ≡ false))
lexicographic true e p q i h = ground arith
lexicographic false false p q i h = (refl, λ e. ground arith)
lexicographic false true true q i h = ground arith
lexicographic false true false true i h = (refl, λ _. (refl, λ e. ground arith))
lexicographic false true false false i h = (refl, λ _. (refl, λ _. h))

precedes-IsBefore : (a b : Announcement) → precedes b a ≡ false → IsBefore a b
unfolding precedes
precedes-IsBefore a b h =
    let (level, rest) = lexicographic _ _ _ _ _ h in
    elim (levels a.level b.level level) [
      | inl above ↦ inl above
      | inr (beside, same) ↦
          let (time, ids) = rest same in
          elim (times a.published_at b.published_at time) [
            | inl later ↦ inr (beside, inl later)
            | inr (together, not_later) ↦
                let id = ids not_later in
                let le : b.id ≤ a.id = ground arith in inr (beside, inr (together, le))
          ]
    ]

pub IsSorted-IsOrdered : (rows : List Announcement) → IsSorted rows → IsOrdered rows
IsSorted-IsOrdered [] s = tt
IsSorted-IsOrdered (a ∷ []) s = tt
IsSorted-IsOrdered (a ∷ b ∷ rows) (first, s) =
    (precedes-IsBefore a b first, IsSorted-IsOrdered (b ∷ rows) s)

-- The receipt of the user for the revision of the announcement.
abbrev pub receipt_of : ℕ → Announcement → List Receipt → Option Receipt
receipt_of user a receipts =
    find
      (λ (r : Receipt). r.announcement_id == a.id && r.user_id == user && r.revision == a.revision)
      receipts

-- What the item says is what the receipt says, or that nothing was received.
unfoldable pub Reports : Option Receipt → Received → Type 0
Reports none item =
    (item.is_read ≡ false)
    × (item.is_acknowledged ≡ false)
    × (item.delivered_at ≡ none)
    × (item.read_at ≡ none)
    × (item.acknowledged_at ≡ none)
Reports (some r) item =
    (item.is_read ≡ is_some r.read_at)
    × (item.is_acknowledged ≡ is_some r.acknowledged_at)
    × (item.delivered_at ≡ r.delivered_at)
    × (item.read_at ≡ r.read_at)
    × (item.acknowledged_at ≡ r.acknowledged_at)

received-Reports :
    (user : ℕ) (a : Announcement) (receipts : List Receipt)
    → Reports (receipt_of user a receipts) (received user receipts a)
unfolding Reports
received-Reports user a receipts = elim (Option-cases (receipt_of user a receipts)) [
  | inl nothing ↦ rw nothing (refl, refl, refl, refl, refl)
  | inr (r, found) ↦ rw found (refl, refl, refl, refl, refl)
]

pub map-Reports :
    (user : ℕ) (receipts : List Receipt) (rows : List Announcement)
    → All
        (λ (item : Received). Reports (receipt_of user item.announcement receipts) item)
        (map (received user receipts) rows)
map-Reports user receipts [] = tt
map-Reports user receipts (a ∷ rows) =
    (received-Reports user a receipts, map-Reports user receipts rows)
