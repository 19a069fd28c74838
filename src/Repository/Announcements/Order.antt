-- ===== src/Repository/Announcements/Order.antt =====
-- The order in which internal/repository/announcement.go lists the announcements of a user.
use jd_shop_server.Common.{
  ℕ, ◌≡◌, refl, ◌∙◌, Bool, true, false, not, ◌&&◌, ◌||◌, Option, none, some, List, [], ◌∷◌, ◌==◌,
  ltb, if◌then◌else◌, select, count_where, arith, Bool-cases, inl, inr,
}
use jd_shop_server.Time.{Timestamp, text_lt}
use jd_shop_server.Model.Announcements.{Announcement}
use jd_shop_server.Repository.Announcements.Lists.{
  level_rank, published_later, precedes, insert_sorted, sorted,
}

text_lt_asymm : (a b : Timestamp) → text_lt a b ≡ true → text_lt b a ≡ false
unfolding text_lt
text_lt_asymm a b h = ground arith

published_later_asymm :
    (a b : Option Timestamp) → published_later a b ≡ true → published_later b a ≡ false
published_later_asymm none b h = cc
published_later_asymm (some a) none h = refl
published_later_asymm (some a) (some b) h = text_lt_asymm b a h

lexicographic_asymm :
    (r s : ℕ) (x y : Bool) (i j : ℕ)
    → (x ≡ true → y ≡ false)
    → (ltb r s || (r == s && (x || (not y && ltb i j)))) ≡ true
    → (ltb s r || (s == r && (y || (not x && ltb j i)))) ≡ false
lexicographic_asymm r s x y i j later h = ground arith

pub precedes_asymm : (a b : Announcement) → precedes a b ≡ true → precedes b a ≡ false
unfolding precedes
precedes_asymm a b h =
    lexicographic_asymm (level_rank a.level) (level_rank b.level)
      (published_later a.published_at b.published_at)
      (published_later b.published_at a.published_at) b.id a.id
      (published_later_asymm a.published_at b.published_at) h

-- No row stands behind one that it precedes.
abbrev pub IsSorted : List Announcement → Type 0
IsSorted [] = Unit {0}
IsSorted (a ∷ []) = Unit {0}
IsSorted (a ∷ b ∷ rows) = (precedes b a ≡ false) × IsSorted (b ∷ rows)

insert_sorted-IsSorted :
    (a : Announcement) (rows : List Announcement) → IsSorted rows → IsSorted (insert_sorted a rows)
unfolding insert_sorted
insert_sorted-IsSorted a [] s = tt
insert_sorted-IsSorted a (b ∷ []) s = elim (Bool-cases (precedes b a)) [
  | inl before ↦ rw before (precedes_asymm b a before, tt)
  | inr after ↦ rw after (after, tt)
]
insert_sorted-IsSorted a (b ∷ c ∷ rows) (first, s) = elim (Bool-cases (precedes b a)) [
  | inl before ↦
      rw before (behind (precedes_asymm b a before) (insert_sorted-IsSorted a (c ∷ rows) s))
  | inr after ↦ rw after (after, (first, s))
]
  where
    behind :
        precedes a b ≡ false
        → IsSorted (if precedes c a then c ∷ insert_sorted a rows else a ∷ c ∷ rows)
        → IsSorted (b ∷ (if precedes c a then c ∷ insert_sorted a rows else a ∷ c ∷ rows))
    behind last rest = elim (Bool-cases (precedes c a)) [
      | inl hit ↦ rw hit (first, rw hit at rest)
      | inr miss ↦ rw miss (last, rw miss at rest)
    ]

pub sorted-IsSorted : (rows : List Announcement) → IsSorted (sorted rows)
unfolding sorted
sorted-IsSorted [] = tt
sorted-IsSorted (a ∷ rows) = insert_sorted-IsSorted a (sorted rows) (sorted-IsSorted rows)

module _ (q : Announcement → Bool) where
  count_where-insert_sorted :
      (a : Announcement) (rows : List Announcement)
      → count_where q (insert_sorted a rows) ≡ count_where q (a ∷ rows)
  unfolding insert_sorted count_where
  count_where-insert_sorted a [] = refl
  count_where-insert_sorted a (b ∷ rows) = ground (arith, count_where-insert_sorted a rows)

  pub count_where-sorted :
      (rows : List Announcement) → count_where q (sorted rows) ≡ count_where q rows
  unfolding sorted count_where
  count_where-sorted [] = refl
  count_where-sorted (a ∷ rows) =
      count_where-insert_sorted a (sorted rows) ∙ ground (arith, count_where-sorted rows)

  pub count_where-select :
      (p : Announcement → Bool) (rows : List Announcement)
      → count_where q (select p rows) ≡ count_where (λ a. p a && q a) rows
  unfolding select count_where
  count_where-select p [] = refl
  count_where-select p (a ∷ rows) = ground (arith, count_where-select p rows)
