-- ===== src/Repository/Announcements/Targets.antt =====
-- The loop of internal/repository/announcement.go that writes the targets of an announcement, and
-- the list of them that is read back.
use jd_shop_server.Common.{
  ℕ, ◌<◌, ◌≡◌, refl, sym, ap, ◌∙◌, Bool, true, false, not, ◌&&◌, ◌||◌, List, [], ◌∷◌, ◌==◌, find,
  select, delete_where, is_some, Bool-cases, inl, inr, arith,
}
use jd_shop_server.Common.Int.{ℤ, pos, negsuc}
use jd_shop_server.Hub.{ControlHub}
use jd_shop_server.Db.{Db, Link, calm, World, ok, ◌>>=◌, ◌>>◌, pure}
use jd_shop_server.Db.Success.{bind-eq, insert_row-calm, bind-eq-ok, insert_row-eq-ok, pure-eq-ok}
use jd_shop_server.Repository.Announcements.{
  is_target, targets_announcement, is_seen, add_target, add_targets, insert_id, targets_of,
}

-- Whether a user is among the ids that the loop takes.
unfoldable pub names : ℕ → List ℤ → Bool
names u [] = false
names u (negsuc n ∷ users) = names u users
names u (pos n ∷ users) = (not (n == 0) && n == u) || names u users

unfoldable pub linked : ℕ → ℕ → List Link → Bool
linked id u links = is_some (find (is_target id u) links)

-- The links that the loop leaves.
unfoldable pub added : ℕ → List ℤ → List ℕ → List Link → List Link
added id [] seen links = links
added id (negsuc n ∷ users) seen links = added id users seen links
added id (pos n ∷ users) seen links = elim (n == 0 || is_seen n seen) [
  | true ↦ added id users seen links
  | false ↦ added id users (n ∷ seen) (record { left = id; right = n } ∷ links)
]

-- Whether the loop passes an id over.
abbrev pub skips : ℕ → List ℕ → Bool
skips n seen = n == 0 || is_seen n seen

module _ (id n : ℕ) (users : List ℤ) (seen : List ℕ) where
  pub add_targets_negative : add_targets id (negsuc n ∷ users) seen ≡ add_targets id users seen
  unfolding add_targets
  add_targets_negative = refl

  added_negative :
      (links : List Link) → added id (negsuc n ∷ users) seen links ≡ added id users seen links
  unfolding added
  added_negative links = refl

  added_skip :
      (links : List Link)
      → skips n seen ≡ true
      → added id (pos n ∷ users) seen links ≡ added id users seen links
  unfolding added
  added_skip links h = rw (h, added)

  added_take :
      (links : List Link)
      → skips n seen ≡ false
      → added id (pos n ∷ users) seen links
        ≡ added id users (n ∷ seen) (record { left = id; right = n } ∷ links)
  unfolding added
  added_take links h = rw (h, added)

  pub add_targets_skip :
      skips n seen ≡ true → add_targets id (pos n ∷ users) seen ≡ add_targets id users seen
  unfolding add_targets
  add_targets_skip h = rw (h, add_targets)

  pub add_targets_take :
      skips n seen ≡ false
      → add_targets id (pos n ∷ users) seen ≡ (add_target id n >> add_targets id users (n ∷ seen))
  unfolding add_targets ◌>>=◌
  add_targets_take h = rw (h, add_targets)

abbrev pub with_links : Db → List Link → Db
with_links db links = record db { announcement_targets = links }

add_target-eq-ok :
    (id n : ℕ) (w : World) {w' : World}
    → add_target id n w ≡ (ok tt, w')
    → w'.db ≡ with_links w.db (record { left = id; right = n } ∷ w.db.announcement_targets)
unfolding add_target
add_target-eq-ok id n w h = (insert_row-eq-ok _ _ w h).2

add_target-calm :
    (id n : ℕ) (db : Db) (hub : ControlHub)
    → linked id n db.announcement_targets ≡ false
    → add_target id n (calm db hub) ≡ (
      ok tt,
      calm (with_links db (record { left = id; right = n } ∷ db.announcement_targets)) hub,
    )
unfolding add_target linked
add_target-calm id n db hub h = insert_row-calm db hub _ _ h

pub add_targets-eq-ok :
    (id : ℕ) (users : List ℤ) (seen : List ℕ) (w : World) {w' : World}
    → add_targets id users seen w ≡ (ok tt, w')
    → w'.db ≡ with_links w.db (added id users seen w.db.announcement_targets)
unfolding add_targets added
add_targets-eq-ok id [] seen w h = ap (λ (v : World). v.db) (sym (pure-eq-ok tt w h).1)
add_targets-eq-ok id (negsuc n ∷ users) seen w h = add_targets-eq-ok id users seen w h
add_targets-eq-ok id (pos n ∷ users) seen w h = elim (Bool-cases (skips n seen)) [
  | inl skipped ↦
      rw (added_skip id n users seen w.db.announcement_targets skipped)
        (add_targets-eq-ok id users seen w (rw (add_targets_skip id n users seen skipped) at h))
  | inr taken ↦
      let (_, w₁, made, rest) =
        bind-eq-ok (add_target id n) (λ _. add_targets id users (n ∷ seen)) w
          (rw (add_targets_take id n users seen taken) at h) in
      let step = add_target-eq-ok id n w made in
      rw (added_take id n users seen w.db.announcement_targets taken) (
        add_targets-eq-ok id users (n ∷ seen) w₁ rest
        ∙ ap (λ db. with_links db (added id users (n ∷ seen) db.announcement_targets)) step)
]

linked-cons :
    (id n u : ℕ) (links : List Link)
    → linked id u (record { left = id; right = n } ∷ links) ≡ (n == u || linked id u links)
unfolding linked find
linked-cons id n u links = ground arith

module _ (id u : ℕ) where
  -- An id that is passed over is 0 or has its link.
  passed_over :
      (n : ℕ) (users : List ℤ) (seen : List ℕ) (links : List Link)
      → (is_seen n seen ≡ true → linked id n links ≡ true)
      → skips n seen ≡ true
      → (linked id u links || names u users)
        ≡ (linked id u links || ((not (n == 0) && n == u) || names u users))
  passed_over n users seen links covered skipped = elim (Bool-cases (n == u)) [
    | inl same ↦ let eq : n ≡ u = ground arith in rw (← eq) (ground arith)
    | inr differ ↦ ground arith
  ]

  -- The links of the loop are those there were and those of the ids it takes.
  pub linked-added :
      (users : List ℤ) (seen : List ℕ) (links : List Link)
      → ((n : ℕ) → is_seen n seen ≡ true → linked id n links ≡ true)
      → linked id u (added id users seen links) ≡ (linked id u links || names u users)
  unfolding names is_seen
  linked-added [] seen links covered = unfold added in ground arith
  linked-added (negsuc n ∷ users) seen links covered =
      rw (added_negative id n users seen links) (linked-added users seen links covered)
  linked-added (pos n ∷ users) seen links covered = elim (Bool-cases (skips n seen)) [
    | inl skipped ↦
        rw (added_skip id n users seen links skipped) (
          linked-added users seen links covered
          ∙ passed_over n users seen links (covered n) skipped)
    | inr taken ↦
        let more = record { left = id; right = n } ∷ links in
        rw (added_take id n users seen links taken) (
          linked-added users (n ∷ seen) more
            (λ k h. ground (arith, linked-cons id n k links, covered k))
          ∙ ground (arith, linked-cons id n u links))
  ]

  pub linked-delete_where :
      (links : List Link) → linked id u (delete_where (targets_announcement id) links) ≡ false
  unfolding linked find delete_where select
  linked-delete_where [] = refl
  linked-delete_where (l ∷ links) = ground (arith, linked-delete_where links)

  pub is_seen-insert_id :
      (n : ℕ) (ids : List ℕ) → is_seen u (insert_id n ids) ≡ (n == u || is_seen u ids)
  unfolding is_seen insert_id
  is_seen-insert_id n [] = ground arith
  is_seen-insert_id n (m ∷ ids) = ground (arith, is_seen-insert_id n ids)

  pub is_seen-targets_of : (links : List Link) → is_seen u (targets_of id links) ≡ linked id u links
  unfolding targets_of linked find
  is_seen-targets_of [] = unfold is_seen in refl
  is_seen-targets_of (l ∷ links) =
      ground (arith, is_seen-targets_of links, is_seen-insert_id l.right (targets_of id links))

-- Each id below the next.
abbrev pub IsAscending : List ℕ → Type 0
IsAscending [] = Unit {0}
IsAscending (n ∷ []) = Unit {0}
IsAscending (n ∷ m ∷ ids) = (n < m) × IsAscending (m ∷ ids)

pub insert_id-IsAscending :
    (n : ℕ) (ids : List ℕ) → is_seen n ids ≡ false → IsAscending ids → IsAscending (insert_id n ids)
unfolding insert_id is_seen
insert_id-IsAscending n [] new asc = tt
insert_id-IsAscending n (m ∷ []) new asc = ground arith
insert_id-IsAscending n (m ∷ k ∷ ids) new asc = ground (arith, insert_id-IsAscending n (k ∷ ids))

-- `PRIMARY KEY (announcement_id, user_id)`, for one announcement.
abbrev pub IsDistinct : ℕ → List Link → Type 0
IsDistinct id [] = Unit {0}
IsDistinct id (l ∷ links) =
    (targets_announcement id l ≡ true → linked id l.right links ≡ false) × IsDistinct id links

module _ (id : ℕ) where
  pub targets_of-IsAscending :
      (links : List Link) → IsDistinct id links → IsAscending (targets_of id links)
  unfolding targets_of
  targets_of-IsAscending [] d = tt
  targets_of-IsAscending (l ∷ links) (fresh, d) = elim (Bool-cases (targets_announcement id l)) [
    | inl hit ↦ rw hit (
        insert_id-IsAscending l.right (targets_of id links)
          (is_seen-targets_of id l.right links ∙ fresh hit) (targets_of-IsAscending links d))
    | inr miss ↦ rw miss (targets_of-IsAscending links d)
  ]

  pub delete_where-IsDistinct :
      (links : List Link) → IsDistinct id (delete_where (targets_announcement id) links)
  unfolding delete_where select
  delete_where-IsDistinct [] = tt
  delete_where-IsDistinct (l ∷ links) = elim (Bool-cases (targets_announcement id l)) [
    | inl hit ↦ rw hit (delete_where-IsDistinct links)
    | inr miss ↦ rw miss ((λ hit. cc), delete_where-IsDistinct links)
  ]

  pub added-IsDistinct :
      (users : List ℤ) (seen : List ℕ) (links : List Link)
      → ((n : ℕ) → linked id n links ≡ is_seen n seen)
      → IsDistinct id links
      → IsDistinct id (added id users seen links)
  unfolding is_seen
  added-IsDistinct [] seen links covered d = unfold added in d
  added-IsDistinct (negsuc n ∷ users) seen links covered d =
      rw (added_negative id n users seen links) (added-IsDistinct users seen links covered d)
  added-IsDistinct (pos n ∷ users) seen links covered d = elim (Bool-cases (skips n seen)) [
    | inl skipped ↦
        rw (added_skip id n users seen links skipped) (added-IsDistinct users seen links covered d)
    | inr taken ↦ rw (added_take id n users seen links taken) (
        added-IsDistinct users (n ∷ seen) (record { left = id; right = n } ∷ links)
          (λ k. ground (arith, linked-cons id n k links, covered k))
          ((λ _. ground (arith, covered n)), d))
  ]

-- Where no statement fails, the loop ends well: no link that it writes is there already.
pub add_targets-calm :
    (id : ℕ) (users : List ℤ) (seen : List ℕ) (db : Db) (hub : ControlHub)
    → ((n : ℕ) → linked id n db.announcement_targets ≡ is_seen n seen)
    → add_targets id users seen (calm db hub)
      ≡ (ok tt, calm (with_links db (added id users seen db.announcement_targets)) hub)
unfolding is_seen
add_targets-calm id [] seen db hub covered = unfold added add_targets pure in refl
add_targets-calm id (negsuc n ∷ users) seen db hub covered =
    rw
      (add_targets_negative id n users seen, added_negative id n users seen db.announcement_targets)
      (add_targets-calm id users seen db hub covered)
add_targets-calm id (pos n ∷ users) seen db hub covered = elim (Bool-cases (skips n seen)) [
  | inl skipped ↦
      rw
        (
          add_targets_skip id n users seen skipped,
          added_skip id n users seen db.announcement_targets skipped,
        )
        (add_targets-calm id users seen db hub covered)
  | inr taken ↦
      let more = record { left = id; right = n } ∷ db.announcement_targets in
      rw
        (
          add_targets_take id n users seen taken,
          added_take id n users seen db.announcement_targets taken,
        )
        (bind-eq (add_target id n) (λ _. add_targets id users (n ∷ seen)) (calm db hub)
            (add_target-calm id n db hub (ground (arith, covered n)))
          ∙ add_targets-calm id users (n ∷ seen) (with_links db more) hub
              (λ k. ground (arith, linked-cons id n k db.announcement_targets, covered k)))
]
