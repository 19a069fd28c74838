-- ===== src/Common/TableLaws.antt =====
-- Laws of the operations on tables.
use mathlib.Core.Path.{◌≡◌, refl}
use mathlib.Core.Logic.{inl, inr}
use mathlib.Core.Bool.{Bool, true}
use mathlib.Core.List.{List, [], ◌∷◌}
use mathlib.Core.Option.{none, some, Option}
use native.Mathlib.Omega.{arith}
use jd_shop_server.Common.Tests.{Bool-cases, if◌then◌else◌}
use jd_shop_server.Common.Lists.{find, select, update_where}

module _ {ℓ} {A : Type ℓ} where
  -- The first row that passes `p` is kept by a selection that it passes.
  pub find-select :
      (p q : A → Bool) (xs : List A) {e : A}
      → find p xs ≡ some e
      → q e ≡ true
      → find p (select q xs) ≡ some e
  unfolding find select
  find-select p q [] h k = cc
  find-select p q (x ∷ xs) h k = elim (Bool-cases (p x)) [
    | inl yes_p ↦
        let same : some x ≡ some _ = rw yes_p at h in let qx : q x ≡ true = cc in ground arith
    | inr no_p ↦
        let later : find p xs ≡ some _ = rw no_p at h in ground (arith, find-select p q xs later k)
  ]

  pub find-select-none :
      (p q : A → Bool) (xs : List A) → find p xs ≡ none → find p (select q xs) ≡ none
  unfolding find select
  find-select-none p q [] h = refl
  find-select-none p q (x ∷ xs) h = ground (arith, find-select-none p q xs)

  abbrev pub updated : (A → Bool) → (A → A) → Option A → Option A
  updated q f none = none
  updated q f (some x) = some (if q x then f x else x)

  -- An update that keeps what a search tests is seen by the search in the row that it finds.
  pub find-update_where :
      (p q : A → Bool) (f : A → A) (xs : List A)
      → ((x : A) → p (f x) ≡ p x)
      → find p (update_where q f xs) ≡ updated q f (find p xs)
  unfolding find update_where
  find-update_where p q f [] keep = refl
  find-update_where p q f (x ∷ xs) keep = ground (arith, keep x, find-update_where p q f xs keep)

  pub find_passes : (p : A → Bool) (xs : List A) {e : A} → find p xs ≡ some e → p e ≡ true
  unfolding find
  find_passes p [] h = cc
  find_passes p (x ∷ xs) h = elim (Bool-cases (p x)) [
    | inl now ↦ let same : some x ≡ some _ = rw now at h in cc
    | inr later ↦ let found : find p xs ≡ some _ = rw later at h in find_passes p xs found
  ]
