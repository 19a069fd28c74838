-- ===== src/Repository/Announcements/Pages.antt =====
-- The pages of internal/repository/announcement.go.
use jd_shop_server.Common.{
  ℕ, zero, suc, ◌+◌, ◌-◌, ◌*◌, ◌%◌, ◌^◌, ◌<◌, ◌≡◌, refl, sym, ap, ◌∙◌, List, [], ◌∷◌, ◌++◌, leb,
  arith, if◌then◌else◌,
}
use jd_shop_server.Repository.Announcements.Lists.{take, drop, offset, page_of}

pub offset-eq :
    (page page_size : ℕ)
    → page * page_size < 2 ^ 63
    → offset (suc page) page_size ≡ page * page_size
unfolding offset
offset-eq page page_size fits =
    let before : suc page - 1 ≡ page = omega arith in rw before (small (page * page_size) fits)
  where
    small : (n : ℕ) → n < 2 ^ 63 → (if leb (2 ^ 63) (n % 2 ^ 64) then 0 else n % 2 ^ 64) ≡ n
    small n fits = ground arith

module _ {ℓ} {A : Type ℓ} where
  take_nil : (n : ℕ) → take {A = A} n [] ≡ []
  unfolding take
  take_nil zero = refl
  take_nil (suc n) = refl

  take-add : (m n : ℕ) (xs : List A) → take (m + n) xs ≡ take m xs ++ take n (drop m xs)
  unfolding take drop
  take-add zero n xs = let none_taken : 0 + n ≡ n = omega arith in rw none_taken refl
  take-add (suc m) n [] =
      let one_more : suc m + n ≡ suc (m + n) = omega arith in rw one_more (sym (take_nil n))
  take-add (suc m) n (x ∷ xs) =
      let one_more : suc m + n ≡ suc (m + n) = omega arith in
      rw one_more (ap (λ rest. x ∷ rest) (take-add m n xs))

  -- The pages up to the last one, one behind the other.
  unfoldable pub pages : ℕ → ℕ → List A → List A
  pages zero page_size xs = []
  pages (suc last) page_size xs = pages last page_size xs ++ page_of (suc last) page_size xs

  -- The first pages of a list, one behind the other, are the beginning of the list that has as many
  -- rows as they hold: no row is left out or comes twice, as long as this is below 2 ^ 63.
  pub pages-take :
      (last page_size : ℕ) (xs : List A)
      → last * page_size < 2 ^ 63
      → pages last page_size xs ≡ take (last * page_size) xs
  unfolding pages page_of
  pages-take zero page_size xs fits =
      let nothing : 0 * page_size ≡ 0 = omega arith in rw nothing (unfold take in refl)
  pages-take (suc last) page_size xs fits =
      let more : suc last * page_size ≡ last * page_size + page_size = omega arith in
      let below : last * page_size < 2 ^ 63 = omega (arith, fits, more) in
      rw more (
        rw (offset-eq last page_size below) (
          ap (λ before. before ++ take page_size (drop (last * page_size) xs))
            (pages-take last page_size xs below)
          ∙ sym (take-add (last * page_size) page_size xs)))
