-- ===== src/Service/Captcha/Codes.antt =====
-- The codes that internal/service/captcha.go draws.
use jd_shop_server.Common.{
  ℕ, zero, suc, ◌≡◌, refl, ◌∙◌, ◌<◌, ◌≤◌, Bool, true, false, ◌&&◌, Option, none, some, List, [],
  ◌∷◌, arith, String, leb, ◌==◌, byte_length, subst, sym,
}
use jd_shop_server.Service.Captcha.{
  count_of, get, set, choose, shuffle, secure_choice, random_captcha_code, captcha_letters,
  captcha_digits, captcha_alphabet, captcha_glyphs, glyph, bytes,
}
use jd_shop_server.Service.Captcha.Shuffled.{passing, passing-shuffle, IsSource, then_-some, get-lt}

unfoldable pub is_capital : ℕ → Bool
is_capital c = leb b'A' c && leb c b'Z'

unfoldable pub is_digit : ℕ → Bool
is_digit c = leb b'0' c && leb c b'9'

-- The cells that `drawDistortedGlyph` reads: seven rows of five.
unfoldable pub are_rows : ℕ → List String → Bool
are_rows n [] = n == 0
are_rows zero (row ∷ rows) = false
are_rows (suc n) (row ∷ rows) = byte_length row == 5 && are_rows n rows

abbrev pub is_whole : Option (List String) → Bool
is_whole none = false
is_whole (some rows) = are_rows 7 rows

unfoldable pub is_drawn : ℕ → Bool
is_drawn c = is_whole (glyph captcha_glyphs c)

passing-le : (p : ℕ → Bool) (xs : List ℕ) → passing p xs ≤ count_of xs
unfolding passing count_of
passing-le p [] = omega arith
passing-le p (x ∷ xs) = let rest = passing-le p xs in ground arith

passing-get :
    (p : ℕ → Bool) (i v : ℕ) (xs : List ℕ)
    → passing p xs ≡ count_of xs
    → get i xs ≡ some v
    → p v ≡ true
unfolding passing count_of get
passing-get p i v [] all h = cc
passing-get p zero v (x ∷ xs) all h =
    let rest = passing-le p xs in
    let same : x ≡ v = cc in subst (λ c. p c ≡ true) same (ground arith)
passing-get p (suc i) v (x ∷ xs) all h =
    let rest = passing-le p xs in passing-get p i v xs (ground arith) h

letters_capital : passing is_capital captcha_letters ≡ count_of captcha_letters
unfolding passing count_of is_capital bytes
letters_capital = refl

digits_digit : passing is_digit captcha_digits ≡ count_of captcha_digits
unfolding passing count_of is_digit bytes
digits_digit = refl

letters_drawn : passing is_drawn captcha_letters ≡ count_of captcha_letters
unfolding passing count_of is_drawn are_rows glyph byte_length bytes
letters_drawn = refl

digits_drawn : passing is_drawn captcha_digits ≡ count_of captcha_digits
unfolding passing count_of is_drawn are_rows glyph byte_length bytes
digits_drawn = refl

alphabet_drawn : passing is_drawn captcha_alphabet ≡ count_of captcha_alphabet
unfolding passing count_of is_drawn are_rows glyph byte_length bytes
alphabet_drawn = refl

module _ (draws : ℕ → ℕ → Option ℕ) (source : IsSource draws) where
  secure_choice-some :
      (n : ℕ) (alphabet : List ℕ)
      → 0 < count_of alphabet
      → (i v : ℕ) × (get i alphabet ≡ some v) × (secure_choice draws n alphabet ≡ some v)
  unfolding IsSource secure_choice
  secure_choice-some n alphabet h =
      let (i, drawn, below) = source n (count_of alphabet) h in
      let (v, at_i) = get-lt i alphabet below in (i, v, at_i, then_-some _ drawn at_i)

  -- What the choices leave to the shuffle: two letters, two digits and one of either.
  chosen :
      (code : List ℕ) × (count_of code ≡ 5)
      × (2 ≤ passing is_capital code)
      × (2 ≤ passing is_digit code)
      × (passing is_drawn code ≡ 5)
      × (random_captcha_code draws ≡ shuffle draws 4 5 code)
  unfolding random_captcha_code choose set passing count_of bytes
  chosen =
      let (i0, a, a_at, a_made) = secure_choice-some 0 captcha_letters (omega arith) in
      let (i1, b, b_at, b_made) = secure_choice-some 1 captcha_letters (omega arith) in
      let (i2, c, c_at, c_made) = secure_choice-some 2 captcha_digits (omega arith) in
      let (i3, d, d_at, d_made) = secure_choice-some 3 captcha_digits (omega arith) in
      let (i4, e, e_at, e_made) = secure_choice-some 4 captcha_alphabet (omega arith) in
      let a_capital = passing-get is_capital i0 a captcha_letters letters_capital a_at in
      let b_capital = passing-get is_capital i1 b captcha_letters letters_capital b_at in
      let c_digit = passing-get is_digit i2 c captcha_digits digits_digit c_at in
      let d_digit = passing-get is_digit i3 d captcha_digits digits_digit d_at in
      let a_drawn = passing-get is_drawn i0 a captcha_letters letters_drawn a_at in
      let b_drawn = passing-get is_drawn i1 b captcha_letters letters_drawn b_at in
      let c_drawn = passing-get is_drawn i2 c captcha_digits digits_drawn c_at in
      let d_drawn = passing-get is_drawn i3 d captcha_digits digits_drawn d_at in
      let e_drawn = passing-get is_drawn i4 e captcha_alphabet alphabet_drawn e_at in
      (
        a ∷ b ∷ c ∷ d ∷ e ∷ [],
        refl,
        rw a_capital (rw b_capital (omega arith)),
        rw c_digit (rw d_digit (omega arith)),
        rw a_drawn (rw b_drawn (rw c_drawn (rw d_drawn (rw e_drawn refl)))),
        then_-some _ (then_-some _ a_made (then_-some _ b_made refl)) (
            then_-some _ (then_-some _ c_made (then_-some _ d_made refl))
              (then_-some _ (then_-some _ e_made refl) refl)),
      )

-- Where the source of randomness does not fail and draws below the bound, a code is made; it has
-- five characters, at least two of them capitals, at least two of them digits, and all with a
-- glyph of seven rows of five cells.
pub random_captcha_code_lem :
    (draws : ℕ → ℕ → Option ℕ)
    → IsSource draws
    → (code : List ℕ) × (random_captcha_code draws ≡ some code)
      × (count_of code ≡ 5)
      × (2 ≤ passing is_capital code)
      × (2 ≤ passing is_digit code)
      × (passing is_drawn code ≡ 5)
random_captcha_code_lem draws source =
    let (drawn, five, capitals, digits, glyphs, then_shuffled) = chosen draws source in
    let (code, made, length_code, kept) = passing-shuffle draws source 4 5 drawn (omega arith) in
    (
      code,
      then_shuffled ∙ made,
      length_code ∙ five,
      subst (λ n. 2 ≤ n) (sym (kept is_capital)) capitals,
      subst (λ n. 2 ≤ n) (sym (kept is_digit)) digits,
      kept is_drawn ∙ glyphs,
    )
