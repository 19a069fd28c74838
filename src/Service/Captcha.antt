-- ===== src/Service/Captcha.antt =====
-- internal/service/captcha.go: the code of a captcha, as its bytes, the glyphs, and the pixels that are
-- drawn. The random values are an argument: the n-th draw below a bound, `none` where the source of
-- randomness fails.
pub mod Shuffled
pub mod Codes
pub mod Pixels
use jd_shop_server.Common.{
  ℕ, zero, suc, ◌+◌, ◌-◌, ◌*◌, ◌/◌, ◌%◌, ◌^◌, String, Bool, true, false, ◌&&◌, Option, none, some,
  List, [], ◌∷◌, ◌++◌, ◌==◌, ltb, if◌then◌else◌,
}
use jd_shop_server.Common.Int.{ℤ, pos, negsuc}
use Prim.Native.Char.{code}

unfoldable pub bytes : String → List ℕ
bytes String.[] = []
bytes (String.◌∷◌ c s) = code c ∷ bytes s

unfoldable pub count_of : List ℕ → ℕ
count_of [] = 0
count_of (x ∷ xs) = suc (count_of xs)

unfoldable pub get : ℕ → List ℕ → Option ℕ
get i [] = none
get zero (x ∷ xs) = some x
get (suc i) (x ∷ xs) = get i xs

unfoldable pub set : ℕ → ℕ → List ℕ → List ℕ
set i v [] = []
set zero v (x ∷ xs) = v ∷ xs
set (suc i) v (x ∷ xs) = x ∷ set i v xs

abbrev pub captcha_letters : List ℕ
captcha_letters = bytes "ABCDEFGHJKMNPQRSTUVWXYZ"

abbrev pub captcha_digits : List ℕ
captcha_digits = bytes "23456789"

abbrev pub captcha_alphabet : List ℕ
captcha_alphabet = captcha_letters ++ captcha_digits

abbrev captcha_width : ℕ
captcha_width = 190

abbrev captcha_height : ℕ
captcha_height = 64

abbrev pub then_ : {A B : Type 0} → Option A → (A → Option B) → Option B
then_ none f = none
then_ (some a) f = f a

-- `code[i], code[j] = code[j], code[i]`.
unfoldable pub swap : ℕ → ℕ → List ℕ → Option (List ℕ)
swap i j code = then_ (get i code) λ x. then_ (get j code) λ y. some (set j x (set i y code))

module _ (draws : ℕ → ℕ → Option ℕ) where
  -- `secureChoice`, with the draw of number `n`.
  unfoldable pub secure_choice : ℕ → List ℕ → Option ℕ
  secure_choice n alphabet = then_ (draws n (count_of alphabet)) λ index. get index alphabet

  -- `count` bytes from place `i` on, the byte at a place by the draw of its number.
  unfoldable pub choose : List ℕ → ℕ → ℕ → List ℕ → Option (List ℕ)
  choose alphabet zero i code = some code
  choose alphabet (suc count) i code =
      then_ (secure_choice i alphabet) λ value. choose alphabet count (suc i) (set i value code)

  -- The places from `i` down to 1, the draws from number `n` on.
  unfoldable pub shuffle : ℕ → ℕ → List ℕ → Option (List ℕ)
  shuffle zero n code = some code
  shuffle (suc i) n code =
      then_ (draws n (suc i + 1))
        λ j. then_ (swap (suc i) j code) λ swapped. shuffle i (n + 1) swapped

  unfoldable pub random_captcha_code : Option (List ℕ)
  random_captcha_code = then_ (choose captcha_letters 2 0 (0 ∷ 0 ∷ 0 ∷ 0 ∷ 0 ∷ [])) λ lettered.
      then_ (choose captcha_digits 2 2 lettered)
        λ numbered. then_ (choose captcha_alphabet 1 4 numbered) λ code. shuffle 4 5 code

abbrev pub captcha_glyphs : List (ℕ × List String)
captcha_glyphs =
    (b'A', "01110" ∷ "10001" ∷ "10001" ∷ "11111" ∷ "10001" ∷ "10001" ∷ "10001" ∷ [])
    ∷ (b'B', "11110" ∷ "10001" ∷ "10001" ∷ "11110" ∷ "10001" ∷ "10001" ∷ "11110" ∷ [])
    ∷ (b'C', "01111" ∷ "10000" ∷ "10000" ∷ "10000" ∷ "10000" ∷ "10000" ∷ "01111" ∷ [])
    ∷ (b'D', "11110" ∷ "10001" ∷ "10001" ∷ "10001" ∷ "10001" ∷ "10001" ∷ "11110" ∷ [])
    ∷ (b'E', "11111" ∷ "10000" ∷ "10000" ∷ "11110" ∷ "10000" ∷ "10000" ∷ "11111" ∷ [])
    ∷ (b'F', "11111" ∷ "10000" ∷ "10000" ∷ "11110" ∷ "10000" ∷ "10000" ∷ "10000" ∷ [])
    ∷ (b'G', "01111" ∷ "10000" ∷ "10000" ∷ "10111" ∷ "10001" ∷ "10001" ∷ "01111" ∷ [])
    ∷ (b'H', "10001" ∷ "10001" ∷ "10001" ∷ "11111" ∷ "10001" ∷ "10001" ∷ "10001" ∷ [])
    ∷ (b'J', "00111" ∷ "00010" ∷ "00010" ∷ "00010" ∷ "00010" ∷ "10010" ∷ "01100" ∷ [])
    ∷ (b'K', "10001" ∷ "10010" ∷ "10100" ∷ "11000" ∷ "10100" ∷ "10010" ∷ "10001" ∷ [])
    ∷ (b'M', "10001" ∷ "11011" ∷ "10101" ∷ "10101" ∷ "10001" ∷ "10001" ∷ "10001" ∷ [])
    ∷ (b'N', "10001" ∷ "11001" ∷ "10101" ∷ "10011" ∷ "10001" ∷ "10001" ∷ "10001" ∷ [])
    ∷ (b'P', "11110" ∷ "10001" ∷ "10001" ∷ "11110" ∷ "10000" ∷ "10000" ∷ "10000" ∷ [])
    ∷ (b'Q', "01110" ∷ "10001" ∷ "10001" ∷ "10001" ∷ "10101" ∷ "10010" ∷ "01101" ∷ [])
    ∷ (b'R', "11110" ∷ "10001" ∷ "10001" ∷ "11110" ∷ "10100" ∷ "10010" ∷ "10001" ∷ [])
    ∷ (b'S', "01111" ∷ "10000" ∷ "10000" ∷ "01110" ∷ "00001" ∷ "00001" ∷ "11110" ∷ [])
    ∷ (b'T', "11111" ∷ "00100" ∷ "00100" ∷ "00100" ∷ "00100" ∷ "00100" ∷ "00100" ∷ [])
    ∷ (b'U', "10001" ∷ "10001" ∷ "10001" ∷ "10001" ∷ "10001" ∷ "10001" ∷ "01110" ∷ [])
    ∷ (b'V', "10001" ∷ "10001" ∷ "10001" ∷ "10001" ∷ "10001" ∷ "01010" ∷ "00100" ∷ [])
    ∷ (b'W', "10001" ∷ "10001" ∷ "10001" ∷ "10101" ∷ "10101" ∷ "10101" ∷ "01010" ∷ [])
    ∷ (b'X', "10001" ∷ "10001" ∷ "01010" ∷ "00100" ∷ "01010" ∷ "10001" ∷ "10001" ∷ [])
    ∷ (b'Y', "10001" ∷ "10001" ∷ "01010" ∷ "00100" ∷ "00100" ∷ "00100" ∷ "00100" ∷ [])
    ∷ (b'Z', "11111" ∷ "00001" ∷ "00010" ∷ "00100" ∷ "01000" ∷ "10000" ∷ "11111" ∷ [])
    ∷ (b'2', "01110" ∷ "10001" ∷ "00001" ∷ "00010" ∷ "00100" ∷ "01000" ∷ "11111" ∷ [])
    ∷ (b'3', "11110" ∷ "00001" ∷ "00001" ∷ "01110" ∷ "00001" ∷ "00001" ∷ "11110" ∷ [])
    ∷ (b'4', "00010" ∷ "00110" ∷ "01010" ∷ "10010" ∷ "11111" ∷ "00010" ∷ "00010" ∷ [])
    ∷ (b'5', "11111" ∷ "10000" ∷ "10000" ∷ "11110" ∷ "00001" ∷ "00001" ∷ "11110" ∷ [])
    ∷ (b'6', "01110" ∷ "10000" ∷ "10000" ∷ "11110" ∷ "10001" ∷ "10001" ∷ "01110" ∷ [])
    ∷ (b'7', "11111" ∷ "00001" ∷ "00010" ∷ "00100" ∷ "01000" ∷ "01000" ∷ "01000" ∷ [])
    ∷ (b'8', "01110" ∷ "10001" ∷ "10001" ∷ "01110" ∷ "10001" ∷ "10001" ∷ "01110" ∷ [])
    ∷ (b'9', "01110" ∷ "10001" ∷ "10001" ∷ "01111" ∷ "00001" ∷ "00001" ∷ "01110" ∷ [])
    ∷ []

-- `captchaGlyphs[character]`.
unfoldable pub glyph : List (ℕ × List String) → ℕ → Option (List String)
glyph [] character = none
glyph ((c, rows) ∷ glyphs) character =
    let rest = glyph glyphs character in if c == character then some rows else rest

pub record Rgba : Type 0 where
  pub r : ℕ
  pub g : ℕ
  pub b : ℕ
  pub a : ℕ

abbrev pub Image : Type 0
Image = ℕ → ℕ → Rgba

-- A channel of the blend, and its conversion to `uint8`.
unfoldable pub mixed : ℕ → ℕ → ℕ → ℕ
mixed alpha over base = ((over * alpha + base * (255 - alpha)) / 255) % 2 ^ 8

abbrev pub blended : Rgba → Rgba → Rgba
blended overlay base = record {
  r = mixed overlay.a overlay.r base.r;
  g = mixed overlay.a overlay.g base.g;
  b = mixed overlay.a overlay.b base.b;
  a = 255;
}

-- `image.Pt(x, y).In(img.Bounds())`.
abbrev pub in_bounds : ℕ → ℕ → Bool
in_bounds x y = ltb x captcha_width && ltb y captcha_height

unfoldable pub blend_pixel : Image → ℤ → ℤ → Rgba → Image
blend_pixel img (pos x) (pos y) overlay =
    if in_bounds x y
    then (λ u v. if x == u && y == v then blended overlay (img u v) else img u v)
    else img
blend_pixel img _ _ overlay = img
