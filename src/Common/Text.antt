-- ===== src/Common/Text.antt =====
-- Texts of the standard library's `strings` package.
use Prim.Native.Nat.{ℕ, zero, suc, ◌+◌, ◌-◌}
use Prim.Native.Char.{Char, code}
use Prim.Native.String.{String}
use mathlib.Core.Bool.{Bool, true, false, ◌&&◌, ◌||◌}
use jd_shop_server.Common.Tests.{leb, ltb, ◌==◌, if◌then◌else◌}

-- `unicode.IsSpace`.
is_space : ℕ → Bool
is_space c =
    (leb 9 c && leb c 13)
    || c == 32
    || c == 0x85
    || c == 0xa0
    || c == 0x1680
    || (leb 0x2000 c && leb c 0x200a)
    || c == 0x2028
    || c == 0x2029
    || c == 0x202f
    || c == 0x205f
    || c == 0x3000

abbrev pub is_blank : String → Bool
is_blank String.[] = true
is_blank (String.◌∷◌ _ _) = false

trim_left : String → String
unfolding is_space
trim_left String.[] = String.[]
trim_left (String.◌∷◌ c s) = if is_space (code c) then trim_left s else String.◌∷◌ c s

trim_right : String → String
unfolding is_space
trim_right String.[] = String.[]
trim_right (String.◌∷◌ c s) =
    let rest = trim_right s in
    if is_blank rest && is_space (code c) then String.[] else String.◌∷◌ c rest

-- `strings.TrimSpace`.
unfoldable pub trim_space : String → String
unfolding trim_left trim_right
trim_space s = trim_right (trim_left s)

-- The text behind its first `n` characters.
unfoldable pub drop_chars : ℕ → String → String
drop_chars zero s = s
drop_chars (suc n) String.[] = String.[]
drop_chars (suc n) (String.◌∷◌ c s) = drop_chars n s

nth_or : Char → ℕ → String → Char
nth_or d n String.[] = d
nth_or d zero (String.◌∷◌ c s) = c
nth_or d (suc n) (String.◌∷◌ c s) = nth_or d n s

-- `unicode.ToLower` of the characters that it makes ASCII letters: the ASCII capitals, the dotted
-- I and the Kelvin sign. Any other character stays, as no ASCII letter.
lower : Char → Char
unfolding nth_or
lower c =
    if leb b'A' (code c) && leb (code c) b'Z'
    then nth_or c (code c - b'A') "abcdefghijklmnopqrstuvwxyz"
    else if code c == 0x130
    then nth_or c 0 "i"
    else if code c == 0x212a
    then nth_or c 0 "k"
    else c

-- `strings.ToLower`, up to the case of letters beyond ASCII.
unfoldable pub to_lower : String → String
unfolding lower
to_lower String.[] = String.[]
to_lower (String.◌∷◌ c s) = String.◌∷◌ (lower c) (to_lower s)

-- The text before the first semicolon, `strings.Split(s, ";")[0]`.
unfoldable pub before_semicolon : String → String
before_semicolon String.[] = String.[]
before_semicolon (String.◌∷◌ c s) =
    if code c == b';' then String.[] else String.◌∷◌ c (before_semicolon s)

-- The bytes of a character in UTF-8.
abbrev utf8_size : ℕ → ℕ
utf8_size c = if ltb c 0x80 then 1 else if ltb c 0x800 then 2 else if ltb c 0x10000 then 3 else 4

-- `len(s)`.
unfoldable pub byte_length : String → ℕ
unfolding utf8_size
byte_length String.[] = 0
byte_length (String.◌∷◌ c s) = utf8_size (code c) + byte_length s
