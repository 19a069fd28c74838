-- ===== src/Service/Captcha/Pixels.antt =====
-- The pixels that internal/service/captcha.go blends.
use jd_shop_server.Common.{
  ℕ, ◌+◌, ◌-◌, ◌*◌, ◌≡◌, refl, ap, sym, subst, ◌∙◌, ◌≤◌, arith, ◌⊎◌, inl, inr, ◌<◌, Bool-cases, leb,
  ◌==◌, leb→le, lt→ltb, ==_refl, if◌then◌else◌, ◌&&◌,
}
use native.Mathlib.Nat.{mul-le-mul_right}
use jd_shop_server.Common.Int.{pos}
use jd_shop_server.Service.Captcha.{mixed, Rgba, blend_pixel, Image, blended}

-- A weighted sum with weights of 255 in all.
weighted_le : (a b x y most : ℕ) → a + b ≡ 255 → x ≤ most → y ≤ most → x * a + y * b ≤ most * 255
weighted_le a b x y most h hx hy =
    let p = mul-le-mul_right a hx in
    let q = mul-le-mul_right b hy in
    let e : most * (a + b) ≡ most * 255 = ap (λ n. most * n) h in omega arith

le_weighted :
    (a b x y least : ℕ) → a + b ≡ 255 → least ≤ x → least ≤ y → least * 255 ≤ x * a + y * b
le_weighted a b x y least h hx hy =
    let p = mul-le-mul_right a hx in
    let q = mul-le-mul_right b hy in
    let e : least * (a + b) ≡ least * 255 = ap (λ n. least * n) h in omega arith

mixed-between :
    (alpha over base least most : ℕ)
    → alpha ≤ 255
    → least ≤ over
    → least ≤ base
    → over ≤ most
    → base ≤ most
    → most ≤ 255
    → (least ≤ mixed alpha over base) × (mixed alpha over base ≤ most)
unfolding mixed
mixed-between alpha over base least most ha lo lb ho hb hm =
    let upper = weighted_le alpha (255 - alpha) over base most (omega arith) ho hb in
    let lower = le_weighted alpha (255 - alpha) over base least (omega arith) lo lb in
    (omega arith, omega arith)

unfoldable pub AreBytes : Rgba → Type 0
AreBytes c = c.r ≤ 255 × c.g ≤ 255 × c.b ≤ 255 × c.a ≤ 255

-- A value between two others.
abbrev pub Between : ℕ → ℕ → ℕ → Type 0
Between x y m = (x ≤ m × m ≤ y) ⊎ (y ≤ m × m ≤ x)

mixed-Between :
    (alpha over base : ℕ)
    → alpha ≤ 255
    → over ≤ 255
    → base ≤ 255
    → Between over base (mixed alpha over base)
mixed-Between alpha over base ha ho hb = elim (Bool-cases (leb over base)) [
  | inl h ↦
      let le = leb→le over base h in
      inl (mixed-between alpha over base over base ha (omega arith) le le (omega arith) hb)
  | inr h ↦
      let le : base ≤ over = ground arith in
      inr (mixed-between alpha over base base over ha le (omega arith) (omega arith) le ho)
]

-- The channels of an opaque pixel lie between those of two others.
unfoldable pub IsMix : Rgba → Rgba → Rgba → Type 0
IsMix over base c =
    Between over.r base.r c.r × Between over.g base.g c.g × Between over.b base.b c.b × (c.a ≡ 255)

mixed_le : (alpha over base : ℕ) → mixed alpha over base ≤ 255
unfolding mixed
mixed_le alpha over base = omega arith

blend_pixel-eq :
    (img : Image) (x y : ℕ) (overlay : Rgba)
    → x < 190
    → y < 64
    → (u v : ℕ)
    → blend_pixel img (pos x) (pos y) overlay u v
      ≡ (if x == u && y == v then blended overlay (img u v) else img u v)
unfolding blend_pixel
blend_pixel-eq img x y overlay hx hy u v = rw (lt→ltb x 190 hx) (rw (lt→ltb y 64 hy) refl)

at_own : {A : Type 0} (x y : ℕ) (c d : A) → (if x == x && y == y then c else d) ≡ c
at_own x y c d =
    ap (λ b. if b && y == y then c else d) (==_refl x) ∙ ap (λ b. if b then c else d) (==_refl y)

-- What a change of one place makes of another.
at_place :
    {A : Type 0} (f : ℕ → ℕ → A) (g : A → A) (x y u v : ℕ)
    → (if x == u && y == v then g (f u v) else f u v)
      ≡ (if x == u && y == v then g (f x y) else f u v)
at_place f g x y u v = elim (Bool-cases (x == u && y == v)) [
  | inl h ↦
      let same_x : x ≡ u = ground arith in
      let same_y : y ≡ v = ground arith in
      ap (λ c. if x == u && y == v then g c else f u v) (λ k. f (sym same_x k) (sym same_y k))
  | inr h ↦ rw h refl
]

-- A pixel that is blended within the image is opaque and still made of bytes, its three colours
-- lie between those of the overlay and of the pixel before, and no other pixel changes.
pub blend_pixel_lem :
    (img : Image) (x y : ℕ) (overlay : Rgba)
    → x < 190
    → y < 64
    → AreBytes overlay
    → AreBytes (img x y)
    → IsMix overlay (img x y) (blend_pixel img (pos x) (pos y) overlay x y)
      × AreBytes (blend_pixel img (pos x) (pos y) overlay x y)
      × ((u v : ℕ)
          → blend_pixel img (pos x) (pos y) overlay u v
            ≡ (if x == u && y == v then blend_pixel img (pos x) (pos y) overlay x y else img u v))
unfolding AreBytes IsMix
blend_pixel_lem img x y overlay hx hy (r, g, b, a) (r', g', b', a') =
    let drawn = blend_pixel-eq img x y overlay hx hy in
    let own : blend_pixel img (pos x) (pos y) overlay x y ≡ blended overlay (img x y) =
      drawn x y ∙ at_own x y (blended overlay (img x y)) (img x y) in
    (
      subst (IsMix overlay (img x y)) (sym own) (
        mixed-Between _ _ _ a r r',
        mixed-Between _ _ _ a g g',
        mixed-Between _ _ _ a b b',
        refl,
      ),
      subst AreBytes (sym own) (mixed_le _ _ _, mixed_le _ _ _, mixed_le _ _ _, omega arith),
      λ u v.
          drawn u v
          ∙ at_place img (blended overlay) x y u v
          ∙ ap (λ c. if x == u && y == v then c else img u v) (sym own),
    )
