-- ===== src/Examples/Images.antt =====
-- A captcha drawn from a source that draws 0 only.
use jd_shop_server.Common.{ℕ, ◌≡◌, refl, ◌≤◌, arith, Option, some, List, ◌==◌, ◌&&◌, if◌then◌else◌}
use jd_shop_server.Common.Int.{pos}
use jd_shop_server.Service.Captcha.{random_captcha_code, count_of, Rgba, Image, blend_pixel}
use jd_shop_server.Service.Captcha.Shuffled.{IsSource, passing}
use jd_shop_server.Service.Captcha.Codes.{is_capital, is_digit, is_drawn, random_captcha_code_lem}
use jd_shop_server.Service.Captcha.Pixels.{AreBytes, IsMix, blend_pixel_lem}

abbrev zeros : ℕ → ℕ → Option ℕ
zeros n max = some 0

zeros-IsSource : IsSource zeros
unfolding IsSource
zeros-IsSource n max h = (0, refl, h)

random_captcha_code_lem_example :
    (code : List ℕ) × (random_captcha_code zeros ≡ some code)
    × (count_of code ≡ 5)
    × (2 ≤ passing is_capital code)
    × (2 ≤ passing is_digit code)
    × (passing is_drawn code ≡ 5)
random_captcha_code_lem_example = random_captcha_code_lem zeros zeros-IsSource

abbrev white : Rgba
white = record { r = 240; g = 240; b = 240; a = 255 }

abbrev ink : Rgba
ink = record { r = 30; g = 250; b = 60; a = 235 }

abbrev blank : Image
blank x y = white

ink-AreBytes : AreBytes ink
unfolding AreBytes
ink-AreBytes = (omega arith, omega arith, omega arith, omega arith)

white-AreBytes : AreBytes white
unfolding AreBytes
white-AreBytes = (omega arith, omega arith, omega arith, omega arith)

blend_pixel_lem_example :
    IsMix ink white (blend_pixel blank (pos 3) (pos 4) ink 3 4)
    × AreBytes (blend_pixel blank (pos 3) (pos 4) ink 3 4)
    × ((u v : ℕ)
        → blend_pixel blank (pos 3) (pos 4) ink u v
          ≡ (if 3 == u && 4 == v then blend_pixel blank (pos 3) (pos 4) ink 3 4 else white))
blend_pixel_lem_example =
    blend_pixel_lem blank 3 4 ink (omega arith) (omega arith) ink-AreBytes white-AreBytes
