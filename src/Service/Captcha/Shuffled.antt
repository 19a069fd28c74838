-- ===== src/Service/Captcha/Shuffled.antt =====
-- What the shuffle of internal/service/captcha.go keeps of a code.
use jd_shop_server.Common.{
  ℕ, zero, suc, ◌+◌, ◌≡◌, refl, ◌<◌, Bool, Option, some, List, [], ◌∷◌, if◌then◌else◌, arith, ◌∙◌,
  ap,
}
use jd_shop_server.Service.Captcha.{count_of, get, set, swap, shuffle, then_}

-- How many bytes of a code pass a test.
unfoldable pub passing : (ℕ → Bool) → List ℕ → ℕ
passing p [] = 0
passing p (x ∷ xs) = (if p x then 1 else 0) + passing p xs

-- A step that gives a value, and what follows from there.
pub then_-some :
    {A B : Type 0} {o : Option A} {a : A} (f : A → Option B) {r : Option B}
    → o ≡ some a
    → f a ≡ r
    → then_ o f ≡ r
then_-some f given follows = ap (λ o. then_ o f) given ∙ follows

count_of-set : (i v : ℕ) (xs : List ℕ) → count_of (set i v xs) ≡ count_of xs
unfolding count_of set
count_of-set i v [] = refl
count_of-set zero v (x ∷ xs) = refl
count_of-set (suc i) v (x ∷ xs) = let rest = count_of-set i v xs in omega arith

passing-set :
    (p : ℕ → Bool) (i v x : ℕ) (xs : List ℕ)
    → get i xs ≡ some x
    → passing p (set i v xs) + (if p x then 1 else 0) ≡ passing p xs + (if p v then 1 else 0)
unfolding passing get set
passing-set p i v x [] h = cc
passing-set p zero v x (y ∷ ys) h = let same : y ≡ x = cc in rw same (omega arith)
passing-set p (suc i) v x (y ∷ ys) h = let rest = passing-set p i v x ys h in omega arith

get-set :
    (i j x y : ℕ) (xs : List ℕ)
    → get i xs ≡ some x
    → get j xs ≡ some y
    → get j (set i y xs) ≡ some y
unfolding get set
get-set i j x y [] h h' = cc
get-set zero zero x y (z ∷ zs) h h' = refl
get-set zero (suc j) x y (z ∷ zs) h h' = h'
get-set (suc i) zero x y (z ∷ zs) h h' = h'
get-set (suc i) (suc j) x y (z ∷ zs) h h' = get-set i j x y zs h h'

pub get-lt : (i : ℕ) (xs : List ℕ) → i < count_of xs → (x : ℕ) × (get i xs ≡ some x)
unfolding get count_of
get-lt i [] h = ground arith
get-lt zero (x ∷ xs) h = (x, refl)
get-lt (suc i) (x ∷ xs) h = get-lt i xs (omega arith)

-- A swap of two places of the code.
passing-swap :
    (i j : ℕ) (xs : List ℕ)
    → i < count_of xs
    → j < count_of xs
    → (ys : List ℕ) × (swap i j xs ≡ some ys)
      × (count_of ys ≡ count_of xs)
      × ((p : ℕ → Bool) → passing p ys ≡ passing p xs)
unfolding swap
passing-swap i j xs hi hj =
    let (x, at_i) = get-lt i xs hi in
    let (y, at_j) = get-lt j xs hj in
    (
      set j x (set i y xs),
      then_-some _ at_i (then_-some _ at_j refl),
      count_of-set j x (set i y xs) ∙ count_of-set i y xs,
      λ p.
          let first = passing-set p i y x xs at_i in
          let second = passing-set p j x y (set i y xs) (get-set i j x y xs at_i at_j) in
          omega arith,
    )

-- A source of randomness that does not fail and draws below the bound.
unfoldable pub IsSource : (ℕ → ℕ → Option ℕ) → Type 0
IsSource draws = (n max : ℕ) → 0 < max → (v : ℕ) × (draws n max ≡ some v) × v < max

pub passing-shuffle :
    (draws : ℕ → ℕ → Option ℕ)
    → IsSource draws
    → (i n : ℕ) (xs : List ℕ) → i < count_of xs
    → (ys : List ℕ) × (shuffle draws i n xs ≡ some ys)
      × (count_of ys ≡ count_of xs)
      × ((p : ℕ → Bool) → passing p ys ≡ passing p xs)
unfolding shuffle IsSource
passing-shuffle draws source zero n xs h = (xs, refl, refl, λ p. refl)
passing-shuffle draws source (suc i) n xs h =
    let (j, drawn, below) = source n (suc i + 1) (omega arith) in
    let (ys, swapped, length_ys, passing_ys) = passing-swap (suc i) j xs h (omega arith) in
    let (zs, shuffled, length_zs, passing_zs) =
      passing-shuffle draws source i (n + 1) ys (omega arith) in
    (
      zs,
      then_-some _ drawn (then_-some _ swapped shuffled),
      length_zs ∙ length_ys,
      λ p. passing_zs p ∙ passing_ys p,
    )
