-- ===== src/Repository/Users/Lookups.antt =====
-- What the lookups of internal/repository/user.go find.
use jd_shop_server.Common.{ℕ, ◌≡◌, refl, String, Option, none, some, find, List, Bool}
use jd_shop_server.Model.{User}
use jd_shop_server.Repository.Users.{user_roles}
use jd_shop_server.Db.Laws.{keeping, keeps_query}
use jd_shop_server.Db.{Keeps, query, Db, World, ok, ◌>>=◌, query}
use jd_shop_server.Db.Success.{bind-eq-ok, query-eq-ok, pure-eq-ok}
use jd_shop_server.Repository.Users.{
  has_id, has_username, has_phone, with_roles, find_by_id, find_by_username, find_by_phone,
}

-- The user found is the first row that passes, but for its roles.
with_roles-eq-some :
    (found : Option User) (w : World) {u : User} {w' : World}
    → with_roles found w ≡ (ok (some u), w')
    → (u₀ : User) × (roles : List String) × (found ≡ some u₀) × (u ≡ record u₀ { roles = roles })
unfolding with_roles
with_roles-eq-some none w h = let (absurd, _) = pure-eq-ok _ w h in cc
with_roles-eq-some (some u₀) w h =
    let (roles, w₁, _, h₁) = bind-eq-ok _ _ w h in
    let (same, _) = pure-eq-ok _ w₁ h₁ in (u₀, roles, refl, cc)

-- A row `u₀` of the users that passes `p`, and what a lookup makes of it.
abbrev pub FoundBy : (User → Bool) → Db → User → Type 0
FoundBy p db u =
    (u₀ : User) × (roles : List String) × (find p db.users ≡ some u₀)
    × (u ≡ record u₀ { roles = roles })

look_up :
    (p : User → Bool) (w : World) {u : User} {w' : World}
    → (query (λ db. find p db.users) >>= with_roles) w ≡ (ok (some u), w')
    → FoundBy p w.db u
look_up p w h =
    let (found, w₁, read, rest) = bind-eq-ok _ _ w h in
    let (same, _) = query-eq-ok _ w read in
    let (u₀, roles, is_u₀, is_u) = with_roles-eq-some found w₁ rest in (u₀, roles, cc, is_u)

pub find_by_id-eq-some :
    (id : ℕ) (w : World) {u : User} {w' : World}
    → find_by_id id w ≡ (ok (some u), w')
    → FoundBy (has_id id) w.db u
unfolding find_by_id
find_by_id-eq-some id w h = look_up _ w h

pub find_by_username-eq-some :
    (name : String) (w : World) {u : User} {w' : World}
    → find_by_username name w ≡ (ok (some u), w')
    → FoundBy (has_username name) w.db u
unfolding find_by_username
find_by_username-eq-some name w h = look_up _ w h

pub find_by_phone-eq-some :
    (phone : String) (w : World) {u : User} {w' : World}
    → find_by_phone phone w ≡ (ok (some u), w')
    → FoundBy (has_phone phone) w.db u
unfolding find_by_phone
find_by_phone-eq-some phone w h = look_up _ w h

-- A lookup changes nothing, so that it keeps every property.
module _ (P : Db → Type 0) where
  reads_user_roles : (id : ℕ) → Keeps P (user_roles id)
  unfolding user_roles
  reads_user_roles id = keeps_query P _

  reads_with_roles : (found : Option User) → Keeps P (with_roles found)
  unfolding with_roles
  reads_with_roles none = search keeping
  reads_with_roles (some user) = search (keeping, reads_user_roles)

  pub reads_find_by_id : (id : ℕ) → Keeps P (find_by_id id)
  unfolding find_by_id
  reads_find_by_id id = search (keeping, reads_with_roles)

  pub reads_find_by_username : (name : String) → Keeps P (find_by_username name)
  unfolding find_by_username
  reads_find_by_username name = search (keeping, reads_with_roles)

  pub reads_find_by_phone : (phone : String) → Keeps P (find_by_phone phone)
  unfolding find_by_phone
  reads_find_by_phone phone = search (keeping, reads_with_roles)
