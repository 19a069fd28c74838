-- ===== src/Service/Admin/Protection.antt =====
-- What the console cannot do (internal/service/admin.go).
use jd_shop_server.Common.{
  ℕ, String, false, ◌≡◌, ◌≢◌, refl, sym, ap, ◌∙◌, Option, none, some, str_eq, find, str_eq_refl,
}
use jd_shop_server.Model.{User, Role, UpdateRoleRequest}
use jd_shop_server.Db.{Db, World, ok, Keeps}
use jd_shop_server.Db.Success.{bind-eq-ok, query-eq-ok, pure-eq-ok, fail-ne-ok, reject-eq-ok}
use jd_shop_server.Db.Laws.{kept_at, keeping, keeps_query}
use jd_shop_server.Repository.Users.{has_id}
use jd_shop_server.Repository.Users.Lookups.{find_by_id-eq-some, reads_find_by_id}
use jd_shop_server.Repository.Roles
use jd_shop_server.Service.Users.{user_or_fail}
use jd_shop_server.Common.{delete_where}
use jd_shop_server.Db.Success.{exec-eq-ok}
use jd_shop_server.Service.Admin.{
  is_admin_role, ordinary_user, update_user_status, role_or_fail, ordinary_role, update_role,
  delete_role,
}

-- The user is there, and is not the super administrator.
abbrev pub IsOrdinary : String → ℕ → Db → Type 0
IsOrdinary super id db = (u : User) × (find (has_id id) db.users ≡ some u) × (u.username ≢ super)

user_or_fail-ok :
    (found : Option User) (w : World) {u : User} {w' : World}
    → user_or_fail found w ≡ (ok u, w')
    → (found ≡ some u) × (w' ≡ w)
unfolding user_or_fail
user_or_fail-ok none w h = elim (fail-ne-ok _ _ w h) [ ]
user_or_fail-ok (some u) w h = let (same, kept) = pure-eq-ok _ w h in (ap some same, sym kept)

not_equal : (s t : String) → str_eq s t ≡ false → s ≢ t
not_equal s t differ e =
    let same : str_eq t t ≡ false = rw e at differ in let yes_same = str_eq_refl t in cc

pub ordinary_user-ok :
    (super : String) (id : ℕ) (w : World) {u : User} {w' : World}
    → ordinary_user super id w ≡ (ok u, w')
    → IsOrdinary super id w.db
unfolding ordinary_user
ordinary_user-ok super id w h =
    let (found, w₁, looked, h₁) = bind-eq-ok _ _ w h in
    let (user, w₂, there, h₂) = bind-eq-ok _ _ w₁ h₁ in
    let (is_user, same) = user_or_fail-ok found w₁ there in
    let (_, w₃, checked, h₃) = bind-eq-ok _ _ w₂ h₂ in
    let (other, _) = reject-eq-ok _ _ w₂ checked in
    let (u₀, roles, is_u₀, of_u₀) = find_by_id-eq-some id w (rw is_user at looked) in
    let name : user.username ≡ u₀.username = ap (λ (x : User). x.username) of_u₀ in
    (u₀, is_u₀, rw (← name) (not_equal _ _ other))

-- The console changes the status of no account but one that is there and is not the super
-- administrator's.
pub update_user_status-ok :
    (super : String) (id status now : ℕ) (w : World) {w' : World}
    → update_user_status super id status now w ≡ (ok tt, w')
    → IsOrdinary super id w.db
unfolding update_user_status
update_user_status-ok super id status now w h =
    let (_, _, first, _) = bind-eq-ok _ _ w h in ordinary_user-ok super id w first

-- No role of the database that has the id is named "admin".
abbrev pub NotReserved : Db → ℕ → Type 0
NotReserved db id = is_admin_role (find (Roles.has_id id) db.roles) ≡ false

with_permissions-name :
    (found : Option Role) (w : World) {role : Option Role} {w' : World}
    → Roles.with_permissions found w ≡ (ok role, w')
    → is_admin_role found ≡ is_admin_role role
unfolding Roles.with_permissions
with_permissions-name none w h = let (same, _) = pure-eq-ok _ w h in ap is_admin_role same
with_permissions-name (some r) w h =
    let (ps, w₁, _, rest) = bind-eq-ok _ _ w h in
    let (same, _) = pure-eq-ok _ w₁ rest in ap is_admin_role same

find_role-name :
    (id : ℕ) (w : World) {role : Option Role} {w' : World}
    → Roles.find_by_id id w ≡ (ok role, w')
    → is_admin_role (find (Roles.has_id id) w.db.roles) ≡ is_admin_role role
unfolding Roles.find_by_id
find_role-name id w h =
    let (found, w₁, read, rest) = bind-eq-ok _ _ w h in
    let (same, _) = query-eq-ok _ w read in
    ap is_admin_role (sym same) ∙ with_permissions-name found w₁ rest

reads_role_permissions : (P : Db → Type 0) (id : ℕ) → Keeps P (Roles.role_permissions id)
unfolding Roles.role_permissions
reads_role_permissions P id = keeps_query P _

reads_with_permissions :
    (P : Db → Type 0) (found : Option Role) → Keeps P (Roles.with_permissions found)
unfolding Roles.with_permissions
reads_with_permissions P none = search keeping
reads_with_permissions P (some r) = search (keeping, reads_role_permissions)

reads_find_role : (P : Db → Type 0) (id : ℕ) → Keeps P (Roles.find_by_id id)
unfolding Roles.find_by_id
reads_find_role P id = search (keeping, reads_with_permissions)

reads_user_or_fail : (P : Db → Type 0) (found : Option User) → Keeps P (user_or_fail found)
unfolding user_or_fail
reads_user_or_fail P none = search keeping
reads_user_or_fail P (some u) = search keeping

reads_role_or_fail : (P : Db → Type 0) (found : Option Role) → Keeps P (role_or_fail found)
unfolding role_or_fail
reads_role_or_fail P none = search keeping
reads_role_or_fail P (some r) = search keeping

reads_ordinary_role : (P : Db → Type 0) (id : ℕ) → Keeps P (ordinary_role id)
unfolding ordinary_role
reads_ordinary_role P id = search (keeping, reads_find_role, reads_role_or_fail)

pub reads_ordinary_user :
    (P : Db → Type 0) (super : String) (id : ℕ) → Keeps P (ordinary_user super id)
unfolding ordinary_user
reads_ordinary_user P super id = search (keeping, reads_find_by_id, reads_user_or_fail)

role_or_fail-ok :
    (found : Option Role) (w : World) {r : Role} {w' : World}
    → role_or_fail found w ≡ (ok r, w')
    → found ≡ some r
unfolding role_or_fail
role_or_fail-ok none w h = elim (fail-ne-ok _ _ w h) [ ]
role_or_fail-ok (some r) w h = let (same, _) = pure-eq-ok _ w h in ap some same

ordinary_role-ok :
    (id : ℕ) (w : World) {r : Role} {w' : World}
    → ordinary_role id w ≡ (ok r, w')
    → NotReserved w.db id
unfolding ordinary_role
ordinary_role-ok id w h =
    let (found, w₁, looked, h₁) = bind-eq-ok _ _ w h in
    let (r, w₂, there, h₂) = bind-eq-ok _ _ w₁ h₁ in
    let is_r = role_or_fail-ok found w₁ there in
    let (_, w₃, checked, _) = bind-eq-ok _ _ w₂ h₂ in
    let (other, _) = reject-eq-ok _ _ w₂ checked in
    find_role-name id w looked ∙ ap is_admin_role is_r ∙ other

-- A change of a role succeeds only where the role that a search for the id finds, if any, is not
-- named "admin".
pub update_role-ok :
    (id : ℕ) (req : UpdateRoleRequest) (w : World) {r : Option Role} {w' : World}
    → update_role id req w ≡ (ok r, w')
    → NotReserved w.db id
unfolding update_role
update_role-ok id req w h = let (_, _, first, _) = bind-eq-ok _ _ w h in ordinary_role-ok id w first

-- A deletion of a role that succeeds removes the rows with the id and changes nothing else, and the
-- role that a search for the id found, if any, is not named "admin".
pub delete_role-ok :
    (id : ℕ) (w : World) {w' : World}
    → delete_role id w ≡ (ok tt, w')
    → NotReserved w.db id
      × (w'.db ≡ record w.db { roles = delete_where (Roles.has_id id) w.db.roles })
unfolding delete_role Roles.delete
delete_role-ok id w h =
    let P : Db → Type 0 = λ db. db ≡ w.db in
    let (_, w₁, first, rest) = bind-eq-ok _ _ w h in
    let same : w₁.db ≡ w.db = kept_at P (reads_ordinary_role P id) w first refl in
    (
      ordinary_role-ok id w first,
      exec-eq-ok _ w₁ rest
          ∙ ap (λ (db : Db). record db { roles = delete_where (Roles.has_id id) db.roles }) same,
    )
