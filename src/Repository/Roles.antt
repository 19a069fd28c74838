-- ===== src/Repository/Roles.antt =====
-- internal/repository/role.go: roles and the permissions that they link to. A table of links to a
-- role that is gone is never joined to another, since ids are not reused.
use jd_shop_server.Common.{
  ℕ, suc, String, Bool, false, not, ◌&&◌, Option, none, some, List, [], ◌∷◌, ◌==◌, str_eq,
  if◌then◌else◌, find, update_where, delete_where, is_some, insert_by, order_by,
}
use jd_shop_server.Time.{sqlite_datetime}
use jd_shop_server.Model.{Role, Permission}
use jd_shop_server.Db.{
  Db, Link, M, pure, ◌>>=◌, ◌>>◌, query, exec, insert_row, transaction, attempt,
}
use jd_shop_server.Repository.Users.{add_link}

abbrev pub has_id : ℕ → Role → Bool
has_id id r = r.id == id

abbrev pub has_name : String → Role → Bool
has_name name r = str_eq r.name name

-- The permissions that the links of a role lead to, in the order of their ids.
unfoldable pub linked : List Permission → ℕ → List Link → List Permission
linked ps id [] = []
linked ps id (l ∷ ls) =
    let rest = linked ps id ls in
    if l.left == id
    then elim (find (λ (p : Permission). p.id == l.right) ps) [
      | none ↦ rest
      | some p ↦ insert_by (λ (q : Permission). q.id) p rest
    ]
    else rest

unfoldable pub role_permissions : ℕ → M (List Permission)
role_permissions id = query (λ db. linked db.permissions id db.role_permissions)

unfoldable pub with_permissions : Option Role → M (Option Role)
with_permissions none = pure none
with_permissions (some role) = do
  permissions ← attempt [] (role_permissions role.id)
  pure (some (record role { permissions = permissions }))

unfoldable pub find_by_id : ℕ → M (Option Role)
find_by_id id = do found ← query (λ db. find (has_id id) db.roles); with_permissions found

-- The permissions of each role, by a query for each.
unfoldable pub fill : List Role → M (List Role)
fill [] = pure []
fill (role ∷ roles) = do
  permissions ← role_permissions role.id
  rest ← fill roles
  pure (record role { permissions = permissions } ∷ rest)

unfoldable pub list : M (List Role)
list = do roles ← query (λ db. order_by (λ (r : Role). r.id) db.roles); fill roles

unfoldable pub list_all_permissions : M (List Permission)
list_all_permissions = query (λ db. order_by (λ (p : Permission). p.id) db.permissions)

unfoldable pub create : String → Option String → ℕ → M ℕ
create name description now =
    insert_row (λ db. is_some (find (has_name name) db.roles))
      λ db. (
        db.next_role,
        record db {
          roles =
              record {
                id = db.next_role;
                name = name;
                description = description;
                created_at = sqlite_datetime now;
                permissions = [];
              }
              ∷ db.roles;
          next_role = suc db.next_role;
        },
      )

-- Another role has the name.
abbrev pub name_taken_in : List Role → ℕ → Option String → Bool
name_taken_in roles id none = false
name_taken_in roles id (some name) =
    is_some (find (λ (r : Role). has_name name r && not (has_id id r)) roles)

-- The update changes a row, and would give it the name of another.
abbrev pub renames_to_taken : ℕ → Option String → Db → Bool
renames_to_taken id name db = is_some (find (has_id id) db.roles) && name_taken_in db.roles id name

abbrev pub new_or : String → Option String → String
new_or old none = old
new_or old (some new) = new

abbrev pub coalesce : Option String → Option String → Option String
coalesce none old = old
coalesce (some new) old = some new

unfoldable pub update : ℕ → Option String → Option String → M (Unit {0})
update id name description = insert_row (renames_to_taken id name) λ db. (
  tt,
  record db {
    roles =
        update_where (has_id id)
          (λ r. record r {
            name = new_or r.name name;
            description = coalesce description r.description;
          })
          db.roles;
  },
)

unfoldable pub delete : ℕ → M (Unit {0})
delete id = exec (λ db. record db { roles = delete_where (has_id id) db.roles })

unfoldable pub add_permissions : ℕ → List ℕ → M (Unit {0})
add_permissions id [] = pure tt
add_permissions id (p ∷ ps) = do
  exec (λ db. record db { role_permissions = add_link id p db.role_permissions })
  add_permissions id ps

unfoldable pub set_permissions : ℕ → List ℕ → M (Unit {0})
set_permissions id ps = transaction do
  exec λ db. record db { role_permissions = delete_where (λ l. l.left == id) db.role_permissions }
  add_permissions id ps
