-- ===== src/Repository/Users.antt =====
-- internal/repository/user.go: accounts, their roles and the versions of their access tokens.
pub mod Versions
pub mod Lookups
use jd_shop_server.Common.{
  ℕ, suc, ◌+◌, String, Bool, false, ◌&&◌, ◌||◌, Option, none, some, List, [], ◌∷◌, ◌==◌, str_eq,
  if◌then◌else◌, find, update_where, delete_where, is_some,
}
use jd_shop_server.Time.{Timestamp, format_rfc3339, sqlite_datetime}
use jd_shop_server.Model.{User, Role}
use jd_shop_server.Db.{
  Db, AuthVersionRow, Link, M, pure, ◌>>=◌, ◌>>◌, when, query, exec, insert_row, transaction,
  attempt,
}

abbrev pub has_id : ℕ → User → Bool
has_id id u = u.id == id

abbrev pub has_username : String → User → Bool
has_username name u = str_eq u.username name

-- `phone = ?`, which no NULL passes.
abbrev pub is_phone : String → Option String → Bool
is_phone phone none = false
is_phone phone (some p) = str_eq p phone

abbrev pub has_phone : String → User → Bool
has_phone phone u = is_phone phone u.phone

abbrev pub is_of : ℕ → AuthVersionRow → Bool
is_of id r = r.user_id == id

-- A unique index on the phone has no entry for NULL.
abbrev pub phone_taken_in : List User → Option String → Bool
phone_taken_in users none = false
phone_taken_in users (some p) = is_some (find (has_phone p) users)

abbrev pub username_or_phone_taken : User → Db → Bool
username_or_phone_taken user db =
    is_some (find (has_username user.username) db.users) || phone_taken_in db.users user.phone

unfoldable pub create : User → ℕ → M ℕ
create user now = transaction do
  id ← insert_row (username_or_phone_taken user) λ db. (
    db.next_user,
    record db {
      users =
          record user {
            id = db.next_user;
            last_login_at = none;
            created_at = sqlite_datetime now;
            updated_at = sqlite_datetime now;
          }
          ∷ db.users;
      next_user = suc db.next_user;
    },
  )
  insert_row (λ db. is_some (find (is_of id) db.auth_versions))
      λ db. (
        tt,
        record db {
          auth_versions =
              record { user_id = id; version = 1; updated_at = sqlite_datetime now }
              ∷ db.auth_versions;
        },
      )
  pure id

-- The names of the roles that the links of a user lead to.
unfoldable pub role_names : List Role → ℕ → List Link → List String
role_names roles id [] = []
role_names roles id (l ∷ ls) =
    let rest = role_names roles id ls in
    if l.left == id
    then elim (find (λ (r : Role). r.id == l.right) roles) [ none ↦ rest | some r ↦ r.name ∷ rest ]
    else rest

unfoldable pub user_roles : ℕ → M (List String)
user_roles id = query (λ db. role_names db.roles id db.user_roles)

unfoldable pub with_roles : Option User → M (Option User)
with_roles none = pure none
with_roles (some user) = do
  roles ← attempt [] (user_roles user.id)
  pure (some (record user { roles = roles }))

unfoldable pub find_by_username : String → M (Option User)
find_by_username name = do found ← query (λ db. find (has_username name) db.users); with_roles found

unfoldable pub find_by_phone : String → M (Option User)
find_by_phone phone = do found ← query (λ db. find (has_phone phone) db.users); with_roles found

unfoldable pub find_by_id : ℕ → M (Option User)
find_by_id id = do found ← query (λ db. find (has_id id) db.users); with_roles found

-- `INSERT OR IGNORE INTO user_auth_versions … VALUES (id, 1, now)`.
unfoldable pub ensure_version : ℕ → Timestamp → List AuthVersionRow → List AuthVersionRow
ensure_version id now rows =
    if is_some (find (is_of id) rows)
    then rows
    else record { user_id = id; version = 1; updated_at = now } ∷ rows

-- `UPDATE user_auth_versions SET version = version + 1 …`.
unfoldable pub bump_version : ℕ → Timestamp → List AuthVersionRow → List AuthVersionRow
bump_version id now =
    update_where (is_of id) (λ r. record r { version = r.version + 1; updated_at = now })

abbrev pub version_or_first : Option AuthVersionRow → ℕ
version_or_first none = 1
version_or_first (some r) = r.version

-- The version that access tokens of a user must have, 1 where no row says another.
unfoldable pub version_of : ℕ → Db → ℕ
version_of id db = version_or_first (find (is_of id) db.auth_versions)

-- The two statements that make every access token of a user stale.
unfoldable pub revoke_access_tokens : ℕ → ℕ → M (Unit {0})
revoke_access_tokens id now = do
  exec (λ db. record db { auth_versions = ensure_version id (format_rfc3339 now) db.auth_versions })
  exec (λ db. record db { auth_versions = bump_version id (format_rfc3339 now) db.auth_versions })

unfoldable pub update_status : ℕ → ℕ → ℕ → M (Unit {0})
update_status id status now = transaction do
  exec λ db. record db {
    users =
        update_where (has_id id)
          (λ u. record u { status = status; updated_at = format_rfc3339 now }) db.users;
  }
  when (status == 0) (revoke_access_tokens id now)

unfoldable pub auth_version : ℕ → M ℕ
auth_version id = query (version_of id)

abbrev pub state_of : ℕ → Option User → Option (ℕ × ℕ)
state_of version none = none
state_of version (some u) = some (u.status, version)

-- The status and the version of a user, if there is one.
unfoldable pub token_state : ℕ → M (Option (ℕ × ℕ))
token_state id = query (λ db. state_of (version_of id db) (find (has_id id) db.users))

-- `COALESCE(?, column)`.
abbrev pub coalesce : Option String → Option String → Option String
coalesce none old = old
coalesce (some new) old = some new

unfoldable pub update_profile : ℕ → Option String → Option String → Option String → ℕ → M (Unit {0})
update_profile id nickname email avatar_url now = exec λ db. record db {
  users =
      update_where (has_id id)
        (λ u. record u {
          nickname = coalesce nickname u.nickname;
          email = coalesce email u.email;
          avatar_url = coalesce avatar_url u.avatar_url;
          updated_at = format_rfc3339 now;
        })
        db.users;
}

unfoldable pub update_password : ℕ → String → ℕ → M (Unit {0})
update_password id hash now = transaction do
  exec λ db. record db {
    users =
        update_where (has_id id)
          (λ u. record u { password_hash = hash; updated_at = format_rfc3339 now }) db.users;
  }
  revoke_access_tokens id now

unfoldable pub update_last_login : ℕ → ℕ → M (Unit {0})
update_last_login id now = exec λ db. record db {
  users =
      update_where (has_id id) (λ u. record u { last_login_at = some (format_rfc3339 now) })
        db.users;
}

abbrev pub same_link : ℕ → ℕ → Link → Bool
same_link left right l = l.left == left && l.right == right

-- `INSERT OR IGNORE` of a link.
unfoldable pub add_link : ℕ → ℕ → List Link → List Link
add_link left right ls =
    if is_some (find (same_link left right) ls)
    then ls
    else record { left = left; right = right } ∷ ls

unfoldable pub add_roles : ℕ → List ℕ → M (Unit {0})
add_roles id [] = pure tt
add_roles id (role ∷ roles) = do
  exec (λ db. record db { user_roles = add_link id role db.user_roles })
  add_roles id roles

unfoldable pub assign_roles : ℕ → List ℕ → M (Unit {0})
assign_roles id roles = transaction do
  exec (λ db. record db { user_roles = delete_where (λ l. l.left == id) db.user_roles })
  add_roles id roles
