-- ===== src/Repository/Users/Versions.antt =====
-- The version of a user's access tokens never falls (internal/repository/user.go).
use jd_shop_server.Common.{
  ℕ, ◌+◌, ◌≤◌, ◌≡◌, refl, false, none, some, List, ◌∷◌, arith, ◌==◌, find, is_some,
  find-update_where, updated, Option-cases, inl, Bool-cases, ==_refl, ==→eq, inr, find_passes,
}
use jd_shop_server.Time.{Timestamp, format_rfc3339}
use jd_shop_server.Db.Laws.{keeps_bind, keeps_exec}
use jd_shop_server.Db.{Db, AuthVersionRow, Keeps, exec}
use jd_shop_server.Repository.Users.{
  is_of, ensure_version, bump_version, version_or_first, version_of, revoke_access_tokens,
}

abbrev pub in_rows : ℕ → List AuthVersionRow → ℕ
in_rows id rows = version_or_first (find (is_of id) rows)

in_rows-ensure_version :
    (id j : ℕ) (now : Timestamp) (rows : List AuthVersionRow)
    → in_rows id (ensure_version j now rows) ≡ in_rows id rows
unfolding ensure_version find
in_rows-ensure_version id j now rows = elim (Option-cases (find (is_of j) rows)) [
  | inl absent ↦ elim (Bool-cases (j == id)) [
    | inl same ↦
        let eq : j ≡ id = ==→eq j id same in
        let none_id : find (is_of id) rows ≡ none = rw eq at absent in ground arith
    | inr other ↦ ground arith
  ]
  | inr (r, present) ↦ ground arith
]

find-ensure_version :
    (id : ℕ) (now : Timestamp) (rows : List AuthVersionRow)
    → (r : AuthVersionRow) × (find (is_of id) (ensure_version id now rows) ≡ some r)
unfolding ensure_version find
find-ensure_version id now rows = elim (Option-cases (find (is_of id) rows)) [
  | inl absent ↦
      (record { user_id = id; version = 1; updated_at = now }, ground (arith, ==_refl id))
  | inr (r, present) ↦ (r, ground arith)
]

abbrev bumped : Timestamp → AuthVersionRow → AuthVersionRow
bumped now r = record r { version = r.version + 1; updated_at = now }

find-bump_version :
    (id j : ℕ) (now : Timestamp) (rows : List AuthVersionRow)
    → find (is_of id) (bump_version j now rows)
      ≡ updated (is_of j) (bumped now) (find (is_of id) rows)
unfolding bump_version
find-bump_version id j now rows =
    find-update_where (is_of id) (is_of j) (bumped now) rows (λ r. refl)

in_rows-bump_version :
    (id j : ℕ) (now : Timestamp) (rows : List AuthVersionRow)
    → in_rows id rows ≤ in_rows id (bump_version j now rows)
in_rows-bump_version id j now rows = ground (arith, find-bump_version id j now rows)

-- The two statements that revoke the tokens of a user raise the version by one.
pub in_rows_revoked :
    (id : ℕ) (now : Timestamp) (rows : List AuthVersionRow)
    → in_rows id (bump_version id now (ensure_version id now rows)) ≡ in_rows id rows + 1
in_rows_revoked id now rows =
    let (r, found) = find-ensure_version id now rows in
    let same = in_rows-ensure_version id id now rows in
    let is_own = find_passes (is_of id) (ensure_version id now rows) found in
    ground (arith, find-bump_version id id now (ensure_version id now rows))

-- A row for a user that has none hides no version.
pub in_rows_fresh :
    (id j : ℕ) (now : Timestamp) (rows : List AuthVersionRow)
    → is_some (find (is_of j) rows) ≡ false
    → in_rows id (record { user_id = j; version = 1; updated_at = now } ∷ rows) ≡ in_rows id rows
unfolding find
in_rows_fresh id j now rows free = elim (Bool-cases (j == id)) [
  | inl same ↦
      let eq : j ≡ id = ==→eq j id same in
      let none_id : is_some (find (is_of id) rows) ≡ false = rw eq at free in ground arith
  | inr other ↦ ground arith
]

module _ (id v : ℕ) where
  -- The version of the user is at least `v`.
  abbrev pub AtLeast : Db → Type 0
  AtLeast db = v ≤ version_of id db

  pub keeps_revoke_access_tokens : (j now : ℕ) → Keeps AtLeast (revoke_access_tokens j now)
  unfolding revoke_access_tokens version_of
  keeps_revoke_access_tokens j now =
      let t = format_rfc3339 now in
      keeps_bind AtLeast (exec _) _
        (keeps_exec AtLeast _
          (λ db p. omega (arith, in_rows-ensure_version id j t db.auth_versions)))
        λ _.
          keeps_exec AtLeast _ (λ db p. omega (arith, in_rows-bump_version id j t db.auth_versions))
