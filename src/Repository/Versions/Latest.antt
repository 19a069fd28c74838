-- ===== src/Repository/Versions/Latest.antt =====
-- How many rows of internal/repository/version.go are the latest of a platform.
use jd_shop_server.Common.{
  ℕ, ◌+◌, ◌≤◌, String, Bool, true, false, ◌&&◌, ◌≡◌, refl, sym, ◌∙◌, some, List, [], ◌∷◌, ◌==◌,
  str_eq, ltb, find, update_where, delete_where, select, count_where, arith, Bool-cases,
  Option-cases, inl, inr, eq_iff,
}
use jd_shop_server.Model.{AppVersion}
use jd_shop_server.Repository.Versions.{
  has_id, is_platform, is_latest_of, clear_others, clear, greatest, VersionPatch, is_one, patch_row,
}

-- The rows with the id and the platform.
abbrev pub is_of_platform : ℕ → String → AppVersion → Bool
is_of_platform id p v = has_id id v && is_platform p v

module _ (p : String) where
  pub latest-clear_others :
      (id : ℕ) (vs : List AppVersion)
      → count_where (is_latest_of p) (clear_others p id vs) ≤ count_where (has_id id) vs
  unfolding clear_others count_where update_where
  latest-clear_others id [] = omega arith
  latest-clear_others id (v ∷ vs) = ground (arith, latest-clear_others id vs)

  pub latest-clear_others_le :
      (q : String) (id : ℕ) (vs : List AppVersion)
      → count_where (is_latest_of p) (clear_others q id vs) ≤ count_where (is_latest_of p) vs
  unfolding clear_others count_where update_where
  latest-clear_others_le q id [] = omega arith
  latest-clear_others_le q id (v ∷ vs) = ground (arith, latest-clear_others_le q id vs)

  pub latest-clear : (vs : List AppVersion) → count_where (is_latest_of p) (clear p vs) ≡ 0
  unfolding clear count_where update_where
  latest-clear [] = refl
  latest-clear (v ∷ vs) = ground (arith, latest-clear vs)

  pub latest-clear_le :
      (q : String) (vs : List AppVersion)
      → count_where (is_latest_of p) (clear q vs) ≤ count_where (is_latest_of p) vs
  unfolding clear count_where update_where
  latest-clear_le q [] = omega arith
  latest-clear_le q (v ∷ vs) = ground (arith, latest-clear_le q vs)

  -- An update of the rows with an id makes at most those the latest that have the platform.
  pub latest-update_where :
      (id : ℕ) (f : AppVersion → AppVersion) (vs : List AppVersion)
      → ((v : AppVersion) → (f v).platform ≡ v.platform)
      → count_where (is_latest_of p) (update_where (has_id id) f vs)
        ≤ count_where (is_latest_of p) vs + count_where (is_of_platform id p) vs
  unfolding count_where update_where
  latest-update_where id f [] keep = omega arith
  latest-update_where id f (v ∷ vs) keep = ground (arith, keep v, latest-update_where id f vs keep)

  -- An update that sets no 1 makes none the latest.
  pub latest-patch_row :
      (id : ℕ) (patch : VersionPatch) (vs : List AppVersion)
      → is_one patch.is_latest ≡ false
      → count_where (is_latest_of p) (patch_row id patch vs) ≤ count_where (is_latest_of p) vs
  unfolding patch_row count_where update_where
  latest-patch_row id patch [] h = omega arith
  latest-patch_row id patch (v ∷ vs) h = ground (arith, latest-patch_row id patch vs h)

  pub latest-delete_where :
      (id : ℕ) (vs : List AppVersion)
      → count_where (is_latest_of p) (delete_where (has_id id) vs) ≤ count_where (is_latest_of p) vs
  unfolding delete_where select count_where
  latest-delete_where id [] = omega arith
  latest-delete_where id (v ∷ vs) = ground (arith, latest-delete_where id vs)

  -- With the latest of a platform goes one that counts.
  pub latest-delete_where_found :
      (id : ℕ) (vs : List AppVersion) {v : AppVersion}
      → find (has_id id) vs ≡ some v
      → is_latest_of p v ≡ true
      → count_where (is_latest_of p) (delete_where (has_id id) vs) + 1
        ≤ count_where (is_latest_of p) vs
  unfolding delete_where select count_where find
  latest-delete_where_found id [] found latest = cc
  latest-delete_where_found id (u ∷ us) {v} found latest = elim (Bool-cases (has_id id u)) [
    | inl hit ↦
        let same : some u ≡ some v = rw hit at found in
        let is_latest : is_latest_of p u ≡ true = cc in ground (arith, latest-delete_where id us)
    | inr miss ↦
        let later : find (has_id id) us ≡ some v = rw miss at found in
        ground (arith, latest-delete_where_found id us later latest)
  ]

  -- A row has one platform.
  pub of_two_platforms :
      (q : String) (id : ℕ) (vs : List AppVersion)
      → str_eq q p ≡ false
      → count_where (is_of_platform id p) vs + count_where (is_of_platform id q) vs
        ≤ count_where (has_id id) vs
  unfolding count_where
  of_two_platforms q id [] other = omega arith
  of_two_platforms q id (v ∷ vs) other = elim (Bool-cases (is_platform p v)) [
    | inl on_p ↦
        let eq : v.platform ≡ p = (eq_iff v.platform p).0 on_p in
        let off_q : is_platform q v ≡ false = elim (Bool-cases (is_platform q v)) [
          | inl on_q ↦
              let eq_q : v.platform ≡ q = (eq_iff v.platform q).0 on_q in
              let same : q ≡ p = sym eq_q ∙ eq in
              let clash : str_eq q p ≡ true = (eq_iff q p).1 same in cc
          | inr off ↦ off
        ] in
        ground (arith, of_two_platforms q id vs other)
    | inr off_p ↦ ground (arith, of_two_platforms q id vs other)
  ]

pub of_platform_le :
    (p : String) (id : ℕ) (vs : List AppVersion)
    → count_where (is_of_platform id p) vs ≤ count_where (has_id id) vs
unfolding count_where
of_platform_le p id [] = omega arith
of_platform_le p id (v ∷ vs) = ground (arith, of_platform_le p id vs)

-- An update that keeps the ids keeps how often each occurs.
pub ids-update_where :
    (id : ℕ) (q : AppVersion → Bool) (f : AppVersion → AppVersion) (vs : List AppVersion)
    → ((v : AppVersion) → (f v).id ≡ v.id)
    → count_where (has_id id) (update_where q f vs) ≡ count_where (has_id id) vs
unfolding count_where update_where
ids-update_where id q f [] keep = refl
ids-update_where id q f (v ∷ vs) keep = ground (arith, keep v, ids-update_where id q f vs keep)

pub ids-delete_where :
    (id : ℕ) (q : AppVersion → Bool) (vs : List AppVersion)
    → count_where (has_id id) (delete_where q vs) ≤ count_where (has_id id) vs
unfolding delete_where select count_where
ids-delete_where id q [] = omega arith
ids-delete_where id q (v ∷ vs) = ground (arith, ids-delete_where id q vs)

-- The row that a search finds counts.
pub found_counts :
    (id : ℕ) (vs : List AppVersion) {v : AppVersion}
    → find (has_id id) vs ≡ some v
    → 1 ≤ count_where (is_of_platform id v.platform) vs
unfolding find count_where
found_counts id [] h = cc
found_counts id (u ∷ us) {v} h = elim (Bool-cases (has_id id u)) [
  | inl hit ↦
      let same : some u ≡ some v = rw hit at h in
      let eq : u.platform ≡ v.platform = cc in
      let on : str_eq u.platform v.platform ≡ true = (eq_iff _ _).1 eq in ground arith
  | inr miss ↦
      let later : find (has_id id) us ≡ some v = rw miss at h in
      ground (arith, found_counts id us later)
]

pub greatest_counts :
    (q : String) (vs : List AppVersion) {b : AppVersion}
    → greatest (is_platform q) vs ≡ some b
    → 1 ≤ count_where (is_of_platform b.id q) vs
unfolding greatest count_where
greatest_counts q [] h = cc
greatest_counts q (v ∷ vs) {b} h = elim (Bool-cases (is_platform q v)) [
  | inl on ↦ elim (Option-cases (greatest (is_platform q) vs)) [
    | inl nothing ↦
        let same : some v ≡ some b = rw (on, nothing) at h in
        let is_v : v.id ≡ b.id = cc in
        let hit : (v.id == b.id) ≡ true = ground arith in ground arith
    | inr (c, best) ↦ elim (Bool-cases (ltb v.version_code c.version_code)) [
      | inl below ↦
          let same : some c ≡ some b = rw (on, best, below) at h in
          let is_best : greatest (is_platform q) vs ≡ some b = best ∙ same in
          ground (arith, greatest_counts q vs is_best)
      | inr above ↦
          let same : some v ≡ some b = rw (on, best, above) at h in
          let is_v : v.id ≡ b.id = cc in
          let hit : (v.id == b.id) ≡ true = ground arith in ground arith
    ]
  ]
  | inr off ↦
      let later : greatest (is_platform q) vs ≡ some b = rw off at h in
      ground (arith, greatest_counts q vs later)
]
