-- ===== src/Repository/Versions/Sound.antt =====
-- What keeps the latest version of each platform unique (internal/repository/version.go).
use jd_shop_server.Common.{
  ℕ, suc, ◌≤◌, String, true, false, not, ◌&&◌, ◌≡◌, refl, Option, none, some, List, [], ◌∷◌, ◌==◌,
  str_eq, str_eq_refl, eq_iff, ltb, if◌then◌else◌, find, update_where, delete_where, count_where,
  arith, Bool-cases, inl, inr,
}
use jd_shop_server.Time.{sqlite_datetime}
use jd_shop_server.Model.{AppVersion}
use jd_shop_server.Db.{Db}
use jd_shop_server.Repository.Versions.{
  has_id, is_latest_of, is_platform, VersionPatch, is_one, patched, patch_row, clear, clear_others,
  promote, greatest, marked,
}
use jd_shop_server.Repository.Versions.Latest.{
  latest-clear_others, latest-clear_others_le, latest-clear, latest-clear_le, latest-update_where,
  latest-patch_row, latest-delete_where, latest-delete_where_found, of_two_platforms,
  of_platform_le, ids-update_where, ids-delete_where, found_counts, greatest_counts, is_of_platform,
}

-- How often an id may occur.
abbrev pub bound : ℕ → ℕ → ℕ
bound id next = if ltb id next then 1 else 0

-- At most one row of each platform is the latest, and no id occurs twice or is yet to be given out.
abbrev pub IsSound : Db → Type 0
IsSound db =
    ((p : String) → count_where (is_latest_of p) db.app_versions ≤ 1)
    × ((id : ℕ) → count_where (has_id id) db.app_versions ≤ bound id db.next_version)

-- An update of one row of its platform after the latest of that platform was cleared.
module _ (q : String) (id : ℕ) (f : AppVersion → AppVersion)
    (same_platform : (v : AppVersion) → (f v).platform ≡ v.platform) where
  one_marked :
      (vs : List AppVersion) (p : String)
      → count_where (is_latest_of q) vs ≡ 0
      → count_where (is_latest_of p) vs ≤ 1
      → count_where (has_id id) vs ≤ 1
      → 1 ≤ count_where (is_of_platform id q) vs
      → count_where (is_latest_of p) (update_where (has_id id) f vs) ≤ 1
  one_marked vs p cleared before unique here =
      let grown = latest-update_where p id f vs same_platform in
      elim (Bool-cases (str_eq q p)) [
        | inl same ↦
            let eq : q ≡ p = (eq_iff q p).0 same in
            let none_of_p : count_where (is_latest_of p) vs ≡ 0 = rw eq at cleared in
            let few = of_platform_le p id vs in omega arith
        | inr other ↦ let apart = of_two_platforms p q id vs other in omega arith
      ]

of_platform-clear :
    (q : String) (id : ℕ) (vs : List AppVersion)
    → count_where (is_of_platform id q) (clear q vs) ≡ count_where (is_of_platform id q) vs
unfolding clear update_where count_where
of_platform-clear q id [] = refl
of_platform-clear q id (v ∷ vs) = ground (arith, of_platform-clear q id vs)

clear_others_own :
    (q : String) (id : ℕ) (v : AppVersion) (vs : List AppVersion)
    → (v.id == id) ≡ true
    → clear_others q id (v ∷ vs) ≡ v ∷ clear_others q id vs
unfolding clear_others update_where
clear_others_own q id v vs own =
    let kept : (is_platform q v && not (has_id id v)) ≡ false = ground arith in rw kept refl

ids-clear_others :
    (q : String) (id i : ℕ) (vs : List AppVersion)
    → count_where (has_id i) (clear_others q id vs) ≡ count_where (has_id i) vs
unfolding clear_others
ids-clear_others q id i vs = ids-update_where i _ (marked 0) vs (λ u. refl)

-- The new row of a platform, the others cleared.
pub IsSound-insert :
    (db : Db) (v : AppVersion)
    → v.id ≡ db.next_version
    → v.is_latest ≡ 1
    → IsSound db
    → IsSound (record db {
      app_versions = clear_others v.platform db.next_version (v ∷ db.app_versions);
      next_version = suc db.next_version;
    })
unfolding count_where
IsSound-insert db v new latest (one, ids) =
    let own : (v.id == db.next_version) ≡ true = ground arith in
    let shape = clear_others_own v.platform db.next_version v db.app_versions own in
    (
      λ p. elim (Bool-cases (str_eq v.platform p)) [
        | inl same ↦
            let eq : v.platform ≡ p = (eq_iff _ _).0 same in
            let before = ids db.next_version in
            let none_left : count_where (has_id db.next_version) db.app_versions ≤ 0 =
              ground arith in
            let rest : count_where (is_latest_of p)
                  (clear_others v.platform db.next_version db.app_versions)
                ≤ count_where (has_id db.next_version) db.app_versions =
              rw eq (latest-clear_others p db.next_version db.app_versions) in
            rw (shape, same, latest) (ground arith)
        | inr other ↦
            let rest = latest-clear_others_le p v.platform db.next_version db.app_versions in
            let before = one p in rw (shape, other) (ground arith)
      ],
      λ id.
          let rest = ids-clear_others v.platform db.next_version id db.app_versions in
          let before = ids id in rw shape (ground arith),
    )

abbrev pub inserted : AppVersion → ℕ → Db → Db
inserted v now db = record db {
  app_versions =
      record v { id = db.next_version; is_latest = 1; created_at = sqlite_datetime now }
      ∷ db.app_versions;
  next_version = suc db.next_version;
}

abbrev pub others_cleared : String → ℕ → Db → Db
others_cleared platform id db = record db {
  app_versions = clear_others platform id db.app_versions;
}

bound_le : (id next : ℕ) → bound id next ≤ 1
bound_le id next = ground arith

abbrev pub patched_in : ℕ → VersionPatch → Db → Db
patched_in id patch db = record db { app_versions = patch_row id patch db.app_versions }

pub IsSound-patch :
    (id : ℕ) (patch : VersionPatch) (db : Db)
    → is_one patch.is_latest ≡ false
    → IsSound db
    → IsSound (patched_in id patch db)
unfolding patch_row
IsSound-patch id patch db no_one (one, ids) = (
  λ p.
      let less = latest-patch_row p id patch db.app_versions no_one in
      let before = one p in omega arith,
  λ i.
      let same = ids-update_where i (has_id id) (patched patch) db.app_versions (λ v. refl) in
      let before = ids i in omega arith,
)

abbrev pub cleared_in : String → Db → Db
cleared_in platform db = record db { app_versions = clear platform db.app_versions }

-- The row that was found becomes the only latest of its platform.
pub IsSound-mark :
    (id : ℕ) (patch : VersionPatch) (db : Db) (v : AppVersion)
    → find (has_id id) db.app_versions ≡ some v
    → IsSound db
    → IsSound (patched_in id patch (cleared_in v.platform db))
unfolding patch_row clear
IsSound-mark id patch db v found (one, ids) =
    let q = v.platform in
    let vs = db.app_versions in
    let kept_ids = λ (i : ℕ). ids-update_where i (is_platform q) (marked 0) vs (λ u. refl) in
    (
      λ p.
          let less = latest-clear_le p q vs in
          let before = one p in
          let unique = ids id in
          let low = bound_le id db.next_version in
          let same = kept_ids id in
          let here = found_counts id vs found in
          let still = of_platform-clear q id vs in
          one_marked q id (patched patch) (λ u. refl) (clear q vs) p (latest-clear q vs)
            (omega arith) (omega arith) (omega arith),
      λ i.
          let same = ids-update_where i (has_id id) (patched patch) (clear q vs) (λ u. refl) in
          let cleared = kept_ids i in let before = ids i in omega arith,
    )

abbrev pub deleted_in : ℕ → Db → Db
deleted_in id db = record db { app_versions = delete_where (has_id id) db.app_versions }

pub IsSound-delete : (id : ℕ) (db : Db) → IsSound db → IsSound (deleted_in id db)
IsSound-delete id db (one, ids) = (
  λ p. let less = latest-delete_where p id db.app_versions in let before = one p in omega arith,
  λ i.
      let less = ids-delete_where i (has_id id) db.app_versions in
      let before = ids i in omega arith,
)

abbrev pub promoted_in : String → Db → Db
promoted_in q db = record db {
  app_versions = promote (greatest (is_platform q) db.app_versions) db.app_versions;
}

promote_kept :
    (q : String) (db : Db) (best : Option AppVersion)
    → greatest (is_platform q) db.app_versions ≡ best
    → count_where (is_latest_of q) db.app_versions ≡ 0
    → IsSound db
    → IsSound (record db { app_versions = promote best db.app_versions })
unfolding promote
promote_kept q db none is_best cleared p = p
promote_kept q db (some b) is_best cleared (one, ids) = (
  λ p.
      let unique = ids b.id in
      let low = bound_le b.id db.next_version in
      one_marked q b.id (marked 1) (λ u. refl) db.app_versions p cleared (one p) (omega arith)
        (greatest_counts q db.app_versions is_best),
  λ i.
      let same = ids-update_where i (has_id b.id) (marked 1) db.app_versions (λ u. refl) in
      let before = ids i in omega arith,
)

pub IsSound-delete_latest :
    (id : ℕ) (db : Db) (v : AppVersion)
    → find (has_id id) db.app_versions ≡ some v
    → (v.is_latest == 1) ≡ true
    → IsSound db
    → IsSound (promoted_in v.platform (deleted_in id db))
IsSound-delete_latest id db v found latest (one, ids) =
    let own : is_latest_of v.platform v ≡ true = rw (str_eq_refl v.platform) latest in
    let fewer = latest-delete_where_found v.platform id db.app_versions found own in
    let before = one v.platform in
    promote_kept v.platform (deleted_in id db) _ refl (omega arith)
      (IsSound-delete id db (one, ids))
