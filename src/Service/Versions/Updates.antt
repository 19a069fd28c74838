-- ===== src/Service/Versions/Updates.antt =====
-- The versions of the client over histories of requests, and what a client is told.
use jd_shop_server.Common.{count_where, find, ℕ, Option, none, some, List, [], ◌∷◌}
use jd_shop_server.Model.{AppVersion, CreateVersionRequest, UpdateVersionRequest}
use jd_shop_server.Db.{World, Keeps}
use jd_shop_server.Db.Laws.{keeping, keeps_query}
use jd_shop_server.Repository.Versions
use jd_shop_server.Repository.Versions.{is_latest_of, is_platform, greatest}
use jd_shop_server.Repository.Versions.Sound.{IsSound}
use jd_shop_server.Repository.Versions.Kept.{keeps_create, keeps_update, keeps_delete}
use jd_shop_server.Service.Versions.{
  create_version, update_version, delete_version, version_or_fail,
}
use jd_shop_server.Common.{
  arith, Bool-cases, inl, inr, refl, sym, ap, ◌∙◌, ◌≡◌, ◌≤◌, String, Bool, false, none, some, ltb,
  if◌then◌else◌,
}
use jd_shop_server.Db.{ok}
use jd_shop_server.Db.Success.{bind-eq-ok, query-eq-ok, pure-eq-ok}
use jd_shop_server.Model.{CheckVersionResponse}
use jd_shop_server.Repository.Versions.{is_latest_of, greatest}
use jd_shop_server.Service.Versions.{check_latest, answer}

pub data VersionOperation : Type 0 where
  creates : CreateVersionRequest → ℕ → VersionOperation
  updates : ℕ → UpdateVersionRequest → VersionOperation
  deletes : ℕ → VersionOperation

-- What an operation leaves.
unfoldable pub perform : VersionOperation → World → World
perform (creates req now) w = (create_version req now w).1
perform (updates id req) w = (update_version id req w).1
perform (deletes id) w = (delete_version id w).1

unfoldable pub perform_all : List VersionOperation → World → World
perform_all [] w = w
perform_all (op ∷ ops) w = perform_all ops (perform op w)

reads_find_by_id : (id : ℕ) → Keeps IsSound (Versions.find_by_id id)
unfolding Versions.find_by_id
reads_find_by_id id = keeps_query IsSound _

keeps_version_or_fail : (found : Option AppVersion) → Keeps IsSound (version_or_fail found)
unfolding version_or_fail
keeps_version_or_fail none = search keeping
keeps_version_or_fail (some v) = search keeping

perform-IsSound : (op : VersionOperation) (w : World) → IsSound w.db → IsSound (perform op w).db
unfolding perform create_version update_version delete_version
perform-IsSound (creates req now) w p =
    let kept : Keeps IsSound (create_version req now) =
      search (keeping, keeps_create, reads_find_by_id) in
    kept.kept w p
perform-IsSound (updates id req) w p =
    let kept : Keeps IsSound (update_version id req) =
      search (keeping, keeps_update, keeps_version_or_fail, reads_find_by_id) in
    kept.kept w p
perform-IsSound (deletes id) w p =
    let kept : Keeps IsSound (delete_version id) =
      search (keeping, keeps_delete, keeps_version_or_fail, reads_find_by_id) in
    kept.kept w p

-- After any history of creations, updates and deletions of versions, each with any statements
-- failing, at most one version of each platform is the latest and no id occurs twice, if that was
-- so before.
pub perform_all-IsSound :
    (ops : List VersionOperation) (w : World) → IsSound w.db → IsSound (perform_all ops w).db
unfolding perform_all
perform_all-IsSound [] w p = p
perform_all-IsSound (op ∷ ops) w p = perform_all-IsSound ops (perform op w) (perform-IsSound op w p)

greatest-none :
    (q : AppVersion → Bool) (vs : List AppVersion) → count_where q vs ≤ 0 → greatest q vs ≡ none
unfolding greatest count_where
greatest-none q [] h = refl
greatest-none q (v ∷ vs) h = elim (Bool-cases (q v)) [
  | inl hit ↦ ground arith
  | inr miss ↦ let rest : count_where q vs ≤ 0 = rw miss at h in rw miss (greatest-none q vs rest)
]

greatest_unique :
    (q : AppVersion → Bool) (vs : List AppVersion)
    → count_where q vs ≤ 1
    → greatest q vs ≡ find q vs
unfolding greatest count_where find
greatest_unique q [] h = refl
greatest_unique q (v ∷ vs) h = elim (Bool-cases (q v)) [
  | inl hit ↦
      let rest : count_where q vs ≤ 0 = ground arith in rw (hit, greatest-none q vs rest) refl
  | inr miss ↦ let rest : count_where q vs ≤ 1 = rw miss at h in rw miss (greatest_unique q vs rest)
]

-- The version has a greater code.
abbrev pub is_newer : ℕ → Option AppVersion → Bool
is_newer current none = false
is_newer current (some v) = ltb current v.version_code

answer_newer :
    (current : ℕ) (latest : Option AppVersion)
    → ((answer current latest).has_update ≡ is_newer current latest)
      × ((answer current latest).version ≡ (if is_newer current latest then latest else none))
unfolding answer
answer_newer current none = (refl, refl)
answer_newer current (some v) = elim (Bool-cases (ltb current v.version_code)) [
  | inl above ↦ rw above (refl, refl)
  | inr no_more ↦ rw no_more (refl, refl)
]

-- Where no two versions of a platform are the latest, a client is told of an update exactly if the
-- latest version of its platform has a greater code than its own, and is given that version then.
pub check_latest-ok :
    (platform : String) (current : ℕ) (w : World) {r : CheckVersionResponse} {w' : World}
    → IsSound w.db
    → check_latest platform current w ≡ (ok r, w')
    → (r.has_update ≡ is_newer current (find (is_latest_of platform) w.db.app_versions))
      × (r.version ≡ (
          if is_newer current (find (is_latest_of platform) w.db.app_versions)
          then find (is_latest_of platform) w.db.app_versions
          else none))
unfolding check_latest Versions.find_latest
check_latest-ok platform current w (one, ids) h =
    let (latest, w₁, read, rest) = bind-eq-ok _ _ w h in
    let (same, _) = query-eq-ok _ w read in
    let (made, _) = pure-eq-ok _ w₁ rest in
    let unique = greatest_unique (is_latest_of platform) w.db.app_versions (one platform) in
    let (update, version) = answer_newer current latest in
    let found : latest ≡ find (is_latest_of platform) w.db.app_versions = same ∙ unique in
    (
      ap (λ (x : CheckVersionResponse). x.has_update) (sym made)
          ∙ update
          ∙ ap (is_newer current) found,
      ap (λ (x : CheckVersionResponse). x.version) (sym made)
          ∙ version
          ∙ ap (λ o. if is_newer current o then o else none) found,
    )
