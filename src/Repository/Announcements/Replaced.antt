-- ===== src/Repository/Announcements/Replaced.antt =====
-- What `replaceAnnouncementTargets` of internal/repository/announcement.go leaves.
use jd_shop_server.Common.{
  ℕ, ◌≡◌, ◌∙◌, String, not, ◌&&◌, List, [], str_eq, if◌then◌else◌, delete_where, Bool-cases, inl,
  inr, arith,
}
use jd_shop_server.Common.Int.{ℤ}
use jd_shop_server.Hub.{ControlHub}
use jd_shop_server.Db.{Db, Link, calm, ok, exec, pure}
use jd_shop_server.Db.Success.{bind-eq, exec-calm}
use jd_shop_server.Repository.Announcements.{
  targets_announcement, replace_targets, is_seen, add_targets,
}
use jd_shop_server.Repository.Announcements.Targets.{
  added, names, linked, with_links, IsDistinct, add_targets-calm, linked-added, linked-delete_where,
  added-IsDistinct, delete_where-IsDistinct,
}

abbrev emptied : ℕ → Db → Db
emptied id db = record db {
  announcement_targets = delete_where (targets_announcement id) db.announcement_targets;
}

-- The links after `replaceAnnouncementTargets`.
abbrev pub replaced : ℕ → String → List ℤ → List Link → List Link
replaced id target_type users links =
    let kept = delete_where (targets_announcement id) links in
    if not (str_eq target_type "users") then kept else added id users [] kept

module _ (id : ℕ) (target_type : String) (users : List ℤ) where
  pub replace_targets-calm :
      (db : Db) (hub : ControlHub)
      → replace_targets id target_type users (calm db hub)
        ≡ (ok tt, calm (with_links db (replaced id target_type users db.announcement_targets)) hub)
  unfolding replace_targets pure is_seen
  replace_targets-calm db hub = elim (Bool-cases (str_eq target_type "users")) [
    | inl for_users ↦ rw for_users (
        bind-eq (exec (emptied id)) (λ _. add_targets id users []) (calm db hub)
          (exec-calm db hub (emptied id))
        ∙ add_targets-calm id users [] (emptied id db) hub
            (λ n. linked-delete_where id n db.announcement_targets))
    | inr for_all ↦
        rw for_all
          (bind-eq (exec (emptied id)) (λ _. pure tt) (calm db hub) (exec-calm db hub (emptied id)))
  ]

  pub linked-replaced :
      (u : ℕ) (links : List Link)
      → linked id u (replaced id target_type users links)
        ≡ (str_eq target_type "users" && names u users)
  unfolding is_seen
  linked-replaced u links = elim (Bool-cases (str_eq target_type "users")) [
    | inl for_users ↦ rw for_users (
        linked-added id u users [] (delete_where (targets_announcement id) links) (λ n h. cc)
        ∙ ground (arith, linked-delete_where id u links))
    | inr for_all ↦ rw for_all (linked-delete_where id u links)
  ]

  pub replaced-IsDistinct :
      (links : List Link) → IsDistinct id (replaced id target_type users links)
  unfolding is_seen
  replaced-IsDistinct links = elim (Bool-cases (str_eq target_type "users")) [
    | inl for_users ↦ rw for_users (
        added-IsDistinct id users [] (delete_where (targets_announcement id) links)
          (λ n. linked-delete_where id n links) (delete_where-IsDistinct id links))
    | inr for_all ↦ rw for_all (delete_where-IsDistinct id links)
  ]
