-- ===== src/Examples/Releases.antt =====
-- Versions of the client.
use jd_shop_server.Common.{
  ℕ, ◌≡◌, refl, true, false, none, some, List, [], ◌∷◌, count_where, find, arith, if◌then◌else◌,
  ◌+◌,
}
use jd_shop_server.Model.{
  AppVersion, CreateVersionRequest, UpdateVersionRequest, CheckVersionResponse,
}
use jd_shop_server.Db.{World}
use jd_shop_server.Repository.Versions.{is_latest_of, greatest, find_latest}
use jd_shop_server.Repository.Versions.Sound.{IsSound}
use jd_shop_server.Service.Versions.{check_latest, answer}
use jd_shop_server.Service.Versions.Updates.{
  VersionOperation, creates, updates, deletes, perform_all, perform_all-IsSound, is_newer,
  check_latest-ok,
}
use jd_shop_server.Examples.Data.{world, tables, stamp, noon, disabled_world}

abbrev release : ℕ → ℕ → AppVersion
release id latest = record {
  id = id;
  platform = "windows";
  version_code = 100 + id;
  version_name = "1";
  title = "t";
  description = none;
  download_url = none;
  file_size = none;
  file_hash = none;
  is_force = 0;
  is_latest = latest;
  created_at = stamp;
}

abbrev released : World
released = record world {
  db = record tables { app_versions = release 2 1 ∷ release 1 0 ∷ []; next_version = 3 };
}

released-IsSound : IsSound released.db
unfolding count_where
released-IsSound = (λ p. ground arith, λ id. ground arith)

abbrev creation : CreateVersionRequest
creation = record {
  platform = "windows";
  version_code = 200;
  version_name = "2";
  title = "t";
  description = "";
  download_url = "";
  file_size = none;
  file_hash = "";
  is_force = none;
}

abbrev back_to_first : UpdateVersionRequest
back_to_first = record {
  title = none;
  description = none;
  download_url = none;
  file_size = none;
  file_hash = none;
  is_force = none;
  is_latest = some true;
}

abbrev operations : List VersionOperation
operations = creates creation noon ∷ updates 1 back_to_first ∷ deletes 1 ∷ []

perform_all-IsSound_example : IsSound (perform_all operations released).db
perform_all-IsSound_example = perform_all-IsSound operations released released-IsSound

abbrev told : CheckVersionResponse
told = record { has_update = true; is_force = false; version = some (release 2 1) }

check_latest-ok_example :
    (told.has_update ≡ is_newer 5 (find (is_latest_of "windows") released.db.app_versions))
    × (told.version ≡ (
        if is_newer 5 (find (is_latest_of "windows") released.db.app_versions)
        then find (is_latest_of "windows") released.db.app_versions
        else none))
unfolding disabled_world check_latest find_latest greatest answer
check_latest-ok_example = check_latest-ok "windows" 5 released {r = told} released-IsSound refl
