-- ===== src/Handler/Versions.antt =====
-- internal/handler/version.go.
use jd_shop_server.Common.{ℕ, String, Option, str_eq, if◌then◌else◌}
use jd_shop_server.Model.{
  AppVersion, CreateVersionRequest, UpdateVersionRequest, CheckVersionResponse,
}
use jd_shop_server.Model.Validation.{validate_create_version}
use jd_shop_server.Db.{Error, version_not_found}
use jd_shop_server.Handler.Responses.{
  Handler, Reply, data_of, message, with_id, with_body, checked, respond, internal, get_query_int64,
}
use jd_shop_server.Service.Versions

abbrev or_windows : String → String
or_windows platform = if str_eq platform "" then "windows" else platform

unfoldable pub check_latest : String → Option ℕ → Handler CheckVersionResponse
check_latest platform current =
    respond data_of internal
      (Versions.check_latest (or_windows platform) (get_query_int64 current 0))

unfoldable pub create : Option CreateVersionRequest → ℕ → Handler (Option AppVersion)
create body now = with_body body λ req.
    checked (validate_create_version req)
      (respond data_of internal (Versions.create_version req now))

abbrev pub unless_missing : {A : Type 0} → Error → Reply A
unless_missing version_not_found = message 10004 "版本不存在"
unless_missing e = internal e

unfoldable pub update : Option ℕ → Option UpdateVersionRequest → Handler (Option AppVersion)
update id body =
    with_id id
      λ id. with_body body λ req. respond data_of unless_missing (Versions.update_version id req)

unfoldable pub delete : Option ℕ → Handler (Unit {0})
delete id =
    with_id id λ id. respond (λ _. message 0 "删除成功") unless_missing (Versions.delete_version id)
