-- ===== src/Handler/Announcements.antt =====
-- internal/handler/announcement.go: the checks of a request for an announcement, and the handlers.
pub mod Checked
use jd_shop_server.Common.{
  ℕ, String, Bool, true, false, not, ◌&&◌, ◌||◌, Option, none, some, List, [], str_eq, ltb, leb,
  if◌then◌else◌, is_some, is_empty, length, trim_space, to_lower, count_where,
}
use jd_shop_server.Common.Int.{ℤ, positive}
use jd_shop_server.Time.{parse_rfc3339, format_rfc3339}
use jd_shop_server.Model.Announcements.{
  Announcement, Counted, Received, TimeText, CreateAnnouncementRequest, UpdateAnnouncementRequest,
}
use jd_shop_server.Model.Validation.{validate_create_announcement}
use jd_shop_server.Db.{Error, announcement_not_found}
use jd_shop_server.Handler.Responses.{
  Handler, Reply, Paginated, data_of, message, with_id, with_body, checked, respond, refuse,
  internal, get_query_int,
}
use jd_shop_server.Service.Announcements

abbrev pub normal : String → String
normal s = to_lower (trim_space s)

abbrev pub or_text : String → String → String
or_text default s = if str_eq s "" then default else s

-- `normalizeAnnouncementCreate`.
unfoldable pub normalize_create : CreateAnnouncementRequest → CreateAnnouncementRequest
normalize_create req = record req {
  level = or_text "info" (normal req.level);
  display_mode = or_text "center" (normal req.display_mode);
  show_policy = or_text "once" (normal req.show_policy);
  target_type = or_text "all" (normal req.target_type);
  target_platform = or_text "all" (normal req.target_platform);
}

abbrev map_option {ℓ} : {A : Type ℓ} → (A → A) → Option A → Option A
map_option f none = none
map_option f (some a) = some (f a)

-- `normalizeAnnouncementUpdate`.
unfoldable pub normalize_update : UpdateAnnouncementRequest → UpdateAnnouncementRequest
normalize_update req = record req {
  level = map_option normal req.level;
  display_mode = map_option normal req.display_mode;
  show_policy = map_option normal req.show_policy;
  target_type = map_option normal req.target_type;
  target_platform = map_option normal req.target_platform;
  title = map_option trim_space req.title;
  content = map_option trim_space req.content;
}

-- Neither empty nor one of three texts.
abbrev pub is_none_of : String → String → String → String → Bool
is_none_of s a b c = not (str_eq s "") && not (str_eq s a) && not (str_eq s b) && not (str_eq s c)

-- `parseOptionalRFC3339`: no error, and the second, or no second for the zero time.
unfoldable pub parse_optional : Option TimeText → Option (Option ℕ)
parse_optional none = some none
parse_optional (some TimeText.empty) = some none
parse_optional (some (TimeText.instant t)) = elim (parse_rfc3339 t) [
  | none ↦ none
  | some s ↦ some (some s)
]
parse_optional (some (TimeText.spaced none below)) = some none
parse_optional (some (TimeText.spaced (some t) below)) = elim (parse_rfc3339 t) [
  | none ↦ none
  | some s ↦ some (some s)
]
parse_optional (some (TimeText.other below)) = none

-- `!endTime.After(startTime)`, of two times that are not zero.
abbrev pub ends_too_soon : Option (Option ℕ) → Option (Option ℕ) → Bool
ends_too_soon (some (some start)) (some (some end)) = leb end start
ends_too_soon start end = false

abbrev pub exceeds : Option ℕ → Option ℕ → Bool
exceeds (some least) (some most) = ltb most least
exceeds least most = false

-- The scheme and the host of a URL.
pub record Url : Type 0 where
  pub scheme : String
  pub host : String

abbrev is_https : Option Url → Bool
is_https none = false
is_https (some u) = str_eq u.scheme "https" && not (str_eq u.host "")

-- `parse_url` is `url.Parse`, `none` for an error.
abbrev pub is_bad_url : (String → Option Url) → Option String → Bool
is_bad_url parse_url none = false
is_bad_url parse_url (some text) =
    not (str_eq (trim_space text) "") && not (is_https (parse_url (trim_space text)))

-- The arguments of `validateAnnouncementConfig`, with "" for a text that is not given.
pub record Config : Type 0 where
  pub level : String
  pub display_mode : String
  pub show_policy : String
  pub target_type : String
  pub target_platform : String
  pub starts_at : Option TimeText
  pub ends_at : Option TimeText
  pub min_version_code : Option ℤ
  pub max_version_code : Option ℤ
  pub action_url : Option String
  pub target_user_ids : List ℤ

abbrev pub config_of_create : CreateAnnouncementRequest → Config
config_of_create req = record {
  level = req.level;
  display_mode = req.display_mode;
  show_policy = req.show_policy;
  target_type = req.target_type;
  target_platform = req.target_platform;
  starts_at = req.starts_at;
  ends_at = req.ends_at;
  min_version_code = req.min_version_code;
  max_version_code = req.max_version_code;
  action_url = req.action_url;
  target_user_ids = req.target_user_ids;
}

abbrev pub value_or_empty : Option String → String
value_or_empty none = ""
value_or_empty (some s) = s

abbrev pub ids_or_empty : Option (List ℤ) → List ℤ
ids_or_empty none = []
ids_or_empty (some ids) = ids

abbrev pub config_of_update : UpdateAnnouncementRequest → Config
config_of_update req = record {
  level = value_or_empty req.level;
  display_mode = value_or_empty req.display_mode;
  show_policy = value_or_empty req.show_policy;
  target_type = value_or_empty req.target_type;
  target_platform = value_or_empty req.target_platform;
  starts_at = req.starts_at;
  ends_at = req.ends_at;
  min_version_code = req.min_version_code;
  max_version_code = req.max_version_code;
  action_url = req.action_url;
  target_user_ids = ids_or_empty req.target_user_ids;
}

-- `cleanRequestString`, of a time and of another text.
abbrev pub clean_request_time : Option TimeText → Option TimeText
clean_request_time none = none
clean_request_time (some TimeText.empty) = none
clean_request_time (some (TimeText.instant t)) = some (TimeText.instant t)
clean_request_time (some (TimeText.spaced none below)) = none
clean_request_time (some (TimeText.spaced (some t) below)) = some (TimeText.instant t)
clean_request_time (some (TimeText.other below)) = some (TimeText.other below)

abbrev pub clean_request_string : Option String → Option String
clean_request_string none = none
clean_request_string (some s) =
    let cleaned = trim_space s in if str_eq cleaned "" then none else some cleaned

-- The announcement that `Create` hands to the service.
unfoldable pub announcement_of : CreateAnnouncementRequest → Announcement
announcement_of req = record {
  id = 0;
  title = trim_space req.title;
  content = trim_space req.content;
  level = req.level;
  display_mode = req.display_mode;
  show_policy = req.show_policy;
  starts_at = clean_request_time req.starts_at;
  ends_at = clean_request_time req.ends_at;
  target_type = req.target_type;
  target_platform = req.target_platform;
  min_version_code = positive req.min_version_code;
  max_version_code = positive req.max_version_code;
  action_text = clean_request_string req.action_text;
  action_url = clean_request_string req.action_url;
  revision = 0;
  is_published = 0;
  published_at = none;
  created_by = 0;
  created_at = format_rfc3339 0;
  updated_at = format_rfc3339 0;
  target_user_ids = req.target_user_ids;
}

abbrev pub missing_error : {A : Type 0} → Error → Reply A
missing_error announcement_not_found = message 10004 "公告不存在"
missing_error e = internal e

abbrev pub receipt_error : {A : Type 0} → Error → Reply A
receipt_error announcement_not_found = message 10004 "公告不存在或不在投放范围内"
receipt_error e = internal e

abbrev is_blank_given : Option String → Bool
is_blank_given none = false
is_blank_given (some s) = str_eq (trim_space s) ""

module _ (parse_url : String → Option Url) where
  unfoldable pub validate_config : Config → Option String
  unfolding is_https
  validate_config c =
      let start = parse_optional c.starts_at in
      let end = parse_optional c.ends_at in
      if is_none_of c.level "info" "warning" "critical"
      then some "level须为info/warning/critical"
      else if is_none_of c.display_mode "center" "banner" "modal"
      then some "展示方式须为center/banner/modal"
      else if is_none_of c.show_policy "once" "every_start" "require_ack"
      then some "提醒策略须为once/every_start/require_ack"
      else if is_none_of c.target_type "all" "users" "users"
      then some "投放范围须为all/users"
      else if is_none_of c.target_platform "all" "windows" "windows"
      then some "目标平台须为all/windows"
      else if str_eq c.target_type "users" && is_empty c.target_user_ids
      then some "指定账号投放时至少选择一个账号"
      else if not (is_some start) || not (is_some end)
      then some "生效时间和失效时间必须是RFC3339格式"
      else if ends_too_soon start end
      then some "失效时间必须晚于生效时间"
      else if exceeds (positive c.min_version_code) (positive c.max_version_code)
      then some "最低版本码不能大于最高版本码"
      else if is_bad_url parse_url c.action_url
      then some "操作链接必须是有效的HTTPS地址"
      else none

  unfoldable pub create : ℕ → Option CreateAnnouncementRequest → ℕ → Handler (Option Announcement)
  create user body now = with_body body λ req. checked (validate_create_announcement req) (
      let req' = normalize_create req in
      checked (validate_config (config_of_create req')) (
        respond data_of internal
          (Announcements.create_announcement (announcement_of req') user now)))

  unfoldable pub update :
      Option ℕ → Option UpdateAnnouncementRequest → ℕ → Handler (Option Announcement)
  unfolding is_blank_given
  update id body now = with_id id λ id. with_body body λ req.
      let req' = normalize_update req in
      if is_blank_given req'.title
      then refuse 10001 "公告标题不能为空"
      else if is_blank_given req'.content
      then refuse 10001 "公告内容不能为空"
      else checked (validate_config (config_of_update req'))
          (respond data_of missing_error (Announcements.update_announcement id req' now))

unfoldable pub mark_receipt : Option ℕ → ℕ → Bool → ℕ → Handler (Unit {0})
mark_receipt id user acknowledge now = with_id id λ id.
    respond (λ _. message 0 (if acknowledge then "已确认" else "已读")) receipt_error
      (if acknowledge
        then Announcements.acknowledge id user now
        else Announcements.mark_read id user now)

unfoldable pub mark_read : Option ℕ → ℕ → ℕ → Handler (Unit {0})
unfolding mark_receipt
mark_read id user now = mark_receipt id user false now

unfoldable pub acknowledge : Option ℕ → ℕ → ℕ → Handler (Unit {0})
unfolding mark_receipt
acknowledge id user now = mark_receipt id user true now

unfoldable pub delete : Option ℕ → ℕ → Handler (Unit {0})
delete id now =
    with_id id
      λ id. respond (λ _. message 0 "删除成功") missing_error (Announcements.delete_announcement id now)

unfoldable pub publish : Option ℕ → ℕ → Handler (Unit {0})
publish id now =
    with_id id λ id.
      respond (λ _. message 0 "发布成功") missing_error (Announcements.publish_announcement id now)

unfoldable pub unpublish : Option ℕ → ℕ → Handler (Unit {0})
unpublish id now =
    with_id id λ id.
      respond (λ _. message 0 "已下架") missing_error (Announcements.unpublish_announcement id now)

abbrev paginated : ℕ → ℕ → List Counted × ℕ → Reply (Paginated Counted)
paginated page page_size (items, total) =
    data_of (record { items = items; total = total; page = page; page_size = page_size })

unfoldable pub public_list : Option ℤ → Option ℤ → String → ℕ → Handler (Paginated Counted)
public_list page page_size level now =
    let page = get_query_int page 1 in
    let page_size = get_query_int page_size 20 in
    respond (paginated page page_size) internal (Announcements.list_public page page_size level now)

unfoldable pub admin_list : Option ℤ → Option ℤ → String → ℕ → Handler (Paginated Counted)
admin_list page page_size level now =
    let page = get_query_int page 1 in
    let page_size = get_query_int page_size 20 in
    respond (paginated page page_size) internal (Announcements.list_all page page_size level now)

pub record UserListing : Type 0 where
  pub items : List Received
  pub total : ℕ
  pub unread_count : ℕ
  pub requires_ack_count : ℕ

unfoldable pub listing : List Received → UserListing
listing items = record {
  items = items;
  total = length items;
  unread_count = count_where (λ r. not r.is_read) items;
  requires_ack_count =
      count_where (λ r. str_eq r.announcement.show_policy "require_ack" && not r.is_acknowledged)
        items;
}

unfoldable pub user_list : ℕ → String → Option ℤ → ℕ → Handler UserListing
user_list user platform code now =
    let platform = or_text "windows" (normal platform) in
    respond (λ items. data_of (listing items)) internal
      (Announcements.list_for_user user platform (get_query_int code 0) now)
