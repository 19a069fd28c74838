-- ===== src/Model.antt =====
-- internal/model/models.go: the records of accounts, sessions and their requests. A column that
-- may be NULL is an `Option`, and a time is the timestamp that the column holds.
pub mod Announcements
pub mod Validation
use jd_shop_server.Common.{ℕ, String, Bool, false, Option, none, List}
use jd_shop_server.Common.Int.{ℤ}
use jd_shop_server.Time.{Timestamp}

pub record ModulePermissions : Type 0 where
  pub competitor_monitor : Bool
  pub merchant_backend : Bool
  pub analysis_center : Bool

-- The texts "", "active", "disabled" and "expired" of `AccountAccess.Reason`.
pub data Reason : Type 0 where
  no_reason active disabled expired : Reason

pub record AccountAccess : Type 0 where
  pub allowed : Bool
  pub reason : Reason
  pub expires_at : Option Timestamp
  pub remaining_seconds : ℕ
  pub lease_seconds : ℕ
  pub modules : ModulePermissions

-- The zero value.
abbrev pub no_access : AccountAccess
no_access = record {
  allowed = false;
  reason = no_reason;
  expires_at = none;
  remaining_seconds = 0;
  lease_seconds = 0;
  modules = record {
    competitor_monitor = false;
    merchant_backend = false;
    analysis_center = false;
  };
}

pub record User : Type 0 where
  pub id : ℕ
  pub username : String
  pub phone : Option String
  pub email : Option String
  pub password_hash : String
  pub nickname : Option String
  pub avatar_url : Option String
  pub status : ℕ
  pub last_login_at : Option Timestamp
  pub created_at : Timestamp
  pub updated_at : Timestamp
  pub roles : List String
  pub access : AccountAccess

pub record RefreshToken : Type 0 where
  pub id : ℕ
  pub user_id : ℕ
  pub token_hash : String
  pub expires_at : Timestamp
  pub revoked : ℕ
  pub created_at : Timestamp

pub data LoginResult : Type 0 where
  success failed locked : LoginResult

pub record LoginLog : Type 0 where
  pub user_id : Option ℕ
  pub username : String
  pub ip_address : Option String
  pub user_agent : Option String
  pub result : LoginResult
  pub fail_reason : Option String
  pub created_at : Timestamp

pub record AccessPolicy : Type 0 where
  pub user_id : ℕ
  pub competitor_monitor : ℕ
  pub merchant_backend : ℕ
  pub analysis_center : ℕ
  pub expires_at : Option Timestamp
  pub updated_at : Timestamp

pub record RegistrationDefaults : Type 0 where
  pub usage_days : ℕ
  pub competitor_monitor : Bool
  pub merchant_backend : Bool
  pub analysis_center : Bool

pub record RegisterRequest : Type 0 where
  pub phone : String
  pub username : String
  pub password : String
  pub sms_code : String
  pub email : String
  pub nickname : String

pub record LoginRequest : Type 0 where
  pub phone : String
  pub username : String
  pub password : String

pub record SendSmsRequest : Type 0 where
  pub phone : String
  pub purpose : String
  pub captcha_id : String
  pub captcha_code : String

pub record UserInfo : Type 0 where
  pub id : ℕ
  pub username : String
  pub phone : Option String
  pub nickname : String
  pub roles : List String
  pub status : ℕ
  pub access : AccountAccess

pub record LoginResponse : Type 0 where
  pub access_token : String
  pub refresh_token : String
  pub expires_in : ℕ
  pub user : UserInfo

pub record RefreshResponse : Type 0 where
  pub access_token : String
  pub refresh_token : String
  pub expires_in : ℕ
  pub access : AccountAccess

pub record ChangePasswordRequest : Type 0 where
  pub old_password : String
  pub new_password : String
  pub sms_code : String

pub record UpdateProfileRequest : Type 0 where
  pub nickname : String
  pub email : String
  pub avatar_url : String

-- A request's expiry text, as `normalizeExpiry` reads it.
pub data ExpiryText : Type 0 where
  empty : ExpiryText
  instant : Timestamp → ExpiryText  -- RFC 3339, and "2006-01-02 15:04:05"
  minute : ℕ → ℕ → ExpiryText  -- the day, and the minute of the day, "2006-01-02T15:04"
  date : ℕ → ExpiryText  -- the day, "2006-01-02"
  unreadable : ExpiryText

pub record UpdateUserAccessRequest : Type 0 where
  pub competitor_monitor : Bool
  pub merchant_backend : Bool
  pub analysis_center : Bool
  pub expires_at : Option ExpiryText

pub record Permission : Type 0 where
  pub id : ℕ
  pub code : String
  pub name : String
  pub description : Option String

pub record Role : Type 0 where
  pub id : ℕ
  pub name : String
  pub description : Option String
  pub created_at : Timestamp
  pub permissions : List Permission

pub record CreateRoleRequest : Type 0 where
  pub name : String
  pub description : String
  pub permission_ids : List ℕ

pub record UpdateRoleRequest : Type 0 where
  pub name : Option String
  pub description : Option String
  pub permission_ids : Option (List ℕ)

pub record SmsVerification : Type 0 where
  pub id : ℕ
  pub phone : String
  pub purpose : String
  pub code_hash : String
  pub sent_at : Timestamp
  pub expires_at : Timestamp
  pub attempts : ℕ
  pub consumed : ℕ
  pub request_ip : String

pub record AppVersion : Type 0 where
  pub id : ℕ
  pub platform : String
  pub version_code : ℕ
  pub version_name : String
  pub title : String
  pub description : Option String
  pub download_url : Option String
  pub file_size : Option ℕ
  pub file_hash : Option String
  pub is_force : ℕ
  pub is_latest : ℕ
  pub created_at : Timestamp

pub record CreateVersionRequest : Type 0 where
  pub platform : String
  pub version_code : ℕ
  pub version_name : String
  pub title : String
  pub description : String
  pub download_url : String
  pub file_size : Option ℕ
  pub file_hash : String
  pub is_force : Option Bool

pub record UpdateVersionRequest : Type 0 where
  pub title : Option String
  pub description : Option String
  pub download_url : Option String
  pub file_size : Option ℕ
  pub file_hash : Option String
  pub is_force : Option Bool
  pub is_latest : Option Bool

pub record CheckVersionResponse : Type 0 where
  pub has_update : Bool
  pub is_force : Bool
  pub version : Option AppVersion

pub record HeartbeatLog : Type 0 where
  pub user_id : ℕ
  pub device_id : String
  pub platform : Option String
  pub app_version : Option String
  pub ip_address : Option String
  pub created_at : Timestamp

pub record HeartbeatRequest : Type 0 where
  pub device_id : String
  pub platform : String
  pub app_version : String
  pub app_version_code : ℤ

pub record HeartbeatResponse : Type 0 where
  pub has_new_version : Bool
  pub latest_version_code : ℕ
  pub latest_version_name : String
  pub latest_download_url : Option String
  pub latest_file_hash : Option String
  pub latest_file_size : Option ℕ
  pub is_force_update : Bool
  pub access : AccountAccess
