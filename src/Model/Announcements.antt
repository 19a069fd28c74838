-- ===== src/Model/Announcements.antt =====
-- internal/model/models.go: announcements and the requests for them. The fields that no column
-- holds are split off by the query that fills them: `Counted` for the lists of the console, and
-- `Received` for those of a user.
use jd_shop_server.Common.{ℕ, String, Bool, Option, List}
use jd_shop_server.Common.Int.{ℤ}
use jd_shop_server.Time.{Timestamp}

-- A text of a request for the start or the end of an announcement, and of the column.
pub data TimeText : Type 0 where
  empty : TimeText  -- ""
  instant : Timestamp → TimeText
  -- White space around a timestamp or alone, and which timestamps the text does not exceed.
  spaced : Option Timestamp → (Timestamp → Bool) → TimeText
  -- Any other text, and which timestamps it does not exceed.
  other : (Timestamp → Bool) → TimeText

pub record Announcement : Type 0 where
  pub id : ℕ
  pub title : String
  pub content : String
  pub level : String
  pub display_mode : String
  pub show_policy : String
  pub starts_at : Option TimeText
  pub ends_at : Option TimeText
  pub target_type : String
  pub target_platform : String
  pub min_version_code : Option ℕ
  pub max_version_code : Option ℕ
  pub action_text : Option String
  pub action_url : Option String
  pub revision : ℕ
  pub is_published : ℕ
  pub published_at : Option Timestamp
  pub created_by : ℕ
  pub created_at : Timestamp
  pub updated_at : Timestamp
  pub target_user_ids : List ℤ

pub record Counted : Type 0 where
  pub announcement : Announcement
  pub delivered_count : ℕ
  pub read_count : ℕ
  pub acknowledged_count : ℕ

pub record Received : Type 0 where
  pub announcement : Announcement
  pub is_read : Bool
  pub is_acknowledged : Bool
  pub delivered_at : Option Timestamp
  pub read_at : Option Timestamp
  pub acknowledged_at : Option Timestamp

-- A row of announcement_receipts.
pub record Receipt : Type 0 where
  pub announcement_id : ℕ
  pub user_id : ℕ
  pub revision : ℕ
  pub delivered_at : Option Timestamp
  pub read_at : Option Timestamp
  pub acknowledged_at : Option Timestamp

pub record CreateAnnouncementRequest : Type 0 where
  pub title : String
  pub content : String
  pub level : String
  pub display_mode : String
  pub show_policy : String
  pub starts_at : Option TimeText
  pub ends_at : Option TimeText
  pub target_type : String
  pub target_platform : String
  pub min_version_code : Option ℤ
  pub max_version_code : Option ℤ
  pub action_text : Option String
  pub action_url : Option String
  pub target_user_ids : List ℤ

pub record UpdateAnnouncementRequest : Type 0 where
  pub title : Option String
  pub content : Option String
  pub level : Option String
  pub display_mode : Option String
  pub show_policy : Option String
  pub starts_at : Option TimeText
  pub ends_at : Option TimeText
  pub target_type : Option String
  pub target_platform : Option String
  pub min_version_code : Option ℤ
  pub max_version_code : Option ℤ
  pub action_text : Option String
  pub action_url : Option String
  pub target_user_ids : Option (List ℤ)
