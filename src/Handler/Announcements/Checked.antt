-- ===== src/Handler/Announcements/Checked.antt =====
-- What the handler of internal/handler/announcement.go lets through to the service.
use jd_shop_server.Common.{
  ◌∷◌, [], List, trim_space, to_lower, ℕ, suc, ◌≡◌, refl, String, Bool, true, false, ◌||◌, Option,
  none, some, str_eq, if◌then◌else◌, is_some,
}
use jd_shop_server.Common.Int.{positive}
use jd_shop_server.Model.Announcements.{Announcement, CreateAnnouncementRequest}
use jd_shop_server.Db.{Db, Link}
use jd_shop_server.Handler.Announcements.{parse_optional, ends_too_soon, exceeds}
use jd_shop_server.Time.{sqlite_datetime}

-- One of three texts.
abbrev pub is_one_of : String → String → String → String → Bool
is_one_of s a b c = str_eq s a || str_eq s b || str_eq s c

-- An announcement in the terms of the clients: each word is one that they know, the times are
-- timestamps that end after they start, and the versions are not the wrong way round.
abbrev pub IsConfigured : Announcement → Type 0
IsConfigured a =
    (is_one_of a.level "info" "warning" "critical" ≡ true)
    × (is_one_of a.display_mode "center" "banner" "modal" ≡ true)
    × (is_one_of a.show_policy "once" "every_start" "require_ack" ≡ true)
    × (is_one_of a.target_type "all" "users" "users" ≡ true)
    × (is_one_of a.target_platform "all" "windows" "windows" ≡ true)
    × (is_some (parse_optional a.starts_at) ≡ true)
    × (is_some (parse_optional a.ends_at) ≡ true)
    × (ends_too_soon (parse_optional a.starts_at) (parse_optional a.ends_at) ≡ false)
    × (exceeds a.min_version_code a.max_version_code ≡ false)

-- One check of a chain that was passed.
passed :
    (b : Bool) (text : String) (rest : Option String)
    → (if b then some text else rest) ≡ none
    → (b ≡ false) × (rest ≡ none)
passed true text rest h = cc
passed false text rest h = (refl, h)

-- A word of the request, trimmed and in lower case, or the default for it.
abbrev pub word : String → String → String
word default s =
    let cleaned = to_lower (trim_space s) in if str_eq cleaned "" then default else cleaned

-- A text of the request without the white space around it; a blank one is none.
abbrev pub trimmed : Option String → Option String
trimmed none = none
trimmed (some s) = let cleaned = trim_space s in if str_eq cleaned "" then none else some cleaned

-- A new announcement with what the request asks for.
unfoldable pub IsRequested : CreateAnnouncementRequest → ℕ → ℕ → Announcement → Type 0
IsRequested req user now a =
    (a.title ≡ trim_space req.title)
    × (a.content ≡ trim_space req.content)
    × (a.level ≡ word "info" req.level)
    × (a.display_mode ≡ word "center" req.display_mode)
    × (a.show_policy ≡ word "once" req.show_policy)
    × (a.target_type ≡ word "all" req.target_type)
    × (a.target_platform ≡ word "all" req.target_platform)
    × (parse_optional a.starts_at ≡ parse_optional req.starts_at)
    × (parse_optional a.ends_at ≡ parse_optional req.ends_at)
    × (a.min_version_code ≡ positive req.min_version_code)
    × (a.max_version_code ≡ positive req.max_version_code)
    × (a.action_text ≡ trimmed req.action_text)
    × (a.action_url ≡ trimmed req.action_url)
    × (a.revision ≡ 0)
    × (a.is_published ≡ 0)
    × (a.published_at ≡ none)
    × (a.created_by ≡ user)
    × (a.created_at ≡ sqlite_datetime now)
    × (a.updated_at ≡ sqlite_datetime now)

-- The tables with an announcement and the links to those that it is for.
abbrev pub stored : Announcement → List Link → Db → Db
stored a links db = record db {
  announcements = record a { target_user_ids = [] } ∷ db.announcements;
  next_announcement = suc db.next_announcement;
  announcement_targets = links;
}
