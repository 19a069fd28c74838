-- ===== src/Db.antt =====
-- The SQLite database that internal/repository/ works on: its tables, and statements that may
-- fail. A table is a list of rows, the newest first, so that a list is in the order of
-- `ORDER BY id DESC`. A schedule of faults says which of the next statements fail.
pub mod Laws
pub mod Success
use jd_shop_server.Common.{
  ℕ, suc, ◌+◌, ◌≡◌, String, Bool, true, false, Option, none, some, List, [], ◌∷◌, if◌then◌else◌,
}
use jd_shop_server.Time.{Timestamp}
use jd_shop_server.Hub.{ControlHub, EventType, publish}
use jd_shop_server.Model.{
  User, RefreshToken, LoginLog, AccessPolicy, RegistrationDefaults, Role, Permission,
  SmsVerification, AppVersion, HeartbeatLog,
}
use jd_shop_server.Model.Announcements.{Announcement, Receipt}

pub record AuthVersionRow : Type 0 where
  pub user_id : ℕ
  pub version : ℕ
  pub updated_at : Timestamp

pub record RegistrationDefaultsRow : Type 0 where
  pub usage_days : ℕ
  pub competitor_monitor : ℕ
  pub merchant_backend : ℕ
  pub analysis_center : ℕ
  pub updated_at : Timestamp

-- A row of user_roles, role_permissions or announcement_targets.
pub record Link : Type 0 where
  pub left : ℕ
  pub right : ℕ

pub record Db : Type 0 where
  pub users : List User
  pub next_user : ℕ
  pub auth_versions : List AuthVersionRow
  pub refresh_tokens : List RefreshToken
  pub next_token : ℕ
  pub login_logs : List LoginLog
  pub access_control : List AccessPolicy
  pub registration_defaults : List RegistrationDefaultsRow
  pub roles : List Role
  pub next_role : ℕ
  pub user_roles : List Link
  pub role_permissions : List Link
  pub permissions : List Permission
  pub sms_verifications : List SmsVerification
  pub next_sms : ℕ
  pub app_versions : List AppVersion
  pub next_version : ℕ
  pub announcements : List Announcement
  pub next_announcement : ℕ
  pub announcement_targets : List Link
  pub announcement_receipts : List Receipt
  pub heartbeat_logs : List HeartbeatLog

-- The errors of the services; `storage` is any other error of the database or of a package.
pub data Error : Type 0 where
  storage constraint no_rows : Error
  invalid_credentials account_disabled account_expired too_many_attempts : Error
  token_revoked token_expired username_taken phone_taken phone_required : Error
  invalid_phone sms_code_invalid sms_code_expired sms_code_not_found : Error
  captcha_invalid invalid_purpose sms_not_configured sms_insecure_endpoint : Error
  sms_too_frequent sms_daily_limit sms_ip_limit sms_provider no_distinct_code : Error
  invalid_expiry wrong_password user_not_found : Error
  role_not_found super_admin_protected admin_role_reserved admin_role_protected : Error
  version_not_found announcement_not_found : Error

pub data Result {ℓ} (A : Type ℓ) : Type ℓ where
  ok : A → Result A
  err : Error → Result A

-- What a request works on: the database with its schedule of faults, and the hub.
pub record World : Type 0 where
  pub db : Db
  pub faults : List Bool
  pub hub : ControlHub

-- A world in which no statement fails.
abbrev pub calm : Db → ControlHub → World
calm db hub = record { db = db; faults = []; hub = hub }

-- A computation on the database, with an error or a value.
abbrev pub M : Type 0 → Type 0
M A = World → Result A × World

unfoldable pub pure : {A : Type 0} → A → M A
pure a w = (ok a, w)

unfoldable pub fail : {A : Type 0} → Error → M A
fail e w = (err e, w)

abbrev pub after : {A B : Type 0} → (A → M B) → (Error → M B) → Result A × World → Result B × World
after f g (ok a, w) = f a w
after f g (err e, w) = g e w

infixl 5 ◌>>=◌ ◌>>◌
unfoldable pub ◌>>=◌ : {A B : Type 0} → M A → (A → M B) → M B
◌>>=◌ m f w = after f fail (m w)

abbrev pub ◌>>◌ : {B : Type 0} → M (Unit {0}) → M B → M B
m >> k = m >>= λ _. k

unfoldable pub when : Bool → M (Unit {0}) → M (Unit {0})
when true m = m
when false m = pure tt

-- `if b { return e }`.
unfoldable pub reject : Bool → Error → M (Unit {0})
reject true e = fail e
reject false e = pure tt

-- The next statement fails if the schedule says so, and has no effect then.
unfoldable pub schedule : {A : Type 0} → (Db → Result A × Db) → List Bool → World → Result A × World
schedule f [] w = let (r, db) = f w.db in (r, record w { db = db; faults = [] })
schedule f (true ∷ faults) w = (err storage, record w { faults = faults })
schedule f (false ∷ faults) w = let (r, db) = f w.db in (r, record w { db = db; faults = faults })

unfoldable pub statement : {A : Type 0} → (Db → Result A × Db) → M A
unfolding schedule
statement f w = schedule f w.faults w

-- `SELECT …`.
unfoldable pub query : {A : Type 0} → (Db → A) → M A
unfolding statement
query f = statement (λ db. (ok (f db), db))

-- `INSERT`, `UPDATE` or `DELETE`, with no constraint at stake.
unfoldable pub exec : (Db → Db) → M (Unit {0})
unfolding statement
exec f = statement (λ db. (ok tt, f db))

-- An `INSERT` that a constraint may refuse; `f` gives the value of the new row's id too.
unfoldable pub insert_row : {A : Type 0} → (Db → Bool) → (Db → A × Db) → M A
unfolding statement
insert_row violates f =
    statement λ db. if violates db then (err constraint, db) else let (a, db') = f db in (ok a, db')

abbrev pub restore : {A : Type 0} → Db → Result A × World → Result A × World
restore db (ok a, w) = (ok a, w)
restore db (err e, w) = (err e, record w { db = db })

-- A statement with no effect of its own: `BEGIN` and `COMMIT`.
unfoldable pub control : M (Unit {0})
unfolding statement
control = statement (λ db. (ok tt, db))

-- `db.Begin()`, the body, `tx.Commit()`; an error, of the commit too, rolls everything back.
unfoldable pub transaction : {A : Type 0} → M A → M A
unfolding control
transaction m w = restore w.db ((control >> (m >>= λ a. control >> pure a)) w)

-- A call whose error is dropped.
unfoldable pub ignore_error : M (Unit {0}) → M (Unit {0})
ignore_error m w = (ok tt, (m w).1)

abbrev pub value_or : {A : Type 0} → A → Result A → Result A
value_or d (ok a) = ok a
value_or d (err e) = ok d

-- A call whose error is dropped and whose value is `d` then.
unfoldable pub attempt : {A : Type 0} → A → M A → M A
attempt d m w = let (r, w') = m w in (value_or d r, w')

-- An event for the clients of a user.
unfoldable pub notify : ℕ → EventType → ℕ → M (Unit {0})
notify user type now w = (ok tt, record w { hub = publish w.hub user type now })

-- Any other change of the hub.
unfoldable pub signal : (ControlHub → ControlHub) → M (Unit {0})
signal f w = (ok tt, record w { hub = f w.hub })

-- A predicate on the database that a computation keeps, whether it succeeds or not.
pub record Keeps {A : Type 0} (P : Db → Type 0) (m : M A) : Type 0 where
  pub kept : (w : World) → P w.db → P (m w).1.db
