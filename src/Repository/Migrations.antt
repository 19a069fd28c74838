-- ===== src/Repository/Migrations.antt =====
-- The migrations of internal/repository/db.go. What SQLite keeps and does, but for the table of
-- applied versions, is an argument, and so is the directory; a step gives `none` where the code
-- returns an error.
pub mod Steps
pub mod Reruns
pub mod Finished
pub mod Skipped
use jd_shop_server.Common.{
  ℕ, ◌∷◌, [], List, String, Bool, true, false, not, ◌&&◌, ◌||◌, Option, none, some, str_eq,
  if◌then◌else◌, ltb, ◌==◌, drop_chars,
}
use Prim.Native.Char.{code}

-- A database with its scripts: the run of one in a transaction, and without one, where the
-- statements before an error stay done; whether an object of a kind and a name exists; the columns of
-- a table.
pub record Engine (S : Type 0) : Type 0 where
  pub script : String → S → Option S
  pub loose_script : String → S → Bool × S
  pub object_exists : String → String → S → Bool
  pub columns : String → S → List String

-- The tables, the rows of schema_migrations (none if it is not there yet), and which of the next
-- statements fail.
pub record Store (S : Type 0) : Type 0 where
  pub tables : S
  pub applied : List String
  pub faults : List Bool

-- What the directory lists; a file that cannot be read has no content.
pub record Entry : Type 0 where
  pub name : String
  pub is_dir : Bool
  pub content : Option String

pub record Artifact : Type 0 where
  pub version : String
  pub kind : String
  pub name : String

unfoldable pub listed : String → List String → Bool
listed name [] = false
listed name (n ∷ names) = str_eq n name || listed name names

unfoldable pub is_prefix : String → String → Bool
is_prefix String.[] s = true
is_prefix (String.◌∷◌ c p) String.[] = false
is_prefix (String.◌∷◌ c p) (String.◌∷◌ d s) = code c == code d && is_prefix p s

unfoldable pub has_suffix : String → String → Bool
has_suffix String.[] suffix = str_eq String.[] suffix
has_suffix (String.◌∷◌ c s) suffix = str_eq (String.◌∷◌ c s) suffix || has_suffix s suffix

-- `strings.Replace(s, old, "", 1)`, `size` being the length of `old`.
unfoldable pub remove_first : String → ℕ → String → String
remove_first old size String.[] = String.[]
remove_first old size (String.◌∷◌ c s) =
    let rest = remove_first old size s in
    if is_prefix old (String.◌∷◌ c s) then drop_chars size (String.◌∷◌ c s) else String.◌∷◌ c rest

unfoldable pub precedes : String → String → Bool
precedes String.[] t = true
precedes (String.◌∷◌ c s) String.[] = false
precedes (String.◌∷◌ c s) (String.◌∷◌ d t) =
    ltb (code c) (code d) || (code c == code d && precedes s t)

-- `sort.Strings`.
unfoldable pub place : Entry → List Entry → List Entry
place f [] = f ∷ []
place f (g ∷ files) =
    let rest = place f files in if precedes f.name g.name then f ∷ g ∷ files else g ∷ rest

unfoldable pub migration_files : List Entry → List Entry
migration_files [] = []
migration_files (f ∷ entries) =
    let rest = migration_files entries in
    if not f.is_dir && has_suffix f.name ".sql" then place f rest else rest

abbrev pub phone_column : String
phone_column = "ALTER TABLE users ADD COLUMN phone TEXT;"

abbrev pub artifacts : List Artifact
artifacts =
    record { version = "001_init.sql"; kind = "table"; name = "users" }
    ∷ record {
      version = "002_user_access_control.sql";
      kind = "table";
      name = "user_access_control";
    }
    ∷ record { version = "003_user_auth_versions.sql"; kind = "table"; name = "user_auth_versions" }
    ∷ record {
      version = "004_registration_defaults.sql";
      kind = "table";
      name = "registration_defaults";
    }
    ∷ []

abbrev pub Step : Type 0 → Type 0 → Type 0
Step S A = Store S → Option A × Store S

module _ {S : Type 0} where
  abbrev pub pure : {A : Type 0} → A → Step S A
  pure a st = (some a, st)

  abbrev pub after : {A B : Type 0} → (A → Step S B) → Option A × Store S → Option B × Store S
  after f (none, st) = (none, st)
  after f (some a, st) = f a st

  infixl 5 ◌>>=◌ ◌>>◌
  unfoldable pub ◌>>=◌ : {A B : Type 0} → Step S A → (A → Step S B) → Step S B
  ◌>>=◌ m f st = after f (m st)

  abbrev pub ◌>>◌ : {B : Type 0} → Step S (Unit {0}) → Step S B → Step S B
  m >> k = m >>= λ _. k

  unfoldable pub schedule : {A : Type 0} → Step S A → List Bool → Step S A
  schedule f [] st = f (record st { faults = [] })
  schedule f (true ∷ faults) st = (none, record st { faults = faults })
  schedule f (false ∷ faults) st = f (record st { faults = faults })

  unfoldable pub statement : {A : Type 0} → Step S A → Step S A
  statement f st = schedule f st.faults st

  abbrev pub restored : {A : Type 0} → Store S → Option A × Store S → Option A × Store S
  restored before (some a, st) = (some a, st)
  restored before (none, st) =
      (none, record st { tables = before.tables; applied = before.applied })

  -- `db.Begin()`, the body, `tx.Commit()`; after any error all is as before.
  unfoldable pub transaction : Step S (Unit {0}) → Step S (Unit {0})
  transaction m st = restored st ((statement (pure tt) >> (m >> statement (pure tt))) st)

  unfoldable pub is_applied : String → Step S Bool
  is_applied version = statement (λ st. (some (listed version st.applied), st))

  abbrev pub recorded : String → Step S (Unit {0})
  recorded version st = (some tt, record st { applied = version ∷ st.applied })

  -- `INSERT`, which the primary key may refuse, and `INSERT OR IGNORE`.
  unfoldable pub insert_version : String → Step S (Unit {0})
  insert_version version =
      statement (λ st. if listed version st.applied then (none, st) else recorded version st)

  unfoldable pub insert_or_ignore : String → Step S (Unit {0})
  insert_or_ignore version =
      statement (λ st. if listed version st.applied then (some tt, st) else recorded version st)

  unfoldable pub read_file : Entry → Step S String
  read_file f st = (f.content, st)

  unfoldable pub read_dir : Option (List Entry) → Step S (List Entry)
  read_dir listing st = (listing, st)

  module _ (e : Engine S) where
    unfoldable pub schema_object_exists : String → String → Step S Bool
    schema_object_exists kind name =
        statement (λ st. (some (e.object_exists kind name st.tables), st))

    unfoldable pub column_exists : String → String → Step S Bool
    column_exists table column =
        statement (λ st. (some (listed column (e.columns table st.tables)), st))

    unfoldable pub reconcile_artifact : Artifact → Step S (Unit {0})
    reconcile_artifact a = do
      exists ← schema_object_exists a.kind a.name
      if exists then insert_or_ignore a.version else pure tt

    unfoldable pub reconcile_artifacts : List Artifact → Step S (Unit {0})
    reconcile_artifacts [] = pure tt
    reconcile_artifacts (a ∷ rest) = reconcile_artifact a >> reconcile_artifacts rest

    unfoldable pub reconcile_phone : Step S (Unit {0})
    reconcile_phone = do
      has_phone ← column_exists "users" "phone"
      has_sms ← schema_object_exists "table" "sms_verifications"
      has_phone_index ← schema_object_exists "index" "idx_users_phone"
      has_purpose_index ← schema_object_exists "index" "idx_sms_verifications_phone_purpose"
      has_sent_index ← schema_object_exists "index" "idx_sms_verifications_sent_at"
      if has_phone && has_sms && has_phone_index && has_purpose_index && has_sent_index
          then insert_or_ignore "005_phone_sms_auth.sql"
          else pure tt

    unfoldable pub reconcile_existing_migrations : Step S (Unit {0})
    reconcile_existing_migrations = reconcile_artifacts artifacts >> reconcile_phone

    unfoldable pub execute : String → Step S (Unit {0})
    execute content = statement λ st. elim (e.script content st.tables) [
      | none ↦ (none, st)
      | some tables ↦ (some tt, record st { tables = tables })
    ]

    unfoldable pub execute_loose : String → Step S (Unit {0})
    execute_loose content = statement λ st.
        let (ok, tables) = e.loose_script content st.tables in
        (if ok then some tt else none, record st { tables = tables })

    -- The script of 005 without the column that is there.
    unfoldable pub script_of : String → String → Step S String
    script_of name content =
        if str_eq name "005_phone_sms_auth.sql"
        then (column_exists "users" "phone" >>= λ has_phone.
            pure (if has_phone then remove_first phone_column 40 content else content))
        else pure content

    -- One turn of the loop over the files.
    unfoldable pub apply_new : Entry → Step S (Unit {0})
    apply_new f = do
      content ← read_file f
      script ← script_of f.name content
      if str_eq f.name "001_init.sql"
          then execute_loose script >> insert_version f.name
          else transaction (execute script >> insert_version f.name)

    unfoldable pub apply_file : Entry → Step S (Unit {0})
    apply_file f = is_applied f.name >>= λ applied. if applied then pure tt else apply_new f

    unfoldable pub apply_files : List Entry → Step S (Unit {0})
    apply_files [] = pure tt
    apply_files (f ∷ files) = apply_file f >> apply_files files

    unfoldable pub run_migrations : Option (List Entry) → Step S (Unit {0})
    run_migrations listing = do
      statement (pure tt)
      reconcile_existing_migrations
      entries ← read_dir listing
      apply_files (migration_files entries)
