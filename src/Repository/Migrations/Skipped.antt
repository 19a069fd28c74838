-- ===== src/Repository/Migrations/Skipped.antt =====
-- What internal/repository/db.go makes of a database with a table of users: the first script counts as
-- applied.
use jd_shop_server.Common.{
  ◌≡◌, refl, sym, ap, subst, ◌∙◌, List, [], ◌∷◌, String, Bool, true, false, Option, none, some,
  if◌then◌else◌, str_eq, eq_iff,
}
use jd_shop_server.Repository.Migrations.{
  Engine, Store, Entry, Artifact, Step, listed, pure, after, ◌>>=◌, statement, is_applied,
  insert_or_ignore, recorded, read_file, execute, script_of, apply_new, apply_file, apply_files,
  migration_files, read_dir, run_migrations, artifacts, reconcile_artifact, reconcile_artifacts,
  reconcile_phone, reconcile_existing_migrations, schema_object_exists, column_exists,
}
use jd_shop_server.Repository.Migrations.Steps.{
  quiet, keeps_statement, keeps_pure, keeps_query, keeps_is_applied, extends-apply_file,
  quiet-reconcile_artifacts, quiet-reconcile_phone,
}
use jd_shop_server.Repository.Migrations.Reruns.{
  bind-some, statement-some, is_applied-some, recorded-listed,
}

bind-cong :
    {S A B : Type 0} (m m' : Step S A) (f f' : A → Step S B) (st : Store S)
    → m st ≡ m' st
    → ((a : A) (s : Store S) → m st ≡ (some a, s) → f a s ≡ f' a s)
    → (m >>= f) st ≡ (m' >>= f') st
unfolding ◌>>=◌
bind-cong {S} {A} {B} m m' f f' st same each = go (m st) refl ∙ ap (after f') same
  where
    go : (r : Option A × Store S) → m st ≡ r → after f r ≡ after f' r
    go (none, s) e = refl
    go (some a, s) e = each a s e

unpicked :
    {A B : Type 0} (b : Bool) (m m' n : A → B) (s : A)
    → b ≡ false
    → (if b then m else n) s ≡ (if b then m' else n) s
unpicked false m m' n s h = refl
unpicked true m m' n s h = cc

picked :
    {A B : Type 0} (b : Bool) (m n : A → B) (s : A) {r : B}
    → b ≡ true
    → (if b then m else n) s ≡ r
    → m s ≡ r
picked true m n s h e = e
picked false m n s h e = cc

listed-not_first :
    (name first : String) (applied : List String)
    → listed first applied ≡ true
    → listed name applied ≡ false
    → str_eq name first ≡ false
listed-not_first name first applied known missing = go (str_eq name first) refl
  where
    go : (b : Bool) → str_eq name first ≡ b → b ≡ false
    go false e = refl
    go true e =
        let same : name ≡ first = (eq_iff name first).0 e in
        let both : listed name applied ≡ true =
          subst (λ n. listed n applied ≡ true) (sym same) known in
        cc

module _ {S : Type 0} (e : Engine S) (loose : String → S → Bool × S) where
  abbrev loosened : Engine S
  loosened = record e { loose_script = loose }

  apply_new-changed :
      (f : Entry) (st : Store S)
      → str_eq f.name "001_init.sql" ≡ false
      → apply_new e f st ≡ apply_new loosened f st
  unfolding apply_new script_of column_exists execute
  apply_new-changed f st other = bind-cong (read_file f) (read_file f) _ _ st refl λ content s1 _.
      bind-cong (script_of e f.name content) _ _ _ s1 refl
        λ script s2 _. unpicked (str_eq f.name "001_init.sql") _ _ _ s2 other

  apply_file-changed :
      (f : Entry) (st : Store S)
      → listed "001_init.sql" st.applied ≡ true
      → apply_file e f st ≡ apply_file loosened f st
  unfolding apply_file
  apply_file-changed f st known =
      bind-cong (is_applied f.name) (is_applied f.name) _ _ st refl λ applied s h.
        go applied s (is_applied-some f.name st h) (
          subst (λ r. listed "001_init.sql" r.1.applied ≡ true) h
            (((keeps_is_applied (quiet S) f.name).kept st).0 "001_init.sql" known))
    where
      go :
          (applied : Bool) (s : Store S)
          → applied ≡ listed f.name s.applied
          → listed "001_init.sql" s.applied ≡ true
          → (if applied then pure tt else apply_new e f) s
            ≡ (if applied then pure tt else apply_new loosened f) s
      go true s _ _ = refl
      go false s missing first =
          apply_new-changed f s
            (listed-not_first f.name "001_init.sql" s.applied first (sym missing))

  apply_files-changed :
      (files : List Entry) (st : Store S)
      → listed "001_init.sql" st.applied ≡ true
      → apply_files e files st ≡ apply_files loosened files st
  unfolding apply_files
  apply_files-changed [] st known = refl
  apply_files-changed (f ∷ files) st known =
      bind-cong (apply_file e f) (apply_file loosened f) _ _ st (apply_file-changed f st known)
        λ _ s h. apply_files-changed files s (
          subst (λ r. listed "001_init.sql" r.1.applied ≡ true) h
            ((extends-apply_file e f).kept st "001_init.sql" known))

insert_or_ignore-some :
    {S : Type 0} (name : String) (st : Store S) {st' : Store S}
    → insert_or_ignore name st ≡ (some tt, st')
    → listed name st'.applied ≡ true
unfolding insert_or_ignore
insert_or_ignore-some {S} name st {st'} h =
    let (at, e) = statement-some _ st h in go (listed name at.applied) at refl e
  where
    go :
        (known : Bool) (at : Store S)
        → listed name at.applied ≡ known
        → ◌≡◌ {A = Option (Unit {0}) × Store S}
            (if known then (some tt, at) else recorded name at)
            (some tt, st')
        → listed name st'.applied ≡ true
    go true at k e = subst (λ r. listed name r.1.applied ≡ true) e k
    go false at k e = subst (λ r. listed name r.1.applied ≡ true) e (recorded-listed name at)

module _ {S : Type 0} (e : Engine S) where
  reconcile_artifact-some :
      (a : Artifact) (st : Store S) {st' : Store S}
      → e.object_exists a.kind a.name st.tables ≡ true
      → reconcile_artifact e a st ≡ (some tt, st')
      → listed a.version st'.applied ≡ true
  unfolding reconcile_artifact schema_object_exists
  reconcile_artifact-some a st {st'} there h =
      let (exists, s1, h1, h2) = bind-some (schema_object_exists e a.kind a.name) _ st h in
      let (at, found) = statement-some _ st h1 in
      let same : s1.tables ≡ st.tables =
        ap (λ r. r.1.tables) (sym h1)
        ∙ ((keeps_query (quiet S) (λ s. e.object_exists a.kind a.name s.tables)).kept st).1 in
      let there' = subst (λ t. e.object_exists a.kind a.name t ≡ true) (sym same) there in
      let place : at ≡ s1 = ap (λ r. r.1) found in
      let answer : some (e.object_exists a.kind a.name at.tables) ≡ some exists =
        ap (λ r. r.0) found in
      let yes : exists ≡ true = cc in
      insert_or_ignore-some a.version s1
        (picked exists (insert_or_ignore a.version) (pure tt) s1 yes h2)

  reconcile_artifacts-some :
      (a : Artifact) (rest : List Artifact) (st : Store S) {st' : Store S}
      → e.object_exists a.kind a.name st.tables ≡ true
      → reconcile_artifacts e (a ∷ rest) st ≡ (some tt, st')
      → listed a.version st'.applied ≡ true
  unfolding reconcile_artifacts
  reconcile_artifacts-some a rest st there h =
      let (_, s1, h1, h2) = bind-some (reconcile_artifact e a) _ st h in
      subst (λ r. listed a.version r.1.applied ≡ true) h2
        (((quiet-reconcile_artifacts e rest).kept s1).0 a.version
          (reconcile_artifact-some a st there h1))

  reconcile_existing_migrations-some :
      (st : Store S) {st' : Store S}
      → e.object_exists "table" "users" st.tables ≡ true
      → reconcile_existing_migrations e st ≡ (some tt, st')
      → listed "001_init.sql" st'.applied ≡ true
  unfolding reconcile_existing_migrations
  reconcile_existing_migrations-some st there h =
      let (_, s1, h1, h2) = bind-some (reconcile_artifacts e artifacts) _ st h in
      subst (λ r. listed "001_init.sql" r.1.applied ≡ true) h2
        (((quiet-reconcile_phone e).kept s1).0 "001_init.sql"
          (reconcile_artifacts-some _ _ st there h1))

control_tables :
    {S : Type 0} (st : Store S) {a : Unit {0}} {st' : Store S}
    → statement (pure tt) st ≡ (some a, st')
    → st'.tables ≡ st.tables
control_tables {S} st h =
    ap (λ r. r.1.tables) (sym h)
    ∙ ((keeps_statement (quiet S) (pure tt) (keeps_pure (quiet S) tt)).kept st).1

-- On a database with a table of users, the run of the migrations is the same whatever the scripts
-- that are run outside a transaction do, which is 001_init.sql.
pub run_migrations-changed :
    {S : Type 0} (e : Engine S) (loose : String → S → Bool × S) (listing : Option (List Entry))
    (st : Store S)
    → e.object_exists "table" "users" st.tables ≡ true
    → run_migrations e listing st ≡ run_migrations (record e { loose_script = loose }) listing st
unfolding run_migrations reconcile_existing_migrations reconcile_artifacts reconcile_phone
    reconcile_artifact schema_object_exists column_exists read_dir
run_migrations-changed {S} e loose listing st there =
    bind-cong (statement (pure tt)) (statement (pure tt)) _ _ st refl λ _ s1 h1.
      bind-cong (reconcile_existing_migrations e) (reconcile_existing_migrations e) _ _ s1 refl
        λ _ s2 h2. bind-cong (read_dir listing) (read_dir listing) _ _ s2 refl λ entries s3 h3.
          apply_files-changed e loose (migration_files entries) s3 (
            subst (λ r. listed "001_init.sql" r.1.applied ≡ true) h3
              (reconcile_existing_migrations-some e s1
                (subst (λ t. e.object_exists "table" "users" t ≡ true) (sym (control_tables st h1))
                  there)
                h2))
