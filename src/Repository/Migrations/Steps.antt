-- ===== src/Repository/Migrations/Steps.antt =====
-- What the steps of the migrations of internal/repository/db.go keep.
use jd_shop_server.Common.{
  ◌≡◌, refl, ◌∙◌, List, [], ◌∷◌, String, Bool, true, false, Option, none, some, Bool-cases, inl,
  inr, arith, if◌then◌else◌, Option-cases, str_eq,
}
use jd_shop_server.Repository.Migrations.{
  Engine, Store, Entry, Artifact, Step, listed, pure, after, ◌>>=◌, schedule, statement, restored,
  transaction, is_applied, insert_version, insert_or_ignore, read_file, schema_object_exists,
  column_exists, reconcile_artifact, reconcile_artifacts, reconcile_phone,
  reconcile_existing_migrations, execute, execute_loose, script_of, apply_new, apply_file,
  apply_files, artifacts,
}

-- A relation of stores that a change of the schedule of faults keeps.
pub record Order (S : Type 0) : Type 1 where
  pub holds : Store S → Store S → Type 0
  pub reschedules : (st : Store S) (faults : List Bool) → holds st (record st { faults = faults })
  pub joins : {a b c : Store S} → holds a b → holds b c → holds a c

-- No version is taken out of the table.
abbrev pub extends : (S : Type 0) → Order S
extends S = record {
  holds = λ a b. (v : String) → listed v a.applied ≡ true → listed v b.applied ≡ true;
  reschedules = λ st faults v h. h;
  joins = λ f g v h. g v (f v h);
}

-- The tables are left, and no version is taken out.
abbrev pub quiet : (S : Type 0) → Order S
quiet S = record {
  holds = λ a b.
      ((v : String) → listed v a.applied ≡ true → listed v b.applied ≡ true)
      × (b.tables ≡ a.tables);
  reschedules = λ st faults. (λ v h. h, refl);
  joins = λ f g. (λ v h. g.0 v (f.0 v h), g.1 ∙ f.1);
}

pub record Keeps {S A : Type 0} (o : Order S) (m : Step S A) : Type 0 where
  pub kept : (st : Store S) → o.holds st (m st).1

module _ {S : Type 0} (o : Order S) where
  pub keeps_pure : {A : Type 0} (a : A) → Keeps o (pure a)
  keeps_pure a = record { kept = λ st. o.reschedules st st.faults }

  keeps_after :
      {A B : Type 0} (f : A → Step S B) (st : Store S) (r : Option A × Store S)
      → o.holds st r.1
      → ((a : A) → Keeps o (f a))
      → o.holds st (after f r).1
  keeps_after f st (none, st') h k = h
  keeps_after f st (some a, st') h k = o.joins h ((k a).kept st')

  pub keeps_bind :
      {A B : Type 0} (m : Step S A) (f : A → Step S B)
      → Keeps o m
      → ((a : A) → Keeps o (f a))
      → Keeps o (m >>= f)
  unfolding ◌>>=◌
  keeps_bind m f km kf = record { kept = λ st. keeps_after f st (m st) (km.kept st) kf }

  keeps_schedule :
      {A : Type 0} (f : Step S A) (faults : List Bool) (st : Store S)
      → Keeps o f
      → o.holds st (schedule f faults st).1
  unfolding schedule
  keeps_schedule f [] st k = o.joins (o.reschedules st []) (k.kept (record st { faults = [] }))
  keeps_schedule f (true ∷ faults) st k = o.reschedules st faults
  keeps_schedule f (false ∷ faults) st k =
      o.joins (o.reschedules st faults) (k.kept (record st { faults = faults }))

  pub keeps_statement : {A : Type 0} (f : Step S A) → Keeps o f → Keeps o (statement f)
  unfolding statement
  keeps_statement f k = record { kept = λ st. keeps_schedule f st.faults st k }

  keeps_restored :
      (st : Store S) (r : Option (Unit {0}) × Store S)
      → o.holds st r.1
      → o.holds st (restored st r).1
  keeps_restored st (none, st') h = o.reschedules st st'.faults
  keeps_restored st (some a, st') h = h

  keeps_control : Keeps o (statement (pure tt))
  keeps_control = keeps_statement (pure tt) (keeps_pure tt)

  pub keeps_transaction : (m : Step S (Unit {0})) → Keeps o m → Keeps o (transaction m)
  unfolding transaction
  keeps_transaction m k =
      let body = keeps_bind _ _ keeps_control (λ _. keeps_bind m _ k (λ _. keeps_control)) in
      record { kept = λ st. keeps_restored st _ (body.kept st) }

  pub keeps_if :
      {A : Type 0} (b : Bool) (m n : Step S A)
      → Keeps o m
      → Keeps o n
      → Keeps o (if b then m else n)
  keeps_if true m n k l = k
  keeps_if false m n k l = l

  pub keeps_query : {A : Type 0} (f : Store S → A) → Keeps o (statement (λ st. (some (f st), st)))
  keeps_query f = keeps_statement _ (record { kept = λ st. o.reschedules st st.faults })

  pub keeps_is_applied : (name : String) → Keeps o (is_applied name)
  unfolding is_applied
  keeps_is_applied name = keeps_query (λ st. listed name st.applied)

recorded_listed :
    (version v : String) (applied : List String)
    → listed v applied ≡ true
    → listed v (version ∷ applied) ≡ true
unfolding listed
recorded_listed version v applied h = ground arith

module _ (S : Type 0) where
  quiet-insert_or_ignore : (version : String) → Keeps (quiet S) (insert_or_ignore version)
  unfolding insert_or_ignore
  quiet-insert_or_ignore version = keeps_statement (quiet S) _ (record {
    kept = λ st. elim (Bool-cases (listed version st.applied)) [
      | inl known ↦ rw known (λ v h. h, refl)
      | inr new ↦ rw new (λ v h. recorded_listed version v st.applied h, refl)
    ];
  })

  extends-insert_version : (version : String) → Keeps (extends S) (insert_version version)
  unfolding insert_version
  extends-insert_version version = keeps_statement (extends S) _ (record {
    kept = λ st. elim (Bool-cases (listed version st.applied)) [
      | inl known ↦ rw known (λ v h. h)
      | inr new ↦ rw new (λ v h. recorded_listed version v st.applied h)
    ];
  })

module _ {S : Type 0} (e : Engine S) where
  extends-execute : (content : String) → Keeps (extends S) (execute e content)
  unfolding execute
  extends-execute content = keeps_statement (extends S) _ (record {
    kept = λ st. elim (Option-cases (e.script content st.tables)) [
      | inl failed ↦ rw failed (λ v h. h)
      | inr (tables, done) ↦ rw done (λ v h. h)
    ];
  })

  extends-execute_loose : (content : String) → Keeps (extends S) (execute_loose e content)
  unfolding execute_loose
  extends-execute_loose content = keeps_statement (extends S) _ (record { kept = λ st v h. h })

  module _ (o : Order S) where
    keeps_script_of : (name content : String) → Keeps o (script_of e name content)
    unfolding script_of column_exists
    keeps_script_of name content =
        keeps_if o (str_eq name "005_phone_sms_auth.sql") _ _
          (keeps_bind o _ _ (keeps_query o _) (λ has. keeps_pure o _)) (keeps_pure o _)

  extends-apply_new : (f : Entry) → Keeps (extends S) (apply_new e f)
  unfolding apply_new read_file
  extends-apply_new f =
      keeps_bind (extends S) _ _ (record { kept = λ st v h. h })
        λ content. keeps_bind (extends S) _ _ (keeps_script_of (extends S) f.name content) λ script.
          keeps_if (extends S) (str_eq f.name "001_init.sql") _ _
            (keeps_bind (extends S) _ _ (extends-execute_loose script)
              (λ _. extends-insert_version S f.name))
            (keeps_transaction (extends S) _ (
              keeps_bind (extends S) _ _ (extends-execute script)
                (λ _. extends-insert_version S f.name)))

  pub extends-apply_file : (f : Entry) → Keeps (extends S) (apply_file e f)
  unfolding apply_file
  extends-apply_file f =
      keeps_bind (extends S) _ _ (keeps_is_applied (extends S) f.name) λ applied.
        keeps_if (extends S) applied _ _ (keeps_pure (extends S) tt) (extends-apply_new f)

  pub extends-apply_files : (files : List Entry) → Keeps (extends S) (apply_files e files)
  unfolding apply_files
  extends-apply_files [] = keeps_pure (extends S) tt
  extends-apply_files (f ∷ files) =
      keeps_bind (extends S) _ _ (extends-apply_file f) (λ _. extends-apply_files files)

  quiet-reconcile_artifact : (a : Artifact) → Keeps (quiet S) (reconcile_artifact e a)
  unfolding reconcile_artifact schema_object_exists
  quiet-reconcile_artifact a = keeps_bind (quiet S) _ _ (keeps_query (quiet S) _) λ exists.
      keeps_if (quiet S) exists _ _ (quiet-insert_or_ignore S a.version) (keeps_pure (quiet S) tt)

  pub quiet-reconcile_artifacts :
      (rest : List Artifact) → Keeps (quiet S) (reconcile_artifacts e rest)
  unfolding reconcile_artifacts
  quiet-reconcile_artifacts [] = keeps_pure (quiet S) tt
  quiet-reconcile_artifacts (a ∷ rest) =
      keeps_bind (quiet S) _ _ (quiet-reconcile_artifact a) (λ _. quiet-reconcile_artifacts rest)

  pub quiet-reconcile_phone : Keeps (quiet S) (reconcile_phone e)
  unfolding reconcile_phone schema_object_exists column_exists
  quiet-reconcile_phone = keeps_bind (quiet S) _ _ (keeps_query (quiet S) _) λ phone.
      keeps_bind (quiet S) _ _ (keeps_query (quiet S) _) λ sms.
        keeps_bind (quiet S) _ _ (keeps_query (quiet S) _) λ first.
          keeps_bind (quiet S) _ _ (keeps_query (quiet S) _) λ second.
            keeps_bind (quiet S) _ _ (keeps_query (quiet S) _) λ third.
              keeps_if (quiet S) _ _ _ (quiet-insert_or_ignore S _) (keeps_pure (quiet S) tt)

  pub quiet-reconcile_existing_migrations : Keeps (quiet S) (reconcile_existing_migrations e)
  unfolding reconcile_existing_migrations
  quiet-reconcile_existing_migrations =
      keeps_bind (quiet S) _ _ (quiet-reconcile_artifacts artifacts) (λ _. quiet-reconcile_phone)
