-- ===== src/Repository/Migrations/Finished.antt =====
-- The migrations of internal/repository/db.go where no statement fails and every file was applied.
use jd_shop_server.Common.{
  ◌≡◌, refl, sym, ap, subst, ◌∙◌, List, [], ◌∷◌, String, Bool, true, false, Option, some, arith,
  if◌then◌else◌,
}
use jd_shop_server.Repository.Migrations.{
  Engine, Store, Entry, Artifact, Step, listed, pure, after, ◌>>=◌, schedule, statement, is_applied,
  insert_or_ignore, apply_new, apply_file, apply_files, migration_files, read_dir, run_migrations,
  reconcile_artifact, reconcile_artifacts, reconcile_phone, reconcile_existing_migrations,
  schema_object_exists, column_exists,
}
use jd_shop_server.Repository.Migrations.Steps.{
  quiet, keeps_statement, keeps_pure, keeps_is_applied, quiet-reconcile_existing_migrations,
}
use jd_shop_server.Repository.Migrations.Reruns.{
  is_applied-some, all_applied, all_applied-extends, apply_file-known, run_migrations-some,
  run_migrations-known,
}

-- A step that gives a value, and leaves no fault to come.
pub record Finishes {S A : Type 0} (m : Step S A) (st : Store S) : Type 0 where
  pub value : A
  pub end : Store S
  pub ran : m st ≡ (some value, end)
  pub calm : end.faults ≡ []

module _ {S : Type 0} where
  bind-Finishes :
      {A B : Type 0} (m : Step S A) (f : A → Step S B) (st : Store S)
      → Finishes m st
      → ((a : A) (s : Store S) → m st ≡ (some a, s) → s.faults ≡ [] → Finishes (f a) s)
      → Finishes (m >>= f) st
  unfolding ◌>>=◌
  bind-Finishes m f st first then_ =
      let next = then_ first.value first.end first.ran first.calm in
      record {
        value = next.value;
        end = next.end;
        ran = ap (after f) first.ran ∙ next.ran;
        calm = next.calm;
      }

  pure-Finishes : {A : Type 0} (a : A) (st : Store S) → st.faults ≡ [] → Finishes (pure a) st
  pure-Finishes a st calm = record { value = a; end = st; ran = refl; calm = calm }

  if-Finishes :
      {A : Type 0} (b : Bool) (m n : Step S A) (st : Store S)
      → Finishes m st
      → Finishes n st
      → Finishes (if b then m else n) st
  if-Finishes true m n st k l = k
  if-Finishes false m n st k l = l

  statement-Finishes :
      {A : Type 0} (f : Step S A) (st : Store S)
      → st.faults ≡ []
      → Finishes f (record st { faults = [] })
      → Finishes (statement f) st
  unfolding statement schedule
  statement-Finishes f st calm k = record {
    value = k.value;
    end = k.end;
    ran = ap (λ faults. schedule f faults st) calm ∙ k.ran;
    calm = k.calm;
  }

  query-Finishes :
      {A : Type 0} (f : Store S → A) (st : Store S)
      → st.faults ≡ []
      → Finishes (statement (λ s. (some (f s), s))) st
  query-Finishes f st calm =
      let idle = record st { faults = [] } in
      statement-Finishes _ st calm (record { value = f idle; end = idle; ran = refl; calm = refl })

  insert_or_ignore-Finishes :
      (version : String) (st : Store S) → st.faults ≡ [] → Finishes (insert_or_ignore version) st
  unfolding insert_or_ignore
  insert_or_ignore-Finishes version st calm =
      statement-Finishes _ st calm (go (listed version st.applied) refl)
    where
      go :
          (known : Bool)
          → listed version st.applied ≡ known
          → Finishes
              (λ s.
                if listed version s.applied
                then (some tt, s)
                else (some tt, record s { applied = version ∷ s.applied }))
              (record st { faults = [] })
      go true e = record {
        value = tt;
        end = record st { faults = [] };
        ran = rw e refl;
        calm = refl;
      }
      go false e = record {
        value = tt;
        end = record st { faults = []; applied = version ∷ st.applied };
        ran = rw e refl;
        calm = refl;
      }

module _ {S : Type 0} (e : Engine S) where
  reconcile_artifact-Finishes :
      (a : Artifact) (st : Store S) → st.faults ≡ [] → Finishes (reconcile_artifact e a) st
  unfolding reconcile_artifact schema_object_exists
  reconcile_artifact-Finishes a st calm =
      bind-Finishes _ _ st (query-Finishes _ st calm) λ exists s _ idle.
        if-Finishes exists _ _ s (insert_or_ignore-Finishes a.version s idle)
          (pure-Finishes tt s idle)

  reconcile_artifacts-Finishes :
      (rest : List Artifact) (st : Store S)
      → st.faults ≡ []
      → Finishes (reconcile_artifacts e rest) st
  unfolding reconcile_artifacts
  reconcile_artifacts-Finishes [] st calm = pure-Finishes tt st calm
  reconcile_artifacts-Finishes (a ∷ rest) st calm =
      bind-Finishes _ _ st (reconcile_artifact-Finishes a st calm)
        (λ _ s _ idle. reconcile_artifacts-Finishes rest s idle)

  reconcile_phone-Finishes : (st : Store S) → st.faults ≡ [] → Finishes (reconcile_phone e) st
  unfolding reconcile_phone schema_object_exists column_exists
  reconcile_phone-Finishes st calm =
      bind-Finishes _ _ st (query-Finishes _ st calm) λ phone s1 _ c1.
        bind-Finishes _ _ s1 (query-Finishes _ s1 c1) λ sms s2 _ c2.
          bind-Finishes _ _ s2 (query-Finishes _ s2 c2) λ first s3 _ c3.
            bind-Finishes _ _ s3 (query-Finishes _ s3 c3) λ second s4 _ c4.
              bind-Finishes _ _ s4 (query-Finishes _ s4 c4) λ third s5 _ c5.
                if-Finishes _ _ _ s5 (insert_or_ignore-Finishes _ s5 c5) (pure-Finishes tt s5 c5)

  reconcile_existing_migrations-Finishes :
      (st : Store S) → st.faults ≡ [] → Finishes (reconcile_existing_migrations e) st
  unfolding reconcile_existing_migrations
  reconcile_existing_migrations-Finishes st calm =
      bind-Finishes _ _ st (reconcile_artifacts-Finishes _ st calm)
        (λ _ s _ idle. reconcile_phone-Finishes s idle)

  apply_file-Finishes :
      (f : Entry) (st : Store S)
      → listed f.name st.applied ≡ true
      → st.faults ≡ []
      → Finishes (apply_file e f) st
  unfolding apply_file is_applied
  apply_file-Finishes f st known calm =
      bind-Finishes _ _ st (query-Finishes _ st calm) λ applied s h idle.
        let still =
          subst (λ r. listed f.name r.1.applied ≡ true) h
            (((keeps_is_applied (quiet S) f.name).kept st).0 f.name known) in
        subst (λ b. Finishes (if b then pure tt else apply_new e f) s)
          (sym (is_applied-some f.name st h ∙ still)) (pure-Finishes tt s idle)

  apply_files-Finishes :
      (files : List Entry) (st : Store S)
      → all_applied files st.applied ≡ true
      → st.faults ≡ []
      → Finishes (apply_files e files) st
  unfolding apply_files all_applied
  apply_files-Finishes [] st all calm = pure-Finishes tt st calm
  apply_files-Finishes (f ∷ files) st all calm =
      let rest : all_applied files st.applied ≡ true = ground arith in
      bind-Finishes _ _ st (apply_file-Finishes f st (ground arith) calm) λ _ s h idle.
        apply_files-Finishes files s
          (subst (λ r. all_applied files r.1.applied ≡ true) h
            (all_applied-extends files st (apply_file e f st).1
              ((apply_file-known e f st (ground arith)).0) rest))
          idle

  read_dir-Finishes :
      (entries : List Entry) (st : Store S)
      → Finishes (apply_files e (migration_files entries)) st
      → Finishes (read_dir (some entries) >>= λ listing. apply_files e (migration_files listing)) st
  unfolding read_dir ◌>>=◌
  read_dir-Finishes entries st k = k

  run_migrations-Finishes :
      (entries : List Entry) (st : Store S)
      → all_applied (migration_files entries) st.applied ≡ true
      → st.faults ≡ []
      → Finishes (run_migrations e (some entries)) st
  unfolding run_migrations read_dir
  run_migrations-Finishes entries st all calm =
      let files = migration_files entries in
      let begun = (keeps_statement (quiet S) _ (keeps_pure (quiet S) tt)).kept st in
      bind-Finishes _ _ st (statement-Finishes _ st calm (pure-Finishes tt _ refl)) λ _ s1 h1 c1.
        bind-Finishes _ _ s1 (reconcile_existing_migrations-Finishes s1 c1) λ _ s2 h2 c2.
          read_dir-Finishes entries s2 (
            apply_files-Finishes files s2
              (all_applied-extends files s1 s2
                (subst (λ r. (quiet S).holds s1 r.1) h2
                  ((quiet-reconcile_existing_migrations e).kept s1)).0
                (all_applied-extends files st s1 (subst (λ r. (quiet S).holds st r.1) h1 begun).0
                  all))
              c2)

  -- Where a run of the migrations succeeds, the directory could be listed, and each of its .sql
  -- files is recorded as applied; a further run over the same listing leaves the tables as they are,
  -- whatever statements of it fail, and succeeds if none does.
  pub run_migrations-again :
      (listing : Option (List Entry)) (st : Store S) {st' : Store S}
      → run_migrations e listing st ≡ (some tt, st')
      → (faults : List Bool)
      → (entries : List Entry) × (listing ≡ some entries)
        × (all_applied (migration_files entries) st'.applied ≡ true)
        × ((run_migrations e listing (record st' { faults = faults })).1.tables ≡ st'.tables)
        × ((run_migrations e listing (record st' { faults = [] })).0 ≡ some tt)
  run_migrations-again listing st {st'} h faults =
      let (entries, same, all) = run_migrations-some e listing st h in
      let k = run_migrations-known e entries (record st' { faults = faults }) all in
      let done = run_migrations-Finishes entries (record st' { faults = [] }) all refl in
      (entries, same, all, rw same (k.1), rw same (ap (λ r. r.0) done.ran))
