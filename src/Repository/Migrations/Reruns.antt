-- ===== src/Repository/Migrations/Reruns.antt =====
-- Runs of the migrations of internal/repository/db.go over a directory that was run before.
use jd_shop_server.Common.{
  ◌≡◌, refl, sym, ap, subst, ◌∙◌, List, [], ◌∷◌, String, Bool, true, false, ◌&&◌, Option, none,
  some, arith, if◌then◌else◌, str_eq_refl, str_eq,
}
use jd_shop_server.Repository.Migrations.{
  Engine, Store, Entry, Step, listed, pure, after, ◌>>=◌, ◌>>◌, schedule, statement, restored,
  transaction, is_applied, insert_version, recorded, read_file, execute, execute_loose, script_of,
  apply_new, apply_file, apply_files, migration_files, read_dir, run_migrations,
  reconcile_existing_migrations,
}
use jd_shop_server.Repository.Migrations.Steps.{
  extends, quiet, keeps_statement, keeps_pure, keeps_is_applied, extends-apply_files,
  quiet-reconcile_existing_migrations,
}

module _ {S : Type 0} where
  pub bind-some :
      {A B : Type 0} (m : Step S A) (f : A → Step S B) (st : Store S) {b : B} {st' : Store S}
      → (m >>= f) st ≡ (some b, st')
      → (a : A) × (mid : Store S) × (m st ≡ (some a, mid)) × (f a mid ≡ (some b, st'))
  unfolding ◌>>=◌
  bind-some {A} {B} m f st {b} {st'} h = go (m st) refl h
    where
      go :
          (r : Option A × Store S)
          → m st ≡ r
          → after f r ≡ (some b, st')
          → (a : A) × (mid : Store S) × (m st ≡ (some a, mid)) × (f a mid ≡ (some b, st'))
      go (none, mid) e h = cc
      go (some a, mid) e h = (a, mid, e, h)

  -- The store in which a statement that succeeds was done.
  pub statement-some :
      {A : Type 0} (f : Step S A) (st : Store S) {a : A} {st' : Store S}
      → statement f st ≡ (some a, st')
      → (at : Store S) × (f at ≡ (some a, st'))
  unfolding statement schedule
  statement-some {A} f st {a} {st'} h = go st.faults h
    where
      go :
          (faults : List Bool)
          → schedule f faults st ≡ (some a, st')
          → (at : Store S) × (f at ≡ (some a, st'))
      go [] h = (record st { faults = [] }, h)
      go (true ∷ faults) h = cc
      go (false ∷ faults) h = (record st { faults = faults }, h)

  pub is_applied-some :
      (name : String) (st : Store S) {applied : Bool} {st' : Store S}
      → is_applied name st ≡ (some applied, st')
      → applied ≡ listed name st'.applied
  unfolding is_applied
  is_applied-some name st h = let (at, e) = statement-some _ st h in cc

  pub recorded-listed :
      (name : String) (at : Store S) → listed name (recorded name at).1.applied ≡ true
  unfolding listed
  recorded-listed name at = let own = str_eq_refl name in ground arith

  insert_version-some :
      (name : String) (st : Store S) {st' : Store S}
      → insert_version name st ≡ (some tt, st')
      → listed name st'.applied ≡ true
  unfolding insert_version
  insert_version-some name st {st'} h =
      let (at, e) = statement-some _ st h in go (listed name at.applied) at e
    where
      go :
          (known : Bool) (at : Store S)
          → ◌≡◌ {A = Option (Unit {0}) × Store S}
              (if known then (none, at) else recorded name at)
              (some tt, st')
          → listed name st'.applied ≡ true
      go true at e = cc
      go false at e = subst (λ r. listed name r.1.applied ≡ true) e (recorded-listed name at)

  transaction-some :
      (m : Step S (Unit {0})) (st : Store S) {st' : Store S}
      → transaction m st ≡ (some tt, st')
      → (statement (pure tt) >> (m >> statement (pure tt))) st ≡ (some tt, st')
  unfolding transaction
  transaction-some m st {st'} h = go _ refl h
    where
      go :
          (r : Option (Unit {0}) × Store S)
          → (statement (pure tt) >> (m >> statement (pure tt))) st ≡ r
          → restored st r ≡ (some tt, st')
          → (statement (pure tt) >> (m >> statement (pure tt))) st ≡ (some tt, st')
      go (none, at) e h = cc
      go (some a, at) e h = e ∙ h

quiet-bind :
    {S A B : Type 0} (m : Step S A) (f : A → Step S B) (st : Store S)
    → (quiet S).holds st (m st).1
    → ((a : A) (s : Store S)
        → m st ≡ (some a, s)
        → (quiet S).holds st s
        → (quiet S).holds s (f a s).1)
    → (quiet S).holds st ((m >>= f) st).1
unfolding ◌>>=◌
quiet-bind {S} {A} m f st k l = go (m st) refl k
  where
    go :
        (r : Option A × Store S)
        → m st ≡ r
        → (quiet S).holds st r.1
        → (quiet S).holds st (after f r).1
    go (none, s) e k = k
    go (some a, s) e k = (quiet S).joins {a = st} {b = s} {c = (f a s).1} k (l a s e k)

-- Whether all files were applied.
unfoldable pub all_applied : List Entry → List String → Bool
all_applied [] applied = true
all_applied (f ∷ files) applied = listed f.name applied && all_applied files applied

pub all_applied-extends :
    {S : Type 0} (files : List Entry) (a b : Store S)
    → (extends S).holds a b
    → all_applied files a.applied ≡ true
    → all_applied files b.applied ≡ true
unfolding all_applied
all_applied-extends [] a b k h = refl
all_applied-extends (f ∷ files) a b k h =
    let first = k f.name (ground arith) in
    let rest = all_applied-extends files a b k (ground arith) in ground arith

module _ {S : Type 0} (e : Engine S) where
  apply_new-some :
      (f : Entry) (st : Store S) {st' : Store S}
      → apply_new e f st ≡ (some tt, st')
      → listed f.name st'.applied ≡ true
  unfolding apply_new
  apply_new-some f st {st'} h =
      let (content, s1, _, h1) = bind-some (read_file f) _ st h in
      let (script, s2, _, h2) = bind-some (script_of e f.name content) _ s1 h1 in
      go (str_eq f.name "001_init.sql") script s2 h2
    where
      go :
          (first : Bool) (script : String) (s : Store S)
          → (if first
                then execute_loose e script >> insert_version f.name
                else transaction (execute e script >> insert_version f.name))
              s
            ≡ (some tt, st')
          → listed f.name st'.applied ≡ true
      go true script s h =
          let (_, s1, _, h1) = bind-some (execute_loose e script) _ s h in
          insert_version-some f.name s1 h1
      go false script s h =
          let h0 = transaction-some (execute e script >> insert_version f.name) s h in
          let (_, s1, _, h1) = bind-some (statement (pure tt)) _ s h0 in
          let (_, s2, h2, h3) = bind-some (execute e script >> insert_version f.name) _ s1 h1 in
          let (_, s3, _, h4) = bind-some (execute e script) _ s1 h2 in
          let kept = (keeps_statement (extends S) (pure tt) (keeps_pure (extends S) tt)).kept s2 in
          let known = insert_version-some f.name s3 h4 in
          subst (λ r. listed f.name r.1.applied ≡ true) h3 (kept f.name known)

  apply_file-some :
      (f : Entry) (st : Store S) {st' : Store S}
      → apply_file e f st ≡ (some tt, st')
      → listed f.name st'.applied ≡ true
  unfolding apply_file
  apply_file-some f st {st'} h =
      let (applied, s1, h1, h2) = bind-some (is_applied f.name) _ st h in
      go applied s1 (is_applied-some f.name st h1) h2
    where
      go :
          (applied : Bool) (s : Store S)
          → applied ≡ listed f.name s.applied
          → (if applied then pure tt else apply_new e f) s ≡ (some tt, st')
          → listed f.name st'.applied ≡ true
      go true s known h = subst (λ r. listed f.name r.1.applied ≡ true) h (sym known)
      go false s known h = apply_new-some f s h

  apply_files-some :
      (files : List Entry) (st : Store S) {st' : Store S}
      → apply_files e files st ≡ (some tt, st')
      → all_applied files st'.applied ≡ true
  unfolding apply_files all_applied
  apply_files-some [] st h = refl
  apply_files-some (f ∷ files) st {st'} h =
      let (_, s1, h1, h2) = bind-some (apply_file e f) _ st h in
      let rest = apply_files-some files s1 h2 in
      let first =
        subst (λ r. listed f.name r.1.applied ≡ true) h2
          ((extends-apply_files e files).kept s1 f.name (apply_file-some f st h1)) in
      ground arith

  -- A file that was applied is passed over.
  pub apply_file-known :
      (f : Entry) (st : Store S)
      → listed f.name st.applied ≡ true
      → (quiet S).holds st (apply_file e f st).1
  unfolding apply_file
  apply_file-known f st known =
      quiet-bind (is_applied f.name) _ st ((keeps_is_applied (quiet S) f.name).kept st)
        (λ applied s h k. go applied s (is_applied-some f.name st h) (k.0 f.name known))
    where
      go :
          (applied : Bool) (s : Store S)
          → applied ≡ listed f.name s.applied
          → listed f.name s.applied ≡ true
          → (quiet S).holds s ((if applied then pure tt else apply_new e f) s).1
      go true s _ _ = (λ v p. p, refl)
      go false s missing still = let absurd_case : false ≡ true = missing ∙ still in cc

  apply_files-known :
      (files : List Entry) (st : Store S)
      → all_applied files st.applied ≡ true
      → (quiet S).holds st (apply_files e files st).1
  unfolding apply_files all_applied
  apply_files-known [] st h = (λ v p. p, refl)
  apply_files-known (f ∷ files) st h =
      let rest : all_applied files st.applied ≡ true = ground arith in
      quiet-bind (apply_file e f) _ st (apply_file-known f st (ground arith))
        (λ _ s _ k. apply_files-known files s (all_applied-extends files st s k.0 rest))

  pub run_migrations-some :
      (listing : Option (List Entry)) (st : Store S) {st' : Store S}
      → run_migrations e listing st ≡ (some tt, st')
      → (entries : List Entry) × (listing ≡ some entries)
        × (all_applied (migration_files entries) st'.applied ≡ true)
  unfolding run_migrations read_dir
  run_migrations-some listing st h =
      let (_, s1, _, h1) = bind-some (statement (pure tt)) _ st h in
      let (_, s2, _, h2) = bind-some (reconcile_existing_migrations e) _ s1 h1 in
      let (entries, s3, read, h3) = bind-some (read_dir listing) _ s2 h2 in
      let same : listing ≡ some entries = ap (λ r. r.0) read in
      (entries, same, apply_files-some (migration_files entries) s3 h3)

  pub run_migrations-known :
      (entries : List Entry) (st : Store S)
      → all_applied (migration_files entries) st.applied ≡ true
      → (quiet S).holds st (run_migrations e (some entries) st).1
  unfolding run_migrations read_dir ◌>>=◌
  run_migrations-known entries st h =
      let files = migration_files entries in
      quiet-bind (statement (pure tt)) _ st
        ((keeps_statement (quiet S) _ (keeps_pure (quiet S) tt)).kept st)
        λ _ s1 _ k1.
          quiet-bind (reconcile_existing_migrations e) _ s1
            ((quiet-reconcile_existing_migrations e).kept s1)
            λ _ s2 _ k2.
              apply_files-known files s2
                (all_applied-extends files s1 s2 k2.0 (all_applied-extends files st s1 k1.0 h))
