-- ===== src/Db/Success.antt =====
-- What a computation that succeeds has done, step by step.
use jd_shop_server.Common.{
  true, ◌∷◌, [], Option, none, some, ℕ, ◌≡◌, refl, Bool, false, List, arith, ◌∙◌, ap, sym,
}
use jd_shop_server.Hub.{ControlHub, EventType}
use jd_shop_server.Db.Laws.{kept_at}
use jd_shop_server.Common.{if◌then◌else◌, Bool, subst}
use jd_shop_server.Db.{
  calm, insert_row, constraint, ◌>>◌, ignore_error, statement, Keeps, Db, World, Error, Result, ok,
  err, M, pure, fail, ◌>>=◌, after, reject, schedule, query, exec, attempt, value_or, restore,
  control, transaction, notify,
}

pub bind-eq-ok :
    {A B : Type 0} (m : M A) (f : A → M B) (w : World) {b : B} {w' : World}
    → (m >>= f) w ≡ (ok b, w')
    → (a : A) × (w₁ : World) × (m w ≡ (ok a, w₁)) × (f a w₁ ≡ (ok b, w'))
unfolding ◌>>=◌ fail
bind-eq-ok {A} {B} m f w {b} {w'} h = go (m w) refl h
  where
    go :
        (r : Result A × World)
        → m w ≡ r
        → after f fail r ≡ (ok b, w')
        → (a : A) × (w₁ : World) × (m w ≡ (ok a, w₁)) × (f a w₁ ≡ (ok b, w'))
    go (ok a, w₁) e h = (a, w₁, e, h)
    go (err x, w₁) e h = cc

-- A first step that keeps `P`, and what is left to do after it.
pub bind_kept :
    {A B : Type 0} (P : Db → Type 0) {m : M A} {f : A → M B}
    → Keeps P m
    → (w : World) {b : B} {w' : World} → (m >>= f) w ≡ (ok b, w')
    → P w.db
    → (a : A) × (w₁ : World) × P w₁.db × (f a w₁ ≡ (ok b, w'))
bind_kept P {m} {f} k w h p =
    let (a, w₁, ran, rest) = bind-eq-ok m f w h in (a, w₁, kept_at P k w ran p, rest)

pub reject-eq-ok :
    (b : Bool) (e : Error) (w : World) {w' : World}
    → reject b e w ≡ (ok tt, w')
    → (b ≡ false) × (w' ≡ w)
unfolding reject pure fail
reject-eq-ok b e w h = ground arith

schedule-query :
    {A : Type 0} (f : Db → A) (faults : List Bool) (w : World) {a : A} {w' : World}
    → schedule (λ db. (ok (f db), db)) faults w ≡ (ok a, w')
    → (a ≡ f w.db) × (w'.db ≡ w.db)
unfolding schedule
schedule-query f faults w h = ground arith

pub query-eq-ok :
    {A : Type 0} (f : Db → A) (w : World) {a : A} {w' : World}
    → query f w ≡ (ok a, w')
    → (a ≡ f w.db) × (w'.db ≡ w.db)
unfolding query
query-eq-ok f w h = schedule-query f w.faults w h

pub pure-eq-ok :
    {A : Type 0} (x : A) (w : World) {a : A} {w' : World}
    → pure x w ≡ (ok a, w')
    → (x ≡ a) × (w ≡ w')
unfolding pure
pure-eq-ok x w h = ground arith

pub fail-ne-ok :
    (A : Type 0) (e : Error) (w : World) {a : A} {w' : World} → fail e w ≡ (ok a, w') → ⊥
unfolding fail
fail-ne-ok A e w h = cc

schedule-exec :
    (f : Db → Db) (faults : List Bool) (w : World) {w' : World}
    → schedule (λ db. (ok tt, f db)) faults w ≡ (ok tt, w')
    → w'.db ≡ f w.db
unfolding schedule
schedule-exec f faults w h = ground arith

pub exec-eq-ok : (f : Db → Db) (w : World) {w' : World} → exec f w ≡ (ok tt, w') → w'.db ≡ f w.db
unfolding exec
exec-eq-ok f w h = schedule-exec f w.faults w h

control-eq-ok : (w : World) {w' : World} → control w ≡ (ok tt, w') → w'.db ≡ w.db
unfolding control
control-eq-ok w h = schedule-exec (λ db. db) w.faults w h

restore-eq-ok :
    {A : Type 0} (db : Db) (r : Result A × World) {a : A} {w' : World}
    → restore db r ≡ (ok a, w')
    → r ≡ (ok a, w')
restore-eq-ok db (ok x, w) h = h
restore-eq-ok db (err e, w) h = cc

-- A transaction that succeeds has run its body from the same database, and left what that left.
pub transaction-eq-ok :
    {A : Type 0} (m : M A) (w : World) {a : A} {w' : World}
    → transaction m w ≡ (ok a, w')
    → (w₁ : World) × (w₂ : World) × (w₁.db ≡ w.db) × (m w₁ ≡ (ok a, w₂)) × (w'.db ≡ w₂.db)
unfolding transaction
transaction-eq-ok m w h =
    let (_, w₁, began, body) = bind-eq-ok control _ w (restore-eq-ok w.db _ h) in
    let (a₁, w₂, ran, rest) = bind-eq-ok m _ w₁ body in
    let (_, w₃, committed, done) = bind-eq-ok control _ w₂ rest in
    let (same, at_end) = pure-eq-ok a₁ w₃ done in
    (
      w₁,
      w₂,
      control-eq-ok w began,
      rw (← same) ran,
      ap (λ (v : World). v.db) (sym at_end) ∙ control-eq-ok w₂ committed,
    )

pub notify-db :
    (user : ℕ) (type : EventType) (now : ℕ) (w : World) → (notify user type now w).1.db ≡ w.db
unfolding notify
notify-db user type now w = refl

-- A call whose error is dropped yields a value other than the default only where it succeeded.
pub attempt-eq-some :
    {A : Type 0} (m : M (Option A)) (w : World) {a : A} {w' : World}
    → attempt none m w ≡ (ok (some a), w')
    → m w ≡ (ok (some a), w')
unfolding attempt
attempt-eq-some {A} m w {a} {w'} h = go (m w) h
  where
    go :
        (r : Result (Option A) × World)
        → ◌≡◌ {A = Result (Option A) × World} (value_or none r.0, r.1) (ok (some a), w')
        → r ≡ (ok (some a), w')
    go (ok x, w₁) h = h
    go (err e, w₁) h = cc

-- Where no statement fails, a call whose error is dropped has its effect.
pub ignore_error-exec :
    (f : Db → Db) (w : World) {w' : World}
    → w.faults ≡ []
    → ignore_error (exec f) w ≡ (ok tt, w')
    → w'.db ≡ f w.db
unfolding ignore_error exec statement schedule
ignore_error-exec f w {w' = w'} sound h =
    let left : (schedule (λ db. (ok tt, f db)) w.faults w).1 ≡ w' =
      ap (λ (x : Result (Unit {0}) × World). x.1) h in
    let done : (schedule (λ db. (ok tt, f db)) [] w).1 ≡ w' = rw sound at left in
    ap (λ (x : World). x.db) (sym done)

pub query-faults :
    {A : Type 0} (f : Db → A) (w : World) {a : A} {w' : World}
    → w.faults ≡ []
    → query f w ≡ (ok a, w')
    → w'.faults ≡ []
unfolding query statement schedule
query-faults {A} f w sound h =
    let left : (schedule (λ db. (ok (f db), db)) [] w) ≡ (ok _, _) = rw sound at h in
    ap (λ (x : Result A × World). x.1.faults) (sym left)

schedule-insert_row :
    {A : Type 0} (violates : Db → Bool) (f : Db → A × Db) (faults : List Bool) (w : World) {a : A}
    {w' : World}
    → schedule
        (λ db. if violates db then (err constraint, db) else let (x, db') = f db in (ok x, db'))
        faults
        w
      ≡ (ok a, w')
    → (violates w.db ≡ false) × (a ≡ (f w.db).0) × (w'.db ≡ (f w.db).1)
unfolding schedule
schedule-insert_row violates f faults w h = ground arith

-- An insertion that succeeds met no constraint.
pub insert_row-eq-ok :
    {A : Type 0} (violates : Db → Bool) (f : Db → A × Db) (w : World) {a : A} {w' : World}
    → insert_row violates f w ≡ (ok a, w')
    → (violates w.db ≡ false) × (a ≡ (f w.db).0) × (w'.db ≡ (f w.db).1)
unfolding insert_row statement
insert_row-eq-ok violates f w h = schedule-insert_row violates f w.faults w h

-- A transaction that succeeds leaves what its body leaves, and any other leaves the database as it
-- was.
pub transaction_kept :
    {A : Type 0} (P : Db → Type 0) (m : M A) (w : World)
    → P w.db
    → ((w₁ : World) (a : A) (w₂ : World) → w₁.db ≡ w.db → m w₁ ≡ (ok a, w₂) → P w₂.db)
    → P (transaction m w).1.db
unfolding transaction
transaction_kept {A} P m w p k = go _ refl
  where
    go :
        (r : Result A × World)
        → (control >> (m >>= λ a. control >> pure a)) w ≡ r
        → P (restore w.db r).1.db
    go (err e, w') h = p
    go (ok a, w') h =
        let (w₁, w₂, began, ran, done) = transaction-eq-ok m w (ap (restore w.db) h) in
        subst P (sym done) (k w₁ a w₂ began ran)

-- What follows a query starts from the database that was queried.
pub keeps_query_then :
    {A B : Type 0} (P : Db → Type 0) (f : Db → A) (g : A → M B)
    → ((w : World) → P w.db → P (g (f w.db) w).1.db)
    → Keeps P (query f >>= g)
unfolding query statement schedule ◌>>=◌ fail
keeps_query_then {A} {B} P f g k = record { kept = λ w p. go w.faults w p }
  where
    go :
        (faults : List Bool) (w : World)
        → P w.db
        → P (after g fail (schedule (λ db. (ok (f db), db)) faults w)).1.db
    go [] w p = k (record w { faults = [] }) p
    go (true ∷ faults) w p = p
    go (false ∷ faults) w p = k (record w { faults = faults }) p

-- A step that is known goes on to what follows.
pub bind-eq :
    {A B : Type 0} (m : M A) (f : A → M B) (w : World) {a : A} {w₁ : World}
    → m w ≡ (ok a, w₁)
    → (m >>= f) w ≡ f a w₁
unfolding ◌>>=◌ fail
bind-eq m f w h = ap (after f fail) h

module _ (db : Db) (hub : ControlHub) where
  pub exec-calm : (f : Db → Db) → exec f (calm db hub) ≡ (ok tt, calm (f db) hub)
  unfolding exec statement schedule
  exec-calm f = refl

  pub query-calm : {A : Type 0} (f : Db → A) → query f (calm db hub) ≡ (ok (f db), calm db hub)
  unfolding query statement schedule
  query-calm f = refl

  pub insert_row-calm :
      {A : Type 0} (violates : Db → Bool) (f : Db → A × Db)
      → violates db ≡ false
      → insert_row violates f (calm db hub) ≡ (ok (f db).0, calm (f db).1 hub)
  unfolding insert_row statement schedule
  insert_row-calm violates f h = rw h

  pub transaction-calm :
      {A : Type 0} (m : M A) {a : A} {db' : Db} {hub' : ControlHub}
      → m (calm db hub) ≡ (ok a, calm db' hub')
      → transaction m (calm db hub) ≡ (ok a, calm db' hub')
  unfolding transaction control statement schedule ◌>>=◌ fail pure
  transaction-calm m h = rw h
