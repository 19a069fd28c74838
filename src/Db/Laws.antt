-- ===== src/Db/Laws.antt =====
-- Rules for `Keeps`, one for each way to put a computation together.
use jd_shop_server.Common.{ℕ, ◌≡◌, refl, subst, Bool, true, false, List, [], ◌∷◌, if◌then◌else◌}
use jd_shop_server.Hub.{ControlHub, EventType}
use jd_shop_server.Db.{
  notify, signal, Db, World, Error, Result, ok, err, constraint, M, pure, fail, ◌>>=◌, after, when,
  reject, schedule, query, exec, insert_row, restore, control, transaction, ignore_error, attempt,
  Keeps,
}

module _ (P : Db → Type 0) where
  pub keeps_pure : {A : Type 0} (a : A) → Keeps P (pure a)
  unfolding pure
  keeps_pure a = record { kept = λ w p. p }

  pub keeps_fail : (A : Type 0) (e : Error) → Keeps P (fail {A = A} e)
  unfolding fail
  keeps_fail A e = record { kept = λ w p. p }

  pub keeps_reject : (b : Bool) (e : Error) → Keeps P (reject b e)
  unfolding reject
  keeps_reject true e = keeps_fail _ e
  keeps_reject false e = keeps_pure tt

  keeps_after :
      {A B : Type 0} (f : A → M B) (r : Result A × World)
      → P r.1.db
      → ((a : A) → Keeps P (f a))
      → P (after f fail r).1.db
  unfolding fail
  keeps_after f (ok a, w) p k = (k a).kept w p
  keeps_after f (err e, w) p k = p

  pub keeps_bind :
      {A B : Type 0} (m : M A) (f : A → M B)
      → Keeps P m
      → ((a : A) → Keeps P (f a))
      → Keeps P (m >>= f)
  unfolding ◌>>=◌
  keeps_bind m f km kf = record { kept = λ w p. keeps_after f (m w) (km.kept w p) kf }

  pub keeps_when : (b : Bool) (m : M (Unit {0})) → Keeps P m → Keeps P (when b m)
  unfolding when
  keeps_when true m k = k
  keeps_when false m k = keeps_pure tt

  pub keeps_if :
      {A : Type 0} (b : Bool) (m n : M A) → Keeps P m → Keeps P n → Keeps P (if b then m else n)
  keeps_if true m n k l = k
  keeps_if false m n k l = l

  keeps_schedule :
      {A : Type 0} (f : Db → Result A × Db) (faults : List Bool) (w : World)
      → P w.db
      → P (f w.db).1
      → P (schedule f faults w).1.db
  unfolding schedule
  keeps_schedule f [] w p q = q
  keeps_schedule f (true ∷ faults) w p q = p
  keeps_schedule f (false ∷ faults) w p q = q

  pub keeps_notify : (user : ℕ) (type : EventType) (now : ℕ) → Keeps P (notify user type now)
  unfolding notify
  keeps_notify user type now = record { kept = λ w p. p }

  pub keeps_signal : (f : ControlHub → ControlHub) → Keeps P (signal f)
  unfolding signal
  keeps_signal f = record { kept = λ w p. p }

  pub keeps_query : {A : Type 0} (f : Db → A) → Keeps P (query f)
  unfolding query
  keeps_query f = record { kept = λ w p. keeps_schedule _ w.faults w p p }

  pub keeps_exec : (f : Db → Db) → ((db : Db) → P db → P (f db)) → Keeps P (exec f)
  unfolding exec
  keeps_exec f k = record { kept = λ w p. keeps_schedule _ w.faults w p (k w.db p) }

  -- At one world.
  pub exec_kept : (f : Db → Db) (w : World) → P w.db → P (f w.db) → P (exec f w).1.db
  unfolding exec
  exec_kept f w p q = keeps_schedule _ w.faults w p q

  pub keeps_insert_row :
      {A : Type 0} (violates : Db → Bool) (f : Db → A × Db)
      → ((db : Db) → violates db ≡ false → P db → P (f db).1)
      → Keeps P (insert_row violates f)
  unfolding insert_row
  keeps_insert_row {A} violates f k = record {
    kept = λ w p. keeps_schedule _ w.faults w p (go w.db (violates w.db) refl p);
  }
    where
      go :
          (db : Db) (b : Bool)
          → violates db ≡ b
          → P db
          → P (if◌then◌else◌ {A = Result A × Db} b (err constraint, db) (ok (f db).0, (f db).1)).1
      go db true e p = p
      go db false e p = k db e p

  keeps_control : Keeps P control
  unfolding control
  keeps_control = record { kept = λ w p. keeps_schedule _ w.faults w p p }

  keeps_restore :
      {A : Type 0} (db : Db) (r : Result A × World) → P db → P r.1.db → P (restore db r).1.db
  keeps_restore db (ok a, w) p q = q
  keeps_restore db (err e, w) p q = p

  pub keeps_transaction : {A : Type 0} (m : M A) → Keeps P m → Keeps P (transaction m)
  unfolding transaction
  keeps_transaction m k =
      let whole =
        keeps_bind control _ keeps_control
          (λ _. keeps_bind m _ k (λ a. keeps_bind control _ keeps_control (λ _. keeps_pure a))) in
      record { kept = λ w p. keeps_restore w.db _ p (whole.kept w p) }

  pub keeps_ignore_error : (m : M (Unit {0})) → Keeps P m → Keeps P (ignore_error m)
  unfolding ignore_error
  keeps_ignore_error m k = record { kept = k.kept }

  pub keeps_attempt : {A : Type 0} (d : A) (m : M A) → Keeps P m → Keeps P (attempt d m)
  unfolding attempt
  keeps_attempt d m k = record { kept = k.kept }

-- What is kept by a computation that ran.
pub kept_at :
    {A : Type 0} (P : Db → Type 0) {m : M A}
    → Keeps P m
    → (w : World) {r : Result A} {w' : World} → m w ≡ (r, w')
    → P w.db
    → P w'.db
kept_at P k w e p = subst (λ x. P x.1.db) e (k.kept w p)

pub ruleset keeping = (
  keeps_pure, keeps_fail, keeps_reject, keeps_bind, keeps_when, keeps_if, keeps_notify,
  keeps_signal, keeps_query, keeps_transaction, keeps_ignore_error, keeps_attempt,
)
