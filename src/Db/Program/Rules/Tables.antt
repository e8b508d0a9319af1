-- ===== src/Db/Program/Rules/Tables.antt =====
-- What every run does to the database, and what no SQL statement touches.
use zatca_integration.Common.{◌≡◌, sym, arith}
use mathlib.Core.Path.{subst}
use zatca_integration.Errors.{Result, ok, err}
use zatca_integration.Db.Tables.{Db}
use zatca_integration.Db.Program.{
  Fate, done, failed, locked, lost, World, Sql, row, no_rows, duplicate, lock_busy, broken, M,
  ◌>>=◌, next_tick, exec, expect, commit_with, finish_tx, run_body, transaction,
}
use zatca_integration.Db.Program.Rules.Statements.{
  Frame, Frame-trans, next_tick-Ticked, Answers, exec_answer, query_same, exec-Answered, ran,
  refused, waited, vanished,
}
use zatca_integration.Db.Program.Rules.Results.{OnOk, Yields, Safe}

-- A relation between databases.
abbrev pub OnDb : (Db → Db → Type 0) → World → World → Type 0
OnDb K w w' = K w.db w'.db

module _ (K : Db → Db → Type 0) (K_refl : (d : Db) → K d d) {A : Type 0} where
  Answers-K :
      (f : Db → Sql A × Db) (d d' : Db) (s : Sql A)
      → ((e : Db) → K e (f e).1)
      → Answers f d s d'
      → K d d'
  Answers-K f d d' s h (ran a b) = subst (K d) (sym b) (h d)
  Answers-K f d d' s h (refused a b) = subst (K d) (sym b) (K_refl d)
  Answers-K f d d' s h (waited a b) = subst (K d) (sym b) (K_refl d)
  Answers-K f d d' s h (vanished a b) = subst (K d) (sym b) (h d)

  -- A statement is safe if it is safe when it runs.
  pub SafeDb-exec : (f : Db → Sql A × Db) → ((d : Db) → K d (f d).1) → Safe (OnDb K) (exec f)
  SafeDb-exec f h = record {
    at = λ w. Answers-K f w.db (exec f w).1.db (exec_answer f w) h (exec-Answered f w).answers;
  }

  commit_with-K :
      (t : Fate) (a : A) (before : Db) (w : World)
      → K before w.db
      → K before (commit_with t a before w).1.db
  commit_with-K done a before w h = h
  commit_with-K failed a before w h = K_refl before
  commit_with-K locked a before w h = K_refl before
  commit_with-K lost a before w h = h

  finish_tx-K :
      (before : Db) (r : Result A × World)
      → OnOk (λ a v. K before v.db) r
      → K before (finish_tx before r).1.db
  finish_tx-K before (ok a, w) h =
      commit_with-K (next_tick w).0 a before (next_tick w).1
        (subst (K before) (sym (next_tick-Ticked w).db_same) h)
  finish_tx-K before (err e, w) h = K_refl before

after_begin :
    {A : Type 0} (P : World → Type 0) (s : Sql (Unit {0})) (body : M A) (v : World)
    → P v
    → P (run_body body v).1
    → P ((expect s >>= λ b. run_body body) v).1
after_begin P (row a) body v h k = k
after_begin P no_rows body v h k = h
after_begin P duplicate body v h k = h
after_begin P lock_busy body v h k = h
after_begin P broken body v h k = h

abbrev begin : Db → Sql (Unit {0}) × Db
begin db = (row tt, db)

-- A transaction whose BEGIN fails stops there, and any other runs its body.
transaction-cases :
    {A : Type 0} (P : World → Type 0) (body : M A) (w : World)
    → ((v : World) → Frame w v → v.db ≡ w.db → P v × P (run_body body v).1)
    → P (transaction body w).1
unfolding transaction exec exec_answer
transaction-cases P body w h =
    let ans = exec-Answered begin w in
    let both = h (exec begin w).1 ans.frame (query_same ans.answers) in
    after_begin P (exec_answer begin w) body (exec begin w).1 both.0 both.1

-- A transaction does nothing to the database, or what its body does when it returns.
pub transaction-K :
    {A : Type 0} (K : Db → Db → Type 0) (K_refl : (d : Db) → K d d) (body : M A) (w : World)
    → ((v : World) → v.db ≡ w.db → Yields v body (λ a u. K v.db u.db))
    → K w.db (transaction body w).1.db
transaction-K K K_refl body w h =
    transaction-cases (λ v. K w.db v.db) body w
      (λ v fr same. (
        subst (K w.db) (sym same) (K_refl w.db),
        subst (λ d. K d (run_body body v).1.db) same
            (finish_tx-K K K_refl v.db (body v) (h v same).at),
      ))

pub SafeDb-transaction :
    {A : Type 0} (K : Db → Db → Type 0) (K_refl : (d : Db) → K d d) (body : M A)
    → ((w : World) → Yields w body (λ a v. K w.db v.db))
    → Safe (OnDb K) (transaction body)
SafeDb-transaction K K_refl body h = record {
  at = λ w. transaction-K K K_refl body w (λ v same. h v);
}

commit_with-Frame :
    {A : Type 0} (t : Fate) (a : A) (before : Db) (u w : World)
    → Frame u w
    → Frame u (commit_with t a before w).1
commit_with-Frame done a before u w h = h
commit_with-Frame failed a before u w h = ground arith
commit_with-Frame locked a before u w h = ground arith
commit_with-Frame lost a before u w h = h

finish_tx-Frame :
    {A : Type 0} (before : Db) (u : World) (r : Result A × World)
    → Frame u r.1
    → Frame u (finish_tx before r).1
finish_tx-Frame before u (ok a, w) h =
    commit_with-Frame (next_tick w).0 a before u (next_tick w).1
      (Frame-trans u w (next_tick w).1 h (next_tick-Ticked w).frame)
finish_tx-Frame before u (err e, w) h = ground arith

pub Framed-transaction : {A : Type 0} (body : M A) → Safe Frame body → Safe Frame (transaction body)
Framed-transaction body h = record {
  at = λ w.
      transaction-cases (Frame w) body w
        (λ v fr same. (fr, Frame-trans w v _ fr (finish_tx-Frame v.db v (body v) (h.at v))));
}

OnOk-always : {A : Type 0} (P : World → Type 0) (r : Result A × World) → P r.1 → OnOk (λ a v. P v) r
OnOk-always P (ok a, v) k = k
OnOk-always P (err e, v) k = tt

pub Safe-Yields :
    {A : Type 0} {R : World → World → Type 0} {m : M A} (w : World)
    → Safe R m
    → Yields w m (λ a v. R w v)
Safe-Yields {R} {m} w h = record { at = OnOk-always (R w) (m w) (h.at w) }

pub Yields_any : {A : Type 0} {w : World} (m : M A) → Yields w m (λ a v. Unit {0})
Yields_any {w} m = record { at = OnOk-always (λ v. Unit {0}) (m w) tt }
