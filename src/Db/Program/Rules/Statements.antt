-- ===== src/Db/Program/Rules/Statements.antt =====
-- What one SQL statement may do to the world.
use zatca_integration.Common.{◌≤◌, ◌≡◌, refl, sym, List, [], ◌∷◌, arith}
use mathlib.Core.Path.{subst}
use zatca_integration.Db.Tables.{Db}
use zatca_integration.Db.Program.{
  Fate, done, failed, locked, lost, Tick, World, Sql, row, no_rows, duplicate, lock_busy, broken,
  take_tick, next_tick, with_fate, exec,
}

-- What no SQL statement touches, and a clock that does not run back.
pub record Frame (w w' : World) : Type 0 where
  pub sent_same : w'.sent ≡ w.sent
  pub acked_same : w'.acked ≡ w.acked
  pub clock_grows : w.clock ≤ w'.clock

pub Frame-refl : (w : World) → Frame w w
Frame-refl w = record { sent_same = refl; acked_same = refl; clock_grows = omega arith }

pub Frame-trans : (u v w : World) → Frame u v → Frame v w → Frame u w
Frame-trans u v w p q = ground arith

-- The frame of one tick: the database stays too.
pub record Ticked (w w' : World) : Type 0 where
  pub frame : Frame w w'
  pub db_same : w'.db ≡ w.db

take_tick-Ticked : (ts : List Tick) (w : World) → Ticked w (take_tick ts w).1
unfolding take_tick
take_tick-Ticked [] w = ground arith
take_tick-Ticked (t ∷ ts) w = ground arith

pub next_tick-Ticked : (w : World) → Ticked w (next_tick w).1
unfolding next_tick
next_tick-Ticked w = take_tick-Ticked w.ticks w

module _ {A : Type 0} where
  -- How a statement `f` has answered, at a database `db` that is now `db'`.
  pub data Answers (f : Db → Sql A × Db) (db : Db) (s : Sql A) (db' : Db) : Type 0 where
    ran : s ≡ (f db).0 → db' ≡ (f db).1 → Answers f db s db'
    refused : s ≡ broken → db' ≡ db → Answers f db s db'
    waited : s ≡ lock_busy → db' ≡ db → Answers f db s db'
    vanished : s ≡ broken → db' ≡ (f db).1 → Answers f db s db'

  with_fate-Answers :
      (t : Fate) (f : Db → Sql A × Db) (w : World)
      → Answers f w.db (with_fate t f w).0 (with_fate t f w).1.db
  with_fate-Answers done f w = ran refl refl
  with_fate-Answers failed f w = refused refl refl
  with_fate-Answers locked f w = waited refl refl
  with_fate-Answers lost f w = vanished refl refl

  with_fate-Frame :
      (t : Fate) (f : Db → Sql A × Db) (u w : World) → Frame u w → Frame u (with_fate t f w).1
  with_fate-Frame done f u w h = ground arith
  with_fate-Frame failed f u w h = h
  with_fate-Frame locked f u w h = h
  with_fate-Frame lost f u w h = ground arith

  -- An answer that is no failure is the statement's own.
  pub Answers-row :
      {f : Db → Sql A × Db} {d d' : Db} {a : A}
      → Answers f d (row a) d'
      → ((f d).0 ≡ row a) × (d' ≡ (f d).1)
  Answers-row (ran a b) = (sym a, b)
  Answers-row (refused a b) = cc
  Answers-row (waited a b) = cc
  Answers-row (vanished a b) = cc

  pub Answers-duplicate :
      {f : Db → Sql A × Db} {d d' : Db}
      → Answers f d duplicate d'
      → ((f d).0 ≡ duplicate) × (d' ≡ (f d).1)
  Answers-duplicate (ran a b) = (sym a, b)
  Answers-duplicate (refused a b) = cc
  Answers-duplicate (waited a b) = cc
  Answers-duplicate (vanished a b) = cc

  pub Answers-no_rows :
      {f : Db → Sql A × Db} {d d' : Db}
      → Answers f d no_rows d'
      → ((f d).0 ≡ no_rows) × (d' ≡ (f d).1)
  Answers-no_rows (ran a b) = (sym a, b)
  Answers-no_rows (refused a b) = cc
  Answers-no_rows (waited a b) = cc
  Answers-no_rows (vanished a b) = cc

  unfoldable pub exec_answer : (Db → Sql A × Db) → World → Sql A
  exec_answer f w = let (t, v) = next_tick w in (with_fate t f v).0

  pub query_same :
      {f : Db → Sql A} {db db' : Db} {s : Sql A} → Answers (λ d. (f d, d)) db s db' → db' ≡ db
  query_same (ran a b) = b
  query_same (refused a b) = b
  query_same (waited a b) = b
  query_same (vanished a b) = b

pub record Answered {A : Type 0} (f : Db → Sql A × Db) (w : World) (s : Sql A) (w' : World)
    : Type 0 where
  pub answers : Answers f w.db s w'.db
  pub frame : Frame w w'

pub exec-Answered :
    {A : Type 0} (f : Db → Sql A × Db) (w : World) → Answered f w (exec_answer f w) (exec f w).1
unfolding exec exec_answer
exec-Answered f w =
    let (t, v) = next_tick w in
    let ticked = next_tick-Ticked w in
    record {
      answers =
          subst (λ db. Answers f db (with_fate t f v).0 (with_fate t f v).1.db) ticked.db_same
            (with_fate-Answers t f v);
      frame = with_fate-Frame t f w v ticked.frame;
    }
