-- ===== src/Queue/Kept.antt =====
-- Rules of two kinds for the operations of the stores: what their statements keep of the database,
-- and what no statement touches.
use zatca_integration.Common.{
  ℕ, ◌||◌, Bool, true, false, not, ◌&&◌, none, some, List, any, if◌then◌else◌,
}
use zatca_integration.Common.Int.{ℤ, ◌==ℤ◌}
use zatca_integration.Errors.{Error, only, chain_conflict}
use zatca_integration.Queue.Message.{UuidLibrary, Message}
use zatca_integration.Queue.Types.{Booking, SignedInvoice, Outcome, validate_invoice}
use zatca_integration.Queue.Claim.{
  of_request, has_event, insert_row, reclaim_row, release_row, complete_row,
}
use zatca_integration.Queue.Chain.{
  reserve_row, unreserve_row, holds, insert_submission, fill_bill, advance_chain, write_invoice,
  on_bill, on_chain, select_bill, select_chain, commit_in_tx, matches_booking, when_invoice, commit,
  differs,
}
use zatca_integration.Queue.Chain.Effects.{CommitEnds, commit_atomic}
use zatca_integration.Queue.Record.{answer_row, log_row, issue_bill}
use zatca_integration.Queue.Rules.{Rules}
use zatca_integration.Db.{ClaimRow, BillRow, Db}
use zatca_integration.Db.Program.{
  M, Sql, row, no_rows, duplicate, lock_busy, broken, raise, ◌>>=◌, exec, query, expect,
}
use zatca_integration.Db.Program.Rules.{
  Safe, OnDb, Frame, Frame-refl, Frame-trans, Framed-exec, Framed-transaction, SafeDb-exec,
  SafeDb-transaction, Safe-Yields, Safe-return, Safe-raise, Safe-if, Safe-bind, Safe-expect,
}

-- A relation between databases that each statement keeps; a commit counts as one.
pub record Kept (K : Db → Db → Type 0) : Type 0 where
  pub keeps_refl : (d : Db) → K d d
  pub keeps_trans : (d e f : Db) → K d e → K e f → K d f
  pub keeps_claims : (d : Db) (rows : List ClaimRow) → K d (record d { claims = rows })
  pub keeps_reserve : (b : Booking) (t : ℕ) (d : Db) → K d (reserve_row b t d).1
  pub keeps_unreserve : (b : Booking) (d : Db) → K d (unreserve_row b d).1
  pub keeps_commit :
      (uuid : UuidLibrary) (b : Booking) (i : SignedInvoice) (d d' : Db)
      → CommitEnds uuid b i d d'
      → K d d'
  pub keeps_answer : (o : Outcome) (status t id : ℕ) (d : Db) → K d (answer_row o status t id d).1
  pub keeps_log : (o : Outcome) (t id : ℕ) (d : Db) → K d (log_row o t id d).1
  pub keeps_issue : (i : ℤ) (d : Db) → K d (issue_bill i d).1

module _ {K : Db → Db → Type 0} (kept : Kept K) where
  open kept use {keeps_refl, keeps_trans}

  if_kept :
      (b : Bool) (d : Db) (x y : Sql (Unit {0}) × Db)
      → K d x.1
      → K d y.1
      → K d (if b then x else y).1
  if_kept true d x y h k = h
  if_kept false d x y h k = k

  insert_row_kept : (m : Message) (t : ℕ) (d : Db) → K d (insert_row m t d).1
  unfolding insert_row
  insert_row_kept m t d =
      if_kept (any (λ c. of_request m c || has_event m.event_id c) d.claims) d _ _ (keeps_refl d)
        (kept.keeps_claims d _)

  reclaim_row_kept : (m : Message) (t : ℕ) (d : Db) → K d (reclaim_row m t d).1
  unfolding reclaim_row
  reclaim_row_kept m t d =
      if_kept (any (λ c. not (of_request m c) && has_event m.event_id c) d.claims) d _ _
        (keeps_refl d) (kept.keeps_claims d _)

  release_row_kept : (m : Message) (d : Db) → K d (release_row m d).1
  unfolding release_row
  release_row_kept m d = kept.keeps_claims d _

  complete_row_kept : (m : Message) (t : ℕ) (d : Db) → K d (complete_row m t d).1
  unfolding complete_row
  complete_row_kept m t d = kept.keeps_claims d _

  exec_kept : {A : Type 0} (f : Db → Sql A × Db) → ((d : Db) → K d (f d).1) → Safe (OnDb K) (exec f)
  exec_kept = SafeDb-exec K keeps_refl

  pub kept_rules : Rules (OnDb K)
  kept_rules = record {
    run_refl = λ w. keeps_refl w.db;
    run_trans = λ u v w. keeps_trans u.db v.db w.db;
    run_query = λ f. exec_kept (λ d. (f d, d)) keeps_refl;
    run_transaction = λ m fr h. SafeDb-transaction K keeps_refl m (λ w. Safe-Yields w h);
    run_insert = λ m t. exec_kept (insert_row m t) (insert_row_kept m t);
    run_reclaim = λ m t. exec_kept (reclaim_row m t) (reclaim_row_kept m t);
    run_release = λ m. exec_kept (release_row m) (release_row_kept m);
    run_complete = λ m t. exec_kept (complete_row m t) (complete_row_kept m t);
    run_reserve = λ b t. exec_kept (reserve_row b t) (kept.keeps_reserve b t);
    run_unreserve = λ b. exec_kept (unreserve_row b) (kept.keeps_unreserve b);
    run_commit = λ uuid b i. record {
      at = λ w. kept.keeps_commit uuid b i w.db (commit uuid b i w).1.db (commit_atomic uuid b i w);
    };
    run_answer =
        λ o status t id. exec_kept (answer_row o status t id) (kept.keeps_answer o status t id);
    run_log = λ o t id. exec_kept (log_row o t id) (kept.keeps_log o t id);
    run_issue = λ i. exec_kept (issue_bill i) (kept.keeps_issue i);
  }

framed_bind :
    {A B : Type 0} (m : M A) (f : A → M B)
    → Safe Frame m
    → ((a : A) → Safe Frame (f a))
    → Safe Frame (m >>= f)
framed_bind = Safe-bind Frame Frame-refl Frame-trans

framed_raise : {A : Type 0} → Safe Frame (raise {A = A} (only chain_conflict))
framed_raise = Safe-raise Frame Frame-refl Frame-trans (only chain_conflict)

framed_run :
    {A B : Type 0} (f : Db → Sql A × Db) (k : A → M B)
    → ((a : A) → Safe Frame (k a))
    → Safe Frame (exec f >>= λ s. expect s >>= k)
framed_run f k g =
    framed_bind (exec f) (λ s. expect s >>= k) (Framed-exec f)
      (λ s. framed_bind (expect s) k (Safe-expect Frame Frame-refl Frame-trans s) g)

module _ (uuid : UuidLibrary) (b : Booking) (i : SignedInvoice) where
  written_framed : Safe Frame (write_invoice uuid b i)
  written_framed = framed_run (insert_submission i) _ (λ x.
      framed_run (fill_bill i b.branch_id) _ (λ y.
        framed_run (advance_chain i b.branch_id) _
          (λ z. Safe-return Frame Frame-refl Frame-trans tt)))

  bill_framed : (s : Sql BillRow) → Safe Frame (on_bill uuid b i s)
  bill_framed (row bill) =
      Safe-if Frame Frame-refl Frame-trans (not (bill.branch_id ==ℤ b.branch_id)) _ _ framed_raise (
        Safe-if Frame Frame-refl Frame-trans (differs bill.invoice_uuid i.uuid) _ _ framed_raise (
          Safe-if Frame Frame-refl Frame-trans (differs bill.invoice_hash i.hash) _ _ framed_raise
            written_framed))
  bill_framed no_rows = framed_raise
  bill_framed duplicate = Safe-raise Frame Frame-refl Frame-trans _
  bill_framed lock_busy = Safe-raise Frame Frame-refl Frame-trans _
  bill_framed broken = Safe-raise Frame Frame-refl Frame-trans _

  when_invoice_framed :
      (e : Error) (m : M (Unit {0})) → Safe Frame m → Safe Frame (when_invoice uuid b i e m)
  when_invoice_framed none m h = h
  when_invoice_framed (some e) m h = framed_raise

  commit_framed : Safe Frame (commit uuid b i)
  unfolding commit commit_in_tx
  commit_framed =
      Safe-if Frame Frame-refl Frame-trans (not (matches_booking uuid b i)) _ _ framed_raise (
        when_invoice_framed (validate_invoice uuid i) _ (
          Framed-transaction _ (
            framed_run (λ db. (select_chain b.branch_id db, db)) (on_chain uuid b i)
              (λ r. Safe-if Frame Frame-refl Frame-trans (not (holds r b)) _ _ framed_raise (
                framed_bind (query (select_bill i.source_id)) (on_bill uuid b i) (Framed-exec _)
                  bill_framed)))))

pub Frame-rules : Rules Frame
Frame-rules = record {
  run_refl = Frame-refl;
  run_trans = Frame-trans;
  run_query = λ f. Framed-exec (λ d. (f d, d));
  run_transaction = λ m fr h. Framed-transaction m h;
  run_insert = λ m t. Framed-exec (insert_row m t);
  run_reclaim = λ m t. Framed-exec (reclaim_row m t);
  run_release = λ m. Framed-exec (release_row m);
  run_complete = λ m t. Framed-exec (complete_row m t);
  run_reserve = λ b t. Framed-exec (reserve_row b t);
  run_unreserve = λ b. Framed-exec (unreserve_row b);
  run_commit = commit_framed;
  run_answer = λ o status t id. Framed-exec (answer_row o status t id);
  run_log = λ o t id. Framed-exec (log_row o t id);
  run_issue = λ i. Framed-exec (issue_bill i);
}
