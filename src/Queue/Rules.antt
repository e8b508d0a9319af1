-- ===== src/Queue/Rules.antt =====
-- What the statements of the two stores do, and rules for programs built of them.
use zatca_integration.Common.{ℕ, Bool, none, some, if◌then◌else◌}
use zatca_integration.Common.Int.{ℤ}
use zatca_integration.Errors.{Error, Failure}
use zatca_integration.Queue.Message.{UuidLibrary, Message}
use zatca_integration.Queue.Types.{Booking, SignedInvoice, Outcome}
use zatca_integration.Queue.Claim.{insert_row, reclaim_row, release_row, complete_row, when_valid}
use zatca_integration.Queue.Chain.{reserve_row, unreserve_row, commit}
use zatca_integration.Queue.Record.{answer_row, log_row, issue_bill}
use zatca_integration.Db.{Db}
use zatca_integration.Db.Program.{
  World, M, Sql, return, raise, try, ◌>>=◌, now, exec, query, expect, transaction,
}
use zatca_integration.Db.Program.Rules.{
  Safe, Safe-return, Safe-raise, Safe-if, Safe-try, Safe-expect, Safe-bind, Frame,
}

-- A relation between the worlds before and after that chains and that every statement of the stores
-- stays in. A commit counts as one statement.
pub record Rules (R : World → World → Type 0) : Type 1 where
  pub run_refl : (w : World) → R w w
  pub run_trans : (u v w : World) → R u v → R v w → R u w
  pub run_query : {A : Type 0} (f : Db → Sql A) → Safe R (query f)
  pub run_transaction : {A : Type 0} (m : M A) → Safe Frame m → Safe R m → Safe R (transaction m)
  pub run_insert : (m : Message) (t : ℕ) → Safe R (exec (insert_row m t))
  pub run_reclaim : (m : Message) (t : ℕ) → Safe R (exec (reclaim_row m t))
  pub run_release : (m : Message) → Safe R (exec (release_row m))
  pub run_complete : (m : Message) (t : ℕ) → Safe R (exec (complete_row m t))
  pub run_reserve : (b : Booking) (t : ℕ) → Safe R (exec (reserve_row b t))
  pub run_unreserve : (b : Booking) → Safe R (exec (unreserve_row b))
  pub run_commit : (uuid : UuidLibrary) (b : Booking) (i : SignedInvoice) → Safe R (commit uuid b i)
  pub run_answer : (o : Outcome) (status t id : ℕ) → Safe R (exec (answer_row o status t id))
  pub run_log : (o : Outcome) (t id : ℕ) → Safe R (exec (log_row o t id))
  pub run_issue : (i : ℤ) → Safe R (exec (issue_bill i))

module _ {R : World → World → Type 0} (rules : Rules R) where
  open rules use {run_refl, run_trans}

  pub bind-Safe :
      {A B : Type 0} (m : M A) (f : A → M B)
      → Safe R m
      → ((a : A) → Safe R (f a))
      → Safe R (m >>= f)
  bind-Safe = Safe-bind R run_refl run_trans

  pub return-Safe : {A : Type 0} (a : A) → Safe R (return a)
  return-Safe = Safe-return R run_refl run_trans

  pub raise-Safe : {A : Type 0} (e : Failure) → Safe R (raise {A = A} e)
  raise-Safe = Safe-raise R run_refl run_trans

  pub if_Safe :
      {A : Type 0} (b : Bool) (m n : M A) → Safe R m → Safe R n → Safe R (if b then m else n)
  if_Safe = Safe-if R run_refl run_trans

  pub try-Safe : {A : Type 0} (m : M A) → Safe R m → Safe R (try m)
  try-Safe = Safe-try R run_refl run_trans

  pub expect-Safe : {A : Type 0} (s : Sql A) → Safe R (expect s)
  expect-Safe = Safe-expect R run_refl run_trans

  pub now-Safe : Safe R now
  now-Safe = record { at = run_refl }

  -- a statement whose failure ends the program
  pub run-Safe :
      {A B : Type 0} (f : Db → Sql A × Db) (k : A → M B)
      → Safe R (exec f)
      → ((a : A) → Safe R (k a))
      → Safe R (exec f >>= λ s. expect s >>= k)
  run-Safe f k h g =
      bind-Safe (exec f) (λ s. expect s >>= k) h (λ s. bind-Safe (expect s) k (expect-Safe s) g)

  pub when_valid-Safe : {A : Type 0} (e : Error) (m : M A) → Safe R m → Safe R (when_valid e m)
  when_valid-Safe none m h = h
  when_valid-Safe (some e) m h = raise-Safe e
