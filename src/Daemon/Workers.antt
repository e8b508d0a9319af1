-- ===== src/Daemon/Workers.antt =====
-- Any number of workers on one tenant database: the operations of the stores and of the deliveries
-- follow one another in any order, each with the fates that its statements meet.
use zatca_integration.Common.{ℕ, ◌+◌, Option, List}
use zatca_integration.Text.{Text}
use zatca_integration.Errors.{Failure, Result}
use zatca_integration.Queue.Message.{UuidLibrary, Message}
use zatca_integration.Queue.Types.{Booking, SignedInvoice, Outcome}
use zatca_integration.Queue.Claim.{claim, release, complete}
use zatca_integration.Queue.Chain.{book, release_booking, commit}
use zatca_integration.Queue.Chain.Linked.{ChainOk}
use zatca_integration.Queue.Chain.Invariant.{chain_kept}
use zatca_integration.Queue.Record.{record_outcome}
use zatca_integration.Queue.Record.Final.{KeepsInvoices, invoices_kept}
use zatca_integration.Queue.Kept.{Kept, kept_rules}
use zatca_integration.Queue.Operations.{
  claim-Safe, release-Safe, complete-Safe, book-Safe, release_booking-Safe, commit-Safe,
  record_outcome-Safe,
}
use zatca_integration.Queue.Stream.{
  Services, Delivery, handle_message, invoice_for, finalize_permanent_failure,
}
use zatca_integration.Queue.Stream.Keeps.{handle-Safe, finalize-Safe}
use zatca_integration.Daemon.Delivery.{Worker, handle_delivery}
use zatca_integration.Daemon.Reconcile.{Tenant, ReconcileRequest, handle_reconcile_request}
use zatca_integration.Daemon.Keeps.{delivery-Safe, reconcile-Safe}
use zatca_integration.Db.{Db}
use zatca_integration.Db.Program.{World, Tick}
use zatca_integration.Db.Program.Rules.{Yields_any}

-- One operation of one worker. `waits` is time that passes, and what the next statements will meet.
pub data Step (w : World) : World → Type 0 where
  waits : (t : ℕ) (ticks : List Tick) → Step w (record w { clock = w.clock + t; ticks = ticks })
  claims : (uuid : UuidLibrary) (lease : ℕ) (m : Message) → Step w (claim uuid lease m w).1
  releases : (uuid : UuidLibrary) (m : Message) → Step w (release uuid m w).1
  completes : (uuid : UuidLibrary) (m : Message) → Step w (complete uuid m w).1
  books : (lease : ℕ) (m : Message) → Step w (book lease m w).1
  drops : (b : Booking) → Step w (release_booking b w).1
  commits : (uuid : UuidLibrary) (b : Booking) (i : SignedInvoice) → Step w (commit uuid b i w).1
  records : (i : SignedInvoice) (o : Outcome) → Step w (record_outcome i o w).1
  handles : (s : Services) (y : Delivery) (m : Message) → Step w (handle_message s y m w).1
  finalizes :
      (s : Services) (y : Delivery) (m : Message) (cause : Failure) (text : Text)
      → Step w (finalize_permanent_failure s y m cause text w).1
  delivers :
      (k : Worker) (s : Services) (y : Delivery) (number : Option ℕ) (text : Text)
      (r : Result Message)
      → Step w (handle_delivery k s y number text r w).1
  reconciles : (t : Tenant) (r : ReconcileRequest) → Step w (handle_reconcile_request t r w).1

pub data Reaches (u : World) : World → Type 0 where
  stay : Reaches u u
  after : {v w : World} → Reaches u v → Step v w → Reaches u w

module _ {K : Db → Db → Type 0} (kept : Kept K) where
  step_keeps : {v w : World} → Step v w → K v.db w.db
  step_keeps {v} (waits t ticks) = kept.keeps_refl v.db
  step_keeps {v} (claims uuid lease m) = (claim-Safe (kept_rules kept) uuid lease m).at v
  step_keeps {v} (releases uuid m) = (release-Safe (kept_rules kept) uuid m).at v
  step_keeps {v} (completes uuid m) = (complete-Safe (kept_rules kept) uuid m).at v
  step_keeps {v} (books lease m) = (book-Safe (kept_rules kept) lease m).at v
  step_keeps {v} (drops b) = (release_booking-Safe (kept_rules kept) b).at v
  step_keeps {v} (commits uuid b i) = (commit-Safe (kept_rules kept) uuid b i).at v
  step_keeps {v} (records i o) = (record_outcome-Safe (kept_rules kept) i o).at v
  step_keeps {v} (handles s y m) =
      (handle-Safe (kept_rules kept) (λ m w. kept.keeps_refl w.db) s y m (λ i w. Unit)
          (λ w. Yields_any (invoice_for s y m)) (λ i w h. kept.keeps_refl w.db)).at
        v
  step_keeps {v} (finalizes s y m cause text) =
      (finalize-Safe (kept_rules kept) (λ m w. kept.keeps_refl w.db) s y m cause text).at v
  step_keeps {v} (delivers k s y number text r) = (delivery-Safe kept k s y number text r).at v
  step_keeps {v} (reconciles t r) = (reconcile-Safe kept t r).at v

  reaches_keeps : {u w : World} → Reaches u w → K u.db w.db
  reaches_keeps {u} stay = kept.keeps_refl u.db
  reaches_keeps {u} (after {v} {w} r step) =
      kept.keeps_trans u.db v.db w.db (reaches_keeps r) (step_keeps step)

-- From a database whose chain rows stand at the heads of linked chains, every run of any workers
-- reaches only such databases.
pub Reaches-ChainOk : {u w : World} → Reaches u w → ChainOk u.db → ChainOk w.db
Reaches-ChainOk r = reaches_keeps chain_kept r

-- Over every run of any workers, a committed invoice stays as it was committed, and once an answer is
-- recorded its row stays as it is.
pub Reaches-KeepsInvoices : {u w : World} → Reaches u w → KeepsInvoices u.db w.db
Reaches-KeepsInvoices r = reaches_keeps invoices_kept r
