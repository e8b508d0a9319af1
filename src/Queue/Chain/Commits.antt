-- ===== src/Queue/Chain/Commits.antt =====
-- What Commit has done when it reports success (queue/chain.go).
use zatca_integration.Common.{◌≡◌, not, none, some}
use zatca_integration.Errors.{Error, ok}
use zatca_integration.Queue.Types.{Booking, SignedInvoice, validate_invoice}
use zatca_integration.Queue.Message.{UuidLibrary}
use zatca_integration.Queue.Chain.{commit_in_tx, matches_booking, when_invoice, commit}
use zatca_integration.Queue.Chain.Effects.{Committed, commit_in_tx-Committed}
use zatca_integration.Db.{Db}
use zatca_integration.Db.Program.{World, transaction}
use zatca_integration.Db.Program.Rules.{
  Yields, Yields-if, Yields-raise, Yields-transaction, Yields-elim, IsStable,
}
use mathlib.Core.Path.{subst}

Committed-stable :
    (b : Booking) (i : SignedInvoice) (d : Db)
    → IsStable {A = Unit {0}} (λ x u. Committed b i d u.db)
Committed-stable b i d x u v same late h = rw same h

when_invoice-Committed :
    (uuid : UuidLibrary) (b : Booking) (i : SignedInvoice) (w : World) (e : Error)
    → Yields w
        (when_invoice uuid b i e (transaction (commit_in_tx uuid b i)))
        (λ x u. Committed b i w.db u.db)
when_invoice-Committed uuid b i w (some e) = Yields-raise _
when_invoice-Committed uuid b i w none =
    Yields-transaction (λ x u. Committed b i w.db u.db) (Committed-stable b i w.db)
      (commit_in_tx uuid b i)
      (λ v fr same.
        subst (λ d. Yields v (commit_in_tx uuid b i) (λ x u. Committed b i d u.db)) same
          (commit_in_tx-Committed uuid b i v))

pub commit-Committed :
    (uuid : UuidLibrary) (b : Booking) (i : SignedInvoice) (w : World)
    → Yields w (commit uuid b i) (λ x u. Committed b i w.db u.db)
unfolding commit
commit-Committed uuid b i w =
    Yields-if (not (matches_booking uuid b i)) _ _ (λ e. Yields-raise _)
      (λ e. when_invoice-Committed uuid b i w (validate_invoice uuid i))

-- When Commit returns no error, the row of the branch held the booking, the bill had no committed
-- invoice, and now the invoice stands in the submissions and in the row of the bill, and the row of the
-- branch has advanced to it.
pub commit_done :
    (uuid : UuidLibrary) (b : Booking) (i : SignedInvoice) (w : World)
    → (commit uuid b i w).0 ≡ ok tt
    → Committed b i w.db (commit uuid b i w).1.db
commit_done uuid b i w h = Yields-elim (commit uuid b i) (commit-Committed uuid b i w) h
