-- ===== src/Daemon/Keeps.antt =====
-- The handlers of the daemon are built of the deliveries and of the operations of the stores
-- (cmd/daemon/worker.go, cmd/daemon/reconcile.go).
use zatca_integration.Common.{ℕ, not, ◌&&◌, ◌||◌, Option, none, some}
use zatca_integration.Text.{Text, text_eq}
use zatca_integration.Errors.{Failure, Result, ok, err, is, claim_in_flight, chain_busy}
use zatca_integration.Queue.Message.{Message}
use zatca_integration.Queue.Types.{SignedInvoice, is_unset}
use zatca_integration.Queue.Rules.{Rules, bind-Safe, return-Safe, if_Safe, try-Safe}
use zatca_integration.Queue.Kept.{Kept, kept_rules}
use zatca_integration.Queue.Operations.{stored-Safe, record_outcome-Safe}
use zatca_integration.Queue.Stream.{Services, Delivery, invoice_for}
use zatca_integration.Queue.Stream.Keeps.{handle-Safe, finalize-Safe}
use zatca_integration.Daemon.Delivery.{
  Worker, is_foreign, is_reported, delivery_budget_exhausted, after_finalize, on_failure,
  after_handle, handle_delivery,
}
use zatca_integration.Daemon.Reconcile.{
  Tenant, ReconcileRequest, mismatch, is_status, is_ambiguous, external_outcome, after_recording,
  on_invoice, handle_reconcile_request,
}
use zatca_integration.Db.{Db}
use zatca_integration.Db.Program.Rules.{Safe, OnDb, Yields_any}

module _ {K : Db → Db → Type 0} (kept : Kept K) where
  abbrev rules : Rules (OnDb K)
  rules = kept_rules kept

  module _ (k : Worker) (s : Services) (y : Delivery) (number : Option ℕ) (text : Text) where
    finalized-Safe : (r : Result (Unit {0})) → Safe (OnDb K) (after_finalize k s y number text r)
    finalized-Safe (ok u) = return-Safe rules _
    finalized-Safe (err e) = return-Safe rules _

    on_failure-Safe : (m : Message) (e : Failure) → Safe (OnDb K) (on_failure k s y number text m e)
    on_failure-Safe m e = if_Safe rules (is_reported e) _ _ (return-Safe rules _) (
        if_Safe rules
          (delivery_budget_exhausted number k.max_deliver
            && not (is e claim_in_flight)
            && not (is e chain_busy))
          _ _
          (bind-Safe rules _ (after_finalize k s y number text)
            (try-Safe rules _ (finalize-Safe rules (λ n w. kept.keeps_refl w.db) s y m e text))
            finalized-Safe)
          (return-Safe rules _))

    handled-Safe :
        (m : Message) (r : Result (Unit {0})) → Safe (OnDb K) (after_handle k s y number text m r)
    handled-Safe m (ok u) = return-Safe rules _
    handled-Safe m (err e) = on_failure-Safe m e

    pub delivery-Safe : (r : Result Message) → Safe (OnDb K) (handle_delivery k s y number text r)
    unfolding handle_delivery
    delivery-Safe (err e) = return-Safe rules _
    delivery-Safe (ok m) = if_Safe rules (is_foreign k m) _ _ (return-Safe rules _) (
        bind-Safe rules _ (after_handle k s y number text m)
          (try-Safe rules _ (
            handle-Safe rules (λ n w. kept.keeps_refl w.db) s y m (λ i w. Unit)
              (λ w. Yields_any (invoice_for s y m)) (λ i w h. kept.keeps_refl w.db)))
          (handled-Safe m))

  module _ (t : Tenant) (r : ReconcileRequest) where
    recording-Safe :
        (i : SignedInvoice) (a : Result (Unit {0})) → Safe (OnDb K) (after_recording t r i a)
    recording-Safe i (ok u) = return-Safe rules _
    recording-Safe i (err e) = return-Safe rules _

    on_invoice-Safe : (o : Result (Option SignedInvoice)) → Safe (OnDb K) (on_invoice t r o)
    on_invoice-Safe (err e) = return-Safe rules _
    on_invoice-Safe (ok none) = return-Safe rules _
    on_invoice-Safe (ok (some i)) =
        if_Safe rules (mismatch r.invoice_uuid i.uuid) _ _ (return-Safe rules _) (
          if_Safe rules (mismatch r.invoice_hash i.hash) _ _ (return-Safe rules _) (
            if_Safe rules (is_status r.action) _ _ (return-Safe rules _) (
              if_Safe rules (not (is_unset i.outcome) && not (is_ambiguous i.outcome)) _ _
                (return-Safe rules _)
                (bind-Safe rules _ (after_recording t r i)
                  (try-Safe rules _ (record_outcome-Safe rules i (external_outcome r)))
                  (recording-Safe i)))))

    pub reconcile-Safe : Safe (OnDb K) (handle_reconcile_request t r)
    unfolding handle_reconcile_request
    reconcile-Safe =
        if_Safe rules (not (text_eq r.tenant_key t.tenant_key) || not (text_eq r.db_name t.db_name))
          _ _ (return-Safe rules _)
          (bind-Safe rules _ (on_invoice t r) (try-Safe rules _ (stored-Safe rules r.bill_id))
            on_invoice-Safe)
