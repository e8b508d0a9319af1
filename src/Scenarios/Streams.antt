-- ===== src/Scenarios/Streams.antt =====
-- Runs of a whole delivery and of a reconciliation request.
use zatca_integration.Common.{◌≡◌, ◌⊎◌, []}
use zatca_integration.Common.Int.{pos}
use zatca_integration.Text.{codes}
use zatca_integration.Errors.{err, only, fingerprint_conflict}
use zatca_integration.Queue.Types.{accepted}
use zatca_integration.Queue.Stream.{handle_message}
use zatca_integration.Queue.Stream.Sent.{SentOk, handle-SentOk}
use zatca_integration.Queue.Stream.Acked.{AckedAfter, handle_acks}
use zatca_integration.Daemon.Reconcile.{Tenant, ReconcileRequest, recording}
use zatca_integration.Scenarios.{first_message, start, services, delivery}

handle-SentOk_example : SentOk (handle_message services delivery first_message start).1
handle-SentOk_example = handle-SentOk services delivery first_message start tt

handle_acks_example :
    AckedAfter first_message [] (handle_message services delivery first_message start).1
    ⊎ ((handle_message services delivery first_message start).0 ≡ err (only fingerprint_conflict))
handle_acks_example = handle_acks services delivery first_message start

abbrev tenant : Tenant
tenant = record { tenant_key = codes "t"; db_name = codes "shop" }

abbrev request : ReconcileRequest
request = record {
  tenant_key = codes "t";
  db_name = codes "shop";
  branch_id = pos 3;
  bill_id = pos 7;
  action = recording;
  invoice_uuid = codes "u";
  invoice_hash = codes "h";
  state = accepted;
  provider_code = [];
  message = [];
  evidence_id = codes "ticket";
}
