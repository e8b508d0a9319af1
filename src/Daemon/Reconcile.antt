-- ===== src/Daemon/Reconcile.antt =====
-- queue/reconcile.go and cmd/daemon/reconcile.go: an operator reads or records the outcome of a
-- committed invoice. Error texts are left out.
use zatca_integration.Common.{
  ◌++◌, Bool, true, false, not, ◌&&◌, ◌||◌, Option, none, some, if◌then◌else◌,
}
use zatca_integration.Common.Int.{ℤ, is_positive}
use zatca_integration.Text.{Text, codes, text_eq, is_empty}
use zatca_integration.Errors.{Error, only, Result, ok, err, invalid_envelope}
use zatca_integration.Queue.Message.{
  UuidLibrary, is_blank, is_uuid, valid_identity_text, valid_fingerprint,
}
use zatca_integration.Queue.Types.{
  OutcomeState, unset, pending, accepted, accepted_with_warning, rejected, ambiguous, is_unset,
  external, is_external, SignedInvoice, Outcome,
}
use zatca_integration.Queue.Evidence.{valid_evidence_text}
use zatca_integration.Queue.Record.{stored, record_outcome}
use zatca_integration.Db.Program.{M, return, ◌>>=◌, try}

-- ReconcileActionStatus, ReconcileActionRecord, and any other text
pub data Action : Type 0 where
  status recording : Action
  other_action : Text → Action

-- ReconcileRequest
pub record ReconcileRequest : Type 0 where
  pub tenant_key : Text
  pub db_name : Text
  pub branch_id : ℤ
  pub bill_id : ℤ
  pub action : Action
  pub invoice_uuid : Text
  pub invoice_hash : Text
  pub state : OutcomeState
  pub provider_code : Text
  pub message : Text
  pub evidence_id : Text

-- The field Evidence of a reply
pub data ReplyEvidence : Type 0 where
  recorded_answer external_answer : ReplyEvidence

-- ReconcileReply: an error, or what is accepted
pub data ReconcileReply : Type 0 where
  refused : ReconcileReply
  accepted_as : OutcomeState → ReplyEvidence → Text → Text → ReconcileReply

-- ReconcileSubject
unfoldable pub reconcile_subject : Text → Text
reconcile_subject tenant_key = codes "control.zatca.reconcile." ++ tenant_key

abbrev known_action : Action → Bool
known_action (other_action t) = false
known_action _ = true

abbrev pub is_record : Action → Bool
is_record recording = true
is_record _ = false

abbrev pub is_status : Action → Bool
is_status status = true
is_status _ = false

-- the states that may be recorded
abbrev pub is_answer : OutcomeState → Bool
is_answer accepted = true
is_answer accepted_with_warning = true
is_answer rejected = true
is_answer _ = false

abbrev invalid : Error
invalid = some (only invalid_envelope)

-- ReconcileRequest.Validate
unfoldable pub validate_request : UuidLibrary → ReconcileRequest → Error
validate_request uuid r =
    if not (valid_identity_text r.tenant_key 64)
    then invalid
    else if not (valid_identity_text r.db_name 64)
    then invalid
    else if not (is_positive r.branch_id)
    then invalid
    else if not (is_positive r.bill_id)
    then invalid
    else if not (known_action r.action)
    then invalid
    else if not (is_empty r.invoice_uuid) && not (is_uuid uuid r.invoice_uuid)
    then invalid
    else if not (is_empty r.invoice_hash) && not (valid_fingerprint r.invoice_hash)
    then invalid
    else if not (is_record r.action)
    then none
    else if not (is_answer r.state)
    then invalid
    else if is_blank r.invoice_hash
    then invalid
    else if is_blank r.evidence_id || not (valid_evidence_text r.evidence_id 256)
    then invalid
    else if not (valid_evidence_text r.provider_code 64) || not (valid_evidence_text r.message 1024)
    then invalid
    else none

-- the field is given and is not that of the stored invoice
abbrev pub mismatch : Text → Text → Bool
mismatch given stored_text = not (is_empty given) && not (text_eq given stored_text)

abbrev shown_state : OutcomeState → OutcomeState
shown_state unset = pending
shown_state o = o

abbrev pub is_ambiguous : OutcomeState → Bool
is_ambiguous ambiguous = true
is_ambiguous _ = false

abbrev pub external_outcome : ReconcileRequest → Outcome
external_outcome r = record {
  state = r.state;
  provider_code = r.provider_code;
  message = r.message;
  evidence = external;
  evidence_id = r.evidence_id;
}

-- the tenant that the responder serves
pub record Tenant : Type 0 where
  pub tenant_key : Text
  pub db_name : Text

module _ (t : Tenant) (r : ReconcileRequest) where
  abbrev pub status_reply : SignedInvoice → ReconcileReply
  status_reply i =
      accepted_as (shown_state i.outcome)
        (if is_external i.outcome_evidence then external_answer else recorded_answer) i.evidence_id
        i.hash

  abbrev pub after_recording : SignedInvoice → Result (Unit {0}) → M ReconcileReply
  after_recording i (ok u) = return (accepted_as r.state external_answer r.evidence_id i.hash)
  after_recording i (err e) = return refused

  abbrev pub on_matching : SignedInvoice → M ReconcileReply
  on_matching i =
      if is_status r.action
      then return (status_reply i)
      else if not (is_unset i.outcome) && not (is_ambiguous i.outcome)
      then return refused
      else do a ← try (record_outcome i (external_outcome r)); after_recording i a

  abbrev pub on_invoice : Result (Option SignedInvoice) → M ReconcileReply
  on_invoice (err e) = return refused
  on_invoice (ok none) = return refused
  on_invoice (ok (some i)) =
      if mismatch r.invoice_uuid i.uuid
      then return refused
      else if mismatch r.invoice_hash i.hash
      then return refused
      else on_matching i

  -- handleReconcileRequest; Stored reads the bill's ID only
  unfoldable pub handle_reconcile_request : M ReconcileReply
  handle_reconcile_request =
      if not (text_eq r.tenant_key t.tenant_key) || not (text_eq r.db_name t.db_name)
      then return refused
      else do i ← try (stored r.bill_id); on_invoice i
