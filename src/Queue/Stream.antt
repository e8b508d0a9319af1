-- ===== src/Queue/Stream.antt =====
-- queue/ordered_stream.go: one delivery of an ordered stream, from the claim to the acknowledgement.
-- The ACK function and the cause of a permanent failure are given (not nil). The mutex of the
-- partition only keeps deliveries of one process apart; the operations below may come in any order.
pub mod Keeps
pub mod Sent
pub mod Acked
use zatca_integration.Common.{
  ℕ, [], Bool, true, false, not, ◌&&◌, ◌||◌, Option, none, some, ◌∷◌, ◌==◌, if◌then◌else◌,
}
use zatca_integration.Common.Int.{◌==ℤ◌}
use zatca_integration.Text.{Text, codes, text_eq}
use zatca_integration.Errors.{
  Failure, is, join, opaque, only, Result, ok, err, fingerprint_conflict, claim_in_flight,
  rejected_input, invoice_rejected, outcome_ambiguous,
}
use zatca_integration.Queue.Message.{UuidLibrary, Message, validate}
use zatca_integration.Queue.Types.{
  OutcomeState, rejected, terminal_failure, is_unset, local, Booking, SignedInvoice, Outcome,
  validate_invoice,
}
use zatca_integration.Queue.Claim.{
  ClaimDecision, process, duplicated, conflict, in_flight, when_valid, claim, release, complete,
}
use zatca_integration.Queue.Chain.{book, release_booking, commit}
use zatca_integration.Queue.Record.{stored, record_outcome}
use zatca_integration.Db.Program.{World, M, return, raise, ◌>>=◌, try}

-- What Submit returns: an outcome and, beside it, an error.
pub record Submitted : Type 0 where
  pub outcome : Outcome
  pub error : Option Failure

-- What the pipeline and the broker do during one delivery: the source calls each at most once.
pub record Delivery : Type 0 where
  pub prepare : Result (Unit {0})
  pub build : Booking → Result SignedInvoice
  pub submit : SignedInvoice → Submitted
  pub ack : Result (Unit {0})

-- Services, and the leases of the two stores.
pub record Services : Type 0 where
  pub uuid : UuidLibrary
  pub claim_lease : ℕ
  pub booking_lease : ℕ

abbrev pub lift : {A : Type 0} → Result A → M A
lift r w = (r, w)

-- checkStored
unfoldable pub check_stored : UuidLibrary → SignedInvoice → Message → Result SignedInvoice
check_stored uuid i m = elim (validate_invoice uuid i) [
  | some e ↦ err opaque
  | none ↦
      if not (i.source_id ==ℤ m.id)
      then err opaque
      else if not (text_eq i.uuid m.invoice_uuid) || not (i.branch_id ==ℤ m.branch_id)
      then err opaque
      else ok i
]

-- checkBuilt
unfoldable pub check_built : UuidLibrary → SignedInvoice → Message → Booking → Result (Unit {0})
check_built uuid i m b = elim (validate_invoice uuid i) [
  | some e ↦ err opaque
  | none ↦
      if not (i.source_id ==ℤ m.id)
      then err opaque
      else if not (i.branch_id ==ℤ m.branch_id)
      then err opaque
      else if not (text_eq i.uuid m.invoice_uuid) || not (text_eq i.uuid b.uuid)
      then err opaque
      else if not (i.icv == b.icv)
      then err opaque
      else if not (text_eq i.pih b.pih)
      then err opaque
      else ok tt
]

-- the error of a call that comes after a failure is joined to its cause
abbrev pub joined : {A : Type 0} → Failure → Result (Unit {0}) → M A → M A
joined cause (ok u) rest = rest
joined cause (err e) rest = raise (join cause e)

-- OrderedStream.release
unfoldable pub drop_booking : {A : Type 0} → Booking → Failure → M A
drop_booking b cause = do r ← try (release_booking b); joined cause r (raise cause)

-- the call failed: the booking is dropped and the failure stays
abbrev pub or_drop : {A : Type 0} → Booking → Result A → M A
or_drop b (ok a) = return a
or_drop b (err e) = drop_booking b e

-- the ACK function: an acknowledged delivery is not delivered again
abbrev pub note_ack : Message → Result (Unit {0}) → World → World
note_ack m (ok u) w = record w { acked = m ∷ w.acked }
note_ack m (err e) w = w

unfoldable pub acknowledge : Delivery → Message → M (Unit {0})
acknowledge y m w = (y.ack, note_ack m y.ack w)

-- Submit hands the invoice to ZATCA, and may fail before or after that.
unfoldable pub submit_invoice : Delivery → SignedInvoice → M Submitted
submit_invoice y i w = (ok (y.submit i), record w { sent = i ∷ w.sent })

module _ (s : Services) (y : Delivery) (m : Message) where
  abbrev pub commit_built : Booking → SignedInvoice → M SignedInvoice
  commit_built b i = do r ← try (commit s.uuid b i); c ← or_drop b r; return i

  abbrev pub check_and_commit : Booking → SignedInvoice → M SignedInvoice
  check_and_commit b i = do u ← or_drop b (check_built s.uuid i m b); commit_built b i

  -- what invoiceFor does with its booking
  abbrev pub build_and_commit : Booking → M SignedInvoice
  build_and_commit b = do i ← or_drop b (y.build b); check_and_commit b i

  abbrev pub use_stored : Option SignedInvoice → M SignedInvoice
  use_stored (some i) = lift (check_stored s.uuid i m)
  use_stored none = do prepared ← lift y.prepare; b ← book s.booking_lease m; build_and_commit b

  -- invoiceFor
  unfoldable pub invoice_for : M SignedInvoice
  invoice_for = do found ← stored m.id; use_stored found

  abbrev pub after_release : Failure → Result (Unit {0}) → M (Unit {0})
  after_release cause r = joined cause r (raise cause)

  abbrev pub after_failure : Failure → Result (Unit {0}) → M (Unit {0})
  after_failure cause r = joined cause r (do a ← try (acknowledge y m); after_release cause a)

  -- failed
  unfoldable pub failed : Failure → M (Unit {0})
  failed cause =
      if not (is cause rejected_input)
      then (do r ← try (release s.uuid m); after_release cause r)
      else do r ← try (complete s.uuid m); after_failure cause r

  abbrev pub report : Option Failure → M (Unit {0})
  report none = return tt
  report (some e) = raise e

  abbrev join_report : Option Failure → Failure → Failure
  join_report none e = e
  join_report (some r) e = join r e

  abbrev pub after_ack : Option Failure → Result (Unit {0}) → M (Unit {0})
  after_ack result (ok u) = report result
  after_ack result (err e) = raise (join_report result e)

  abbrev pub after_complete : Option Failure → Result (Unit {0}) → M (Unit {0})
  after_complete result (ok u) = do a ← try (acknowledge y m); after_ack result a
  after_complete result (err e) = failed e

  -- finish
  unfoldable pub finish : Option Failure → M (Unit {0})
  finish result = do c ← try (complete s.uuid m); after_complete result c

  -- the result that process returns once the outcome is recorded
  abbrev pub result_of : OutcomeState → Option Failure → Option Failure
  result_of rejected e = some (only invoice_rejected)
  result_of o e = e

  abbrev pub after_record : Outcome → Option Failure → Result (Unit {0}) → M (Unit {0})
  after_record o e (ok u) = finish (result_of o.state e)
  after_record o e (err f) = failed f

  abbrev pub record_answer : SignedInvoice → Outcome → Option Failure → M (Unit {0})
  record_answer i o e = do r ← try (record_outcome i o); after_record o e r

  abbrev pub after_submit : SignedInvoice → Outcome → Option Failure → M (Unit {0})
  after_submit i o none = record_answer i o none
  after_submit i o (some e) =
      if not (is e outcome_ambiguous) then failed e else record_answer i o (some e)

  abbrev pub with_invoice : Result SignedInvoice → M (Unit {0})
  with_invoice (ok i) =
      if not (is_unset i.outcome)
      then finish none
      else do r ← submit_invoice y i; after_submit i r.outcome r.error
  with_invoice (err e) = failed e

  -- OrderedStream.process
  unfoldable pub process_delivery : M (Unit {0})
  process_delivery = do i ← try invoice_for; with_invoice i

  abbrev pub conflict_acked : Result (Unit {0}) → M (Unit {0})
  conflict_acked r = raise (only fingerprint_conflict)

  abbrev pub on_decision : ClaimDecision → M (Unit {0})
  on_decision duplicated = acknowledge y m
  on_decision conflict = do a ← try (acknowledge y m); conflict_acked a
  on_decision in_flight = raise (only claim_in_flight)
  on_decision process = process_delivery

  -- OrderedStream.HandleMessage
  unfoldable pub handle_message : M (Unit {0})
  handle_message =
      when_valid (validate s.uuid m) (do d ← claim s.uuid s.claim_lease m; on_decision d)

  -- `text` is the text of the cause
  abbrev pub exhausted : Text → Outcome
  exhausted text = record {
    state = terminal_failure;
    provider_code = codes "DAEMON_RETRY_EXHAUSTED";
    message = text;
    evidence = local;
    evidence_id = [];
  }

  abbrev pub record_exhausted : Text → Option SignedInvoice → M (Unit {0})
  record_exhausted text none = return tt
  record_exhausted text (some i) =
      if is_unset i.outcome then record_outcome i (exhausted text) else return tt

  abbrev pub finalize_steps : Text → M (Unit {0})
  finalize_steps text = do
    found ← stored m.id
    recorded ← record_exhausted text found
    completed ← complete s.uuid m
    acknowledge y m

  -- OrderedStream.FinalizePermanentFailure
  unfoldable pub finalize_permanent_failure : Failure → Text → M (Unit {0})
  finalize_permanent_failure cause text = do
    r ← try (finalize_steps text)
    joined cause r (return tt)
