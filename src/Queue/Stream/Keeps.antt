-- ===== src/Queue/Stream/Keeps.antt =====
-- Deliveries keep what the statements of the store keep (queue/ordered_stream.go), and so do any
-- workers whose operations follow one another in any order.
use zatca_integration.Common.{
  ◌≡◌, refl, Bool, not, true, false, Option, none, some, ◌∷◌, if◌then◌else◌,
}
use zatca_integration.Text.{Text}
use zatca_integration.Errors.{
  fingerprint_conflict, only, Failure, Result, ok, err, is, rejected_input, outcome_ambiguous,
}
use zatca_integration.Queue.Message.{Message, validate}
use zatca_integration.Queue.Types.{is_unset, Booking, SignedInvoice, Outcome}
use zatca_integration.Queue.Claim.{
  ClaimDecision, process, duplicated, conflict, in_flight, claim, release, complete,
}
use zatca_integration.Queue.Chain.{book, release_booking, commit}
use zatca_integration.Queue.Record.{stored, record_outcome}
use zatca_integration.Queue.Rules.{
  Rules, bind-Safe, return-Safe, raise-Safe, if_Safe, try-Safe, when_valid-Safe,
}
use zatca_integration.Queue.Operations.{
  claim-Safe, release-Safe, complete-Safe, book-Safe, release_booking-Safe, commit-Safe,
  stored-Safe, record_outcome-Safe,
}
use zatca_integration.Queue.Stream.{
  Delivery, Services, lift, check_stored, check_built, joined, drop_booking, or_drop, note_ack,
  acknowledge, submit_invoice, build_and_commit, use_stored, invoice_for, failed, report, after_ack,
  after_complete, finish, result_of, after_record, record_answer, after_submit, with_invoice,
  process_delivery, on_decision, handle_message, record_exhausted, finalize_steps,
  finalize_permanent_failure, exhausted,
}
use zatca_integration.Db.Program.{World, M, ◌>>=◌, try}
use zatca_integration.Db.Program.Rules.{Safe, Yields, Yields-elim}

abbrev pub sent_world : SignedInvoice → World → World
sent_world i w = record w { sent = i ∷ w.sent }

module _ {R : World → World → Type 0} (rules : Rules R) where
  -- the caller looks at the error
  tried :
      {A B : Type 0} (m : M A) (f : Result A → M B)
      → Safe R m
      → ((r : Result A) → Safe R (f r))
      → Safe R (try m >>= f)
  tried m f h g = bind-Safe rules (try m) f (try-Safe rules m h) g

  lift-Safe : {A : Type 0} (r : Result A) → Safe R (lift r)
  lift-Safe r = record { at = rules.run_refl }

  joined-Safe :
      {A : Type 0} (cause : Failure) (r : Result (Unit {0})) (m : M A)
      → Safe R m
      → Safe R (joined cause r m)
  joined-Safe cause (ok u) m h = h
  joined-Safe cause (err e) m h = raise-Safe rules _

  drop-Safe : {A : Type 0} (b : Booking) (cause : Failure) → Safe R (drop_booking {A = A} b cause)
  unfolding drop_booking
  drop-Safe b cause =
      tried (release_booking b) _ (release_booking-Safe rules b)
        (λ r. joined-Safe cause r _ (raise-Safe rules cause))

  or_drop-Safe : {A : Type 0} (b : Booking) (r : Result A) → Safe R (or_drop b r)
  or_drop-Safe b (ok a) = return-Safe rules a
  or_drop-Safe b (err e) = drop-Safe b e

  module _ (s : Services) (y : Delivery) (m : Message) where
    use_stored-Safe : (o : Option SignedInvoice) → Safe R (use_stored s y m o)
    use_stored-Safe (some i) = lift-Safe (check_stored s.uuid i m)
    use_stored-Safe none = bind-Safe rules (lift y.prepare) _ (lift-Safe _) (λ p.
        bind-Safe rules (book s.booking_lease m) (build_and_commit s y m) (book-Safe rules _ m)
          (λ b. bind-Safe rules (or_drop b (y.build b)) _ (or_drop-Safe b _) (λ i.
            bind-Safe rules (or_drop b (check_built s.uuid i m b)) _ (or_drop-Safe b _) (λ u.
              tried (commit s.uuid b i) _ (commit-Safe rules s.uuid b i) (λ r.
                bind-Safe rules (or_drop b r) _ (or_drop-Safe b r) (λ c. return-Safe rules i))))))

    pub invoice_for-Safe : Safe R (invoice_for s y m)
    unfolding invoice_for
    invoice_for-Safe =
        bind-Safe rules (stored m.id) (use_stored s y m) (stored-Safe rules m.id) use_stored-Safe

-- `acks` is for the acknowledgement, which is no statement.
module _ {R : World → World → Type 0} (rules : Rules R)
    (acks : (m : Message) (w : World) → R w (record w { acked = m ∷ w.acked })) where
  note_ack_kept : (m : Message) (r : Result (Unit {0})) (w : World) → R w (note_ack m r w)
  note_ack_kept m (ok u) w = acks m w
  note_ack_kept m (err e) w = rules.run_refl w

  module _ (s : Services) (y : Delivery) (m : Message) where
    acknowledge-Safe : Safe R (acknowledge y m)
    unfolding acknowledge
    acknowledge-Safe = record { at = note_ack_kept m y.ack }

    failed-Safe : (cause : Failure) → Safe R (failed s y m cause)
    unfolding failed
    failed-Safe cause =
        if_Safe rules (not (is cause rejected_input)) _ _
          (tried rules (release s.uuid m) _ (release-Safe rules s.uuid m)
            (λ r. joined-Safe rules cause r _ (raise-Safe rules cause)))
          (tried rules (complete s.uuid m) _ (complete-Safe rules s.uuid m) (λ c.
            joined-Safe rules cause c _ (
              tried rules (acknowledge y m) _ acknowledge-Safe
                (λ a. joined-Safe rules cause a _ (raise-Safe rules cause)))))

    report-Safe : (e : Option Failure) → Safe R (report s y m e)
    report-Safe none = return-Safe rules tt
    report-Safe (some e) = raise-Safe rules e

    after_ack-Safe : (e : Option Failure) (r : Result (Unit {0})) → Safe R (after_ack s y m e r)
    after_ack-Safe e (ok u) = report-Safe e
    after_ack-Safe e (err f) = raise-Safe rules _

    after_complete-Safe :
        (e : Option Failure) (r : Result (Unit {0})) → Safe R (after_complete s y m e r)
    after_complete-Safe e (ok u) =
        tried rules (acknowledge y m) _ acknowledge-Safe (after_ack-Safe e)
    after_complete-Safe e (err f) = failed-Safe f

    finish-Safe : (e : Option Failure) → Safe R (finish s y m e)
    unfolding finish
    finish-Safe e =
        tried rules (complete s.uuid m) _ (complete-Safe rules s.uuid m) (after_complete-Safe e)

    after_record-Safe :
        (o : Outcome) (e : Option Failure) (r : Result (Unit {0}))
        → Safe R (after_record s y m o e r)
    after_record-Safe o e (ok u) = finish-Safe (result_of s y m o.state e)
    after_record-Safe o e (err f) = failed-Safe f

    record_answer-Safe :
        (i : SignedInvoice) (o : Outcome) (e : Option Failure) → Safe R (record_answer s y m i o e)
    record_answer-Safe i o e =
        tried rules (record_outcome i o) _ (record_outcome-Safe rules i o) (after_record-Safe o e)

    after_submit-Safe :
        (i : SignedInvoice) (o : Outcome) (e : Option Failure) → Safe R (after_submit s y m i o e)
    after_submit-Safe i o none = record_answer-Safe i o none
    after_submit-Safe i o (some e) =
        if_Safe rules (not (is e outcome_ambiguous)) _ _ (failed-Safe e)
          (record_answer-Safe i o (some e))

    sent_at :
        (i : SignedInvoice) (w : World)
        → R w (sent_world i w)
        → R w ((submit_invoice y i >>= λ r. after_submit s y m i r.outcome r.error) w).1
    unfolding submit_invoice
    sent_at i w h =
        rules.run_trans w (sent_world i w) _ h
          ((after_submit-Safe i (y.submit i).outcome (y.submit i).error).at (sent_world i w))

    with_invoice_at :
        (r : Result SignedInvoice) (w : World)
        → ((i : SignedInvoice) → r ≡ ok i → R w (sent_world i w))
        → R w (with_invoice s y m r w).1
    with_invoice_at (err e) w h = (failed-Safe e).at w
    with_invoice_at (ok i) w h = pick (not (is_unset i.outcome))
      where
        pick :
            (c : Bool)
            → R w
                ((if c
                    then finish s y m none
                    else do r ← submit_invoice y i; after_submit s y m i r.outcome r.error)
                  w).1
        pick true = (finish-Safe none).at w
        pick false = sent_at i w (h i refl)

    -- What is known of an invoice before it is sent.
    module _ (P : SignedInvoice → World → Type 0)
        (found : (w : World) → Yields w (invoice_for s y m) P)
        (sends : (i : SignedInvoice) (w : World) → P i w → R w (sent_world i w)) where
      process-Safe : Safe R (process_delivery s y m)
      unfolding process_delivery
      process-Safe = record {
        at = λ w.
            rules.run_trans w (invoice_for s y m w).1 _ ((invoice_for-Safe rules s y m).at w) (
              with_invoice_at (invoice_for s y m w).0 (invoice_for s y m w).1
                (λ i e. sends i _ (Yields-elim (invoice_for s y m) (found w) e)));
      }

      on_decision-Safe : (d : ClaimDecision) → Safe R (on_decision s y m d)
      on_decision-Safe duplicated = acknowledge-Safe
      on_decision-Safe conflict =
          tried rules (acknowledge y m) _ acknowledge-Safe
            (λ a. raise-Safe rules (only fingerprint_conflict))
      on_decision-Safe in_flight = raise-Safe rules _
      on_decision-Safe process = process-Safe

      pub handle-Safe : Safe R (handle_message s y m)
      unfolding handle_message
      handle-Safe = when_valid-Safe rules (validate s.uuid m) _ (
          bind-Safe rules (claim s.uuid s.claim_lease m) _ (claim-Safe rules s.uuid _ m)
            on_decision-Safe)

    record_exhausted-Safe :
        (text : Text) (o : Option SignedInvoice) → Safe R (record_exhausted s y m text o)
    record_exhausted-Safe text none = return-Safe rules tt
    record_exhausted-Safe text (some i) =
        if_Safe rules (is_unset i.outcome) _ _ (record_outcome-Safe rules i (exhausted s y m text))
          (return-Safe rules tt)

    pub finalize-Safe :
        (cause : Failure) (text : Text) → Safe R (finalize_permanent_failure s y m cause text)
    unfolding finalize_permanent_failure
    finalize-Safe cause text =
        tried rules (finalize_steps s y m text) _
          (bind-Safe rules (stored m.id) _ (stored-Safe rules m.id) (λ o.
            bind-Safe rules (record_exhausted s y m text o) _ (record_exhausted-Safe text o) (λ u.
              bind-Safe rules (complete s.uuid m) _ (complete-Safe rules s.uuid m)
                (λ v. acknowledge-Safe))))
          (λ r. joined-Safe rules cause r _ (return-Safe rules tt))
