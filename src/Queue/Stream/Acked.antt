-- ===== src/Queue/Stream/Acked.antt =====
-- What is acknowledged to the broker (queue/ordered_stream.go): requests that are completed, and
-- requests whose content is in conflict with an earlier one.
use zatca_integration.Common.{
  ◌≡◌, refl, sym, ◌∙◌, ap, ◌⊎◌, inl, inr, Bool, true, false, not, Option, none, some, List, [], ◌∷◌,
  any, find_row, if◌then◌else◌,
}
use mathlib.Core.Path.{subst}
use zatca_integration.Errors.{
  Failure, Error, Result, ok, err, is, only, rejected_input, outcome_ambiguous,
  fingerprint_conflict,
}
use zatca_integration.Queue.Message.{Message, validate}
use zatca_integration.Queue.Types.{SignedInvoice, Outcome, is_unset}
use zatca_integration.Queue.Claim.{
  ClaimDecision, process, duplicated, conflict, in_flight, of_request, when_valid, claim, complete,
  release,
}
use zatca_integration.Queue.Claim.Laws.{Decided, FoundAs, claim_decides}
use zatca_integration.Queue.Record.{record_outcome}
use zatca_integration.Queue.Kept.{Frame-rules}
use zatca_integration.Queue.Operations.{
  claim-Safe, release-Safe, complete-Safe, record_outcome-Safe,
}
use zatca_integration.Queue.Stream.{
  Services, Delivery, joined, note_ack, acknowledge, submit_invoice, invoice_for, failed,
  after_release, after_failure, after_ack, after_complete, finish, result_of, after_record,
  record_answer, after_submit, with_invoice, process_delivery, on_decision, handle_message,
}
use zatca_integration.Queue.Stream.Keeps.{invoice_for-Safe}
use zatca_integration.Db.{completed, ClaimRow}
use zatca_integration.Db.Program.{World, M, raise, ◌>>=◌, try}
use zatca_integration.Db.Program.Rules.{Frame, Safe, OnOk, Yields, Yields_any}
use zatca_integration.Queue.Claim.Completes.{done_for, IsDone, complete-IsDone}

-- A delivery that began with `before` acknowledged: nothing more is, or the delivery is, and its
-- request is completed.
abbrev pub AckedAfter : Message → List Message → World → Type 0
AckedAfter m before v = (v.acked ≡ before) ⊎ ((v.acked ≡ m ∷ before) × IsDone m v.db)

found_completed-done :
    (m : Message) (rows : List ClaimRow)
    → FoundAs
        (λ c. (c.fingerprint ≡ m.request_fingerprint) × (c.state ≡ completed))
        (find_row (of_request m) rows)
    → any (done_for m) rows ≡ true
found_completed-done m [] h = absurd h
found_completed-done m (c ∷ rows) h = at (of_request m c) refl (found_completed-done m rows) h
  where
    at :
        (b : Bool)
        → of_request m c ≡ b
        → (FoundAs
              (λ c. (c.fingerprint ≡ m.request_fingerprint) × (c.state ≡ completed))
              (find_row (of_request m) rows)
            → any (done_for m) rows ≡ true)
        → FoundAs
            (λ c. (c.fingerprint ≡ m.request_fingerprint) × (c.state ≡ completed))
            (if b then some c else find_row (of_request m) rows)
        → any (done_for m) (c ∷ rows) ≡ true
    at true e earlier (f, st) = rw (e, st) refl
    at false e earlier k = rw e (earlier k)

module _ (s : Services) (y : Delivery) (m : Message) (before : List Message) where
  abbrev Ends : World → Type 0
  Ends v = AckedAfter m before v

  -- a call whose error is looked at
  tried :
      (n : M (Unit {0})) (f : Result (Unit {0}) → M (Unit {0})) (v : World) (Q : World → Type 0)
      → Safe Frame n
      → Yields v n (λ x u. Q u)
      → v.acked ≡ before
      → ((u : World) → u.acked ≡ before → Q u → Ends (f (ok tt) u).1)
      → ((e : Failure) (u : World) → u.acked ≡ before → Ends (f (err e) u).1)
      → Ends ((try n >>= f) v).1
  tried n f v Q fr q h good bad = at (n v) q.at ((fr.at v).acked_same ∙ h)
    where
      at :
          (r : Result (Unit {0}) × World)
          → OnOk (λ x u. Q u) r
          → r.1.acked ≡ before
          → Ends (f r.0 r.1).1
      at (ok x, u) k e = good u e k
      at (err x, u) k e = bad x u e

  noted :
      (r : Result (Unit {0})) (v : World) → v.acked ≡ before → IsDone m v.db → Ends (note_ack m r v)
  noted (ok u) v h done = inr (ap (λ l. m ∷ l) h, done)
  noted (err e) v h done = inl h

  -- The acknowledgement, and then no more than a report.
  acked :
      (k : Result (Unit {0}) → M (Unit {0})) (v : World)
      → ((r : Result (Unit {0})) (u : World) → (k r u).1 ≡ u)
      → v.acked ≡ before
      → IsDone m v.db
      → Ends ((try (acknowledge y m) >>= k) v).1
  unfolding acknowledge
  acked k v still h done =
      subst Ends (sym (still y.ack (note_ack m y.ack v))) (noted y.ack v h done)

  joined_still :
      (cause : Failure) (r : Result (Unit {0})) (u : World)
      → (joined cause r (raise {A = Unit {0}} cause) u).1 ≡ u
  joined_still cause (ok x) u = refl
  joined_still cause (err e) u = refl

  failed_ends : (cause : Failure) (v : World) → v.acked ≡ before → Ends (failed s y m cause v).1
  unfolding failed
  failed_ends cause v h = pick (not (is cause rejected_input))
    where
      released : Ends ((try (release s.uuid m) >>= after_release s y m cause) v).1
      released =
          tried (release s.uuid m) (after_release s y m cause) v (λ u. Unit)
            (release-Safe Frame-rules s.uuid m) (Yields_any (release s.uuid m)) h (λ u e q. inl e)
            (λ f u e. inl e)

      ended : Ends ((try (complete s.uuid m) >>= after_failure s y m cause) v).1
      ended =
          tried (complete s.uuid m) (after_failure s y m cause) v (λ u. IsDone m u.db)
            (complete-Safe Frame-rules s.uuid m) (complete-IsDone s.uuid m v) h
            (λ u e done. acked (after_release s y m cause) u (joined_still cause) e done)
            (λ f u e. inl e)

      pick :
          (c : Bool)
          → Ends
              ((if c
                  then (do r ← try (release s.uuid m); after_release s y m cause r)
                  else do r ← try (complete s.uuid m); after_failure s y m cause r)
                v).1
      pick true = released
      pick false = ended

  report_still :
      (e : Option Failure) (r : Result (Unit {0})) (u : World) → (after_ack s y m e r u).1 ≡ u
  report_still none (ok x) u = refl
  report_still (some e) (ok x) u = refl
  report_still e (err f) u = refl

  finish_ends : (e : Option Failure) (v : World) → v.acked ≡ before → Ends (finish s y m e v).1
  unfolding finish
  finish_ends e v h =
      tried (complete s.uuid m) (after_complete s y m e) v (λ u. IsDone m u.db)
        (complete-Safe Frame-rules s.uuid m) (complete-IsDone s.uuid m v) h
        (λ u k done. acked (after_ack s y m e) u (report_still e) k done)
        (λ f u k. failed_ends f u k)

  record_ends :
      (i : SignedInvoice) (o : Outcome) (e : Option Failure) (v : World)
      → v.acked ≡ before
      → Ends (record_answer s y m i o e v).1
  record_ends i o e v h =
      tried (record_outcome i o) (after_record s y m o e) v (λ u. Unit)
        (record_outcome-Safe Frame-rules i o) (Yields_any (record_outcome i o)) h
        (λ u k q. finish_ends (result_of s y m o.state e) u k) (λ f u k. failed_ends f u k)

  submit_ends :
      (i : SignedInvoice) (o : Outcome) (e : Option Failure) (v : World)
      → v.acked ≡ before
      → Ends (after_submit s y m i o e v).1
  submit_ends i o none v h = record_ends i o none v h
  submit_ends i o (some e) v h = pick (not (is e outcome_ambiguous))
    where
      pick :
          (c : Bool) → Ends ((if c then failed s y m e else record_answer s y m i o (some e)) v).1
      pick true = failed_ends e v h
      pick false = record_ends i o (some e) v h

  invoice_ends :
      (r : Result SignedInvoice) (v : World) → v.acked ≡ before → Ends (with_invoice s y m r v).1
  unfolding submit_invoice
  invoice_ends (err e) v h = failed_ends e v h
  invoice_ends (ok i) v h = pick (not (is_unset i.outcome))
    where
      pick :
          (c : Bool)
          → Ends
              ((if c
                  then finish s y m none
                  else do r ← submit_invoice y i; after_submit s y m i r.outcome r.error)
                v).1
      pick true = finish_ends none v h
      pick false =
          submit_ends i (y.submit i).outcome (y.submit i).error (record v { sent = i ∷ v.sent }) h

  process_ends : (v : World) → v.acked ≡ before → Ends (process_delivery s y m v).1
  unfolding process_delivery
  process_ends v h =
      invoice_ends (invoice_for s y m v).0 (invoice_for s y m v).1
        (((invoice_for-Safe Frame-rules s y m).at v).acked_same ∙ h)

  -- a conflict is acknowledged and reported
  abbrev EndsOr : Result (Unit {0}) × World → Type 0
  EndsOr (r, v) = Ends v ⊎ (r ≡ err (only fingerprint_conflict))

  decision_ends :
      (d : ClaimDecision) (w v : World)
      → Decided s.claim_lease m w d v
      → v.acked ≡ before
      → EndsOr (on_decision s y m d v)
  unfolding acknowledge
  decision_ends duplicated w v (same, found) h = inl (
      noted y.ack v h (
        subst (λ d. any (done_for m) d.claims ≡ true) (sym same)
          (found_completed-done m w.db.claims found)))
  decision_ends conflict w v k h = inr refl
  decision_ends in_flight w v k h = inl (inl h)
  decision_ends process w v k h = inl (process_ends v h)

  claimed_ends :
      (w v : World) (r : Result ClaimDecision)
      → v.acked ≡ before
      → ((d : ClaimDecision) → r ≡ ok d → Decided s.claim_lease m w d v)
      → EndsOr (elim r [ ok d ↦ on_decision s y m d v | err e ↦ (err e, v) ])
  claimed_ends w v (ok d) h k = decision_ends d w v (k d refl) h
  claimed_ends w v (err e) h k = inl (inl h)

validated_ends :
    (s : Services) (y : Delivery) (m : Message) (w : World) (e : Error)
    → EndsOr s y m w.acked (when_valid e (claim s.uuid s.claim_lease m >>= on_decision s y m) w)
validated_ends s y m w (some e) = inl (inl refl)
validated_ends s y m w none =
    claimed_ends s y m w.acked w (claim s.uuid s.claim_lease m w).1
      (claim s.uuid s.claim_lease m w).0
      ((claim-Safe Frame-rules s.uuid s.claim_lease m).at w).acked_same
      (λ d e. claim_decides s.uuid s.claim_lease m w d e)

-- A delivery that is acknowledged is completed in the claim store, also when it fails, unless it is
-- reported as a conflict with another content of the same request.
pub handle_acks :
    (s : Services) (y : Delivery) (m : Message) (w : World)
    → AckedAfter m w.acked (handle_message s y m w).1
      ⊎ ((handle_message s y m w).0 ≡ err (only fingerprint_conflict))
unfolding handle_message
handle_acks s y m w = validated_ends s y m w (validate s.uuid m)
