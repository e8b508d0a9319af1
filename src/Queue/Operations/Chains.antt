-- ===== src/Queue/Operations/Chains.antt =====
-- Every operation of SQLChain is built of its statements (queue/chain.go).
use zatca_integration.Common.{
  ℕ, ◌-◌, ◌^◌, Bool, true, false, not, ◌&&◌, ◌||◌, Option, none, some, ◌==◌,
}
use zatca_integration.Common.Int.{ℤ}
use zatca_integration.Queue.Message.{UuidLibrary, Message, is_blank}
use zatca_integration.Queue.Evidence.{valid_evidence_text}
use zatca_integration.Queue.Types.{Booking, SignedInvoice, Outcome, is_external}
use zatca_integration.Queue.Chain.{
  booking_of, book_at, book_row, on_locked, reserve, reserve_row, book, unreserve_row,
  release_booking, commit, select_chain, lease_live, owned_by, has_token, other_reservation,
}
use zatca_integration.Queue.Record.{
  stored, committed, answer_row, log_row, issue_bill, select_submission, after_answer, record_in_tx,
  with_status, record_outcome, submission_status, is_issued, known_evidence,
}
use zatca_integration.Db.{ChainRow}
use zatca_integration.Db.Program.{
  World, Sql, row, no_rows, duplicate, lock_busy, broken, ◌>>=◌, now, exec, query, expect,
}
use zatca_integration.Db.Program.Rules.{Safe}
use zatca_integration.Queue.Rules.{
  Rules, bind-Safe, return-Safe, raise-Safe, if_Safe, expect-Safe, now-Safe, run-Safe,
}
use zatca_integration.Queue.Kept.{Frame-rules}

module _ {R : World → World → Type 0} (rules : Rules R) where
  reserve-Safe : (lease : ℕ) (m : Message) (b : Booking) (t : ℕ) → Safe R (reserve lease m b t)
  reserve-Safe lease m b t =
      run-Safe rules (reserve_row b _) _ (rules.run_reserve b _) (λ u. return-Safe rules b)

  book_at-Safe :
      (lease : ℕ) (m : Message) (r : ChainRow) (b : Booking) (t : ℕ)
      → Safe R (book_at lease m r b t)
  book_at-Safe lease m r b t =
      if_Safe rules
        (lease_live r t && (not (owned_by r b.request_key) || not (has_token r b.event_id))) _ _
        (raise-Safe rules _)
        (if_Safe rules (owned_by r b.request_key && other_reservation r.reserved_icv b.icv) _ _
          (raise-Safe rules _) (reserve-Safe lease m b t))

  book_row-Safe : (lease : ℕ) (m : Message) (r : ChainRow) → Safe R (book_row lease m r)
  unfolding book_row
  book_row-Safe lease m r =
      let b = booking_of m r in
      if_Safe rules (r.last_icv == 2 ^ 64 - 1) _ _ (raise-Safe rules _)
        (bind-Safe rules now (book_at lease m r b) (now-Safe rules) (book_at-Safe lease m r b))

  on_locked-Safe : (lease : ℕ) (m : Message) (s : Sql ChainRow) → Safe R (on_locked lease m s)
  on_locked-Safe lease m (row r) = book_row-Safe lease m r
  on_locked-Safe lease m no_rows = raise-Safe rules _
  on_locked-Safe lease m lock_busy = raise-Safe rules _
  on_locked-Safe lease m duplicate = raise-Safe rules _
  on_locked-Safe lease m broken = raise-Safe rules _

  book_in_tx-Safe :
      (lease : ℕ) (m : Message) → Safe R (query (select_chain m.branch_id) >>= on_locked lease m)
  book_in_tx-Safe lease m =
      bind-Safe rules (query (select_chain m.branch_id)) (on_locked lease m) (rules.run_query _)
        (on_locked-Safe lease m)

  pub release_booking-Safe : (b : Booking) → Safe R (release_booking b)
  unfolding release_booking
  release_booking-Safe b =
      run-Safe rules (unreserve_row b) _ (rules.run_unreserve b) (λ u. return-Safe rules tt)

  pub commit-Safe :
      (uuid : UuidLibrary) (b : Booking) (i : SignedInvoice) → Safe R (commit uuid b i)
  commit-Safe uuid b i = rules.run_commit uuid b i

  pub stored-Safe : (i : ℤ) → Safe R (stored i)
  unfolding stored
  stored-Safe i =
      bind-Safe rules (query (λ d. row (committed i d))) expect (rules.run_query _)
        (expect-Safe rules)

  after_answer-Safe :
      (i : SignedInvoice) (o : Outcome) (t id : ℕ) (b : Bool) → Safe R (after_answer i o t id b)
  after_answer-Safe i o t id false = return-Safe rules tt
  after_answer-Safe i o t id true = run-Safe rules (log_row o t id) _ (rules.run_log o t id) (λ u.
      if_Safe rules (is_issued o.state) _ _
        (run-Safe rules (issue_bill i.source_id) _ (rules.run_issue i.source_id)
          (λ v. return-Safe rules tt))
        (return-Safe rules tt))

  record_in_tx-Safe :
      (i : SignedInvoice) (o : Outcome) (status : ℕ) → Safe R (record_in_tx i o status)
  unfolding record_in_tx
  record_in_tx-Safe i o status =
      bind-Safe rules (query (select_submission i.source_id)) _ (rules.run_query _) (λ s.
        bind-Safe rules (expect s) _ (expect-Safe rules s) (λ id.
          bind-Safe rules now _ (now-Safe rules) (λ t.
            bind-Safe rules (exec (answer_row o status t id)) _ (rules.run_answer o status t id)
              (λ u.
                bind-Safe rules (expect u) _ (expect-Safe rules u) (after_answer-Safe i o t id)))))

module _ {R : World → World → Type 0} (rules : Rules R) where
  pub book-Safe : (lease : ℕ) (m : Message) → Safe R (book lease m)
  unfolding book
  book-Safe lease m =
      rules.run_transaction _ (book_in_tx-Safe Frame-rules lease m) (book_in_tx-Safe rules lease m)

  with_status-Safe : (i : SignedInvoice) (o : Outcome) (s : Option ℕ) → Safe R (with_status i o s)
  with_status-Safe i o none = raise-Safe rules _
  with_status-Safe i o (some status) =
      if_Safe rules (not (known_evidence o.evidence)) _ _ (raise-Safe rules _) (
        if_Safe rules
          (is_external o.evidence
            && (is_blank o.evidence_id || not (valid_evidence_text o.evidence_id 256)))
          _ _ (raise-Safe rules _)
          (rules.run_transaction _ (record_in_tx-Safe Frame-rules i o status)
            (record_in_tx-Safe rules i o status)))

  pub record_outcome-Safe : (i : SignedInvoice) (o : Outcome) → Safe R (record_outcome i o)
  unfolding record_outcome
  record_outcome-Safe i o = with_status-Safe i o (submission_status o.state)
