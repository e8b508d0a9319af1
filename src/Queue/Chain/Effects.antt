-- ===== src/Queue/Chain/Effects.antt =====
-- What a transaction of SQLChain that goes through leaves in the tables (queue/chain.go).
use zatca_integration.Common.{
  ◌+◌, ◌≡◌, refl, sym, ap, ◌∙◌, ◌⊎◌, inl, inr, Bool-cases, true, false, not, ◌&&◌, Option, none,
  some, ◌∷◌, any, find_row, update_rows, arith,
}
use mathlib.Core.Path.{subst}
use zatca_integration.Common.Int.{◌==ℤ◌, ==ℤ_iff}
use zatca_integration.Text.{text_eq_iff}
use zatca_integration.Queue.Types.{Booking, SignedInvoice, validate_invoice}
use zatca_integration.Errors.{Error}
use zatca_integration.Queue.Message.{UuidLibrary}
use zatca_integration.Queue.Chain.{
  of_branch, holds, scan_chain, select_chain, insert_submission, fill_bill, advance_chain,
  new_submission, advanced, write_invoice, on_bill, on_chain, commit_in_tx, select_bill, scan_bill,
  has_id, invoiced, of_bill, differs, matches_booking, when_invoice, commit,
}
use zatca_integration.Db.{ChainRow, BillRow, Db}
use zatca_integration.Db.Program.{
  World, Sql, row, no_rows, duplicate, lock_busy, broken, transaction,
}
use zatca_integration.Db.Program.Rules.{
  Yields, Yields-return, Yields-raise, Yields-if, Yields-run, Yields-exec, query_same, Answers,
  Answers-row, transaction-K, Yields-weaken,
}

-- What a commit that goes through has found, and what it leaves.
pub record Committed (b : Booking) (i : SignedInvoice) (d d' : Db) : Type 0 where
  pub chain_row : ChainRow
  pub found : find_row (of_branch b.branch_id) d.chains ≡ some chain_row
  pub held : holds chain_row b ≡ true
  pub new_bill : any (of_bill i.source_id) d.submissions ≡ false
  pub bill_row : BillRow
  pub bill_found : find_row (has_id i.source_id) d.bills ≡ some bill_row
  pub bill_branch : bill_row.branch_id ≡ b.branch_id
  pub same_uuid : differs bill_row.invoice_uuid i.uuid ≡ false
  pub same_hash : differs bill_row.invoice_hash i.hash ≡ false
  pub bills_after :
      d'.bills
      ≡ update_rows (λ r. has_id i.source_id r && r.branch_id ==ℤ b.branch_id) (invoiced i) d.bills
  pub submissions_after : d'.submissions ≡ new_submission d.next_id i ∷ d.submissions
  pub chains_after : d'.chains ≡ update_rows (of_branch b.branch_id) (advanced i) d.chains
  pub claims_after : d'.claims ≡ d.claims
  pub outcomes_after : d'.outcomes ≡ d.outcomes
  pub ids_after : d'.next_id ≡ d.next_id + 1

-- The invoice carries what was booked.
pub record Matches (b : Booking) (i : SignedInvoice) : Type 0 where
  pub branch : i.branch_id ≡ b.branch_id
  pub icv : i.icv ≡ b.icv
  pub uuid : i.uuid ≡ b.uuid
  pub pih : i.pih ≡ b.pih

insert_submission_lem :
    (i : SignedInvoice) (d : Db)
    → (insert_submission i d).0 ≡ row tt
    → (any (of_bill i.source_id) d.submissions ≡ false)
      × ((insert_submission i d).1 ≡ record d {
        submissions = new_submission d.next_id i ∷ d.submissions;
        next_id = d.next_id + 1;
      })
unfolding insert_submission
insert_submission_lem i d h = ground arith

scan_bill-row : (o : Option BillRow) {r : BillRow} → scan_bill o ≡ row r → o ≡ some r
scan_bill-row none h = cc
scan_bill-row (some q) h = ground arith

pub scan_chain-row : (o : Option ChainRow) {r : ChainRow} → scan_chain o ≡ row r → o ≡ some r
scan_chain-row none h = cc
scan_chain-row (some q) h = ground arith

module _ (uuid : UuidLibrary) (b : Booking) (i : SignedInvoice) (d : Db) (r : ChainRow)
    (found : find_row (of_branch b.branch_id) d.chains ≡ some r) (held : holds r b ≡ true) where
  write_invoice-Committed :
      (v : World) (bill : BillRow)
      → find_row (has_id i.source_id) d.bills ≡ some bill
      → bill.branch_id ≡ b.branch_id
      → differs bill.invoice_uuid i.uuid ≡ false
      → differs bill.invoice_hash i.hash ≡ false
      → v.db ≡ d
      → Yields v (write_invoice uuid b i) (λ x u. Committed b i d u.db)
  unfolding fill_bill advance_chain
  write_invoice-Committed v bill at_bill own_branch uuid_kept hash_kept same =
      Yields-run (insert_submission i) _ (λ x u own after fr.
        let (fresh, effect) = insert_submission_lem i v.db own in
        Yields-run (fill_bill i b.branch_id) _ (λ x2 u2 own2 after2 fr2.
          Yields-run (advance_chain i b.branch_id) _ (λ x3 u3 own3 after3 fr3.
            Yields-return tt (record {
              chain_row = r;
              found = found;
              held = held;
              new_bill = rw (← same) fresh;
              bill_row = bill;
              bill_found = at_bill;
              bill_branch = own_branch;
              same_uuid = uuid_kept;
              same_hash = hash_kept;
              bills_after = cc;
              submissions_after = cc;
              chains_after = cc;
              claims_after = cc;
              outcomes_after = cc;
              ids_after = cc;
            }))))

  on_bill-Committed :
      (v : World) (s : Sql BillRow)
      → ((bill : BillRow) → s ≡ row bill → find_row (has_id i.source_id) d.bills ≡ some bill)
      → v.db ≡ d
      → Yields v (on_bill uuid b i s) (λ x u. Committed b i d u.db)
  on_bill-Committed v (row bill) at_bill same =
      Yields-if (not (bill.branch_id ==ℤ b.branch_id)) _ _ (λ e. Yields-raise _)
        (λ own.
          Yields-if (differs bill.invoice_uuid i.uuid) _ _ (λ e. Yields-raise _)
            (λ kept_uuid.
              Yields-if (differs bill.invoice_hash i.hash) _ _ (λ e. Yields-raise _)
                (λ kept_hash.
                  write_invoice-Committed v bill (at_bill bill refl)
                    (ground (arith, own, ==ℤ_iff bill.branch_id b.branch_id)) kept_uuid kept_hash
                    same)))
  on_bill-Committed v no_rows at_bill same = Yields-raise _
  on_bill-Committed v duplicate at_bill same = Yields-raise _
  on_bill-Committed v lock_busy at_bill same = Yields-raise _
  on_bill-Committed v broken at_bill same = Yields-raise _

-- A body of Commit that returns has committed the invoice on the row that holds its booking.
pub commit_in_tx-Committed :
    (uuid : UuidLibrary) (b : Booking) (i : SignedInvoice) (w : World)
    → Yields w (commit_in_tx uuid b i) (λ x u. Committed b i w.db u.db)
unfolding commit_in_tx
commit_in_tx-Committed uuid b i w =
    Yields-run (λ d. (select_chain b.branch_id d, d)) (on_chain uuid b i)
      (λ r u own after fr.
        let found = scan_chain-row (find_row (of_branch b.branch_id) w.db.chains) own in
        Yields-if (not (holds r b)) _ _ (λ e. Yields-raise _)
          (λ e.
            Yields-exec (λ d. (select_bill i.source_id d, d)) (on_bill uuid b i)
              (λ s x h.
                on_bill-Committed uuid b i w.db r found (ground arith) x s
                  (λ bill q.
                    let (own_bill, kept) = Answers-row (
                      subst (λ t. Answers (λ d. (select_bill i.source_id d, d)) u.db t x.db) q
                        h.answers) in
                    scan_bill-row (find_row (has_id i.source_id) w.db.bills)
                      (ap (select_bill i.source_id) (sym after) ∙ own_bill))
                  (query_same h.answers ∙ after))))

matches_booking-Matches :
    (uuid : UuidLibrary) (b : Booking) (i : SignedInvoice)
    → matches_booking uuid b i ≡ true
    → Matches b i
matches_booking-Matches uuid b i h =
    ground
      (arith, ==ℤ_iff i.branch_id b.branch_id, text_eq_iff i.uuid b.uuid, text_eq_iff i.pih b.pih)

-- Either nothing, or the whole commit of an invoice that is valid and carries what was booked.
abbrev pub CommitEnds : UuidLibrary → Booking → SignedInvoice → Db → Db → Type 0
CommitEnds uuid b i d d' =
    (d' ≡ d) ⊎ (Committed b i d d' × Matches b i × (validate_invoice uuid i ≡ none))

when_invoice-ends :
    (uuid : UuidLibrary) (b : Booking) (i : SignedInvoice) (w : World) (e : Error)
    → validate_invoice uuid i ≡ e
    → Matches b i
    → CommitEnds uuid b i w.db
        (when_invoice uuid b i e (transaction (commit_in_tx uuid b i)) w).1.db
when_invoice-ends uuid b i w (some e) h k = inl refl
when_invoice-ends uuid b i w none h k =
    transaction-K (CommitEnds uuid b i) (λ d. inl refl) (commit_in_tx uuid b i) w
      (λ v same. Yields-weaken (commit_in_tx-Committed uuid b i v) (λ x u done. inr (done, k, h)))

-- A commit, however it ends, also when the answer of a statement is lost, has changed nothing or has
-- made all of its writes: the new submission, the UUID, the hash and the code in the row of the bill,
-- and the advance of the chain row. Then the chain row held the booking, the bill is of the branch and
-- named no other UUID or hash, and it had no submission.
pub commit_atomic :
    (uuid : UuidLibrary) (b : Booking) (i : SignedInvoice) (w : World)
    → CommitEnds uuid b i w.db (commit uuid b i w).1.db
unfolding commit
commit_atomic uuid b i w = elim (Bool-cases (matches_booking uuid b i)) [
  | inl same ↦ rw same (when_invoice-ends uuid b i w _ refl (matches_booking-Matches uuid b i same))
  | inr other ↦ rw other (inl refl)
]
