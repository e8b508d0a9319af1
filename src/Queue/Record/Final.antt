-- ===== src/Queue/Record/Final.antt =====
-- A committed invoice does not change, and neither does a recorded answer (queue/chain.go).
use zatca_integration.Common.{
  ℕ, ◌≡◌, refl, sym, ◌∙◌, Bool, true, false, ◌&&◌, Option, none, some, List, [], ◌∷◌, any, find_row,
  changed_if, find_row-update_rows_if, if◌then◌else◌, arith, inl, inr, Bool-cases, ◌==◌,
}
use mathlib.Core.Path.{subst}
use zatca_integration.Common.Int.{ℤ, ◌==ℤ◌, ==ℤ_iff}
use zatca_integration.Queue.Types.{Booking, SignedInvoice, Outcome, is_pending}
use zatca_integration.Queue.Message.{UuidLibrary}
use zatca_integration.Queue.Chain.{of_bill, new_submission, reserve_row, unreserve_row}
use zatca_integration.Queue.Chain.Effects.{CommitEnds}
use zatca_integration.Queue.Record.{answer_row, log_row, issue_bill, answered, open_row}
use zatca_integration.Queue.Kept.{Kept}
use zatca_integration.Db.{Submission, Db}

-- The same invoice: what Commit has written of it.
pub record SameInvoice (s t : Submission) : Type 0 where
  pub id_same : t.id ≡ s.id
  pub bill_same : t.bill_id ≡ s.bill_id
  pub branch_same : t.branch_id ≡ s.branch_id
  pub icv_same : t.invoice_icv ≡ s.invoice_icv
  pub pih_same : t.previous_invoice_hash ≡ s.previous_invoice_hash
  pub uuid_same : t.invoice_uuid ≡ s.invoice_uuid
  pub hash_same : t.invoice_hash ≡ s.invoice_hash
  pub kind_same : t.invoice_kind ≡ s.invoice_kind
  pub xml_same : t.signed_xml ≡ s.signed_xml

-- The row of a bill later on: the same invoice, and the same row once an answer is recorded.
abbrev pub Stands : Option Submission → Option Submission → Type 0
Stands none later = Unit
Stands (some s) none = ⊥
Stands (some s) (some t) = SameInvoice s t × (is_pending s.outcome_state ≡ false → t ≡ s)

abbrev pub row_of : ℤ → Db → Option Submission
row_of i d = find_row (of_bill i) d.submissions

abbrev pub KeepsInvoices : Db → Db → Type 0
KeepsInvoices d d' = (i : ℤ) → Stands (row_of i d) (row_of i d')

SameInvoice-refl : (s : Submission) → SameInvoice s s
SameInvoice-refl s = record {
  id_same = refl;
  bill_same = refl;
  branch_same = refl;
  icv_same = refl;
  pih_same = refl;
  uuid_same = refl;
  hash_same = refl;
  kind_same = refl;
  xml_same = refl;
}

SameInvoice-trans : (s t u : Submission) → SameInvoice s t → SameInvoice t u → SameInvoice s u
SameInvoice-trans s t u a b = record {
  id_same = b.id_same ∙ a.id_same;
  bill_same = b.bill_same ∙ a.bill_same;
  branch_same = b.branch_same ∙ a.branch_same;
  icv_same = b.icv_same ∙ a.icv_same;
  pih_same = b.pih_same ∙ a.pih_same;
  uuid_same = b.uuid_same ∙ a.uuid_same;
  hash_same = b.hash_same ∙ a.hash_same;
  kind_same = b.kind_same ∙ a.kind_same;
  xml_same = b.xml_same ∙ a.xml_same;
}

Stands-refl : (o : Option Submission) → Stands o o
Stands-refl none = tt
Stands-refl (some s) = (SameInvoice-refl s, λ h. refl)

Stands-trans : (o p q : Option Submission) → Stands o p → Stands p q → Stands o q
Stands-trans none p q h k = tt
Stands-trans (some s) (some t) (some u) (a, f) (b, g) = (
  SameInvoice-trans s t u a b,
  λ h. g (subst (λ r. is_pending r.outcome_state ≡ false) (sym (f h)) h) ∙ f h,
)
Stands-trans (some s) (some t) none h k = k
Stands-trans (some s) none q h k = absurd h

same_rows : (d d' : Db) → d'.submissions ≡ d.submissions → KeepsInvoices d d'
same_rows d d' e i = rw e (Stands-refl (row_of i d))

not_any-find_row :
    (p : Submission → Bool) (rows : List Submission) → any p rows ≡ false → find_row p rows ≡ none
not_any-find_row p [] h = refl
not_any-find_row p (s ∷ rows) h = ground (arith, not_any-find_row p rows)

committed_row :
    (d d' : Db) (s : Submission)
    → any (of_bill s.bill_id) d.submissions ≡ false
    → d'.submissions ≡ s ∷ d.submissions
    → KeepsInvoices d d'
committed_row d d' s fresh after i = rw after (elim (Bool-cases (s.bill_id ==ℤ i)) [
  | inl mine ↦
      let e : s.bill_id ≡ i = (==ℤ_iff s.bill_id i).0 mine in
      let absent : row_of i d ≡ none =
        not_any-find_row (of_bill i) d.submissions
          (subst (λ j. any (of_bill j) d.submissions ≡ false) e fresh) in
      rw absent tt
  | inr other ↦ rw other (Stands-refl (row_of i d))
])

commit_kept :
    (uuid : UuidLibrary) (b : Booking) (i : SignedInvoice) (d d' : Db)
    → CommitEnds uuid b i d d'
    → KeepsInvoices d d'
commit_kept uuid b i d d' (inl same) k = rw same (Stands-refl (row_of k d))
commit_kept uuid b i d d' (inr (c, m, valid)) k =
    committed_row d d' (new_submission d.next_id i) c.new_bill c.submissions_after k

answered-Stands :
    (o : Outcome) (status t id : ℕ) (r : Option Submission)
    → Stands r (changed_if (open_row id) (answered o status t) r)
answered-Stands o status t id none = tt
answered-Stands o status t id (some s) =
    (at (open_row id s), closed (s.id == id) (is_pending s.outcome_state))
  where
    at : (c : Bool) → SameInvoice s (if c then answered o status t s else s)
    at true = record {
      id_same = refl;
      bill_same = refl;
      branch_same = refl;
      icv_same = refl;
      pih_same = refl;
      uuid_same = refl;
      hash_same = refl;
      kind_same = refl;
      xml_same = refl;
    }
    at false = SameInvoice-refl s

    closed : (c p : Bool) → p ≡ false → (if c && p then answered o status t s else s) ≡ s
    closed true true h = cc
    closed true false h = refl
    closed false p h = refl

answer_kept :
    (o : Outcome) (status t id : ℕ) (d : Db) → KeepsInvoices d (answer_row o status t id d).1
unfolding answer_row
answer_kept o status t id d i =
    rw
      (find_row-update_rows_if (open_row id) (of_bill i) (answered o status t) d.submissions
        (λ x. refl))
      (answered-Stands o status t id (row_of i d))

reserve_kept : (b : Booking) (t : ℕ) (d : Db) → KeepsInvoices d (reserve_row b t d).1
unfolding reserve_row
reserve_kept b t d = same_rows d (reserve_row b t d).1 refl

unreserve_kept : (b : Booking) (d : Db) → KeepsInvoices d (unreserve_row b d).1
unfolding unreserve_row
unreserve_kept b d = same_rows d (unreserve_row b d).1 refl

log_kept : (o : Outcome) (t id : ℕ) (d : Db) → KeepsInvoices d (log_row o t id d).1
unfolding log_row
log_kept o t id d = same_rows d (log_row o t id d).1 refl

issue_kept : (i : ℤ) (d : Db) → KeepsInvoices d (issue_bill i d).1
unfolding issue_bill
issue_kept i d = same_rows d (issue_bill i d).1 refl

-- Every statement of the store leaves committed invoices and recorded answers as they are.
pub invoices_kept : Kept KeepsInvoices
invoices_kept = record {
  keeps_refl = λ d i. Stands-refl (row_of i d);
  keeps_trans = λ d e f p q i. Stands-trans (row_of i d) (row_of i e) (row_of i f) (p i) (q i);
  keeps_claims = λ d rows. same_rows d (record d { claims = rows }) refl;
  keeps_reserve = reserve_kept;
  keeps_unreserve = unreserve_kept;
  keeps_commit = commit_kept;
  keeps_answer = answer_kept;
  keeps_log = log_kept;
  keeps_issue = issue_kept;
}
