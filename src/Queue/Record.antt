-- ===== src/Queue/Record.antt =====
-- queue/chain.go: reading the committed invoice of a bill (Stored) and recording what ZATCA
-- answered (Record).
pub mod Final
use zatca_integration.Common.{
  ℕ, Bool, true, false, not, ◌&&◌, ◌||◌, Option, none, some, List, [], ◌∷◌, ◌==◌, any, find_row,
  update_rows, if◌then◌else◌,
}
use zatca_integration.Common.Int.{ℤ, pos, ◌==ℤ◌}
use zatca_integration.Text.{Text}
use zatca_integration.Errors.{Error, opaque}
use zatca_integration.Queue.Message.{is_blank}
use zatca_integration.Queue.Types.{
  OutcomeState, unset, pending, accepted, accepted_with_warning, rejected, ambiguous,
  terminal_failure, other_state, Evidence, other_evidence, unspecified, SignedInvoice, Outcome,
  is_pending, is_external,
}
use zatca_integration.Queue.Evidence.{
  valid_evidence_text, null_string, outcome_message, outcome_log_message, parse_outcome_evidence,
}
use zatca_integration.Queue.Chain.{of_bill, has_id}
use zatca_integration.Db.{BillRow, Submission, OutcomeRow, Db}
use zatca_integration.Db.Program.{
  M, Sql, row, no_rows, duplicate, lock_busy, broken, return, raise, ◌>>=◌, ◌>>◌, now, exec, query,
  expect, transaction,
}

-- sql.NullString.String
abbrev or_empty : Option Text → Text
or_empty none = []
or_empty (some s) = s

abbrev stored_message : Submission → Text
stored_message s = elim s.rejection_msg [ some t ↦ t | none ↦ or_empty s.provider_warning_message ]

abbrev pub unanswered : Submission → BillRow → SignedInvoice
unanswered s b = record {
  source_id = s.bill_id;
  branch_id = s.branch_id;
  uuid = s.invoice_uuid;
  icv = s.invoice_icv;
  pih = s.previous_invoice_hash;
  hash = s.invoice_hash;
  kind = s.invoice_kind;
  signed_xml = s.signed_xml;
  qr = or_empty b.qr_code;
  outcome = unset;
  outcome_evidence = unspecified;
  evidence_id = [];
  provider_code = [];
  outcome_message = [];
}

-- Stored on the row that it has read
unfoldable pub stored_invoice : Submission → BillRow → SignedInvoice
stored_invoice s b =
    let (evidence, id, message) = parse_outcome_evidence (stored_message s) in
    if is_pending s.outcome_state then unanswered s b else (record (unanswered s b) {
      outcome = s.outcome_state;
      outcome_evidence = evidence;
      evidence_id = id;
      provider_code = or_empty s.provider_code;
      outcome_message = message;
    })

abbrev pub with_bill : Submission → Option BillRow → Option SignedInvoice
with_bill s none = none
with_bill s (some b) = some (stored_invoice s b)

abbrev pub join_bill : List BillRow → Option Submission → Option SignedInvoice
join_bill bills none = none
join_bill bills (some s) = with_bill s (find_row (has_id s.bill_id) bills)

-- zatca_submission s JOIN bill b ON b.id = s.bill_id WHERE s.bill_id = ?
unfoldable pub committed : ℤ → Db → Option SignedInvoice
committed i db = join_bill db.bills (find_row (of_bill i) db.submissions)

-- SQLChain.Stored
unfoldable pub stored : ℤ → M (Option SignedInvoice)
stored i = do answer ← query (λ db. row (committed i db)); expect answer

-- submissionStatus
abbrev pub submission_status : OutcomeState → Option ℕ
submission_status accepted = some 2
submission_status rejected = some 3
submission_status accepted_with_warning = some 4
submission_status ambiguous = some 1
submission_status terminal_failure = some 5
submission_status _ = none

abbrev pub known_evidence : Evidence → Bool
known_evidence (other_evidence t) = false
known_evidence _ = true

abbrev is_rejection : OutcomeState → Bool
is_rejection rejected = true
is_rejection terminal_failure = true
is_rejection _ = false

abbrev pub is_issued : OutcomeState → Bool
is_issued accepted = true
is_issued accepted_with_warning = true
is_issued _ = false

-- warningMsg in Record
abbrev pub warning_msg : Outcome → Option Text
warning_msg o = if is_rejection o.state then none else null_string (outcome_message o) 1024

abbrev pub answered : Outcome → ℕ → ℕ → Submission → Submission
answered o status t s = record s {
  status = status;
  outcome_state = o.state;
  provider_code = null_string o.provider_code 64;
  rejection_code = if is_rejection o.state then null_string o.provider_code 64 else none;
  rejection_msg = if is_rejection o.state then null_string (outcome_message o) 512 else none;
  provider_warning_message = warning_msg o;
  submitted_at = some t;
  outcome_at = some t;
}

-- WHERE id = ? AND outcome_state = 'pending'
abbrev pub open_row : ℕ → Submission → Bool
open_row id s = s.id == id && is_pending s.outcome_state

unfoldable pub answer_row : Outcome → ℕ → ℕ → ℕ → Db → Sql Bool × Db
answer_row o status t id db = (
  row (any (open_row id) db.submissions),
  record db { submissions = update_rows (open_row id) (answered o status t) db.submissions },
)

unfoldable pub log_row : Outcome → ℕ → ℕ → Db → Sql (Unit {0}) × Db
log_row o t id db = (
  row tt,
  record db {
    outcomes =
        record {
          submission_id = id;
          outcome_state = o.state;
          provider_code = null_string o.provider_code 64;
          provider_warning_message = outcome_log_message o (warning_msg o);
          observed_at = t;
        }
        ∷ db.outcomes;
  },
)

abbrev issued : BillRow → BillRow
issued b = record b { state = pos 3 }

unfoldable pub issue_bill : ℤ → Db → Sql (Unit {0}) × Db
issue_bill i db = (row tt, record db { bills = update_rows (has_id i) issued db.bills })

abbrev scan_id : Option Submission → Sql ℕ
scan_id none = no_rows
scan_id (some s) = row s.id

abbrev pub select_submission : ℤ → Db → Sql ℕ
select_submission i db = scan_id (find_row (of_bill i) db.submissions)

module _ (i : SignedInvoice) (o : Outcome) where
  abbrev pub mark_issued : M (Unit {0})
  mark_issued = do marked ← exec (issue_bill i.source_id); expect marked; return tt

  -- the first answer stands
  abbrev pub after_answer : ℕ → ℕ → Bool → M (Unit {0})
  after_answer t id false = return tt
  after_answer t id true = do
    logged ← exec (log_row o t id)
    expect logged
    if is_issued o.state then mark_issued else return tt

  unfoldable pub record_in_tx : ℕ → M (Unit {0})
  record_in_tx status = do
    selected ← query (select_submission i.source_id)
    id ← expect selected
    t ← now
    updated ← exec (answer_row o status t id)
    recorded ← expect updated
    after_answer t id recorded

  abbrev pub with_status : Option ℕ → M (Unit {0})
  with_status none = raise opaque
  with_status (some status) =
      if not (known_evidence o.evidence)
      then raise opaque
      else if is_external o.evidence
          && (is_blank o.evidence_id || not (valid_evidence_text o.evidence_id 256))
      then raise opaque
      else transaction (record_in_tx status)

  -- SQLChain.Record
  unfoldable pub record_outcome : M (Unit {0})
  record_outcome = with_status (submission_status o.state)
