-- ===== src/Db/Tables.antt =====
-- The rows that the SQL statements of the package queue read and write, column by column. The
-- schema belongs to the backend: its keys are those that queue/sql_claim_store.go and
-- queue/sql_invariants_test.go describe. A DATETIME is a number of seconds.
use zatca_integration.Common.{ℕ, Option, List}
use zatca_integration.Common.Int.{ℤ}
use zatca_integration.Text.{Text}
use zatca_integration.Queue.Types.{OutcomeState, Kind}

pub data ClaimState : Type 0 where
  processing completed : ClaimState

-- zatca_consumer_claim
pub record ClaimRow : Type 0 where
  pub pos_id : Text
  pub bill_request_id : Text
  pub event_id : Text
  pub egs_sequence_id : Text
  pub fingerprint : Text
  pub state : ClaimState
  pub lease_expires_at : Option ℕ
  pub completed_at : Option ℕ

-- the chain columns of branch_zatca_config
pub record ChainRow : Type 0 where
  pub branch_id : ℤ
  pub last_icv : ℕ
  pub previous : Option Text
  pub owner_key : Option Text
  pub owner_token : Option Text
  pub reserved_icv : Option ℕ
  pub lease_end : Option ℕ

-- the columns of bill that the chain touches
pub record BillRow : Type 0 where
  pub id : ℤ
  pub branch_id : ℤ
  pub state : ℤ
  pub invoice_uuid : Option Text
  pub invoice_hash : Option Text
  pub qr_code : Option Text

-- zatca_submission
pub record Submission : Type 0 where
  pub id : ℕ
  pub bill_id : ℤ
  pub branch_id : ℤ
  pub status : ℕ
  pub outcome_state : OutcomeState
  pub invoice_icv : ℕ
  pub previous_invoice_hash : Text
  pub invoice_uuid : Text
  pub invoice_hash : Text
  pub invoice_kind : Kind
  pub signed_xml : Text
  pub provider_code : Option Text
  pub rejection_code : Option Text
  pub rejection_msg : Option Text
  pub provider_warning_message : Option Text
  pub submitted_at : Option ℕ
  pub outcome_at : Option ℕ

-- zatca_submission_outcome
pub record OutcomeRow : Type 0 where
  pub submission_id : ℕ
  pub outcome_state : OutcomeState
  pub provider_code : Option Text
  pub provider_warning_message : Option Text
  pub observed_at : ℕ

-- A new row stands first in its table. `next_id` is the AUTO_INCREMENT of zatca_submission.
pub record Db : Type 0 where
  pub claims : List ClaimRow
  pub chains : List ChainRow
  pub bills : List BillRow
  pub submissions : List Submission
  pub outcomes : List OutcomeRow
  pub next_id : ℕ
