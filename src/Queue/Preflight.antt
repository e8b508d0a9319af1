-- ===== src/Queue/Preflight.antt =====
-- queue/preflight.go: the check that a tenant's schema has the columns of the SQL statements. The
-- rows of information_schema, and sort.Strings, are parameters.
pub mod Reports
use zatca_integration.Common.{
  ◌≡◌, refl, ◌↔◌, Bool, true, false, ◌&&◌, ◌||◌, not, Option, none, some, List, [], ◌∷◌, ◌++◌, any,
  if◌then◌else◌, Bool-cases, inl, inr, arith,
}
use zatca_integration.Text.{Text, codes, text_eq, text_eq_refl, text_eq_iff}

-- schemaRequirement
pub record SchemaRequirement : Type 0 where
  pub table : Text
  pub columns : List Text

-- runtimeSchema
abbrev pub runtime_schema : List SchemaRequirement
runtime_schema =
    record {
      table = codes "branch_zatca_config";
      columns =
          codes "branch_id"
          ∷ codes "last_icv"
          ∷ codes "previous_invoice_hash"
          ∷ codes "icv_reservation_key"
          ∷ codes "icv_reservation_token"
          ∷ codes "reserved_icv"
          ∷ codes "reservation_lease_expires_at"
          ∷ [];
    }
    ∷ record {
      table = codes "bill";
      columns =
          codes "id"
          ∷ codes "branch_id"
          ∷ codes "state"
          ∷ codes "invoice_uuid"
          ∷ codes "invoice_hash"
          ∷ codes "qr_code"
          ∷ [];
    }
    ∷ record {
      table = codes "zatca_submission";
      columns =
          codes "bill_id"
          ∷ codes "branch_id"
          ∷ codes "status"
          ∷ codes "outcome_state"
          ∷ codes "invoice_icv"
          ∷ codes "previous_invoice_hash"
          ∷ codes "invoice_uuid"
          ∷ codes "invoice_hash"
          ∷ codes "invoice_kind"
          ∷ codes "signed_xml"
          ∷ codes "provider_code"
          ∷ codes "rejection_code"
          ∷ codes "rejection_msg"
          ∷ codes "provider_warning_message"
          ∷ codes "submitted_at"
          ∷ codes "outcome_at"
          ∷ [];
    }
    ∷ record {
      table = codes "zatca_submission_outcome";
      columns =
          codes "submission_id"
          ∷ codes "outcome_state"
          ∷ codes "provider_code"
          ∷ codes "provider_warning_message"
          ∷ codes "observed_at"
          ∷ [];
    }
    ∷ record {
      table = codes "zatca_consumer_claim";
      columns =
          codes "pos_id"
          ∷ codes "bill_request_id"
          ∷ codes "event_id"
          ∷ codes "egs_sequence_id"
          ∷ codes "fingerprint"
          ∷ codes "state"
          ∷ codes "lease_expires_at"
          ∷ codes "completed_at"
          ∷ [];
    }
    ∷ []

-- the columns that the query finds, each with its table
abbrev pub Columns : Type 0
Columns = List (Text × Text)

abbrev same_column : Text → Text → Text × Text → Bool
same_column table column (t, c) = text_eq table t && text_eq column c

-- `found[table][column]`
unfoldable pub is_found : Columns → Text → Text → Bool
is_found found table column = any (same_column table column) found

-- the loop over the columns of a table
unfoldable pub missing_columns : Columns → Text → List Text → List Text
missing_columns found table [] = []
missing_columns found table (column ∷ rest) =
    let others = missing_columns found table rest in
    if is_found found table column then others else (table ++ b'.' ∷ column) ∷ others

-- the loop over the schema
unfoldable pub missing_in : Columns → List SchemaRequirement → List Text
missing_in found [] = []
missing_in found (r ∷ rest) = missing_columns found r.table r.columns ++ missing_in found rest

-- what Preflight answers: `unreadable` stands for the errors of the query and its rows
pub data Verdict : Type 0 where
  ready : Verdict
  unreadable : Verdict
  missing : List Text → Verdict

abbrev verdict : (List Text → List Text) → List Text → Verdict
verdict sort [] = ready
verdict sort (name ∷ names) = missing (sort (name ∷ names))

-- Preflight: `query` is what the database answers, `none` for an error
unfoldable pub preflight : (List Text → List Text) → Option Columns → Verdict
preflight sort none = unreadable
preflight sort (some found) = verdict sort (missing_in found runtime_schema)
