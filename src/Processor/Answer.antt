-- ===== src/Processor/Answer.antt =====
-- processor/bill.go: ZATCA's answer to an invoice, classified as an outcome.
pub mod Recorded
use zatca_integration.Common.{
  ℕ, Bool, true, false, not, ◌&&◌, ◌||◌, Option, none, some, List, [], ◌∷◌, ◌++◌, ltb, leb, ◌==◌,
  if◌then◌else◌,
}
use zatca_integration.Text.{Text, codes, text_eq, is_empty}
use zatca_integration.Text.Decimal.{format_nat}
use zatca_integration.Errors.{Failure, opaque, only, outcome_ambiguous}
use zatca_integration.Queue.Types.{
  OutcomeState, accepted, accepted_with_warning, rejected, ambiguous, Kind, standard, simplified,
  other_kind, Evidence, unspecified, Outcome, unset,
}
use zatca_integration.Queue.Record.{is_issued}
use zatca_integration.Queue.Stream.{Submitted}

-- package fmt: the verb %q
pub record FmtLibrary : Type 0 where
  pub quote : Text → Text

-- ErrorDetail and ValidationMessage: the fields that are read
pub record Detail : Type 0 where
  pub code : Text
  pub message : Text

-- ValidationResults
pub record ValidationResults : Type 0 where
  pub error_messages : List Detail
  pub warning_messages : List Detail

-- InvoiceResponse
pub record InvoiceResponse : Type 0 where
  pub status : Text
  pub clearance_status : Text
  pub reporting_status : Text
  pub errors : List Detail
  pub warnings : List Detail
  pub validation : Option ValidationResults

-- client.APIError
pub record ApiError : Type 0 where
  pub status_code : ℕ
  pub response : Option InvoiceResponse
  pub body : Text

abbrev pub outcome_of : OutcomeState → Text → Text → Outcome
outcome_of state code message = record {
  state = state;
  provider_code = code;
  message = message;
  evidence = unspecified;
  evidence_id = [];
}

-- providerStatus
unfoldable pub provider_status : Kind → InvoiceResponse → Text
provider_status standard r =
    if not (is_empty r.clearance_status) then r.clearance_status else r.status
provider_status simplified r =
    if not (is_empty r.reporting_status) then r.reporting_status else r.status
provider_status (other_kind t) r = r.status

-- successStatus
unfoldable pub success_status : Kind → Text
success_status standard = codes "CLEARED"
success_status simplified = codes "REPORTED"
success_status (other_kind t) = []

-- joinTexts, for errorText and validationText
unfoldable pub join_texts : List Detail → Text
join_texts [] = []
join_texts (d ∷ []) = d.message
join_texts (d ∷ e ∷ rest) = d.message ++ (codes "; " ++ join_texts (e ∷ rest))

abbrev text_or : Text → Text → Text
text_or text other = if is_empty text then other else text

abbrev pub validation_errors : InvoiceResponse → List Detail
validation_errors r = elim r.validation [ none ↦ [] | some v ↦ v.error_messages ]

abbrev pub validation_warnings : InvoiceResponse → List Detail
validation_warnings r = elim r.validation [ none ↦ [] | some v ↦ v.warning_messages ]

abbrev pub warned_or_accepted : List Detail → Outcome → Outcome
warned_or_accepted [] rest = rest
warned_or_accepted (d ∷ ds) rest = outcome_of accepted_with_warning d.code d.message

abbrev pub refused_or : List Detail → Text → Outcome → Outcome
refused_or [] text rest = rest
refused_or (d ∷ ds) text rest = outcome_of rejected d.code (text_or (join_texts (d ∷ ds)) text)

abbrev kind_text : Kind → Text
kind_text standard = codes "standard"
kind_text simplified = codes "simplified"
kind_text (other_kind t) = t

module _ (fmt : FmtLibrary) where
  abbrev pub by_status : Kind → InvoiceResponse → Outcome
  by_status kind r =
      if is_empty (success_status kind)
      then outcome_of rejected r.status
          (codes "unsupported invoice kind " ++ fmt.quote (kind_text kind))
      else if not (text_eq (provider_status kind r) (success_status kind))
      then outcome_of rejected (provider_status kind r) (
          codes "the answer status "
          ++ (fmt.quote (provider_status kind r) ++ (codes " is not " ++ success_status kind)))
      else warned_or_accepted r.warnings
          (warned_or_accepted (validation_warnings r) (outcome_of accepted [] []))

  -- responseOutcome
  unfoldable pub response_outcome : Kind → InvoiceResponse → Outcome
  response_outcome kind r = refused_or r.errors (codes "provider returned top-level errors") (
      refused_or (validation_errors r) (codes "provider returned validation errors")
        (by_status kind r))

  -- isInvoiceRejection
  unfoldable pub is_invoice_rejection : ℕ → Bool
  is_invoice_rejection status =
      if status == 401 || status == 403 || status == 408 || status == 429
      then false
      else leb 400 status && ltb status 500

  abbrev pub known_kind : Kind → Bool
  known_kind (other_kind t) = false
  known_kind _ = true

  -- the outcome in the body of an error that says that ZATCA has the invoice already
  abbrev pub held_outcome : Kind → Option InvoiceResponse → Option Outcome
  held_outcome kind none = none
  held_outcome kind (some r) =
      if known_kind kind && is_issued (response_outcome kind r).state
      then some (response_outcome kind r)
      else none

  abbrev pub unclear : ApiError → Submitted
  unclear e = record {
    outcome = outcome_of ambiguous (format_nat e.status_code) e.body;
    error = some (only outcome_ambiguous);
  }

  abbrev pub no_outcome : Submitted
  no_outcome = record { outcome = outcome_of unset [] []; error = some opaque }

  abbrev pub by_code : ApiError → Submitted
  by_code e =
      if e.status_code == 409
      then unclear e
      else if e.status_code == 208
      then unclear e
      else if is_invoice_rejection e.status_code
      then record { outcome = outcome_of rejected (format_nat e.status_code) e.body; error = none }
      else no_outcome

  abbrev pub held_or : Option Outcome → Submitted → Submitted
  held_or none rest = rest
  held_or (some o) rest = record { outcome = o; error = none }

  -- rejectionOutcome; `none` is an error that is no APIError
  unfoldable pub rejection_outcome : Kind → Option ApiError → Submitted
  rejection_outcome kind none = no_outcome
  rejection_outcome kind (some e) =
      if e.status_code == 208 || e.status_code == 409
      then held_or (held_outcome kind e.response) (by_code e)
      else by_code e
