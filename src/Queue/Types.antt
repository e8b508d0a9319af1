-- ===== src/Queue/Types.antt =====
-- The values that the chain and the pipeline exchange (queue/chain.go).
use zatca_integration.Common.{ℕ, Bool, true, false, not, none, some, ◌==◌, if◌then◌else◌}
use zatca_integration.Common.Int.{ℤ, is_positive}
use zatca_integration.Text.{Text, codes}
use zatca_integration.Queue.Message.{UuidLibrary, is_uuid, is_blank}
use zatca_integration.Errors.{Error, opaque}

-- The values of an outcome_state column and of SignedInvoice.Outcome; `unset` is "".
pub data OutcomeState : Type 0 where
  unset pending accepted accepted_with_warning rejected ambiguous terminal_failure : OutcomeState
  other_state : Text → OutcomeState

-- Invoice kinds
pub data Kind : Type 0 where
  standard simplified : Kind
  other_kind : Text → Kind

-- EvidenceSource
pub data Evidence : Type 0 where
  unspecified provider external local : Evidence
  other_evidence : Text → Evidence

-- Booking
pub record Booking : Type 0 where
  pub branch_id : ℤ
  pub request_key : Text
  pub event_id : Text
  pub uuid : Text
  pub icv : ℕ
  pub pih : Text

-- SignedInvoice
pub record SignedInvoice : Type 0 where
  pub source_id : ℤ
  pub branch_id : ℤ
  pub uuid : Text
  pub icv : ℕ
  pub pih : Text
  pub hash : Text
  pub kind : Kind
  pub signed_xml : Text
  pub qr : Text
  pub outcome : OutcomeState
  pub outcome_evidence : Evidence
  pub evidence_id : Text
  pub provider_code : Text
  pub outcome_message : Text

-- Outcome
pub record Outcome : Type 0 where
  pub state : OutcomeState
  pub provider_code : Text
  pub message : Text
  pub evidence : Evidence
  pub evidence_id : Text

-- base64 of the SHA-256 of "0", as in the source
abbrev pub genesis_pih : Text
genesis_pih =
    codes "NWZlY2ViNjZmZmM4NmYzOGQ5NTI3ODZjNmQ2OTZjNzljMmRiYzIzOWRkNGU5MWI0NjcyOWQ3M2EyN2ZiNTdlOQ=="

abbrev known_kind : Kind → Bool
known_kind (other_kind t) = false
known_kind _ = true

-- "" or one of the five recorded answers
abbrev known_outcome : OutcomeState → Bool
known_outcome pending = false
known_outcome (other_state t) = false
known_outcome _ = true

abbrev pub is_unset : OutcomeState → Bool
is_unset unset = true
is_unset _ = false

abbrev pub is_pending : OutcomeState → Bool
is_pending pending = true
is_pending _ = false

abbrev pub is_external : Evidence → Bool
is_external external = true
is_external _ = false

-- SignedInvoice.Validate
unfoldable pub validate_invoice : UuidLibrary → SignedInvoice → Error
validate_invoice uuid i =
    if not (is_positive i.source_id)
    then some opaque
    else if not (is_positive i.branch_id)
    then some opaque
    else if not (is_uuid uuid i.uuid)
    then some opaque
    else if i.icv == 0
    then some opaque
    else if is_blank i.pih
    then some opaque
    else if is_blank i.hash
    then some opaque
    else if is_blank i.signed_xml
    then some opaque
    else if not (known_kind i.kind)
    then some opaque
    else if not (known_outcome i.outcome)
    then some opaque
    else none
