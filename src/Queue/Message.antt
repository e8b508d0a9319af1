-- ===== src/Queue/Message.antt =====
-- queue/message.go: the document envelope, its validation and the keys derived from it.
pub mod Keys
use zatca_integration.Common.{
  ℕ, zero, suc, ◌*◌, ◌≡◌, ◌≢◌, refl, Bool, true, false, not, ◌&&◌, ◌||◌, Option, none, some, List,
  [], ◌∷◌, ◌++◌, ltb, leb, ◌==◌, if◌then◌else◌, length, all, arith,
}
use zatca_integration.Common.Int.{ℤ, is_positive, ◌==ℤ◌}
use zatca_integration.Text.{Text, codes, text_eq, is_empty, text_eq_iff}
use zatca_integration.Text.Utf8.{valid_string, rune_count, trim_space, every_rune}
use zatca_integration.Text.Decimal.{format_int}
use zatca_integration.Errors.{Error, only, invalid_envelope}

-- github.com/google/uuid: `parse` gives the sixteen bytes of the value, or fails.
pub record UuidLibrary : Type 0 where
  pub parse : Text → Option (List ℕ)

pub data DocType : Type 0 where
  bill : DocType
  other : Text → DocType

-- Message
pub record Message : Type 0 where
  pub doc_type : DocType
  pub id : ℤ
  pub branch_id : ℤ
  pub db_name : Text
  pub tenant_key : Text
  pub pos_id : Text
  pub bill_request_id : Text
  pub event_id : Text
  pub egs_sequence_id : Text
  pub invoice_uuid : Text
  pub request_fingerprint : Text

-- `strings.TrimSpace(s) == ""`
unfoldable pub is_blank : Text → Bool
is_blank s = is_empty (trim_space s)

abbrev is_padded : Text → Bool
is_padded s = not (text_eq (trim_space s) s)

abbrev is_control : ℕ → Bool
is_control r = r == 0 || ltb r 0x20 || r == 0x7F

abbrev pub identity_rune : ℕ → Bool
identity_rune r = not (r == b'*' || r == b'>' || r == b'.' || is_control r)

abbrev pub opaque_rune : ℕ → Bool
opaque_rune r = not (is_control r)

-- The guard that both validators begin with.
abbrev bad_shape : Text → ℕ → Bool
bad_shape s max = is_blank s || is_padded s || ltb max (rune_count s) || not (valid_string s)

unfoldable pub valid_identity_text : Text → ℕ → Bool
valid_identity_text s max = if bad_shape s max then false else every_rune identity_rune s

unfoldable pub valid_opaque_text : Text → ℕ → Bool
valid_opaque_text s max = if bad_shape s max then false else every_rune opaque_rune s

abbrev sha256_size : ℕ
sha256_size = 32

-- the bytes that hex.Decode accepts
abbrev is_hex : ℕ → Bool
is_hex c = leb b'0' c && leb c b'9' || leb b'a' c && leb c b'f' || leb b'A' c && leb c b'F'

-- A text of hex.EncodedLen(sha256Size) bytes that hex.Decode accepts.
unfoldable pub valid_fingerprint : Text → Bool
valid_fingerprint s = length s == 2 * sha256_size && all is_hex s

abbrev is_doc_bill : DocType → Bool
is_doc_bill bill = true
is_doc_bill (other t) = false

abbrev not_nil : Option (List ℕ) → Bool
not_nil none = false
not_nil (some u) = not (all (λ b. b == 0) u)

module _ (uuid : UuidLibrary) where
  unfoldable pub is_uuid : Text → Bool
  is_uuid s = not_nil (uuid.parse s)

  abbrev invalid : Error
  invalid = some (only invalid_envelope)

  -- Message.Validate
  unfoldable pub validate : Message → Error
  validate m =
      if not (is_doc_bill m.doc_type)
      then invalid
      else if not (is_positive m.id)
      then invalid
      else if not (is_positive m.branch_id)
      then invalid
      else if not (valid_identity_text m.db_name 64)
      then invalid
      else if not (valid_identity_text m.tenant_key 64)
      then invalid
      else if not (valid_opaque_text m.pos_id 64)
      then invalid
      else if not (valid_opaque_text m.bill_request_id 36)
      then invalid
      else if not (valid_opaque_text m.event_id 128)
      then invalid
      else if not (text_eq m.egs_sequence_id (format_int m.branch_id))
      then invalid
      else if not (is_uuid m.invoice_uuid)
      then invalid
      else if not (valid_fingerprint m.request_fingerprint)
      then invalid
      else none

unfoldable pub request_key : Message → Text
request_key m = m.pos_id ++ 0 ∷ m.bill_request_id

unfoldable pub partition_key : Message → Text
partition_key m = m.tenant_key ++ 0 ∷ m.egs_sequence_id

unfoldable pub ordered_subject : Text → ℤ → Text
ordered_subject db_name branch_id = codes "zatca.*." ++ (db_name ++ b'.' ∷ format_int branch_id)

unfoldable pub ordered_consumer_name : Text → ℤ → Text
ordered_consumer_name db_name branch_id =
    codes "zatca_ordered_" ++ (db_name ++ b'_' ∷ format_int branch_id)

-- A test that names this on its `unfolding` line computes with texts.
unfoldable pub runnable : Unit {0}
unfolding is_blank text_eq trim_space rune_count valid_string every_rune valid_identity_text
    valid_opaque_text valid_fingerprint is_uuid format_int
runnable = tt

-- What a valid envelope has passed.
pub record IsValid (uuid : UuidLibrary) (m : Message) : Type 0 where
  pub kind : m.doc_type ≡ bill
  pub id_positive : is_positive m.id ≡ true
  pub branch_positive : is_positive m.branch_id ≡ true
  pub db_name_ok : valid_identity_text m.db_name 64 ≡ true
  pub tenant_key_ok : valid_identity_text m.tenant_key 64 ≡ true
  pub pos_id_ok : valid_opaque_text m.pos_id 64 ≡ true
  pub bill_request_id_ok : valid_opaque_text m.bill_request_id 36 ≡ true
  pub event_id_ok : valid_opaque_text m.event_id 128 ≡ true
  pub egs_is_branch : m.egs_sequence_id ≡ format_int m.branch_id
  pub uuid_ok : is_uuid uuid m.invoice_uuid ≡ true
  pub fingerprint_ok : valid_fingerprint m.request_fingerprint ≡ true

pub validate-IsValid : (uuid : UuidLibrary) (m : Message) → validate uuid m ≡ none → IsValid uuid m
unfolding validate
validate-IsValid uuid m h = ground (arith, text_eq_iff m.egs_sequence_id (format_int m.branch_id))
