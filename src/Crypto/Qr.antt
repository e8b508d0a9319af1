-- ===== src/Crypto/Qr.antt =====
-- crypto/qr.go: the QR code of an invoice, a base64 text of Tag-Length-Value entries. Bytes are
-- numbers below 256.
pub mod RoundTrip
use zatca_integration.Common.{
  ℕ, ◌+◌, ◌*◌, ◌/◌, ◌%◌, ◌^◌, Bool, Option, none, some, List, [], ◌∷◌, ◌++◌, zero, suc, length,
  take, drop, ltb, leb, ◌==◌, if◌then◌else◌,
}
use zatca_integration.Text.{Text, is_empty}
use zatca_integration.Errors.{Result, ok, err, opaque}

-- encoding/base64 of the standard library
pub record Base64Library : Type 0 where
  pub encode : List ℕ → Text
  pub decode : Text → Option (List ℕ)

-- QRData; `timestamp` is the formatted Timestamp.
pub record QrData : Type 0 where
  pub seller_name : Text
  pub vat_number : Text
  pub timestamp : Text
  pub total : Text
  pub vat_amount : Text
  pub hash : Text
  pub signature : List ℕ
  pub public_key : List ℕ
  pub cert_hash : List ℕ

-- the length bytes that appendTLV writes
abbrev pub length_bytes : ℕ → List ℕ
length_bytes n = if leb n 127 then n ∷ [] else 130 ∷ n / 2 ^ 8 % 256 ∷ n % 256 ∷ []

-- appendTLV
unfoldable pub append_tlv : List ℕ → ℕ → List ℕ → List ℕ
append_tlv buf tag value = (buf ++ tag % 256 ∷ length_bytes (length value)) ++ value

abbrev pub append_present : List ℕ → ℕ → List ℕ → List ℕ
append_present buf tag value = if is_empty value then buf else append_tlv buf tag value

-- the bytes that GenerateQR collects
unfoldable pub qr_bytes : QrData → List ℕ
qr_bytes d =
    let seller = append_tlv [] 1 d.seller_name in
    let vat = append_tlv seller 2 d.vat_number in
    let timestamp = append_tlv vat 3 d.timestamp in
    let total = append_tlv timestamp 4 d.total in
    let amount = append_tlv total 5 d.vat_amount in
    let hash = append_present amount 6 d.hash in
    let signature = append_present hash 7 d.signature in
    let public_key = append_present signature 8 d.public_key in
    append_present public_key 9 d.cert_hash

-- GenerateQR
unfoldable pub generate_qr : Base64Library → QrData → Result Text
generate_qr base64 d =
    if is_empty d.seller_name
    then err opaque
    else if is_empty d.vat_number
    then err opaque
    else ok (base64.encode (qr_bytes d))

-- The map that DecodeTLV fills, the latest entry first: an entry hides an earlier one of its tag.
abbrev pub Entries : Type 0
Entries = List (ℕ × List ℕ)

-- the length at data[i:], and what follows it
abbrev long_length : List ℕ → Option (ℕ × List ℕ)
long_length (high ∷ low ∷ rest) = some (high * 2 ^ 8 + low, rest)
long_length _ = none

abbrev pub read_length : List ℕ → Option (ℕ × List ℕ)
read_length [] = none
read_length (b ∷ rest) = if b == 130 then long_length rest else some (b, rest)

-- the value, and what follows it
abbrev take_value : ℕ → Option (ℕ × List ℕ) → Option (ℕ × List ℕ × List ℕ)
take_value tag none = none
take_value tag (some (n, rest)) =
    if ltb (length rest) n then none else some (tag, take n rest, drop n rest)

-- one turn of the loop of DecodeTLV
abbrev pub read_entry : List ℕ → Option (ℕ × List ℕ × List ℕ)
read_entry [] = none
read_entry (tag ∷ rest) = take_value tag (read_length rest)

-- The loop of DecodeTLV; each turn reads a byte at least, so the length of the data is fuel enough.
unfoldable pub decode_entries : ℕ → List ℕ → Entries → Option Entries
decode_entries fuel [] entries = some entries
decode_entries zero (b ∷ bytes) entries = none
decode_entries (suc fuel) (b ∷ bytes) entries = elim (read_entry (b ∷ bytes)) [
  | none ↦ none
  | some (tag, value, rest) ↦ decode_entries fuel rest ((tag, value) ∷ entries)
]

-- DecodeTLV
unfoldable pub decode_tlv : Base64Library → Text → Option Entries
decode_tlv base64 text = elim (base64.decode text) [
  | none ↦ none
  | some bytes ↦ decode_entries (length bytes) bytes []
]
