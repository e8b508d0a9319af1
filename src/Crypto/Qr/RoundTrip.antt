-- ===== src/Crypto/Qr/RoundTrip.antt =====
-- DecodeTLV reads back what GenerateQR has written (crypto/qr.go).
use zatca_integration.Common.{
  ℕ, ◌+◌, ◌-◌, ◌*◌, ◌/◌, ◌%◌, ◌^◌, ◌≤◌, ◌<◌, ◌≡◌, refl, sym, ◌∙◌, ap, none, some, List, [], ◌∷◌,
  ◌++◌, zero, suc, length, length-append, take-length-append, drop-length-append, All, leb,
  if◌then◌else◌, arith, Bool-cases, inl, inr,
}
use mathlib.Core.Path.{subst}
use zatca_integration.Text.{Text, is_empty}
use zatca_integration.Errors.{ok}
use zatca_integration.Crypto.Qr.{
  Base64Library, QrData, length_bytes, append_tlv, append_present, qr_bytes, generate_qr, Entries,
  read_length, read_entry, decode_entries, decode_tlv,
}

-- A value whose length two bytes can hold, under a tag of one byte.
abbrev pub IsField : ℕ × List ℕ → Type 0
IsField (tag, value) = (tag < 256) × (length value < 2 ^ 16)

append_assoc : (a b c : List ℕ) → (a ++ b) ++ c ≡ a ++ (b ++ c)
append_assoc [] b c = refl
append_assoc (x ∷ a) b c = ap (λ t. x ∷ t) (append_assoc a b c)

-- one entry
abbrev entry : ℕ → List ℕ → List ℕ
entry tag value = tag ∷ (length_bytes (length value) ++ value)

-- a list of entries, the latest first
abbrev bytes_of : Entries → List ℕ
bytes_of [] = []
bytes_of ((tag, value) ∷ entries) = bytes_of entries ++ entry tag value

read_length-length_bytes :
    (n : ℕ) (rest : List ℕ) → n < 2 ^ 16 → read_length (length_bytes n ++ rest) ≡ some (n, rest)
read_length-length_bytes n rest h = elim (Bool-cases (leb n 127)) [
  | inl short ↦ rw short (ground (arith, short))
  | inr long ↦ rw long (ap (λ k. some (k, rest)) (split_length n h))
]
  where
    split_length : (n : ℕ) → n < 2 ^ 16 → n / 2 ^ 8 % 256 * 2 ^ 8 + n % 256 ≡ n
    split_length n h = omega arith

read_entry-entry :
    (tag : ℕ) (value rest : List ℕ)
    → length value < 2 ^ 16
    → read_entry (entry tag value ++ rest) ≡ some (tag, value, rest)
read_entry-entry tag value rest h =
    rw
      (
        append_assoc (length_bytes (length value)) value rest,
        read_length-length_bytes (length value) (value ++ rest) h,
        take-length-append value rest,
        drop-length-append value rest,
      )
      (ground (arith, length-append value rest))

decode_entries-entry :
    (fuel tag : ℕ) (value rest : List ℕ) (entries : Entries)
    → length value < 2 ^ 16
    → decode_entries (suc fuel) (entry tag value ++ rest) entries
      ≡ decode_entries fuel rest ((tag, value) ∷ entries)
unfolding decode_entries
decode_entries-entry fuel tag value rest entries h =
    subst
      (λ o.
        elim o [
          | none ↦ none
          | some (tag', value', rest') ↦ decode_entries fuel rest' ((tag', value') ∷ entries)
        ]
        ≡ decode_entries fuel rest ((tag, value) ∷ entries))
      (sym (read_entry-entry tag value rest h)) refl

abbrev Fitting : Entries → Type 0
Fitting entries = All (λ (e : ℕ × List ℕ). length e.1 < 2 ^ 16) entries

decode_entries-bytes_of :
    (entries : Entries) (fuel : ℕ) (rest : List ℕ)
    → Fitting entries
    → decode_entries (length entries + fuel) (bytes_of entries ++ rest) []
      ≡ decode_entries fuel rest entries
decode_entries-bytes_of [] fuel rest h =
    let nothing : fuel ≡ 0 + fuel = omega arith in
    subst (λ n. decode_entries n rest [] ≡ decode_entries fuel rest []) nothing refl
decode_entries-bytes_of ((tag, value) ∷ entries) fuel rest (h, hs) =
    let count : length entries + suc fuel ≡ suc (length entries) + fuel = omega arith in
    rw (append_assoc (bytes_of entries) (entry tag value) rest) (
      subst
        (λ n.
          decode_entries n (bytes_of entries ++ (entry tag value ++ rest)) []
          ≡ decode_entries fuel rest ((tag, value) ∷ entries))
        count
        (decode_entries-bytes_of entries (suc fuel) (entry tag value ++ rest) hs
          ∙ decode_entries-entry fuel tag value rest entries h))

decode_entries-nil : (fuel : ℕ) (entries : Entries) → decode_entries fuel [] entries ≡ some entries
unfolding decode_entries
decode_entries-nil zero entries = refl
decode_entries-nil (suc fuel) entries = refl

length-bytes_of : (entries : Entries) → length entries ≤ length (bytes_of entries)
length-bytes_of [] = omega arith
length-bytes_of ((tag, value) ∷ entries) =
    omega (arith, length-bytes_of entries, length-append (bytes_of entries) (entry tag value))

append-nil : (a : List ℕ) → a ++ [] ≡ a
append-nil [] = refl
append-nil (x ∷ a) = ap (λ t. x ∷ t) (append-nil a)

-- The loop reads a code of entries that fit back, and its fuel is enough.
decoded :
    (entries : Entries)
    → Fitting entries
    → decode_entries (length (bytes_of entries)) (bytes_of entries) [] ≡ some entries
decoded entries h =
    let n = length (bytes_of entries) in
    let split : length entries + (n - length entries) ≡ n =
      omega (arith, length-bytes_of entries) in
    subst (λ k. decode_entries k (bytes_of entries) [] ≡ some entries) split
      (subst (λ b. decode_entries (length entries + (n - length entries)) b [] ≡ some entries)
        (append-nil (bytes_of entries))
        (decode_entries-bytes_of entries (n - length entries) [] h ∙ decode_entries-nil _ entries))

-- the entry of a field that may be absent
abbrev present : ℕ → List ℕ → Entries → Entries
present tag value entries = if is_empty value then entries else (tag, value) ∷ entries

-- The fields of a code under their tags, the latest first: 1 to 5 always, 6 to 9 where they are set.
abbrev pub qr_entries : QrData → Entries
qr_entries d = present 9 d.cert_hash (
    present 8 d.public_key (
      present 7 d.signature (
        present 6 d.hash (
          (5, d.vat_amount)
          ∷ (4, d.total)
          ∷ (3, d.timestamp)
          ∷ (2, d.vat_number)
          ∷ (1, d.seller_name)
          ∷ []))))

-- Two bytes hold the length of each field.
pub record Fits (d : QrData) : Type 0 where
  pub seller_fits : length d.seller_name < 2 ^ 16
  pub vat_fits : length d.vat_number < 2 ^ 16
  pub timestamp_fits : length d.timestamp < 2 ^ 16
  pub total_fits : length d.total < 2 ^ 16
  pub amount_fits : length d.vat_amount < 2 ^ 16
  pub hash_fits : length d.hash < 2 ^ 16
  pub signature_fits : length d.signature < 2 ^ 16
  pub key_fits : length d.public_key < 2 ^ 16
  pub cert_fits : length d.cert_hash < 2 ^ 16

append_tlv-bytes_of :
    (entries : Entries) (tag : ℕ) (value : List ℕ)
    → tag % 256 ≡ tag
    → append_tlv (bytes_of entries) tag value ≡ bytes_of ((tag, value) ∷ entries)
unfolding append_tlv
append_tlv-bytes_of entries tag value h =
    rw h (append_assoc (bytes_of entries) (tag ∷ length_bytes (length value)) value)

append_present-bytes_of :
    (entries : Entries) (tag : ℕ) (value : List ℕ)
    → tag % 256 ≡ tag
    → append_present (bytes_of entries) tag value ≡ bytes_of (present tag value entries)
append_present-bytes_of entries tag value h = elim (Bool-cases (is_empty value)) [
  | inl e ↦ rw e refl
  | inr e ↦ rw e (append_tlv-bytes_of entries tag value h)
]

qr_bytes-bytes_of : (d : QrData) → qr_bytes d ≡ bytes_of (qr_entries d)
unfolding qr_bytes
qr_bytes-bytes_of d =
    let one = (1, d.seller_name) ∷ [] in
    let two = (2, d.vat_number) ∷ one in
    let three = (3, d.timestamp) ∷ two in
    let four = (4, d.total) ∷ three in
    let five = (5, d.vat_amount) ∷ four in
    let six = present 6 d.hash five in
    let seven = present 7 d.signature six in
    let eight = present 8 d.public_key seven in
    rw
      (
        append_tlv-bytes_of [] 1 d.seller_name refl,
        append_tlv-bytes_of one 2 d.vat_number refl,
        append_tlv-bytes_of two 3 d.timestamp refl,
        append_tlv-bytes_of three 4 d.total refl,
        append_tlv-bytes_of four 5 d.vat_amount refl,
        append_present-bytes_of five 6 d.hash refl,
        append_present-bytes_of six 7 d.signature refl,
        append_present-bytes_of seven 8 d.public_key refl,
        append_present-bytes_of eight 9 d.cert_hash refl,
      )
      refl

present-Fitting :
    (tag : ℕ) (value : List ℕ) (entries : Entries)
    → length value < 2 ^ 16
    → Fitting entries
    → Fitting (present tag value entries)
present-Fitting tag value entries h k = elim (Bool-cases (is_empty value)) [
  | inl e ↦ rw e k
  | inr e ↦ rw e (h, k)
]

qr_entries-Fitting : (d : QrData) → Fits d → Fitting (qr_entries d)
qr_entries-Fitting d f = present-Fitting 9 d.cert_hash _ f.cert_fits (
    present-Fitting 8 d.public_key _ f.key_fits (
      present-Fitting 7 d.signature _ f.signature_fits (
        present-Fitting 6 d.hash _ f.hash_fits
          (f.amount_fits, (f.total_fits, (f.timestamp_fits, (f.vat_fits, (f.seller_fits, tt))))))))

generate_qr-text :
    (base64 : Base64Library) (d : QrData) (text : Text)
    → generate_qr base64 d ≡ ok text
    → base64.encode (qr_bytes d) ≡ text
unfolding generate_qr
generate_qr-text base64 d text h = ground arith

-- Where decoding undoes encoding in the base64 library and every field is shorter than 2^16 bytes,
-- DecodeTLV reads a generated code back: the fields of the invoice under their tags, and no other.
pub decode_tlv-generate_qr :
    (base64 : Base64Library) (d : QrData) (text : Text)
    → ((bytes : List ℕ) → base64.decode (base64.encode bytes) ≡ some bytes)
    → Fits d
    → generate_qr base64 d ≡ ok text
    → decode_tlv base64 text ≡ some (qr_entries d)
unfolding decode_tlv
decode_tlv-generate_qr base64 d text inverse fits h =
    let same : qr_bytes d ≡ bytes_of (qr_entries d) = qr_bytes-bytes_of d in
    subst
      (λ t.
        elim (base64.decode t) [ none ↦ none | some bytes ↦ decode_entries (length bytes) bytes [] ]
        ≡ some (qr_entries d))
      (generate_qr-text base64 d text h)
      (rw (inverse (qr_bytes d), same) (decoded (qr_entries d) (qr_entries-Fitting d fits)))
