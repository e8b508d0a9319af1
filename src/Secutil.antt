-- ===== src/Secutil.antt =====
-- secutil/secutil.go: keys in hex or base64, and values encrypted with AES-256-GCM. AES-GCM and the
-- random nonce are parameters.
pub mod Laws
use zatca_integration.Common.{
  ℕ, ◌+◌, ◌-◌, ◌*◌, ◌%◌, Bool, true, false, not, ◌&&◌, ◌||◌, Option, none, some, List, [], ◌∷◌,
  ◌++◌, length, take, drop, ltb, leb, ◌==◌, if◌then◌else◌,
}
use zatca_integration.Text.{has_prefix, Text, codes, text_eq, is_empty}
use zatca_integration.Text.Utf8.{trim_space}
use zatca_integration.Errors.{Result, ok, err, opaque}
use zatca_integration.Crypto.Qr.{Base64Library}

-- crypto/aes and crypto/cipher: `none` where NewCipher or NewGCM fails
pub record Gcm : Type 0 where
  pub nonce_size : ℕ
  pub seal : List ℕ → List ℕ → List ℕ
  pub unseal : List ℕ → List ℕ → Option (List ℕ)

pub record GcmLibrary : Type 0 where
  pub new_gcm : List ℕ → Option Gcm

-- Key
pub record Key : Type 0 where
  pub raw : List ℕ

abbrev prefix : Text
prefix = codes "enc:"

-- hexVal
unfoldable pub hex_val : ℕ → Result ℕ
hex_val c =
    if leb b'0' c && leb c b'9'
    then ok (c - b'0')
    else if leb b'a' c && leb c b'f'
    then ok (c - b'a' + 10)
    else if leb b'A' c && leb c b'F'
    then ok (c - b'A' + 10)
    else err opaque

-- one round of the loop of decodeHex: `hi<<4 | lo` on a byte
abbrev pub hex_byte : Result ℕ → Result ℕ → Result (List ℕ) → Result (List ℕ)
hex_byte (err e) lo rest = err e
hex_byte (ok hi) (err e) rest = err e
hex_byte (ok hi) (ok lo) (err e) = err e
hex_byte (ok hi) (ok lo) (ok bytes) = ok ((hi * 16 + lo) % 256 ∷ bytes)

-- the loop of decodeHex
unfoldable pub hex_bytes : Text → Result (List ℕ)
hex_bytes [] = ok []
hex_bytes (c ∷ []) = ok []
hex_bytes (hi ∷ lo ∷ rest) = hex_byte (hex_val hi) (hex_val lo) (hex_bytes rest)

-- decodeHex
unfoldable pub decode_hex : Text → Result (List ℕ)
decode_hex s = if not (length s % 2 == 0) then err opaque else hex_bytes s

abbrev pub key_of : Result (List ℕ) → Result Key
key_of (err e) = err opaque
key_of (ok raw) = if length raw == 32 then ok (record { raw = raw }) else err opaque

-- the fallback from base64 to hex
abbrev pub base64_key : Text → Option (List ℕ) → Result Key
base64_key encoded none = key_of (decode_hex encoded)
base64_key encoded (some raw) =
    if length raw == 32 then ok (record { raw = raw }) else key_of (decode_hex encoded)

-- NewKey
unfoldable pub new_key : Base64Library → Text → Result Key
new_key base64 text =
    let encoded = trim_space text in
    if is_empty encoded then err opaque else base64_key encoded (base64.decode encoded)

-- the part of Encrypt after the cipher; `random` is what rand.Reader answers
abbrev pub encrypt_with : Base64Library → Gcm → Option (List ℕ) → Text → Result Text
encrypt_with base64 gcm none plaintext = err opaque
encrypt_with base64 gcm (some nonce) plaintext =
    ok (prefix ++ base64.encode (nonce ++ gcm.seal nonce plaintext))

-- Encrypt
unfoldable pub encrypt :
    Base64Library → GcmLibrary → (ℕ → Option (List ℕ)) → Key → Text → Result Text
encrypt base64 library random k plaintext =
    if is_empty plaintext then ok [] else elim (library.new_gcm k.raw) [
      | none ↦ err opaque
      | some gcm ↦ encrypt_with base64 gcm (random gcm.nonce_size) plaintext
    ]

-- IsEncrypted
unfoldable pub is_encrypted : Text → Bool
is_encrypted value = has_prefix prefix value

abbrev opened : Option (List ℕ) → Result Text
opened none = err opaque
opened (some plaintext) = ok plaintext

-- the part of Decrypt after the cipher
abbrev pub decrypt_with : Gcm → List ℕ → Result Text
decrypt_with gcm bytes =
    if ltb (length bytes) gcm.nonce_size
    then err opaque
    else opened (gcm.unseal (take gcm.nonce_size bytes) (drop gcm.nonce_size bytes))

abbrev decrypt_bytes : Option (List ℕ) → Option Gcm → Result Text
decrypt_bytes none gcm = err opaque
decrypt_bytes (some bytes) none = err opaque
decrypt_bytes (some bytes) (some gcm) = decrypt_with gcm bytes

-- Decrypt
unfoldable pub decrypt : Base64Library → GcmLibrary → Key → Text → Result Text
decrypt base64 library k value =
    if is_empty value
    then ok []
    else if not (is_encrypted value)
    then err opaque
    else decrypt_bytes (base64.decode (drop 4 value)) (library.new_gcm k.raw)
