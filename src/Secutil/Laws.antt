-- ===== src/Secutil/Laws.antt =====
-- What the keys and the encrypted values of secutil/secutil.go promise.
use zatca_integration.Common.{
  ℕ, ◌+◌, ◌-◌, ◌*◌, ◌/◌, ◌%◌, ◌<◌, ◌≡◌, refl, sym, ap, ◌∙◌, not, Option, none, some, List, [], ◌∷◌,
  ◌++◌, All, length, ltb, ◌==◌, if◌then◌else◌, take-length-append, drop-length-append,
  length-append, Bool-cases, inl, inr, arith,
}
use zatca_integration.Text.{has_prefix, Text, codes, is_empty}
use zatca_integration.Text.Utf8.{trim_space}
use zatca_integration.Errors.{Result, ok, err, opaque}
use zatca_integration.Crypto.Qr.{Base64Library}
use zatca_integration.Secutil.{
  Gcm, GcmLibrary, Key, hex_val, hex_byte, hex_bytes, decode_hex, key_of, base64_key, new_key,
  encrypt, is_encrypted, decrypt,
}

abbrev IsByte : ℕ → Type 0
IsByte b = b < 256

-- a digit of lower-case hex
abbrev pub hex_digit : ℕ → ℕ
hex_digit n = if ltb n 10 then b'0' + n else b'a' + (n - 10)

-- the usual way to write bytes in hex
unfoldable pub encode_hex : List ℕ → Text
encode_hex [] = []
encode_hex (b ∷ bytes) = hex_digit (b / 16) ∷ hex_digit (b % 16) ∷ encode_hex bytes

hex_val-hex_digit : (n : ℕ) → n < 16 → hex_val (hex_digit n) ≡ ok n
unfolding hex_val
hex_val-hex_digit n h = ground arith

hex_bytes-encode_hex : (bytes : List ℕ) → All IsByte bytes → hex_bytes (encode_hex bytes) ≡ ok bytes
unfolding hex_bytes encode_hex
hex_bytes-encode_hex [] h = refl
hex_bytes-encode_hex (b ∷ bytes) (small, rest) =
    rw
      (
        hex_val-hex_digit (b / 16) (omega arith),
        hex_val-hex_digit (b % 16) (omega arith),
        hex_bytes-encode_hex bytes rest,
      )
      (ap (λ t. ok (t ∷ bytes)) (omega arith))

encode_hex-even : (bytes : List ℕ) → length (encode_hex bytes) ≡ 2 * length bytes
unfolding encode_hex
encode_hex-even [] = refl
encode_hex-even (b ∷ bytes) = omega (arith, encode_hex-even bytes)

-- decodeHex reads back any bytes that are written in lower-case hex.
pub decode_hex-encode_hex :
    (bytes : List ℕ) → All IsByte bytes → decode_hex (encode_hex bytes) ≡ ok bytes
unfolding decode_hex
decode_hex-encode_hex bytes h = ground (arith, encode_hex-even bytes, hex_bytes-encode_hex bytes h)

-- The bytes of a hex text: each is below 256, and two digits make one byte.
abbrev pub IsDecoded : Text → Result (List ℕ) → Type 0
IsDecoded s (ok bytes) = All IsByte bytes × (length s ≡ 2 * length bytes)
IsDecoded s (err e) = Unit

hex_byte-IsDecoded :
    (s : Text) (a b : ℕ) (hi lo : Result ℕ) (rest : Result (List ℕ))
    → IsDecoded s rest
    → IsDecoded (a ∷ b ∷ s) (hex_byte hi lo rest)
hex_byte-IsDecoded s a b (ok hi) (ok lo) (ok bytes) (small, len) =
    ((omega arith, small), omega (arith, len))
hex_byte-IsDecoded s a b (ok hi) (ok lo) (err e) h = tt
hex_byte-IsDecoded s a b (ok hi) (err e) rest h = tt
hex_byte-IsDecoded s a b (err e) lo rest h = tt

hex_bytes-IsDecoded : (s : Text) → length s % 2 ≡ 0 → IsDecoded s (hex_bytes s)
unfolding hex_bytes
hex_bytes-IsDecoded [] h = (tt, refl)
hex_bytes-IsDecoded (c ∷ []) h = absurd (omega arith)
hex_bytes-IsDecoded (a ∷ b ∷ s) h =
    hex_byte-IsDecoded s a b (hex_val a) (hex_val b) (hex_bytes s)
      (hex_bytes-IsDecoded s (omega arith))

-- Whatever text decodeHex accepts has an even length, and gives half as many numbers, each a byte.
pub decode_hex-IsDecoded : (s : Text) → IsDecoded s (decode_hex s)
unfolding decode_hex
decode_hex-IsDecoded s = elim (Bool-cases (length s % 2 == 0)) [
  | inl e ↦ rw e (hex_bytes-IsDecoded s (ground (arith, e)))
  | inr e ↦ rw e tt
]

abbrev pub Is256Bit : Result Key → Type 0
Is256Bit (ok k) = length k.raw ≡ 32
Is256Bit (err e) = e ≡ opaque

key_of-Is256Bit : (r : Result (List ℕ)) → Is256Bit (key_of r)
key_of-Is256Bit (err e) = refl
key_of-Is256Bit (ok raw) = ground arith

base64_key-Is256Bit : (s : Text) (o : Option (List ℕ)) → Is256Bit (base64_key s o)
base64_key-Is256Bit s none = key_of-Is256Bit (decode_hex s)
base64_key-Is256Bit s (some raw) = elim (Bool-cases (length raw == 32)) [
  | inl e ↦ rw e (ground (arith, e))
  | inr e ↦ rw e (key_of-Is256Bit (decode_hex s))
]

-- A key that NewKey accepts has exactly 32 bytes, whatever the two decoders answer, so AES-256 is the
-- cipher that Encrypt and Decrypt use.
pub new_key-Is256Bit : (base64 : Base64Library) (s : Text) → Is256Bit (new_key base64 s)
unfolding new_key
new_key-Is256Bit base64 s = elim (Bool-cases (is_empty (trim_space s))) [
  | inl e ↦ rw e refl
  | inr e ↦ rw e (base64_key-Is256Bit (trim_space s) (base64.decode (trim_space s)))
]

-- encoding/base64 reads back what it wrote, and unseal what seal wrote with the same nonce.
pub record Reads (base64 : Base64Library) (gcm : Gcm) : Type 0 where
  pub decodes : (bytes : List ℕ) → base64.decode (base64.encode bytes) ≡ some bytes
  pub unseals :
      (nonce bytes : List ℕ)
      → length nonce ≡ gcm.nonce_size
      → gcm.unseal nonce (gcm.seal nonce bytes) ≡ some bytes

decrypt-empty :
    (base64 : Base64Library) (library : GcmLibrary) (k : Key) → decrypt base64 library k [] ≡ ok []
unfolding decrypt
decrypt-empty base64 library k = refl

decrypt-sealed :
    (base64 : Base64Library) (library : GcmLibrary) (gcm : Gcm) (k : Key) (nonce plaintext : List ℕ)
    → Reads base64 gcm
    → library.new_gcm k.raw ≡ some gcm
    → length nonce ≡ gcm.nonce_size
    → decrypt base64 library k (codes "enc:" ++ base64.encode (nonce ++ gcm.seal nonce plaintext))
      ≡ ok plaintext
unfolding decrypt is_encrypted has_prefix
decrypt-sealed base64 library gcm k nonce plaintext reads key len =
    let sealed : List ℕ = gcm.seal nonce plaintext in
    rw (reads.decodes (nonce ++ sealed), key)
      (ground (
        arith,
        len,
        length-append nonce sealed,
        take-length-append nonce sealed,
        drop-length-append nonce sealed,
        reads.unseals nonce plaintext len,
      ))

-- Where the cipher accepts the key and the random source answers a nonce of its size, Encrypt
-- succeeds, its value counts as encrypted exactly when the plaintext is not empty, and Decrypt with
-- the same key returns the plaintext.
pub decrypt-encrypt :
    (base64 : Base64Library) (library : GcmLibrary) (random : ℕ → Option (List ℕ)) (gcm : Gcm)
    (k : Key) (nonce : List ℕ) (plaintext : Text)
    → Reads base64 gcm
    → library.new_gcm k.raw ≡ some gcm
    → random gcm.nonce_size ≡ some nonce
    → length nonce ≡ gcm.nonce_size
    → (value : Text) × (encrypt base64 library random k plaintext ≡ ok value)
      × (is_encrypted value ≡ not (is_empty plaintext))
      × (decrypt base64 library k value ≡ ok plaintext)
unfolding encrypt is_encrypted has_prefix
decrypt-encrypt base64 library random gcm k nonce [] reads key source len =
    ([], refl, refl, decrypt-empty base64 library k)
decrypt-encrypt base64 library random gcm k nonce (c ∷ text) reads key source len = (
  codes "enc:" ++ base64.encode (nonce ++ gcm.seal nonce (c ∷ text)),
  rw (key, source) refl,
  refl,
  decrypt-sealed base64 library gcm k nonce (c ∷ text) reads key len,
)

ok-injective : (a b : Text) → ◌≡◌ {A = Result Text} (ok a) (ok b) → a ≡ b
ok-injective a b e = cc

-- what decrypt-encrypt says of a value that is at hand
pub decrypt-encrypted :
    (base64 : Base64Library) (library : GcmLibrary) (random : ℕ → Option (List ℕ)) (gcm : Gcm)
    (k : Key) (nonce : List ℕ) (plaintext value : Text)
    → Reads base64 gcm
    → library.new_gcm k.raw ≡ some gcm
    → random gcm.nonce_size ≡ some nonce
    → length nonce ≡ gcm.nonce_size
    → encrypt base64 library random k plaintext ≡ ok value
    → decrypt base64 library k value ≡ ok plaintext
decrypt-encrypted base64 library random gcm k nonce plaintext value reads key source len e =
    let (sealed, made, _, back) =
      decrypt-encrypt base64 library random gcm k nonce plaintext reads key source len in
    let same : sealed ≡ value = ok-injective sealed value (sym made ∙ e) in
    ap (decrypt base64 library k) (sym same) ∙ back
