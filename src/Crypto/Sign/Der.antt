-- ===== src/Crypto/Sign/Der.antt =====
-- The DER form of an ECDSA signature (crypto/sign.go) is read back.
use zatca_integration.Common.{
  ℕ, zero, suc, ◌+◌, ◌*◌, ◌/◌, ◌%◌, ◌^◌, ◌<◌, ◌≤◌, ◌≡◌, refl, sym, ap, ◌∙◌, Bool, true, false, not,
  ◌&&◌, ◌||◌, Option, none, some, List, [], ◌∷◌, ◌++◌, length, take, drop, ltb, leb, ◌==◌,
  if◌then◌else◌, length-append, Bool-cases, inl, inr, take-length-append, drop-length-append, arith,
}
use zatca_integration.Crypto.Sign.{int_bytes, padded, int_to_asn1, encode_der}

-- the number that big-endian bytes stand for
abbrev pub value_of : ℕ → List ℕ → ℕ
value_of acc [] = acc
value_of acc (b ∷ bytes) = value_of (acc * 256 + b) bytes

-- The content of a DER INTEGER that is not negative: at least one byte, no sign bit, and no leading
-- zero but one that keeps the sign bit of the next byte off.
abbrev pub is_unsigned : List ℕ → Bool
is_unsigned [] = false
is_unsigned (b ∷ []) = ltb b 128
is_unsigned (b ∷ c ∷ bytes) = ltb b 128 && (not (b == 0) || leb 128 c)

-- A reader of DER: such an INTEGER of at most 127 bytes, and what follows it.
abbrev read_content : ℕ → List ℕ → Option (ℕ × List ℕ)
read_content n s =
    if leb 128 n || ltb (length s) n || not (is_unsigned (take n s))
    then none
    else some (value_of 0 (take n s), drop n s)

abbrev pub read_integer : List ℕ → Option (ℕ × List ℕ)
read_integer [] = none
read_integer (tag ∷ []) = none
read_integer (tag ∷ n ∷ s) = if tag == 2 then read_content n s else none

abbrev read_second : ℕ → Option (ℕ × List ℕ) → Option (ℕ × ℕ)
read_second r none = none
read_second r (some (s, [])) = some (r, s)
read_second r (some (s, b ∷ rest)) = none

abbrev read_first : Option (ℕ × List ℕ) → Option (ℕ × ℕ)
read_first none = none
read_first (some (r, rest)) = read_second r (read_integer rest)

-- A SEQUENCE of two INTEGERs, of at most 127 bytes, and nothing after it.
abbrev pub read_der : List ℕ → Option (ℕ × ℕ)
read_der [] = none
read_der (tag ∷ []) = none
read_der (tag ∷ n ∷ s) =
    if tag == 48 && leb n 127 && n == length s then read_first (read_integer s) else none

abbrev bytes_bound : ℕ → ℕ
bytes_bound zero = 1
bytes_bound (suc k) = 256 * bytes_bound k

value_of-snoc :
    (acc : ℕ) (xs : List ℕ) (b : ℕ) → value_of acc (xs ++ b ∷ []) ≡ value_of acc xs * 256 + b
value_of-snoc acc [] b = refl
value_of-snoc acc (x ∷ xs) b = value_of-snoc (acc * 256 + x) xs b

length-snoc : (xs : List ℕ) (b : ℕ) → length (xs ++ b ∷ []) ≡ suc (length xs)
length-snoc [] b = refl
length-snoc (x ∷ xs) b = omega (arith, length-snoc xs b)

int_bytes-step :
    (fuel n : ℕ)
    → int_bytes (suc fuel) n ≡ (if n == 0 then [] else int_bytes fuel (n / 256) ++ n % 256 ∷ [])
unfolding int_bytes
int_bytes-step fuel n = ground arith

value_of-int_bytes : (fuel n : ℕ) → n ≤ fuel → value_of 0 (int_bytes fuel n) ≡ n
unfolding int_bytes
value_of-int_bytes zero n h = omega (arith, h)
value_of-int_bytes (suc fuel) n h = elim (Bool-cases (n == 0)) [
  | inl e ↦ rw (int_bytes-step fuel n, e) (ground (arith, e))
  | inr e ↦
      rw
        (
          int_bytes-step fuel n,
          e,
          value_of-snoc 0 (int_bytes fuel (n / 256)) (n % 256),
          value_of-int_bytes fuel (n / 256) (ground (arith, e, h)),
        )
        (omega arith)
]

length-int_bytes : (fuel n k : ℕ) → n < bytes_bound k → length (int_bytes fuel n) ≤ k
unfolding int_bytes
length-int_bytes zero n k h = omega arith
length-int_bytes (suc fuel) n zero h = ground (arith, h)
length-int_bytes (suc fuel) n (suc k) h = elim (Bool-cases (n == 0)) [
  | inl e ↦ rw (int_bytes-step fuel n, e) (omega arith)
  | inr e ↦
      rw (int_bytes-step fuel n, e, length-snoc (int_bytes fuel (n / 256)) (n % 256))
        (omega (arith, length-int_bytes fuel (n / 256) k (omega (arith, h))))
]

value_of-padded : (bytes : List ℕ) → value_of 0 (padded bytes) ≡ value_of 0 bytes
value_of-padded [] = refl
value_of-padded (b ∷ bytes) = ground arith

length-padded : (bytes : List ℕ) → length (padded bytes) ≤ suc (length bytes)
length-padded [] = omega arith
length-padded (b ∷ bytes) = ground arith

read_content-append :
    (bytes rest : List ℕ)
    → length bytes ≤ 127
    → is_unsigned bytes ≡ true
    → read_content (length bytes) (bytes ++ rest) ≡ some (value_of 0 bytes, rest)
read_content-append bytes rest h unsigned = ground (
  arith,
  h,
  unsigned,
  ap is_unsigned (take-length-append bytes rest),
  length-append bytes rest,
  take-length-append bytes rest,
  drop-length-append bytes rest,
)

-- The first byte is not a zero.
abbrev Leads : List ℕ → Type 0
Leads [] = ⊥
Leads (b ∷ bytes) = 0 < b

Leads-append : (xs ys : List ℕ) → Leads xs → Leads (xs ++ ys)
Leads-append [] ys h = absurd h
Leads-append (x ∷ xs) ys h = h

int_bytes-nought : (fuel n : ℕ) → n == 0 ≡ true → int_bytes fuel n ≡ []
unfolding int_bytes
int_bytes-nought zero n h = refl
int_bytes-nought (suc fuel) n h = rw (int_bytes-step fuel n, h) refl

int_bytes-Leads : (fuel n : ℕ) → 0 < n → n ≤ fuel → Leads (int_bytes fuel n)
int_bytes-Leads zero n h k = absurd (omega (arith, h, k))
int_bytes-Leads (suc fuel) n h k =
    let some_byte : n == 0 ≡ false = ground (arith, h) in
    rw (int_bytes-step fuel n, some_byte)
      (elim (Bool-cases (n / 256 == 0)) [
        | inl last ↦
            let none_before : int_bytes fuel (n / 256) ≡ [] =
              int_bytes-nought fuel (n / 256) last in
            rw none_before (ground (arith, h, last))
        | inr more ↦
            Leads-append (int_bytes fuel (n / 256)) (n % 256 ∷ [])
              (int_bytes-Leads fuel (n / 256) (ground (arith, more)) (omega (arith, h, k)))
      ])

padded-is_unsigned : (bytes : List ℕ) → Leads bytes → is_unsigned (padded bytes) ≡ true
padded-is_unsigned [] h = absurd h
padded-is_unsigned (b ∷ []) h = ground (arith, h)
padded-is_unsigned (b ∷ c ∷ bytes) h = ground (arith, h)

module _ (n : ℕ) (positive : 0 < n) (small : n < 2 ^ 256) where
  asn1_length : length (padded (int_bytes n n)) ≤ 33
  asn1_length =
      omega (arith, length-padded (int_bytes n n), length-int_bytes n n 32 (omega (arith, small)))

  length-int_to_asn1 : length (int_to_asn1 n) ≤ 35
  unfolding int_to_asn1
  length-int_to_asn1 = omega (arith, asn1_length)

  -- An INTEGER that is followed by anything is read back.
  read_integer-int_to_asn1 : (rest : List ℕ) → read_integer (int_to_asn1 n ++ rest) ≡ some (n, rest)
  unfolding int_to_asn1
  read_integer-int_to_asn1 rest =
      let bytes : List ℕ = padded (int_bytes n n) in
      let short : length bytes % 256 ≡ length bytes = omega (arith, asn1_length) in
      rw short (
        read_content-append bytes rest (omega (arith, asn1_length))
          (padded-is_unsigned (int_bytes n n) (int_bytes-Leads n n positive (omega arith)))
        ∙ ap (λ v. some (v, rest))
            (value_of-padded (int_bytes n n) ∙ value_of-int_bytes n n (omega arith)))

append-nil : (xs : List ℕ) → xs ++ [] ≡ xs
append-nil [] = refl
append-nil (x ∷ xs) = ap (λ t. x ∷ t) (append-nil xs)

-- For r and s between 1 and 2 ^ 256, which ECDSA on a 256-bit curve ensures, a reader of DER gives both
-- numbers back, although it refuses a negative or an empty INTEGER, a leading zero that is not needed,
-- a long form of the length, and bytes after the end.
pub read_der-encode_der :
    (r s : ℕ) → 0 < r → 0 < s → r < 2 ^ 256 → s < 2 ^ 256 → read_der (encode_der r s) ≡ some (r, s)
unfolding encode_der
read_der-encode_der r s positive_r positive_s small_r small_s =
    let first : List ℕ = int_to_asn1 r in
    let second : List ℕ = int_to_asn1 s in
    let total : length (first ++ second) ≤ 70 = omega (
      arith,
      length-append first second,
      length-int_to_asn1 r positive_r small_r,
      length-int_to_asn1 s positive_s small_s,
    ) in
    let read_s : read_integer second ≡ some (s, []) =
      ap read_integer (sym (append-nil second))
      ∙ read_integer-int_to_asn1 s positive_s small_s [] in
    let read_both : read_first (read_integer (first ++ second)) ≡ some (r, s) =
      rw (read_integer-int_to_asn1 r positive_r small_r second, read_s) refl in
    ground (arith, total, read_both)
