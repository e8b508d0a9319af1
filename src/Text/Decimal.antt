-- ===== src/Text/Decimal.antt =====
-- strconv.FormatInt and strconv.ParseUint in base ten.
use zatca_integration.Common.{
  ℕ, zero, suc, ◌+◌, ◌-◌, ◌*◌, ◌/◌, ◌%◌, ◌^◌, ◌≤◌, ◌<◌, ◌≡◌, refl, sym, ap, ◌∙◌, Bool, ◌&&◌, Option,
  none, some, List, [], ◌∷◌, ◌++◌, ltb, leb, if◌then◌else◌, arith, All, all, Bool-cases, inl, inr,
  length,
}
use zatca_integration.Common.Int.{ℤ, pos, negsuc}

-- The digits of `n`, most significant first. The fuel counts digits.
decimal_digits : ℕ → ℕ → List ℕ
decimal_digits zero n = []
decimal_digits (suc fuel) n =
    let high = decimal_digits fuel (n / 10) in
    if ltb n 10 then (b'0' + n) ∷ [] else high ++ (b'0' + n % 10) ∷ []

unfoldable pub format_nat : ℕ → List ℕ
unfolding decimal_digits
format_nat n = decimal_digits (suc n) n

unfoldable pub format_int : ℤ → List ℕ
unfolding format_nat
format_int (pos n) = format_nat n
format_int (negsuc n) = b'-' ∷ format_nat (suc n)

unfoldable pub value_from : ℕ → List ℕ → ℕ
value_from acc [] = acc
value_from acc (c ∷ cs) = value_from (acc * 10 + (c - b'0')) cs

abbrev pub is_digit : ℕ → Bool
is_digit c = leb b'0' c && leb c b'9'

abbrev parse_digits : List ℕ → Option ℕ
parse_digits s =
    let n = value_from 0 s in
    if all is_digit s then if ltb n (2 ^ 64) then some n else none else none

-- strconv.ParseUint(s, 10, 64)
unfoldable pub parse_uint : List ℕ → Option ℕ
unfolding value_from
parse_uint [] = none
parse_uint (c ∷ cs) = parse_digits (c ∷ cs)

value_from-snoc :
    (acc : ℕ) (xs : List ℕ) (c : ℕ)
    → value_from acc (xs ++ c ∷ []) ≡ value_from acc xs * 10 + (c - b'0')
unfolding value_from
value_from-snoc acc [] c = refl
value_from-snoc acc (x ∷ xs) c = value_from-snoc (acc * 10 + (x - b'0')) xs c

value_from-decimal_digits : (fuel n : ℕ) → n < fuel → value_from 0 (decimal_digits fuel n) ≡ n
unfolding decimal_digits value_from
value_from-decimal_digits zero n h = elim h [ ]
value_from-decimal_digits (suc fuel) n h = elim (Bool-cases (ltb n 10)) [
  | inl one ↦ rw one (omega arith)
  | inr more ↦
      rw
        (
          more,
          value_from-snoc 0 (decimal_digits fuel (n / 10)) (b'0' + n % 10),
          value_from-decimal_digits fuel (n / 10) (ground arith),
        )
        (omega arith)
]

-- The digits are read back as the number, for enough fuel.
pub value-format_nat : (n : ℕ) → value_from 0 (format_nat n) ≡ n
unfolding format_nat
value-format_nat n = value_from-decimal_digits (suc n) n (omega arith)

pub format_nat-injective : (m n : ℕ) → format_nat m ≡ format_nat n → m ≡ n
format_nat-injective m n e = sym (value-format_nat m) ∙ ap (value_from 0) e ∙ value-format_nat n

abbrev pub IsDigit : ℕ → Type 0
IsDigit c = (b'0' ≤ c) × (c ≤ b'9')

All-snoc : (xs : List ℕ) (c : ℕ) → All IsDigit xs → IsDigit c → All IsDigit (xs ++ c ∷ [])
All-snoc [] c h d = (d, tt)
All-snoc (x ∷ xs) c h d = (h.0, All-snoc xs c h.1 d)

decimal_digits-IsDigit : (fuel n : ℕ) → All IsDigit (decimal_digits fuel n)
unfolding decimal_digits
decimal_digits-IsDigit zero n = tt
decimal_digits-IsDigit (suc fuel) n = elim (Bool-cases (ltb n 10)) [
  | inl one ↦ rw one (ground arith)
  | inr more ↦ rw more (All-snoc _ _ (decimal_digits-IsDigit fuel (n / 10)) (omega arith))
]

pub format_nat-IsDigit : (n : ℕ) → All IsDigit (format_nat n)
unfolding format_nat
format_nat-IsDigit n = decimal_digits-IsDigit (suc n) n

abbrev pub ten_to : ℕ → ℕ
ten_to zero = 1
ten_to (suc k) = 10 * ten_to k

length-snoc : (xs : List ℕ) (c : ℕ) → length (xs ++ c ∷ []) ≡ suc (length xs)
length-snoc [] c = refl
length-snoc (x ∷ xs) c = omega (arith, length-snoc xs c)

length-decimal_digits : (fuel n k : ℕ) → n < ten_to (suc k) → length (decimal_digits fuel n) ≤ suc k
unfolding decimal_digits
length-decimal_digits zero n k h = omega arith
length-decimal_digits (suc fuel) n zero h = ground (arith, h)
length-decimal_digits (suc fuel) n (suc k) h = elim (Bool-cases (ltb n 10)) [
  | inl one ↦ rw one (omega arith)
  | inr more ↦
      rw (more, length-snoc (decimal_digits fuel (n / 10)) (b'0' + n % 10))
        (omega (arith, length-decimal_digits fuel (n / 10) k (omega (arith, h))))
]

-- A number below a power of ten has no more digits than the power.
pub length-format_nat : (n k : ℕ) → n < ten_to (suc k) → length (format_nat n) ≤ suc k
unfolding format_nat
length-format_nat n k h = length-decimal_digits (suc n) n k h
