-- ===== src/Queue/Message/Keys.antt =====
-- The keys of an envelope (queue/message.go): RequestKey, PartitionKey, OrderedSubject and
-- OrderedConsumerName tell apart what they should.
use zatca_integration.Common.{
  ℕ, ◌≤◌, ◌<◌, ◌≡◌, ◌≢◌, refl, sym, ap, ◌∙◌, true, none, [], ◌∷◌, ◌++◌, All, arith,
}
use zatca_integration.Common.Int.{ℤ, pos, negsuc, is_positive}
use zatca_integration.Text.{Text, codes}
use zatca_integration.Text.Utf8.{every_rune, every_rune_excludes}
use zatca_integration.Text.Decimal.{
  format_nat, format_int, format_nat-injective, format_nat-IsDigit,
}
use zatca_integration.Queue.Message.{
  UuidLibrary, Message, identity_rune, opaque_rune, valid_identity_text, valid_opaque_text,
  validate, request_key, partition_key, ordered_subject, ordered_consumer_name, validate-IsValid,
}

abbrev pub Lacks : ℕ → Text → Type 0
Lacks c s = All (λ b. b ≢ c) s

-- A separator that neither head holds splits a text in one way.
pub split_first :
    (c : ℕ) (xs us ys vs : Text)
    → Lacks c xs
    → Lacks c us
    → xs ++ c ∷ ys ≡ us ++ c ∷ vs
    → (xs ≡ us) × (ys ≡ vs)
split_first c [] [] ys vs hx hu e = ground arith
split_first c [] (u ∷ us) ys vs hx hu e = ground arith
split_first c (x ∷ xs) [] ys vs hx hu e = ground arith
split_first c (x ∷ xs) (u ∷ us) ys vs hx hu e = ground (arith, split_first c xs us ys vs hx.1 hu.1)

Lacks-not_held : (c : ℕ) (us vs : Text) → ¬ Lacks c (us ++ c ∷ vs)
Lacks-not_held c [] vs h = h.0 refl
Lacks-not_held c (u ∷ us) vs h = Lacks-not_held c us vs h.1

-- So does one that neither tail holds.
pub split_last :
    (c : ℕ) (xs us ys vs : Text)
    → Lacks c ys
    → Lacks c vs
    → xs ++ c ∷ ys ≡ us ++ c ∷ vs
    → (xs ≡ us) × (ys ≡ vs)
split_last c [] [] ys vs hy hv e = ground arith
split_last c [] (u ∷ us) ys vs hy hv e =
    let tails : ys ≡ us ++ c ∷ vs = ground arith in absurd (Lacks-not_held c us vs (rw tails at hy))
split_last c (x ∷ xs) [] ys vs hy hv e =
    let tails : vs ≡ xs ++ c ∷ ys = ground arith in absurd (Lacks-not_held c xs ys (rw tails at hv))
split_last c (x ∷ xs) (u ∷ us) ys vs hy hv e = ground (arith, split_last c xs us ys vs hy hv)

pub cancel_left : (p xs ys : Text) → p ++ xs ≡ p ++ ys → xs ≡ ys
cancel_left [] xs ys e = e
cancel_left (c ∷ p) xs ys e = ground (arith, cancel_left p xs ys)

digits-Lacks : (c : ℕ) (s : Text) → c < b'0' → All (λ d. (b'0' ≤ d) × (d ≤ b'9')) s → Lacks c s
digits-Lacks c [] h d = tt
digits-Lacks c (x ∷ s) h d = ((λ e. omega arith), digits-Lacks c s h d.1)

pub letter-Lacks : (c : ℕ) (s : Text) → b'9' < c → All (λ d. (b'0' ≤ d) × (d ≤ b'9')) s → Lacks c s
letter-Lacks c [] h d = tt
letter-Lacks c (x ∷ s) h d = ((λ e. omega arith), letter-Lacks c s h d.1)

valid_identity_text-runes :
    (s : Text) (n : ℕ) → valid_identity_text s n ≡ true → every_rune identity_rune s ≡ true
unfolding valid_identity_text
valid_identity_text-runes s n h = ground arith

valid_opaque_text-runes :
    (s : Text) (n : ℕ) → valid_opaque_text s n ≡ true → every_rune opaque_rune s ≡ true
unfolding valid_opaque_text
valid_opaque_text-runes s n h = ground arith

-- A valid identity holds no NUL, no dot and no wildcard byte.
pub identity-Lacks :
    (s : Text) (n : ℕ)
    → valid_identity_text s n ≡ true
    → All (λ b. b ≢ 0) s × All (λ b. b ≢ b'.') s × All (λ b. b ≢ b'*') s × All (λ b. b ≢ b'>') s
identity-Lacks s n h =
    let runes = valid_identity_text-runes s n h in
    (
      every_rune_excludes identity_rune 0 (omega arith) refl s runes,
      every_rune_excludes identity_rune b'.' (omega arith) refl s runes,
      every_rune_excludes identity_rune b'*' (omega arith) refl s runes,
      every_rune_excludes identity_rune b'>' (omega arith) refl s runes,
    )

pub opaque-Lacks : (s : Text) (n : ℕ) → valid_opaque_text s n ≡ true → All (λ b. b ≢ 0) s
opaque-Lacks s n h =
    every_rune_excludes opaque_rune 0 (omega arith) refl s (valid_opaque_text-runes s n h)

pub format_int-injective :
    (a b : ℤ) → is_positive a ≡ true → is_positive b ≡ true → format_int a ≡ format_int b → a ≡ b
unfolding format_int
format_int-injective (pos a) (pos b) ha hb e = ap pos (format_nat-injective a b e)
format_int-injective (pos a) (negsuc b) ha hb e = cc
format_int-injective (negsuc a) b ha hb e = cc

pub positive-Lacks :
    (c : ℕ) (a : ℤ) → b'9' < c → is_positive a ≡ true → All (λ b. b ≢ c) (format_int a)
unfolding format_int
positive-Lacks c (pos a) h p = letter-Lacks c (format_nat a) h (format_nat-IsDigit a)
positive-Lacks c (negsuc a) h p = cc

module _ (uuid : UuidLibrary) (m n : Message) where
  -- Two valid envelopes share a request key only if they name the same request at the same POS.
  pub request_key-injective :
      validate uuid m ≡ none
      → validate uuid n ≡ none
      → request_key m ≡ request_key n
      → (m.pos_id ≡ n.pos_id) × (m.bill_request_id ≡ n.bill_request_id)
  unfolding request_key
  request_key-injective hm hn e =
      split_first 0 m.pos_id n.pos_id m.bill_request_id n.bill_request_id
        (opaque-Lacks m.pos_id 64 (validate-IsValid uuid m hm).pos_id_ok)
        (opaque-Lacks n.pos_id 64 (validate-IsValid uuid n hn).pos_id_ok) e

  -- Two valid envelopes share a partition only if they are of the same tenant and branch.
  pub partition_key-injective :
      validate uuid m ≡ none
      → validate uuid n ≡ none
      → partition_key m ≡ partition_key n
      → (m.tenant_key ≡ n.tenant_key) × (m.branch_id ≡ n.branch_id)
  unfolding partition_key
  partition_key-injective hm hn e =
      let vm = validate-IsValid uuid m hm in
      let vn = validate-IsValid uuid n hn in
      let (tenants, egs) =
        split_first 0 m.tenant_key n.tenant_key m.egs_sequence_id n.egs_sequence_id
          (identity-Lacks m.tenant_key 64 vm.tenant_key_ok).0
          (identity-Lacks n.tenant_key 64 vn.tenant_key_ok).0 e in
      (
        tenants,
        format_int-injective m.branch_id n.branch_id vm.branch_positive vn.branch_positive
            (sym vm.egs_is_branch ∙ egs ∙ vn.egs_is_branch),
      )

module _ (d e : Text) (a b : ℤ) where
  -- For valid database names and positive branch ids, one subject belongs to one branch.
  pub ordered_subject-injective :
      valid_identity_text d 64 ≡ true
      → valid_identity_text e 64 ≡ true
      → is_positive a ≡ true
      → is_positive b ≡ true
      → ordered_subject d a ≡ ordered_subject e b
      → (d ≡ e) × (a ≡ b)
  unfolding ordered_subject
  ordered_subject-injective hd he pa pb q =
      let (names, ids) =
        split_first b'.' d e (format_int a) (format_int b) (identity-Lacks d 64 hd).1
          (identity-Lacks e 64 he).1 (cancel_left (codes "zatca.*.") _ _ q) in
      (names, format_int-injective a b pa pb ids)

  -- For positive branch ids, one durable consumer belongs to one branch, whatever the database
  -- names hold.
  pub ordered_consumer_name-injective :
      is_positive a ≡ true
      → is_positive b ≡ true
      → ordered_consumer_name d a ≡ ordered_consumer_name e b
      → (d ≡ e) × (a ≡ b)
  unfolding ordered_consumer_name
  ordered_consumer_name-injective pa pb q =
      let (names, ids) =
        split_last b'_' d e (format_int a) (format_int b) (positive-Lacks b'_' a (omega arith) pa)
          (positive-Lacks b'_' b (omega arith) pb) (cancel_left (codes "zatca_ordered_") _ _ q) in
      (names, format_int-injective a b pa pb ids)
