-- ===== src/Crypto/Hash/Excluded.antt =====
-- crypto/hash.go: which of an invoice's elements its hash does not see.
use zatca_integration.Common.{
  ℕ, suc, ◌≤◌, ◌≡◌, refl, sym, ap, ◌∙◌, Bool, ◌||◌, some, List, [], ◌∷◌, if◌then◌else◌, arith,
}
use zatca_integration.Text.{Text, codes}
use zatca_integration.Errors.{Result, ok, err}
use zatca_integration.Crypto.Hash.{
  Attr, Node, Root, HashLibrary, ns_ext, ns_cac, remove_first, is_named, remove_child_element,
  is_qr_reference, remove_qr_reference, strip, canonicalize_for_hashing, invoice_hash,
}

-- how many entries the test selects, and the list without them
unfoldable pub count {ℓ} : {A : Type ℓ} → (A → Bool) → List A → ℕ
count p [] = 0
count p (x ∷ xs) = let rest = count p xs in if p x then suc rest else rest

unfoldable pub without {ℓ} : {A : Type ℓ} → (A → Bool) → List A → List A
without p [] = []
without p (x ∷ xs) = let rest = without p xs in if p x then rest else x ∷ rest

without-none {ℓ} : {A : Type ℓ} (p : A → Bool) (xs : List A) → count p xs ≡ 0 → without p xs ≡ xs
unfolding count without
without-none p [] h = refl
without-none p (x ∷ xs) h = ground (arith, h, without-none p xs)

remove_first-without {ℓ} :
    {A : Type ℓ} (p : A → Bool) (xs : List A) → count p xs ≤ 1 → remove_first p xs ≡ without p xs
unfolding count without remove_first
remove_first-without p [] h = refl
remove_first-without p (x ∷ xs) h = ground (arith, h, remove_first-without p xs, without-none p xs)

count-without {ℓ} :
    {A : Type ℓ} (p q : A → Bool) (xs : List A) → count q (without p xs) ≤ count q xs
unfolding count without
count-without p q [] = ground arith
count-without p q (x ∷ xs) = ground (arith, count-without p q xs)

without-without {ℓ} :
    {A : Type ℓ} (p q : A → Bool) (xs : List A)
    → without q (without p xs) ≡ without (λ x. p x || q x) xs
unfolding without
without-without p q [] = refl
without-without p q (x ∷ xs) = ground (arith, without-without p q xs)

remove_first-thrice {ℓ} :
    {A : Type ℓ} (p q r : A → Bool) (xs : List A)
    → count p xs ≤ 1
    → count q xs ≤ 1
    → count r xs ≤ 1
    → remove_first r (remove_first q (remove_first p xs)) ≡ without (λ x. (p x || q x) || r x) xs
remove_first-thrice p q r xs hp hq hr =
    let first = remove_first-without p xs hp in
    let second =
      ap (remove_first q) first
      ∙ (remove_first-without q (without p xs) (omega (arith, count-without p q xs, hq))
          ∙ without-without p q xs) in
    ap (remove_first r) second
    ∙ (remove_first-without r (without (λ x. p x || q x) xs)
          (omega (arith, count-without (λ x. p x || q x) r xs, hr))
        ∙ without-without (λ x. p x || q x) r xs)

module _ {Element : Type 0} (library : HashLibrary Element) where
  abbrev pub is_extensions : List Attr → Node Element → Bool
  is_extensions attrs = is_named library attrs ns_ext (codes "UBLExtensions")

  abbrev pub is_signature : List Attr → Node Element → Bool
  is_signature attrs = is_named library attrs ns_cac (codes "Signature")

  -- a child of the root that signing adds
  abbrev is_added : List Attr → Node Element → Bool
  is_added attrs x = (is_extensions attrs x || is_signature attrs x) || is_qr_reference library x

  -- the document without all of them
  unfoldable pub body : Root Element → Root Element
  body root = record root { children = without (is_added root.attrs) root.children }

  -- a document that holds at most one of each
  pub record IsSingle (root : Root Element) : Type 0 where
    pub extensions : count (is_extensions root.attrs) root.children ≤ 1
    pub signature : count (is_signature root.attrs) root.children ≤ 1
    pub qr_reference : count (is_qr_reference library) root.children ≤ 1

  strip-body : (root : Root Element) → IsSingle root → strip library root ≡ body root
  unfolding remove_child_element remove_qr_reference body
  strip-body root h =
      ap (λ children. record root { children = children })
        (remove_first-thrice (is_extensions root.attrs) (is_signature root.attrs)
          (is_qr_reference library) root.children h.extensions h.signature h.qr_reference)

  -- what is made of the stripped document
  abbrev digest : Root Element → Result Text
  digest root = elim (library.canonicalize root) [
    | err e ↦ err e
    | ok bytes ↦ ok (library.base64.encode (library.sha256 bytes))
  ]

  invoice_hash-digest :
      (xml : Text) (root : Root Element)
      → library.read_from xml ≡ ok (some root)
      → invoice_hash library xml ≡ digest (strip library root)
  unfolding invoice_hash canonicalize_for_hashing
  invoice_hash-digest xml root h = ground (arith, h)

  -- Two documents that are equal without their UBLExtensions, their Signature and their QR reference
  -- have the same InvoiceHash, when each holds at most one of each of these.
  pub invoice_hash-body :
      (a b : Text) (r s : Root Element)
      → library.read_from a ≡ ok (some r)
      → library.read_from b ≡ ok (some s)
      → IsSingle r
      → IsSingle s
      → body r ≡ body s
      → invoice_hash library a ≡ invoice_hash library b
  invoice_hash-body a b r s ha hb single_r single_s e =
      invoice_hash-digest a r ha
      ∙ (ap digest (strip-body r single_r ∙ (e ∙ sym (strip-body s single_s)))
          ∙ sym (invoice_hash-digest b s hb))
