-- ===== src/Invoice/Rules.antt =====
-- What invoice/invoice.go and invoice/xml.go promise of an invoice that is printed, and of its
-- discount.
use mathlib.Core.List.{append_assoc}
use zatca_integration.Common.{
  ◌≡◌, refl, ◌↔◌, true, false, List, [], ◌∷◌, ◌++◌, take, drop, ap, ◌∙◌, ◌⊎◌, inl, inr, none,
  Bool-cases, arith,
}
use zatca_integration.Text.{codes, text_eq, is_empty}
use zatca_integration.Errors.{ok, is_ok}
use zatca_integration.Invoice.{
  Float, Invoice, round_to_2, tax_amount, sum_lines, less_discount_tax, total_tax, is_standard,
}
use zatca_integration.Invoice.Xml.{
  XmlLibrary, print, Pieces, end_root, opening, closing, element, amount, write_element, or_default,
}
use zatca_integration.Invoice.Xml.Document.{
  no_lines, validate_invoice, currency, allowance, write_allowance_charge, write_tax_totals,
  sections, join, allowance_category, allowance_percent, document, to_xml,
}

join-append : (xs ys : List Pieces) → join (xs ++ ys) ≡ join xs ++ join ys
unfolding join
join-append [] ys = refl
join-append (x ∷ xs) ys = rw (join-append xs ys, append_assoc) refl

-- Two parts that stand side by side, each split in two: the inner halves stand side by side.
join-middle :
    (before after : List Pieces) (a t a_start a_end t_start t_end last : Pieces)
    → a ≡ a_start ++ a_end
    → t ≡ t_start ++ t_end
    → join (before ++ (a ∷ t ∷ after)) ++ last
      ≡ (join before ++ a_start) ++ (a_end ++ (t_start ++ (t_end ++ (join after ++ last))))
unfolding join
join-middle before after a t a_start a_end t_start t_end last p q =
    rw (join-append before (a ∷ t ∷ after), p, q) (simp append_assoc)

module _ {ℓ} {W : Type ℓ} (f : Float W) (x : XmlLibrary) where
  -- what ToXML asks of an invoice
  abbrev pub IsPrintable : Invoice W → Type 0
  IsPrintable inv =
      (is_empty inv.id ≡ false)
      × (is_empty inv.uuid ≡ false)
      × (no_lines inv.lines ≡ false)
      × (is_empty inv.supplier.vat ≡ false)
      × ((is_standard inv ≡ false) ⊎ (is_empty inv.customer.vat ≡ false))
      × (is_empty inv.previous_invoice_hash ≡ false)

  validate_invoice_iff : (inv : Invoice W) → (validate_invoice inv ≡ none) ↔ IsPrintable inv
  unfolding validate_invoice
  validate_invoice_iff inv = ground arith

  -- ToXML prints the document of an invoice exactly when it has a number, a UUID, a line, the tax
  -- number of its supplier, that of its customer if it is a standard invoice, and the hash of the
  -- previous invoice. Otherwise it answers an error and no text.
  pub to_xml_iff :
      (inv : Invoice W)
      → ((to_xml f x inv ≡ ok (print (document f x inv))) ↔ IsPrintable inv)
        × ((is_ok (to_xml f x inv) ≡ false) ↔ ¬ IsPrintable inv)
  unfolding to_xml
  to_xml_iff inv =
      (ground (arith, validate_invoice_iff inv), ground (arith, validate_invoice_iff inv))

  -- the category S, or none
  abbrev pub IsStandardRate : Invoice W → Type 0
  IsStandardRate inv =
      (is_empty inv.discount_tax ≡ true) ⊎ (text_eq inv.discount_tax (codes "S") ≡ true)

  allowance_percent-fifteen :
      (inv : Invoice W)
      → f.is_nought inv.discount_tax_percent ≡ true
      → IsStandardRate inv
      → allowance_percent f inv ≡ f.fifteen
  unfolding allowance_percent allowance_category or_default text_eq
  allowance_percent-fifteen inv nought (inl e) = rw (e, nought) refl
  allowance_percent-fifteen inv nought (inr e) = elim (Bool-cases (is_empty inv.discount_tax)) [
    | inl none_given ↦ rw (none_given, nought) refl
    | inr given ↦ rw (given, nought, e) refl
  ]

  total_tax-undiscounted :
      (inv : Invoice W)
      → f.is_above_nought inv.discount_tax_percent ≡ false
      → total_tax f inv ≡ round_to_2 f (sum_lines f (tax_amount f) f.nought inv.lines)
  unfolding total_tax less_discount_tax
  total_tax-undiscounted inv h = ground (arith, h)

  -- the end of the discount's element, from its percentage on
  abbrev pub discount_end : W → Pieces
  discount_end percent =
      element 12 (codes "cbc:Percent") [] (f.text_2 percent)
      ∷ opening 12 (codes "cac:TaxScheme") []
      ∷ element 16 (codes "cbc:ID") (codes " schemeID=\"UN/ECE 5153\" schemeAgencyID=\"6\"")
          (codes "VAT")
      ∷ closing 12 (codes "cac:TaxScheme")
      ∷ closing 8 (codes "cac:TaxCategory")
      ∷ closing 4 (codes "cac:AllowanceCharge")
      ∷ []

  -- the start of the tax total
  abbrev pub total_start : Invoice W → W → Pieces
  total_start inv tax =
      opening 4 (codes "cac:TaxTotal") []
      ∷ amount 8 (codes "cbc:TaxAmount") (currency inv) (f.text_2 tax)
      ∷ []

  -- the start of the discount's element
  abbrev discount_start : Invoice W → Pieces
  discount_start inv =
      opening 4 (codes "cac:AllowanceCharge") []
      ∷ write_element x 8 (codes "cbc:ChargeIndicator") (codes "false")
      ∷ write_element x 8 (codes "cbc:AllowanceChargeReason") (codes "discount")
      ∷ amount 8 (codes "cbc:Amount") (currency inv) (f.text_2 inv.discount)
      ∷ opening 8 (codes "cac:TaxCategory") []
      ∷ element 12 (codes "cbc:ID") (codes " schemeID=\"UN/ECE 5305\" schemeAgencyID=\"6\"")
          (allowance_category f inv)
      ∷ []

  allowance-split :
      (inv : Invoice W)
      → f.is_above_nought inv.discount ≡ true
      → allowance f x inv ≡ discount_start inv ++ discount_end (allowance_percent f inv)
  unfolding write_allowance_charge
  allowance-split inv h = rw h refl

  totals-split :
      (inv : Invoice W)
      → (rest : Pieces) × (write_tax_totals f inv ≡ total_start inv (total_tax f inv) ++ rest)
  unfolding write_tax_totals
  totals-split inv = (drop 2 (write_tax_totals f inv), refl)

  document-split :
      (inv : Invoice W) (rest : Pieces)
      → f.is_above_nought inv.discount ≡ true
      → write_tax_totals f inv ≡ total_start inv (total_tax f inv) ++ rest
      → (before after : Pieces) × (document f x inv
          ≡ before
            ++ (discount_end (allowance_percent f inv)
                ++ (total_start inv (total_tax f inv) ++ after)))
  unfolding document join
  document-split inv rest h total =
      let first : Pieces = join (take 11 (sections f x inv)) in
      let others : Pieces = join (drop 13 (sections f x inv)) in
      (
        take 2 (document f x inv) ++ (first ++ discount_start inv),
        rest ++ (others ++ (end_root (codes "Invoice") ∷ [])),
        ap (λ p. take 2 (document f x inv) ++ p)
            (join-middle (take 11 (sections f x inv)) (drop 13 (sections f x inv))
              (allowance f x inv) (write_tax_totals f inv) (discount_start inv)
              (discount_end (allowance_percent f inv)) (total_start inv (total_tax f inv)) rest
              (end_root (codes "Invoice") ∷ []) (allowance-split inv h) total),
      )

  -- A printable invoice has a discount, whose tax percentage is left at nought and whose category is S or
  -- none: ToXML prints fifteen per cent at the end of the discount's element, and right behind it the tax
  -- total of the document as the rounded sum of the taxes of the lines, from which nothing is subtracted
  -- for the discount.
  pub unset_percent-Printed :
      (inv : Invoice W)
      → IsPrintable inv
      → f.is_above_nought inv.discount ≡ true
      → f.is_nought inv.discount_tax_percent ≡ true
      → f.is_above_nought inv.discount_tax_percent ≡ false
      → IsStandardRate inv
      → (before after : Pieces) × (to_xml f x inv
          ≡ ok (
              print (
                before
                ++ (discount_end f.fifteen
                    ++ (total_start inv
                          (round_to_2 f (sum_lines f (tax_amount f) f.nought inv.lines))
                        ++ after)))))
  unset_percent-Printed inv printable above nought not_above rate =
      let (rest, total) = totals-split inv in
      let (before, after, split) = document-split inv rest above total in
      (
        before,
        after,
        (to_xml_iff inv).0.1 printable
            ∙ ap (λ d. ok (print d))
                (split
                  ∙ rw
                      (
                        allowance_percent-fifteen inv nought rate,
                        total_tax-undiscounted inv not_above,
                      )
                      refl),
      )
