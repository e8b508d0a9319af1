-- ===== src/Invoice/Xml/Document.antt =====
-- invoice/xml.go: the amounts and lines of the UBL document, and the whole of it.
use zatca_integration.Common.{
  ℕ, suc, Bool, true, false, ◌&&◌, ◌||◌, none, some, List, [], ◌∷◌, ◌++◌, is_some, if◌then◌else◌,
}
use zatca_integration.Common.Int.{pos}
use zatca_integration.Text.{Text, codes, text_eq, is_empty}
use zatca_integration.Text.Decimal.{format_int}
use zatca_integration.Errors.{Error, Result, ok, err, opaque}
use zatca_integration.Invoice.{
  Float, LineItem, Invoice, round_to_2, net_amount, tax_amount, line_total_with_tax, sum_lines,
  total_tax, is_standard, profile_id, delivery_date_text,
}
use zatca_integration.Invoice.Groups.{TaxGroup, tax_groups}
use zatca_integration.Invoice.Xml.{
  XmlLibrary, raw, opening, closing, element, root, end_root, Pieces, print, or_default, attribute,
  amount, write_element, write_supplier, write_customer, write_ubl_extensions,
  write_additional_doc_refs,
}

unfoldable pub join : List Pieces → Pieces
join [] = []
join (p ∷ parts) = p ++ join parts

module _ {ℓ} {W : Type ℓ} where
  abbrev pub currency : Invoice W → Text
  currency inv = or_default inv.document_currency (codes "SAR")

  abbrev pub no_lines : List (LineItem W) → Bool
  no_lines [] = true
  no_lines (l ∷ lines) = false

  -- Invoice.validate
  unfoldable pub validate_invoice : Invoice W → Error
  validate_invoice inv =
      if is_empty inv.id
      then some opaque
      else if is_empty inv.uuid
      then some opaque
      else if no_lines inv.lines
      then some opaque
      else if is_empty inv.supplier.vat
      then some opaque
      else if is_standard inv && is_empty inv.customer.vat
      then some opaque
      else if is_empty inv.previous_invoice_hash
      then some opaque
      else none

module _ {ℓ} {W : Type ℓ} (f : Float W) where
  -- the category and the percentage that writeAllowanceCharge prints
  unfoldable pub allowance_category : Invoice W → Text
  allowance_category inv = or_default inv.discount_tax (codes "S")

  unfoldable pub allowance_percent : Invoice W → W
  allowance_percent inv =
      if f.is_nought inv.discount_tax_percent && text_eq (allowance_category inv) (codes "S")
      then f.fifteen
      else inv.discount_tax_percent

  -- writeAllowanceCharge
  unfoldable pub write_allowance_charge : XmlLibrary → Invoice W → Pieces
  write_allowance_charge x inv =
      opening 4 (codes "cac:AllowanceCharge") []
      ∷ write_element x 8 (codes "cbc:ChargeIndicator") (codes "false")
      ∷ write_element x 8 (codes "cbc:AllowanceChargeReason") (codes "discount")
      ∷ amount 8 (codes "cbc:Amount") (currency inv) (f.text_2 inv.discount)
      ∷ opening 8 (codes "cac:TaxCategory") []
      ∷ element 12 (codes "cbc:ID") (codes " schemeID=\"UN/ECE 5305\" schemeAgencyID=\"6\"")
          (allowance_category inv)
      ∷ element 12 (codes "cbc:Percent") [] (f.text_2 (allowance_percent inv))
      ∷ opening 12 (codes "cac:TaxScheme") []
      ∷ element 16 (codes "cbc:ID") (codes " schemeID=\"UN/ECE 5153\" schemeAgencyID=\"6\"")
          (codes "VAT")
      ∷ closing 12 (codes "cac:TaxScheme")
      ∷ closing 8 (codes "cac:TaxCategory")
      ∷ closing 4 (codes "cac:AllowanceCharge")
      ∷ []

  -- one subtotal of writeTaxTotals
  unfoldable pub write_subtotal : Text → TaxGroup W → Pieces
  write_subtotal cur g =
      opening 8 (codes "cac:TaxSubtotal") []
      ∷ amount 12 (codes "cbc:TaxableAmount") cur (f.text_2 g.taxable)
      ∷ amount 12 (codes "cbc:TaxAmount") cur (f.text_2 g.tax)
      ∷ opening 12 (codes "cac:TaxCategory") []
      ∷ element 16 (codes "cbc:ID") (codes " schemeID=\"UN/ECE 5305\" schemeAgencyID=\"6\"")
          g.category
      ∷ element 16 (codes "cbc:Percent") [] (f.text_2 g.percent)
      ∷ opening 16 (codes "cac:TaxScheme") []
      ∷ element 20 (codes "cbc:ID") (codes " schemeID=\"UN/ECE 5153\" schemeAgencyID=\"6\"")
          (codes "VAT")
      ∷ closing 16 (codes "cac:TaxScheme")
      ∷ closing 12 (codes "cac:TaxCategory")
      ∷ closing 8 (codes "cac:TaxSubtotal")
      ∷ []

  -- the loop over the groups
  unfoldable pub write_subtotals : Text → List (TaxGroup W) → Pieces
  write_subtotals cur [] = []
  write_subtotals cur (g ∷ groups) = write_subtotal cur g ++ write_subtotals cur groups

  -- writeTaxTotals
  unfoldable pub write_tax_totals : Invoice W → Pieces
  write_tax_totals inv =
      let cur = currency inv in
      let tax = f.text_2 (total_tax f inv) in
      opening 4 (codes "cac:TaxTotal") []
      ∷ amount 8 (codes "cbc:TaxAmount") cur tax
      ∷ closing 4 (codes "cac:TaxTotal")
      ∷ opening 4 (codes "cac:TaxTotal") []
      ∷ amount 8 (codes "cbc:TaxAmount") cur tax
      ∷ (write_subtotals cur (tax_groups f inv.lines) ++ (closing 4 (codes "cac:TaxTotal") ∷ []))

  -- the sums of writeLegalMonetaryTotal
  unfoldable pub line_extension : Invoice W → W
  line_extension inv = round_to_2 f (sum_lines f (net_amount f) f.nought inv.lines)

  unfoldable pub tax_exclusive : Invoice W → W
  tax_exclusive inv = round_to_2 f (f.sub (line_extension inv) inv.discount)

  unfoldable pub tax_inclusive : Invoice W → W
  tax_inclusive inv = round_to_2 f (f.add (tax_exclusive inv) (total_tax f inv))

  -- writeLegalMonetaryTotal
  unfoldable pub write_legal_monetary_total : Invoice W → Pieces
  write_legal_monetary_total inv =
      let cur = currency inv in
      opening 4 (codes "cac:LegalMonetaryTotal") []
      ∷ amount 8 (codes "cbc:LineExtensionAmount") cur (f.text_2 (line_extension inv))
      ∷ amount 8 (codes "cbc:TaxExclusiveAmount") cur (f.text_2 (tax_exclusive inv))
      ∷ amount 8 (codes "cbc:TaxInclusiveAmount") cur (f.text_2 (tax_inclusive inv))
      ∷ amount 8 (codes "cbc:AllowanceTotalAmount") cur (f.text_2 inv.discount)
      ∷ amount 8 (codes "cbc:PrepaidAmount") cur (codes "0.00")
      ∷ amount 8 (codes "cbc:PayableAmount") cur (f.text_2 (tax_inclusive inv))
      ∷ closing 4 (codes "cac:LegalMonetaryTotal")
      ∷ []

  -- writeLine
  unfoldable pub write_line : XmlLibrary → Text → ℕ → LineItem W → Pieces
  write_line x cur seq l =
      opening 4 (codes "cac:InvoiceLine") []
      ∷ write_element x 8 (codes "cbc:ID") (or_default l.id (format_int (pos seq)))
      ∷ element 8 (codes "cbc:InvoicedQuantity")
          (attribute (codes "unitCode") (or_default l.unit_code (codes "PCE")))
          (f.text_6 l.quantity)
      ∷ amount 8 (codes "cbc:LineExtensionAmount") cur (f.text_2 (net_amount f l))
      ∷ opening 8 (codes "cac:TaxTotal") []
      ∷ amount 12 (codes "cbc:TaxAmount") cur (f.text_2 (tax_amount f l))
      ∷ amount 12 (codes "cbc:RoundingAmount") cur (f.text_2 (line_total_with_tax f l))
      ∷ closing 8 (codes "cac:TaxTotal")
      ∷ opening 8 (codes "cac:Item") []
      ∷ write_element x 12 (codes "cbc:Name") l.name
      ∷ opening 12 (codes "cac:ClassifiedTaxCategory") []
      ∷ write_element x 16 (codes "cbc:ID") l.tax_category
      ∷ element 16 (codes "cbc:Percent") [] (f.text_2 l.tax_percent)
      ∷ opening 16 (codes "cac:TaxScheme") []
      ∷ write_element x 20 (codes "cbc:ID") (codes "VAT")
      ∷ closing 16 (codes "cac:TaxScheme")
      ∷ closing 12 (codes "cac:ClassifiedTaxCategory")
      ∷ closing 8 (codes "cac:Item")
      ∷ opening 8 (codes "cac:Price") []
      ∷ amount 12 (codes "cbc:PriceAmount") cur (f.text_2 l.unit_price)
      ∷ ((if f.is_above_nought l.discount
            then (opening 12 (codes "cac:AllowanceCharge") []
                ∷ write_element x 16 (codes "cbc:ChargeIndicator") (codes "false")
                ∷ write_element x 16 (codes "cbc:AllowanceChargeReason") (codes "discount")
                ∷ amount 16 (codes "cbc:Amount") cur (f.text_2 l.discount)
                ∷ closing 12 (codes "cac:AllowanceCharge")
                ∷ [])
            else [])
          ++ (closing 8 (codes "cac:Price") ∷ closing 4 (codes "cac:InvoiceLine") ∷ []))

  -- the loop over the lines; `seq` is the index from one
  unfoldable pub write_lines : XmlLibrary → Text → ℕ → List (LineItem W) → Pieces
  write_lines x cur seq [] = []
  write_lines x cur seq (l ∷ lines) = write_line x cur seq l ++ write_lines x cur (suc seq) lines

  abbrev pub billing_reference : XmlLibrary → Invoice W → Pieces
  billing_reference x inv =
      if is_empty inv.billing_reference_id
      then []
      else (opening 4 (codes "cac:BillingReference") []
          ∷ opening 8 (codes "cac:InvoiceDocumentReference") []
          ∷ write_element x 12 (codes "cbc:ID") inv.billing_reference_id
          ∷ closing 8 (codes "cac:InvoiceDocumentReference")
          ∷ closing 4 (codes "cac:BillingReference")
          ∷ [])

  abbrev pub note : XmlLibrary → Invoice W → Pieces
  note x inv =
      if is_empty inv.note
      then []
      else (element 4 (codes "cbc:Note")
            (attribute (codes "languageID") (x.escape (or_default inv.note_lang (codes "ar"))))
            (x.escape inv.note)
          ∷ [])

  abbrev pub delivery : XmlLibrary → Invoice W → Pieces
  delivery x inv =
      if is_standard inv || is_some inv.delivery_date
      then (opening 4 (codes "cac:Delivery") []
          ∷ write_element x 8 (codes "cbc:ActualDeliveryDate") (delivery_date_text inv)
          ∷ closing 4 (codes "cac:Delivery")
          ∷ [])
      else []

  abbrev pub payment : XmlLibrary → Invoice W → Pieces
  payment x inv =
      opening 4 (codes "cac:PaymentMeans") []
      ∷ write_element x 8 (codes "cbc:PaymentMeansCode") (or_default inv.payment_means (codes "10"))
      ∷ ((if is_empty inv.instruction_note
            then []
            else write_element x 8 (codes "cbc:InstructionNote") inv.instruction_note ∷ [])
          ++ (closing 4 (codes "cac:PaymentMeans") ∷ []))

  abbrev pub signature_reference : XmlLibrary → Pieces
  signature_reference x =
      opening 4 (codes "cac:Signature") []
      ∷ write_element x 6 (codes "cbc:ID")
          (codes "urn:oasis:names:specification:ubl:signature:Invoice")
      ∷ write_element x 6 (codes "cbc:SignatureMethod")
          (codes "urn:oasis:names:specification:ubl:dsig:enveloped:xades")
      ∷ closing 4 (codes "cac:Signature")
      ∷ []

  -- the first lines of ToXML after the extensions
  abbrev pub write_head : XmlLibrary → Invoice W → Pieces
  write_head x inv =
      write_element x 4 (codes "cbc:ProfileID") (profile_id inv)
      ∷ write_element x 4 (codes "cbc:ID") inv.id
      ∷ write_element x 4 (codes "cbc:UUID") inv.uuid
      ∷ write_element x 4 (codes "cbc:IssueDate") inv.issue_date
      ∷ write_element x 4 (codes "cbc:IssueTime") inv.issue_time
      ∷ element 4 (codes "cbc:InvoiceTypeCode") (attribute (codes "name") inv.sub_type)
          (format_int inv.type_code)
      ∷ []

  abbrev pub write_currencies : XmlLibrary → Invoice W → Pieces
  write_currencies x inv =
      write_element x 4 (codes "cbc:DocumentCurrencyCode") (currency inv)
      ∷ write_element x 4 (codes "cbc:TaxCurrencyCode") (or_default inv.tax_currency (codes "SAR"))
      ∷ []

  abbrev pub allowance : XmlLibrary → Invoice W → Pieces
  allowance x inv = if f.is_above_nought inv.discount then write_allowance_charge x inv else []

  -- what ToXML prints inside the root, in its order
  abbrev pub sections : XmlLibrary → Invoice W → List Pieces
  sections x inv =
      write_ubl_extensions
      ∷ write_head x inv
      ∷ note x inv
      ∷ write_currencies x inv
      ∷ billing_reference x inv
      ∷ write_additional_doc_refs x inv.invoice_counter_value inv.previous_invoice_hash
      ∷ signature_reference x
      ∷ write_supplier x inv.supplier
      ∷ write_customer x inv.customer
      ∷ delivery x inv
      ∷ payment x inv
      ∷ allowance x inv
      ∷ write_tax_totals inv
      ∷ write_legal_monetary_total inv
      ∷ write_lines x (currency inv) 1 inv.lines
      ∷ []

  -- the document of ToXML
  unfoldable pub document : XmlLibrary → Invoice W → Pieces
  document x inv =
      raw (codes "<?xml version=\"1.0\" encoding=\"UTF-8\"?>" ++ 10 ∷ [])
      ∷ root (codes "Invoice") (
          attribute (codes "xmlns") (codes "urn:oasis:names:specification:ubl:schema:xsd:Invoice-2")
          ++ (attribute (codes "xmlns:cac")
                (codes "urn:oasis:names:specification:ubl:schema:xsd:CommonAggregateComponents-2")
              ++ (attribute (codes "xmlns:cbc")
                    (codes "urn:oasis:names:specification:ubl:schema:xsd:CommonBasicComponents-2")
                  ++ attribute (codes "xmlns:ext") (
                      codes
                        "urn:oasis:names:specification:ubl:schema:xsd:CommonExtensionComponents-2"))))
      ∷ (join (sections x inv) ++ (end_root (codes "Invoice") ∷ []))

  -- Invoice.ToXML
  unfoldable pub to_xml : XmlLibrary → Invoice W → Result Text
  to_xml x inv = elim (validate_invoice inv) [ some e ↦ err e | none ↦ ok (print (document x inv)) ]
