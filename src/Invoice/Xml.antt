-- ===== src/Invoice/Xml.antt =====
-- invoice/xml.go: the UBL document of an invoice. The builder's text is a list of pieces, one for each
-- tag or element that a WriteString prints; `print` gives the text. encoding/xml's EscapeText is a
-- parameter.
pub mod Document
use zatca_integration.Common.{
  ℕ, zero, suc, ◌+◌, Bool, true, false, not, ◌&&◌, ◌||◌, Option, none, some, List, [], ◌∷◌, ◌++◌,
  is_some, if◌then◌else◌,
}
use zatca_integration.Common.Int.{ℤ, pos}
use zatca_integration.Text.{Text, codes, text_eq, is_empty}
use zatca_integration.Text.Decimal.{format_int}
use zatca_integration.Invoice.{Party, Invoice, Float, is_standard}

-- encoding/xml
pub record XmlLibrary : Type 0 where
  pub escape : Text → Text

-- Each piece begins with its indentation and ends with a line break, but for the tags of the root.
-- `attributes` is what stands between the name and `>`.
pub data Piece : Type 0 where
  raw : Text → Piece
  opening : ℕ → Text → Text → Piece
  closing : ℕ → Text → Piece
  element : ℕ → Text → Text → Text → Piece
  root : Text → Text → Piece
  end_root : Text → Piece

abbrev pub Pieces : Type 0
Pieces = List Piece

abbrev newline : Text
newline = 10 ∷ []

abbrev spaces : ℕ → Text
spaces zero = []
spaces (suc n) = b' ' ∷ spaces n

-- the text of a piece
unfoldable pub print_piece : Piece → Text
print_piece (raw t) = t
print_piece (opening n tag attributes) =
    spaces n ++ (b'<' ∷ tag ++ (attributes ++ (b'>' ∷ newline)))
print_piece (closing n tag) = spaces n ++ (codes "</" ++ (tag ++ (b'>' ∷ newline)))
print_piece (element n tag attributes content) =
    spaces n
    ++ (b'<' ∷ tag ++ (attributes ++ (b'>' ∷ content ++ (codes "</" ++ (tag ++ (b'>' ∷ newline))))))
print_piece (root tag attributes) = b'<' ∷ tag ++ (attributes ++ codes ">")
print_piece (end_root tag) = codes "</" ++ (tag ++ codes ">")

unfoldable pub print : Pieces → Text
print [] = []
print (p ∷ pieces) = print_piece p ++ print pieces

-- orDefault
unfoldable pub or_default : Text → Text → Text
or_default s other = if is_empty s then other else s

-- ` name="value"`
abbrev pub attribute : Text → Text → Text
attribute name value = b' ' ∷ name ++ (codes "=\"" ++ (value ++ codes "\""))

-- fmt.Sprintf(`<tag currencyID="%s">%s</tag>`)
abbrev pub amount : ℕ → Text → Text → Text → Piece
amount n tag currency value = element n tag (attribute (codes "currencyID") currency) value

module _ (x : XmlLibrary) where
  -- writeElementIndent; writeElement is the same at four spaces
  unfoldable pub write_element : ℕ → Text → Text → Piece
  write_element n tag value = element n tag [] (x.escape value)

  -- writeAddress
  unfoldable pub write_address : ℕ → Party → Pieces
  write_address n p =
      opening n (codes "cac:PostalAddress") []
      ∷ write_element (n + 4) (codes "cbc:StreetName") p.street
      ∷ ((if is_empty p.building
            then []
            else write_element (n + 4) (codes "cbc:BuildingNumber") p.building ∷ [])
          ++ ((if is_empty p.district
                then []
                else write_element (n + 4) (codes "cbc:CitySubdivisionName") p.district ∷ [])
              ++ (write_element (n + 4) (codes "cbc:CityName") p.city
                  ∷ write_element (n + 4) (codes "cbc:PostalZone") p.postal_code
                  ∷ opening (n + 4) (codes "cac:Country") []
                  ∷ write_element (n + 8) (codes "cbc:IdentificationCode")
                      (or_default p.country (codes "SA"))
                  ∷ closing (n + 4) (codes "cac:Country")
                  ∷ closing n (codes "cac:PostalAddress")
                  ∷ [])))

  -- the registered name of a party
  abbrev registered_name : Party → Text
  registered_name p =
      if is_empty p.registration_name_ar
      then p.registration_name
      else p.registration_name_ar ++ (codes " | " ++ p.registration_name)

  -- writeSupplier
  unfoldable pub write_supplier : Party → Pieces
  write_supplier p =
      opening 4 (codes "cac:AccountingSupplierParty") []
      ∷ opening 8 (codes "cac:Party") []
      ∷ ((if is_empty p.id
            then []
            else (opening 12 (codes "cac:PartyIdentification") []
                ∷ element 16 (codes "cbc:ID")
                    (attribute (codes "schemeID") (x.escape (or_default p.scheme_id (codes "CRN"))))
                    (x.escape p.id)
                ∷ closing 12 (codes "cac:PartyIdentification")
                ∷ []))
          ++ (write_address 12 p
              ++ (opening 12 (codes "cac:PartyTaxScheme") []
                  ∷ write_element 16 (codes "cbc:CompanyID") p.vat
                  ∷ opening 16 (codes "cac:TaxScheme") []
                  ∷ write_element 20 (codes "cbc:ID") (codes "VAT")
                  ∷ closing 16 (codes "cac:TaxScheme")
                  ∷ closing 12 (codes "cac:PartyTaxScheme")
                  ∷ opening 12 (codes "cac:PartyLegalEntity") []
                  ∷ write_element 16 (codes "cbc:RegistrationName") (registered_name p)
                  ∷ closing 12 (codes "cac:PartyLegalEntity")
                  ∷ closing 8 (codes "cac:Party")
                  ∷ closing 4 (codes "cac:AccountingSupplierParty")
                  ∷ [])))

  -- writeCustomer
  unfoldable pub write_customer : Party → Pieces
  write_customer p =
      opening 4 (codes "cac:AccountingCustomerParty") []
      ∷ opening 8 (codes "cac:Party") []
      ∷ (write_address 12 p
          ++ ((if is_empty p.vat
                then []
                else (opening 12 (codes "cac:PartyTaxScheme") []
                    ∷ write_element 16 (codes "cbc:CompanyID") p.vat
                    ∷ opening 16 (codes "cac:TaxScheme") []
                    ∷ write_element 20 (codes "cbc:ID") (codes "VAT")
                    ∷ closing 16 (codes "cac:TaxScheme")
                    ∷ closing 12 (codes "cac:PartyTaxScheme")
                    ∷ []))
              ++ ((if is_empty p.registration_name
                    then []
                    else (opening 12 (codes "cac:PartyLegalEntity") []
                        ∷ write_element 16 (codes "cbc:RegistrationName") (registered_name p)
                        ∷ closing 12 (codes "cac:PartyLegalEntity")
                        ∷ []))
                  ++ (closing 8 (codes "cac:Party")
                      ∷ closing 4 (codes "cac:AccountingCustomerParty")
                      ∷ []))))

-- writeUBLExtensions
unfoldable pub write_ubl_extensions : Pieces
write_ubl_extensions =
    opening 0 (codes "ext:UBLExtensions") []
    ∷ opening 4 (codes "ext:UBLExtension") []
    ∷ element 8 (codes "ext:ExtensionURI") []
        (codes "urn:oasis:names:specification:ubl:dsig:enveloped:xades")
    ∷ opening 8 (codes "ext:ExtensionContent") []
    ∷ opening 12 (codes "sig:UBLDocumentSignatures") (
        attribute (codes "xmlns:sig")
          (codes "urn:oasis:names:specification:ubl:schema:xsd:CommonSignatureComponents-2")
        ++ (attribute (codes "xmlns:sac")
              (codes "urn:oasis:names:specification:ubl:schema:xsd:SignatureAggregateComponents-2")
            ++ attribute (codes "xmlns:sbc")
                (codes "urn:oasis:names:specification:ubl:schema:xsd:SignatureBasicComponents-2")))
    ∷ opening 16 (codes "sac:SignatureInformation") []
    ∷ element 20 (codes "cbc:ID") [] (codes "urn:oasis:names:specification:ubl:signature:1")
    ∷ element 20 (codes "sbc:ReferencedSignatureID") []
        (codes "urn:oasis:names:specification:ubl:signature:Invoice")
    ∷ closing 16 (codes "sac:SignatureInformation")
    ∷ closing 12 (codes "sig:UBLDocumentSignatures")
    ∷ closing 8 (codes "ext:ExtensionContent")
    ∷ closing 4 (codes "ext:UBLExtension")
    ∷ closing 0 (codes "ext:UBLExtensions")
    ∷ []

-- writeAdditionalDocRefs
unfoldable pub write_additional_doc_refs : XmlLibrary → ℤ → Text → Pieces
write_additional_doc_refs x counter previous_hash =
    opening 4 (codes "cac:AdditionalDocumentReference") []
    ∷ write_element x 8 (codes "cbc:ID") (codes "ICV")
    ∷ write_element x 8 (codes "cbc:UUID") (format_int counter)
    ∷ closing 4 (codes "cac:AdditionalDocumentReference")
    ∷ opening 4 (codes "cac:AdditionalDocumentReference") []
    ∷ write_element x 8 (codes "cbc:ID") (codes "PIH")
    ∷ opening 8 (codes "cac:Attachment") []
    ∷ element 12 (codes "cbc:EmbeddedDocumentBinaryObject")
        (attribute (codes "mimeCode") (codes "text/plain")) previous_hash
    ∷ closing 8 (codes "cac:Attachment")
    ∷ closing 4 (codes "cac:AdditionalDocumentReference")
    ∷ opening 4 (codes "cac:AdditionalDocumentReference") []
    ∷ write_element x 8 (codes "cbc:ID") (codes "QR")
    ∷ opening 8 (codes "cac:Attachment") []
    ∷ element 12 (codes "cbc:EmbeddedDocumentBinaryObject")
        (attribute (codes "mimeCode") (codes "text/plain")) []
    ∷ closing 8 (codes "cac:Attachment")
    ∷ closing 4 (codes "cac:AdditionalDocumentReference")
    ∷ []
