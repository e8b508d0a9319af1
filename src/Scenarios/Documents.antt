-- ===== src/Scenarios/Documents.antt =====
-- An invoice in whole riyals, its document and its signature.
use zatca_integration.Common.{
  ℕ, ◌+◌, ◌-◌, ◌*◌, ◌/◌, ◌≡◌, refl, ◌↔◌, inl, true, false, none, some, [], ◌∷◌, ◌++◌, find_row,
  changed, ltb, ◌==◌, arith,
}
use zatca_integration.Common.Int.{pos}
use zatca_integration.Text.{codes, text_eq}
use zatca_integration.Text.Decimal.{format_nat}
use zatca_integration.Errors.{ok, is_ok}
use zatca_integration.Crypto.Qr.{Base64Library}
use zatca_integration.Crypto.Sign.{encode_der, Certificate, SigningLibrary, sign_invoice}
use zatca_integration.Crypto.Sign.Der.{read_der, read_der-encode_der}
use zatca_integration.Crypto.Sign.Places.{HasNoQr, sign_invoice-HasNoQr}
use zatca_integration.Invoice.{
  Float, Party, LineItem, Invoice, is_standard, round_to_2, tax_amount, sum_lines,
}
use zatca_integration.Invoice.Groups.{
  has_key, tax_groups, rounded_group, group_of, tax_groups-group_of,
}
use zatca_integration.Invoice.Xml.{XmlLibrary, Pieces, print}
use zatca_integration.Invoice.Xml.Document.{document, to_xml}
use zatca_integration.Invoice.Rules.{
  IsPrintable, to_xml_iff, discount_end, total_start, unset_percent-Printed,
}

abbrev riyals : Float ℕ
riyals = record {
  nought = 0;
  half = 0;
  fifteen = 15;
  hundred = 100;
  add = λ a b. a + b;
  sub = λ a b. a - b;
  mul = λ a b. a * b;
  div = λ a b. a / b;
  negated = λ a. 0;
  truncated = λ a. a;
  is_above_nought = λ a. ltb 0 a;
  is_nought = λ a. a == 0;
  text_2 = format_nat;
  text_6 = format_nat;
}

abbrev plain_xml : XmlLibrary
plain_xml = record { escape = λ t. t }

abbrev seller : Party
seller = record {
  registration_name = codes "Baker";
  registration_name_ar = [];
  vat = codes "310175397400003";
  scheme_id = [];
  id = codes "1";
  street = codes "S";
  building = codes "1";
  district = [];
  city = codes "R";
  postal_code = codes "12345";
  country = [];
}

abbrev bread : LineItem ℕ
bread = record {
  id = [];
  name = codes "bread";
  quantity = 10;
  unit_code = [];
  unit_price = 20;
  discount = 0;
  tax_category = codes "S";
  tax_percent = 15;
}

abbrev receipt : Invoice ℕ
receipt = record {
  id = codes "SME1";
  uuid = codes "u";
  issue_date = codes "2024-01-01";
  issue_time = codes "10:00:00";
  type_code = pos 388;
  sub_type = codes "0200000";
  document_currency = [];
  tax_currency = [];
  note = [];
  note_lang = [];
  supplier = seller;
  customer = seller;
  delivery_date = none;
  payment_means = [];
  instruction_note = [];
  billing_reference_id = [];
  discount = 5;
  discount_tax = [];
  discount_tax_percent = 0;
  lines = bread ∷ bread ∷ [];
  previous_invoice_hash = codes "h";
  invoice_counter_value = pos 1;
  profile_id = [];
}

to_xml_iff_example :
    ((to_xml riyals plain_xml receipt ≡ ok (print (document riyals plain_xml receipt)))
      ↔ IsPrintable riyals plain_xml receipt)
    × ((is_ok (to_xml riyals plain_xml receipt) ≡ false) ↔ ¬ IsPrintable riyals plain_xml receipt)
to_xml_iff_example = to_xml_iff riyals plain_xml receipt

receipt-IsPrintable : IsPrintable riyals plain_xml receipt
unfolding is_standard text_eq
receipt-IsPrintable = (refl, refl, refl, refl, inl refl, refl)

unset_percent-Printed_example :
    (before after : Pieces) × (to_xml riyals plain_xml receipt
      ≡ ok (
          print (
            before
            ++ (discount_end riyals plain_xml 15
                ++ (total_start riyals plain_xml receipt (
                      round_to_2 riyals
                        (sum_lines riyals (tax_amount riyals) 0 (bread ∷ bread ∷ [])))
                    ++ after)))))
unset_percent-Printed_example =
    unset_percent-Printed riyals plain_xml receipt receipt-IsPrintable refl refl refl (inl refl)

tax_groups-group_of_example :
    find_row (has_key (codes "S-15")) (tax_groups riyals (bread ∷ bread ∷ []))
    ≡ changed (rounded_group riyals) (group_of riyals (codes "S-15") (bread ∷ bread ∷ []) none)
tax_groups-group_of_example = tax_groups-group_of riyals (codes "S-15") (bread ∷ bread ∷ [])

read_der-encode_der_example : read_der (encode_der 200 70000) ≡ some (200, 70000)
read_der-encode_der_example =
    read_der-encode_der 200 70000 (omega arith) (omega arith) (omega arith) (omega arith)

abbrev text_base64 : Base64Library
text_base64 = record { encode = λ bytes. bytes; decode = λ t. some t }

abbrev signing : SigningLibrary
signing = record {
  invoice_hash = λ xml. some (codes "h");
  sha256 = λ t. t;
  hex = λ bytes. bytes;
  sign = λ key digest. some (3, 4);
  signing_time = codes "2024-01-01T10:00:00";
  zero_time = codes "0001-01-01T00:00:00Z";
}

abbrev certificate : Certificate
certificate = record {
  digest = codes "d";
  issuer = codes "CN=x";
  serial = codes "1";
  base64 = codes "c";
  public_key = 4 ∷ [];
  raw = 5 ∷ [];
}

sign_invoice-HasNoQr_example :
    HasNoQr (sign_invoice text_base64 signing (codes "<x/>") (1 ∷ []) certificate true)
    × (sign_invoice text_base64 signing (codes "<x/>") (1 ∷ []) certificate true
        ≡ sign_invoice text_base64 signing (codes "<x/>") (1 ∷ []) certificate false)
sign_invoice-HasNoQr_example =
    sign_invoice-HasNoQr text_base64 signing (codes "<x/>") (1 ∷ []) certificate true
