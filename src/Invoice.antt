-- ===== src/Invoice.antt =====
-- invoice/invoice.go: an invoice, its lines and its amounts. Go's float64 is a parameter, with the
-- operations that the code uses.
pub mod Groups
pub mod Xml
pub mod Rules
use zatca_integration.Common.{
  ◌≡◌, refl, Bool, true, false, ◌&&◌, Option, none, some, List, [], ◌∷◌, if◌then◌else◌,
}
use zatca_integration.Common.Int.{ℤ}
use zatca_integration.Text.{Text, codes, text_eq, is_empty}

-- float64: `truncated` is float64(int(x)), `text_2` is "%.2f" and `text_6` is "%f"
pub record Float {ℓ} (W : Type ℓ) : Type ℓ where
  pub nought : W
  pub half : W
  pub fifteen : W
  pub hundred : W
  pub add : W → W → W
  pub sub : W → W → W
  pub mul : W → W → W
  pub div : W → W → W
  pub negated : W → W
  pub truncated : W → W
  pub is_above_nought : W → Bool
  pub is_nought : W → Bool
  pub text_2 : W → Text
  pub text_6 : W → Text

-- Party
pub record Party : Type 0 where
  pub registration_name : Text
  pub registration_name_ar : Text
  pub vat : Text
  pub scheme_id : Text
  pub id : Text
  pub street : Text
  pub building : Text
  pub district : Text
  pub city : Text
  pub postal_code : Text
  pub country : Text

-- LineItem
pub record LineItem {ℓ} (W : Type ℓ) : Type ℓ where
  pub id : Text
  pub name : Text
  pub quantity : W
  pub unit_code : Text
  pub unit_price : W
  pub discount : W
  pub tax_category : Text
  pub tax_percent : W

-- Invoice. The dates are their formatted texts; a zero delivery date is `none`.
pub record Invoice {ℓ} (W : Type ℓ) : Type ℓ where
  pub id : Text
  pub uuid : Text
  pub issue_date : Text
  pub issue_time : Text
  pub type_code : ℤ
  pub sub_type : Text
  pub document_currency : Text
  pub tax_currency : Text
  pub note : Text
  pub note_lang : Text
  pub supplier : Party
  pub customer : Party
  pub delivery_date : Option Text
  pub payment_means : Text
  pub instruction_note : Text
  pub billing_reference_id : Text
  pub discount : W
  pub discount_tax : Text
  pub discount_tax_percent : W
  pub lines : List (LineItem W)
  pub previous_invoice_hash : Text
  pub invoice_counter_value : ℤ
  pub profile_id : Text

module _ {ℓ} {W : Type ℓ} (f : Float W) where
  -- roundTo2
  unfoldable pub round_to_2 : W → W
  round_to_2 v = f.div (f.truncated (f.add (f.mul v f.hundred) f.half)) f.hundred

  -- LineItem.NetAmount
  unfoldable pub net_amount : LineItem W → W
  net_amount l = round_to_2 (f.sub (f.mul l.quantity l.unit_price) l.discount)

  -- LineItem.TaxAmount
  unfoldable pub tax_amount : LineItem W → W
  tax_amount l = round_to_2 (f.div (f.mul (net_amount l) l.tax_percent) f.hundred)

  -- LineItem.TotalWithTax
  unfoldable pub line_total_with_tax : LineItem W → W
  line_total_with_tax l = round_to_2 (f.add (net_amount l) (tax_amount l))

  -- a loop that adds an amount of each line
  unfoldable pub sum_lines : (LineItem W → W) → W → List (LineItem W) → W
  sum_lines amount total [] = total
  sum_lines amount total (l ∷ lines) = sum_lines amount (f.add total (amount l)) lines

  -- Invoice.TaxableAmount
  unfoldable pub taxable_amount : Invoice W → W
  taxable_amount inv = round_to_2 (sum_lines net_amount (f.negated inv.discount) inv.lines)

  -- the tax of the discount, which TotalTax subtracts
  unfoldable pub less_discount_tax : Invoice W → W → W
  less_discount_tax inv total =
      if f.is_above_nought inv.discount && f.is_above_nought inv.discount_tax_percent
      then f.sub total (round_to_2 (f.div (f.mul inv.discount inv.discount_tax_percent) f.hundred))
      else total

  -- Invoice.TotalTax
  unfoldable pub total_tax : Invoice W → W
  total_tax inv = round_to_2 (less_discount_tax inv (sum_lines tax_amount f.nought inv.lines))

  -- Invoice.TotalWithTax
  unfoldable pub total_with_tax : Invoice W → W
  total_with_tax inv = round_to_2 (f.add (taxable_amount inv) (total_tax inv))

module _ {ℓ} {W : Type ℓ} where
  -- Invoice.IsSimplified
  unfoldable pub is_simplified : Invoice W → Bool
  is_simplified inv = text_eq inv.sub_type (codes "0200000")

  -- Invoice.IsStandard
  unfoldable pub is_standard : Invoice W → Bool
  is_standard inv = text_eq inv.sub_type (codes "0100000")

  -- Invoice.profileID
  unfoldable pub profile_id : Invoice W → Text
  profile_id inv =
      if is_empty inv.profile_id
      then if is_standard inv then codes "reporting:1.0" else codes "reporting:1.0"
      else inv.profile_id

  -- deliveryDateStr
  unfoldable pub delivery_date_text : Invoice W → Text
  delivery_date_text inv = elim inv.delivery_date [ none ↦ inv.issue_date | some date ↦ date ]
