-- ===== src/Config/Taxpayers.antt =====
-- config/taxpayer.go: the data of a taxpayer, its defaults, and the settings made from it. What the
-- random sources answer is an argument.
use zatca_integration.Common.{
  ℕ, zero, suc, ◌-◌, ◌<◌, ◌≡◌, refl, false, not, Option, none, some, List, [], ◌∷◌, ◌++◌, any,
  length, length-append, ◌==◌, if◌then◌else◌, arith,
}
use zatca_integration.Text.{Text, codes, is_empty}
use zatca_integration.Text.Decimal.{format_nat, length-format_nat}
use zatca_integration.Errors.{Error, opaque}
use zatca_integration.Config.{Environment, CsrConfig, SellerInfo, Config}

-- Taxpayer
pub record Taxpayer : Type 0 where
  pub company_name : Text
  pub company_name_ar : Text
  pub vat_number : Text
  pub crn : Text
  pub branch_name : Text
  pub business_category : Text
  pub street : Text
  pub building : Text
  pub district : Text
  pub city : Text
  pub postal_code : Text
  pub invoice_type : Text
  pub location_code : Text
  pub country : Text
  pub tin : Text
  pub computer_number : Text

-- what crypto/rand and uuid.New answer: `number` is below 999999999, or `none` for an error
pub record Random : Type 0 where
  pub number : Option ℕ
  pub uuid : Text

abbrev zeros : ℕ → Text
zeros zero = []
zeros (suc n) = b'0' ∷ zeros n

-- generateTIN
unfoldable pub generate_tin : Option ℕ → Text
generate_tin none = codes "100000000"
generate_tin (some n) = zeros (9 - length (format_nat n)) ++ format_nat n

-- `if value == "" { value = other }`
abbrev pub or_default : Text → Text → Text
or_default value other = if is_empty value then other else value

-- applyDefaults
unfoldable pub apply_defaults : Random → Taxpayer → Taxpayer
apply_defaults r t = record t {
  country = or_default t.country (codes "SA");
  invoice_type = or_default t.invoice_type (codes "1100");
  tin = or_default t.tin (generate_tin r.number);
  computer_number = or_default t.computer_number r.uuid;
}

abbrev pub csr_of : Taxpayer → CsrConfig
csr_of t = record {
  common_name = codes "TST-" ++ (t.tin ++ b'-' ∷ t.vat_number);
  serial_number = codes "1-" ++ (t.company_name ++ (codes "|2-TST|3-" ++ t.computer_number));
  org_identifier = t.vat_number;
  org_unit = t.branch_name;
  org_name = t.company_name;
  country = t.country;
  invoice_type = t.invoice_type;
  location = t.location_code;
  business_category = t.business_category;
}

-- Taxpayer.CSR: the answer, and the taxpayer after the call
unfoldable pub csr : Random → Taxpayer → CsrConfig × Taxpayer
csr r t = let after = apply_defaults r t in (csr_of after, after)

abbrev pub seller_of : Taxpayer → SellerInfo
seller_of t = record {
  name = t.company_name;
  name_ar = t.company_name_ar;
  vat = t.vat_number;
  crn = t.crn;
  street = t.street;
  building = t.building;
  district = t.district;
  city = t.city;
  postal_code = t.postal_code;
  country = t.country;
}

-- Taxpayer.Seller
unfoldable pub seller : Random → Taxpayer → SellerInfo × Taxpayer
seller r t = let after = apply_defaults r t in (seller_of after, after)

-- Taxpayer.Config: the two calls, each with random numbers of its own
unfoldable pub config : Random → Random → Taxpayer → Environment → Text → Config × Taxpayer
config r s t env otp =
    let (requested, named) = csr r t in
    let (sold, after) = seller s named in
    (
      record {
        env = env;
        otp = otp;
        compliance_username = [];
        compliance_password = [];
        production_username = [];
        production_password = [];
        egs_id = [];
        csr = requested;
        seller = sold;
      },
      after,
    )

-- the table of Validate
abbrev pub required_fields : Taxpayer → List Text
required_fields t =
    t.company_name ∷ t.company_name_ar ∷ t.vat_number ∷ t.crn ∷ t.branch_name ∷ t.business_category
    ∷ t.street ∷ t.building ∷ t.district ∷ t.city ∷ t.postal_code ∷ t.location_code ∷ []

-- Taxpayer.Validate
unfoldable pub validate_taxpayer : Taxpayer → Error
validate_taxpayer t =
    if any is_empty (required_fields t)
    then some opaque
    else if not (length t.vat_number == 15)
    then some opaque
    else none

length-zeros : (n : ℕ) → length (zeros n) ≡ n
length-zeros zero = refl
length-zeros (suc n) = omega (arith, length-zeros n)

-- A generated TIN has nine digits, whatever number below 999999999 the random source answers, and
-- also where it fails.
pub generate_tin-length :
    (r : Option ℕ) → ((n : ℕ) → r ≡ some n → n < 999999999) → length (generate_tin r) ≡ 9
unfolding generate_tin
generate_tin-length none h = refl
generate_tin-length (some n) h = omega (
  arith,
  length-append (zeros (9 - length (format_nat n))) (format_nat n),
  length-zeros (9 - length (format_nat n)),
  length-format_nat n 8 (omega (arith, h n refl)),
)

no_empty-length : (t : Text) (n : ℕ) → length t ≡ suc n → is_empty t ≡ false
no_empty-length [] n h = absurd (omega (arith, h))
no_empty-length (c ∷ t) n h = refl

or_default-twice :
    (v a b : Text) → is_empty a ≡ false → or_default (or_default v a) b ≡ or_default v a
or_default-twice v a b h = ground (arith, h)

defaults_once :
    (r s : Random) (t : Taxpayer)
    → is_empty (generate_tin r.number) ≡ false
    → is_empty r.uuid ≡ false
    → apply_defaults s (apply_defaults r t) ≡ apply_defaults r t
unfolding apply_defaults
defaults_once r s t tin uuid =
    rw
      (
        or_default-twice t.country (codes "SA") (codes "SA") refl,
        or_default-twice t.invoice_type (codes "1100") (codes "1100") refl,
        or_default-twice t.tin (generate_tin r.number) (generate_tin s.number) tin,
        or_default-twice t.computer_number r.uuid s.uuid uuid,
      )
      refl

defaults-tin :
    (r : Random) (t : Taxpayer)
    → (apply_defaults r t).tin ≡ or_default t.tin (generate_tin r.number)
unfolding apply_defaults
defaults-tin r t = refl

defaults-computer_number :
    (r : Random) (t : Taxpayer)
    → (apply_defaults r t).computer_number ≡ or_default t.computer_number r.uuid
unfolding apply_defaults
defaults-computer_number r t = refl

common_name-defaults :
    (r : Random) (t : Taxpayer)
    → (csr_of (apply_defaults r t)).common_name
      ≡ codes "TST-" ++ ((apply_defaults r t).tin ++ b'-' ∷ t.vat_number)
unfolding apply_defaults
common_name-defaults r t = refl

serial_number-defaults :
    (r : Random) (t : Taxpayer)
    → (csr_of (apply_defaults r t)).serial_number
      ≡ codes "1-"
        ++ (t.company_name ++ (codes "|2-TST|3-" ++ (apply_defaults r t).computer_number))
unfolding apply_defaults
serial_number-defaults r t = refl

-- the settings and the taxpayer after the call name one identity
abbrev pub NamesOne : Random → Random → Taxpayer → Config × Taxpayer → Type 0
NamesOne r later t (settings, after) =
    (after.tin ≡ or_default t.tin (generate_tin r.number))
    × (after.computer_number ≡ or_default t.computer_number r.uuid)
    × (settings.csr.common_name ≡ codes "TST-" ++ (after.tin ++ b'-' ∷ t.vat_number))
    × (settings.csr.serial_number
        ≡ codes "1-" ++ (t.company_name ++ (codes "|2-TST|3-" ++ after.computer_number)))
    × (settings.csr.org_identifier ≡ settings.seller.vat)
    × (settings.csr.org_name ≡ settings.seller.name)
    × (settings.csr.country ≡ settings.seller.country)
    × (apply_defaults later after ≡ after)

-- The CSR that Config makes carries the TIN and the computer number of the taxpayer after the call,
-- the given ones or else those generated first, and the VAT number, the company and the country of its
-- seller. Setting defaults once more changes nothing, whatever the random sources answer then, so a
-- later call names the same identity. The first answer of the random sources is assumed to be a number
-- below 999999999, or an error, and a text that is not empty.
pub config-Stable :
    (r s later : Random) (t : Taxpayer) (env : Environment) (otp : Text)
    → ((n : ℕ) → r.number ≡ some n → n < 999999999)
    → is_empty r.uuid ≡ false
    → NamesOne r later t (config r s t env otp)
unfolding config csr seller
config-Stable r s later t env otp small named =
    let tin : is_empty (generate_tin r.number) ≡ false =
      no_empty-length (generate_tin r.number) 8 (generate_tin-length r.number small) in
    rw (defaults_once r s t tin named) (
      defaults-tin r t,
      defaults-computer_number r t,
      common_name-defaults r t,
      serial_number-defaults r t,
      refl,
      refl,
      refl,
      defaults_once r later t tin named,
    )
