-- ===== src/Processor/Onboard.antt =====
-- processor/onboard.go: the registration of a branch with ZATCA. The table branch_zatca_config is a list
-- of rows, NULL is the empty text, and a statement that fails changes nothing. The joined row of company,
-- branch and store, the SDK, ZATCA, encryption and random numbers are what OnboardServices answers.
pub mod Endings
use zatca_integration.Common.{
  ℕ, ◌≡◌, Bool, true, false, not, Option, none, some, List, [], ◌∷◌, find_row, if◌then◌else◌,
}
use zatca_integration.Common.Int.{ℤ, ◌==ℤ◌}
use zatca_integration.Text.{Text, is_empty}
use zatca_integration.Errors.{Error, Failure, Result, ok, err, opaque}
use zatca_integration.Config.{Environment, CsrConfig, Config}
use zatca_integration.Config.Taxpayers.{Taxpayer, Random, or_default, config, validate_taxpayer}

-- a row of branch_zatca_config
pub record ConfigRow : Type 0 where
  pub branch_id : ℤ
  pub org_id : Text
  pub org_unit : Text
  pub org_name : Text
  pub country : Text
  pub location : Text
  pub business_category : Text
  pub seller_vat : Text
  pub seller_crn : Text
  pub street : Text
  pub building : Text
  pub district : Text
  pub postal_code : Text
  pub csr : Text
  pub private_key : Text
  pub tin : Text
  pub computer_number : Text
  pub compliance_cert : Text
  pub compliance_secret : Text
  pub compliance_request_id : Text
  pub production_username : Text
  pub production_password : Text
  pub production_request_id : Text

-- the columns of company, branch and store that the query joins
pub record CompanyRow : Type 0 where
  pub name : Text
  pub name_ar : Text
  pub vat : Text
  pub crn : Text
  pub branch_name : Text
  pub street : Text
  pub building : Text
  pub district : Text
  pub city : Text
  pub postal_code : Text
  pub country : Text
  pub business_category : Text

-- the table, and the CSRs that were handed to ZATCA
pub record OnboardState : Type 0 where
  pub rows : List ConfigRow
  pub submitted : List Text

-- zatca.OnboardResult
pub record OnboardResult : Type 0 where
  pub compliance_cert : Text
  pub compliance_secret : Text
  pub compliance_request_id : Text
  pub production_cert : Text
  pub production_secret : Text
  pub production_request_id : Text

-- what the rest of the program and the world answer; `encrypt` also takes the number of the call, for
-- its nonce
pub record OnboardServices : Type 0 where
  pub env : Environment
  pub company : Option CompanyRow
  pub decrypt : Text → Result Text
  pub encrypt : ℕ → Text → Result Text
  pub generate_csr : CsrConfig → Result (Text × Text)
  pub onboard_with_csr : Text → Text → Result OnboardResult
  pub saves_csr : Bool
  pub saves_credentials : Bool
  pub first_random : Random
  pub second_random : Random

-- onboardBranchData
pub record OnboardData : Type 0 where
  pub company_name : Text
  pub company_name_ar : Text
  pub vat_reg : Text
  pub crn : Text
  pub branch_name : Text
  pub street : Text
  pub building : Text
  pub district : Text
  pub city : Text
  pub postal_code : Text
  pub country : Text
  pub business_cat : Text
  pub csr_location : Text
  pub csr_tin : Text
  pub csr_computer_number : Text
  pub existing_csr : Text
  pub existing_private_key : Text
  pub compliance_cert : Text

abbrev pub blank_row : ℤ → ConfigRow
blank_row branch_id = record {
  branch_id = branch_id;
  org_id = [];
  org_unit = [];
  org_name = [];
  country = [];
  location = [];
  business_category = [];
  seller_vat = [];
  seller_crn = [];
  street = [];
  building = [];
  district = [];
  postal_code = [];
  csr = [];
  private_key = [];
  tin = [];
  computer_number = [];
  compliance_cert = [];
  compliance_secret = [];
  compliance_request_id = [];
  production_username = [];
  production_password = [];
  production_request_id = [];
}

abbrev pub of_branch : ℤ → ConfigRow → Bool
of_branch branch_id row = row.branch_id ==ℤ branch_id

-- the LEFT JOIN: the row of the branch, or one of NULLs
unfoldable pub row_of : ℤ → List ConfigRow → ConfigRow
row_of branch_id [] = blank_row branch_id
row_of branch_id (row ∷ rows) = if of_branch branch_id row then row else row_of branch_id rows

-- INSERT ... ON DUPLICATE KEY UPDATE
unfoldable pub upsert : ℤ → (ConfigRow → ConfigRow) → List ConfigRow → List ConfigRow
upsert branch_id change [] = change (blank_row branch_id) ∷ []
upsert branch_id change (row ∷ rows) =
    let rest = upsert branch_id change rows in
    if of_branch branch_id row then change row ∷ rows else row ∷ rest

-- the record that loadOnboardBranch builds; `pick` is or_default
unfoldable pub picked : CompanyRow → ConfigRow → Text → OnboardData
picked c row private_key = record {
  company_name = or_default row.org_name c.name;
  company_name_ar = c.name_ar;
  vat_reg = or_default row.seller_vat c.vat;
  crn = or_default row.seller_crn c.crn;
  branch_name = or_default row.org_unit c.branch_name;
  business_cat = or_default row.business_category c.business_category;
  street = or_default row.street c.street;
  building = or_default row.building c.building;
  district = or_default row.district c.district;
  city = c.city;
  postal_code = or_default row.postal_code c.postal_code;
  country = or_default row.country c.country;
  csr_location = row.location;
  csr_tin = row.tin;
  csr_computer_number = row.computer_number;
  existing_csr = row.csr;
  existing_private_key = private_key;
  compliance_cert = row.compliance_cert;
}

abbrev with_private_key : CompanyRow → ConfigRow → Result Text → Result OnboardData
with_private_key c row (err e) = err opaque
with_private_key c row (ok private_key) = ok (picked c row private_key)

-- loadOnboardBranch
unfoldable pub load_onboard_branch : OnboardServices → ConfigRow → Result OnboardData
load_onboard_branch sv row = elim sv.company [
  | none ↦ err opaque
  | some c ↦
      if is_empty row.private_key
      then ok (picked c row [])
      else with_private_key c row (sv.decrypt row.private_key)
]

-- onboardBranchData.taxpayer
unfoldable pub taxpayer_of : OnboardData → Taxpayer
taxpayer_of d = record {
  company_name = d.company_name;
  company_name_ar = d.company_name_ar;
  vat_number = d.vat_reg;
  crn = d.crn;
  branch_name = d.branch_name;
  business_category = d.business_cat;
  street = d.street;
  building = d.building;
  district = d.district;
  city = d.city;
  postal_code = d.postal_code;
  country = d.country;
  location_code = d.csr_location;
  invoice_type = [];
  tin = [];
  computer_number = [];
}

-- the identity of an earlier attempt is used again
unfoldable pub with_identity : OnboardData → Taxpayer → Taxpayer
with_identity d t = record t {
  tin = if is_empty d.csr_tin then t.tin else d.csr_tin;
  computer_number =
      if is_empty d.csr_computer_number then t.computer_number else d.csr_computer_number;
}

abbrev pub with_csr : CsrConfig → Text → Text → Taxpayer → ConfigRow → ConfigRow
with_csr c csr private_key t row = record row {
  org_id = c.org_identifier;
  org_unit = c.org_unit;
  org_name = c.org_name;
  country = c.country;
  location = c.location;
  business_category = c.business_category;
  csr = csr;
  private_key = private_key;
  tin = t.tin;
  computer_number = t.computer_number;
}

-- saveOnboardCSR
unfoldable pub save_onboard_csr :
    ℤ → CsrConfig → Text → Text → Taxpayer → List ConfigRow → List ConfigRow
save_onboard_csr branch_id c csr private_key t = upsert branch_id (with_csr c csr private_key t)

-- the encrypted values of the last statement
pub record Sealed : Type 0 where
  pub private_key : Text
  pub compliance_secret : Text
  pub production_secret : Text

abbrev sealed_production : Text → Text → Result Text → Result Sealed
sealed_production key secret (err e) = err e
sealed_production key secret (ok production) =
    ok (record { private_key = key; compliance_secret = secret; production_secret = production })

abbrev sealed_secrets : OnboardServices → OnboardResult → Text → Result Text → Result Sealed
sealed_secrets sv r key (err e) = err e
sealed_secrets sv r key (ok secret) =
    sealed_production key secret (sv.encrypt 3 r.production_secret)

abbrev sealed_key : OnboardServices → OnboardResult → Result Text → Result Sealed
sealed_key sv r (err e) = err e
sealed_key sv r (ok key) = sealed_secrets sv r key (sv.encrypt 2 r.compliance_secret)

-- the three encryptions
unfoldable pub seal_all : OnboardServices → OnboardResult → Text → Result Sealed
seal_all sv r private_key = sealed_key sv r (sv.encrypt 1 private_key)

abbrev pub with_credentials :
    CsrConfig → OnboardData → Text → OnboardResult → Sealed → ConfigRow → ConfigRow
with_credentials c d csr r sealed row = record row {
  org_id = c.org_identifier;
  org_unit = c.org_unit;
  org_name = c.org_name;
  country = c.country;
  location = c.location;
  business_category = c.business_category;
  seller_vat = d.vat_reg;
  seller_crn = d.crn;
  street = d.street;
  building = d.building;
  district = d.district;
  postal_code = d.postal_code;
  csr = csr;
  private_key = sealed.private_key;
  compliance_cert = r.compliance_cert;
  compliance_secret = sealed.compliance_secret;
  compliance_request_id = r.compliance_request_id;
  production_username = r.production_cert;
  production_password = sealed.production_secret;
  production_request_id = r.production_request_id;
}

-- the last statement
unfoldable pub save_credentials :
    ℤ → CsrConfig → OnboardData → Text → OnboardResult → Sealed → List ConfigRow → List ConfigRow
save_credentials branch_id c d csr r sealed = upsert branch_id (with_credentials c d csr r sealed)

module _ (sv : OnboardServices) (branch_id : ℤ) where
  abbrev pub store_result :
      CsrConfig
      → OnboardData
      → Text
      → OnboardResult
      → Result Sealed
      → OnboardState
      → Error × OnboardState
  store_result c d csr r (err e) s = (some e, s)
  store_result c d csr r (ok sealed) s =
      if not sv.saves_credentials
      then (some opaque, s)
      else (none, record s { rows = save_credentials branch_id c d csr r sealed s.rows })

  abbrev pub use_result :
      CsrConfig
      → OnboardData
      → Text
      → Text
      → Result OnboardResult
      → OnboardState
      → Error × OnboardState
  use_result c d csr key (err e) s = (some e, s)
  use_result c d csr key (ok r) s = store_result c d csr r (seal_all sv r key) s

  -- the CSR is saved, and then handed to ZATCA
  abbrev pub submit :
      CsrConfig
      → OnboardData
      → Taxpayer
      → Text
      → Text
      → Result Text
      → OnboardState
      → Error × OnboardState
  submit c d t csr key (err e) s = (some e, s)
  submit c d t csr key (ok sealed) s =
      if not sv.saves_csr
      then (some opaque, s)
      else use_result c d csr key (sv.onboard_with_csr csr key) (record {
        rows = save_onboard_csr branch_id c csr sealed t s.rows;
        submitted = csr ∷ s.submitted;
      })

  abbrev pub use_csr :
      CsrConfig
      → OnboardData
      → Taxpayer
      → Result (Text × Text)
      → OnboardState
      → Error × OnboardState
  use_csr c d t (err e) s = (some e, s)
  use_csr c d t (ok (csr, key)) s = submit c d t csr key (sv.encrypt 0 key) s

  -- the taxpayer and the settings of an attempt
  unfoldable pub identity : OnboardData → Text → Config × Taxpayer
  identity d otp =
      config sv.first_random sv.second_random (with_identity d (taxpayer_of d)) sv.env otp

  abbrev pub onboard_valid : OnboardData → Text → OnboardState → Error × OnboardState
  onboard_valid d otp s =
      let (cfg, t) = identity d otp in
      if not (is_empty d.compliance_cert)
      then (some opaque, s)
      else use_csr cfg.csr d t (sv.generate_csr cfg.csr) s

  abbrev pub onboard_data : OnboardData → Text → OnboardState → Error × OnboardState
  onboard_data d otp s = elim (validate_taxpayer (taxpayer_of d)) [
    | some e ↦ (some e, s)
    | none ↦ if is_empty d.csr_location then (some opaque, s) else onboard_valid d otp s
  ]

  abbrev pub onboard_loaded : Result OnboardData → Text → OnboardState → Error × OnboardState
  onboard_loaded (err e) otp s = (some e, s)
  onboard_loaded (ok d) otp s = onboard_data d otp s

  -- OnboardBranch
  unfoldable pub onboard_branch : Text → OnboardState → Error × OnboardState
  onboard_branch otp s = onboard_loaded (load_onboard_branch sv (row_of branch_id s.rows)) otp s
