-- ===== src/Config.antt =====
-- config/config.go: the settings of the program for one environment.
pub mod Taxpayers
pub mod Nats
pub mod Dsn
use zatca_integration.Common.{Bool, ◌||◌, if◌then◌else◌}
use zatca_integration.Text.{Text, codes, text_eq}
use zatca_integration.Errors.{Result, ok, err, opaque}

-- Environment: any text, of which three are known
abbrev pub Environment : Type 0
Environment = Text

abbrev pub sandbox : Environment
sandbox = codes "sandbox"

abbrev pub simulation : Environment
simulation = codes "simulation"

abbrev pub production : Environment
production = codes "production"

-- Environment.BaseURL
unfoldable pub base_url : Environment → Text
base_url e =
    if text_eq e sandbox
    then codes "https://gw-fatoora.zatca.gov.sa/e-invoicing/developer-portal"
    else if text_eq e simulation
    then codes "https://gw-fatoora.zatca.gov.sa/e-invoicing/simulation"
    else if text_eq e production
    then codes "https://gw-fatoora.zatca.gov.sa/e-invoicing/core"
    else codes "https://gw-fatoora.zatca.gov.sa/e-invoicing/developer-portal"

-- CSRConfig
pub record CsrConfig : Type 0 where
  pub common_name : Text
  pub serial_number : Text
  pub org_identifier : Text
  pub org_unit : Text
  pub org_name : Text
  pub country : Text
  pub invoice_type : Text
  pub location : Text
  pub business_category : Text

-- SellerInfo
pub record SellerInfo : Type 0 where
  pub name : Text
  pub name_ar : Text
  pub vat : Text
  pub crn : Text
  pub street : Text
  pub building : Text
  pub district : Text
  pub city : Text
  pub postal_code : Text
  pub country : Text

-- Config
pub record Config : Type 0 where
  pub env : Environment
  pub otp : Text
  pub compliance_username : Text
  pub compliance_password : Text
  pub production_username : Text
  pub production_password : Text
  pub egs_id : Text
  pub csr : CsrConfig
  pub seller : SellerInfo

-- ParseEnv
unfoldable pub parse_env : Text → Result Environment
parse_env s =
    if text_eq s sandbox || text_eq s simulation || text_eq s production then ok s else err opaque
