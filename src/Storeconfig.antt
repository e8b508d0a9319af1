-- ===== src/Storeconfig.antt =====
-- storeconfig/storeconfig.go: the credentials and seller data of a branch, and its status with ZATCA.
-- The row of the query, and the answer of the HTTP request, are arguments.
use zatca_integration.Common.{
  true, ◌↔◌, ◌≢◌, arith, ℕ, length, ◌≡◌, refl, Bool, not, ◌&&◌, ◌||◌, Option, none, some, List, [],
  if◌then◌else◌, arith,
}
use zatca_integration.Common.Int.{ℤ}
use zatca_integration.Text.{Text, is_empty}
use zatca_integration.Errors.{is_ok, Result, ok, err, opaque}
use zatca_integration.Crypto.Qr.{Base64Library}
use zatca_integration.Secutil.{Gcm, GcmLibrary, Key, encrypt, decrypt}
use zatca_integration.Secutil.Laws.{Reads, decrypt-encrypted}
use zatca_integration.Config.{Config, base_url}

-- BranchZATCA
pub record BranchZatca : Type 0 where
  pub branch_id : ℤ
  pub store_id : ℤ
  pub company_name : Text
  pub company_name_ar : Text
  pub vat_reg : Text
  pub crn : Text
  pub branch_name : Text
  pub street : Text
  pub building : Text
  pub district : Text
  pub city : Text
  pub postal_code : Text
  pub country : Text
  pub production_username : Text
  pub production_password : Text
  pub private_key : Text
  pub certificate : Text
  pub egs_id : Text

abbrev with_password : BranchZatca → Result Text → Result BranchZatca
with_password b (err e) = err e
with_password b (ok password) =
    ok (record b { production_password = password; certificate = b.production_username })

abbrev with_key : (Text → Result Text) → BranchZatca → Result Text → Result BranchZatca
with_key open_value b (err e) = err e
with_key open_value b (ok key) =
    with_password (record b { private_key = key }) (open_value b.production_password)

-- LoadBranchZATCA: `row` is what the query scans, `none` for an error
unfoldable pub load_branch : (Text → Result Text) → Option BranchZatca → Result BranchZatca
load_branch open_value none = err opaque
load_branch open_value (some b) = with_key open_value b (open_value b.private_key)

-- IsRegistered
unfoldable pub is_registered : BranchZatca → Bool
is_registered b = not (is_empty b.production_username) && not (is_empty b.production_password)

-- ToConfig
unfoldable pub to_config : BranchZatca → Config → Config
to_config b base = record {
  env = base.env;
  otp = base.otp;
  compliance_username = [];
  compliance_password = [];
  production_username = b.production_username;
  production_password = b.production_password;
  egs_id = b.egs_id;
  csr = record {
    common_name = base.csr.common_name;
    serial_number = base.csr.serial_number;
    org_identifier = b.vat_reg;
    org_unit = b.branch_name;
    org_name = b.company_name;
    country = b.country;
    invoice_type = base.csr.invoice_type;
    location = base.csr.location;
    business_category = base.csr.business_category;
  };
  seller = record {
    name = b.company_name;
    name_ar = b.company_name_ar;
    vat = b.vat_reg;
    crn = b.crn;
    street = b.street;
    building = b.building;
    district = b.district;
    city = b.city;
    postal_code = b.postal_code;
    country = b.country;
  };
}

abbrev decoded_or : Text → Option Text → Text
decoded_or stored none = stored
decoded_or stored (some decoded) = if is_empty decoded then stored else decoded

-- CertificatePEM
unfoldable pub certificate_pem : Base64Library → BranchZatca → Text
certificate_pem base64 b =
    if is_empty b.certificate then [] else decoded_or b.certificate (base64.decode b.certificate)

-- ZATCAStatus
pub data ZatcaStatus : Type 0 where
  status_not_registered : ZatcaStatus
  status_registered : ZatcaStatus
  status_connected : ZatcaStatus
  status_error : ZatcaStatus

-- BranchStatus; the text of a message that prints an error is not modelled
pub record BranchStatus : Type 0 where
  pub branch_id : ℤ
  pub store_id : ℤ
  pub branch_name : Text
  pub company : Text
  pub vat : Text
  pub status : ZatcaStatus

-- the body of the loop of LoadAllBranchStatuses, on a row and its two credentials
unfoldable pub registration_status : BranchStatus → Text → Text → BranchStatus
registration_status row username password =
    if is_empty username || is_empty password
    then (record row { status = status_not_registered })
    else (record row { status = status_registered })

-- the request of CheckZATCAConnection: whether it is built, and whether an answer comes, for a URL
pub record HttpLibrary : Type 0 where
  pub builds : Text → Bool
  pub answers : Text → Bool

abbrev with_status : BranchStatus → ZatcaStatus → BranchStatus
with_status row s = record row { status = s }

-- the request of CheckZATCAConnection
abbrev pub ping : HttpLibrary → Text → ZatcaStatus
ping http url =
    if not (http.builds url)
    then status_error
    else if not (http.answers url)
    then status_error
    else status_connected

abbrev pub ping_loaded : HttpLibrary → Config → Result BranchZatca → ZatcaStatus
ping_loaded http base (err e) = status_error
ping_loaded http base (ok b) = ping http (base_url (to_config b base).env)

-- CheckZATCAConnection; `loaded` is what LoadBranchZATCA answers
unfoldable pub check_connection :
    HttpLibrary → Config → Result BranchZatca → BranchStatus → BranchStatus
check_connection http base loaded row = elim row.status [
  | status_not_registered ↦ row
  | status_registered ↦ with_status row (ping_loaded http base loaded)
  | status_connected ↦ with_status row (ping_loaded http base loaded)
  | status_error ↦ with_status row (ping_loaded http base loaded)
]

-- What LoadBranchZATCA makes of a row whose private key and password were encrypted with its key,
-- each with a nonce of its own: both are decrypted, the certificate is the user name, nothing else
-- changes, and the branch counts as registered exactly as before it was stored.
pub load_branch-encrypt :
    (base64 : Base64Library) (library : GcmLibrary) (random other : ℕ → Option (List ℕ)) (gcm : Gcm)
    (k : Key) (nonce later : List ℕ) (b : BranchZatca) (key_text password_text : Text)
    → Reads base64 gcm
    → library.new_gcm k.raw ≡ some gcm
    → random gcm.nonce_size ≡ some nonce
    → other gcm.nonce_size ≡ some later
    → length nonce ≡ gcm.nonce_size
    → length later ≡ gcm.nonce_size
    → encrypt base64 library random k b.private_key ≡ ok key_text
    → encrypt base64 library other k b.production_password ≡ ok password_text
    → (loaded : BranchZatca) × (load_branch
          (decrypt base64 library k)
          (some (record b { private_key = key_text; production_password = password_text }))
        ≡ ok loaded)
      × (loaded ≡ record b { certificate = b.production_username })
      × (is_registered loaded ≡ is_registered b)
unfolding load_branch is_registered
load_branch-encrypt base64 library random other gcm k nonce later b key_text password_text reads
      accepts source next len later_len key_e password_e =
    let key : decrypt base64 library k key_text ≡ ok b.private_key =
      decrypt-encrypted base64 library random gcm k nonce b.private_key key_text reads accepts
        source len key_e in
    let password : decrypt base64 library k password_text ≡ ok b.production_password =
      decrypt-encrypted base64 library other gcm k later b.production_password password_text reads
        accepts next later_len password_e in
    (record b { certificate = b.production_username }, rw (key, password) refl, refl, refl)

-- the GET of the base URL is built and answered
abbrev pub IsReached : HttpLibrary → Config → Result BranchZatca → Type 0
IsReached http base loaded =
    (is_ok loaded ≡ true)
    × (http.builds (base_url base.env) ≡ true)
    × (http.answers (base_url base.env) ≡ true)

-- The check changes the status of a branch, and its message, which is not modelled, and nothing else.
-- A branch is reported as not registered exactly when it was. Of the others, one is reported as
-- connected exactly when its row is loaded and the request to the base URL of the environment is built
-- and answered, and as an error otherwise.
pub check_connection_iff :
    (http : HttpLibrary) (base : Config) (loaded : Result BranchZatca) (row : BranchStatus)
    → (check_connection http base loaded row
        ≡ record row { status = (check_connection http base loaded row).status })
      × (((check_connection http base loaded row).status ≡ status_not_registered)
          ↔ (row.status ≡ status_not_registered))
      × (((check_connection http base loaded row).status ≡ status_connected)
          ↔ ((row.status ≢ status_not_registered) × IsReached http base loaded))
      × (((check_connection http base loaded row).status ≡ status_error)
          ↔ ((row.status ≢ status_not_registered) × (¬ IsReached http base loaded)))
unfolding check_connection to_config
check_connection_iff http base (err e) row =
    (ground arith, ground arith, ground arith, ground arith)
check_connection_iff http base (ok b) row = (ground arith, ground arith, ground arith, ground arith)
