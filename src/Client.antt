-- ===== src/Client.antt =====
-- client/client.go: the requests to ZATCA and what becomes of their answers. JSON, net/http and base64
-- are parameters. Log lines are left out.
pub mod Exchange
use zatca_integration.Common.{
  ℕ, Bool, true, false, not, ◌&&◌, ◌||◌, Option, none, some, List, [], ◌∷◌, ◌++◌, ltb, leb,
  if◌then◌else◌,
}
use zatca_integration.Text.{Text, codes, text_eq, is_empty}
use zatca_integration.Errors.{Result, ok, err}
use zatca_integration.Config.{Config, base_url}
use zatca_integration.Crypto.Qr.{Base64Library}
use zatca_integration.Processor.Answer.{Detail, InvoiceResponse, ApiError}

-- InvoiceRequest
pub record InvoiceRequest : Type 0 where
  pub invoice_hash : Text
  pub uuid : Text
  pub invoice : Text

-- CSIDResponse
pub record CsidResponse : Type 0 where
  pub request_id : Text
  pub disposition_message : Text
  pub binary_security_token : Text
  pub secret : Text
  pub errors : List Detail

-- the values that are sent as JSON
pub data Body : Type 0 where
  csid_request : Text → Body
  production_csid_request : Text → Body
  renewal_request : Text → Body
  submission : InvoiceRequest → Body

-- http.Request; a name stands at most once among the headers
pub record Request : Type 0 where
  pub verb : Text
  pub url : Text
  pub headers : List (Text × Text)
  pub body : Text

-- http.Response; `body` is `none` when it cannot be read
pub record Response : Type 0 where
  pub status : ℕ
  pub body : Option Text

pub record ClientLibrary : Type 0 where
  pub encode : Body → Result Text
  pub builds : Text → Text → Bool
  pub send : Request → Option Response
  pub decode_csid : Text → Option CsidResponse
  pub decode_invoice : Text → Option InvoiceResponse
  pub base64 : Base64Library

-- a result, an APIError, or any other error
pub data Answer {ℓ} (A : Type ℓ) : Type ℓ where
  answered : A → Answer A
  refused : ApiError → Answer A
  failed : Answer A

-- Header.Set
unfoldable pub set_header : Text → Text → List (Text × Text) → List (Text × Text)
set_header name value [] = (name, value) ∷ []
set_header name value ((n, v) ∷ rest) =
    let later = set_header name value rest in
    if text_eq n name then (n, value) ∷ rest else (n, v) ∷ later

-- the headers of newJSONRequest
abbrev pub json_headers : List (Text × Text)
json_headers =
    (codes "Content-Type", codes "application/json")
    ∷ (codes "Accept", codes "application/json")
    ∷ (codes "Accept-Version", codes "V2")
    ∷ (codes "Accept-Language", codes "en")
    ∷ []

-- the value of the Authorization header
abbrev pub basic : Base64Library → Text → Text → Text
basic base64 username password =
    codes "Basic " ++ base64.encode (username ++ (codes ":" ++ password))

abbrev set_auth : Base64Library → Text → Text → Request → Request
set_auth base64 username password req =
    if not (is_empty username) && not (is_empty password)
    then record req {
      headers = set_header (codes "Authorization") (basic base64 username password) req.headers;
    }
    else req

-- setComplianceAuth
unfoldable pub set_compliance_auth : Base64Library → Config → Request → Request
set_compliance_auth base64 cfg = set_auth base64 cfg.compliance_username cfg.compliance_password

-- setProductionAuth
unfoldable pub set_production_auth : Base64Library → Config → Request → Request
set_production_auth base64 cfg = set_auth base64 cfg.production_username cfg.production_password

abbrev pub with_header : Text → Text → Request → Request
with_header name value req = record req { headers = set_header name value req.headers }

abbrev pub empty_invoice_response : InvoiceResponse
empty_invoice_response = record {
  status = [];
  clearance_status = [];
  reporting_status = [];
  errors = [];
  warnings = [];
  validation = none;
}

abbrev empty_csid_response : CsidResponse
empty_csid_response = record {
  request_id = [];
  disposition_message = [];
  binary_security_token = [];
  secret = [];
  errors = [];
}

module _ (library : ClientLibrary) where
  -- newJSONRequest
  unfoldable pub new_json_request : Text → Text → Body → Result Request
  new_json_request verb url body = elim (library.encode body) [
    | err e ↦ err e
    | ok text ↦
        if library.builds verb url
        then ok (record { verb = verb; url = url; headers = json_headers; body = text })
        else err []
  ]

  -- the APIError of an answer
  abbrev pub api_error : ℕ → Text → ApiError
  api_error status body = record {
    status_code = status;
    body = body;
    response = if is_empty body then none else library.decode_invoice body;
  }

  abbrev pub decoded {ℓ} : {A : Type ℓ} → Option A → Answer A
  decoded none = failed
  decoded (some value) = answered value

  abbrev pub read_answer {ℓ} : {A : Type ℓ} → (Text → Option A) → A → ℕ → Option Text → Answer A
  read_answer decode unset status none = failed
  read_answer decode unset status (some body) =
      if ltb status 200 || leb 300 status
      then refused (api_error status body)
      else if is_empty body
      then answered unset
      else decoded (decode body)

  -- do; `unset` is the result before it
  unfoldable pub do_request {ℓ} : {A : Type ℓ} → (Text → Option A) → A → Request → Answer A
  do_request decode unset req = elim (library.send req) [
    | none ↦ failed
    | some response ↦ read_answer decode unset response.status response.body
  ]

  abbrev pub call {ℓ} :
      {A : Type ℓ} → (Text → Option A) → A → (Request → Request) → Result Request → Answer A
  call decode unset prepare (err e) = failed
  call decode unset prepare (ok req) = do_request decode unset (prepare req)

  -- ComplianceCSID
  unfoldable pub compliance_csid : Config → Text → Answer CsidResponse
  compliance_csid cfg csr =
      call library.decode_csid empty_csid_response (with_header (codes "OTP") cfg.otp) (
        new_json_request (codes "POST") (base_url cfg.env ++ codes "/compliance")
          (csid_request csr))

  -- ComplianceCheck
  unfoldable pub compliance_check : Config → InvoiceRequest → Answer InvoiceResponse
  compliance_check cfg invoice =
      call library.decode_invoice empty_invoice_response (set_compliance_auth library.base64 cfg) (
        new_json_request (codes "POST") (base_url cfg.env ++ codes "/compliance/invoices")
          (submission invoice))

  -- ProductionCSID
  unfoldable pub production_csid : Config → Text → Answer CsidResponse
  production_csid cfg compliance_request_id =
      call library.decode_csid empty_csid_response (set_compliance_auth library.base64 cfg) (
        new_json_request (codes "POST") (base_url cfg.env ++ codes "/production/csids")
          (production_csid_request compliance_request_id))

  -- RenewProductionCSID
  unfoldable pub renew_production_csid : Config → Text → Answer CsidResponse
  renew_production_csid cfg csr =
      call library.decode_csid empty_csid_response
        (λ req. with_header (codes "OTP") cfg.otp (set_production_auth library.base64 cfg req))
        (new_json_request (codes "PATCH") (base_url cfg.env ++ codes "/production/csids")
          (renewal_request csr))

  -- ReportInvoice
  unfoldable pub report_invoice : Config → InvoiceRequest → Answer InvoiceResponse
  report_invoice cfg invoice =
      call library.decode_invoice empty_invoice_response
        (λ req.
          with_header (codes "Clearance-Status") (codes "0")
            (set_production_auth library.base64 cfg req))
        (new_json_request (codes "POST") (base_url cfg.env ++ codes "/invoices/reporting/single")
          (submission invoice))

  -- ClearInvoice
  unfoldable pub clear_invoice : Config → InvoiceRequest → Answer InvoiceResponse
  clear_invoice cfg invoice =
      call library.decode_invoice empty_invoice_response
        (λ req.
          with_header (codes "Clearance-Status") (codes "1")
            (set_production_auth library.base64 cfg req))
        (new_json_request (codes "POST") (base_url cfg.env ++ codes "/invoices/clearance/single")
          (submission invoice))
