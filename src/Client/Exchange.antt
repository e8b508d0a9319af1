-- ===== src/Client/Exchange.antt =====
-- client/client.go: what the result of a submission says of the exchange with ZATCA.
use zatca_integration.Common.{
  ℕ, ◌≤◌, ◌<◌, ◌≡◌, refl, ◌⊎◌, inl, inr, Bool-cases, not, ◌&&◌, ◌||◌, Option, none, some, List, [],
  ◌∷◌, ◌++◌, ltb, leb, arith, if◌then◌else◌,
}
use zatca_integration.Text.{Text, codes, text_eq, is_empty}
use zatca_integration.Errors.{Result, ok, err}
use zatca_integration.Config.{Config, base_url}
use zatca_integration.Processor.Answer.{InvoiceResponse}
use zatca_integration.Client.{
  InvoiceRequest, submission, Request, Response, ClientLibrary, Answer, answered, refused, failed,
  set_header, basic, set_production_auth, json_headers, empty_invoice_response, new_json_request,
  api_error, read_answer, decoded, do_request, call, with_header, report_invoice, clear_invoice,
}

-- Header.Get of a name in its canonical form
unfoldable pub header : Text → List (Text × Text) → Option Text
header name [] = none
header name ((n, v) ∷ rest) =
    let later = header name rest in if text_eq n name then some v else later

-- the header that the production credentials give, where both are set
abbrev pub production_authorization : ClientLibrary → Config → Option Text
production_authorization library cfg =
    if not (is_empty cfg.production_username) && not (is_empty cfg.production_password)
    then some (basic library.base64 cfg.production_username cfg.production_password)
    else none

module _ (library : ClientLibrary) (cfg : Config) (path clearance : Text)
    (invoice : InvoiceRequest) where
  -- the request of the invoice to a path
  pub record IsSubmission (req : Request) : Type 0 where
    pub posts : req.verb ≡ codes "POST"
    pub goes_to : req.url ≡ base_url cfg.env ++ path
    pub carries : library.encode (submission invoice) ≡ ok req.body
    pub authorized :
        header (codes "Authorization") req.headers ≡ production_authorization library cfg
    pub marked : header (codes "Clearance-Status") req.headers ≡ some clearance

  -- an exchange that ended with a status and a text
  pub record Exchanged (status : ℕ) (text : Text) : Type 0 where
    pub request : Request
    pub response : Response
    pub submits : IsSubmission request
    pub sent : library.send request ≡ some response
    pub status_is : response.status ≡ status
    pub text_is : response.body ≡ some text

  -- the result that a text stands for
  abbrev Reads : Text → InvoiceResponse → Type 0
  Reads text r =
      ((text ≡ []) × (r ≡ empty_invoice_response)) ⊎ (library.decode_invoice text ≡ some r)

  pub data Ends : Answer InvoiceResponse → Type 0 where
    accepted_by :
        (status : ℕ) (text : Text) (r : InvoiceResponse)
        → Exchanged status text
        → 200 ≤ status
        → status < 300
        → Reads text r
        → Ends (answered r)
    refused_by :
        (status : ℕ) (text : Text)
        → Exchanged status text
        → (status < 200) ⊎ (300 ≤ status)
        → Ends (refused (api_error library status text))
    without_answer : Ends failed

  decoded-Ends :
      (status : ℕ) (text : Text)
      → Exchanged status text
      → 200 ≤ status
      → status < 300
      → (r : Option InvoiceResponse) → library.decode_invoice text ≡ r
      → Ends (decoded library r)
  decoded-Ends status text x low high none e = without_answer
  decoded-Ends status text x low high (some r) e = accepted_by status text r x low high (inr e)

  text-Ends :
      (status : ℕ) (text : Text)
      → Exchanged status text
      → 200 ≤ status
      → status < 300
      → Ends (
          if is_empty text
          then answered empty_invoice_response
          else decoded library (library.decode_invoice text))
  text-Ends status [] x low high =
      accepted_by status [] empty_invoice_response x low high (inl (refl, refl))
  text-Ends status (c ∷ s) x low high = decoded-Ends status (c ∷ s) x low high _ refl

  read_answer-Ends :
      (req : Request)
      → IsSubmission req
      → (response : Response) → library.send req ≡ some response
      → (body : Option Text) → response.body ≡ body
      → Ends
          (read_answer library library.decode_invoice empty_invoice_response response.status body)
  read_answer-Ends req h response sent none e = without_answer
  read_answer-Ends req h response sent (some text) e =
      let x : Exchanged response.status text = record {
        request = req;
        response = response;
        submits = h;
        sent = sent;
        status_is = refl;
        text_is = e;
      } in
      elim (Bool-cases (ltb response.status 200 || leb 300 response.status)) [
        | inl outside ↦ rw outside (refused_by response.status text x (ground (arith, outside)))
        | inr inside ↦
            rw inside
              (text-Ends response.status text x (ground (arith, inside)) (ground (arith, inside)))
      ]

  sent-Ends :
      (req : Request)
      → IsSubmission req
      → (reply : Option Response) → library.send req ≡ reply
      → Ends (elim reply [
        | none ↦ failed
        | some response ↦
            read_answer library library.decode_invoice empty_invoice_response response.status
              response.body
      ])
  sent-Ends req h none e = without_answer
  sent-Ends req h (some response) e = read_answer-Ends req h response e response.body refl

  do_request-Ends :
      (req : Request)
      → IsSubmission req
      → Ends (do_request library library.decode_invoice empty_invoice_response req)
  unfolding do_request
  do_request-Ends req h = sent-Ends req h (library.send req) refl

  -- the request that both functions send
  abbrev prepared : Text → Request
  prepared text = with_header (codes "Clearance-Status") clearance (
      set_production_auth library.base64 cfg (record {
        verb = codes "POST";
        url = base_url cfg.env ++ path;
        headers = json_headers;
        body = text;
      }))

  prepared-IsSubmission :
      (text : Text) → library.encode (submission invoice) ≡ ok text → IsSubmission (prepared text)
  unfolding set_production_auth header set_header text_eq
  prepared-IsSubmission text e =
      elim (Bool-cases
        (not (is_empty cfg.production_username) && not (is_empty cfg.production_password))) [
          | inl set ↦ rw set (record {
            posts = refl;
            goes_to = refl;
            carries = e;
            authorized = rw set refl;
            marked = refl;
          })
          | inr unset ↦ rw unset (record {
            posts = refl;
            goes_to = refl;
            carries = e;
            authorized = rw unset refl;
            marked = refl;
          })
        ]

  abbrev submitted : Result Request → Answer InvoiceResponse
  submitted = call library library.decode_invoice empty_invoice_response (λ req.
      with_header (codes "Clearance-Status") clearance (set_production_auth library.base64 cfg req))

  encoded-Ends :
      (text : Result Text)
      → library.encode (submission invoice) ≡ text
      → Ends (
          submitted (elim text [
            | err e ↦ err e
            | ok text ↦
                if library.builds (codes "POST") (base_url cfg.env ++ path)
                then ok (record {
                  verb = codes "POST";
                  url = base_url cfg.env ++ path;
                  headers = json_headers;
                  body = text;
                })
                else err []
          ]))
  encoded-Ends (err e) h = without_answer
  encoded-Ends (ok text) h =
      elim (Bool-cases (library.builds (codes "POST") (base_url cfg.env ++ path))) [
        | inl built ↦ rw built (do_request-Ends (prepared text) (prepared-IsSubmission text h))
        | inr unbuilt ↦ rw unbuilt without_answer
      ]

-- Whatever ReportInvoice and ClearInvoice return: a result was read from an answer with a status
-- in [200, 300), an APIError has the status and the text of an answer with another status, and either
-- answered a POST request for this invoice to the URL of its environment, with the production
-- credentials, where both are set, and with Clearance-Status 0 for a report and 1 for a clearance.
pub submissions-Ends :
    (library : ClientLibrary) (cfg : Config) (invoice : InvoiceRequest)
    → Ends library cfg
        (codes "/invoices/reporting/single")
        (codes "0")
        invoice
        (report_invoice library cfg invoice)
      × Ends library cfg
          (codes "/invoices/clearance/single")
          (codes "1")
          invoice
          (clear_invoice library cfg invoice)
unfolding report_invoice clear_invoice new_json_request
submissions-Ends library cfg invoice = (
  encoded-Ends library cfg (codes "/invoices/reporting/single") (codes "0") invoice
      (library.encode (submission invoice)) refl,
  encoded-Ends library cfg (codes "/invoices/clearance/single") (codes "1") invoice
      (library.encode (submission invoice)) refl,
)
