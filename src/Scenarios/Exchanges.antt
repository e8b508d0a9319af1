-- ===== src/Scenarios/Exchanges.antt =====
-- A submission that ZATCA refuses.
use zatca_integration.Common.{true, none, some, [], if◌then◌else◌}
use zatca_integration.Text.{codes, text_eq}
use zatca_integration.Errors.{ok}
use zatca_integration.Config.{Config}
use zatca_integration.Client.{
  InvoiceRequest, ClientLibrary, report_invoice, clear_invoice, empty_invoice_response,
}
use zatca_integration.Client.Exchange.{Ends, submissions-Ends}
use zatca_integration.Scenarios.Settings.{base_config}

abbrev branch_config : Config
branch_config = record base_config {
  production_username = codes "token";
  production_password = codes "secret";
}

abbrev one_invoice : InvoiceRequest
one_invoice = record { invoice_hash = codes "h"; uuid = codes "u"; invoice = codes "x" }

-- every answer but that to an empty body is a refusal
abbrev refusing : ClientLibrary
refusing = record {
  encode = λ body. ok (codes "{}");
  builds = λ verb url. true;
  send = λ req.
      some (record { status = if text_eq req.body [] then 200 else 400; body = some (codes "no") });
  decode_csid = λ text. none;
  decode_invoice = λ text. some empty_invoice_response;
  base64 = record { encode = λ bytes. bytes; decode = λ t. some t };
}

submissions-Ends_example :
    Ends refusing branch_config
      (codes "/invoices/reporting/single")
      (codes "0")
      one_invoice
      (report_invoice refusing branch_config one_invoice)
    × Ends refusing branch_config
        (codes "/invoices/clearance/single")
        (codes "1")
        one_invoice
        (clear_invoice refusing branch_config one_invoice)
submissions-Ends_example = submissions-Ends refusing branch_config one_invoice
