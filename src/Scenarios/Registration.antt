-- ===== src/Scenarios/Registration.antt =====
-- A branch that ZATCA registers.
use zatca_integration.Common.{true, none, some, [], ◌∷◌}
use zatca_integration.Common.Int.{pos}
use zatca_integration.Text.{codes}
use zatca_integration.Errors.{ok}
use zatca_integration.Config.{sandbox}
use zatca_integration.Config.Taxpayers.{Random}
use zatca_integration.Processor.Onboard.{
  CompanyRow, OnboardState, OnboardServices, OnboardResult, blank_row,
}

abbrev bakery : CompanyRow
bakery = record {
  name = codes "Baker";
  name_ar = codes "Baker";
  vat = codes "310175397400003";
  crn = codes "1";
  branch_name = codes "Main";
  street = codes "S";
  building = codes "1";
  district = codes "D";
  city = codes "R";
  postal_code = codes "12345";
  country = codes "SA";
  business_category = codes "Retail";
}

abbrev rolled : Random
rolled = record { number = none; uuid = codes "u" }

abbrev registered : OnboardResult
registered = record {
  compliance_cert = codes "cc";
  compliance_secret = codes "cs";
  compliance_request_id = codes "1";
  production_cert = codes "pc";
  production_secret = codes "ps";
  production_request_id = codes "2";
}

abbrev willing : OnboardServices
willing = record {
  env = sandbox;
  company = some bakery;
  decrypt = λ t. ok t;
  encrypt = λ call t. ok t;
  generate_csr = λ c. ok (codes "csr", codes "key");
  onboard_with_csr = λ csr key. ok registered;
  saves_csr = true;
  saves_credentials = true;
  first_random = rolled;
  second_random = rolled;
}

abbrev filled : OnboardState
filled = record {
  rows = record (blank_row (pos 3)) { location = codes "RRRD2929" } ∷ [];
  submitted = [];
}
