-- ===== src/Scenarios/Answers.antt =====
-- Answers of ZATCA, snapshots of the registry, and branch keys.
use zatca_integration.Common.{◌≡◌, refl, true, none, [], ◌∷◌, ◌↔◌}
use zatca_integration.Common.Int.{pos}
use zatca_integration.Text.{codes}
use zatca_integration.Queue.Types.{standard}
use zatca_integration.Queue.Record.{is_issued}
use zatca_integration.Processor.Answer.{FmtLibrary, InvoiceResponse, ApiError, response_outcome}
use zatca_integration.Processor.Answer.Recorded.{Accepts, response_outcome_iff}
use zatca_integration.Tenant.{Tenant, reconcile}
use zatca_integration.Tenant.Transition.{Transition, reconcile-Transition}
use zatca_integration.Queue.Message.{runnable}
use zatca_integration.Daemon.Branches.{
  OnboardRequest, onboard_subject, check_onboard_request, branch_key-injective,
  check_onboard_one_branch,
}

abbrev plain_fmt : FmtLibrary
plain_fmt = record { quote = λ t. t }

abbrev cleared : InvoiceResponse
cleared = record {
  status = [];
  clearance_status = codes "CLEARED";
  reporting_status = [];
  errors = [];
  warnings = [];
  validation = none;
}

response_outcome_iff_example :
    (is_issued (response_outcome plain_fmt standard cleared).state ≡ true)
    ↔ Accepts standard cleared
response_outcome_iff_example = response_outcome_iff plain_fmt standard cleared

abbrev conflict_answer : ApiError
conflict_answer = record { status_code = 409; response = none; body = codes "held" }

abbrev shop : Tenant
shop = record {
  id = pos 1;
  tenant_key = codes "t";
  name = codes "Shop";
  db_name = codes "shop";
  zatca_env = [];
  alert_email = [];
}

abbrev renamed : Tenant
renamed = record shop { name = codes "Market" }

abbrev cafe : Tenant
cafe = record shop { id = pos 2; tenant_key = codes "c"; db_name = codes "cafe" }

reconcile-Transition_example :
    Transition (shop ∷ cafe ∷ []) (renamed ∷ []) (reconcile (shop ∷ cafe ∷ []) (renamed ∷ []))
reconcile-Transition_example = reconcile-Transition (shop ∷ cafe ∷ []) (renamed ∷ [])

branch_key-injective_example : (codes "shop" ≡ codes "shop") × (pos 3 ≡ pos 3)
branch_key-injective_example =
    branch_key-injective (codes "shop") (codes "shop") (pos 3) (pos 3) refl refl refl

abbrev request : OnboardRequest
request = record {
  db_name = codes "shop";
  tenant_key = codes "t";
  branch_id = pos 3;
  otp = codes "123456";
}

abbrev retried : OnboardRequest
retried = record request { otp = codes "654321" }

accepted_retried :
    check_onboard_request (codes "control.zatca.onboard.shop.3") (codes "shop") (codes "t") retried
    ≡ none
unfolding check_onboard_request onboard_subject runnable
accepted_retried = refl

accepted_request :
    check_onboard_request (codes "control.zatca.onboard.shop.3") (codes "shop") (codes "t") request
    ≡ none
unfolding check_onboard_request onboard_subject runnable
accepted_request = refl

check_onboard_one_branch_example :
    (codes "shop" ≡ codes "shop")
    × (codes "shop" ≡ codes "shop")
    × (codes "t" ≡ codes "t")
    × (pos 3 ≡ pos 3)
check_onboard_one_branch_example =
    check_onboard_one_branch (codes "control.zatca.onboard.shop.3") (codes "shop") (codes "t")
      request retried refl refl accepted_request accepted_retried
