-- ===== src/Scenarios/Settings.antt =====
-- Settings, stored credentials, and a schema.
use zatca_integration.Common.{
  ℕ, ◌≡◌, refl, ◌↔◌, ◌≢◌, true, not, Option, none, some, List, [], ◌∷◌, ◌++◌,
}
use zatca_integration.Common.Int.{pos}
use zatca_integration.Text.{Text, codes, is_empty}
use zatca_integration.Errors.{ok}
use zatca_integration.Crypto.Qr.{Base64Library}
use zatca_integration.Secutil.{Gcm, GcmLibrary, Key, new_key, encrypt, is_encrypted, decrypt}
use zatca_integration.Secutil.Laws.{Reads, Is256Bit, new_key-Is256Bit, decrypt-encrypt}
use zatca_integration.Config.{Config, sandbox}
use zatca_integration.Config.Taxpayers.{
  Taxpayer, Random, csr_of, seller_of, config, config-Stable, NamesOne,
}
use zatca_integration.Config.Nats.{
  UrlLibrary, NatsConfig, validate_nats, IsUsable, validate_nats_iff,
}
use zatca_integration.Storeconfig.{
  BranchZatca, load_branch, is_registered, BranchStatus, status_registered, status_error,
  HttpLibrary, check_connection, load_branch-encrypt, check_connection_iff, IsReached,
  status_connected, status_not_registered,
}
use zatca_integration.Queue.Preflight.{preflight}
use zatca_integration.Queue.Preflight.Reports.{Reports, preflight-Reports}

abbrev plain_base64 : Base64Library
plain_base64 = record { encode = λ bytes. bytes; decode = λ t. some t }

abbrev clear_gcm : Gcm
clear_gcm = record {
  nonce_size = 2;
  seal = λ nonce bytes. bytes;
  unseal = λ nonce bytes. some bytes;
}

abbrev clear_library : GcmLibrary
clear_library = record { new_gcm = λ key. some clear_gcm }

clear-Reads : Reads plain_base64 clear_gcm
clear-Reads = record { decodes = λ bytes. refl; unseals = λ nonce bytes h. refl }

abbrev some_key : Key
some_key = record { raw = 1 ∷ [] }

abbrev two_bytes : ℕ → Option (List ℕ)
two_bytes n = some (7 ∷ 8 ∷ [])

abbrev hex_key : Text
hex_key = codes "0123456789abcdef0123456789abcdef0123456789abcdef0123456789abcdef"

new_key-Is256Bit_example : Is256Bit (new_key plain_base64 hex_key)
new_key-Is256Bit_example = new_key-Is256Bit plain_base64 hex_key

decrypt-encrypt_example :
    (value : Text) × (encrypt plain_base64 clear_library two_bytes some_key (codes "pw") ≡ ok value)
    × (is_encrypted value ≡ not (is_empty (codes "pw")))
    × (decrypt plain_base64 clear_library some_key value ≡ ok (codes "pw"))
decrypt-encrypt_example =
    decrypt-encrypt plain_base64 clear_library two_bytes clear_gcm some_key (7 ∷ 8 ∷ [])
      (codes "pw") clear-Reads refl refl refl

abbrev baker : Taxpayer
baker = record {
  company_name = codes "Baker";
  company_name_ar = codes "Baker";
  vat_number = codes "310175397400003";
  crn = codes "1";
  branch_name = codes "Main";
  business_category = codes "Retail";
  street = codes "S";
  building = codes "1";
  district = codes "D";
  city = codes "R";
  postal_code = codes "12345";
  invoice_type = [];
  location_code = codes "RRRD2929";
  country = [];
  tin = [];
  computer_number = [];
}

abbrev first_random : Random
first_random = record { number = none; uuid = codes "u" }

config-Stable_example :
    NamesOne first_random first_random baker (config first_random first_random baker sandbox [])
config-Stable_example =
    config-Stable first_random first_random first_random baker sandbox [] (λ n h. cc) refl

abbrev url_library : UrlLibrary
url_library = record { parse = λ t. some (record { scheme = codes "nats"; host = t }) }

abbrev local_nats : NatsConfig
local_nats = record {
  mode = codes "Embedded";
  url = [];
  port = pos 4222;
  monitor_port = pos 8222;
  data_dir = codes "/data";
  ack_wait = pos 30;
  max_deliver = pos 5;
  reconcile_interval = pos 60;
}

validate_nats_iff_example :
    (validate_nats url_library local_nats ≡ none) ↔ IsUsable url_library local_nats
validate_nats_iff_example = validate_nats_iff url_library local_nats

abbrev stored_branch : BranchZatca
stored_branch = record {
  branch_id = pos 3;
  store_id = pos 1;
  company_name = codes "Baker";
  company_name_ar = [];
  vat_reg = codes "310175397400003";
  crn = [];
  branch_name = codes "Main";
  street = [];
  building = [];
  district = [];
  city = [];
  postal_code = [];
  country = codes "SA";
  production_username = codes "user";
  production_password = codes "pw";
  private_key = codes "key";
  certificate = [];
  egs_id = codes "u";
}

load_branch-encrypt_example :
    (loaded : BranchZatca) × (load_branch (decrypt plain_base64 clear_library some_key) (
        some (record stored_branch {
          private_key = codes "enc:" ++ (7 ∷ 8 ∷ codes "key");
          production_password = codes "enc:" ++ (7 ∷ 8 ∷ codes "pw");
        }))
      ≡ ok loaded)
    × (loaded ≡ record stored_branch { certificate = codes "user" })
    × (is_registered loaded ≡ is_registered stored_branch)
unfolding encrypt
load_branch-encrypt_example =
    load_branch-encrypt plain_base64 clear_library two_bytes two_bytes clear_gcm some_key
      (7 ∷ 8 ∷ []) (7 ∷ 8 ∷ []) stored_branch (codes "enc:" ++ (7 ∷ 8 ∷ codes "key"))
      (codes "enc:" ++ (7 ∷ 8 ∷ codes "pw")) clear-Reads refl refl refl refl refl refl refl

abbrev pub base_config : Config
base_config = record {
  env = sandbox;
  otp = [];
  compliance_username = [];
  compliance_password = [];
  production_username = [];
  production_password = [];
  egs_id = [];
  csr = csr_of baker;
  seller = seller_of baker;
}

abbrev answering_http : HttpLibrary
answering_http = record { builds = λ url. true; answers = λ url. true }

abbrev main_status : BranchStatus
main_status = record {
  branch_id = pos 3;
  store_id = pos 1;
  branch_name = codes "Main";
  company = codes "Baker";
  vat = [];
  status = status_registered;
}

check_connection_iff_example :
    (check_connection answering_http base_config (ok stored_branch) main_status
      ≡ record main_status {
        status =
            (check_connection answering_http base_config (ok stored_branch) main_status).status;
      })
    × (((check_connection answering_http base_config (ok stored_branch) main_status).status
          ≡ status_not_registered)
        ↔ (status_registered ≡ status_not_registered))
    × (((check_connection answering_http base_config (ok stored_branch) main_status).status
          ≡ status_connected)
        ↔ ((status_registered ≢ status_not_registered)
            × IsReached answering_http base_config (ok stored_branch)))
    × (((check_connection answering_http base_config (ok stored_branch) main_status).status
          ≡ status_error)
        ↔ ((status_registered ≢ status_not_registered)
            × (¬ IsReached answering_http base_config (ok stored_branch))))
check_connection_iff_example =
    check_connection_iff answering_http base_config (ok stored_branch) main_status

preflight-Reports_example : Reports (some []) (preflight (λ names. names) (some []))
preflight-Reports_example = preflight-Reports (λ names. names) (λ names x. refl) (some [])
