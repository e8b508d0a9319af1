-- ===== src/Scenarios/Codes.antt =====
-- Keys, evidence and QR codes of concrete values.
use zatca_integration.Common.{◌≡◌, refl, some, none, [], ◌∷◌, arith}
use zatca_integration.Common.Int.{pos}
use zatca_integration.Text.{Text, codes}
use zatca_integration.Queue.Types.{Outcome, accepted, external}
use zatca_integration.Queue.Message.{
  IsValid, validate-IsValid, validate, runnable, request_key, partition_key,
}
use zatca_integration.Queue.Message.Keys.{
  request_key-injective, partition_key-injective, ordered_subject-injective,
}
use zatca_integration.Queue.Evidence.{
  parse_outcome_evidence, outcome_message, null_string, parse-null_string,
}
use zatca_integration.Crypto.Qr.{Base64Library, QrData, generate_qr, qr_bytes, decode_tlv}
use zatca_integration.Crypto.Qr.RoundTrip.{qr_entries, Fits, decode_tlv-generate_qr}
use zatca_integration.Scenarios.{any_uuid, first_message, second_message}

valid_first : validate any_uuid first_message ≡ none
unfolding validate runnable
valid_first = refl

valid_second : validate any_uuid second_message ≡ none
unfolding validate runnable
valid_second = refl

validate-IsValid_example : IsValid any_uuid first_message
validate-IsValid_example = validate-IsValid any_uuid first_message valid_first

same_keys : request_key first_message ≡ request_key second_message
unfolding request_key
same_keys = refl

request_key-injective_example :
    (first_message.pos_id ≡ second_message.pos_id)
    × (first_message.bill_request_id ≡ second_message.bill_request_id)
request_key-injective_example =
    request_key-injective any_uuid first_message second_message valid_first valid_second same_keys

same_partition : partition_key first_message ≡ partition_key second_message
unfolding partition_key
same_partition = refl

partition_key-injective_example :
    (first_message.tenant_key ≡ second_message.tenant_key)
    × (first_message.branch_id ≡ second_message.branch_id)
partition_key-injective_example =
    partition_key-injective any_uuid first_message second_message valid_first valid_second
      same_partition

ordered_subject-injective_example : (codes "shop" ≡ codes "shop") × (pos 3 ≡ pos 3)
unfolding runnable
ordered_subject-injective_example =
    ordered_subject-injective (codes "shop") (codes "shop") (pos 3) (pos 3) refl refl refl refl refl

abbrev evidence : Outcome
evidence = record {
  state = accepted;
  provider_code = [];
  message = codes "ok";
  evidence = external;
  evidence_id = 65 ∷ 66 ∷ [];
}

parse-null_string_example :
    (stored : Text) × (null_string (outcome_message evidence) 1024 ≡ some stored)
    × (parse_outcome_evidence stored ≡ (external, evidence.evidence_id, evidence.message))
unfolding outcome_message runnable
parse-null_string_example =
    parse-null_string evidence 1024 refl ((λ e. cc), ((λ e. cc), tt)) refl (omega arith)

-- a library that keeps the bytes as they are
abbrev plain : Base64Library
plain = record { encode = λ bytes. bytes; decode = λ text. some text }

abbrev code : QrData
code = record {
  seller_name = codes "Shop";
  vat_number = codes "300000000000003";
  timestamp = codes "2024-01-01T00:00:00Z";
  total = codes "115.00";
  vat_amount = codes "15.00";
  hash = codes "h";
  signature = [];
  public_key = [];
  cert_hash = [];
}

code-Fits : Fits code
code-Fits = record {
  seller_fits = omega arith;
  vat_fits = omega arith;
  timestamp_fits = omega arith;
  total_fits = omega arith;
  amount_fits = omega arith;
  hash_fits = omega arith;
  signature_fits = omega arith;
  key_fits = omega arith;
  cert_fits = omega arith;
}

decode_tlv-generate_qr_example : decode_tlv plain (qr_bytes code) ≡ some (qr_entries code)
unfolding generate_qr
decode_tlv-generate_qr_example =
    decode_tlv-generate_qr plain code (qr_bytes code) (λ bytes. refl) code-Fits refl
