-- ===== src/Scenarios.antt =====
-- Concrete runs: deliveries of one bill on a small tenant database, and data of the other parts.
mod Stores
mod Streams
mod Codes
mod Answers
mod Settings
mod Tenancy
mod Documents
mod Hashes
mod Exchanges
mod Registration
use zatca_integration.Common.{
  ℕ, ◌+◌, ◌≡◌, ◌≢◌, refl, Bool, true, false, none, some, List, [], ◌∷◌, All, length, if◌then◌else◌,
  arith,
}
use zatca_integration.Common.Int.{ℤ, pos, ◌==ℤ◌, ==ℤ_iff}
use zatca_integration.Text.{Text, codes, text_eq}
use zatca_integration.Errors.{Result, ok, err, only, fingerprint_conflict}
use zatca_integration.Queue.Message.{
  UuidLibrary, Message, bill, validate, runnable, request_key, partition_key, ordered_subject,
  ordered_consumer_name,
}
use zatca_integration.Queue.Types.{
  Booking, SignedInvoice, Outcome, standard, unset, unspecified, accepted, provider, genesis_pih,
  validate_invoice,
}
use zatca_integration.Queue.Claim.{claim}
use zatca_integration.Queue.Chain.{book}
use zatca_integration.Queue.Stream.{Services, Delivery}
use zatca_integration.Db.{ChainRow, BillRow, Db}
use zatca_integration.Db.Program.{World, exec, transaction}

-- every text is a UUID
abbrev pub any_uuid : UuidLibrary
any_uuid = record { parse = λ t. some (1 ∷ []) }

abbrev pub message_of : Text → Message
message_of event = record {
  doc_type = bill;
  id = pos 7;
  branch_id = pos 3;
  db_name = codes "shop";
  tenant_key = codes "t";
  pos_id = codes "p";
  bill_request_id = codes "r";
  event_id = event;
  egs_sequence_id = codes "3";
  invoice_uuid = codes "u";
  request_fingerprint = codes "0123456789abcdef0123456789abcdef0123456789abcdef0123456789abcdef";
}

abbrev pub first_message : Message
first_message = message_of (codes "e")

abbrev pub second_message : Message
second_message = message_of (codes "f")

abbrev pub chain_row : ChainRow
chain_row = record {
  branch_id = pos 3;
  last_icv = 0;
  previous = none;
  owner_key = none;
  owner_token = none;
  reserved_icv = none;
  lease_end = none;
}

abbrev pub bill_row : BillRow
bill_row = record {
  id = pos 7;
  branch_id = pos 3;
  state = pos 1;
  invoice_uuid = none;
  invoice_hash = none;
  qr_code = none;
}

abbrev pub start : World
start = record {
  db = record {
    claims = [];
    chains = chain_row ∷ [];
    bills = bill_row ∷ [];
    submissions = [];
    outcomes = [];
    next_id = 1;
  };
  clock = 100;
  ticks = [];
  sent = [];
  acked = [];
}

abbrev pub booked : Booking
booked = record {
  branch_id = pos 3;
  request_key = request_key first_message;
  event_id = codes "e";
  uuid = codes "u";
  icv = 1;
  pih = genesis_pih;
}

abbrev pub invoice : SignedInvoice
invoice = record {
  source_id = pos 7;
  branch_id = pos 3;
  uuid = codes "u";
  icv = 1;
  pih = genesis_pih;
  hash = codes "h";
  kind = standard;
  signed_xml = codes "x";
  qr = codes "q";
  outcome = unset;
  outcome_evidence = unspecified;
  evidence_id = [];
  provider_code = [];
  outcome_message = [];
}

abbrev pub accepted_outcome : Outcome
accepted_outcome = record {
  state = accepted;
  provider_code = codes "200";
  message = [];
  evidence = provider;
  evidence_id = [];
}

abbrev pub services : Services
services = record { uuid = any_uuid; claim_lease = 60; booking_lease = 60 }

abbrev pub delivery : Delivery
delivery = record {
  prepare = ok tt;
  build = λ b. ok invoice;
  submit = λ i. record { outcome = accepted_outcome; error = none };
  ack = ok tt;
}

-- the first delivery has taken the request, and then its lease runs out
abbrev pub after_first : World
after_first = (claim any_uuid 60 first_message start).1

abbrev pub much_later : World
much_later = record after_first { clock = 500 }

-- the first delivery has booked
abbrev pub after_book : World
after_book = (book 60 first_message start).1
