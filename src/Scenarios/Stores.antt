-- ===== src/Scenarios/Stores.antt =====
-- Runs of the claim store and of the chain, and the theorems at these runs.
use zatca_integration.Common.{
  suc, ◌+◌, ◌≤◌, ◌≡◌, refl, Option, some, [], length, if◌then◌else◌, Bool, true, false, arith,
}
use zatca_integration.Common.Int.{ℤ, pos, ◌==ℤ◌}
use zatca_integration.Text.{codes}
use zatca_integration.Errors.{ok}
use zatca_integration.Queue.Message.{validate, runnable, request_key}
use zatca_integration.Queue.Types.{Booking, validate_invoice}
use zatca_integration.Queue.Claim.{
  claim, claim_in_tx, process, insert_claim, insert_row, reclaim_row, sql_claim_decision,
  lease_duration,
}
use zatca_integration.Queue.Claim.Laws.{Decided, claim_decides, claim_excludes}
use zatca_integration.Queue.Chain.{
  book, book_row, booking_lease, reserve_row, holds, commit, commit_in_tx, insert_submission,
  fill_bill, advance_chain,
}
use zatca_integration.Queue.Chain.Effects.{Committed, CommitEnds, commit_atomic}
use zatca_integration.Queue.Chain.Commits.{commit_done}
use zatca_integration.Queue.Chain.Linked.{ChainOk, Heads, branch_rows}
use zatca_integration.Queue.Chain.Books.{last_hash, book_continues}
use zatca_integration.Queue.Record.{record_outcome}
use zatca_integration.Queue.Record.Final.{KeepsInvoices}
use zatca_integration.Daemon.Workers.{
  Reaches, stay, after, books, commits, records, Reaches-ChainOk, Reaches-KeepsInvoices,
}
use zatca_integration.Db.Program.{World, exec, transaction}
use zatca_integration.Scenarios.{
  any_uuid, first_message, second_message, chain_row, start, booked, invoice, accepted_outcome,
  much_later, after_book,
}

claimed_first : (claim any_uuid 60 first_message start).0 ≡ ok process
unfolding claim claim_in_tx insert_claim insert_row lease_duration exec transaction validate
    runnable
claimed_first = refl

claimed_second : (claim any_uuid 60 second_message much_later).0 ≡ ok process
unfolding claim claim_in_tx insert_claim insert_row reclaim_row sql_claim_decision lease_duration
    exec transaction validate runnable
claimed_second = refl

claim_decides_example :
    Decided 60 first_message start process (claim any_uuid 60 first_message start).1
claim_decides_example = claim_decides any_uuid 60 first_message start process claimed_first

claim_excludes_example :
    start.clock + lease_duration 60 ≤ (claim any_uuid 60 second_message much_later).1.clock
claim_excludes_example =
    claim_excludes any_uuid 60 60 first_message second_message start much_later refl refl refl
      claimed_first claimed_second

committed_first : (commit any_uuid booked invoice after_book).0 ≡ ok tt
unfolding book book_row booking_lease reserve_row commit commit_in_tx holds validate_invoice
    insert_submission fill_bill advance_chain request_key exec transaction runnable
committed_first = refl

commit_done_example :
    Committed booked invoice after_book.db (commit any_uuid booked invoice after_book).1.db
commit_done_example = commit_done any_uuid booked invoice after_book committed_first

commit_atomic_example :
    CommitEnds any_uuid booked invoice after_book.db
      (commit any_uuid booked invoice after_book).1.db
commit_atomic_example = commit_atomic any_uuid booked invoice after_book

one_head : (b : ℤ) (c : Bool) → Heads [] b (if c then some chain_row else Option.none)
one_head b true = ((refl, refl), omega arith)
one_head b false = tt

start-ChainOk : ChainOk start.db
start-ChainOk = record { heads = λ b. one_head b (pos 3 ==ℤ b) }

-- book, commit, record
run_first :
    Reaches start
      (record_outcome invoice accepted_outcome (commit any_uuid booked invoice after_book).1).1
run_first =
    after (after (after stay (books 60 first_message)) (commits any_uuid booked invoice))
      (records invoice accepted_outcome)

Reaches-ChainOk_example :
    ChainOk
      (record_outcome invoice accepted_outcome (commit any_uuid booked invoice after_book).1).1.db
Reaches-ChainOk_example = Reaches-ChainOk run_first start-ChainOk

Reaches-KeepsInvoices_example :
    KeepsInvoices start.db
      (record_outcome invoice accepted_outcome (commit any_uuid booked invoice after_book).1).1.db
Reaches-KeepsInvoices_example = Reaches-KeepsInvoices run_first

abbrev committed : World
committed = (commit any_uuid booked invoice after_book).1

committed-ChainOk : ChainOk committed.db
committed-ChainOk =
    Reaches-ChainOk (after (after stay (books 60 first_message)) (commits any_uuid booked invoice))
      start-ChainOk

abbrev next_booking : Booking
next_booking = record {
  branch_id = pos 3;
  request_key = request_key second_message;
  event_id = codes "f";
  uuid = codes "u";
  icv = 2;
  pih = codes "h";
}

booked_next : (book 60 second_message committed).0 ≡ ok next_booking
unfolding book book_row booking_lease reserve_row commit commit_in_tx holds validate_invoice
    insert_submission fill_bill advance_chain request_key exec transaction runnable
booked_next = refl

book_continues_example :
    (next_booking.branch_id ≡ second_message.branch_id)
    × (next_booking.icv
        ≡ suc (length (branch_rows second_message.branch_id committed.db.submissions)))
    × (next_booking.pih ≡ last_hash (branch_rows second_message.branch_id committed.db.submissions))
book_continues_example =
    book_continues 60 second_message committed next_booking committed-ChainOk booked_next
