-- ===== src/Queue/Chain.antt =====
-- queue/chain.go: the invoice chain of each branch, on the tables of the tenant database. The chain
-- is configured (its DB is not nil) and `lease` is LeaseDuration in seconds.
pub mod Effects
pub mod Linked
pub mod Commits
pub mod Books
pub mod Invariant
use zatca_integration.Common.{
  ℕ, ◌+◌, ◌-◌, ◌%◌, ◌^◌, ◌<◌, ◌≡◌, refl, Bool, true, false, not, ◌&&◌, ◌||◌, Option, none, some,
  List, [], ◌∷◌, ltb, leb, ◌==◌, any, find_row, update_rows, if◌then◌else◌,
}
use zatca_integration.Common.Int.{ℤ, pos, ◌==ℤ◌}
use zatca_integration.Text.{Text, text_eq, is_empty}
use zatca_integration.Errors.{
  Error, only, opaque, Result, ok, err, chain_busy, chain_conflict, rejected_input,
}
use zatca_integration.Queue.Message.{UuidLibrary, Message, is_blank, request_key}
use zatca_integration.Queue.Types.{
  OutcomeState, unset, pending, accepted, accepted_with_warning, rejected, ambiguous,
  terminal_failure, other_state, Evidence, other_evidence, unspecified, Booking, SignedInvoice,
  Outcome, genesis_pih, is_pending, is_external, validate_invoice,
}
use zatca_integration.Queue.Evidence.{
  valid_evidence_text, null_string, outcome_message, outcome_log_message, parse_outcome_evidence,
}
use zatca_integration.Db.{ChainRow, BillRow, Submission, OutcomeRow, Db}
use zatca_integration.Db.Program.{
  M, Sql, row, no_rows, duplicate, lock_busy, broken, return, raise, ◌>>=◌, ◌>>◌, now, exec, query,
  expect, transaction,
}

-- chainRow.effectivePIH
abbrev pub pih_of : Option Text → Text
pih_of none = genesis_pih
pih_of (some s) = if is_empty s then genesis_pih else s

abbrev pub effective_pih : ChainRow → Text
effective_pih r = pih_of r.previous

abbrev text_is : Option Text → Text → Bool
text_is none t = false
text_is (some s) t = text_eq s t

-- chainRow.ownedBy
abbrev pub owned_by : ChainRow → Text → Bool
owned_by r key = text_is r.owner_key key

abbrev pub has_token : ChainRow → Text → Bool
has_token r token = text_is r.owner_token token

-- chainRow.leaseLive
abbrev after_time : Option ℕ → ℕ → Bool
after_time none t = false
after_time (some lease_end) t = ltb t lease_end

abbrev pub lease_live : ChainRow → ℕ → Bool
lease_live r t = after_time r.lease_end t

abbrev icv_is : Option ℕ → ℕ → Bool
icv_is none n = false
icv_is (some i) n = i == n

-- uint64 arithmetic
abbrev pub next_icv : ℕ → ℕ
next_icv n = (n + 1) % 2 ^ 64

-- chainRow.holds
unfoldable pub holds : ChainRow → Booking → Bool
holds r b =
    owned_by r b.request_key
    && has_token r b.event_id
    && icv_is r.reserved_icv b.icv
    && next_icv r.last_icv == b.icv
    && text_eq (effective_pih r) b.pih

abbrev pub of_branch : ℤ → ChainRow → Bool
of_branch b r = r.branch_id ==ℤ b

-- A reserved_icv of 2^63 or more does not scan into a sql.NullInt64.
abbrev scans : Option ℕ → Bool
scans none = true
scans (some i) = ltb i (2 ^ 63)

abbrev pub scan_chain : Option ChainRow → Sql ChainRow
scan_chain none = no_rows
scan_chain (some r) = if scans r.reserved_icv then row r else broken

-- loadChainRow
abbrev pub select_chain : ℤ → Db → Sql ChainRow
select_chain b db = scan_chain (find_row (of_branch b) db.chains)

-- leaseDuration: 5 minutes unless it is set
unfoldable pub booking_lease : ℕ → ℕ
booking_lease lease = if lease == 0 then 300 else lease

abbrev pub booking_of : Message → ChainRow → Booking
booking_of m r = record {
  branch_id = m.branch_id;
  request_key = request_key m;
  event_id = m.event_id;
  uuid = m.invoice_uuid;
  icv = next_icv r.last_icv;
  pih = effective_pih r;
}

abbrev pub reserved : Booking → ℕ → ChainRow → ChainRow
reserved b lease_end r = record r {
  owner_key = some b.request_key;
  owner_token = some b.event_id;
  reserved_icv = some b.icv;
  lease_end = some lease_end;
}

unfoldable pub reserve_row : Booking → ℕ → Db → Sql (Unit {0}) × Db
reserve_row b lease_end db = (
  row tt,
  record db { chains = update_rows (of_branch b.branch_id) (reserved b lease_end) db.chains },
)

abbrev pub other_reservation : Option ℕ → ℕ → Bool
other_reservation none n = false
other_reservation (some i) n = not (i == n)

module _ (lease : ℕ) (m : Message) where
  abbrev pub reserve : Booking → ℕ → M Booking
  reserve b t = do answer ← exec (reserve_row b (t + booking_lease lease)); expect answer; return b

  abbrev pub book_at : ChainRow → Booking → ℕ → M Booking
  book_at r b t =
      if lease_live r t && (not (owned_by r b.request_key) || not (has_token r b.event_id))
      then raise (only chain_busy)
      else if owned_by r b.request_key && other_reservation r.reserved_icv b.icv
      then raise (only chain_conflict)
      else reserve b t

  -- Book on the row that it has locked
  unfoldable pub book_row : ChainRow → M Booking
  book_row r =
      if r.last_icv == 2 ^ 64 - 1
      then raise (only chain_conflict)
      else (do t ← now; book_at r (booking_of m r) t)

  -- the row is locked with NOWAIT
  abbrev pub on_locked : Sql ChainRow → M Booking
  on_locked (row r) = book_row r
  on_locked no_rows = raise (only rejected_input)
  on_locked lock_busy = raise (only chain_busy)
  on_locked _ = raise opaque

  -- SQLChain.Book
  unfoldable pub book : M Booking
  book = transaction (do answer ← query (select_chain m.branch_id); on_locked answer)

abbrev pub is_booking : Booking → ChainRow → Bool
is_booking b r = of_branch b.branch_id r && owned_by r b.request_key && has_token r b.event_id

abbrev pub unreserved : ChainRow → ChainRow
unreserved r = record r {
  owner_key = none;
  owner_token = none;
  reserved_icv = none;
  lease_end = none;
}

unfoldable pub unreserve_row : Booking → Db → Sql (Unit {0}) × Db
unreserve_row b db =
    (row tt, record db { chains = update_rows (is_booking b) unreserved db.chains })

-- SQLChain.Release
unfoldable pub release_booking : Booking → M (Unit {0})
release_booking b = do answer ← exec (unreserve_row b); expect answer; return tt

abbrev pub has_id : ℤ → BillRow → Bool
has_id i b = b.id ==ℤ i

abbrev pub scan_bill : Option BillRow → Sql BillRow
scan_bill none = no_rows
scan_bill (some b) = row b

abbrev pub select_bill : ℤ → Db → Sql BillRow
select_bill i db = scan_bill (find_row (has_id i) db.bills)

-- the column is set, and not to `t`
abbrev pub differs : Option Text → Text → Bool
differs none t = false
differs (some s) t = not (is_blank s) && not (text_eq s t)

abbrev pub of_bill : ℤ → Submission → Bool
of_bill i s = s.bill_id ==ℤ i

abbrev pub new_submission : ℕ → SignedInvoice → Submission
new_submission id i = record {
  id = id;
  bill_id = i.source_id;
  branch_id = i.branch_id;
  status = 0;
  outcome_state = pending;
  invoice_icv = i.icv;
  previous_invoice_hash = i.pih;
  invoice_uuid = i.uuid;
  invoice_hash = i.hash;
  invoice_kind = i.kind;
  signed_xml = i.signed_xml;
  provider_code = none;
  rejection_code = none;
  rejection_msg = none;
  provider_warning_message = none;
  submitted_at = none;
  outcome_at = none;
}

-- The table has the unique key bill_id.
unfoldable pub insert_submission : SignedInvoice → Db → Sql (Unit {0}) × Db
insert_submission i db = if any (of_bill i.source_id) db.submissions then (duplicate, db) else (
  row tt,
  record db {
    submissions = new_submission db.next_id i ∷ db.submissions;
    next_id = db.next_id + 1;
  },
)

abbrev pub invoiced : SignedInvoice → BillRow → BillRow
invoiced i b = record b {
  invoice_uuid = some i.uuid;
  invoice_hash = some i.hash;
  qr_code = some i.qr;
}

unfoldable pub fill_bill : SignedInvoice → ℤ → Db → Sql (Unit {0}) × Db
fill_bill i branch db = (
  row tt,
  record db {
    bills = update_rows (λ b. has_id i.source_id b && b.branch_id ==ℤ branch) (invoiced i) db.bills;
  },
)

abbrev pub advanced : SignedInvoice → ChainRow → ChainRow
advanced i r = record r {
  last_icv = i.icv;
  previous = some i.hash;
  owner_key = none;
  owner_token = none;
  reserved_icv = none;
  lease_end = none;
}

unfoldable pub advance_chain : SignedInvoice → ℤ → Db → Sql (Unit {0}) × Db
advance_chain i branch db =
    (row tt, record db { chains = update_rows (of_branch branch) (advanced i) db.chains })

abbrev must : Sql (Unit {0}) → M (Unit {0}) → M (Unit {0})
must answer rest = expect answer >>= λ u. rest

module _ (uuid : UuidLibrary) (b : Booking) (i : SignedInvoice) where
  abbrev pub write_invoice : M (Unit {0})
  write_invoice = do
    inserted ← exec (insert_submission i)
    expect inserted
    filled ← exec (fill_bill i b.branch_id)
    expect filled
    moved ← exec (advance_chain i b.branch_id)
    expect moved
    return tt

  abbrev pub on_bill : Sql BillRow → M (Unit {0})
  on_bill (row bill) =
      if not (bill.branch_id ==ℤ b.branch_id)
      then raise (only chain_conflict)
      else if differs bill.invoice_uuid i.uuid
      then raise (only chain_conflict)
      else if differs bill.invoice_hash i.hash
      then raise (only chain_conflict)
      else write_invoice
  on_bill no_rows = raise (only chain_conflict)
  on_bill _ = raise opaque

  abbrev pub on_chain : ChainRow → M (Unit {0})
  on_chain r =
      if not (holds r b)
      then raise (only chain_conflict)
      else do bill ← query (select_bill i.source_id); on_bill bill

  unfoldable pub commit_in_tx : M (Unit {0})
  commit_in_tx = do answer ← query (select_chain b.branch_id); r ← expect answer; on_chain r

  abbrev pub matches_booking : Bool
  matches_booking =
      i.branch_id ==ℤ b.branch_id && i.icv == b.icv && text_eq i.uuid b.uuid && text_eq i.pih b.pih

  abbrev pub when_invoice : Error → M (Unit {0}) → M (Unit {0})
  when_invoice none rest = rest
  when_invoice (some e) rest = raise (only chain_conflict)

  -- SQLChain.Commit
  unfoldable pub commit : M (Unit {0})
  commit =
      if not matches_booking
      then raise (only chain_conflict)
      else when_invoice (validate_invoice uuid i) (transaction commit_in_tx)
