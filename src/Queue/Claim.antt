-- ===== src/Queue/Claim.antt =====
-- queue/claim.go and queue/sql_claim_store.go: which delivery may process a request. The store is
-- configured (its DB is not nil), `lease` is LeaseDuration in seconds, and s.now() is the clock.
pub mod Laws
pub mod Completes
use zatca_integration.Common.{
  ℕ, ◌+◌, Bool, true, false, not, ◌&&◌, ◌||◌, Option, none, some, List, [], ◌∷◌, ltb, ◌==◌, any,
  find_row, update_rows, if◌then◌else◌, is_some,
}
use zatca_integration.Text.{Text, text_eq}
use zatca_integration.Errors.{
  Error, Failure, only, opaque, Result, ok, err, claim_in_flight, claim_not_found, claim_stale,
}
use zatca_integration.Queue.Message.{UuidLibrary, Message, validate}
use zatca_integration.Db.{ClaimState, processing, completed, ClaimRow, Db}
use zatca_integration.Db.Program.{
  M, Sql, row, no_rows, duplicate, lock_busy, broken, return, raise, ◌>>=◌, ◌>>◌, now, exec, query,
  expect, transaction,
}

-- ClaimDecision
pub data ClaimDecision : Type 0 where
  process duplicated conflict in_flight : ClaimDecision

-- WHERE pos_id = ? AND bill_request_id = ?
abbrev pub of_request : Message → ClaimRow → Bool
of_request m c = text_eq c.pos_id m.pos_id && text_eq c.bill_request_id m.bill_request_id

abbrev pub has_event : Text → ClaimRow → Bool
has_event e c = text_eq c.event_id e

abbrev pub same_fingerprint : Message → ClaimRow → Bool
same_fingerprint m c = text_eq c.fingerprint m.request_fingerprint

abbrev pub is_processing : ClaimState → Bool
is_processing processing = true
is_processing completed = false

-- WHERE pos_id = ? AND bill_request_id = ? AND event_id = ? AND fingerprint = ? AND state =
-- 'processing'
abbrev pub owned_open : Message → ClaimRow → Bool
owned_open m c =
    of_request m c && has_event m.event_id c && same_fingerprint m c && is_processing c.state

abbrev pub row_or_none : {A : Type 0} → Option A → Sql A
row_or_none none = no_rows
row_or_none (some a) = row a

abbrev pub select_claim : Message → Db → Sql ClaimRow
select_claim m db = row_or_none (find_row (of_request m) db.claims)

abbrev pub new_claim : Message → ℕ → ClaimRow
new_claim m lease_end = record {
  pos_id = m.pos_id;
  bill_request_id = m.bill_request_id;
  event_id = m.event_id;
  egs_sequence_id = m.egs_sequence_id;
  fingerprint = m.request_fingerprint;
  state = processing;
  lease_expires_at = some lease_end;
  completed_at = none;
}

-- The table has the unique keys (pos_id, bill_request_id) and event_id.
unfoldable pub insert_row : Message → ℕ → Db → Sql (Unit {0}) × Db
insert_row m lease_end db =
    if any (λ c. of_request m c || has_event m.event_id c) db.claims
    then (duplicate, db)
    else (row tt, record db { claims = new_claim m lease_end ∷ db.claims })

abbrev pub retaken : Message → ℕ → ClaimRow → ClaimRow
retaken m lease_end c = record c {
  event_id = m.event_id;
  egs_sequence_id = m.egs_sequence_id;
  state = processing;
  lease_expires_at = some lease_end;
}

unfoldable pub reclaim_row : Message → ℕ → Db → Sql (Unit {0}) × Db
reclaim_row m lease_end db =
    if any (λ c. not (of_request m c) && has_event m.event_id c) db.claims
    then (duplicate, db)
    else (row tt, record db { claims = update_rows (of_request m) (retaken m lease_end) db.claims })

abbrev pub live : Option ℕ → ℕ → Bool
live none t = false
live (some lease_end) t = ltb t lease_end

-- sqlClaimDecision
unfoldable pub sql_claim_decision : ClaimState → Option ℕ → ℕ → ClaimDecision
sql_claim_decision completed lease_end t = duplicated
sql_claim_decision processing lease_end t = if live lease_end t then in_flight else process

-- leaseDuration: 30 minutes unless it is set
unfoldable pub lease_duration : ℕ → ℕ
lease_duration lease = if lease == 0 then 1800 else lease

abbrev pub insert_answer : Sql (Unit {0}) → M ClaimDecision
insert_answer (row u) = return process
insert_answer duplicate = return conflict
insert_answer _ = raise opaque

-- the check that each operation of the store begins with
abbrev pub when_valid : {A : Type 0} → Error → M A → M A
when_valid none rest = rest
when_valid (some e) rest = raise e

module _ (lease : ℕ) (m : Message) where
  -- insertClaim
  unfoldable pub insert_claim : M ClaimDecision
  insert_claim = do
    t ← now
    answer ← exec (insert_row m (t + lease_duration lease))
    insert_answer answer

  abbrev pub reclaim : ClaimDecision → ℕ → M ClaimDecision
  reclaim process t = do
    answer ← exec (reclaim_row m (t + lease_duration lease))
    expect answer
    return process
  reclaim d t = return d

  abbrev pub on_claim : Sql ClaimRow → M ClaimDecision
  on_claim (row c) =
      if not (text_eq c.fingerprint m.request_fingerprint)
      then return conflict
      else do t ← now; reclaim (sql_claim_decision c.state c.lease_expires_at t) t
  on_claim no_rows = insert_claim
  on_claim _ = raise opaque

  unfoldable pub claim_in_tx : M ClaimDecision
  claim_in_tx = do answer ← query (select_claim m); on_claim answer

module _ (uuid : UuidLibrary) (lease : ℕ) (m : Message) where
  -- SQLClaimStore.Claim
  unfoldable pub claim : M ClaimDecision
  claim = when_valid (validate uuid m) (transaction (claim_in_tx lease m))

-- A lease that is cleared already is no changed row, and MySQL counts changed rows.
abbrev has_lease : ClaimRow → Bool
has_lease c = is_some c.lease_expires_at

abbrev pub unleased : ClaimRow → ClaimRow
unleased c = record c { lease_expires_at = none }

unfoldable pub release_row : Message → Db → Sql Bool × Db
release_row m db = (
  row (any (λ c. owned_open m c && has_lease c) db.claims),
  record db { claims = update_rows (owned_open m) unleased db.claims },
)

abbrev pub finished : ℕ → ClaimRow → ClaimRow
finished t c = record c { state = completed; lease_expires_at = none; completed_at = some t }

unfoldable pub complete_row : Message → ℕ → Db → Sql Bool × Db
complete_row m t db = (
  row (any (owned_open m) db.claims),
  record db { claims = update_rows (owned_open m) (finished t) db.claims },
)

-- WHERE pos_id = ? AND bill_request_id = ? AND fingerprint = ?
abbrev pub select_owner : Message → Db → Sql ClaimRow
select_owner m db = row_or_none (find_row (λ c. of_request m c && same_fingerprint m c) db.claims)

-- The switch that ends Complete and claimOwnerError.
unfoldable pub owner_answer : Message → Sql ClaimRow → M (Unit {0})
owner_answer m (row c) =
    if not (has_event m.event_id c)
    then raise (only claim_stale)
    else if is_processing c.state
    then raise (only claim_in_flight)
    else return tt
owner_answer m no_rows = raise (only claim_not_found)
owner_answer m _ = raise opaque

-- claimOwnerError
unfoldable pub claim_owner_error : Message → M (Unit {0})
claim_owner_error m = do c ← query (select_owner m); owner_answer m c

module _ (uuid : UuidLibrary) (m : Message) where
  -- SQLClaimStore.Release
  unfoldable pub release : M (Unit {0})
  release = when_valid (validate uuid m) (do
    answer ← exec (release_row m)
    changed ← expect answer
    if changed then return tt else claim_owner_error m)

  -- SQLClaimStore.Complete
  unfoldable pub complete : M (Unit {0})
  complete = when_valid (validate uuid m) (do
    t ← now
    answer ← exec (complete_row m t)
    changed ← expect answer
    if changed then return tt else claim_owner_error m)
