-- ===== src/Queue/Operations/Claims.antt =====
-- Every operation of SQLClaimStore is built of its statements (queue/sql_claim_store.go).
use zatca_integration.Common.{ℕ, Bool, not, if◌then◌else◌}
use zatca_integration.Text.{text_eq}
use zatca_integration.Errors.{opaque}
use zatca_integration.Queue.Message.{UuidLibrary, Message, validate}
use zatca_integration.Queue.Claim.{
  ClaimDecision, process, duplicated, conflict, in_flight, insert_row, reclaim_row, release_row,
  complete_row, select_claim, insert_answer, insert_claim, reclaim, on_claim, claim_in_tx, claim,
  release, complete, select_owner, owner_answer, claim_owner_error, has_event, is_processing,
}
use zatca_integration.Db.{ClaimRow}
use zatca_integration.Db.Program.{
  World, Sql, row, no_rows, duplicate, lock_busy, broken, return, ◌>>=◌, now, exec, query, expect,
  transaction,
}
use zatca_integration.Db.Program.Rules.{Safe}
use zatca_integration.Queue.Rules.{
  Rules, bind-Safe, return-Safe, raise-Safe, if_Safe, expect-Safe, now-Safe, when_valid-Safe,
}
use zatca_integration.Queue.Kept.{Frame-rules}

module _ {R : World → World → Type 0} (rules : Rules R) where
  insert_answer-Safe : (s : Sql (Unit {0})) → Safe R (insert_answer s)
  insert_answer-Safe (row u) = return-Safe rules process
  insert_answer-Safe duplicate = return-Safe rules conflict
  insert_answer-Safe no_rows = raise-Safe rules opaque
  insert_answer-Safe lock_busy = raise-Safe rules opaque
  insert_answer-Safe broken = raise-Safe rules opaque

  insert_claim-Safe : (lease : ℕ) (m : Message) → Safe R (insert_claim lease m)
  unfolding insert_claim
  insert_claim-Safe lease m = bind-Safe rules now _ (now-Safe rules) (λ t.
      bind-Safe rules (exec (insert_row m _)) insert_answer ((rules.run_insert m _))
        insert_answer-Safe)

  reclaim-Safe :
      (lease : ℕ) (m : Message) (c : ClaimDecision) (t : ℕ) → Safe R (reclaim lease m c t)
  reclaim-Safe lease m process t =
      bind-Safe rules (exec (reclaim_row m _)) _ ((rules.run_reclaim m _))
        (λ s. bind-Safe rules (expect s) _ (expect-Safe rules s) (λ x. return-Safe rules process))
  reclaim-Safe lease m duplicated t = return-Safe rules duplicated
  reclaim-Safe lease m conflict t = return-Safe rules conflict
  reclaim-Safe lease m in_flight t = return-Safe rules in_flight

  on_claim-Safe : (lease : ℕ) (m : Message) (s : Sql ClaimRow) → Safe R (on_claim lease m s)
  on_claim-Safe lease m (row c) =
      if_Safe rules (not (text_eq c.fingerprint m.request_fingerprint)) _ _
        (return-Safe rules conflict)
        (bind-Safe rules now _ (now-Safe rules) (λ t. reclaim-Safe lease m _ t))
  on_claim-Safe lease m no_rows = insert_claim-Safe lease m
  on_claim-Safe lease m duplicate = raise-Safe rules opaque
  on_claim-Safe lease m lock_busy = raise-Safe rules opaque
  on_claim-Safe lease m broken = raise-Safe rules opaque

  claim_in_tx-Safe : (lease : ℕ) (m : Message) → Safe R (claim_in_tx lease m)
  unfolding claim_in_tx
  claim_in_tx-Safe lease m =
      bind-Safe rules (query (select_claim m)) (on_claim lease m) (rules.run_query (select_claim m))
        (on_claim-Safe lease m)

  owner_answer-Safe : (m : Message) (s : Sql ClaimRow) → Safe R (owner_answer m s)
  unfolding owner_answer
  owner_answer-Safe m (row c) =
      if_Safe rules (not (has_event m.event_id c)) _ _ (raise-Safe rules _)
        (if_Safe rules (is_processing c.state) _ _ (raise-Safe rules _) (return-Safe rules tt))
  owner_answer-Safe m no_rows = raise-Safe rules _
  owner_answer-Safe m duplicate = raise-Safe rules _
  owner_answer-Safe m lock_busy = raise-Safe rules _
  owner_answer-Safe m broken = raise-Safe rules _

  claim_owner_error-Safe : (m : Message) → Safe R (claim_owner_error m)
  unfolding claim_owner_error
  claim_owner_error-Safe m =
      bind-Safe rules (query (select_owner m)) (owner_answer m) (rules.run_query (select_owner m))
        (owner_answer-Safe m)

  changed-Safe :
      (m : Message) (s : Sql Bool)
      → Safe R (expect s >>= λ changed. if changed then return tt else claim_owner_error m)
  changed-Safe m s =
      bind-Safe rules (expect s) _ (expect-Safe rules s)
        (λ c. if_Safe rules c _ _ (return-Safe rules tt) (claim_owner_error-Safe m))

  pub release-Safe : (uuid : UuidLibrary) (m : Message) → Safe R (release uuid m)
  unfolding release
  release-Safe uuid m =
      when_valid-Safe rules (validate uuid m) _
        (bind-Safe rules (exec (release_row m)) _ ((rules.run_release m)) (changed-Safe m))

  pub complete-Safe : (uuid : UuidLibrary) (m : Message) → Safe R (complete uuid m)
  unfolding complete
  complete-Safe uuid m = when_valid-Safe rules (validate uuid m) _ (
      bind-Safe rules now _ (now-Safe rules) (λ t.
        bind-Safe rules (exec (complete_row m t)) _ ((rules.run_complete m t)) (changed-Safe m)))

module _ {R : World → World → Type 0} (rules : Rules R) where
  pub claim-Safe : (uuid : UuidLibrary) (lease : ℕ) (m : Message) → Safe R (claim uuid lease m)
  unfolding claim
  claim-Safe uuid lease m =
      when_valid-Safe rules (validate uuid m) (transaction (claim_in_tx lease m)) (
        rules.run_transaction _ (claim_in_tx-Safe Frame-rules lease m)
          (claim_in_tx-Safe rules lease m))
