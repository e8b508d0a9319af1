-- ===== src/Daemon/Delivery.antt =====
-- cmd/daemon/worker.go: one delivery of a branch's consumer. Logging and alert mails are left out.
-- DecodeEnvelope is the JSON library's; `decoded` is what it has returned, and `number` is
-- meta.NumDelivered, if the broker gives it.
use zatca_integration.Common.{
  ℕ, Bool, false, not, ◌&&◌, ◌||◌, Option, none, some, ltb, leb, if◌then◌else◌,
}
use zatca_integration.Common.Int.{ℤ, ◌==ℤ◌}
use zatca_integration.Text.{Text, text_eq}
use zatca_integration.Errors.{
  Failure, Result, ok, err, is, claim_in_flight, chain_busy, invoice_rejected, outcome_ambiguous,
  rejected_input, fingerprint_conflict,
}
use zatca_integration.Queue.Message.{Message}
use zatca_integration.Queue.Stream.{Services, Delivery, handle_message, finalize_permanent_failure}
use zatca_integration.Db.Program.{M, return, ◌>>=◌, try}

-- the branch that a worker serves, and the key of its tenant
pub record Worker : Type 0 where
  pub db_name : Text
  pub branch_id : ℤ
  pub tenant_key : Text
  pub max_deliver : ℕ

-- How handleDelivery leaves the delivery: `settled` is acknowledged or left for a redelivery by the
-- stream, `terminated` is never delivered again.
pub data Left : Type 0 where
  settled terminated : Left

-- deliveryBudgetExhausted
unfoldable pub delivery_budget_exhausted : Option ℕ → ℕ → Bool
delivery_budget_exhausted number max_deliver =
    if ltb max_deliver 1 then false else elim number [ none ↦ false | some n ↦ leb max_deliver n ]

-- an envelope of another tenant or branch
abbrev pub is_foreign : Worker → Message → Bool
is_foreign k m =
    not (text_eq m.db_name k.db_name)
    || not (m.branch_id ==ℤ k.branch_id)
    || not (text_eq m.tenant_key k.tenant_key)

-- the cases of the switch that come before the default
abbrev pub is_reported : Failure → Bool
is_reported e =
    (is e claim_in_flight || is e chain_busy)
    || is e invoice_rejected
    || is e outcome_ambiguous
    || (is e rejected_input || is e fingerprint_conflict)

module _ (k : Worker) (s : Services) (y : Delivery) (number : Option ℕ) (text : Text) where
  abbrev pub after_finalize : Result (Unit {0}) → M Left
  after_finalize (ok u) = return settled
  after_finalize (err e) = return terminated

  abbrev pub on_failure : Message → Failure → M Left
  on_failure m e =
      if is_reported e
      then return settled
      else if delivery_budget_exhausted number k.max_deliver
          && not (is e claim_in_flight)
          && not (is e chain_busy)
      then (do r ← try (finalize_permanent_failure s y m e text); after_finalize r)
      else return settled

  abbrev pub after_handle : Message → Result (Unit {0}) → M Left
  after_handle m (ok u) = return settled
  after_handle m (err e) = on_failure m e

  abbrev pub on_envelope : Message → M Left
  on_envelope m =
      if is_foreign k m
      then return terminated
      else do r ← try (handle_message s y m); after_handle m r

  -- handleDelivery
  unfoldable pub handle_delivery : Result Message → M Left
  handle_delivery (ok m) = on_envelope m
  handle_delivery (err e) = return terminated
