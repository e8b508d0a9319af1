-- ===== src/Queue/Chain/Invariant.antt =====
-- The chains stay linked, whatever operations run and however they end (queue/chain.go).
use zatca_integration.Common.{ℕ, ◌≡◌, refl}
use zatca_integration.Common.Int.{ℤ}
use zatca_integration.Queue.Types.{Outcome}
use zatca_integration.Queue.Record.{answer_row, log_row, issue_bill, answered, open_row}
use zatca_integration.Queue.Chain.Linked.{
  ChainOk, reserve_row-ChainOk, unreserve_row-ChainOk, commit-ChainOk, update-ChainOk,
}
use zatca_integration.Queue.Kept.{Kept}
use zatca_integration.Db.{Db}

abbrev pub KeepsChain : Db → Db → Type 0
KeepsChain d d' = ChainOk d → ChainOk d'

same_heads : (d d' : Db) → d'.submissions ≡ d.submissions → d'.chains ≡ d.chains → KeepsChain d d'
same_heads d d' s c ok = record { heads = λ k. rw (s, c) (ok.heads k) }

answered_kept :
    (o : Outcome) (status t id : ℕ) (d : Db) → KeepsChain d (answer_row o status t id d).1
unfolding answer_row
answered_kept o status t id d ok =
    update-ChainOk (open_row id) (answered o status t)
      (λ s. record { branch_same = refl; icv_same = refl; hash_same = refl; pih_same = refl }) d ok

logged_kept : (o : Outcome) (t id : ℕ) (d : Db) → KeepsChain d (log_row o t id d).1
unfolding log_row
logged_kept o t id d = same_heads d _ refl refl

issued_kept : (i : ℤ) (d : Db) → KeepsChain d (issue_bill i d).1
unfolding issue_bill
issued_kept i d = same_heads d _ refl refl

-- Every statement of the store keeps the chains linked.
pub chain_kept : Kept KeepsChain
chain_kept = record {
  keeps_refl = λ d ok. ok;
  keeps_trans = λ d e f p q ok. q (p ok);
  keeps_claims = λ d rows. same_heads d _ refl refl;
  keeps_reserve = λ b t d. reserve_row-ChainOk b t d;
  keeps_unreserve = λ b d. unreserve_row-ChainOk b d;
  keeps_commit = commit-ChainOk;
  keeps_answer = answered_kept;
  keeps_log = logged_kept;
  keeps_issue = issued_kept;
}
