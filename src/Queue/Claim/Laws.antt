-- ===== src/Queue/Claim/Laws.antt =====
-- What SQLClaimStore.Claim decides, and who may take a request (queue/sql_claim_store.go).
use zatca_integration.Common.{
  ℕ, ◌+◌, ◌≤◌, ◌≡◌, refl, ◌∙◌, true, false, not, Option, none, some, find_row, find_row-update_rows,
  arith,
}
use zatca_integration.Text.{text_eq, text_eq_iff, text_eq_refl}
use zatca_integration.Errors.{Error, ok, opaque}
use zatca_integration.Queue.Message.{UuidLibrary, Message, validate}
use zatca_integration.Db.{processing, completed, ClaimRow, Db}
use zatca_integration.Db.Program.{
  World, M, Sql, now, row, no_rows, duplicate, lock_busy, broken, return, expect, ◌>>=◌, exec,
  transaction,
}
use zatca_integration.Db.Program.Rules.{
  Answers, Answers-row, Answers-duplicate, Answers-no_rows, Answered, Frame, IsStable, Yields,
  Yields-return, Yields-raise, Yields-if, Yields-now, Yields-exec, Yields-expect_row,
  Yields-transaction, Yields-elim,
}
use zatca_integration.Queue.Claim.{
  ClaimDecision, process, duplicated, conflict, in_flight, of_request, insert_row, reclaim_row,
  row_or_none, when_valid, select_claim, reclaim, on_claim, live, sql_claim_decision, insert_answer,
  insert_claim, claim_in_tx, claim, retaken, lease_duration,
}

abbrev pub FoundAs : (ClaimRow → Type 0) → Option ClaimRow → Type 0
FoundAs P none = ⊥
FoundAs P (some c) = P c

-- The row is of the delivery `m`, open, and leased until `lease_end`.
abbrev pub IsHeldBy : Message → ℕ → ClaimRow → Type 0
IsHeldBy m lease_end c =
    (c.event_id ≡ m.event_id)
    × (c.fingerprint ≡ m.request_fingerprint)
    × (c.state ≡ processing)
    × (c.lease_expires_at ≡ some lease_end)

-- A request that a delivery may take at time `t`: it is new, or open with the same content and no
-- live lease.
abbrev pub IsFree : Message → ℕ → Option ClaimRow → Type 0
IsFree m t none = Unit
IsFree m t (some c) =
    (c.fingerprint ≡ m.request_fingerprint)
    × (c.state ≡ processing)
    × (live c.lease_expires_at t ≡ false)

-- What each decision says of the worlds before and after a claim.
abbrev pub Decided : ℕ → Message → World → ClaimDecision → World → Type 0
Decided lease m w process v =
    (t : ℕ) × (w.clock ≤ t)
    × (t ≤ v.clock)
    × IsFree m t (find_row (of_request m) w.db.claims)
    × FoundAs (IsHeldBy m (t + lease_duration lease)) (find_row (of_request m) v.db.claims)
Decided lease m w duplicated v =
    (v.db ≡ w.db)
    × FoundAs (λ c. (c.fingerprint ≡ m.request_fingerprint) × (c.state ≡ completed))
        (find_row (of_request m) w.db.claims)
Decided lease m w conflict v = v.db ≡ w.db
Decided lease m w in_flight v =
    (t : ℕ) × (w.clock ≤ t)
    × (t ≤ v.clock)
    × (v.db ≡ w.db)
    × FoundAs
        (λ c.
          (c.fingerprint ≡ m.request_fingerprint)
          × (c.state ≡ processing)
          × (live c.lease_expires_at t ≡ true))
        (find_row (of_request m) w.db.claims)

Decided-stable : (lease : ℕ) (m : Message) (w : World) → IsStable (Decided lease m w)
Decided-stable lease m w process u v same late (t, a, b, c, d) = (t, a, omega arith, c, rw same d)
Decided-stable lease m w duplicated u v same late (a, b) = (same ∙ a, b)
Decided-stable lease m w conflict u v same late a = same ∙ a
Decided-stable lease m w in_flight u v same late (t, a, b, c, d) = (t, a, omega arith, same ∙ c, d)

insert_row-IsHeldBy :
    (m : Message) (t : ℕ) (d : Db)
    → (insert_row m t d).0 ≡ row tt
    → FoundAs (IsHeldBy m t) (find_row (of_request m) (insert_row m t d).1.claims)
unfolding insert_row
insert_row-IsHeldBy m t d h = ground (arith, text_eq_refl m.pos_id, text_eq_refl m.bill_request_id)

reclaim_row-IsHeldBy :
    (m : Message) (t : ℕ) (d : Db) (c : ClaimRow)
    → find_row (of_request m) d.claims ≡ some c
    → c.fingerprint ≡ m.request_fingerprint
    → (reclaim_row m t d).0 ≡ row tt
    → FoundAs (IsHeldBy m t) (find_row (of_request m) (reclaim_row m t d).1.claims)
unfolding reclaim_row
reclaim_row-IsHeldBy m t d c found same h =
    ground
      (arith, find_row-update_rows (of_request m) (retaken m t) d.claims (λ (x : ClaimRow). refl))

insert_row-refused :
    (m : Message) (t : ℕ) (d : Db) → (insert_row m t d).0 ≡ duplicate → (insert_row m t d).1 ≡ d
unfolding insert_row
insert_row-refused m t d h = ground arith

row_or_none-row : {A : Type 0} (o : Option A) {a : A} → row_or_none o ≡ row a → o ≡ some a
row_or_none-row none h = cc
row_or_none-row (some b) h = cc

row_or_none-no_rows : {A : Type 0} (o : Option A) → row_or_none o ≡ no_rows → o ≡ none
row_or_none-no_rows none h = refl
row_or_none-no_rows (some b) h = cc

module _ (lease : ℕ) (m : Message) (w : World) where
  inserted :
      (v : World) (s : Sql (Unit {0})) (u : World)
      → w.clock ≤ v.clock
      → v.db ≡ w.db
      → find_row (of_request m) w.db.claims ≡ none
      → Answered (insert_row m (v.clock + lease_duration lease)) v s u
      → Yields u (insert_answer s) (Decided lease m w)
  inserted v (row x) u late same absent h =
      let (held, after) = Answers-row h.answers in
      Yields-return process (
        (
          v.clock,
          late,
          h.frame.clock_grows,
          rw absent tt,
          rw after (insert_row-IsHeldBy m _ v.db held),
        ))
  inserted v duplicate u late same absent h =
      let (refusal, after) = Answers-duplicate h.answers in
      Yields-return conflict (after ∙ insert_row-refused m _ v.db refusal ∙ same)
  inserted v no_rows u late same absent h = Yields-raise opaque
  inserted v lock_busy u late same absent h = Yields-raise opaque
  inserted v broken u late same absent h = Yields-raise opaque

  insert_claim-Decided :
      (v : World)
      → w.clock ≤ v.clock
      → v.db ≡ w.db
      → find_row (of_request m) w.db.claims ≡ none
      → Yields v (insert_claim lease m) (Decided lease m w)
  unfolding insert_claim
  insert_claim-Decided v late same absent =
      Yields-now (λ t. exec (insert_row m (t + lease_duration lease)) >>= insert_answer)
        (Yields-exec (insert_row m (v.clock + lease_duration lease)) insert_answer
          (λ s u h. inserted v s u late same absent h))

  reclaimed :
      (v : World) (c : ClaimRow) (d : ClaimDecision)
      → w.clock ≤ v.clock
      → v.db ≡ w.db
      → find_row (of_request m) w.db.claims ≡ some c
      → c.fingerprint ≡ m.request_fingerprint
      → sql_claim_decision c.state c.lease_expires_at v.clock ≡ d
      → Yields v (reclaim lease m d v.clock) (Decided lease m w)
  unfolding sql_claim_decision
  reclaimed v c process late same found content e =
      Yields-exec (reclaim_row m (v.clock + lease_duration lease))
        (λ s. expect s >>= λ x. return process)
        (λ s u h.
          Yields-expect_row s (λ x. return process)
            (λ x q. Yields-return process (
              let (held, after) = Answers-row (rw q at h.answers) in
              (
                v.clock,
                late,
                h.frame.clock_grows,
                rw found (ground arith),
                rw after (reclaim_row-IsHeldBy m _ v.db c (rw same found) content held),
              ))))
  reclaimed v c duplicated late same found content e =
      Yields-return duplicated (same, rw found (ground arith))
  reclaimed v c conflict late same found content e = absurd (ground arith)
  reclaimed v c in_flight late same found content e =
      Yields-return in_flight (v.clock, late, omega arith, same, rw found (ground arith))

  on_claim-Decided :
      (v v' : World) (s : Sql ClaimRow)
      → w.clock ≤ v'.clock
      → v.db ≡ w.db
      → Answers (λ d. (select_claim m d, d)) v.db s v'.db
      → Yields v' (on_claim lease m s) (Decided lease m w)
  on_claim-Decided v v' (row c) late same h =
      let (answer, after) = Answers-row h in
      let found = row_or_none-row (find_row (of_request m) v.db.claims) answer in
      Yields-if (not (text_eq c.fingerprint m.request_fingerprint)) (return conflict)
        (now >>= λ t. reclaim lease m (sql_claim_decision c.state c.lease_expires_at t) t)
        (λ other. Yields-return conflict (after ∙ same))
        (λ content.
          Yields-now (λ t. reclaim lease m (sql_claim_decision c.state c.lease_expires_at t) t)
            (reclaimed v' c _ late (after ∙ same) (rw same at found)
              (ground (arith, text_eq_iff c.fingerprint m.request_fingerprint)) refl))
  on_claim-Decided v v' no_rows late same h =
      let (answer, after) = Answers-no_rows h in
      let absent = row_or_none-no_rows (find_row (of_request m) v.db.claims) answer in
      insert_claim-Decided v' late (after ∙ same) (rw same at absent)
  on_claim-Decided v v' duplicate late same h = Yields-raise opaque
  on_claim-Decided v v' lock_busy late same h = Yields-raise opaque
  on_claim-Decided v v' broken late same h = Yields-raise opaque

  claim_in_tx-Decided :
      (v : World) → Frame w v → v.db ≡ w.db → Yields v (claim_in_tx lease m) (Decided lease m w)
  unfolding claim_in_tx
  claim_in_tx-Decided v fr same =
      Yields-exec (λ d. (select_claim m d, d)) (on_claim lease m)
        (λ s u h. on_claim-Decided v u s (omega (arith, h.frame)) same h.answers)

when_valid-ok :
    {A : Type 0} (e : Error) (n : M A) (w : World) {a : A}
    → (when_valid e n w).0 ≡ ok a
    → (e ≡ none) × (when_valid e n w ≡ n w)
when_valid-ok none n w h = (refl, refl)
when_valid-ok (some e) n w h = cc

-- A decision that is returned says what was found, and what the database holds then: a request that
-- may be processed was free and is now leased to this delivery, and any other decision changes
-- nothing.
pub claim_decides :
    (uuid : UuidLibrary) (lease : ℕ) (m : Message) (w : World) (d : ClaimDecision)
    → (claim uuid lease m w).0 ≡ ok d
    → Decided lease m w d (claim uuid lease m w).1
unfolding claim
claim_decides uuid lease m w d h =
    let tx = transaction (claim_in_tx lease m) in
    let (valid, runs) = when_valid-ok (validate uuid m) tx w h in
    rw runs (
      Yields-elim tx
        (Yields-transaction (Decided lease m w) (Decided-stable lease m w) (claim_in_tx lease m)
          (λ v fr same. claim_in_tx-Decided lease m w v fr same))
        (rw runs at h))

FoundAs-IsFree :
    (o : Option ClaimRow) (m m' : Message) (lease_end t : ℕ)
    → FoundAs (IsHeldBy m lease_end) o
    → IsFree m' t o
    → lease_end ≤ t
FoundAs-IsFree none m m' lease_end t h f = absurd h
FoundAs-IsFree (some c) m m' lease_end t (a, b, d, held) (e, g, free) = ground (arith, held)

-- When a second delivery of a request makes its claim on the very database that the claim of the first
-- left, with no write in between, and both are told to process, the lease of the first is over by then.
-- A Release in between is such a write, and lets a delivery of the request process at once.
pub claim_excludes :
    (uuid : UuidLibrary) (lease lease' : ℕ) (m m' : Message) (w w' : World)
    → m'.pos_id ≡ m.pos_id
    → m'.bill_request_id ≡ m.bill_request_id
    → w'.db ≡ (claim uuid lease m w).1.db
    → (claim uuid lease m w).0 ≡ ok process
    → (claim uuid lease' m' w').0 ≡ ok process
    → w.clock + lease_duration lease ≤ (claim uuid lease' m' w').1.clock
claim_excludes uuid lease lease' m m' w w' pos bill db first second =
    let (t, after, before, free, held) = claim_decides uuid lease m w process first in
    let (t', after', before', free', held') = claim_decides uuid lease' m' w' process second in
    let over : t + lease_duration lease ≤ t' =
      FoundAs-IsFree (find_row (of_request m) (claim uuid lease m w).1.db.claims) m m' _ t' held
        (rw (db, pos, bill) at free') in
    omega (arith, after, before', over)
