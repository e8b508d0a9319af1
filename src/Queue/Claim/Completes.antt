-- ===== src/Queue/Claim/Completes.antt =====
-- What Complete has done when it reports success (queue/sql_claim_store.go).
use zatca_integration.Common.{
  ℕ, ◌≡◌, ◌∙◌, Bool, true, false, not, ◌&&◌, Option, none, some, List, [], ◌∷◌, any, find_row,
  update_rows, arith, if◌then◌else◌,
}
use mathlib.Core.Path.{subst}
use zatca_integration.Errors.{Error}
use zatca_integration.Queue.Message.{UuidLibrary, Message, validate}
use zatca_integration.Queue.Claim.{
  of_request, has_event, same_fingerprint, is_processing, owned_open, complete_row, finished,
  select_owner, row_or_none, owner_answer, claim_owner_error, when_valid, complete,
}
use zatca_integration.Db.{ClaimRow, Db}
use zatca_integration.Db.Program.{
  World, M, Sql, row, no_rows, duplicate, lock_busy, broken, return, ◌>>=◌, exec, expect,
}
use zatca_integration.Db.Program.Rules.{
  Yields, Yields-return, Yields-raise, Yields-if, Yields-now, Yields-exec, Yields-expect_row,
  Answers, Answers-row,
}

abbrev pub done_for : Message → ClaimRow → Bool
done_for m c = of_request m c && not (is_processing c.state)

-- The request of the delivery is completed.
abbrev pub IsDone : Message → Db → Type 0
IsDone m d = any (done_for m) d.claims ≡ true

finished-done :
    (m : Message) (t : ℕ) (rows : List ClaimRow)
    → any (owned_open m) rows ≡ true
    → any (done_for m) (update_rows (owned_open m) (finished t) rows) ≡ true
finished-done m t [] h = cc
finished-done m t (c ∷ rows) h = ground (arith, finished-done m t rows)

found-done :
    (m : Message) (rows : List ClaimRow) (c : ClaimRow)
    → find_row (λ c. of_request m c && same_fingerprint m c) rows ≡ some c
    → is_processing c.state ≡ false
    → any (done_for m) rows ≡ true
found-done m [] c e h = cc
found-done m (r ∷ rows) c e h = ground (arith, found-done m rows c)

row_or_none-some : {A : Type 0} (o : Option A) {a : A} → row_or_none o ≡ row a → o ≡ some a
row_or_none-some none h = cc
row_or_none-some (some b) h = cc

module _ (uuid : UuidLibrary) (m : Message) where
  -- how Complete ends
  abbrev checked : Sql Bool → M (Unit {0})
  checked r = expect r >>= λ changed. if changed then return tt else claim_owner_error m

  owner_answer-IsDone :
      (r : Sql ClaimRow) (w u : World)
      → Answers (λ d. (select_owner m d, d)) w.db r u.db
      → Yields u (owner_answer m r) (λ x v. IsDone m v.db)
  unfolding owner_answer
  owner_answer-IsDone (row c) w u h =
      let (own, after) = Answers-row h in
      let found =
        row_or_none-some (find_row (λ c. of_request m c && same_fingerprint m c) w.db.claims) own in
      Yields-if (not (has_event m.event_id c)) _ _ (λ e. Yields-raise _)
        (λ e.
          Yields-if (is_processing c.state) _ _ (λ k. Yields-raise _)
            (λ k. Yields-return tt (rw after (found-done m w.db.claims c found k))))
  owner_answer-IsDone no_rows w u h = Yields-raise _
  owner_answer-IsDone duplicate w u h = Yields-raise _
  owner_answer-IsDone lock_busy w u h = Yields-raise _
  owner_answer-IsDone broken w u h = Yields-raise _

  owner-IsDone : (w : World) → Yields w (claim_owner_error m) (λ x v. IsDone m v.db)
  unfolding claim_owner_error
  owner-IsDone w =
      Yields-exec (λ d. (select_owner m d, d)) (owner_answer m)
        (λ r u h. owner_answer-IsDone r w u h.answers)

  changed-IsDone :
      (t : ℕ) (r : Sql Bool) (w u : World)
      → Answers (complete_row m t) w.db r u.db
      → Yields u
          (expect r >>= λ changed. if changed then return tt else claim_owner_error m)
          (λ x v. IsDone m v.db)
  unfolding complete_row
  changed-IsDone t r w u h = Yields-expect_row r _ (λ c e.
      let (own, after) = Answers-row (subst (λ q. Answers (complete_row m t) w.db q u.db) e h) in
      let counted : any (owned_open m) w.db.claims ≡ c = cc in
      Yields-if c _ _
        (λ k. Yields-return tt (rw after (finished-done m t w.db.claims (counted ∙ k))))
        (λ k. owner-IsDone u))

  when_valid-Yields :
      {A : Type 0} {P : A → World → Type 0} {w : World} (e : Error) (n : M A)
      → Yields w n P
      → Yields w (when_valid e n) P
  when_valid-Yields none n h = h
  when_valid-Yields (some e) n h = Yields-raise e

  -- When Complete returns no error, the request is completed.
  pub complete-IsDone : (w : World) → Yields w (complete uuid m) (λ x v. IsDone m v.db)
  unfolding complete
  complete-IsDone w = when_valid-Yields (validate uuid m) _ (
      Yields-now (λ t. exec (complete_row m t) >>= checked)
        (Yields-exec (complete_row m w.clock) checked
          (λ r u h. changed-IsDone w.clock r w u h.answers)))
