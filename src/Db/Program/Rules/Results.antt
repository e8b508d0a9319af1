-- ===== src/Db/Program/Rules/Results.antt =====
-- What a run that returns has reached.
use zatca_integration.Common.{ℕ, ◌≤◌, ◌≡◌, refl, sym, Bool, true, false, if◌then◌else◌}
use mathlib.Core.Path.{subst}
use zatca_integration.Errors.{Failure, Result, ok, err}
use zatca_integration.Db.Tables.{Db}
use zatca_integration.Db.Program.{
  Fate, done, failed, locked, lost, World, Sql, row, no_rows, duplicate, lock_busy, broken, M,
  return, raise, ◌>>=◌, now, next_tick, exec, expect, commit_with, finish_tx, run_body, transaction,
}
use zatca_integration.Db.Program.Rules.Statements.{
  Frame, Answers, Answers-row, exec_answer, query_same, Answered, next_tick-Ticked, exec-Answered,
}

-- What holds of the result of a run that returns.
abbrev pub OnOk : {A : Type 0} → (A → World → Type 0) → Result A × World → Type 0
OnOk P (ok a, w) = P a w
OnOk P (err e, w) = Unit

pub record Yields {A : Type 0} (w : World) (m : M A) (P : A → World → Type 0) : Type 0 where
  pub at : OnOk P (m w)

-- What every run does, also one that fails.
pub record Safe {A : Type 0} (R : World → World → Type 0) (m : M A) : Type 0 where
  pub at : (w : World) → R w (m w).1

OnOk-elim :
    {A : Type 0} (P : A → World → Type 0) {a : A} (r : Result A × World)
    → OnOk P r
    → r.0 ≡ ok a
    → P a r.1
OnOk-elim P (ok b, v) k q = let same : b ≡ _ = cc in subst (λ c. P c v) same k
OnOk-elim P (err b, v) k q = cc

OnOk-map :
    {A : Type 0} {P Q : A → World → Type 0} (r : Result A × World)
    → ((a : A) (w : World) → P a w → Q a w)
    → OnOk P r
    → OnOk Q r
OnOk-map (ok a, w) f k = f a w k
OnOk-map (err e, w) f k = tt

pub Yields-weaken :
    {A : Type 0} {P Q : A → World → Type 0} {w : World} {m : M A}
    → Yields w m P
    → ((a : A) (v : World) → P a v → Q a v)
    → Yields w m Q
Yields-weaken {w} {m} h f = record { at = OnOk-map (m w) f h.at }

module _ {A : Type 0} {P : A → World → Type 0} {w : World} where
  pub Yields-return : (a : A) → P a w → Yields w (return a) P
  Yields-return a h = record { at = h }

  pub Yields-raise : (e : Failure) → Yields w (raise e) P
  Yields-raise e = record { at = tt }

  pub Yields-elim : (m : M A) {a : A} → Yields w m P → (m w).0 ≡ ok a → P a (m w).1
  Yields-elim m h e = OnOk-elim P (m w) h.at e

  pub Yields-if :
      (b : Bool) (m n : M A)
      → (b ≡ true → Yields w m P)
      → (b ≡ false → Yields w n P)
      → Yields w (if b then m else n) P
  Yields-if true m n hm hn = hm refl
  Yields-if false m n hm hn = hn refl

  pub Yields-now : (f : ℕ → M A) → Yields w (f w.clock) P → Yields w (now >>= f) P
  Yields-now f h = record { at = h.at }

  pub Yields-expect_row :
      {B : Type 0} (s : Sql B) (f : B → M A)
      → ((b : B) → s ≡ row b → Yields w (f b) P)
      → Yields w (expect s >>= f) P
  Yields-expect_row (row b) f h = record { at = (h b refl).at }
  Yields-expect_row no_rows f h = record { at = tt }
  Yields-expect_row duplicate f h = record { at = tt }
  Yields-expect_row lock_busy f h = record { at = tt }
  Yields-expect_row broken f h = record { at = tt }

abbrev pub continue_with : {A B : Type 0} → (A → M B) → Result A × World → Result B × World
continue_with f (ok a, w) = f a w
continue_with f (err e, w) = (err e, w)

continue_with-OnOk :
    {A B : Type 0} (Q : A → World → Type 0) (P : B → World → Type 0) (r : Result A × World)
    (f : A → M B)
    → OnOk Q r
    → ((a : A) (w' : World) → Q a w' → Yields w' (f a) P)
    → OnOk P (continue_with f r)
continue_with-OnOk Q P (ok a, v) f k g = (g a v k).at
continue_with-OnOk Q P (err e, v) f k g = tt

pub bind-eq-continue_with :
    {A B : Type 0} (m : M A) (f : A → M B) (w : World) → (m >>= f) w ≡ continue_with f (m w)
bind-eq-continue_with m f w = split (m w)
  where
    split :
        (r : Result _ × World)
        → elim r.0 [ ok a ↦ f a r.1 | err e ↦ (err e, r.1) ] ≡ continue_with f r
    split (ok a, v) = refl
    split (err e, v) = refl

module _ {A B : Type 0} {P : B → World → Type 0} {w : World} where
  pub Yields-bind :
      {Q : A → World → Type 0} (m : M A) (f : A → M B)
      → Yields w m Q
      → ((a : A) (w' : World) → Q a w' → Yields w' (f a) P)
      → Yields w (m >>= f) P
  Yields-bind {Q} m f h g = record {
    at = subst (OnOk P) (sym (bind-eq-continue_with m f w)) (continue_with-OnOk Q P (m w) f h.at g);
  }

  pub Yields-exec :
      (f : Db → Sql A × Db) (k : Sql A → M B)
      → ((s : Sql A) (w' : World) → Answered f w s w' → Yields w' (k s) P)
      → Yields w (exec f >>= k) P
  unfolding exec exec_answer
  Yields-exec f k g = record { at = (g (exec_answer f w) (exec f w).1 (exec-Answered f w)).at }

-- A statement whose failure ends the program.
pub Yields-run :
    {A B : Type 0} {P : B → World → Type 0} {w : World} (f : Db → Sql A × Db) (k : A → M B)
    → ((a : A) (u : World) → (f w.db).0 ≡ row a → u.db ≡ (f w.db).1 → Frame w u → Yields u (k a) P)
    → Yields w (exec f >>= λ s. expect s >>= k) P
Yields-run {w} f k g =
    Yields-exec f (λ s. expect s >>= k)
      (λ s u h. Yields-expect_row s k (λ a q.
        let (own, after) = Answers-row (subst (λ t. Answers f w.db t u.db) q h.answers) in
        g a u own after h.frame))

-- A predicate that a tick keeps.
abbrev pub IsStable : {A : Type 0} → (A → World → Type 0) → Type 0
IsStable {A} P = (a : A) (v w : World) → w.db ≡ v.db → v.clock ≤ w.clock → P a v → P a w

module _ {A : Type 0} (P : A → World → Type 0) (stable : IsStable P) where
  commit_with-OnOk :
      (t : Fate) (a : A) (before : Db) (w : World) → P a w → OnOk P (commit_with t a before w)
  commit_with-OnOk done a before w h = h
  commit_with-OnOk failed a before w h = tt
  commit_with-OnOk locked a before w h = tt
  commit_with-OnOk lost a before w h = tt

  finish_tx-OnOk : (before : Db) (r : Result A × World) → OnOk P r → OnOk P (finish_tx before r)
  finish_tx-OnOk before (ok a, w) h =
      let ticked = next_tick-Ticked w in
      commit_with-OnOk (next_tick w).0 a before (next_tick w).1
        (stable a w (next_tick w).1 ticked.db_same ticked.frame.clock_grows h)
  finish_tx-OnOk before (err e, w) h = tt

  -- A transaction that returns has reached what its body reaches.
  pub Yields-transaction :
      {w : World} (body : M A)
      → ((w' : World) → Frame w w' → w'.db ≡ w.db → Yields w' body P)
      → Yields w (transaction body) P
  unfolding transaction
  Yields-transaction body h =
      Yields-exec (λ db. (row tt, db)) (λ s. expect s >>= λ b. run_body body)
        (λ s v ans.
          Yields-expect_row s (λ b. run_body body)
            (λ b e. record {
              at = finish_tx-OnOk v.db (body v) (h v ans.frame (query_same ans.answers)).at;
            }))
