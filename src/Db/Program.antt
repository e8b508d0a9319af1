-- ===== src/Db/Program.antt =====
-- Programs that run SQL statements one by one. Each statement, BEGIN and COMMIT included, takes one
-- tick: some seconds pass, and the statement has one of four fates. A failed transaction is rolled
-- back, as the source's deferred tx.Rollback does.
pub mod Rules
use zatca_integration.Common.{ℕ, ◌+◌, List, [], ◌∷◌, Option, none, some}
use zatca_integration.Queue.Types.{SignedInvoice}
use zatca_integration.Queue.Message.{Message}
use zatca_integration.Errors.{Failure, Result, ok, err, opaque}
use zatca_integration.Db.Tables.{Db}

-- `locked` is MySQL's error 3572. `lost` is a statement that the server ran and whose answer did not
-- arrive.
pub data Fate : Type 0 where
  done failed locked lost : Fate

pub record Tick : Type 0 where
  pub elapsed : ℕ
  pub fate : Fate

-- `sent` is what was submitted to ZATCA and `acked` what was acknowledged to JetStream, latest
-- first. When `ticks` is used up, no time passes and every statement is done.
pub record World : Type 0 where
  pub db : Db
  pub clock : ℕ
  pub ticks : List Tick
  pub sent : List SignedInvoice
  pub acked : List Message

-- What a statement answers.
pub data Sql (A : Type 0) : Type 0 where
  row : A → Sql A
  no_rows duplicate lock_busy broken : Sql A

abbrev pub M : Type 0 → Type 0
M A = World → Result A × World

module _ {A : Type 0} where
  abbrev pub return : A → M A
  return a w = (ok a, w)

  abbrev pub raise : Failure → M A
  raise e w = (err e, w)

infixl 5 ◌>>=◌ ◌>>◌
abbrev pub ◌>>=◌ : {A B : Type 0} → M A → (A → M B) → M B
◌>>=◌ m f w = let (r, w') = m w in elim r [ ok a ↦ f a w' | err e ↦ (err e, w') ]

abbrev pub ◌>>◌ : {A B : Type 0} → M A → M B → M B
m >> k = m >>= λ _. k

-- the call's `error` result is looked at by the caller
abbrev pub try : {A : Type 0} → M A → M (Result A)
try m w = let (r, w') = m w in (ok r, w')

-- time.Now
abbrev pub now : M ℕ
now w = (ok w.clock, w)

take_tick : List Tick → World → Fate × World
take_tick [] w = (done, w)
take_tick (t ∷ ts) w = (t.fate, record w { clock = w.clock + t.elapsed; ticks = ts })

pub next_tick : World → Fate × World
unfolding take_tick
next_tick w = take_tick w.ticks w

abbrev keep_db : {A : Type 0} → World → A × Db → World
keep_db w (a, db) = record w { db = db }

abbrev with_fate : {A : Type 0} → Fate → (Db → Sql A × Db) → World → Sql A × World
with_fate done f w = ((f w.db).0, keep_db w (f w.db))
with_fate failed f w = (broken, w)
with_fate locked f w = (lock_busy, w)
with_fate lost f w = (broken, keep_db w (f w.db))

-- One statement; the caller looks at the answer.
unfoldable pub exec : {A : Type 0} → (Db → Sql A × Db) → M (Sql A)
unfolding next_tick
exec f w = let (fate, w') = next_tick w in let (a, w'') = with_fate fate f w' in (ok a, w'')

abbrev pub query : {A : Type 0} → (Db → Sql A) → M (Sql A)
query f = exec (λ db. (f db, db))

-- any answer but a row is a technical failure
abbrev pub expect : {A : Type 0} → Sql A → M A
expect (row a) = return a
expect _ = raise opaque

abbrev commit_with : {A : Type 0} → Fate → A → Db → World → Result A × World
commit_with done a before w = (ok a, w)
commit_with failed a before w = (err opaque, record w { db = before })
commit_with locked a before w = (err opaque, record w { db = before })
commit_with lost a before w = (err opaque, w)

-- tx.Commit after a body that returned, and the rollback after one that failed
abbrev finish_tx : {A : Type 0} → Db → Result A × World → Result A × World
finish_tx before (ok a, w) = let (fate, w') = next_tick w in commit_with fate a before w'
finish_tx before (err e, w) = (err e, record w { db = before })

abbrev run_body : {A : Type 0} → M A → M A
run_body body w = finish_tx w.db (body w)

-- DB.BeginTx, the body, and tx.Commit
unfoldable pub transaction : {A : Type 0} → M A → M A
unfolding exec next_tick
transaction body = do answer ← query (λ db. row tt); expect answer; run_body body
