-- ===== src/Queue/Chain/Books.antt =====
-- What Book hands out (queue/chain.go), on chains that are linked.
use mathlib.Core.Path.{subst}
use zatca_integration.Common.{
  ℕ, suc, ◌+◌, ◌-◌, ◌<◌, ◌^◌, ◌≡◌, refl, sym, ap, ◌∙◌, false, not, ◌&&◌, ◌||◌, Option, none, some,
  List, [], ◌∷◌, find_row, length, arith, ◌==◌,
}
use zatca_integration.Common.Int.{ℤ}
use zatca_integration.Text.{Text}
use zatca_integration.Errors.{ok}
use zatca_integration.Queue.Types.{Booking, genesis_pih}
use zatca_integration.Queue.Message.{Message}
use zatca_integration.Queue.Chain.{
  of_branch, lease_live, owned_by, has_token, other_reservation, effective_pih, booking_of, book_at,
  book_row, on_locked, reserve_row, booking_lease, select_chain, book,
}
use zatca_integration.Queue.Chain.Effects.{scan_chain-row}
use zatca_integration.Queue.Chain.Linked.{branch_rows, Linked, Heads, ChainOk, Linked-length}
use zatca_integration.Db.{ChainRow, Submission, Db}
use zatca_integration.Db.Program.{World, return, Sql, row, no_rows, duplicate, lock_busy, broken}
use zatca_integration.Db.Program.Rules.{
  Yields, Yields-return, Yields-raise, Yields-if, Yields-now, Yields-run, Yields-exec,
  Yields-transaction, Yields-elim, Answers, Answers-row,
}

-- the hash that the next invoice of a branch has to name
abbrev pub last_hash : List Submission → Text
last_hash [] = genesis_pih
last_hash (s ∷ rest) = s.invoice_hash

-- The booking is that of a chain row of the database whose number can still grow.
pub record IsNext (m : Message) (d : Db) (b : Booking) : Type 0 where
  pub chain_row : ChainRow
  pub found : find_row (of_branch m.branch_id) d.chains ≡ some chain_row
  pub grows : chain_row.last_icv == 2 ^ 64 - 1 ≡ false
  pub booked : b ≡ booking_of m chain_row

module _ (lease : ℕ) (m : Message) (d : Db) where
  book_at-IsNext :
      (r : ChainRow) (b : Booking) (t : ℕ) (w : World)
      → IsNext m d b
      → Yields w (book_at lease m r b t) (λ b u. IsNext m d b)
  unfolding reserve_row
  book_at-IsNext r b t w next =
      Yields-if (lease_live r t && (not (owned_by r b.request_key) || not (has_token r b.event_id)))
        _ _ (λ e. Yields-raise _)
        (λ e.
          Yields-if (owned_by r b.request_key && other_reservation r.reserved_icv b.icv) _ _
            (λ e. Yields-raise _)
            (λ e.
              Yields-run (reserve_row b (t + booking_lease lease)) (λ x. return b)
                (λ x u own after fr. Yields-return b next)))

  book_row-IsNext :
      (r : ChainRow) (w : World)
      → find_row (of_branch m.branch_id) d.chains ≡ some r
      → Yields w (book_row lease m r) (λ b u. IsNext m d b)
  unfolding book_row
  book_row-IsNext r w found =
      Yields-if (r.last_icv == 2 ^ 64 - 1) _ _ (λ e. Yields-raise _)
        (λ grows. Yields-now (book_at lease m r (booking_of m r)) (
          book_at-IsNext r (booking_of m r) w.clock w
            (record { chain_row = r; found = found; grows = grows; booked = refl })))

  on_locked-IsNext :
      (s : Sql ChainRow) (w : World)
      → ((r : ChainRow) → s ≡ row r → find_row (of_branch m.branch_id) d.chains ≡ some r)
      → Yields w (on_locked lease m s) (λ b u. IsNext m d b)
  on_locked-IsNext (row r) w found = book_row-IsNext r w (found r refl)
  on_locked-IsNext no_rows w found = Yields-raise _
  on_locked-IsNext duplicate w found = Yields-raise _
  on_locked-IsNext lock_busy w found = Yields-raise _
  on_locked-IsNext broken w found = Yields-raise _

book-IsNext :
    (lease : ℕ) (m : Message) (w : World) → Yields w (book lease m) (λ b u. IsNext m w.db b)
unfolding book
book-IsNext lease m w =
    Yields-transaction (λ b u. IsNext m w.db b) (λ b u v same later h. h) _
      (λ v fr same.
        Yields-exec (λ d. (select_chain m.branch_id d, d)) (on_locked lease m)
          (λ s u h. on_locked-IsNext lease m w.db s u (λ r q.
            let (own, kept) = Answers-row (
              subst (λ t. Answers (λ d. (select_chain m.branch_id d, d)) v.db t u.db) q
                h.answers) in
            scan_chain-row (find_row (of_branch m.branch_id) w.db.chains)
              (ap (select_chain m.branch_id) (sym same) ∙ own))))

Linked-last_hash :
    (n : ℕ) (pih : Text) (rows : List Submission) → Linked n pih rows → pih ≡ last_hash rows
Linked-last_hash n pih [] h = h.1
Linked-last_hash n pih (s ∷ rows) h = let (icv, hash, positive, rest) = h in sym hash

head-continues :
    (d : Db) (b : ℤ) (r : ChainRow) (o : Option ChainRow)
    → o ≡ some r
    → Heads d.submissions b o
    → (r.last_icv < 2 ^ 64)
      × (r.last_icv ≡ length (branch_rows b d.submissions))
      × (effective_pih r ≡ last_hash (branch_rows b d.submissions))
head-continues d b r none e h = cc
head-continues d b r (some q) e h =
    let same : q ≡ r = cc in
    subst
      (λ x.
        (x.last_icv < 2 ^ 64)
        × (x.last_icv ≡ length (branch_rows b d.submissions))
        × (effective_pih x ≡ last_hash (branch_rows b d.submissions)))
      same
      (
        h.1,
        Linked-length q.last_icv (effective_pih q) (branch_rows b d.submissions) h.0,
        Linked-last_hash q.last_icv (effective_pih q) (branch_rows b d.submissions) h.0,
      )

-- On linked chains a booking that Book hands out is for the branch of the message, and continues its
-- chain: its number is one more than the count of the invoices committed for the branch, and its previous
-- hash is that of the latest of them, or the genesis hash where there is none.
pub book_continues :
    (lease : ℕ) (m : Message) (w : World) (b : Booking)
    → ChainOk w.db
    → (book lease m w).0 ≡ ok b
    → (b.branch_id ≡ m.branch_id)
      × (b.icv ≡ suc (length (branch_rows m.branch_id w.db.submissions)))
      × (b.pih ≡ last_hash (branch_rows m.branch_id w.db.submissions))
book_continues lease m w b linked h =
    let next : IsNext m w.db b = Yields-elim (book lease m) (book-IsNext lease m w) h in
    let (small, counts, last) =
      head-continues w.db m.branch_id next.chain_row (find_row (of_branch m.branch_id) w.db.chains)
        next.found (linked.heads m.branch_id) in
    rw next.booked (refl, ground (arith, small, counts, next.grows), last)
