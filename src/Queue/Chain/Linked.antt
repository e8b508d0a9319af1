-- ===== src/Queue/Chain/Linked.antt =====
-- The committed invoices of a branch form one chain without gaps (queue/chain.go): each has the next
-- ICV and the hash of the one before, down to the genesis hash.
use zatca_integration.Common.{
  ℕ, ◌-◌, ◌<◌, ◌^◌, ◌≡◌, refl, sym, ◌∙◌, ap, Bool, true, false, Option, none, some, List, [], ◌∷◌,
  find_row, update_rows, changed_if, find_row-update_rows_if, find_row_sound, length, if◌then◌else◌,
  arith, inl, inr, Bool-cases,
}
use mathlib.Core.Path.{subst}
use zatca_integration.Common.Int.{ℤ, ◌==ℤ◌, ==ℤ_iff}
use zatca_integration.Text.{Text, text_eq_iff, is_empty}
use zatca_integration.Text.Utf8.{trim_space}
use zatca_integration.Queue.Types.{Booking, SignedInvoice, genesis_pih, validate_invoice}
use zatca_integration.Queue.Message.{UuidLibrary, is_blank}
use zatca_integration.Queue.Chain.{
  effective_pih, of_branch, holds, next_icv, new_submission, advanced, reserved, reserve_row,
  unreserved, is_booking, unreserve_row,
}
use zatca_integration.Queue.Chain.Effects.{CommitEnds, Matches}
use zatca_integration.Db.{ChainRow, Submission, Db}

-- the submissions of one branch, latest first
abbrev pub branch_rows : ℤ → List Submission → List Submission
branch_rows b [] = []
branch_rows b (s ∷ rest) = if s.branch_id ==ℤ b then s ∷ branch_rows b rest else branch_rows b rest

-- `icv` and `pih` are the number and the hash of the latest invoice of the list.
abbrev pub Linked : ℕ → Text → List Submission → Type 0
Linked icv pih [] = (icv ≡ 0) × (pih ≡ genesis_pih)
Linked icv pih (s ∷ rest) =
    (s.invoice_icv ≡ icv)
    × (s.invoice_hash ≡ pih)
    × (0 < icv)
    × Linked (icv - 1) s.previous_invoice_hash rest

-- A chain row stands at the head of its branch's invoices, and its number is a uint64.
abbrev pub IsHead : List Submission → ℤ → ChainRow → Type 0
IsHead rows b r = Linked r.last_icv (effective_pih r) (branch_rows b rows) × (r.last_icv < 2 ^ 64)

abbrev pub Heads : List Submission → ℤ → Option ChainRow → Type 0
Heads rows b none = Unit
Heads rows b (some r) = IsHead rows b r

-- So does every chain row of the database.
pub record ChainOk (d : Db) : Type 0 where
  pub heads : (b : ℤ) → Heads d.submissions b (find_row (of_branch b) d.chains)

-- An UPDATE of the reservation columns alone.
Heads-update :
    (p : ChainRow → Bool) (f : ChainRow → ChainRow) (rows : List Submission) (b : ℤ)
    (chains : List ChainRow)
    → ((r : ChainRow) → (f r).branch_id ≡ r.branch_id)
    → ((r : ChainRow) → IsHead rows b r → IsHead rows b (f r))
    → Heads rows b (find_row (of_branch b) chains)
    → Heads rows b (find_row (of_branch b) (update_rows p f chains))
Heads-update p f rows b chains same keep h =
    rw (find_row-update_rows_if p (of_branch b) f chains (λ x. ap (λ k. k ==ℤ b) (same x)))
      (at (find_row (of_branch b) chains) h)
  where
    at : (o : Option ChainRow) → Heads rows b o → Heads rows b (changed_if p f o)
    at none k = tt
    at (some r) k = pick (p r) r k
      where
        pick : (c : Bool) (r : ChainRow) → IsHead rows b r → IsHead rows b (if c then f r else r)
        pick true r k = keep r k
        pick false r k = k

pub reserve_row-ChainOk : (b : Booking) (t : ℕ) (d : Db) → ChainOk d → ChainOk (reserve_row b t d).1
unfolding reserve_row
reserve_row-ChainOk b t d ok = record {
  heads = λ k.
      Heads-update (of_branch b.branch_id) (reserved b t) d.submissions k d.chains (λ r. refl)
        (λ r h. h) (ok.heads k);
}

pub unreserve_row-ChainOk : (b : Booking) (d : Db) → ChainOk d → ChainOk (unreserve_row b d).1
unfolding unreserve_row
unreserve_row-ChainOk b d ok = record {
  heads = λ k.
      Heads-update (is_booking b) unreserved d.submissions k d.chains (λ r. refl) (λ r h. h)
        (ok.heads k);
}

holds_lem :
    (r : ChainRow) (b : Booking)
    → holds r b ≡ true
    → (next_icv r.last_icv ≡ b.icv) × (effective_pih r ≡ b.pih)
unfolding holds
holds_lem r b h = ground (arith, text_eq_iff (effective_pih r) b.pih)

validate_invoice_lem :
    (uuid : UuidLibrary) (i : SignedInvoice)
    → validate_invoice uuid i ≡ none
    → (0 < i.icv) × (is_blank i.hash ≡ false)
unfolding validate_invoice
validate_invoice_lem uuid i h = ground arith

not_blank-not_empty : (s : Text) → is_blank s ≡ false → is_empty s ≡ false
unfolding is_blank trim_space
not_blank-not_empty [] h = cc
not_blank-not_empty (c ∷ s) h = refl

next_icv_pred : (n : ℕ) → n < 2 ^ 64 → 0 < next_icv n → next_icv n - 1 ≡ n
next_icv_pred n h k = omega arith

next_icv_lt : (n : ℕ) → next_icv n < 2 ^ 64
next_icv_lt n = omega arith

module _ (uuid : UuidLibrary) (b : Booking) (i : SignedInvoice) (m : Matches b i)
    (valid : validate_invoice uuid i ≡ none) (rows : List Submission) (id : ℕ) where
  advanced-IsHead :
      (r : ChainRow)
      → holds r b ≡ true
      → IsHead rows b.branch_id r
      → IsHead (new_submission id i ∷ rows) b.branch_id (advanced i r)
  advanced-IsHead r held h =
      let (number, hash) = holds_lem r b held in
      let (positive, shown) = validate_invoice_lem uuid i valid in
      let icv : i.icv ≡ next_icv r.last_icv = m.icv ∙ sym number in
      let last : i.icv - 1 ≡ r.last_icv =
        rw icv (next_icv_pred r.last_icv h.1 (subst (λ n. 0 < n) icv positive)) in
      let pih : i.pih ≡ effective_pih r = m.pih ∙ sym hash in
      let own : (i.branch_id ==ℤ b.branch_id) ≡ true =
        (==ℤ_iff i.branch_id b.branch_id).1 m.branch in
      rw (own, not_blank-not_empty i.hash shown)
        ((refl, refl, positive, rw (last, pih) h.0), rw icv (next_icv_lt r.last_icv))

  other-IsHead :
      (k : ℤ) (r : ChainRow)
      → (b.branch_id ==ℤ k) ≡ false
      → IsHead rows k r
      → IsHead (new_submission id i ∷ rows) k r
  other-IsHead k r other h = rw (m.branch, other) h

  advanced-Heads :
      (k : ℤ) (chains : List ChainRow) (c : ChainRow)
      → find_row (of_branch b.branch_id) chains ≡ some c
      → holds c b ≡ true
      → ((j : ℤ) → Heads rows j (find_row (of_branch j) chains))
      → Heads
          (new_submission id i ∷ rows)
          k
          (find_row (of_branch k) (update_rows (of_branch b.branch_id) (advanced i) chains))
  advanced-Heads k chains c found held heads =
      rw
        (find_row-update_rows_if (of_branch b.branch_id) (of_branch k) (advanced i) chains
          (λ x. refl))
        (elim (Bool-cases (b.branch_id ==ℤ k)) [
          | inl same ↦
              let e : b.branch_id ≡ k = (==ℤ_iff b.branch_id k).0 same in
              subst
                (λ j.
                  Heads (new_submission id i ∷ rows) j (
                    changed_if (of_branch b.branch_id) (advanced i)
                      (find_row (of_branch j) chains)))
                e
                (rw (found, find_row_sound (of_branch b.branch_id) chains c found)
                  (advanced-IsHead c held
                    (subst (Heads rows b.branch_id) found (heads b.branch_id))))
          | inr other ↦ untouched (find_row (of_branch k) chains) refl other (heads k)
        ])
    where
      untouched :
          (o : Option ChainRow)
          → find_row (of_branch k) chains ≡ o
          → (b.branch_id ==ℤ k) ≡ false
          → Heads rows k o
          → Heads (new_submission id i ∷ rows) k (changed_if (of_branch b.branch_id) (advanced i) o)
      untouched none e other h = tt
      untouched (some r) e other h =
          let mine : (r.branch_id ==ℤ k) ≡ true = find_row_sound (of_branch k) chains r e in
          let theirs : (r.branch_id ==ℤ b.branch_id) ≡ false = ground (
            arith,
            ==ℤ_iff r.branch_id k,
            ==ℤ_iff r.branch_id b.branch_id,
            ==ℤ_iff b.branch_id k,
          ) in
          rw theirs (other-IsHead k r other h)

pub commit-ChainOk :
    (uuid : UuidLibrary) (b : Booking) (i : SignedInvoice) (d d' : Db)
    → CommitEnds uuid b i d d'
    → ChainOk d
    → ChainOk d'
commit-ChainOk uuid b i d d' (inl same) ok = subst ChainOk (sym same) ok
commit-ChainOk uuid b i d d' (inr (c, m, valid)) ok = record {
  heads = λ k.
      rw (c.submissions_after, c.chains_after)
        (advanced-Heads uuid b i m valid d.submissions d.next_id k d.chains c.chain_row c.found
          c.held ok.heads);
}

-- A submission with the same number, branch and hashes.
pub record SameLink (s t : Submission) : Type 0 where
  pub branch_same : t.branch_id ≡ s.branch_id
  pub icv_same : t.invoice_icv ≡ s.invoice_icv
  pub hash_same : t.invoice_hash ≡ s.invoice_hash
  pub pih_same : t.previous_invoice_hash ≡ s.previous_invoice_hash

module _ (p : Submission → Bool) (f : Submission → Submission)
    (same : (s : Submission) → SameLink s (f s)) where
  link_kept :
      (b : ℤ) (s t : Submission) (old new : List Submission) (icv : ℕ) (pih : Text)
      → SameLink s t
      → ((n : ℕ) (q : Text) → Linked n q old → Linked n q new)
      → Linked icv pih (if s.branch_id ==ℤ b then s ∷ old else old)
      → Linked icv pih (if t.branch_id ==ℤ b then t ∷ new else new)
  link_kept b s t old new icv pih e step h =
      subst (λ k. Linked icv pih (if k ==ℤ b then t ∷ new else new)) (sym e.branch_same)
        (at (s.branch_id ==ℤ b) h)
    where
      at :
          (c : Bool)
          → Linked icv pih (if c then s ∷ old else old)
          → Linked icv pih (if c then t ∷ new else new)
      at true (i, q, positive, rest) = (
        e.icv_same ∙ i,
        e.hash_same ∙ q,
        positive,
        subst (λ r. Linked (icv - 1) r new) (sym e.pih_same)
            (step (icv - 1) s.previous_invoice_hash rest),
      )
      at false k = step icv pih k

  changed-SameLink : (c : Bool) (s : Submission) → SameLink s (if c then f s else s)
  changed-SameLink true s = same s
  changed-SameLink false s = record {
    branch_same = refl;
    icv_same = refl;
    hash_same = refl;
    pih_same = refl;
  }

  update-Linked :
      (b : ℤ) (rows : List Submission) (icv : ℕ) (pih : Text)
      → Linked icv pih (branch_rows b rows)
      → Linked icv pih (branch_rows b (update_rows p f rows))
  update-Linked b [] icv pih h = h
  update-Linked b (s ∷ rows) icv pih h =
      link_kept b s (if p s then f s else s) (branch_rows b rows)
        (branch_rows b (update_rows p f rows)) icv pih (changed-SameLink (p s) s)
        (update-Linked b rows) h

  pub update-ChainOk :
      (d : Db) → ChainOk d → ChainOk (record d { submissions = update_rows p f d.submissions })
  update-ChainOk d ok = record { heads = λ k. at k (find_row (of_branch k) d.chains) (ok.heads k) }
    where
      at :
          (k : ℤ) (o : Option ChainRow)
          → Heads d.submissions k o
          → Heads (update_rows p f d.submissions) k o
      at k none h = tt
      at k (some r) h = (update-Linked k d.submissions r.last_icv (effective_pih r) h.0, h.1)

pub Linked-length :
    (n : ℕ) (pih : Text) (rows : List Submission) → Linked n pih rows → n ≡ length rows
Linked-length n pih [] h = h.0
Linked-length n pih (s ∷ rows) (icv, hash, positive, rest) =
    omega (arith, positive, Linked-length (n - 1) s.previous_invoice_hash rows rest)
