-- ===== src/Queue/Stream/Sent.antt =====
-- What a delivery hands to ZATCA (queue/ordered_stream.go): only invoices that stand committed.
use zatca_integration.Common.{
  ◌≡◌, refl, sym, ◌∙◌, true, Option, none, some, List, [], ◌∷◌, All, find_row, find_row_sound,
  Bool-cases, inl, inr, arith,
}
use mathlib.Core.Path.{subst}
use zatca_integration.Common.Int.{ℤ, ◌==ℤ◌, ==ℤ_iff}
use zatca_integration.Errors.{Failure, Result, ok, err}
use zatca_integration.Queue.Message.{UuidLibrary, Message}
use zatca_integration.Queue.Types.{Booking, SignedInvoice, is_pending}
use zatca_integration.Queue.Chain.{of_bill, has_id, book, release_booking, commit}
use zatca_integration.Queue.Chain.Effects.{Committed}
use zatca_integration.Queue.Chain.Commits.{commit-Committed}
use zatca_integration.Queue.Record.{stored_invoice, join_bill, with_bill, committed, stored}
use zatca_integration.Queue.Record.Final.{row_of, Stands, KeepsInvoices, invoices_kept}
use zatca_integration.Queue.Rules.{Rules}
use zatca_integration.Queue.Kept.{kept_rules, Frame-rules}
use zatca_integration.Queue.Stream.{
  Services, Delivery, lift, check_stored, check_built, joined, drop_booking, or_drop, commit_built,
  check_and_commit, build_and_commit, use_stored, invoice_for, handle_message,
}
use zatca_integration.Queue.Stream.Keeps.{handle-Safe}
use zatca_integration.Db.{Submission, BillRow, Db}
use zatca_integration.Db.Program.{
  World, M, Sql, row, no_rows, duplicate, lock_busy, broken, expect, return, raise, ◌>>=◌, try,
}
use zatca_integration.Db.Program.Rules.{
  Frame, Safe, OnDb, OnOk, Yields, Yields-bind, Yields-return, Yields-raise, Yields-exec,
  Yields_any, Answers, Answers-row,
}

-- The submission row of an invoice, as Commit writes it.
pub record IsRowOf (i : SignedInvoice) (s : Submission) : Type 0 where
  pub branch_same : s.branch_id ≡ i.branch_id
  pub icv_same : s.invoice_icv ≡ i.icv
  pub pih_same : s.previous_invoice_hash ≡ i.pih
  pub uuid_same : s.invoice_uuid ≡ i.uuid
  pub hash_same : s.invoice_hash ≡ i.hash
  pub kind_same : s.invoice_kind ≡ i.kind
  pub xml_same : s.signed_xml ≡ i.signed_xml

abbrev HasRow : SignedInvoice → Option Submission → Type 0
HasRow i none = ⊥
HasRow i (some s) = IsRowOf i s

-- The invoice stands committed for its bill.
abbrev pub IsCommitted : Db → SignedInvoice → Type 0
IsCommitted d i = HasRow i (row_of i.source_id d)

stored_invoice-IsRowOf : (s : Submission) (b : BillRow) → IsRowOf (stored_invoice s b) s
unfolding stored_invoice
stored_invoice-IsRowOf s b = elim (Bool-cases (is_pending s.outcome_state)) [
  | inl h ↦ rw h (record {
    branch_same = refl;
    icv_same = refl;
    pih_same = refl;
    uuid_same = refl;
    hash_same = refl;
    kind_same = refl;
    xml_same = refl;
  })
  | inr h ↦ rw h (record {
    branch_same = refl;
    icv_same = refl;
    pih_same = refl;
    uuid_same = refl;
    hash_same = refl;
    kind_same = refl;
    xml_same = refl;
  })
]

stored_source : (s : Submission) (b : BillRow) → (stored_invoice s b).source_id ≡ s.bill_id
unfolding stored_invoice
stored_source s b = elim (Bool-cases (is_pending s.outcome_state)) [
  | inl h ↦ rw h refl
  | inr h ↦ rw h refl
]

committed-IsCommitted :
    (k : ℤ) (d : Db) (i : SignedInvoice) → committed k d ≡ some i → IsCommitted d i
unfolding committed
committed-IsCommitted k d i h = at (row_of k d) refl h
  where
    with :
        (s : Submission) (o : Option BillRow)
        → row_of k d ≡ some s
        → with_bill s o ≡ some i
        → IsCommitted d i
    with s none found e = cc
    with s (some b) found e =
        let same : stored_invoice s b ≡ i = cc in
        let own : s.bill_id ≡ k =
          (==ℤ_iff s.bill_id k).0 (find_row_sound (of_bill k) d.submissions s found) in
        let source : (stored_invoice s b).source_id ≡ k = stored_source s b ∙ own in
        subst (IsCommitted d) same (
          subst (λ j. HasRow (stored_invoice s b) (row_of j d)) (sym source)
            (subst (HasRow (stored_invoice s b)) (sym found) (stored_invoice-IsRowOf s b)))

    at : (o : Option Submission) → row_of k d ≡ o → join_bill d.bills o ≡ some i → IsCommitted d i
    at none found e = cc
    at (some s) found e = with s (find_row (has_id s.bill_id) d.bills) found e

Committed-IsCommitted :
    (b : Booking) (i : SignedInvoice) (d d' : Db) → Committed b i d d' → IsCommitted d' i
Committed-IsCommitted b i d d' c =
    let own : (i.source_id ==ℤ i.source_id) ≡ true = (==ℤ_iff i.source_id i.source_id).1 refl in
    rw (c.submissions_after, own)
      (record {
        branch_same = refl;
        icv_same = refl;
        pih_same = refl;
        uuid_same = refl;
        hash_same = refl;
        kind_same = refl;
        xml_same = refl;
      })

check_stored_lem :
    (uuid : UuidLibrary) (i : SignedInvoice) (m : Message) (j : SignedInvoice)
    → check_stored uuid i m ≡ ok j
    → i ≡ j
unfolding check_stored
check_stored_lem uuid i m j h = ground arith

module _ {A B : Type 0} {P : B → World → Type 0} {w : World} where
  Yields-try :
      {Q : A → World → Type 0} (m : M A) (f : Result A → M B)
      → Yields w m Q
      → ((a : A) (v : World) → Q a v → Yields v (f (ok a)) P)
      → ((e : Failure) (v : World) → Yields v (f (err e)) P)
      → Yields w (try m >>= f) P
  Yields-try {Q} m f h g k = record { at = split (m w) h.at }
    where
      split : (r : Result A × World) → OnOk Q r → OnOk P (f r.0 r.1)
      split (ok a, v) q = (g a v q).at
      split (err e, v) q = (k e v).at

  Yields-lift :
      (r : Result A) (f : A → M B)
      → ((a : A) → r ≡ ok a → Yields w (f a) P)
      → Yields w (lift r >>= f) P
  Yields-lift (ok a) f h = record { at = (h a refl).at }
  Yields-lift (err e) f h = record { at = tt }

-- A dropped booking is never a success.
drop-Yields :
    {A : Type 0} {P : A → World → Type 0} {w : World} (b : Booking) (e : Failure)
    → Yields w (drop_booking {A = A} b e) P
unfolding drop_booking
drop-Yields b e =
    Yields-try (release_booking b) (λ r. joined e r (raise e)) (Yields_any (release_booking b))
      (λ u v q. Yields-raise e) (λ f v. Yields-raise _)

or_drop-Yields :
    {A B : Type 0} {P : B → World → Type 0} {w : World} (b : Booking) (r : Result A) (f : A → M B)
    → ((a : A) → r ≡ ok a → Yields w (f a) P)
    → Yields w (or_drop b r >>= f) P
or_drop-Yields b (ok a) f h = record { at = (h a refl).at }
or_drop-Yields b (err e) f h =
    Yields-bind {Q = λ a v. ⊥} (drop_booking b e) f (drop-Yields b e) (λ a v q. absurd q)

stored-IsCommitted :
    (k : ℤ) (w : World)
    → Yields w (stored k) (λ o v. (i : SignedInvoice) → o ≡ some i → IsCommitted v.db i)
unfolding stored
stored-IsCommitted k w =
    Yields-exec (λ d. (row (committed k d), d)) expect (λ r u h. at r u h.answers)
  where
    at :
        (r : Sql (Option SignedInvoice)) (u : World)
        → Answers (λ d. (row (committed k d), d)) w.db r u.db
        → Yields u (expect r) (λ o v. (i : SignedInvoice) → o ≡ some i → IsCommitted v.db i)
    at (row o) u h =
        let (own, after) = Answers-row h in
        let same : committed k w.db ≡ o = cc in
        Yields-return o (λ i e. rw after (committed-IsCommitted k w.db i (same ∙ e)))
    at no_rows u h = Yields-raise _
    at duplicate u h = Yields-raise _
    at lock_busy u h = Yields-raise _
    at broken u h = Yields-raise _

module _ (s : Services) (y : Delivery) (m : Message) where
  built :
      (b : Booking) (w : World) → Yields w (build_and_commit s y m b) (λ i v. IsCommitted v.db i)
  built b w = or_drop-Yields b (y.build b) (check_and_commit s y m b) (λ i e.
      or_drop-Yields b (check_built s.uuid i m b) (λ u. commit_built s y m b i)
        (λ u k.
          Yields-try (commit s.uuid b i) (λ r. or_drop b r >>= λ c. return i)
            (commit-Committed s.uuid b i w)
            (λ x v q. record { at = Committed-IsCommitted b i w.db v.db q })
            (λ f v. or_drop-Yields {A = Unit {0}} b (err f) (λ c. return i) (λ a e. cc))))

  used :
      (o : Option SignedInvoice) (w : World)
      → ((i : SignedInvoice) → o ≡ some i → IsCommitted w.db i)
      → Yields w (use_stored s y m o) (λ i v. IsCommitted v.db i)
  used (some i) w h = record { at = at (check_stored s.uuid i m) (check_stored_lem s.uuid i m) }
    where
      at :
          (r : Result SignedInvoice)
          → ((j : SignedInvoice) → r ≡ ok j → i ≡ j)
          → OnOk (λ j v. IsCommitted v.db j) (r, w)
      at (ok j) e = subst (IsCommitted w.db) (e j refl) (h i refl)
      at (err f) e = tt
  used none w h =
      Yields-lift y.prepare (λ p. book s.booking_lease m >>= build_and_commit s y m)
        (λ p e.
          Yields-bind (book s.booking_lease m) (build_and_commit s y m) (Yields_any _)
            (λ b v q. built b v))

  invoice_for-IsCommitted : (w : World) → Yields w (invoice_for s y m) (λ i v. IsCommitted v.db i)
  unfolding invoice_for
  invoice_for-IsCommitted w =
      Yields-bind (stored m.id) (use_stored s y m) (stored-IsCommitted m.id w) (λ o v q. used o v q)

-- All that was sent stands committed.
abbrev pub SentOk : World → Type 0
SentOk w = All (IsCommitted w.db) w.sent

-- Committed invoices stay, and nothing is sent that is not committed.
abbrev KeepsSent : World → World → Type 0
KeepsSent v w = KeepsInvoices v.db w.db × (SentOk v → SentOk w)

IsCommitted-kept :
    (d e : Db) (i : SignedInvoice) → KeepsInvoices d e → IsCommitted d i → IsCommitted e i
IsCommitted-kept d e i k h = at (row_of i.source_id d) (row_of i.source_id e) (k i.source_id) h
  where
    at : (o p : Option Submission) → Stands o p → HasRow i o → HasRow i p
    at none p st r = absurd r
    at (some s) none st r = absurd st
    at (some s) (some t) (st, final) r = record {
      branch_same = st.branch_same ∙ r.branch_same;
      icv_same = st.icv_same ∙ r.icv_same;
      pih_same = st.pih_same ∙ r.pih_same;
      uuid_same = st.uuid_same ∙ r.uuid_same;
      hash_same = st.hash_same ∙ r.hash_same;
      kind_same = st.kind_same ∙ r.kind_same;
      xml_same = st.xml_same ∙ r.xml_same;
    }

All-kept :
    (d e : Db) (sent : List SignedInvoice)
    → KeepsInvoices d e
    → All (IsCommitted d) sent
    → All (IsCommitted e) sent
All-kept d e [] k h = tt
All-kept d e (i ∷ sent) k (h, hs) = (IsCommitted-kept d e i k h, All-kept d e sent k hs)

framed_sent : {A : Type 0} (m : M A) → Safe Frame m → Safe (OnDb KeepsInvoices) m → Safe KeepsSent m
framed_sent m fr kept = record {
  at = λ w. (
    kept.at w,
    λ sent.
        subst (All (IsCommitted (m w).1.db)) (sym (fr.at w).sent_same)
          (All-kept w.db (m w).1.db w.sent (kept.at w) sent),
  );
}

sent_rules : Rules KeepsSent
sent_rules =
    let K = kept_rules invoices_kept in
    let F = Frame-rules in
    record {
      run_refl = λ w. (K.run_refl w, λ sent. sent);
      run_trans = λ u v w p q. (K.run_trans u v w p.0 q.0, λ sent. q.1 (p.1 sent));
      run_query = λ f. framed_sent _ (F.run_query f) (K.run_query f);
      run_transaction = λ m fr h.
          framed_sent _ (F.run_transaction m fr fr)
            (K.run_transaction m fr (record { at = λ w. (h.at w).0 }));
      run_insert = λ m t. framed_sent _ (F.run_insert m t) (K.run_insert m t);
      run_reclaim = λ m t. framed_sent _ (F.run_reclaim m t) (K.run_reclaim m t);
      run_release = λ m. framed_sent _ (F.run_release m) (K.run_release m);
      run_complete = λ m t. framed_sent _ (F.run_complete m t) (K.run_complete m t);
      run_reserve = λ b t. framed_sent _ (F.run_reserve b t) (K.run_reserve b t);
      run_unreserve = λ b. framed_sent _ (F.run_unreserve b) (K.run_unreserve b);
      run_commit = λ uuid b i. framed_sent _ (F.run_commit uuid b i) (K.run_commit uuid b i);
      run_answer =
          λ o status t id. framed_sent _ (F.run_answer o status t id) (K.run_answer o status t id);
      run_log = λ o t id. framed_sent _ (F.run_log o t id) (K.run_log o t id);
      run_issue = λ i. framed_sent _ (F.run_issue i) (K.run_issue i);
    }

handle-KeepsSent :
    (s : Services) (y : Delivery) (m : Message) → Safe KeepsSent (handle_message s y m)
handle-KeepsSent s y m =
    handle-Safe sent_rules (λ m w. ((sent_rules.run_refl w).0, λ sent. sent)) s y m
      (λ i v. IsCommitted v.db i) (invoice_for-IsCommitted s y m)
      (λ i w h. ((sent_rules.run_refl w).0, λ sent. (h, sent)))

-- If every invoice handed to ZATCA so far stands committed for its bill, then so does every invoice
-- handed to it when a delivery has ended, however it ends: its XML, its hashes, its number, its kind,
-- its UUID and its branch are those of the row in zatca_submission.
pub handle-SentOk :
    (s : Services) (y : Delivery) (m : Message) (w : World)
    → SentOk w
    → SentOk (handle_message s y m w).1
handle-SentOk s y m w h = ((handle-KeepsSent s y m).at w).1 h
