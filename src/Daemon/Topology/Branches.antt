-- ===== src/Daemon/Topology/Branches.antt =====
-- What the steps of cmd/daemon/reconcile.go do to the entries of `workers` of each branch.
use zatca_integration.Common.{
  ℕ, ◌^◌, ◌<◌, ◌≡◌, refl, sym, ap, ◌∙◌, ◌≢◌, Bool, true, false, not, ◌&&◌, ◌||◌, none, some, List,
  [], ◌∷◌, ◌++◌, All, any, ◌==◌, Bool-cases, inl, inr, arith,
}
use zatca_integration.Common.Int.{ℤ, pos, negsuc, ◌==ℤ◌, ==ℤ_iff}
use zatca_integration.Text.{Text, text_eq, text_eq_iff, text_eq_refl, has_prefix}
use zatca_integration.Text.Decimal.{
  format_int, format_nat, format_nat-IsDigit, value-format_nat, value_from, IsDigit,
}
use zatca_integration.Daemon.Branches.{branch_key}
use zatca_integration.Daemon.Topology.{
  TenantContext, Worker, Topology, Platform, find_tenant, delete_where, after_colon, digits_of,
  scan_int, branch_id_from_key, remove_tenant, has_serial, has_key, start_branch, start_branches,
  stop_idle, reconcile_branches,
}
use zatca_integration.Daemon.Topology.Served.{branch_key-prefix, append_assoc, has_prefix-append}
use zatca_integration.Queue.Message.Keys.{Lacks, split_first}

-- a worker has_worker for this key
abbrev pub has_worker : Text → Topology → Bool
has_worker key s = any (has_key key) s.workers

-- the entry of an ended worker
abbrev pub is_ended : Text → Worker → Bool
is_ended key w = has_key key w && w.ended

-- `workers` holds the key of a worker that has ended
abbrev pub has_ended : Text → Topology → Bool
has_ended key s = any (is_ended key) s.workers

-- a branch id of the database: positive, and an int64
abbrev pub IsBranchId : ℤ → Type 0
IsBranchId (pos n) = (0 < n) × (n < 2 ^ 63)
IsBranchId (negsuc n) = ⊥

-- Workers are deleted by a test on their keys.
any-delete_where :
    (key : Text) (p : Text → Bool) (workers : List Worker)
    → any (has_key key) (delete_where (λ w. p w.key) workers)
      ≡ (not (p key) && any (has_key key) workers)
unfolding delete_where
any-delete_where key p [] = ground arith
any-delete_where key p (w ∷ workers) = elim (Bool-cases (text_eq key w.key)) [
  | inl same ↦
      let e : w.key ≡ key = sym ((text_eq_iff key w.key).0 same) in
      ground (arith, any-delete_where key p workers, ap p e, same)
  | inr other ↦ ground (arith, any-delete_where key p workers, other)
]

ended-delete_where :
    (key : Text) (p : Text → Bool) (workers : List Worker)
    → any (is_ended key) (delete_where (λ w. p w.key) workers)
      ≡ (not (p key) && any (is_ended key) workers)
unfolding delete_where
ended-delete_where key p [] = ground arith
ended-delete_where key p (w ∷ workers) = elim (Bool-cases (text_eq key w.key)) [
  | inl same ↦
      let e : w.key ≡ key = sym ((text_eq_iff key w.key).0 same) in
      ground (arith, ended-delete_where key p workers, ap p e, same)
  | inr other ↦ ground (arith, ended-delete_where key p workers, other)
]

remove_tenant-has_worker :
    (db key : Text) (s : Topology)
    → has_worker key (remove_tenant db s)
      ≡ (not (has_prefix (db ++ b':' ∷ []) key) && has_worker key s)
unfolding remove_tenant
remove_tenant-has_worker db key s = any-delete_where key (has_prefix (db ++ b':' ∷ [])) s.workers

has_prefix-split : (p s : Text) → has_prefix p s ≡ true → (rest : Text) × (s ≡ p ++ rest)
unfolding has_prefix
has_prefix-split [] s h = (s, refl)
has_prefix-split (c ∷ p) [] h = absurd (ground (arith, h))
has_prefix-split (c ∷ p) (d ∷ s) h =
    let (rest, e) = has_prefix-split p s (ground (arith, h)) in (rest, ground (arith, h, e))

digits_of-All : (s : Text) → All IsDigit s → digits_of s ≡ s
digits_of-All [] h = refl
digits_of-All (c ∷ s) (digit, rest) = ground (arith, digits_of-All s rest, digit)

no_colon : (s : Text) → All IsDigit s → any (◌==◌ b':') s ≡ false
no_colon [] h = refl
no_colon (c ∷ s) (digit, rest) = ground (arith, no_colon s rest, digit)

after_colon-digits :
    (db digits : Text) → All IsDigit digits → after_colon (db ++ b':' ∷ digits) ≡ digits
unfolding after_colon
after_colon-digits [] digits h = ground (arith, no_colon digits h)
after_colon-digits (c ∷ db) digits h =
    ground (arith, after_colon-digits db digits h, has_colon db digits)
  where
    has_colon : (db digits : Text) → any (◌==◌ b':') (db ++ b':' ∷ digits) ≡ true
    has_colon [] digits = ground arith
    has_colon (c ∷ db) digits = ground (arith, has_colon db digits)

scan_int-digits :
    (digits : Text) (n : ℕ)
    → All IsDigit digits
    → value_from 0 digits ≡ n
    → 0 < n
    → n < 2 ^ 63
    → scan_int digits ≡ pos n
unfolding scan_int value_from
scan_int-digits [] n h e above below = absurd (omega (arith, e, above))
scan_int-digits (c ∷ s) n (digit, rest) e above below = ground (arith, digits_of-All s rest, e)

-- The id of a branch is read back from its key.
branch_id-branch_key : (db : Text) (b : ℤ) → IsBranchId b → branch_id_from_key (branch_key db b) ≡ b
unfolding branch_id_from_key branch_key format_int
branch_id-branch_key db (pos n) (above, below) =
    ap scan_int (after_colon-digits db (format_nat n) (format_nat-IsDigit n))
    ∙ scan_int-digits (format_nat n) n (format_nat-IsDigit n) (value-format_nat n) above below
branch_id-branch_key db (negsuc n) h = elim h [ ]

other_prefix :
    (d e : Text) (b : ℤ)
    → Lacks b':' d
    → Lacks b':' e
    → e ≢ d
    → has_prefix (d ++ b':' ∷ []) (branch_key e b) ≡ false
unfolding branch_key
other_prefix d e b plain_d plain_e differ =
    elim (Bool-cases (has_prefix (d ++ b':' ∷ []) (e ++ b':' ∷ format_int b))) [
      | inr other ↦ other
      | inl held ↦
          let (rest, q) = has_prefix-split (d ++ b':' ∷ []) (e ++ b':' ∷ format_int b) held in
          absurd (
            differ
              (split_first b':' e d (format_int b) rest plain_e plain_d
                (q ∙ append_assoc d (b':' ∷ []) rest)).0)
    ]

-- Removing a tenant takes the worker of each of its branches from `workers`, and leaves the keys of the
-- branches of any other database as they are, where neither name holds a colon.
pub remove_tenant-Isolated :
    (d e : Text) (b : ℤ) (s : Topology)
    → Lacks b':' d
    → Lacks b':' e
    → e ≢ d
    → (has_worker (branch_key d b) (remove_tenant d s) ≡ false)
      × (has_worker (branch_key e b) (remove_tenant d s) ≡ has_worker (branch_key e b) s)
remove_tenant-Isolated d e b s plain_d plain_e differ = (
  remove_tenant-has_worker d (branch_key d b) s
      ∙ ap (λ t. not t && has_worker (branch_key d b) s) (branch_key-prefix d b),
  remove_tenant-has_worker d (branch_key e b) s
      ∙ ap (λ t. not t && has_worker (branch_key e b) s)
          (other_prefix d e b plain_d plain_e differ),
)

-- A database whose name continues that of the removed tenant after a colon loses all its workers too.
pub remove_tenant-Takes :
    (d rest : Text) (b : ℤ) (s : Topology)
    → has_worker (branch_key (d ++ b':' ∷ rest) b) (remove_tenant d s) ≡ false
unfolding branch_key
remove_tenant-Takes d rest b s =
    remove_tenant-has_worker d ((d ++ b':' ∷ rest) ++ b':' ∷ format_int b) s
    ∙ ap (λ t. not t && has_worker ((d ++ b':' ∷ rest) ++ b':' ∷ format_int b) s) held
  where
    held : has_prefix (d ++ b':' ∷ []) ((d ++ b':' ∷ rest) ++ b':' ∷ format_int b) ≡ true
    held =
        ap (has_prefix (d ++ b':' ∷ [])) (
          append_assoc d (b':' ∷ rest) (b':' ∷ format_int b)
          ∙ sym (append_assoc d (b':' ∷ []) (rest ++ b':' ∷ format_int b)))
        ∙ has_prefix-append (d ++ b':' ∷ []) (rest ++ b':' ∷ format_int b)

-- a started branch
abbrev is_key_of : Text → Text → ℤ → Bool
is_key_of key db b = text_eq key (branch_key db b)

start_branch-has_worker :
    (tc : TenantContext) (db key : Text) (b : ℤ) (s : Topology)
    → has_serial tc (find_tenant db s.tenants) ≡ true
    → has_worker key (start_branch tc db b s) ≡ (is_key_of key db b || has_worker key s)
unfolding start_branch
start_branch-has_worker tc db key b s h =
    elim (Bool-cases (any (has_key (branch_key db b)) s.workers)) [
      | inr idle ↦ rw (h, idle) refl
      | inl running ↦
          rw (h, running)
            (elim (Bool-cases (is_key_of key db b)) [
              | inr other ↦ rw other refl
              | inl same ↦
                  let e : branch_key db b ≡ key =
                    sym ((text_eq_iff key (branch_key db b)).0 same) in
                  let up : has_worker key s ≡ true = ap (λ k. has_worker k s) (sym e) ∙ running in
                  up ∙ ap (λ t. t || has_worker key s) (sym same)
            ])
    ]

pub start_branch-tenants :
    (tc : TenantContext) (db : Text) (b : ℤ) (s : Topology)
    → (start_branch tc db b s).tenants ≡ s.tenants
unfolding start_branch
start_branch-tenants tc db b s = ground arith

start_branches-has_worker :
    (tc : TenantContext) (db key : Text) (branches : List ℤ) (s : Topology)
    → has_serial tc (find_tenant db s.tenants) ≡ true
    → has_worker key (start_branches tc db branches s)
      ≡ (any (is_key_of key db) branches || has_worker key s)
unfolding start_branches
start_branches-has_worker tc db key [] s h = refl
start_branches-has_worker tc db key (b ∷ branches) s h =
    let kept : has_serial tc (find_tenant db (start_branch tc db b s).tenants) ≡ true =
      ap (λ t. has_serial tc (find_tenant db t)) (start_branch-tenants tc db b s) ∙ h in
    ground (
      arith,
      start_branches-has_worker tc db key branches (start_branch tc db b s) kept,
      start_branch-has_worker tc db key b s h,
    )

stop_idle-has_worker :
    (tc : TenantContext) (db key : Text) (branches : List ℤ) (s : Topology)
    → has_worker key (stop_idle tc db branches s) ≡ (
        not
          (has_prefix (db ++ b':' ∷ []) key && not (any (◌==ℤ◌ (branch_id_from_key key)) branches))
        && has_worker key s)
unfolding stop_idle
stop_idle-has_worker tc db key branches s =
    any-delete_where key
      (λ k. has_prefix (db ++ b':' ∷ []) k && not (any (◌==ℤ◌ (branch_id_from_key k)) branches))
      s.workers

active-started :
    (db : Text) (b : ℤ) (branches : List ℤ)
    → any (◌==ℤ◌ b) branches ≡ true
    → any (is_key_of (branch_key db b) db) branches ≡ true
active-started db b [] h = h
active-started db b (c ∷ branches) h = elim (Bool-cases (b ==ℤ c)) [
  | inl same ↦
      let e : b ≡ c = (==ℤ_iff b c).0 same in
      let own : is_key_of (branch_key db b) db c ≡ true =
        ap (λ x. is_key_of (branch_key db b) db x) (sym e) ∙ text_eq_refl (branch_key db b) in
      ap (λ t. t || any (is_key_of (branch_key db b) db) branches) own
  | inr other ↦ ground (arith, active-started db b branches, other, h)
]

none_started :
    (db key : Text) (branches : List ℤ)
    → has_prefix (db ++ b':' ∷ []) key ≡ false
    → any (is_key_of key db) branches ≡ false
none_started db key [] h = refl
none_started db key (b ∷ branches) h = elim (Bool-cases (is_key_of key db b)) [
  | inl same ↦
      let e : key ≡ branch_key db b = (text_eq_iff key (branch_key db b)).0 same in
      let shown : has_prefix (db ++ b':' ∷ []) key ≡ true = rw e (branch_key-prefix db b) in
      absurd (ground (arith, h, shown))
  | inr other ↦ ground (arith, other, none_started db key branches h)
]

start_branch-has_ended :
    (tc : TenantContext) (db key : Text) (b : ℤ) (s : Topology)
    → has_ended key (start_branch tc db b s) ≡ has_ended key s
unfolding start_branch
start_branch-has_ended tc db key b s = ground arith

start_branches-has_ended :
    (tc : TenantContext) (db key : Text) (branches : List ℤ) (s : Topology)
    → has_ended key (start_branches tc db branches s) ≡ has_ended key s
unfolding start_branches
start_branches-has_ended tc db key [] s = refl
start_branches-has_ended tc db key (b ∷ branches) s =
    start_branches-has_ended tc db key branches (start_branch tc db b s)
    ∙ start_branch-has_ended tc db key b s

stop_idle-has_ended :
    (tc : TenantContext) (db key : Text) (branches : List ℤ) (s : Topology)
    → has_ended key (stop_idle tc db branches s) ≡ (
        not
          (has_prefix (db ++ b':' ∷ []) key && not (any (◌==ℤ◌ (branch_id_from_key key)) branches))
        && has_ended key s)
unfolding stop_idle
stop_idle-has_ended tc db key branches s =
    ended-delete_where key
      (λ k. has_prefix (db ++ b':' ∷ []) k && not (any (◌==ℤ◌ (branch_id_from_key k)) branches))
      s.workers

-- Reconciling the branches of a tenant that is served, where the database answers its active branches:
-- there is no error, afterwards `workers` holds the key of a branch of the database exactly when the
-- branch is active, and each key without the prefix of the database as before. A worker of an active
-- branch that had ended is not started again: its entry stays, and goes only where its branch is not
-- active. Branch ids are positive int64 numbers.
pub reconcile_branches-Exact :
    (p : Platform) (tc : TenantContext) (branches : List ℤ) (b : ℤ) (key : Text) (s : Topology)
    → has_serial tc (find_tenant tc.tenant.db_name s.tenants) ≡ true
    → p.active_branches tc.tenant.db_name ≡ some branches
    → IsBranchId b
    → has_prefix (tc.tenant.db_name ++ b':' ∷ []) key ≡ false
    → ((reconcile_branches p tc s).0 ≡ none)
      × (has_worker (branch_key tc.tenant.db_name b) (reconcile_branches p tc s).1
          ≡ any (◌==ℤ◌ b) branches)
      × (has_ended (branch_key tc.tenant.db_name b) (reconcile_branches p tc s).1
          ≡ (any (◌==ℤ◌ b) branches && has_ended (branch_key tc.tenant.db_name b) s))
      × (has_worker key (reconcile_branches p tc s).1 ≡ has_worker key s)
unfolding reconcile_branches
reconcile_branches-Exact p tc branches b key s known found id outside =
    let db : Text = tc.tenant.db_name in
    let started : Topology = start_branches tc db branches s in
    let own_id : any (◌==ℤ◌ (branch_id_from_key (branch_key db b))) branches
        ≡ any (◌==ℤ◌ b) branches =
      ap (λ t. any (◌==ℤ◌ t) branches) (branch_id-branch_key db b id) in
    rw found (
      refl,
      stop_idle-has_worker tc db (branch_key db b) branches started
          ∙ ground (
            arith,
            branch_key-prefix db b,
            own_id,
            start_branches-has_worker tc db (branch_key db b) branches s known,
            active-started db b branches,
          ),
      stop_idle-has_ended tc db (branch_key db b) branches started
          ∙ ground (
            arith,
            branch_key-prefix db b,
            own_id,
            start_branches-has_ended tc db (branch_key db b) branches s,
          ),
      stop_idle-has_worker tc db key branches started
          ∙ ground (
            arith,
            outside,
            start_branches-has_worker tc db key branches s known,
            none_started db key branches outside,
          ),
    )
