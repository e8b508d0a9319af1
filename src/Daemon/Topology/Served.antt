-- ===== src/Daemon/Topology/Served.antt =====
-- Which workers the daemon of cmd/daemon/reconcile.go keeps.
use zatca_integration.Common.{
  ℕ, ◌≡◌, refl, sym, ap, ◌∙◌, ◌⊎◌, inl, inr, Bool, true, false, Option, none, some, List, [], ◌∷◌,
  ◌++◌, All, any, update_rows, ◌==◌, if◌then◌else◌, Bool-cases, arith,
}
use zatca_integration.Common.Int.{ℤ}
use zatca_integration.Text.{Text, text_eq_iff, has_prefix}
use zatca_integration.Text.Decimal.{format_int}
use zatca_integration.Errors.{Error, opaque, Result, ok, err}
use zatca_integration.Tenant.{Tenant, ReconcileResult, reconcile}
use zatca_integration.Daemon.Branches.{branch_key}
use zatca_integration.Daemon.Topology.{
  TenantContext, Worker, Topology, Platform, in_db, find_tenant, delete_where, of_db, remove_tenant,
  has_serial, has_key, start_branch, start_branches, onboard_sub, reconcile_sub, is_idle, stop_idle,
  reconcile_found, reconcile_branches, context_of, enter_tenant, add_tenant, and_error, is_stale,
  remove_stale, add_if_new, add_missing, reconcile_all, settle, settle_accepted, reconcile_registry,
  reconcile_tenants,
}

-- Some element of the list has the property.
abbrev pub Exists : {A : Type 0} → (A → Type 0) → List A → Type 0
Exists P [] = ⊥
Exists P (x ∷ xs) = P x ⊎ Exists P xs

-- The key is that of a branch of a tenant that is served.
abbrev pub IsOwned : List TenantContext → Text → Type 0
IsOwned tenants key = Exists (λ tc. (b : ℤ) × (key ≡ branch_key tc.tenant.db_name b)) tenants

abbrev OwnsAll : List TenantContext → List Worker → Type 0
OwnsAll tenants workers = All (λ (w : Worker). IsOwned tenants w.key) workers

-- Each worker serves a branch of a tenant that the daemon knows.
abbrev pub IsServed : Topology → Type 0
IsServed s = OwnsAll s.tenants s.workers

pub has_prefix-append : (p s : Text) → has_prefix p (p ++ s) ≡ true
unfolding has_prefix
has_prefix-append [] s = refl
has_prefix-append (c ∷ p) s = ground (arith, has_prefix-append p s)

pub append_assoc : (a b c : Text) → (a ++ b) ++ c ≡ a ++ (b ++ c)
append_assoc [] b c = refl
append_assoc (x ∷ a) b c = ap (λ t. x ∷ t) (append_assoc a b c)

-- The key of a branch has the prefix of its database.
pub branch_key-prefix : (db : Text) (b : ℤ) → has_prefix (db ++ b':' ∷ []) (branch_key db b) ≡ true
unfolding branch_key
branch_key-prefix db b =
    ap (has_prefix (db ++ b':' ∷ [])) (sym (append_assoc db (b':' ∷ []) (format_int b)))
    ∙ has_prefix-append (db ++ b':' ∷ []) (format_int b)

-- A key without the prefix of a database is not that of one of its branches.
other_db :
    (db : Text) (tc : TenantContext) (key : Text) (b : ℤ)
    → has_prefix (db ++ b':' ∷ []) key ≡ false
    → key ≡ branch_key tc.tenant.db_name b
    → in_db db tc ≡ false
other_db db tc key b h e = elim (Bool-cases (in_db db tc)) [
  | inr other ↦ other
  | inl same ↦
      let name : tc.tenant.db_name ≡ db = (text_eq_iff tc.tenant.db_name db).0 same in
      let shown : has_prefix (db ++ b':' ∷ []) key ≡ true = rw (e, name) (branch_key-prefix db b) in
      absurd (ground (arith, h, shown))
]

kept-IsOwned :
    (db : Text) (tenants : List TenantContext) (key : Text)
    → has_prefix (db ++ b':' ∷ []) key ≡ false
    → IsOwned tenants key
    → IsOwned (delete_where (in_db db) tenants) key
unfolding delete_where
kept-IsOwned db [] key h o = elim o [ ]
kept-IsOwned db (tc ∷ rest) key h (inl (b, e)) = rw (other_db db tc key b h e) (inl (b, e))
kept-IsOwned db (tc ∷ rest) key h (inr later) =
    let others : IsOwned (delete_where (in_db db) rest) key = kept-IsOwned db rest key h later in
    elim (Bool-cases (in_db db tc)) [
      | inl same ↦ rw same others
      | inr other ↦ rw other (inr others)
    ]

removed-OwnsAll :
    (db : Text) (tenants : List TenantContext) (workers : List Worker)
    → OwnsAll tenants workers
    → OwnsAll (delete_where (in_db db) tenants) (delete_where (of_db db) workers)
unfolding delete_where
removed-OwnsAll db tenants [] h = tt
removed-OwnsAll db tenants (w ∷ workers) (own, rest) =
    let others : OwnsAll (delete_where (in_db db) tenants) (delete_where (of_db db) workers) =
      removed-OwnsAll db tenants workers rest in
    elim (Bool-cases (of_db db w)) [
      | inl gone ↦ rw gone others
      | inr kept ↦ rw kept (kept-IsOwned db tenants w.key kept own, others)
    ]

deleted-OwnsAll :
    (p : Worker → Bool) (tenants : List TenantContext) (workers : List Worker)
    → OwnsAll tenants workers
    → OwnsAll tenants (delete_where p workers)
unfolding delete_where
deleted-OwnsAll p tenants [] h = tt
deleted-OwnsAll p tenants (w ∷ workers) (own, rest) =
    let others : OwnsAll tenants (delete_where p workers) =
      deleted-OwnsAll p tenants workers rest in
    elim (Bool-cases (p w)) [ inl gone ↦ rw gone others | inr kept ↦ rw kept (own, others) ]

-- Workers stay owned when each owned key stays so.
mapped-OwnsAll :
    (before after : List TenantContext) (workers : List Worker)
    → ((key : Text) → IsOwned before key → IsOwned after key)
    → OwnsAll before workers
    → OwnsAll after workers
mapped-OwnsAll before after [] keeps h = tt
mapped-OwnsAll before after (w ∷ workers) keeps (own, rest) =
    (keeps w.key own, mapped-OwnsAll before after workers keeps rest)

expecting-IsOwned :
    (serial : ℕ) (branches : List ℤ) (tenants : List TenantContext) (key : Text)
    → IsOwned tenants key
    → IsOwned
        (update_rows
          (λ t. t.serial == serial)
          (λ t. record t { expected_branches = branches })
          tenants)
        key
expecting-IsOwned serial branches [] key o = elim o [ ]
expecting-IsOwned serial branches (tc ∷ rest) key (inl (b, e)) =
    elim (Bool-cases (tc.serial == serial)) [
      | inl same ↦ rw same (inl (b, e))
      | inr other ↦ rw other (inl (b, e))
    ]
expecting-IsOwned serial branches (tc ∷ rest) key (inr later) =
    inr (expecting-IsOwned serial branches rest key later)

-- A branch whose tenant is deleted belongs to the database that is deleted.
moved-IsOwned :
    (db : Text) (tenants : List TenantContext) (key : Text)
    → IsOwned tenants key
    → ((b : ℤ) × (key ≡ branch_key db b)) ⊎ IsOwned (delete_where (in_db db) tenants) key
unfolding delete_where
moved-IsOwned db [] key o = elim o [ ]
moved-IsOwned db (tc ∷ rest) key (inl (b, e)) = elim (Bool-cases (in_db db tc)) [
  | inl same ↦ inl (b, e ∙ ap (λ d. branch_key d b) ((text_eq_iff tc.tenant.db_name db).0 same))
  | inr other ↦ rw other (inr (inl (b, e)))
]
moved-IsOwned db (tc ∷ rest) key (inr later) = elim (moved-IsOwned db rest key later) [
  | inl own ↦ inl own
  | inr others ↦ elim (Bool-cases (in_db db tc)) [
    | inl same ↦ rw same (inr others)
    | inr other ↦ rw other (inr (inr others))
  ]
]

entered-IsOwned :
    (t : Tenant) (serial : ℕ) (tenants : List TenantContext) (key : Text)
    → IsOwned tenants key
    → IsOwned (context_of t serial ∷ delete_where (in_db t.db_name) tenants) key
entered-IsOwned t serial tenants key o = elim (moved-IsOwned t.db_name tenants key o) [
  | inl own ↦ inl own
  | inr others ↦ inr others
]

found-IsOwned :
    (tc : TenantContext) (db : Text) (b : ℤ) (tenants : List TenantContext)
    → has_serial tc (find_tenant db tenants) ≡ true
    → IsOwned tenants (branch_key db b)
unfolding find_tenant
found-IsOwned tc db b [] h = absurd (ground (arith, h))
found-IsOwned tc db b (t ∷ rest) h = elim (Bool-cases (in_db db t)) [
  | inl same ↦ inl (b, ap (λ d. branch_key d b) (sym ((text_eq_iff t.tenant.db_name db).0 same)))
  | inr other ↦ inr (found-IsOwned tc db b rest (ground (arith, h, other)))
]

pub remove_tenant-IsServed : (db : Text) (s : Topology) → IsServed s → IsServed (remove_tenant db s)
unfolding remove_tenant
remove_tenant-IsServed db s h = removed-OwnsAll db s.tenants s.workers h

start_branch-IsServed :
    (tc : TenantContext) (db : Text) (b : ℤ) (s : Topology)
    → IsServed s
    → IsServed (start_branch tc db b s)
unfolding start_branch
start_branch-IsServed tc db b s h = elim (Bool-cases (has_serial tc (find_tenant db s.tenants))) [
  | inr no_tenant ↦ rw no_tenant h
  | inl known ↦ rw known (elim (Bool-cases (any (has_key (branch_key db b)) s.workers)) [
    | inl running ↦ rw running h
    | inr idle ↦ rw idle (found-IsOwned tc db b s.tenants known, h)
  ])
]

start_branches-IsServed :
    (tc : TenantContext) (db : Text) (branches : List ℤ) (s : Topology)
    → IsServed s
    → IsServed (start_branches tc db branches s)
unfolding start_branches
start_branches-IsServed tc db [] s h = h
start_branches-IsServed tc db (b ∷ branches) s h =
    start_branches-IsServed tc db branches (start_branch tc db b s)
      (start_branch-IsServed tc db b s h)

stop_idle-IsServed :
    (tc : TenantContext) (db : Text) (branches : List ℤ) (s : Topology)
    → IsServed s
    → IsServed (stop_idle tc db branches s)
unfolding stop_idle
stop_idle-IsServed tc db branches s h =
    deleted-OwnsAll (is_idle db branches) _ s.workers
      (mapped-OwnsAll s.tenants _ s.workers (expecting-IsOwned tc.serial branches s.tenants) h)

reconcile_found-IsServed :
    (tc : TenantContext) (db : Text) (o : Option (List ℤ)) (s : Topology)
    → IsServed s
    → IsServed (reconcile_found tc db o s).1
reconcile_found-IsServed tc db none s h = h
reconcile_found-IsServed tc db (some branches) s h =
    stop_idle-IsServed tc db branches (start_branches tc db branches s)
      (start_branches-IsServed tc db branches s h)

reconcile_branches-IsServed :
    (p : Platform) (tc : TenantContext) (s : Topology)
    → IsServed s
    → IsServed (reconcile_branches p tc s).1
unfolding reconcile_branches
reconcile_branches-IsServed p tc s h =
    reconcile_found-IsServed tc tc.tenant.db_name (p.active_branches tc.tenant.db_name) s h

enter_tenant-IsServed : (t : Tenant) (s : Topology) → IsServed s → IsServed (enter_tenant t s)
unfolding enter_tenant
enter_tenant-IsServed t s h =
    mapped-OwnsAll s.tenants (context_of t s.next_serial ∷ delete_where (in_db t.db_name) s.tenants)
      s.workers (entered-IsOwned t s.next_serial s.tenants) h

-- the state after addTenant has succeeded
abbrev pub added : Tenant → Topology → Topology
added t s = record (enter_tenant t s) {
  subs = onboard_sub t.db_name ∷ reconcile_sub t.tenant_key ∷ (enter_tenant t s).subs;
}

-- The three outcomes of addTenant: nothing is done, all is undone, or the tenant is added.
pub add_tenant_cases :
    (p : Platform) (t : Tenant) (s : Topology)
    → (add_tenant p t s ≡ (some opaque, s))
      ⊎ (add_tenant p t s ≡ (some opaque, remove_tenant t.db_name (enter_tenant t s)))
      ⊎ (add_tenant p t s ≡ (none, added t s))
unfolding add_tenant
add_tenant_cases p t s = ground arith

add_tenant-IsServed :
    (p : Platform) (t : Tenant) (s : Topology) → IsServed s → IsServed (add_tenant p t s).1
add_tenant-IsServed p t s h = elim (add_tenant_cases p t s) [
  | inl e ↦ rw e h
  | inr (inl e) ↦
      rw e (remove_tenant-IsServed t.db_name (enter_tenant t s) (enter_tenant-IsServed t s h))
  | inr (inr e) ↦ rw e (enter_tenant-IsServed t s h)
]

chosen-IsServed :
    (test : Bool) (x y : Topology) → IsServed x → IsServed y → IsServed (if test then x else y)
chosen-IsServed true x y h k = h
chosen-IsServed false x y h k = k

remove_stale-IsServed :
    (discovered : List Tenant) (tenants : List TenantContext) (s : Topology)
    → IsServed s
    → IsServed (remove_stale discovered tenants s)
unfolding remove_stale
remove_stale-IsServed discovered [] s h = h
remove_stale-IsServed discovered (tc ∷ rest) s h = remove_stale-IsServed discovered rest _ (
    chosen-IsServed (is_stale discovered tc) (remove_tenant tc.tenant.db_name s) s
      (remove_tenant-IsServed tc.tenant.db_name s h) h)

add_if_new-IsServed :
    (p : Platform) (t : Tenant) (known : Option TenantContext) (r : Error × Topology)
    → IsServed r.1
    → IsServed (add_if_new p t known r).1
unfolding add_if_new
add_if_new-IsServed p t (some tc) r h = h
add_if_new-IsServed p t none (e, s) h = add_tenant-IsServed p t s h

add_missing-IsServed :
    (p : Platform) (discovered : List Tenant) (r : Error × Topology)
    → IsServed r.1
    → IsServed (add_missing p discovered r).1
unfolding add_missing
add_missing-IsServed p [] r h = h
add_missing-IsServed p (t ∷ rest) r h =
    add_missing-IsServed p rest (add_if_new p t (find_tenant t.db_name r.1.tenants) r)
      (add_if_new-IsServed p t (find_tenant t.db_name r.1.tenants) r h)

reconcile_all-IsServed :
    (p : Platform) (tenants : List TenantContext) (e : Error) (s : Topology)
    → IsServed s
    → IsServed (reconcile_all p tenants (e, s)).1
unfolding reconcile_all
reconcile_all-IsServed p [] e s h = h
reconcile_all-IsServed p (tc ∷ rest) e s h =
    reconcile_all-IsServed p rest (and_error e (reconcile_branches p tc s).0)
      (reconcile_branches p tc s).1 (reconcile_branches-IsServed p tc s h)

settle-IsServed :
    (p : Platform) (discovered : List Tenant) (s : Topology)
    → IsServed s
    → IsServed (settle p discovered s).1
unfolding settle
settle-IsServed p discovered s h = reconcile_all-IsServed p _ _ _ (
    add_missing-IsServed p discovered (none, remove_stale discovered s.tenants s)
      (remove_stale-IsServed discovered s.tenants s h))

-- Whatever the registry, the databases and the broker answer, a reconciliation keeps this: each
-- worker serves a branch of a tenant that the daemon knows, so no worker outlives its tenant.
pub reconcile_tenants-IsServed :
    (p : Platform) (s : Topology) → IsServed s → IsServed (reconcile_tenants p s).1
unfolding reconcile_tenants
reconcile_tenants-IsServed p s h = at p.load_tenants
  where
    at : (r : Result (List Tenant)) → IsServed (reconcile_registry p r s).1
    at (err e) = h
    at (ok discovered) = accepted (reconcile s.registry discovered)
      where
        accepted :
            (r : Result ReconcileResult × List Tenant)
            → IsServed (settle_accepted p discovered s r).1
        accepted (err e, registry) = h
        accepted (ok r, registry) =
            settle-IsServed p discovered (record s { registry = registry }) h
