-- ===== src/Daemon/Topology/Discovered.antt =====
-- A reconciliation without failures serves exactly the tenants that were discovered
-- (cmd/daemon/reconcile.go).
use zatca_integration.Common.{
  ℕ, ◌≡◌, refl, ap, ◌∙◌, inl, inr, Bool, true, Option, none, some, List, [], ◌∷◌, All, update_rows,
  is_some, ◌==◌, Bool-cases, arith,
}
use zatca_integration.Common.Int.{ℤ}
use zatca_integration.Text.{Text, text_eq_iff, text_eq_refl}
use zatca_integration.Errors.{Error, Result, ok, err}
use zatca_integration.Tenant.{Tenant, ReconcileResult, reconcile}
use zatca_integration.Daemon.Topology.{
  TenantContext, Topology, Platform, in_db, find_tenant, delete_where, start_branch, start_branches,
  stop_idle, reconcile_found, reconcile_branches, context_of, enter_tenant, add_tenant, and_error,
  remove_stale, add_if_new, add_missing, reconcile_all, settle, settle_accepted, reconcile_tenants,
  expecting,
}
use zatca_integration.Daemon.Topology.Served.{Exists, add_tenant_cases}
use zatca_integration.Daemon.Topology.Branches.{start_branch-tenants}
use zatca_integration.Daemon.Topology.Stale.{
  IsCurrent, is_known, All-delete_where, remove_stale-IsCurrent, itself-Pending,
}

-- what the branches of the tenants leave as it is
abbrev Keeps : List Tenant → List TenantContext → List TenantContext → Type 0
Keeps discovered before after =
    (All (IsCurrent discovered) before → All (IsCurrent discovered) after)
    × ((db : Text) → is_known after db ≡ is_known before db)

start_branches-tenants :
    (tc : TenantContext) (db : Text) (branches : List ℤ) (s : Topology)
    → (start_branches tc db branches s).tenants ≡ s.tenants
unfolding start_branches
start_branches-tenants tc db [] s = refl
start_branches-tenants tc db (b ∷ branches) s =
    start_branches-tenants tc db branches (start_branch tc db b s) ∙ start_branch-tenants tc db b s

expecting-IsCurrent :
    (discovered : List Tenant) (q : TenantContext → Bool) (branches : List ℤ)
    → (tenants : List TenantContext) → All (IsCurrent discovered) tenants
    → All (IsCurrent discovered) (update_rows q (expecting branches) tenants)
expecting-IsCurrent discovered q branches [] h = tt
expecting-IsCurrent discovered q branches (tc ∷ rest) (own, others) =
    let kept : All (IsCurrent discovered) (update_rows q (expecting branches) rest) =
      expecting-IsCurrent discovered q branches rest others in
    elim (Bool-cases (q tc)) [ inl e ↦ rw e (own, kept) | inr e ↦ rw e (own, kept) ]

expecting-known :
    (q : TenantContext → Bool) (branches : List ℤ) (tenants : List TenantContext) (db : Text)
    → is_known (update_rows q (expecting branches) tenants) db ≡ is_known tenants db
unfolding find_tenant
expecting-known q branches [] db = refl
expecting-known q branches (tc ∷ rest) db = ground (arith, expecting-known q branches rest db)

reconcile_branches-Keeps :
    (discovered : List Tenant) (p : Platform) (tc : TenantContext) (s : Topology)
    → Keeps discovered s.tenants (reconcile_branches p tc s).1.tenants
unfolding reconcile_branches stop_idle
reconcile_branches-Keeps discovered p tc s = at (p.active_branches tc.tenant.db_name)
  where
    at :
        (o : Option (List ℤ))
        → Keeps discovered s.tenants (reconcile_found tc tc.tenant.db_name o s).1.tenants
    at none = (λ h. h, λ db. refl)
    at (some branches) = rw (start_branches-tenants tc tc.tenant.db_name branches s) (
      expecting-IsCurrent discovered (λ t. t.serial == tc.serial) branches s.tenants,
      expecting-known (λ t. t.serial == tc.serial) branches s.tenants,
    )

reconcile_all-Keeps :
    (discovered : List Tenant) (p : Platform) (tenants : List TenantContext) (e : Error)
    → (s : Topology) → Keeps discovered s.tenants (reconcile_all p tenants (e, s)).1.tenants
unfolding reconcile_all
reconcile_all-Keeps discovered p [] e s = (λ h. h, λ db. refl)
reconcile_all-Keeps discovered p (tc ∷ rest) e s =
    let (current, known) = reconcile_branches-Keeps discovered p tc s in
    let (later, stays) =
      reconcile_all-Keeps discovered p rest (and_error e (reconcile_branches p tc s).0)
        (reconcile_branches p tc s).1 in
    (λ h. later (current h), λ db. stays db ∙ known db)

no_error-first : (a b : Error) → and_error a b ≡ none → (a ≡ none) × (b ≡ none)
no_error-first none b h = (refl, h)
no_error-first (some f) none h = cc
no_error-first (some f) (some g) h = cc

reconcile_all-no_error :
    (p : Platform) (tenants : List TenantContext) (e : Error) (s : Topology)
    → (reconcile_all p tenants (e, s)).0 ≡ none
    → e ≡ none
unfolding reconcile_all
reconcile_all-no_error p [] e s h = h
reconcile_all-no_error p (tc ∷ rest) e s h =
    (no_error-first e (reconcile_branches p tc s).0 (
      reconcile_all-no_error p rest (and_error e (reconcile_branches p tc s).0)
        (reconcile_branches p tc s).1 h)).0

entered-known :
    (c : TenantContext) (tenants : List TenantContext) (db : Text)
    → is_known tenants db ≡ true
    → is_known (c ∷ delete_where (in_db c.tenant.db_name) tenants) db ≡ true
unfolding find_tenant delete_where
entered-known c [] db h = cc
entered-known c (t ∷ rest) db h = ground (
  arith,
  h,
  entered-known c rest db,
  text_eq_iff c.tenant.db_name db,
  text_eq_iff t.tenant.db_name c.tenant.db_name,
  text_eq_iff t.tenant.db_name db,
)

entered-own :
    (t : Tenant) (serial : ℕ) (tenants : List TenantContext)
    → is_known (context_of t serial ∷ tenants) t.db_name ≡ true
unfolding find_tenant
entered-own t serial tenants = rw (text_eq_refl t.db_name) refl

-- what adding tenants does: those of the database stay known, and all stay current
abbrev Adds : List Tenant → Topology → Topology → Type 0
Adds discovered before after =
    (All (IsCurrent discovered) before.tenants → All (IsCurrent discovered) after.tenants)
    × ((db : Text) → is_known before.tenants db ≡ true → is_known after.tenants db ≡ true)

add_tenant-Adds :
    (discovered : List Tenant) (p : Platform) (t : Tenant) (s : Topology)
    → Exists (λ (u : Tenant). u ≡ t) discovered
    → (add_tenant p t s).0 ≡ none
    → Adds discovered s (add_tenant p t s).1
      × (is_known (add_tenant p t s).1.tenants t.db_name ≡ true)
unfolding enter_tenant
add_tenant-Adds discovered p t s member h = elim (add_tenant_cases p t s) [
  | inl q ↦ absurd (ground (arith, h, ap (λ r. is_some r.0) q))
  | inr (inl q) ↦ absurd (ground (arith, h, ap (λ r. is_some r.0) q))
  | inr (inr q) ↦ rw q (
    (
      λ current.
          (member, All-delete_where (IsCurrent discovered) (in_db t.db_name) s.tenants current),
      entered-known (context_of t s.next_serial) s.tenants,
    ),
    entered-own t s.next_serial (delete_where (in_db t.db_name) s.tenants),
  )
]

add_missing-no_error :
    (p : Platform) (tenants : List Tenant) (r : Error × Topology)
    → (add_missing p tenants r).0 ≡ none
    → r.0 ≡ none
unfolding add_missing add_if_new
add_missing-no_error p [] r h = h
add_missing-no_error p (t ∷ rest) (e, s) h =
    at (find_tenant t.db_name s.tenants)
      (add_missing-no_error p rest (add_if_new p t (find_tenant t.db_name s.tenants) (e, s)) h)
  where
    at : (known : Option TenantContext) → (add_if_new p t known (e, s)).0 ≡ none → e ≡ none
    at none q = (no_error-first e (add_tenant p t s).0 q).0
    at (some tc) q = q

add_if_new-Adds :
    (discovered : List Tenant) (p : Platform) (t : Tenant) (known : Option TenantContext)
    → (e : Error) (s : Topology) → find_tenant t.db_name s.tenants ≡ known
    → Exists (λ (u : Tenant). u ≡ t) discovered
    → (add_if_new p t known (e, s)).0 ≡ none
    → Adds discovered s (add_if_new p t known (e, s)).1
      × (is_known (add_if_new p t known (e, s)).1.tenants t.db_name ≡ true)
unfolding add_if_new
add_if_new-Adds discovered p t (some tc) e s found member h =
    ((λ x. x, λ db x. x), ap is_some found)
add_if_new-Adds discovered p t none e s found member h =
    add_tenant-Adds discovered p t s member (no_error-first e (add_tenant p t s).0 h).1

add_missing-Adds :
    (discovered : List Tenant) (p : Platform) (tenants : List Tenant) (e : Error) (s : Topology)
    → All (λ (t : Tenant). Exists (λ (u : Tenant). u ≡ t) discovered) tenants
    → (add_missing p tenants (e, s)).0 ≡ none
    → Adds discovered s (add_missing p tenants (e, s)).1
      × All
          (λ (t : Tenant). is_known (add_missing p tenants (e, s)).1.tenants t.db_name ≡ true)
          tenants
unfolding add_missing
add_missing-Adds discovered p [] e s members h = ((λ x. x, λ db x. x), tt)
add_missing-Adds discovered p (t ∷ rest) e s (member, members) h =
    let next : Error × Topology = add_if_new p t (find_tenant t.db_name s.tenants) (e, s) in
    let ((current, stays), own) =
      add_if_new-Adds discovered p t (find_tenant t.db_name s.tenants) e s refl member
        (add_missing-no_error p rest next h) in
    let ((later, keeps), others) = add_missing-Adds discovered p rest next.0 next.1 members h in
    ((λ x. later (current x), λ db x. keeps db (stays db x)), (keeps t.db_name own, others))

more-Exists :
    (d : Tenant) (discovered tenants : List Tenant)
    → All (λ (t : Tenant). Exists (λ (u : Tenant). u ≡ t) discovered) tenants
    → All (λ (t : Tenant). Exists (λ (u : Tenant). u ≡ t) (d ∷ discovered)) tenants
more-Exists d discovered [] h = tt
more-Exists d discovered (t ∷ rest) (own, others) = (inr own, more-Exists d discovered rest others)

each-Exists :
    (discovered : List Tenant)
    → All (λ (t : Tenant). Exists (λ (u : Tenant). u ≡ t) discovered) discovered
each-Exists [] = tt
each-Exists (d ∷ rest) = (inl refl, more-Exists d rest rest (each-Exists rest))

same-known :
    (before after : List TenantContext) (tenants : List Tenant)
    → ((db : Text) → is_known after db ≡ is_known before db)
    → All (λ (t : Tenant). is_known before t.db_name ≡ true) tenants
    → All (λ (t : Tenant). is_known after t.db_name ≡ true) tenants
same-known before after [] same h = tt
same-known before after (t ∷ rest) same (own, others) =
    (same t.db_name ∙ own, same-known before after rest same others)

-- The database of each discovered tenant is served, and each tenant that is served is one of the
-- discovered ones, with the fields that it has there.
abbrev pub Serves : List Tenant → List TenantContext → Type 0
Serves discovered tenants =
    All (λ (t : Tenant). is_known tenants t.db_name ≡ true) discovered
    × All (IsCurrent discovered) tenants

settle-Serves :
    (p : Platform) (discovered : List Tenant) (s : Topology)
    → (settle p discovered s).0 ≡ none
    → Serves discovered (settle p discovered s).1.tenants
unfolding settle
settle-Serves p discovered s h =
    let cleaned : Topology = remove_stale discovered s.tenants s in
    let grown : Error × Topology = add_missing p discovered (none, cleaned) in
    let ((current, stays), known) =
      add_missing-Adds discovered p discovered none cleaned (each-Exists discovered)
        (reconcile_all-no_error p grown.1.tenants grown.0 grown.1 h) in
    let (later, same) = reconcile_all-Keeps discovered p grown.1.tenants grown.0 grown.1 in
    (
      same-known grown.1.tenants (settle p discovered s).1.tenants discovered same known,
      later (
          current
            (remove_stale-IsCurrent discovered s.tenants s (itself-Pending discovered s.tenants))),
    )

-- A reconciliation that reports no error serves exactly what the registry of tenants lists: the
-- database of each listed tenant is served, and each tenant that is served is a listed one, with the
-- fields that it has there. So a tenant that is gone from the list, or has changed, is not served as
-- before.
pub reconcile_tenants-Serves :
    (p : Platform) (discovered : List Tenant) (s : Topology)
    → p.load_tenants ≡ ok discovered
    → (reconcile_tenants p s).0 ≡ none
    → Serves discovered (reconcile_tenants p s).1.tenants
unfolding reconcile_tenants
reconcile_tenants-Serves p discovered s loaded = simp loaded (at (reconcile s.registry discovered))
  where
    at :
        (r : Result ReconcileResult × List Tenant)
        → (settle_accepted p discovered s r).0 ≡ none
        → Serves discovered (settle_accepted p discovered s r).1.tenants
    at (err e, registry) h = cc
    at (ok r, registry) h = settle-Serves p discovered (record s { registry = registry }) h
