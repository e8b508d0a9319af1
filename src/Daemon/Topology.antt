-- ===== src/Daemon/Topology.antt =====
-- cmd/daemon/reconcile.go: the tenants and branches that the daemon serves, and the steps that bring
-- them in line with the registry of tenants. Go maps are lists without a promised order. The mutexes
-- make each function one step. What databases, the broker and the registry answer is a `Platform`.
pub mod Served
pub mod Stopped
pub mod Branches
pub mod Stale
pub mod Discovered
use zatca_integration.Common.{
  ℕ, suc, ◌-◌, ◌^◌, ◌||◌, Bool, true, false, not, ◌&&◌, Option, none, some, List, [], ◌∷◌, ◌++◌,
  any, find_row, update_rows, ltb, leb, ◌==◌, if◌then◌else◌,
}
use zatca_integration.Common.Int.{ℤ, pos, negsuc, ◌==ℤ◌}
use zatca_integration.Text.{Text, codes, text_eq, is_empty, has_prefix}
use zatca_integration.Text.Decimal.{is_digit, value_from}
use zatca_integration.Errors.{Error, Failure, opaque, Result, ok, err}
use zatca_integration.Config.{Config, sandbox}
use zatca_integration.Storeconfig.{BranchZatca, is_registered, to_config}
use zatca_integration.Tenant.{Tenant, is_env, has_db, same_tenant, reconcile}
use zatca_integration.Daemon.Branches.{branch_key, unmark_branch, Keys}

-- tenantCtx; `serial` is its identity as a pointer
pub record TenantContext : Type 0 where
  pub serial : ℕ
  pub tenant : Tenant
  pub env : Text
  pub expected_branches : List ℤ

-- workerHandle, with its key; `ended` when its `done` channel is closed. A key leaves the list when
-- its worker was cancelled and has ended.
pub record Worker : Type 0 where
  pub key : Text
  pub ended : Bool

-- an entry of `caches`
pub record Cache : Type 0 where
  pub db_name : Text
  pub entries : List (ℤ × Config)

-- daemonReconciler, and activeBranches of worker.go
pub record Topology : Type 0 where
  pub tenants : List TenantContext
  pub workers : List Worker
  pub subs : List Text
  pub caches : List Cache
  pub registry : List Tenant
  pub active : Keys
  pub last_reconcile_err : Error
  pub reconciled : Bool
  pub next_serial : ℕ

-- what is outside the program, during one call
pub record Platform : Type 0 where
  pub load_tenants : Result (List Tenant)
  pub opens : Tenant → Bool
  pub preflights : Tenant → Bool
  pub subscribes_onboard : Tenant → Bool
  pub subscribes_reconcile : Tenant → Bool
  pub active_branches : Text → Option (List ℤ)
  pub load_branch : Text → ℤ → Result BranchZatca

abbrev pub in_db : Text → TenantContext → Bool
in_db db tc = text_eq tc.tenant.db_name db

-- `r.tenants[dbName]`
unfoldable pub find_tenant : Text → List TenantContext → Option TenantContext
find_tenant db tenants = find_row (in_db db) tenants

-- the configuration of a tenant: only its environment is set
abbrev config_of : TenantContext → Config
config_of tc = record {
  env = tc.env;
  otp = [];
  compliance_username = [];
  compliance_password = [];
  production_username = [];
  production_password = [];
  egs_id = [];
  csr = record {
    common_name = [];
    serial_number = [];
    org_identifier = [];
    org_unit = [];
    org_name = [];
    country = [];
    invoice_type = [];
    location = [];
    business_category = [];
  };
  seller = record {
    name = [];
    name_ar = [];
    vat = [];
    crn = [];
    street = [];
    building = [];
    district = [];
    city = [];
    postal_code = [];
    country = [];
  };
}

abbrev cached_config : ℤ → List (ℤ × Config) → Option Config
cached_config branch_id [] = none
cached_config branch_id ((b, cfg) ∷ rest) =
    if b ==ℤ branch_id then some cfg else cached_config branch_id rest

-- `r.caches[dbName][branchID]`
unfoldable pub find_config : Text → ℤ → List Cache → Option Config
find_config db branch_id [] = none
find_config db branch_id (c ∷ caches) =
    if text_eq c.db_name db
    then cached_config branch_id c.entries
    else find_config db branch_id caches

-- `r.caches[dbName][branchID] = entry`, with a new map where there is none
unfoldable pub keep_config : Text → ℤ → Config → List Cache → List Cache
keep_config db branch_id cfg [] = record { db_name = db; entries = (branch_id, cfg) ∷ [] } ∷ []
keep_config db branch_id cfg (c ∷ caches) =
    let rest = keep_config db branch_id cfg caches in
    if text_eq c.db_name db
    then record c { entries = (branch_id, cfg) ∷ c.entries } ∷ caches
    else c ∷ rest

abbrev keep_loaded :
    TenantContext → Text → ℤ → Result BranchZatca → Topology → Result Config × Topology
keep_loaded tc db branch_id (err e) s = (err e, s)
keep_loaded tc db branch_id (ok b) s =
    if not (is_registered b)
    then (err opaque, s)
    else let cfg = to_config b (config_of tc) in
      (ok cfg, record s { caches = keep_config db branch_id cfg s.caches })

abbrev look_up : Platform → Text → ℤ → Option TenantContext → Topology → Result Config × Topology
look_up p db branch_id none s = (err opaque, s)
look_up p db branch_id (some tc) s = elim (find_config db branch_id s.caches) [
  | some cfg ↦ (ok cfg, s)
  | none ↦ keep_loaded tc db branch_id (p.load_branch db branch_id) s
]

-- getService: the configuration that the branch's service is made from
unfoldable pub get_service : Platform → Text → ℤ → Topology → Result Config × Topology
get_service p db branch_id s = look_up p db branch_id (find_tenant db s.tenants) s

-- delete(m, key): the entries that the test does not select
unfoldable pub delete_where {ℓ} : {A : Type ℓ} → (A → Bool) → List A → List A
delete_where p [] = []
delete_where p (x ∷ xs) = let rest = delete_where p xs in if p x then rest else x ∷ rest

-- the text after the last colon
unfoldable pub after_colon : Text → Text
after_colon [] = []
after_colon (c ∷ s) = if any (◌==◌ b':') s then after_colon s else if c == b':' then s else c ∷ s

abbrev pub digits_of : Text → Text
digits_of [] = []
digits_of (c ∷ s) = let rest = digits_of s in if is_digit c then c ∷ rest else []

abbrev pub signed : Bool → ℕ → ℤ
signed false n = if ltb n (2 ^ 63) then pos n else pos 0
signed true n = if n == 0 then pos 0 else if leb n (2 ^ 63) then negsuc (n - 1) else pos 0

abbrev pub scan_digits : Bool → Text → ℤ
scan_digits negative digits =
    if is_empty digits then pos 0 else signed negative (value_from 0 digits)

-- fmt.Sscanf with "%d" into an int64, and 0 for an error: spaces, a sign, and a run of digits
unfoldable pub scan_int : Text → ℤ
scan_int [] = pos 0
scan_int (c ∷ s) =
    let rest = scan_int s in
    if c == b' '
    then rest
    else if c == b'-'
    then scan_digits true (digits_of s)
    else if c == b'+'
    then scan_digits false (digits_of s)
    else scan_digits false (digits_of (c ∷ s))

-- branchIDFromKey
unfoldable pub branch_id_from_key : Text → ℤ
branch_id_from_key key = scan_int (after_colon key)

abbrev pub of_db : Text → Worker → Bool
of_db db w = has_prefix (db ++ b':' ∷ []) w.key

-- unmarkBranchActive for each worker that the test selects
unfoldable pub unmark_where : Text → (Worker → Bool) → List Worker → Keys → Keys
unmark_where db p [] keys = keys
unmark_where db p (w ∷ workers) keys =
    unmark_where db p workers
      (if p w then unmark_branch db (branch_id_from_key w.key) keys else keys)

abbrev pub onboard_sub : Text → Text
onboard_sub db = codes "onboard:" ++ db

abbrev pub reconcile_sub : Text → Text
reconcile_sub tenant_key = codes "reconcile:" ++ tenant_key

abbrev subs_without : Option TenantContext → Text → List Text → List Text
subs_without none db subs = subs
subs_without (some tc) db subs =
    delete_where
      (λ key. text_eq key (onboard_sub db) || text_eq key (reconcile_sub tc.tenant.tenant_key)) subs

-- removeTenant
unfoldable pub remove_tenant : Text → Topology → Topology
remove_tenant db s = record s {
  tenants = delete_where (in_db db) s.tenants;
  caches = delete_where (λ c. text_eq c.db_name db) s.caches;
  workers = delete_where (of_db db) s.workers;
  active = unmark_where db (of_db db) s.workers s.active;
  subs = subs_without (find_tenant db s.tenants) db s.subs;
}

abbrev pub has_serial : TenantContext → Option TenantContext → Bool
has_serial tc none = false
has_serial tc (some found) = found.serial == tc.serial

abbrev pub has_key : Text → Worker → Bool
has_key key w = text_eq key w.key

-- startBranch
unfoldable pub start_branch : TenantContext → Text → ℤ → Topology → Topology
start_branch tc db branch_id s =
    if not (has_serial tc (find_tenant db s.tenants))
    then s
    else if any (has_key (branch_key db branch_id)) s.workers
    then s
    else record s {
      workers = record { key = branch_key db branch_id; ended = false } ∷ s.workers;
      active = branch_key db branch_id ∷ s.active;
    }

-- the first loop of reconcileBranches
unfoldable pub start_branches : TenantContext → Text → List ℤ → Topology → Topology
start_branches tc db [] s = s
start_branches tc db (b ∷ branches) s = start_branches tc db branches (start_branch tc db b s)

abbrev pub is_idle : Text → List ℤ → Worker → Bool
is_idle db branches w = of_db db w && not (any (◌==ℤ◌ (branch_id_from_key w.key)) branches)

abbrev pub expecting : List ℤ → TenantContext → TenantContext
expecting branches tc = record tc { expected_branches = branches }

-- the rest of reconcileBranches: the workers of branches that are no longer active are stopped
unfoldable pub stop_idle : TenantContext → Text → List ℤ → Topology → Topology
stop_idle tc db branches s = record s {
  tenants = update_rows (λ t. t.serial == tc.serial) (expecting branches) s.tenants;
  caches = delete_where (λ c. text_eq c.db_name db) s.caches;
  workers = delete_where (is_idle db branches) s.workers;
  active = unmark_where db (is_idle db branches) s.workers s.active;
}

abbrev pub reconcile_found : TenantContext → Text → Option (List ℤ) → Topology → Error × Topology
reconcile_found tc db none s = (some opaque, s)
reconcile_found tc db (some branches) s =
    (none, stop_idle tc db branches (start_branches tc db branches s))

-- reconcileBranches
unfoldable pub reconcile_branches : Platform → TenantContext → Topology → Error × Topology
reconcile_branches p tc s =
    reconcile_found tc tc.tenant.db_name (p.active_branches tc.tenant.db_name) s

-- the context that addTenant makes
abbrev pub context_of : Tenant → ℕ → TenantContext
context_of t serial = record {
  serial = serial;
  tenant = t;
  env = if is_empty t.zatca_env then sandbox else t.zatca_env;
  expected_branches = [];
}

-- addTenant once its database is open: the tenant and its cache are set
unfoldable pub enter_tenant : Tenant → Topology → Topology
enter_tenant t s = record s {
  tenants = context_of t s.next_serial ∷ delete_where (in_db t.db_name) s.tenants;
  caches =
      record { db_name = t.db_name; entries = [] }
      ∷ delete_where (λ c. text_eq c.db_name t.db_name) s.caches;
  next_serial = suc s.next_serial;
}

-- addTenant
unfoldable pub add_tenant : Platform → Tenant → Topology → Error × Topology
add_tenant p t s =
    if not (is_empty t.zatca_env) && not (is_env t.zatca_env)
    then (some opaque, s)
    else if not (p.opens t)
    then (some opaque, s)
    else if not (p.preflights t)
    then (some opaque, s)
    else if not (p.subscribes_onboard t)
    then (some opaque, remove_tenant t.db_name (enter_tenant t s))
    else if not (p.subscribes_reconcile t)
    then (some opaque, remove_tenant t.db_name (enter_tenant t s))
    else let entered = enter_tenant t s in
      (
        none,
        record entered { subs = onboard_sub t.db_name ∷ reconcile_sub t.tenant_key ∷ entered.subs },
      )

-- errors.Join of the failures so far with another
abbrev pub and_error : Error → Error → Error
and_error none e = e
and_error (some f) none = some f
and_error (some f) (some g) = some (f ++ g)

-- The test that reconcile makes of a tenant that it serves. A changed key and a changed tenant lead
-- to the same call. The registry has accepted the discovered tenants: no database stands twice.
unfoldable pub is_stale : List Tenant → TenantContext → Bool
is_stale discovered tc = elim (find_row (has_db tc.tenant.db_name) discovered) [
  | none ↦ true
  | some target ↦
      not (text_eq target.tenant_key tc.tenant.tenant_key) || not (same_tenant tc.tenant target)
]

-- the loop over a copy of the tenants that are served
unfoldable pub remove_stale : List Tenant → List TenantContext → Topology → Topology
remove_stale discovered [] s = s
remove_stale discovered (tc ∷ rest) s =
    remove_stale discovered rest
      (if is_stale discovered tc then remove_tenant tc.tenant.db_name s else s)

-- one round of the loop over the discovered tenants
unfoldable pub add_if_new :
    Platform → Tenant → Option TenantContext → Error × Topology → Error × Topology
add_if_new p t (some tc) r = r
add_if_new p t none (failures, s) =
    let (e, after) = add_tenant p t s in (and_error failures e, after)

-- the loop over the discovered tenants
unfoldable pub add_missing : Platform → List Tenant → Error × Topology → Error × Topology
add_missing p [] r = r
add_missing p (t ∷ rest) r =
    add_missing p rest (add_if_new p t (find_tenant t.db_name r.1.tenants) r)

-- the loop over the tenants after that
unfoldable pub reconcile_all : Platform → List TenantContext → Error × Topology → Error × Topology
reconcile_all p [] r = r
reconcile_all p (tc ∷ rest) (failures, s) =
    let (e, after) = reconcile_branches p tc s in reconcile_all p rest (and_error failures e, after)

abbrev with_registry : List Tenant → Topology → Topology
with_registry tenants s = record s { registry = tenants }

-- reconcile once the registry has accepted the discovered tenants
unfoldable pub settle : Platform → List Tenant → Topology → Error × Topology
settle p discovered s =
    let (failures, added) = add_missing p discovered (none, remove_stale discovered s.tenants s) in
    reconcile_all p added.tenants (failures, added)

abbrev pub settle_accepted :
    {R : Type 0} → Platform → List Tenant → Topology → Result R × List Tenant → Error × Topology
settle_accepted p discovered s (err e, registry) = (some e, with_registry registry s)
settle_accepted p discovered s (ok r, registry) = settle p discovered (with_registry registry s)

abbrev pub reconcile_registry : Platform → Result (List Tenant) → Topology → Error × Topology
reconcile_registry p (err e) s = (some e, s)
reconcile_registry p (ok discovered) s =
    settle_accepted p discovered s (reconcile s.registry discovered)

abbrev pub noting : Error × Topology → Error × Topology
noting (e, s) = (e, record s { last_reconcile_err = e; reconciled = true })

-- daemonReconciler.reconcile
unfoldable pub reconcile_tenants : Platform → Topology → Error × Topology
reconcile_tenants p s = noting (reconcile_registry p p.load_tenants s)

abbrev pub stop_all : List TenantContext → Topology → Topology
stop_all [] s = s
stop_all (tc ∷ rest) s = stop_all rest (remove_tenant tc.tenant.db_name s)

-- daemonReconciler.stop
unfoldable pub stop : Topology → Topology
stop s = stop_all s.tenants s
