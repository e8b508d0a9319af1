-- ===== src/Scenarios/Tenancy.antt =====
-- A daemon that serves one tenant.
use zatca_integration.Common.{◌&&◌, ◌≡◌, refl, true, false, none, some, [], ◌∷◌, any, inl, arith}
use zatca_integration.Common.Int.{pos, ◌==ℤ◌}
use zatca_integration.Text.{codes, text_eq, has_prefix}
use zatca_integration.Errors.{ok, err, opaque}
use zatca_integration.Tenant.{
  Tenant, reconcile, validate_all, validate_rest, validate_tenant, valid_registry_identity,
}
use zatca_integration.Daemon.Topology.Discovered.{Serves, reconcile_tenants-Serves}
use zatca_integration.Daemon.Topology.{
  settle, remove_stale, is_stale, add_missing, add_if_new, reconcile_all,
}
use zatca_integration.Daemon.Branches.{branch_key}
use zatca_integration.Queue.Message.{runnable}
use zatca_integration.Daemon.Topology.{
  Topology, Platform, find_tenant, context_of, remove_tenant, reconcile_branches, reconcile_tenants,
  stop,
}
use zatca_integration.Daemon.Topology.Served.{IsServed, reconcile_tenants-IsServed}
use zatca_integration.Daemon.Topology.Stopped.{stop-Quiet}
use zatca_integration.Daemon.Topology.Branches.{
  has_worker, has_ended, remove_tenant-Isolated, remove_tenant-Takes, reconcile_branches-Exact,
}

abbrev market : Tenant
market = record {
  id = pos 1;
  tenant_key = codes "m";
  name = codes "Market";
  db_name = codes "m";
  zatca_env = [];
  alert_email = [];
}

abbrev answering : Platform
answering = record {
  load_tenants = ok (market ∷ []);
  opens = λ t. true;
  preflights = λ t. true;
  subscribes_onboard = λ t. true;
  subscribes_reconcile = λ t. true;
  active_branches = λ db. some (pos 7 ∷ []);
  load_branch = λ db b. err opaque;
}

abbrev running : Topology
running = record {
  tenants = context_of market 1 ∷ [];
  workers = record { key = branch_key (codes "m") (pos 3); ended = false } ∷ [];
  subs = [];
  caches = [];
  registry = market ∷ [];
  active = branch_key (codes "m") (pos 3) ∷ [];
  last_reconcile_err = none;
  reconciled = true;
  next_serial = 2;
}

running-IsServed : IsServed running
running-IsServed = (inl (pos 3, refl), tt)

reconcile_tenants-IsServed_example : IsServed (reconcile_tenants answering running).1
reconcile_tenants-IsServed_example = reconcile_tenants-IsServed answering running running-IsServed

stop-Quiet_example : ((stop running).tenants ≡ []) × ((stop running).workers ≡ [])
stop-Quiet_example = stop-Quiet running running-IsServed

remove_tenant-Isolated_example :
    (has_worker (branch_key (codes "m") (pos 3)) (remove_tenant (codes "m") running) ≡ false)
    × (has_worker (branch_key (codes "n") (pos 3)) (remove_tenant (codes "m") running)
        ≡ has_worker (branch_key (codes "n") (pos 3)) running)
remove_tenant-Isolated_example =
    remove_tenant-Isolated (codes "m") (codes "n") (pos 3) running (omega arith) (omega arith)
      (ground arith)

-- another tenant, whose database is m:x, has a worker too
abbrev sharing : Topology
sharing = record running {
  workers =
      record { key = branch_key (codes "m:x") (pos 3); ended = false }
      ∷ record { key = branch_key (codes "m") (pos 3); ended = false }
      ∷ [];
}

remove_tenant-Takes_example :
    has_worker (branch_key (codes "m:x") (pos 3)) (remove_tenant (codes "m") sharing) ≡ false
remove_tenant-Takes_example = remove_tenant-Takes (codes "m") (codes "x") (pos 3) sharing

-- the worker of branch 7 has ended by itself
abbrev stuck : Topology
stuck = record running {
  workers = record { key = branch_key (codes "m") (pos 7); ended = true } ∷ running.workers;
}

reconcile_branches-Exact_example :
    ((reconcile_branches answering (context_of market 1) stuck).0 ≡ none)
    × (has_worker
          (branch_key (codes "m") (pos 7))
          (reconcile_branches answering (context_of market 1) stuck).1
        ≡ any (◌==ℤ◌ (pos 7)) (pos 7 ∷ []))
    × (has_ended
          (branch_key (codes "m") (pos 7))
          (reconcile_branches answering (context_of market 1) stuck).1
        ≡ (any (◌==ℤ◌ (pos 7)) (pos 7 ∷ []) && has_ended (branch_key (codes "m") (pos 7)) stuck))
    × (has_worker (codes "n:3") (reconcile_branches answering (context_of market 1) stuck).1
        ≡ has_worker (codes "n:3") stuck)
unfolding find_tenant text_eq has_prefix
reconcile_branches-Exact_example =
    reconcile_branches-Exact answering (context_of market 1) (pos 7 ∷ []) (pos 7) (codes "n:3")
      stuck refl refl (omega arith) refl

reconcile_tenants-Serves_example :
    Serves (market ∷ []) (reconcile_tenants answering running).1.tenants
unfolding reconcile_tenants settle remove_stale is_stale add_missing add_if_new reconcile_all
    reconcile_branches find_tenant reconcile validate_all validate_rest validate_tenant
    valid_registry_identity text_eq runnable
reconcile_tenants-Serves_example =
    reconcile_tenants-Serves answering (market ∷ []) running refl refl
