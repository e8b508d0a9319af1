-- ===== src/Daemon/Topology/Stopped.antt =====
-- What removing a tenant and stopping the daemon leave behind (cmd/daemon/reconcile.go).
use zatca_integration.Common.{
  ◌≡◌, refl, ◌∙◌, true, List, [], ◌∷◌, All, any, Bool-cases, inl, inr, arith,
}
use zatca_integration.Text.{text_eq_refl}
use zatca_integration.Daemon.Topology.{
  TenantContext, Worker, Topology, in_db, delete_where, remove_tenant, stop_all, stop,
}
use zatca_integration.Daemon.Topology.Served.{IsOwned, IsServed, remove_tenant-IsServed}

-- removing each tenant of a list
strip : List TenantContext → List TenantContext → List TenantContext
strip [] tenants = tenants
strip (tc ∷ rest) tenants = strip rest (delete_where (in_db tc.tenant.db_name) tenants)

stop_all-strip :
    (names : List TenantContext) (s : Topology) → (stop_all names s).tenants ≡ strip names s.tenants
unfolding strip remove_tenant
stop_all-strip [] s = refl
stop_all-strip (tc ∷ rest) s = stop_all-strip rest (remove_tenant tc.tenant.db_name s)

abbrev Covers : List TenantContext → List TenantContext → Type 0
Covers names tenants =
    All (λ (t : TenantContext). any (λ u. in_db u.tenant.db_name t) names ≡ true) tenants

covered-rest :
    (tc : TenantContext) (names tenants : List TenantContext)
    → Covers (tc ∷ names) tenants
    → Covers names (delete_where (in_db tc.tenant.db_name) tenants)
unfolding delete_where
covered-rest tc names [] h = tt
covered-rest tc names (t ∷ rest) (own, others) =
    let kept : Covers names (delete_where (in_db tc.tenant.db_name) rest) =
      covered-rest tc names rest others in
    elim (Bool-cases (in_db tc.tenant.db_name t)) [
      | inl gone ↦ rw gone kept
      | inr stays ↦ rw stays (ground (arith, own, stays), kept)
    ]

strip-covered :
    (names tenants : List TenantContext) → Covers names tenants → strip names tenants ≡ []
unfolding strip
strip-covered [] [] h = refl
strip-covered [] (t ∷ rest) (own, others) = absurd (ground (arith, own))
strip-covered (tc ∷ names) tenants h = strip-covered names _ (covered-rest tc names tenants h)

Covers-more :
    (tc : TenantContext) (names tenants : List TenantContext)
    → Covers names tenants
    → Covers (tc ∷ names) tenants
Covers-more tc names [] h = tt
Covers-more tc names (t ∷ rest) (own, others) =
    (ground (arith, own), Covers-more tc names rest others)

Covers-itself : (tenants : List TenantContext) → Covers tenants tenants
Covers-itself [] = tt
Covers-itself (tc ∷ rest) =
    (ground (arith, text_eq_refl tc.tenant.db_name), Covers-more tc rest rest (Covers-itself rest))

stop_all-IsServed :
    (names : List TenantContext) (s : Topology) → IsServed s → IsServed (stop_all names s)
stop_all-IsServed [] s h = h
stop_all-IsServed (tc ∷ rest) s h =
    stop_all-IsServed rest (remove_tenant tc.tenant.db_name s)
      (remove_tenant-IsServed tc.tenant.db_name s h)

no_owner :
    (tenants : List TenantContext) (workers : List Worker)
    → tenants ≡ []
    → All (λ (w : Worker). IsOwned tenants w.key) workers
    → workers ≡ []
no_owner [] [] e h = refl
no_owner [] (w ∷ workers) e (own, others) = elim own [ ]
no_owner (tc ∷ rest) workers e h = cc

-- Stopping the daemon, where each worker serves a known tenant, leaves no tenant and no worker.
pub stop-Quiet : (s : Topology) → IsServed s → ((stop s).tenants ≡ []) × ((stop s).workers ≡ [])
unfolding stop
stop-Quiet s h =
    let none_left : (stop_all s.tenants s).tenants ≡ [] =
      stop_all-strip s.tenants s ∙ strip-covered s.tenants s.tenants (Covers-itself s.tenants) in
    (
      none_left,
      no_owner (stop_all s.tenants s).tenants (stop_all s.tenants s).workers none_left
          (stop_all-IsServed s.tenants s h),
    )
