-- ===== src/Daemon/Topology/Stale.antt =====
-- A reconciliation first removes the tenants that are not, or no longer, as they were discovered
-- (cmd/daemon/reconcile.go).
use zatca_integration.Common.{
  ◌≡◌, ◌⊎◌, inl, inr, Bool, true, false, List, [], ◌∷◌, All, is_some, if◌then◌else◌, Bool-cases,
  arith,
}
use zatca_integration.Common.Int.{==ℤ_iff}
use zatca_integration.Text.{Text, text_eq_iff, text_eq_refl}
use zatca_integration.Tenant.{Tenant, has_db, same_tenant}
use zatca_integration.Daemon.Topology.{
  TenantContext, Topology, in_db, find_tenant, delete_where, remove_tenant, is_stale, remove_stale,
}
use zatca_integration.Daemon.Topology.Served.{Exists}

-- The tenant that is served is one of those discovered, as it stands there.
abbrev pub IsCurrent : List Tenant → TenantContext → Type 0
IsCurrent discovered tc = Exists (λ (t : Tenant). t ≡ tc.tenant) discovered

-- The database is served.
abbrev pub is_known : List TenantContext → Text → Bool
is_known tenants db = is_some (find_tenant db tenants)

same_tenant_sound : (a b : Tenant) → same_tenant a b ≡ true → b ≡ a
same_tenant_sound a b h = ground (
  arith,
  h,
  ==ℤ_iff a.id b.id,
  text_eq_iff a.tenant_key b.tenant_key,
  text_eq_iff a.name b.name,
  text_eq_iff a.db_name b.db_name,
  text_eq_iff a.zatca_env b.zatca_env,
  text_eq_iff a.alert_email b.alert_email,
)

kept-IsCurrent :
    (tc : TenantContext) (discovered : List Tenant)
    → is_stale discovered tc ≡ false
    → IsCurrent discovered tc
unfolding is_stale
kept-IsCurrent tc [] h = cc
kept-IsCurrent tc (t ∷ rest) h = elim (Bool-cases (has_db tc.tenant.db_name t)) [
  | inl same ↦ inl (same_tenant_sound tc.tenant t (ground (arith, h, same)))
  | inr other ↦ inr (kept-IsCurrent tc rest (ground (arith, h, other)))
]

pub All-delete_where :
    (P : TenantContext → Type 0) (q : TenantContext → Bool) (tenants : List TenantContext)
    → All P tenants
    → All P (delete_where q tenants)
unfolding delete_where
All-delete_where P q [] h = tt
All-delete_where P q (tc ∷ rest) (own, others) =
    let kept : All P (delete_where q rest) = All-delete_where P q rest others in
    elim (Bool-cases (q tc)) [ inl gone ↦ rw gone kept | inr stays ↦ rw stays (own, kept) ]

-- A tenant that is stale is still to be removed.
abbrev pub Pending : List Tenant → List TenantContext → TenantContext → Type 0
Pending discovered names t =
    (is_stale discovered t ≡ false)
    ⊎ Exists
        (λ (u : TenantContext). (is_stale discovered u ≡ true) × (in_db u.tenant.db_name t ≡ true))
        names

removed-Pending :
    (discovered : List Tenant) (tc : TenantContext) (names tenants : List TenantContext)
    → All (Pending discovered (tc ∷ names)) tenants
    → All (Pending discovered names) (delete_where (in_db tc.tenant.db_name) tenants)
unfolding delete_where
removed-Pending discovered tc names [] h = tt
removed-Pending discovered tc names (t ∷ rest) (own, others) =
    let kept : All (Pending discovered names) (delete_where (in_db tc.tenant.db_name) rest) =
      removed-Pending discovered tc names rest others in
    elim (Bool-cases (in_db tc.tenant.db_name t)) [
      | inl gone ↦ rw gone kept
      | inr stays ↦ rw stays (still own stays, kept)
    ]
  where
    still :
        Pending discovered (tc ∷ names) t
        → in_db tc.tenant.db_name t ≡ false
        → Pending discovered names t
    still (inl fresh) stays = inl fresh
    still (inr (inl (stale, same))) stays = absurd (ground (arith, same, stays))
    still (inr (inr later)) stays = inr later

passed-Pending :
    (discovered : List Tenant) (tc : TenantContext) (names tenants : List TenantContext)
    → is_stale discovered tc ≡ false
    → All (Pending discovered (tc ∷ names)) tenants
    → All (Pending discovered names) tenants
passed-Pending discovered tc names [] fresh h = tt
passed-Pending discovered tc names (t ∷ rest) fresh (own, others) =
    (still own, passed-Pending discovered tc names rest fresh others)
  where
    still : Pending discovered (tc ∷ names) t → Pending discovered names t
    still (inl current) = inl current
    still (inr (inl (stale, same))) = absurd (ground (arith, stale, fresh))
    still (inr (inr later)) = inr later

settled-IsCurrent :
    (discovered : List Tenant) (tenants : List TenantContext)
    → All (Pending discovered []) tenants
    → All (IsCurrent discovered) tenants
settled-IsCurrent discovered [] h = tt
settled-IsCurrent discovered (t ∷ rest) (inl fresh, others) =
    (kept-IsCurrent t discovered fresh, settled-IsCurrent discovered rest others)
settled-IsCurrent discovered (t ∷ rest) (inr never, others) = elim never [ ]

pub remove_stale-IsCurrent :
    (discovered : List Tenant) (names : List TenantContext) (s : Topology)
    → All (Pending discovered names) s.tenants
    → All (IsCurrent discovered) (remove_stale discovered names s).tenants
unfolding remove_stale remove_tenant
remove_stale-IsCurrent discovered [] s h = settled-IsCurrent discovered s.tenants h
remove_stale-IsCurrent discovered (tc ∷ names) s h =
    remove_stale-IsCurrent discovered names _ (at (Bool-cases (is_stale discovered tc)))
  where
    at :
        ((is_stale discovered tc ≡ true) ⊎ (is_stale discovered tc ≡ false))
        → All
            (Pending discovered names)
            (if is_stale discovered tc then remove_tenant tc.tenant.db_name s else s).tenants
    at (inl stale) = rw stale (removed-Pending discovered tc names s.tenants h)
    at (inr fresh) = rw fresh (passed-Pending discovered tc names s.tenants fresh h)

more-Pending :
    (discovered : List Tenant) (tc : TenantContext) (names tenants : List TenantContext)
    → All (Pending discovered names) tenants
    → All (Pending discovered (tc ∷ names)) tenants
more-Pending discovered tc names [] h = tt
more-Pending discovered tc names (t ∷ rest) (inl fresh, others) =
    (inl fresh, more-Pending discovered tc names rest others)
more-Pending discovered tc names (t ∷ rest) (inr later, others) =
    (inr (inr later), more-Pending discovered tc names rest others)

pub itself-Pending :
    (discovered : List Tenant) (tenants : List TenantContext)
    → All (Pending discovered tenants) tenants
itself-Pending discovered [] = tt
itself-Pending discovered (tc ∷ rest) = (
  elim (Bool-cases (is_stale discovered tc)) [
    | inl stale ↦ inr (inl (stale, text_eq_refl tc.tenant.db_name))
    | inr fresh ↦ inl fresh
  ],
  more-Pending discovered tc rest rest (itself-Pending discovered rest),
)
