-- ===== src/Tenant.antt =====
-- tenant/tenant.go: the registry of tenants and the step from one snapshot of it to the next. A Go map
-- is an association list, in the order in which its keys were set.
pub mod Transition
use zatca_integration.Common.{
  ℕ, Bool, true, false, not, ◌&&◌, ◌||◌, Option, none, some, List, [], ◌∷◌, any, find_row, ltb,
  ◌==◌, if◌then◌else◌,
}
use zatca_integration.Common.Int.{ℤ, ◌==ℤ◌}
use zatca_integration.Text.{Text, codes, text_eq, is_empty}
use zatca_integration.Errors.{Error, opaque, Result, ok, err}
use zatca_integration.Queue.Message.{valid_identity_text}

-- Tenant
pub record Tenant : Type 0 where
  pub id : ℤ
  pub tenant_key : Text
  pub name : Text
  pub db_name : Text
  pub zatca_env : Text
  pub alert_email : Text

-- config.ParseEnv
abbrev pub is_env : Text → Bool
is_env t =
    text_eq t (codes "sandbox") || text_eq t (codes "simulation") || text_eq t (codes "production")

-- validRegistryIdentity: the test of queue.validIdentityText at 64 characters
unfoldable pub valid_registry_identity : Text → Bool
valid_registry_identity t = valid_identity_text t 64

-- Tenant.Validate
unfoldable pub validate_tenant : Tenant → Error
validate_tenant t =
    if not (valid_registry_identity t.tenant_key)
    then some opaque
    else if not (valid_registry_identity t.db_name)
    then some opaque
    else if not (is_empty t.zatca_env) && not (is_env t.zatca_env)
    then some opaque
    else none

abbrev pub has_key : Text → Tenant → Bool
has_key k t = text_eq t.tenant_key k

abbrev pub has_db : Text → Tenant → Bool
has_db k t = text_eq t.db_name k

-- the loop of ValidateAll; `seen` are the tenants before
unfoldable pub validate_rest : List Tenant → List Tenant → Error
validate_rest seen [] = none
validate_rest seen (t ∷ rest) =
    let others = validate_rest (t ∷ seen) rest in
    elim (validate_tenant t) [
      | some e ↦ some e
      | none ↦
          if any (has_key t.tenant_key) seen
          then some opaque
          else if any (has_db t.db_name) seen
          then some opaque
          else others
    ]

-- ValidateAll
unfoldable pub validate_all : List Tenant → Error
validate_all tenants = validate_rest [] tenants

abbrev pub same_tenant : Tenant → Tenant → Bool
same_tenant a b =
    a.id ==ℤ b.id
    && text_eq a.tenant_key b.tenant_key
    && text_eq a.name b.name
    && text_eq a.db_name b.db_name
    && text_eq a.zatca_env b.zatca_env
    && text_eq a.alert_email b.alert_email

-- ReconcileResult
pub record ReconcileResult : Type 0 where
  pub added : List Tenant
  pub removed : List Tenant
  pub updated : List Tenant
  pub unchanged : List Tenant

abbrev pub sort_one : Tenant → Option Tenant → ReconcileResult → ReconcileResult
sort_one t none r = record r { added = t ∷ r.added }
sort_one t (some p) r =
    if same_tenant p t
    then (record r { unchanged = t ∷ r.unchanged })
    else (record r { updated = t ∷ r.updated })

-- the loop over the next snapshot
unfoldable pub sort_tenants : List Tenant → List Tenant → List Tenant → ReconcileResult
sort_tenants before removed [] = record {
  added = [];
  removed = removed;
  updated = [];
  unchanged = [];
}
sort_tenants before removed (t ∷ rest) =
    sort_one t (find_row (has_key t.tenant_key) before) (sort_tenants before removed rest)

-- the loop over the registry
unfoldable pub removed_tenants : List Tenant → List Tenant → List Tenant
removed_tenants next [] = []
removed_tenants next (p ∷ rest) =
    let others = removed_tenants next rest in
    if any (has_key p.tenant_key) next then others else p ∷ others

-- Registry.Reconcile: the result, and the registry after it
unfoldable pub reconcile : List Tenant → List Tenant → Result ReconcileResult × List Tenant
reconcile before next = elim (validate_all next) [
  | some e ↦ (err e, before)
  | none ↦ (ok (sort_tenants before (removed_tenants next before) next), next)
]
