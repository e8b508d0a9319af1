-- ===== src/Tenant/Transition.antt =====
-- What Reconcile reports of two snapshots (tenant/tenant.go).
use zatca_integration.Common.{
  ◌+◌, ◌≡◌, ◌≢◌, ◌↔◌, refl, sym, ap, ◌∙◌, find_row, true, Bool-cases, ◌⊎◌, inl, inr, Option, false,
  none, some, List, [], ◌∷◌, any, length, arith,
}
use mathlib.Core.Path.{subst}
use zatca_integration.Common.Int.{==ℤ_iff}
use zatca_integration.Text.{text_eq_iff, text_eq_refl}
use zatca_integration.Errors.{Error, Result, ok, err}
use zatca_integration.Tenant.{
  Tenant, validate_tenant, validate_rest, validate_all, has_key, has_db, ReconcileResult,
  sort_tenants, removed_tenants, reconcile, same_tenant, sort_one,
}

-- No key and no database stands twice, and each tenant is valid.
abbrev pub IsRegistry : List Tenant → List Tenant → Type 0
IsRegistry seen [] = Unit
IsRegistry seen (t ∷ rest) =
    (validate_tenant t ≡ none)
    × (any (has_key t.tenant_key) seen ≡ false)
    × (any (has_db t.db_name) seen ≡ false)
    × IsRegistry (t ∷ seen) rest

validated-IsRegistry :
    (seen next : List Tenant) → validate_rest seen next ≡ none → IsRegistry seen next
unfolding validate_rest
validated-IsRegistry seen [] h = tt
validated-IsRegistry seen (t ∷ rest) h =
    let (own, key, db, others) : (validate_tenant t ≡ none)
        × (any (has_key t.tenant_key) seen ≡ false)
        × (any (has_db t.db_name) seen ≡ false)
        × (validate_rest (t ∷ seen) rest ≡ none) =
      ground arith in
    (own, key, db, validated-IsRegistry (t ∷ seen) rest others)

sorted-length :
    (before removed next : List Tenant)
    → length (sort_tenants before removed next).added
        + (length (sort_tenants before removed next).updated
            + length (sort_tenants before removed next).unchanged)
      ≡ length next
unfolding sort_tenants
sorted-length before removed [] = omega arith
sorted-length before removed (t ∷ rest) = ground (arith, sorted-length before removed rest)

same_tenant_refl : (a : Tenant) → same_tenant a a ≡ true
same_tenant_refl a = ground (
  arith,
  (==ℤ_iff a.id a.id).1 refl,
  text_eq_refl a.tenant_key,
  text_eq_refl a.name,
  text_eq_refl a.db_name,
  text_eq_refl a.zatca_env,
  text_eq_refl a.alert_email,
)

-- Go's equality of two tenants
same_tenant_iff : (a b : Tenant) → (same_tenant a b ≡ true) ↔ (a ≡ b)
same_tenant_iff a b = ((λ h. there h), (λ e. rw e (same_tenant_refl b)))
  where
    there : same_tenant a b ≡ true → a ≡ b
    there h =
        let (id, key, name, db, env, mail) : (a.id ≡ b.id)
            × (a.tenant_key ≡ b.tenant_key)
            × (a.name ≡ b.name)
            × (a.db_name ≡ b.db_name)
            × (a.zatca_env ≡ b.zatca_env)
            × (a.alert_email ≡ b.alert_email) =
          ground (
            arith,
            h,
            ==ℤ_iff a.id b.id,
            text_eq_iff a.tenant_key b.tenant_key,
            text_eq_iff a.name b.name,
            text_eq_iff a.db_name b.db_name,
            text_eq_iff a.zatca_env b.zatca_env,
            text_eq_iff a.alert_email b.alert_email,
          ) in
        cc

abbrev pub Among : Tenant → List Tenant → Type 0
Among t [] = ⊥
Among t (x ∷ tenants) = (t ≡ x) ⊎ Among t tenants

-- The second list holds exactly the tenants of the first that have a property.
abbrev pub Sifted : (Tenant → Type 0) → List Tenant → List Tenant → Type 0
Sifted P all some_of = (t : Tenant) → Among t some_of ↔ (Among t all × P t)

module _ (P : Tenant → Type 0) (q : Tenant) (rest listed : List Tenant)
    (h : Sifted P rest listed) where
  Sifted-cons : P q → Sifted P (q ∷ rest) (q ∷ listed)
  Sifted-cons own t = (there, back)
    where
      there : Among t (q ∷ listed) → Among t (q ∷ rest) × P t
      there (inl e) = (inl e, subst P (sym e) own)
      there (inr m) = let (old, holds) = (h t).0 m in (inr old, holds)

      back : Among t (q ∷ rest) × P t → Among t (q ∷ listed)
      back (inl e, holds) = inl e
      back (inr m, holds) = inr ((h t).1 (m, holds))

  Sifted-skip : ¬ P q → Sifted P (q ∷ rest) listed
  Sifted-skip other t = (there, back)
    where
      there : Among t listed → Among t (q ∷ rest) × P t
      there m = let (old, holds) = (h t).0 m in (inr old, holds)

      back : Among t (q ∷ rest) × P t → Among t listed
      back (inl e, holds) = absurd (other (subst P e holds))
      back (inr m, holds) = (h t).1 (m, holds)

Sifted-nil : (P : Tenant → Type 0) → Sifted P [] []
Sifted-nil P t = ((λ m. absurd m), (λ m. absurd m.0))

-- the tenant of the registry with the key of another
abbrev pub known : List Tenant → Tenant → Option Tenant
known before t = find_row (has_key t.tenant_key) before

abbrev pub IsGone : List Tenant → Tenant → Type 0
IsGone next p = any (has_key p.tenant_key) next ≡ false

abbrev pub IsNew : List Tenant → Tenant → Type 0
IsNew before t = known before t ≡ none

abbrev pub IsSame : List Tenant → Tenant → Type 0
IsSame before t = known before t ≡ some t

abbrev pub IsOther : List Tenant → Tenant → Type 0
IsOther before t = (known before t ≢ none) × (known before t ≢ some t)

removed-Sifted :
    (next before : List Tenant) → Sifted (IsGone next) before (removed_tenants next before)
unfolding removed_tenants
removed-Sifted next [] = Sifted-nil (IsGone next)
removed-Sifted next (q ∷ rest) = elim (Bool-cases (any (has_key q.tenant_key) next)) [
  | inl held ↦ rw held (
      Sifted-skip (IsGone next) q rest (removed_tenants next rest) (removed-Sifted next rest)
        (ground (arith, held)))
  | inr gone ↦
      rw gone (
        Sifted-cons (IsGone next) q rest (removed_tenants next rest) (removed-Sifted next rest)
          gone)
]

-- Each tenant of the snapshot stands in the list that its past asks for.
pub record Listed (before next : List Tenant) (r : ReconcileResult) : Type 0 where
  pub added_are : Sifted (IsNew before) next r.added
  pub updated_are : Sifted (IsOther before) next r.updated
  pub unchanged_are : Sifted (IsSame before) next r.unchanged

sort_one-Listed :
    (before rest : List Tenant) (t : Tenant) (r : ReconcileResult) (o : Option Tenant)
    → known before t ≡ o
    → Listed before rest r
    → Listed before (t ∷ rest) (sort_one t o r)
sort_one-Listed before rest t r none e h = record {
  added_are = Sifted-cons (IsNew before) t rest r.added h.added_are e;
  updated_are = Sifted-skip (IsOther before) t rest r.updated h.updated_are (λ k. k.0 e);
  unchanged_are = Sifted-skip (IsSame before) t rest r.unchanged h.unchanged_are (λ k. cc);
}
sort_one-Listed before rest t r (some p) e h = elim (Bool-cases (same_tenant p t)) [
  | inl same ↦
      let own : known before t ≡ some t = e ∙ ap some ((same_tenant_iff p t).0 same) in
      rw same (record {
        added_are = Sifted-skip (IsNew before) t rest r.added h.added_are (λ k. cc);
        updated_are = Sifted-skip (IsOther before) t rest r.updated h.updated_are (λ k. k.1 own);
        unchanged_are = Sifted-cons (IsSame before) t rest r.unchanged h.unchanged_are own;
      })
  | inr other ↦
      let differ : known before t ≢ some t =
        λ k. absurd (ground (arith, other, same_tenant_iff p t, e, k)) in
      rw other (record {
        added_are = Sifted-skip (IsNew before) t rest r.added h.added_are (λ k. cc);
        updated_are =
            Sifted-cons (IsOther before) t rest r.updated h.updated_are ((λ k. cc), differ);
        unchanged_are = Sifted-skip (IsSame before) t rest r.unchanged h.unchanged_are differ;
      })
]

sort_tenants-Listed :
    (before removed next : List Tenant) → Listed before next (sort_tenants before removed next)
unfolding sort_tenants
sort_tenants-Listed before removed [] = record {
  added_are = Sifted-nil (IsNew before);
  updated_are = Sifted-nil (IsOther before);
  unchanged_are = Sifted-nil (IsSame before);
}
sort_tenants-Listed before removed (t ∷ rest) =
    sort_one-Listed before rest t (sort_tenants before removed rest) (known before t) refl
      (sort_tenants-Listed before removed rest)

sort_tenants-removed :
    (before removed next : List Tenant) → (sort_tenants before removed next).removed ≡ removed
unfolding sort_tenants
sort_tenants-removed before removed [] = refl
sort_tenants-removed before removed (t ∷ rest) =
    ground (arith, sort_tenants-removed before removed rest)

abbrev pub Transition : List Tenant → List Tenant → Result ReconcileResult × List Tenant → Type 0
Transition before next (ok r, after) =
    IsRegistry [] next
    × (after ≡ next)
    × Sifted (IsGone next) before r.removed
    × Listed before next r
    × (length r.added + (length r.updated + length r.unchanged) ≡ length next)
Transition before next (err e, after) = after ≡ before

-- A transition that is refused leaves the registry as it is. One that is made accepts only valid
-- tenants with distinct keys and databases, and takes over the whole snapshot. It reports as removed
-- exactly the tenants of the registry whose keys are gone, as added exactly those of the snapshot whose
-- keys are new, as unchanged those that the registry held just so, and as updated those that it held
-- otherwise under their keys; each tenant of the snapshot is counted once.
pub reconcile-Transition :
    (before next : List Tenant) → Transition before next (reconcile before next)
unfolding reconcile validate_all
reconcile-Transition before next = at (validate_rest [] next) refl
  where
    at :
        (e : Error)
        → validate_rest [] next ≡ e
        → Transition before next (elim e [
          | some f ↦ (err f, before)
          | none ↦ (ok (sort_tenants before (removed_tenants next before) next), next)
        ])
    at (some f) h = refl
    at none h = (
      validated-IsRegistry [] next h,
      refl,
      rw (sort_tenants-removed before (removed_tenants next before) next)
          (removed-Sifted next before),
      sort_tenants-Listed before (removed_tenants next before) next,
      sorted-length before (removed_tenants next before) next,
    )
