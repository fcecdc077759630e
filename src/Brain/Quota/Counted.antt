-- ===== src/Brain/Quota/Counted.antt =====
-- What the loop over the tenants has given out.
use Prim.Native.Nat.{ℕ}
use Prim.Native.String.{String}
use opendps.Prelude.{
  ◌≡◌, refl, sym, ◌∙◌, ap, subst, true, false, Bool-cases, inl, inr, List, [], ◌∷◌, ◌++◌, arith,
}
use opendps.Num.{ℚ, ◌+◌, sum, All, All-imp, All-zip}
use opendps.Dict.{
  Dict, nat_key, string_key, keys, values, update, elem, Distinct, Apart, All-keys, All-update,
  All-filter,
}
use opendps.Result.{ok, ◌>>=◌, >>=-eq-ok, ok-injective}
use opendps.Pdn.Quota.{TenantQuota, meets, tenant_budget_w}
use opendps.Pdn.Quota.Validated.{Disjoint, elem-append}
use opendps.Brain.State.{DomainState}
use opendps.Brain.Prs
use opendps.Brain.Prs.Decide.{decide-Distinct, decide-All}
use opendps.Brain.Quota.{
  PrsArguments, tenant_present_gpus, tenant_gpus, fit_slice, Slices, brain_for, run_tenant,
  run_tenants,
}
use opendps.Brain.Quota.Apart.{
  In-self, fit_slice-All, keys-fit_slice, meets-Apart, meets-append, meets-filter, not-elem,
  sub_state-All, sub_state-Distinct, sum-update,
}

-- The caps are on the assigned GPUs, and add up to the budget that is used.
pub record IsCounted (slices : Slices) (assigned_gpus : List ℕ) : Type 0 where
  pub total : sum (values slices.all_caps) ≡ slices.used_budget
  pub assigned : All (λ e. elem e.0 assigned_gpus ≡ true) slices.all_caps

-- Caps on GPUs that are assigned now and were not before are counted.
pub IsCounted-update :
    (slices after : Slices) (before now : List ℕ) (caps : Dict ℕ ℚ)
    → IsCounted slices before
    → All (λ e. elem e.0 now ≡ true) slices.all_caps
    → Distinct (keys caps)
    → All (λ e. (elem e.0 before ≡ false) × (elem e.0 now ≡ true)) caps
    → after.all_caps ≡ update slices.all_caps caps
    → after.used_budget ≡ slices.used_budget + sum (values caps)
    → IsCounted after now
IsCounted-update slices after before now caps c wider d fresh e f = record {
  total =
      ap (λ m. sum (values m)) e
      ∙ sum-update slices.all_caps caps d (
          All-keys (λ g. elem g (keys slices.all_caps) ≡ false) caps
            (All-imp
              (λ x h.
                not-elem x.0 before (keys slices.all_caps)
                  (All-keys (λ g. elem g before ≡ true) slices.all_caps c.assigned) h.0)
              caps fresh))
      ∙ ap (λ t. t + sum (values caps)) c.total
      ∙ sym f;
  assigned = subst (All (λ x. elem x.0 now ≡ true)) (sym e) (
      All-update (λ x. elem x.0 now ≡ true) slices.all_caps caps wider
        (All-imp (λ x h. h.1) caps fresh));
}

-- GPUs that were assigned stay so.
pub elem_append_left : (g : ℕ) (xs ys : List ℕ) → elem g xs ≡ true → elem g (xs ++ ys) ≡ true
elem_append_left g xs ys h = ground (arith, elem-append g xs ys)

pub elem_append_right : (g : ℕ) (xs ys : List ℕ) → elem g ys ≡ true → elem g (xs ++ ys) ≡ true
elem_append_right g xs ys h = ground (arith, elem-append g xs ys)

pub run_tenant-IsCounted :
    (args : PrsArguments) (n : String) (s : DomainState) (t : TenantQuota) (w : ℚ) (gs : List ℕ)
    (slices : Slices) (before : List ℕ) {after : Slices}
    → IsCounted slices before
    → All (λ e. elem e.0 slices.assigned_gpus ≡ true) slices.all_caps
    → All (λ g. (elem g before ≡ false) × (elem g slices.assigned_gpus ≡ true)) gs
    → run_tenant args n s t w gs slices ≡ ok after
    → IsCounted after slices.assigned_gpus × (after.assigned_gpus ≡ slices.assigned_gpus)
unfolding run_tenant
run_tenant-IsCounted args n s t w [] slices before {after} c wider fresh e =
    let same = ok-injective e in
    (
      subst (λ a. IsCounted a slices.assigned_gpus) same
          (record { total = c.total; assigned = wider }),
      ap (λ a. a.assigned_gpus) (sym same),
    )
run_tenant-IsCounted args n s t w (g ∷ rest) slices before {after} c wider fresh e =
    let gs = g ∷ rest in
    let (brain, _, e') = >>=-eq-ok (brain_for args _ _) _ e in
    let (r, decided, e'') = >>=-eq-ok (Prs.decide brain _ _) _ e' in
    let same = ok-injective e'' in
    let Fresh : ℕ → Type 0 = λ g. (elem g before ≡ false) × (elem g slices.assigned_gpus ≡ true) in
    let caps = fit_slice w (r.1).caps in
    (
      IsCounted-update slices after before slices.assigned_gpus caps c wider
          (rw (keys-fit_slice w (r.1).caps)
            (decide-Distinct brain _ _ (sub_state-Distinct _ s gs) decided))
          (fit_slice-All Fresh w (r.1).caps
            (decide-All Fresh brain _ _ (sub_state-All Fresh _ s gs fresh) decided))
          (ap (λ a. a.all_caps) (sym same)) (ap (λ a. a.used_budget) (sym same)),
      ap (λ a. a.assigned_gpus) (sym same),
    )

pub meets-nil : (gs : List ℕ) → meets gs [] ≡ false
unfolding meets elem
meets-nil [] = refl
meets-nil (g ∷ gs) = meets-nil gs

pub present-Apart :
    (t : TenantQuota) (s : DomainState) (before : List ℕ)
    → meets t.gpu_indices before ≡ false
    → Apart before (tenant_present_gpus t s)
unfolding tenant_present_gpus
present-Apart t s before h =
    All-filter (λ g. elem g before ≡ false) _ t.gpu_indices (meets-Apart t.gpu_indices before h)

-- The GPUs of a tenant that meets no assigned GPU are new, and assigned with it.
pub tenant_gpus-All :
    (t : TenantQuota) (s : DomainState) (before : List ℕ)
    → meets t.gpu_indices before ≡ false
    → All
        (λ g. (elem g before ≡ false) × (elem g (before ++ tenant_present_gpus t s) ≡ true))
        (tenant_gpus t s)
unfolding tenant_gpus
tenant_gpus-All t s before h =
    All-filter (λ g. (elem g before ≡ false) × (elem g (before ++ tenant_present_gpus t s) ≡ true))
      _ (tenant_present_gpus t s)
      (All-zip (tenant_present_gpus t s)
        (λ g out own. (out, elem_append_right g before (tenant_present_gpus t s) own))
        (present-Apart t s before h) (In-self (tenant_present_gpus t s)))

-- A tenant that meets neither the assigned GPUs nor another tenant meets none after that tenant.
pub later_apart :
    (u t : TenantQuota) (s : DomainState) (before : List ℕ)
    → meets u.gpu_indices before ≡ false
    → meets u.gpu_indices t.gpu_indices ≡ false
    → meets u.gpu_indices (before ++ tenant_present_gpus t s) ≡ false
unfolding tenant_present_gpus
later_apart u t s before h k =
    meets-append u.gpu_indices before (tenant_present_gpus t s) h
      (meets-filter u.gpu_indices t.gpu_indices _ k)

pub run_tenants-IsCounted :
    (args : PrsArguments) (n : String) (budget : ℚ) (s : DomainState) (tenants : List TenantQuota)
    (slices : Slices) {after : Slices}
    → IsCounted slices slices.assigned_gpus
    → Disjoint tenants
    → All (λ t. meets t.gpu_indices slices.assigned_gpus ≡ false) tenants
    → run_tenants args n budget s tenants slices ≡ ok after
    → IsCounted after after.assigned_gpus
unfolding run_tenants
run_tenants-IsCounted args n budget s [] slices {after} c d apart e =
    subst (λ a. IsCounted a a.assigned_gpus) (ok-injective e) c
run_tenants-IsCounted args n budget s (t ∷ tenants) slices {after} c (d, ds) (a, as_) e =
    elim (Bool-cases (string_key.beq t.domain_name n)) [
      | inr other ↦ run_tenants-IsCounted args n budget s tenants slices c ds as_ (rw other at e)
      | inl ours ↦
          let before = slices.assigned_gpus in
          let next : Slices = record slices { assigned_gpus = before ++ tenant_present_gpus t s } in
          let w = tenant_budget_w t budget in
          let e0 : (run_tenant args n s t w (tenant_gpus t s) next
                >>= (λ x. run_tenants args n budget s tenants x))
              ≡ ok after =
            rw ours at e in
          let (mid, e1, e2) =
            >>=-eq-ok (run_tenant args n s t w (tenant_gpus t s) next)
              (λ x. run_tenants args n budget s tenants x) e0 in
          let start : IsCounted next before = record { total = c.total; assigned = c.assigned } in
          let (counted, same) =
            run_tenant-IsCounted args n s t w (tenant_gpus t s) next before start
              (All-imp (λ x h. elem_append_left x.0 before (tenant_present_gpus t s) h)
                slices.all_caps c.assigned)
              (tenant_gpus-All t s before a) e1 in
          run_tenants-IsCounted args n budget s tenants mid
            (subst (IsCounted mid) (sym same) counted) ds
            (subst (λ gs. All (λ u. meets u.gpu_indices gs ≡ false) tenants) (sym same)
              (All-zip tenants (λ u h k. later_apart u t s before h k) as_ d))
            e2
    ]
