-- ===== src/Brain/Quota/Shares.antt =====
-- The slices of the tenants under `QuotaAwarePRSBrain`, and what is left for the others.
use Prim.Native.Nat.{ℕ, suc}
use Prim.Native.String.{String}
use opendps.Prelude.{◌≡◌, sym, ◌∙◌, ap, subst, List, [], ◌∷◌, ◌++◌, Bool-cases, inl, inr}
use opendps.Num.{
  ℚ, ◌+◌, ◌-◌, ◌*◌, ◌/◌, int, ◌≤◌, ◌<◌, max, sum, sum_map, sum_map-mul, All, All-All, length,
  le_refl, le_trans, le_of_eq, le_of_lt, le_or_lt, lt_of_le_of_lt, mul_comm, div_mul_cancel,
  add_le_add, add_assoc, sum_map_le, sum_map_const, min_le_left, le_max_left, int_pos, le_add_right,
  le_add_left, add-zero,
}
use opendps.Pdn.Quota.{TenantQuota, tenant_budget_w}
use opendps.Brain.Prs
use opendps.Dict.{Dict, string_key, values, sum-values, sum-values-map_values, sum-values-tabulate}
use opendps.Result.{ok, ◌>>=◌, >>=-eq-ok, ok-injective}
use opendps.Brain.State.{DomainState}
use opendps.Brain.Quota.{
  PrsArguments, brain_for, tenant_gpus, tenant_present_gpus, run_tenant, run_tenants, fit_slice,
  Slices, unassigned, share, unassigned_caps,
}

-- A tenant with a positive budget gets caps that add up to at most that budget.
pub sum-fit_slice-le :
    (tenant_budget : ℚ) (caps : Dict ℕ ℚ)
    → int 0 < tenant_budget
    → sum (values (fit_slice tenant_budget caps)) ≤ tenant_budget
unfolding fit_slice
sum-fit_slice-le b caps h = elim (le_or_lt (sum (values caps)) b) [
  | inl fits ↦ rw (h.holds, fits.holds) fits
  | inr over ↦
      let total = sum (values caps) in
      rw (h.holds, over.holds)
        (le_of_eq (
          sum-values-map_values (λ _ cap. cap * (b / total)) caps
          ∙ sum_map-mul (λ e. e.1) (b / total) caps
          ∙ ap (λ t. t * (b / total)) (sym (sum-values caps))
          ∙ mul_comm total (b / total)
          ∙ div_mul_cancel b (lt_of_le_of_lt (le_of_lt h) over)))
]

sum-nil : (w : ℚ) → int 0 ≤ w → sum_map (λ (g : ℕ). w / int 0) [] ≤ w
unfolding sum_map
sum-nil w h = h

even_le : (w : ℚ) (gs : List ℕ) → int 0 ≤ w → sum_map (λ _. w / int (length gs)) gs ≤ w
even_le w [] h = sum-nil w h
even_le w (g ∷ gs) h = le_of_eq (
    sum_map_const (w / int (suc (length gs))) (g ∷ gs)
    ∙ mul_comm (int (suc (length gs))) (w / int (suc (length gs)))
    ∙ div_mul_cancel w (int_pos (length gs)))

-- The caps of the GPUs of no tenant add up to at most what the slices leave of the budget.
pub sum-unassigned_caps-le :
    (budget : ℚ) (state : DomainState) (slices : Slices)
    → sum (values (unassigned_caps budget state slices)) ≤ max (int 0) (budget - slices.used_budget)
unfolding unassigned_caps share
sum-unassigned_caps-le budget state slices =
    let gs = unassigned state slices in
    let w = max (int 0) (budget - slices.used_budget) in
    le_trans (le_of_eq (sum-values-tabulate _ gs)) (
      le_trans (sum_map_le _ (λ _. w / int (length gs)) gs (All-All (λ g. min_le_left _ _) gs))
        (even_le w gs (le_max_left (int 0) _)))

run_tenant-used :
    (args : PrsArguments) (n : String) (s : DomainState) (t : TenantQuota) (w : ℚ) (gs : List ℕ)
    (slices : Slices) {after : Slices}
    → int 0 < w
    → run_tenant args n s t w gs slices ≡ ok after
    → after.used_budget ≤ slices.used_budget + w
unfolding run_tenant
run_tenant-used args n s t w [] slices {after} h e =
    subst (λ x. x.used_budget ≤ slices.used_budget + w) (ok-injective e) (le_add_right (le_of_lt h))
run_tenant-used args n s t w (g ∷ rest) slices {after} h e =
    let (brain, _, e') = >>=-eq-ok (brain_for args _ _) _ e in
    let (r, _, e'') = >>=-eq-ok (Prs.decide brain _ _) _ e' in
    subst (λ x. x.used_budget ≤ slices.used_budget + w) (ok-injective e'')
      (add_le_add (le_refl slices.used_budget) (sum-fit_slice-le w (r.1).caps h))

-- The loop of QuotaAwarePRSBrain.decide over the tenants uses at most the tenants' budgets, when
-- these are positive.
pub run_tenants-used :
    (args : PrsArguments) (n : String) (budget : ℚ) (s : DomainState) (tenants : List TenantQuota)
    (slices : Slices) {after : Slices}
    → All (λ t. int 0 < tenant_budget_w t budget) tenants
    → run_tenants args n budget s tenants slices ≡ ok after
    → after.used_budget ≤ slices.used_budget + sum_map (λ t. tenant_budget_w t budget) tenants
unfolding run_tenants sum_map
run_tenants-used args n budget s [] slices h e =
    le_of_eq (sym (ap (λ x. x.used_budget) (ok-injective e)) ∙ sym (add-zero _))
run_tenants-used args n budget s (t ∷ tenants) slices {after} (h, hs) e =
    elim (Bool-cases (string_key.beq t.domain_name n)) [
      | inl ours ↦
          let next : Slices = record slices {
            assigned_gpus = slices.assigned_gpus ++ tenant_present_gpus t s;
          } in
          let w = tenant_budget_w t budget in
          let e0 : (run_tenant args n s t w (tenant_gpus t s) next
                >>= (λ x. run_tenants args n budget s tenants x))
              ≡ ok after =
            rw ours at e in
          let (mid, e1, e2) =
            >>=-eq-ok (run_tenant args n s t w (tenant_gpus t s) next)
              (λ x. run_tenants args n budget s tenants x) e0 in
          let rest = sum_map (λ u. tenant_budget_w u budget) tenants in
          le_trans (run_tenants-used args n budget s tenants mid hs e2) (
            subst (λ x. mid.used_budget + rest ≤ x) (add_assoc slices.used_budget w rest)
              (add_le_add (run_tenant-used args n s t w (tenant_gpus t s) next h e1)
                (le_refl rest)))
      | inr other ↦
          le_trans (run_tenants-used args n budget s tenants slices hs (rw other at e))
            (add_le_add (le_refl slices.used_budget) (le_add_left (le_of_lt h)))
    ]
