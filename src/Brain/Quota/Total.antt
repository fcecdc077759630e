-- ===== src/Brain/Quota/Total.antt =====
-- The caps of `QuotaAwarePRSBrain` as a whole.
use Prim.Native.String.{String}
use opendps.Prelude.{◌≡◌, refl, ◌∙◌, ap, subst, true, not, [], some, arith}
use opendps.Num.{
  ℚ, ◌+◌, ◌*◌, int, ◌≤◌, ◌<◌, sum, sum_map, All, All-imp, All-All, mul_comm, mul-one,
  mul_le_mul_right, div_nonneg, le-int, le_add_right, add_max_sub, le_trans, le_of_eq, max_le,
  add_le_add, le_refl, zero-add,
}
use opendps.Dict.{
  nat_key, string_key, keys, values, update, filter, elem, Distinct, Apart, keys-tabulate,
  filter-Distinct, filter_passes, All-keys, get,
}
use opendps.Result.{ok, >>=-eq-ok, ok-injective}
use opendps.Pdn.Model.{PowerDomain}
use opendps.Pdn.Quota.{whole, validate, tenant_budget_w}
use opendps.Pdn.Quota.Validated.{sum-tenant_budget_w-le, validate-Disjoint}
use opendps.Brain.State.{DomainState, BrainDecision}
use opendps.Brain.Quota.{QuotaBrain, Slices, run_tenants, unassigned, unassigned_caps, decide}
use opendps.Brain.Quota.Shares.{run_tenants-used, sum-unassigned_caps-le}
use opendps.Brain.Quota.Apart.{not-elem, sum-update}
use opendps.Brain.Quota.Counted.{IsCounted, meets-nil, run_tenants-IsCounted}

-- The GPUs that are left are not assigned, each once.
unassigned_caps-fresh :
    (budget : ℚ) (s : DomainState) (slices : Slices)
    → IsCounted slices slices.assigned_gpus
    → Distinct (keys s.gpu_draws)
    → Distinct (keys (unassigned_caps budget s slices))
      × Apart (keys slices.all_caps) (keys (unassigned_caps budget s slices))
unfolding unassigned_caps unassigned
unassigned_caps-fresh budget s slices c d =
    let free = filter (λ g. not (elem g slices.assigned_gpus)) (keys s.gpu_draws) in
    rw keys-tabulate (
      filter-Distinct _ (keys s.gpu_draws) d,
      All-imp
          (λ g h.
            not-elem g slices.assigned_gpus (keys slices.all_caps)
              (All-keys (λ g. elem g slices.assigned_gpus ≡ true) slices.all_caps c.assigned)
              (ground (arith, h)))
          free (filter_passes _ (keys s.gpu_draws)),
    )

sum_all-le :
    (budget bound : ℚ) (s : DomainState) (slices : Slices)
    → IsCounted slices slices.assigned_gpus
    → Distinct (keys s.gpu_draws)
    → slices.used_budget ≤ bound
    → budget ≤ bound
    → sum (values (update slices.all_caps (unassigned_caps budget s slices))) ≤ bound
sum_all-le budget bound s slices c d used whole_le =
    let fresh = unassigned_caps-fresh budget s slices c d in
    le_trans
      (le_of_eq (
        sum-update slices.all_caps (unassigned_caps budget s slices) fresh.0 fresh.1
        ∙ ap (λ t. t + sum (values (unassigned_caps budget s slices))) c.total))
      (le_trans (add_le_add (le_refl slices.used_budget) (sum-unassigned_caps-le budget s slices))
        (le_trans (add_max_sub slices.used_budget budget) (max_le whole_le used)))

whole_ge : (budget : ℚ) → int 0 ≤ budget → budget ≤ whole * budget
whole_ge budget p =
    subst (λ t. t ≤ whole * budget) (mul_comm (int 1) budget ∙ mul-one budget)
      (mul_le_mul_right budget p
        (le_add_right (div_nonneg (le-int (omega arith)) (le-int (omega arith)))))

-- For a validated configuration, tenants with positive budgets, a domain with a budget that is
-- not negative and a sample with distinct GPUs, the caps that QuotaAwarePRSBrain.decide returns,
-- those of the tenants and of the GPUs of no tenant, add up to at most the budget of the domain,
-- with the tolerance of the validation.
pub decide_total :
    (b : QuotaBrain) (n : String) (s : DomainState) (now : ℚ) (domain : PowerDomain)
    → {r : QuotaBrain × BrainDecision} → validate b.quota ≡ ok tt
    → get n b.topology.domains ≡ some domain
    → All (λ t. int 0 < tenant_budget_w t domain.budget_w) b.quota.tenants
    → int 0 ≤ domain.budget_w
    → Distinct (keys s.gpu_draws)
    → decide b n s now ≡ ok r
    → sum (values (r.1).caps) ≤ whole * domain.budget_w
unfolding decide int sum
decide_total b n s now domain {r} valid known pos nonneg d h =
    let start : Slices = record {
      brains = b.tenant_brains;
      all_caps = [];
      assigned_gpus = [];
      used_budget = int 0;
    } in
    let (slices, e, done) =
      >>=-eq-ok (run_tenants b.prs_arguments n domain.budget_w s b.quota.tenants start) _
        (rw known at h) in
    let counted =
      run_tenants-IsCounted b.prs_arguments n domain.budget_w s b.quota.tenants start
        (record { total = refl; assigned = tt }) (validate-Disjoint b.quota valid).0
        (All-All (λ t. meets-nil t.gpu_indices) b.quota.tenants) e in
    let used =
      le_trans (run_tenants-used b.prs_arguments n domain.budget_w s b.quota.tenants start pos e) (
        rw (zero-add (sum_map (λ t. tenant_budget_w t domain.budget_w) b.quota.tenants))
          (sum-tenant_budget_w-le b.quota domain.budget_w valid nonneg)) in
    subst (λ r. sum (values (r.1).caps) ≤ whole * domain.budget_w) (ok-injective done)
      (sum_all-le domain.budget_w (whole * domain.budget_w) s slices counted d used
        (whole_ge domain.budget_w nonneg))
