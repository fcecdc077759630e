-- ===== src/Tests/QuotaRuns.antt =====
-- Two tenants on the demo installation.
use Prim.Native.Nat.{ℕ}
use opendps.Prelude.{◌≡◌, refl, [], ◌∷◌, some}
use opendps.Num.{ℚ, ◌≤◌, ◌<◌, ◌+◌, ◌*◌, ◌/◌, int, leb, inv, sum, sum_map, All}
use opendps.Dict.{Dict, nat_key, string_key, elem, contains, filter, get, keys, values, Distinct}
use opendps.Result.{Result, ok, raise, value_error}
use opendps.Pdn.Quota.{
  TenantQuota, QuotaConfig, has_stray, meets, overlaps, validate, whole, tenant_budget_w,
}
use opendps.Pdn.Quota.Validated.{Disjoint, sum-tenant_budget_w-le, validate-Disjoint}
use opendps.Pdn.Model.{domain_budget_w}
use opendps.Brain.Prs
use opendps.Brain.Quota.{
  QuotaBrain, decide, Slices, PrsArguments, run_tenants, run_tenant, brain_for, tenant_gpus,
  tenant_present_gpus, sub_topology,
}
use opendps.Brain.Quota.Total.{decide_total}
use opendps.Brain.State.{BrainDecision, prs}
use opendps.Tests.Demo.{sample, topology, d0}

abbrev tenant_a : TenantQuota
tenant_a = record {
  tenant_id = "a";
  domain_name = "d0";
  gpu_indices = 0 ∷ 2 ∷ [];
  max_watts_pct = int 3 / int 5;
}

abbrev tenant_b : TenantQuota
tenant_b = record {
  tenant_id = "b";
  domain_name = "d0";
  gpu_indices = 3 ∷ [];
  max_watts_pct = int 1 / int 4;
}

abbrev quota : QuotaConfig
quota = record { domain_name = "d0"; tenants = tenant_a ∷ tenant_b ∷ [] }

quota_valid : validate quota ≡ ok tt
unfolding validate has_stray meets overlaps elem sum_map leb ◌+◌ ◌*◌ ◌/◌ inv int
quota_valid = refl

-- A GPU in two tenants is refused.
shared_refused :
    validate (record quota { tenants = tenant_a ∷ record tenant_b { gpu_indices = 2 ∷ [] } ∷ [] })
    ≡ raise value_error
unfolding validate has_stray meets overlaps elem sum_map leb ◌+◌ ◌*◌ ◌/◌ inv int
shared_refused = refl

budget_nonneg : int 0 ≤ int 400
unfolding leb int
budget_nonneg = record { holds = refl }

sum-tenant_budget_w-le_example :
    sum_map (λ t. tenant_budget_w t (int 400)) quota.tenants ≤ whole * int 400
sum-tenant_budget_w-le_example = sum-tenant_budget_w-le quota (int 400) quota_valid budget_nonneg

validate-Disjoint_example :
    Disjoint quota.tenants × All (λ t. t.domain_name ≡ quota.domain_name) quota.tenants
validate-Disjoint_example = validate-Disjoint quota quota_valid

abbrev too_large : Dict ℕ ℚ
too_large = (0, int 200) ∷ (2, int 150) ∷ []

slice_pos : int 0 < int 240
unfolding leb int
slice_pos = record { holds = refl }

abbrev slices : Slices
slices = record {
  brains = [];
  all_caps = (0, int 200) ∷ [];
  assigned_gpus = 0 ∷ 2 ∷ [];
  used_budget = int 200;
}

abbrev arguments : PrsArguments
arguments = record {
  min_cap_w = int 30;
  alpha = int 1 / int 2;
  threshold = int 4 / int 5;
  margin = int 1 / int 10;
  rate = int 0;
}

abbrev none_yet : Slices
none_yet = record { brains = []; all_caps = []; assigned_gpus = []; used_budget = int 0 }

abbrev slices_or : Slices → Result Slices → Slices
slices_or d (ok after) = after
slices_or d (raise e) = d

abbrev run : Result Slices
run = run_tenants arguments "d0" (int 400) sample quota.tenants none_yet

run_returns : run ≡ ok (slices_or none_yet run)
unfolding run_tenants run_tenant brain_for Prs.init Prs.decide tenant_gpus tenant_present_gpus
    sub_topology domain_budget_w contains filter elem get leb int ◌/◌ ◌*◌ inv
run_returns = refl

budgets_pos : All (λ t. int 0 < tenant_budget_w t (int 400)) quota.tenants
unfolding tenant_budget_w leb int ◌/◌ ◌*◌ inv
budgets_pos = (record { holds = refl }, (record { holds = refl }, tt))

abbrev quota_brain : QuotaBrain
quota_brain = record {
  topology = topology;
  quota = quota;
  prs_arguments = arguments;
  tenant_brains = [];
}

abbrev decision_or :
    QuotaBrain × BrainDecision → Result (QuotaBrain × BrainDecision) → QuotaBrain × BrainDecision
decision_or d (ok r) = r
decision_or d (raise e) = d

abbrev no_decision : QuotaBrain × BrainDecision
no_decision =
    (quota_brain, record { domain = "d0"; caps = []; ts = int 0; reason = prs 0 0 (int 0) })

abbrev decision : QuotaBrain × BrainDecision
decision = decision_or no_decision (decide quota_brain "d0" sample (int 9))

decision_returned : decide quota_brain "d0" sample (int 9) ≡ ok decision
unfolding decide run_tenants run_tenant brain_for Prs.init Prs.decide tenant_gpus
    tenant_present_gpus sub_topology domain_budget_w contains filter elem get leb int ◌/◌ ◌*◌ inv
decision_returned = refl

d0_known : get "d0" topology.domains ≡ some d0
unfolding get
d0_known = refl

sample_distinct : Distinct (keys sample.gpu_draws)
unfolding elem
sample_distinct = (refl, (refl, tt))

decide_total_example : sum (values (decision.1).caps) ≤ whole * int 400
decide_total_example =
    decide_total quota_brain "d0" sample (int 9) d0 quota_valid d0_known budgets_pos budget_nonneg
      sample_distinct decision_returned
