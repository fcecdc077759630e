-- ===== src/Brain/Quota.antt =====
-- opendps/brain/quota_prs.py: `QuotaAwarePRSBrain`, which runs one `PRSBrain` for each tenant.
pub mod Shares
pub mod Apart
pub mod Counted
pub mod Total
use Prim.Native.Nat.{ℕ}
use Prim.Native.String.{String, ◌++◌ as join}
use opendps.Prelude.{
  ◌≡◌, ◌↔◌, Bool, true, false, not, ◌&&◌, List, [], ◌∷◌, ◌++◌, Option, none, some, if◌then◌else◌,
  nat_beq, nat_beq_iff, arith,
}
use opendps.Num.{ℚ, ◌+◌, ◌-◌, ◌*◌, ◌/◌, int, ltb, min, max, sum, length}
use opendps.Dict.{
  Dict, Key, nat_key, string_key, get, get_or, set, update, keys, values, map_values, tabulate,
  filter, elem, contains,
}
use opendps.Result.{Result, ok, raise, ◌>>=◌, ◌>>◌, or_raise, key_error}
use opendps.Pdn.Model.{PowerDomain, PdnTopology}
use opendps.Pdn.Quota.{TenantQuota, QuotaConfig, validate, tenant_budget_w}
use opendps.Brain.State.{DomainState, BrainDecision, quota_prs}
use opendps.Brain.Prs.{PrsBrain}
use opendps.Brain.Prs

-- The key of a tenant's brain: its id and its active GPUs.
unfoldable pub gpus_beq : List ℕ → List ℕ → Bool
gpus_beq [] [] = true
gpus_beq [] (h ∷ hs) = false
gpus_beq (g ∷ gs) [] = false
gpus_beq (g ∷ gs) (h ∷ hs) = nat_beq g h && gpus_beq gs hs

pub gpus_beq_iff : (gs hs : List ℕ) → (gpus_beq gs hs ≡ true) ↔ (gs ≡ hs)
unfolding gpus_beq
gpus_beq_iff [] [] = ground arith
gpus_beq_iff [] (h ∷ hs) = ground arith
gpus_beq_iff (g ∷ gs) [] = ground arith
gpus_beq_iff (g ∷ gs) (h ∷ hs) = ground (arith, nat_beq_iff g h, gpus_beq_iff gs hs)

unfoldable pub brain_key_beq : String × List ℕ → String × List ℕ → Bool
brain_key_beq (a, gs) (b, hs) = string_key.beq a b && gpus_beq gs hs

pub brain_key_beq_iff : (p q : String × List ℕ) → (brain_key_beq p q ≡ true) ↔ (p ≡ q)
unfolding brain_key_beq
brain_key_beq_iff (a, gs) (b, hs) = ground (arith, string_key.beq_iff a b, gpus_beq_iff gs hs)

instance abbrev pub brain_key : Key (String × List ℕ)
brain_key = record { beq = brain_key_beq; beq_iff = brain_key_beq_iff }

-- `**prs_kwargs`
pub record PrsArguments : Type 0 where
  pub min_cap_w : ℚ
  pub alpha : ℚ
  pub threshold : ℚ
  pub margin : ℚ
  pub rate : ℚ

pub record QuotaBrain : Type 0 where
  pub topology : PdnTopology
  pub quota : QuotaConfig
  pub prs_arguments : PrsArguments
  pub tenant_brains : Dict (String × List ℕ) PrsBrain

unfoldable pub init : PdnTopology → QuotaConfig → PrsArguments → Result QuotaBrain
init topology quota_config prs_arguments = do
  validate quota_config
  ok (record {
    topology = topology;
    quota = quota_config;
    prs_arguments = prs_arguments;
    tenant_brains = [];
  })

-- `{g: f(g) for g in gpus}`
unfoldable pub collect : (ℕ → ℚ) → List ℕ → Dict ℕ ℚ
collect f gpus = update [] (tabulate f gpus)

unfoldable pub tenant_present_gpus : TenantQuota → DomainState → List ℕ
tenant_present_gpus tenant state = filter (λ g. contains g state.gpu_draws) tenant.gpu_indices

unfoldable pub tenant_gpus : TenantQuota → DomainState → List ℕ
unfolding tenant_present_gpus
tenant_gpus tenant state =
    filter (λ g. contains g state.gpu_max_caps) (tenant_present_gpus tenant state)

unfoldable pub sub_topology : String → ℚ → List ℕ → PdnTopology
sub_topology name budget gpus =
    let domain : PowerDomain = record {
      name = name;
      budget_w = budget;
      gpu_indices = gpus;
      pdu_name = "_virtual";
      priority = 0;
      node_overhead_w = int 0;
      rack_name = none;
    } in
    record { pdus = []; domains = (name, domain) ∷ []; racks = []; adopted_budget_w = [] }

-- The keys that are read here are there: `tenant_gpus` has only GPUs with a draw and a maximum.
unfoldable pub sub_state : String → DomainState → List ℕ → DomainState
sub_state name state gpus = record {
  domain_name = name;
  gpu_draws = collect (λ g. get_or g (int 0) state.gpu_draws) gpus;
  gpu_caps = collect (λ g. get_or g (get_or g (int 0) state.gpu_max_caps) state.gpu_caps) gpus;
  ts = state.ts;
  gpu_max_caps = collect (λ g. get_or g (int 0) state.gpu_max_caps) gpus;
  gpu_thermal_throttled = [];
}

-- A tenant's caps, scaled to its slice.
unfoldable pub fit_slice : ℚ → Dict ℕ ℚ → Dict ℕ ℚ
fit_slice tenant_budget caps =
    if ltb (int 0) tenant_budget && ltb tenant_budget (sum (values caps))
    then map_values (λ _ cap. cap * (tenant_budget / sum (values caps))) caps
    else caps

-- What the loop over the tenants carries.
pub record Slices : Type 0 where
  pub brains : Dict (String × List ℕ) PrsBrain
  pub all_caps : Dict ℕ ℚ
  pub assigned_gpus : List ℕ
  pub used_budget : ℚ

unfoldable pub brain_for : PrsArguments → PdnTopology → Option PrsBrain → Result PrsBrain
brain_for args topology (some brain) = ok brain
brain_for args topology none =
    Prs.init topology args.min_cap_w args.alpha args.threshold args.margin args.rate

-- The body of the loop for a tenant of the domain with active GPUs.
unfoldable pub run_tenant :
    PrsArguments → String → DomainState → TenantQuota → ℚ → List ℕ → Slices → Result Slices
run_tenant args domain_name state tenant tenant_budget [] slices = ok slices
run_tenant args domain_name state tenant tenant_budget (g ∷ rest) slices = do
  let name = join domain_name (join "/" tenant.tenant_id)
  brain ←
      brain_for args (sub_topology name tenant_budget (g ∷ rest))
        (get (tenant.tenant_id, g ∷ rest) slices.brains)
  (brain', decision) ← Prs.decide brain name (sub_state name state (g ∷ rest))
  let caps = fit_slice tenant_budget decision.caps
  ok (record {
    brains = set (tenant.tenant_id, g ∷ rest) brain' slices.brains;
    all_caps = update slices.all_caps caps;
    assigned_gpus = slices.assigned_gpus;
    used_budget = slices.used_budget + sum (values caps);
  })

unfoldable pub run_tenants :
    PrsArguments → String → ℚ → DomainState → List TenantQuota → Slices → Result Slices
unfolding run_tenant
run_tenants args domain_name budget state [] slices = ok slices
run_tenants args domain_name budget state (tenant ∷ tenants) slices =
    if string_key.beq tenant.domain_name domain_name
    then run_tenant args domain_name state tenant (tenant_budget_w tenant budget)
        (tenant_gpus tenant state)
        (record slices { assigned_gpus = slices.assigned_gpus ++ tenant_present_gpus tenant state })
      >>= (λ after. run_tenants args domain_name budget state tenants after)
    else run_tenants args domain_name budget state tenants slices

-- The GPUs of no tenant share what is left.
unfoldable pub unassigned : DomainState → Slices → List ℕ
unassigned state slices = filter (λ g. not (elem g slices.assigned_gpus)) (keys state.gpu_draws)

unfoldable pub share : ℚ → DomainState → Slices → ℚ
share budget state slices =
    max (int 0) (budget - slices.used_budget) / int (length (unassigned state slices))

unfoldable pub unassigned_caps : ℚ → DomainState → Slices → Dict ℕ ℚ
unassigned_caps budget state slices =
    let watts = share budget state slices in
    tabulate (λ g. min watts (get_or g watts state.gpu_max_caps)) (unassigned state slices)

-- `now` is `time.time()`.
unfoldable pub decide : QuotaBrain → String → DomainState → ℚ → Result (QuotaBrain × BrainDecision)
decide b domain_name state now = do
  domain ← or_raise key_error (get domain_name b.topology.domains)
  slices ←
      run_tenants b.prs_arguments domain_name domain.budget_w state b.quota.tenants (record {
        brains = b.tenant_brains;
        all_caps = [];
        assigned_gpus = [];
        used_budget = int 0;
      })
  ok (
    record b { tenant_brains = slices.brains },
    record {
      domain = domain_name;
      caps = update slices.all_caps (unassigned_caps domain.budget_w state slices);
      ts = now;
      reason = quota_prs (length b.quota.tenants);
    },
  )
