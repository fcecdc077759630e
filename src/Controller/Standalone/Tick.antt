-- ===== src/Controller/Standalone/Tick.antt =====
-- `StandaloneController.run_once`, and the budget, the telemetry and the caps of one domain. The
-- actuator is an interface, and the coordinator's store is the argument `read_budget`.
use Prim.Native.Nat.{ℕ}
use Prim.Native.String.{String}
use opendps.Prelude.{Bool, true, false, ◌||◌, Option, none, some, List, [], ◌∷◌, if◌then◌else◌}
use opendps.Num.{ℚ, ◌/◌, int, leb, max, sum_map, length}
use opendps.Dict.{Dict, nat_key, string_key, get, get_or, or_default, set, keys, map_values, elem}
use opendps.Result.{Result, ok, raise, or_raise, key_error}
use opendps.Op.{Op, return, lift, modify, gets, ◌>>=◌, ◌>>◌}
use opendps.Pdn.Model.{PdnTopology, PowerDomain, adopt_budget, release_budget, domain_budget_w}
use opendps.Pdn.Quota.{QuotaConfig, TenantQuota}
use opendps.Brain.State.{DomainState, BrainDecision}
use opendps.Brain.Cvxpy.{Program, Solution}
use opendps.Sim.Actuator.{Actuator}
use opendps.Telemetry.Energy.{EnergyAccountant, add_tick}
use opendps.Telemetry.Metrics.{Metrics, add_tenant_energy_kwh, update_decision_metrics}
use opendps.Controller.Standalone.Brains.{
  Brain, ControllerConfig, share_topology, decide, managed_domains,
}
use opendps.Controller.Standalone.Stats.{domain_stats}

-- The state of the controller, the targets of its calls included.
pub record Controller (A : Type 0) : Type 0 where
  pub topology : PdnTopology
  pub brain : Brain
  pub actuator : A
  pub energy : EnergyAccountant
  pub metrics : Metrics

-- The part of a `GpuSample` that the controller reads.
pub record GpuReading : Type 0 where
  pub power_draw_w : Option ℚ
  pub power_limit_w : Option ℚ
  pub power_max_limit_w : Option ℚ
  pub temperature_c : Option ℚ

-- The part of the `DomainState` that is filled GPU by GPU.
pub record Readings : Type 0 where
  pub draws : Dict ℕ ℚ
  pub caps : Dict ℕ ℚ
  pub max_caps : Dict ℕ ℚ

abbrev pub no_readings : Readings
no_readings = record { draws = []; caps = []; max_caps = [] }

-- A failed read of the store counts as no budget.
unfoldable pub budget_or_none : Result (Option ℚ) → Option ℚ
budget_or_none (raise e) = none
budget_or_none (ok adopted) = adopted

-- The coordinator's budget is adopted, or an earlier one released.
unfoldable pub adopt : ControllerConfig → String → Option ℚ → PdnTopology → PdnTopology
adopt config domain_name none t = release_budget t domain_name
adopt config domain_name (some adopted) t =
    if leb config.adopted_budget_min_w adopted
    then adopt_budget t domain_name adopted
    else release_budget t domain_name

unfoldable pub with_topology : {A : Type 0} → PdnTopology → Controller A → Controller A
unfolding share_topology
with_topology t c = record c { topology = t; brain = share_topology t c.brain }

-- Without a store the topology keeps its budgets.
unfoldable pub adopt_from_store :
    {A : Type 0}
    → ControllerConfig
    → String
    → Option (Result (Option ℚ))
    → Controller A
    → Controller A
unfolding budget_or_none adopt with_topology
adopt_from_store config domain_name none c = c
adopt_from_store config domain_name (some read) c =
    with_topology (adopt config domain_name (budget_or_none read) c.topology) c

unfoldable pub add_reading : ℕ → ℚ → ℚ → ℚ → Readings → Readings
add_reading gpu draw cap max_cap r = record {
  draws = set gpu draw r.draws;
  caps = set gpu cap r.caps;
  max_caps = set gpu max_cap r.max_caps;
}

-- A GPU that the sample lacks is skipped.
unfoldable pub read_sample : Dict ℕ GpuReading → ℚ → List ℕ → Readings → Readings
unfolding add_reading or_default
read_sample sample fallback_cap [] r = r
read_sample sample fallback_cap (gpu ∷ gpus) r =
    read_sample sample fallback_cap gpus (elim (get gpu sample) [
      | none ↦ r
      | some g ↦
          add_reading gpu (or_default (int 0) g.power_draw_w)
            (or_default fallback_cap g.power_limit_w) (or_default fallback_cap g.power_max_limit_w)
            r
    ])

-- The temperature of a GPU is at or above the threshold.
unfoldable pub is_too_hot : ℚ → Option GpuReading → Bool
is_too_hot threshold none = false
is_too_hot threshold (some g) = elim g.temperature_c [
  | none ↦ false
  | some temp ↦ leb threshold temp
]

unfoldable pub is_flagged : ControllerConfig → Option (Dict ℕ GpuReading) → ℕ → Bool
unfolding is_too_hot
is_flagged config none gpu = elem gpu config.thermal_throttled_gpus
is_flagged config (some sample) gpu =
    elem gpu config.thermal_throttled_gpus
    || is_too_hot config.thermal_throttle_temp_c (get gpu sample)

unfoldable pub thermal_flags : ControllerConfig → Option (Dict ℕ GpuReading) → List ℕ → Dict ℕ Bool
unfolding is_flagged
thermal_flags config sample [] = []
thermal_flags config sample (gpu ∷ gpus) =
    let rest = thermal_flags config sample gpus in
    if is_flagged config sample gpu then (gpu, true) ∷ rest else rest

abbrev pub joules_per_kwh : ℚ
joules_per_kwh = int 3600000

-- This tick's energy of a tenant.
unfoldable pub tenant_kwh : Dict ℕ ℚ → TenantQuota → ℚ
tenant_kwh added_j tenant =
    sum_map (λ g. get_or g (int 0) added_j) tenant.gpu_indices / joules_per_kwh

unfoldable pub attribute : String → Dict ℕ ℚ → List TenantQuota → Metrics → Metrics
unfolding tenant_kwh add_tenant_energy_kwh
attribute domain_name added_j [] m = m
attribute domain_name added_j (tenant ∷ tenants) m = attribute domain_name added_j tenants (
    if string_key.beq tenant.domain_name domain_name
    then add_tenant_energy_kwh domain_name tenant.tenant_id (tenant_kwh added_j tenant) m
    else m)

unfoldable pub tenants_of : Option QuotaConfig → List TenantQuota
tenants_of none = []
tenants_of (some quota) = quota.tenants

unfoldable pub account :
    {A : Type 0} → ControllerConfig → String → Dict ℕ ℚ → Controller A → Controller A
unfolding attribute tenants_of
account config domain_name gpu_draws c =
    let r = add_tick c.energy (map_values (λ _ w. some w) gpu_draws) config.interval_s in
    record c {
      energy = r.0;
      metrics = attribute domain_name r.1 (tenants_of config.quota_config) c.metrics;
    }

-- The types that count as active reclaim.
unfoldable pub is_prs_type : String → Bool
is_prs_type brain_type =
    elem brain_type ("prs" ∷ "job-prs" ∷ "quota-prs" ∷ "priority-prs" ∷ "thermal-prs" ∷ [])

unfoldable pub note_metrics :
    {A : Type 0} → ControllerConfig → String → Dict ℕ ℚ → Dict ℕ ℚ → Controller A → Controller A
unfolding domain_stats is_prs_type update_decision_metrics
note_metrics config domain_name gpu_draws caps c =
    if config.has_metrics_port
    then record c {
      metrics =
          update_decision_metrics domain_name (is_prs_type config.brain_type)
            (domain_stats gpu_draws caps (int 3 / int 5)) gpu_draws caps none c.metrics;
    }
    else c

unfoldable pub with_decision :
    {A : Type 0} → Controller A → Brain × Result BrainDecision → Controller A × Result BrainDecision
with_decision c (brain, result) = (record c { brain = brain }, result)

unfoldable pub run_brain :
    {A : Type 0}
    → Option (Program → Result Solution)
    → String
    → DomainState
    → Op (Controller A) BrainDecision
unfolding with_decision decide
run_brain solve domain_name state c = with_decision c (decide solve c.brain domain_name state)

unfoldable pub with_actuator :
    {A : Type 0} → Controller A → Result A → Controller A × Result (Unit {0})
with_actuator c (raise e) = (c, raise e)
with_actuator c (ok actuator) = (record c { actuator = actuator }, ok tt)

module _ {A : Type 0} (target : Actuator A) where
  unfoldable pub read_max_cap : ℚ → A → ℕ → Result ℚ
  read_max_cap fallback_cap a gpu = elim target.get_max_cap_w [
    | none ↦ ok fallback_cap
    | some get_max_cap_w ↦ get_max_cap_w a gpu
  ]

  -- The three reads of one GPU.
  unfoldable pub read_gpu : ℚ → ℕ → Readings → Op (Controller A) Readings
  unfolding add_reading read_max_cap gets lift return
  read_gpu fallback_cap gpu r = do
    a ← gets (λ c. c.actuator)
    draw ← lift (target.get_power_draw a gpu)
    cap ← lift (target.get_power_cap a gpu)
    max_cap ← lift (read_max_cap fallback_cap a gpu)
    return (add_reading gpu draw cap max_cap r)

  unfoldable pub read_actuator : ℚ → List ℕ → Readings → Op (Controller A) Readings
  unfolding read_gpu return
  read_actuator fallback_cap [] r = return r
  read_actuator fallback_cap (gpu ∷ gpus) r =
      read_gpu fallback_cap gpu r >>= read_actuator fallback_cap gpus

  unfoldable pub read_telemetry :
      Option (Dict ℕ GpuReading) → ℚ → List ℕ → Op (Controller A) Readings
  unfolding read_sample read_actuator return
  read_telemetry none fallback_cap gpus = read_actuator fallback_cap gpus no_readings
  read_telemetry (some sample) fallback_cap gpus =
      return (read_sample sample fallback_cap gpus no_readings)

  -- `set_power_cap` for each GPU; an exception leaves the caps that are set.
  unfoldable pub push_each : Dict ℕ ℚ → Op (Controller A) (Unit {0})
  unfolding with_actuator gets return
  push_each [] = return tt
  push_each ((gpu, watts) ∷ caps) =
      (λ c. with_actuator c (target.set_power_cap c.actuator gpu watts)) >> push_each caps

  unfoldable pub push_caps : ControllerConfig → Dict ℕ ℚ → Op (Controller A) (Unit {0})
  unfolding push_each modify return
  push_caps config caps = if config.dry_run then return tt else elim target.push_all_caps [
    | none ↦ push_each caps
    | some push_all_caps ↦ modify (λ c. record c { actuator = push_all_caps c.actuator caps })
  ]

  -- `max(len(domain.gpu_indices), 1)` GPUs share the budget.
  unfoldable pub fallback_cap_of : ℚ → PowerDomain → ℚ
  fallback_cap_of budget domain = budget / max (int (length domain.gpu_indices)) (int 1)

  -- The body of the loop over the domains; `sample` is what Prometheus has, where it is read.
  unfoldable pub run_domain :
      Option (Program → Result Solution)
      → (String → String → Option (Result (Option ℚ)))
      → ControllerConfig
      → Option (Dict ℕ GpuReading)
      → ℚ
      → String
      → Op (Controller A) BrainDecision
  unfolding adopt_from_store read_telemetry fallback_cap_of run_brain account push_caps note_metrics
      thermal_flags gets lift modify return
  run_domain solve read_budget config sample ts domain_name = do
    found ← gets (λ c. get domain_name c.topology.domains)
    domain ← lift (or_raise key_error found)
    modify (adopt_from_store config domain_name (read_budget config.node_id domain_name))
    known ← gets (λ c. domain_budget_w c.topology domain_name)
    budget ← lift known
    readings ← read_telemetry sample (fallback_cap_of budget domain) domain.gpu_indices
    decision ← run_brain solve domain_name (record {
      domain_name = domain_name;
      gpu_draws = readings.draws;
      gpu_caps = readings.caps;
      ts = ts;
      gpu_max_caps = readings.max_caps;
      gpu_thermal_throttled = thermal_flags config sample (keys readings.draws);
    })
    modify (account config domain_name readings.draws)
    push_caps config decision.caps
    modify (note_metrics config domain_name readings.draws decision.caps)
    return decision

  unfoldable pub run_domains :
      Option (Program → Result Solution)
      → (String → String → Option (Result (Option ℚ)))
      → ControllerConfig
      → Option (Dict ℕ GpuReading)
      → ℚ
      → List String
      → Op (Controller A) (List BrainDecision)
  unfolding run_domain return
  run_domains solve read_budget config sample ts [] = return []
  run_domains solve read_budget config sample ts (name ∷ names) = do
    decision ← run_domain solve read_budget config sample ts name
    decisions ← run_domains solve read_budget config sample ts names
    return (decision ∷ decisions)

  -- `if sim_mode and hasattr(actuator, "tick")`
  unfoldable pub tick_sim : ControllerConfig → Controller A → Controller A
  tick_sim config c =
      if config.sim_mode
      then elim target.tick [ none ↦ c | some tick ↦ record c { actuator = tick c.actuator } ]
      else c

  -- `NodeSampleFromProm`, unless the actuator is read.
  unfoldable pub sample_of :
      ControllerConfig → Result (Dict ℕ GpuReading) → Result (Option (Dict ℕ GpuReading))
  sample_of config scrape =
      if config.sim_mode || config.reads_actuator
      then ok none
      else elim scrape [ raise e ↦ raise e | ok sample ↦ ok (some sample) ]

  -- `run_once`, at the time `ts`.
  unfoldable pub run_once :
      Option (Program → Result Solution)
      → (String → String → Option (Result (Option ℚ)))
      → ControllerConfig
      → Result (Dict ℕ GpuReading)
      → ℚ
      → Op (Controller A) (List BrainDecision)
  unfolding run_domains sample_of tick_sim managed_domains lift modify return
  run_once solve read_budget config scrape ts = do
    sample ← lift (sample_of config scrape)
    decisions ← run_domains solve read_budget config sample ts (managed_domains config)
    modify (tick_sim config)
    return decisions
