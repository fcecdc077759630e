-- ===== src/Controller/Standalone/Brains.antt =====
-- The brain that a configuration names, `StandaloneController.__init__`, and what the controller asks
-- of it. Every brain holds the topology of the configuration itself, not a copy: `share_topology`
-- hands it the current one before a decision.
use Prim.Native.Nat.{ℕ}
use Prim.Native.String.{String}
use opendps.Prelude.{Bool, false, not, ◌||◌, Option, List, [], ◌∷◌, if◌then◌else◌}
use opendps.Num.{ℚ, ◌/◌, int}
use opendps.Dict.{Dict, nat_key, string_key, get, elem, keys}
use opendps.Result.{Result, ok, raise, raise_if, or_raise, value_error, type_error, ◌>>=◌, ◌>>◌}
use opendps.Pdn.Model.{PdnTopology}
use opendps.Pdn.Quota.{QuotaConfig, TenantQuota}
use opendps.Agent.JobTracker.{JobTracker, empty_tracker, set_busy_gpus}
use opendps.Brain.State.{DomainState, BrainDecision}
use opendps.Brain.Dpm.{DpmBrain}
use opendps.Brain.Dpm
use opendps.Brain.Prs.{PrsBrain}
use opendps.Brain.Prs
use opendps.Brain.Cvxpy.{CvxpyBrain, Program, Solution}
use opendps.Brain.Cvxpy
use opendps.Brain.JobAware.{JobAwareBrain}
use opendps.Brain.JobAware
use opendps.Brain.Quota.{QuotaBrain, PrsArguments}
use opendps.Brain.Quota
use opendps.Brain.Priority.{PriorityBrain}
use opendps.Brain.Priority
use opendps.Brain.Thermal.{ThermalBrain}
use opendps.Brain.Thermal

-- The fields of a `ControllerConfig` that the loop reads.
pub record ControllerConfig : Type 0 where
  pub topology : PdnTopology
  pub interval_s : ℚ
  pub domain_names : List String
  pub dry_run : Bool
  pub sim_mode : Bool
  pub brain_type : String
  pub has_metrics_port : Bool
  pub cap_raise_rate_w_per_tick : ℚ
  pub ewma_alpha : ℚ
  pub busy_gpus : List ℕ
  pub priority_boost : ℚ
  pub reads_actuator : Bool
  pub quota_config : Option QuotaConfig
  pub gpu_priority_tiers : Dict ℕ String
  pub has_priority_source : Bool
  pub thermal_throttled_gpus : List ℕ
  pub thermal_throttle_temp_c : ℚ
  pub node_id : String
  pub adopted_budget_min_w : ℚ

-- The first brain is the one of every other type.
pub data Brain : Type 0 where
  dpm : DpmBrain → Brain
  prs : PrsBrain → Brain
  cvxpy : CvxpyBrain → Brain
  job_prs : JobAwareBrain → Brain
  quota_prs : QuotaBrain → Brain
  priority_prs : PriorityBrain → Brain
  thermal_prs : ThermalBrain → Brain

unfoldable pub prs_on : PdnTopology → PrsBrain → PrsBrain
prs_on topology b = record b { topology = topology }

unfoldable pub share_topology : PdnTopology → Brain → Brain
unfolding prs_on
share_topology t (dpm b) = dpm (record b { topology = t })
share_topology t (prs b) = prs (prs_on t b)
share_topology t (cvxpy b) = cvxpy (record b { topology = t; fallback = prs_on t b.fallback })
share_topology t (job_prs b) = job_prs (record b { topology = t; prs = prs_on t b.prs })
share_topology t (quota_prs b) = quota_prs (record b { topology = t })
share_topology t (priority_prs b) = priority_prs (record b { topology = t; prs = prs_on t b.prs })
share_topology t (thermal_prs b) = thermal_prs (record b { topology = t; prs = prs_on t b.prs })

-- A brain that raises is as it was.
unfoldable pub decided :
    {B : Type 0} → (B → Brain) → B → Result (B × BrainDecision) → Brain × Result BrainDecision
decided wrap b (raise e) = (wrap b, raise e)
decided wrap b (ok (b', decision)) = (wrap b', ok decision)

unfoldable pub decided_cvxpy : CvxpyBrain × Result BrainDecision → Brain × Result BrainDecision
decided_cvxpy (b, result) = (cvxpy b, result)

-- `self._brain.decide(domain_name, state)`, at the time `state.ts`.
unfoldable pub decide :
    Option (Program → Result Solution) → Brain → String → DomainState → Brain × Result BrainDecision
unfolding decided decided_cvxpy
decide solve (dpm b) n state = (dpm b, Dpm.decide b n state)
decide solve (prs b) n state = decided prs b (Prs.decide b n state)
decide solve (cvxpy b) n state = decided_cvxpy (Cvxpy.decide solve n state b)
decide solve (job_prs b) n state = decided job_prs b (JobAware.decide b n state)
decide solve (quota_prs b) n state = decided quota_prs b (Quota.decide b n state state.ts)
decide solve (priority_prs b) n state = decided priority_prs b (Priority.decide b n state)
decide solve (thermal_prs b) n state = decided thermal_prs b (Thermal.decide b n state)

unfoldable pub tiers_set : Result PriorityBrain → Result Brain
tiers_set (raise e) = raise e
tiers_set (ok b) = ok (priority_prs b)

-- Only one brain has `set_tiers`.
unfoldable pub set_tiers : Dict ℕ String → Brain → Result Brain
unfolding tiers_set
set_tiers tiers (priority_prs b) = tiers_set (Priority.set_tiers b tiers)
set_tiers tiers _ = raise type_error

-- `sorted(set(t.gpu_indices) - domain_gpus)` is not empty.
unfoldable pub strays : List ℕ → List TenantQuota → Bool
strays domain_gpus [] = false
strays domain_gpus (t ∷ tenants) = stray_among t.gpu_indices || strays domain_gpus tenants
  where
    stray_among : List ℕ → Bool
    stray_among [] = false
    stray_among (g ∷ gpus) = not (elem g domain_gpus) || stray_among gpus

-- `_validate_quota_against_topology`
unfoldable pub validate_quota_against_topology : QuotaConfig → PdnTopology → Result (Unit {0})
unfolding strays
validate_quota_against_topology quota topology = do
  domain ← or_raise value_error (get quota.domain_name topology.domains)
  raise_if (strays domain.gpu_indices quota.tenants) value_error

abbrev pub default_threshold : ℚ
default_threshold = int 3 / int 5

abbrev pub default_margin : ℚ
default_margin = int 3 / int 10

-- The arguments that the controller passes to every brain on top of `PRSBrain`, and the defaults.
unfoldable pub prs_arguments : ControllerConfig → PrsArguments
prs_arguments config = record {
  min_cap_w = int 200;
  alpha = config.ewma_alpha;
  threshold = default_threshold;
  margin = default_margin;
  rate = config.cap_raise_rate_w_per_tick;
}

unfoldable pub make_quota_brain : ControllerConfig → Result Brain
unfolding prs_arguments
make_quota_brain config = do
  quota ← or_raise value_error config.quota_config
  validate_quota_against_topology quota config.topology
  b ← Quota.init config.topology quota (prs_arguments config)
  ok (quota_prs b)

-- `not config.gpu_priority_tiers and config.priority_config_source is None`
unfoldable pub lacks_tiers : ControllerConfig → Bool
lacks_tiers config = elim config.gpu_priority_tiers [
  | [] ↦ not config.has_priority_source
  | _ ∷ _ ↦ false
]

-- The tracker is the one that polls `nvidia-smi`, where no GPU is marked busy.
unfoldable pub job_tracker_of : JobTracker → List ℕ → JobTracker
job_tracker_of polling [] = polling
job_tracker_of polling (g ∷ gpus) = set_busy_gpus empty_tracker (g ∷ gpus)

-- The choice of the constructor.
unfoldable pub make_brain : ControllerConfig → JobTracker → Result Brain
unfolding make_quota_brain lacks_tiers job_tracker_of
make_brain config polling =
    let alpha = config.ewma_alpha in
    let rate = config.cap_raise_rate_w_per_tick in
    let is_type = string_key.beq config.brain_type in
    if is_type "prs"
    then (do
      b ← Prs.init config.topology (int 200) alpha default_threshold default_margin rate
      ok (prs b))
    else (if is_type "cvxpy"
        then (do
          b ←
              Cvxpy.init config.topology (int 200) (int 3 / int 10) default_threshold
                (int 13 / int 10)
          ok (cvxpy b))
        else (if is_type "job-prs"
            then (do
              b ←
                  JobAware.init config.topology (job_tracker_of polling config.busy_gpus)
                    config.priority_boost (int 200) alpha default_threshold default_margin rate
              ok (job_prs b))
            else (if is_type "quota-prs"
                then make_quota_brain config
                else (if is_type "priority-prs"
                    then (do
                      raise_if (lacks_tiers config) value_error
                      b ←
                          Priority.init config.topology config.gpu_priority_tiers default_threshold
                            (int 200) alpha default_threshold default_margin rate
                      ok (priority_prs b))
                    else (if is_type "thermal-prs"
                        then (do
                          b ←
                              Thermal.init config.topology (int 3 / int 20) (int 200) alpha
                                default_threshold default_margin rate
                          ok (thermal_prs b))
                        else ok
                            (dpm (record { topology = config.topology; min_cap_w = int 200 })))))))

unfoldable pub managed_domains : ControllerConfig → List String
managed_domains config = elim config.domain_names [
  | [] ↦ keys config.topology.domains
  | name ∷ names ↦ name ∷ names
]
