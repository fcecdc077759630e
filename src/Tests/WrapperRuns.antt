-- ===== src/Tests/WrapperRuns.antt =====
-- The brains that wrap `PRSBrain`, on the demo installation.
use Prim.Native.Nat.{ℕ}
use Prim.Native.String.{String}
use opendps.Prelude.{◌≡◌, refl, [], ◌∷◌, true, false, nat_leb}
use opendps.Num.{◌≤◌, ◌<◌, ◌+◌, ◌-◌, ◌*◌, ◌/◌, int, leb, max, min, sum, sum_map, inv, neg, All}
use opendps.Dict.{
  Dict, get, get_or, or_default, set, values, filter, elem, update, tabulate, map_values, contains,
  length, nat_key, string_key,
}
use opendps.Result.{ok}
use opendps.Pdn.Model.{
  effective_budget, budget_from, rack_of, rack_total, share_of_rack, domains_on_rack, same_name,
}
use opendps.Json.{pos}
use opendps.Agent.JobTracker.{JobTracker, get_jobs, any_job, is_gpu_busy}
use opendps.Brain.State.{DomainState, BrainDecision}
use opendps.Brain.Prs.{
  PrsBrain, limited_caps, target_caps, idle_caps, idle_gpus, hot_caps, hot_gpus, hot_gpu, is_hot,
  start_tick, caps_of, update_ewma, ewma_at, blend, fallback_max,
}
use opendps.Brain.Prs
use opendps.Brain.Priority.{
  PriorityBrain, contended, is_contended, has_unknown, tier_weights, default_tier, contended_cap,
}
use opendps.Brain.Priority
use opendps.Brain.Priority.Budget.{decide-contended}
use opendps.Brain.Priority.Tiers.{contended_cap_floor}
use opendps.Brain.Thermal.{ThermalBrain, is_throttled}
use opendps.Brain.Thermal
use opendps.Brain.Thermal.Backoff.{decide_backoff}
use opendps.Brain.JobAware.{JobAwareBrain, busy}
use opendps.Brain.JobAware
use opendps.Brain.JobAware.Boost.{decide-busy_budget}
use opendps.Tests.Demo.{topology, budget0, topology_budget0, heavy, brain}

abbrev proposed : PrsBrain × BrainDecision
proposed = Prs.decide_within brain "d0" budget0 heavy

brain_proposed : Prs.decide brain "d0" heavy ≡ ok (proposed.0, proposed.1)
unfolding Prs.decide Prs.decide_within
brain_proposed = rw topology_budget0 refl

budget0_pos : int 0 < budget0
unfolding effective_budget budget_from rack_of rack_total share_of_rack domains_on_rack same_name
    filter get sum_map max leb ◌+◌ ◌-◌ ◌*◌ ◌/◌ inv neg int
budget0_pos = record { holds = refl }

abbrev tiers : Dict ℕ String
tiers = (0, "high") ∷ (1, "low") ∷ []

abbrev pub tiered : PriorityBrain
tiered = record {
  topology = topology;
  prs = brain;
  tiers = tiers;
  threshold = int 3 / int 5;
  min_cap_w = int 30;
}

two_contended : nat_leb (length (contended tiered heavy (proposed.1).caps)) 1 ≡ false
unfolding contended is_contended Prs.decide_within caps_of limited_caps target_caps idle_caps
    idle_gpus hot_caps hot_gpus hot_gpu is_hot start_tick update_ewma ewma_at blend fallback_max
    effective_budget budget_from rack_of rack_total share_of_rack domains_on_rack same_name filter
    get get_or or_default set update tabulate map_values elem sum_map max min leb ◌+◌ ◌-◌ ◌*◌ ◌/◌
    inv neg int
two_contended = refl

decide-contended_example :
    (r : PriorityBrain × BrainDecision) × (Priority.decide tiered "d0" heavy ≡ ok r)
    × (sum (values (r.1).caps) ≤ budget0)
    × (get_or "d0" [] r.0.prs.last_caps ≡ (r.1).caps)
decide-contended_example =
    decide-contended tiered "d0" heavy budget0 proposed.0 proposed.1 brain_proposed topology_budget0
      budget0_pos two_contended

tiers_known : has_unknown (values tiers) ≡ false
unfolding has_unknown contains elem
tiers_known = refl

hundred_nonneg : int 0 ≤ int 100
unfolding leb int
hundred_nonneg = record { holds = refl }

hw_ordered : int 250 ≤ int 300
unfolding leb int
hw_ordered = record { holds = refl }

weights_ordered : int 100 ≤ int 400
unfolding leb int
weights_ordered = record { holds = refl }

contended_cap_floor_example :
    min (int 30) (int 250) ≤ contended_cap (int 30) (int 100) (int 100) (int 250) (int 100)
contended_cap_floor_example =
    contended_cap_floor (int 30) (int 100) (int 100) (int 250) (int 100) hundred_nonneg
      hundred_nonneg hundred_nonneg

abbrev hot_state : DomainState
hot_state = record heavy { gpu_thermal_throttled = (1, true) ∷ [] }

abbrev thermal : ThermalBrain
thermal = record { topology = topology; prs = brain; derate = int 3 / int 20; min_cap_w = int 30 }

abbrev hot_proposed : PrsBrain × BrainDecision
hot_proposed = Prs.decide_within brain "d0" budget0 hot_state

brain-hot_proposed : Prs.decide brain "d0" hot_state ≡ ok (hot_proposed.0, hot_proposed.1)
unfolding Prs.decide Prs.decide_within
brain-hot_proposed = rw topology_budget0 refl

decide_backoff_example :
    (r : ThermalBrain × BrainDecision) × (Thermal.decide thermal "d0" hot_state ≡ ok r)
    × (sum (values (r.1).caps) ≤ sum (values (hot_proposed.1).caps))
    × All
        (λ e. e.1 ≤ get_or e.0 e.1 hot_state.gpu_caps)
        (filter (λ e. is_throttled hot_state e.0) (r.1).caps)
decide_backoff_example =
    decide_backoff thermal "d0" hot_state hot_proposed.0 hot_proposed.1 brain-hot_proposed

abbrev tracker : JobTracker
tracker = record {
  jobs =
      (0, record { pid = pos 17; gpu_uuid = "GPU-a"; gpu_index = 0; used_memory_mib = pos 1 } ∷ [])
      ∷ [];
  uuid_to_index = [];
}

abbrev job_aware : JobAwareBrain
job_aware = record { topology = topology; prs = brain; tracker = tracker; boost = int 3 / int 20 }

first_busy : busy job_aware (proposed.1).caps ≡ 0 ∷ []
unfolding busy is_gpu_busy any_job get_jobs Prs.decide_within caps_of limited_caps target_caps
    idle_caps idle_gpus hot_caps hot_gpus hot_gpu is_hot start_tick update_ewma ewma_at blend
    fallback_max effective_budget budget_from rack_of rack_total share_of_rack domains_on_rack
    same_name filter get get_or or_default set update tabulate map_values elem sum_map max min leb
    ◌+◌ ◌-◌ ◌*◌ ◌/◌ inv neg int
first_busy = refl

decide-busy_budget_example :
    (r : JobAwareBrain × BrainDecision) × (JobAware.decide job_aware "d0" heavy ≡ ok r)
    × (sum (values (r.1).caps) ≤ budget0)
decide-busy_budget_example =
    decide-busy_budget job_aware "d0" heavy budget0 proposed.0 proposed.1 0 [] brain_proposed
      topology_budget0 budget0_pos first_busy
