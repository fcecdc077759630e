-- ===== src/Tests/BrainRuns.antt =====
-- The brains on the demo installation.
use opendps.Prelude.{inl, ◌≡◌, refl, [], ◌∷◌, some}
use opendps.Num.{
  ℚ, ◌≤◌, ◌<◌, ◌+◌, ◌-◌, ◌*◌, ◌/◌, int, leb, max, sum, sum_map, neg, inv, All, length,
}
use opendps.Dict.{get, get_or, keys, values, string_key, nat_key, filter, elem}
use opendps.Result.{ok, raise, value_error}
use opendps.Pdn.Model.{
  rack_of, rack_total, share_of_rack, budget_from, effective_budget, domains_on_rack, same_name,
}
use opendps.Brain.State.{BrainDecision}
use opendps.Brain.Dpm.{proportional_cap}
use opendps.Brain.Dpm
use opendps.Brain.Dpm.Bounds.{decide_over_budget, decide_within_budget}
use opendps.Brain.Prs.{
  PrsBrain, init, update_ewma, start_tick, idle_caps, hot_gpus, hw_max, note_applied_caps,
  reset_ewma, get_last_metrics, ewma_at, blend, hot_gpu, is_hot, fallback_max, or_else,
}
use opendps.Brain.Prs
use opendps.Brain.Prs.Decide.{IsValid, IsSample, decide-IsValid, decide_budget, decide-hw_max}
use opendps.Brain.Prs.Ewma.{update_ewma_bounds}
use opendps.Brain.Prs.Floor.{decide_over_floor}
use opendps.Brain.Prs.Ticks.{decide_other, reset_ewma-decide}
use opendps.Tests.Demo.{
  topology, budget0, topology_budget0, sample, heavy, brain, dpm, first, brain_first,
}

brain-IsValid : IsValid brain
unfolding leb int ◌/◌ ◌*◌ inv
brain-IsValid = record {
  alpha_pos = record { holds = refl };
  alpha_le = record { holds = refl };
  floor_nonneg = record { holds = refl };
  rate_nonneg = record { holds = refl };
  ewma_nonneg = tt;
}

sample-IsSample : IsSample sample
unfolding leb int elem
sample-IsSample = record {
  distinct = (refl, (refl, tt));
  draws_nonneg = (record { holds = refl }, (record { holds = refl }, tt));
}

decide_budget_example :
    (r : PrsBrain × BrainDecision) × (Prs.decide brain "d0" sample ≡ ok r)
    × (let t = start_tick brain "d0" budget0 sample in
        sum (values (r.1).caps)
        ≤ max budget0 (sum (values (idle_caps t))) + int (length (hot_gpus t)) * brain.min_cap_w)
decide_budget_example =
    decide_budget brain "d0" sample budget0 brain-IsValid sample-IsSample topology_budget0

abbrev cap0 : ℚ
cap0 = get_or 0 (int 0) (first.1).caps

cap0_found : get 0 (first.1).caps ≡ some cap0
unfolding Prs.decide_within start_tick get_or get Prs.caps_of Prs.limited_caps leb int
    opendps.Dict.map_values Prs.target_caps opendps.Dict.update Prs.hot_caps opendps.Dict.tabulate
    hot_gpus filter hot_gpu is_hot ◌/◌ ewma_at update_ewma opendps.Dict.set opendps.Dict.or_default
    idle_caps Prs.idle_gpus blend fallback_max inv max ◌*◌ ◌+◌ ◌-◌ neg opendps.Num.min
cap0_found = refl

-- GPU 0 reports its maximum.
decide-hw_max_example : cap0 ≤ max brain.min_cap_w (int 300)
unfolding get
decide-hw_max_example =
    decide-hw_max brain "d0" sample budget0 0 (int 300) cap0 topology_budget0 (inl refl) brain_first
      cap0_found

decide-IsValid_example : IsValid first.0
decide-IsValid_example = decide-IsValid brain "d0" sample brain-IsValid sample-IsSample brain_first

abbrev second : PrsBrain × BrainDecision
second = Prs.decide_within first.0 "d0" budget0 heavy

abbrev noted : PrsBrain
noted = note_applied_caps brain "d0" ((0, int 90) ∷ (1, int 60) ∷ [])

abbrev after_note : PrsBrain × BrainDecision
after_note = Prs.decide_within noted "d0" budget0 sample

decide_other_example :
    (get "d1" first.0.ewma ≡ get "d1" brain.ewma)
    × (get "d1" first.0.last_caps ≡ get "d1" brain.last_caps)
    × (get_last_metrics first.0 "d1" ≡ get_last_metrics brain "d1")
decide_other_example = decide_other brain "d0" "d1" sample refl brain_first

reset_ewma-decide_example : reset_ewma first.0 (some "d0") ≡ brain
unfolding get get_last_metrics
reset_ewma-decide_example = reset_ewma-decide brain "d0" sample refl refl refl brain_first

-- A floor too high for the budget, without the limiter.
abbrev high_floor : PrsBrain
high_floor = record brain { min_cap_w = int 200; cap_raise_rate = int 0 }

abbrev over : PrsBrain × BrainDecision
over = Prs.decide_within high_floor "d0" budget0 sample

high_floor-over : Prs.decide high_floor "d0" sample ≡ ok over
unfolding Prs.decide
high_floor-over = rw topology_budget0 refl

limiter_off : high_floor.cap_raise_rate ≤ int 0
unfolding leb int
limiter_off = record { holds = refl }

floor_allowed :
    All
      (λ g. high_floor.min_cap_w ≤ hw_max (start_tick high_floor "d0" budget0 sample) g)
      (keys sample.gpu_draws)
unfolding leb int hw_max start_tick get_or get
floor_allowed = (record { holds = refl }, (record { holds = refl }, tt))

budget_small : budget0 < int (length (keys sample.gpu_draws)) * high_floor.min_cap_w
unfolding effective_budget budget_from rack_of rack_total share_of_rack domains_on_rack same_name
    filter get sum_map max leb ◌+◌ ◌-◌ ◌*◌ ◌/◌ inv neg int
budget_small = record { holds = refl }

decide_over_floor_example : budget0 < sum (values (over.1).caps)
decide_over_floor_example =
    decide_over_floor high_floor "d0" sample budget0 topology_budget0 sample-IsSample.distinct
      limiter_off floor_allowed budget_small high_floor-over

abbrev half : ℚ
half = int 1 / int 2

half_nonneg : int 0 ≤ half
unfolding leb int ◌/◌ ◌*◌ inv
half_nonneg = record { holds = refl }

half_le : half ≤ int 1
unfolding leb int ◌/◌ ◌*◌ inv
half_le = record { holds = refl }

draws_between : All (λ e. (int 0 ≤ e.1) × (e.1 ≤ int 300)) sample.gpu_draws
unfolding leb int
draws_between = (
  (record { holds = refl }, record { holds = refl }),
  ((record { holds = refl }, record { holds = refl }), tt),
)

update_ewma_bounds_example :
    All (λ e. (int 0 ≤ e.1) × (e.1 ≤ int 300)) (update_ewma half sample.gpu_draws [])
update_ewma_bounds_example =
    update_ewma_bounds half (int 0) (int 300) sample.gpu_draws [] half_nonneg half_le draws_between
      tt

abbrev made : PrsBrain
made = record {
  topology = topology;
  min_cap_w = int 50;
  alpha = half;
  threshold = int 4 / int 5;
  margin = int 1 / int 10;
  cap_raise_rate = int 0;
  ewma = [];
  last_caps = [];
  last_metrics = [];
}

init-made : init topology (int 50) half (int 4 / int 5) (int 1 / int 10) (int 0) ≡ ok made
unfolding init leb int ◌/◌ ◌*◌ inv
init-made = refl

-- A smoothing factor of zero is refused.
init_zero : init topology (int 50) (int 0) half half (int 0) ≡ raise value_error
unfolding init leb int
init_zero = refl

fifty_nonneg : int 0 ≤ int 50
unfolding leb int
fifty_nonneg = record { holds = refl }

-- `DPMBrain`.

budget0_exceeded : budget0 < sum (values heavy.gpu_draws)
unfolding effective_budget budget_from rack_of rack_total share_of_rack domains_on_rack same_name
    filter get sum sum_map max leb ◌+◌ ◌-◌ ◌*◌ ◌/◌ inv neg int
budget0_exceeded = record { holds = refl }

dpm_floor_nonneg : int 0 ≤ dpm.min_cap_w
unfolding leb int
dpm_floor_nonneg = record { holds = refl }

heavy_nonneg : All (λ e. int 0 ≤ e.1) heavy.gpu_draws
unfolding leb int
heavy_nonneg = (record { holds = refl }, (record { holds = refl }, tt))

decide_over_budget_example :
    (d : BrainDecision) × (Dpm.decide dpm "d0" heavy ≡ ok d)
    × (sum (values d.caps) ≤ budget0 + int (length heavy.gpu_draws) * dpm.min_cap_w)
decide_over_budget_example =
    decide_over_budget dpm "d0" heavy budget0 topology_budget0 budget0_exceeded dpm_floor_nonneg
      heavy_nonneg

shares_reach :
    All (λ e. dpm.min_cap_w ≤ e.1 / sum (values heavy.gpu_draws) * budget0) heavy.gpu_draws
unfolding effective_budget budget_from rack_of rack_total share_of_rack domains_on_rack same_name
    filter get sum sum_map max leb ◌+◌ ◌-◌ ◌*◌ ◌/◌ inv neg int
shares_reach = (record { holds = refl }, (record { holds = refl }, tt))

decide_within_budget_example :
    (d : BrainDecision) × (Dpm.decide dpm "d0" heavy ≡ ok d) × (sum (values d.caps) ≤ budget0)
decide_within_budget_example =
    decide_within_budget dpm "d0" heavy budget0 topology_budget0 budget0_exceeded shares_reach

draws_ordered : int 100 ≤ int 200
unfolding leb int
draws_ordered = record { holds = refl }

total_nonneg : int 0 ≤ int 300
unfolding leb int
total_nonneg = record { holds = refl }
