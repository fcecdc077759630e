-- ===== src/Tests/ControllerRuns.antt =====
-- The controller's loop and the optimiser brain, on the demo installation.
use Prim.Native.Nat.{ℕ}
use opendps.Prelude.{
  Bool, Option, some, not, ◌&&◌, arith, some-injective, ◌≡◌, refl, sym, ap, ◌∙◌, subst, inl, inr,
  true, false, Bool-cases, none, List, [], ◌∷◌, if◌then◌else◌,
}
use opendps.Num.{
  ℚ, ◌+◌, ◌/◌, int, leb, sum_map, ◌≤◌, ◌<◌, All, All-imp, le_trans, le_add_right, le-int,
}
use opendps.Dict.{nat_key, string_key, get, length, tabulate, filter}
use opendps.Result.{Result, ok, raise, value_error, ok-injective}
use opendps.Op.{◌>>=◌, ◌>>◌}
use opendps.Sort.{sort}
use opendps.Brain.State.{BrainDecision, cvxpy}
use opendps.Brain.Cvxpy.{CvxpyBrain, Program, Solution, Variable, decide}
use opendps.Brain.Cvxpy.Feasible.{AtMost, Meets, IsSound, IsGood, decide-IsGood}
use opendps.Sim.Backend.{SimGpu}
use opendps.Sim.Actuator.{SimState, sim_actuator}
use opendps.Controller.Standalone.Brains.{ControllerConfig, prs}
use opendps.Controller.Standalone.Tick.{Controller, run_once}
use opendps.Controller.Standalone.DryRun.{run_once-dry_run}
use opendps.Controller.Standalone.Stats.{domain_stats}
use opendps.Controller.Standalone.Counted.{is_busy, unused, domain_stats_counts}
use opendps.Tests.Demo.{topology, d0, heavy, brain}

-- A solver that gives every GPU 200 W, where that meets the constraints.
abbrev even : Solution
even = record { status = "optimal"; value = some (λ _. int 200); solve_time_ms = int 1 }

unfoldable idle_ok : Option ℚ → Bool
idle_ok none = true
idle_ok (some ceil) = leb (int 200) ceil

unfoldable all_ok : List Variable → Bool
unfolding idle_ok
all_ok [] = true
all_ok (v ∷ vs) = leb v.lower (int 200) && leb (int 200) v.upper && idle_ok v.idle_ceil && all_ok vs

unfoldable solve : Program → Result Solution
unfolding all_ok
solve p =
    if leb (sum_map (λ _. int 200) p.variables) p.budget && all_ok p.variables
    then ok even
    else raise value_error

one_nonneg : int 0 ≤ int 1
one_nonneg = le-int (omega arith)

within_one : (x y : ℚ) → leb x y ≡ true → x ≤ y + int 1
within_one x y h = le_trans (record { holds = h }) (le_add_right one_nonneg)

idle_ok-AtMost : (o : Option ℚ) → idle_ok o ≡ true → AtMost (int 1) (int 200) o
unfolding idle_ok
idle_ok-AtMost none h = tt
idle_ok-AtMost (some ceil) h = within_one (int 200) ceil h

abbrev IsOk : Variable → Type 0
IsOk v =
    (leb v.lower (int 200) ≡ true) × (leb (int 200) v.upper ≡ true) × (idle_ok v.idle_ceil ≡ true)

all_ok-All : (vs : List Variable) → all_ok vs ≡ true → All IsOk vs
unfolding all_ok
all_ok-All [] h = tt
all_ok-All (v ∷ vs) h =
    ((ground (arith, h), ground (arith, h), ground (arith, h)), all_ok-All vs (ground (arith, h)))

even_Meets :
    (p : Program)
    → leb (sum_map (λ _. int 200) p.variables) p.budget ≡ true
    → All IsOk p.variables
    → Meets (int 1) p (λ _. int 200)
even_Meets p fits good = record {
  within_budget = within_one _ p.budget fits;
  lower = All-imp (λ v h. within_one v.lower (int 200) h.0) p.variables good;
  upper = All-imp (λ v h. within_one (int 200) v.upper h.1) p.variables good;
  idle = All-imp (λ v h. idle_ok-AtMost v.idle_ceil h.2) p.variables good;
}

solve-even :
    (p : Program) (r : Solution)
    → solve p ≡ ok r
    → (r ≡ even)
      × (leb (sum_map (λ _. int 200) p.variables) p.budget ≡ true)
      × (all_ok p.variables ≡ true)
unfolding solve
solve-even p r h = elim (Bool-cases (leb (sum_map (λ _. int 200) p.variables) p.budget)) [
  | inl fits ↦ elim (Bool-cases (all_ok p.variables)) [
    | inl good ↦ (sym (ok-injective (rw (fits, good) at h)), fits, good)
    | inr bad ↦ let never = rw (fits, bad) at h in cc
  ]
  | inr over ↦ let never = rw over at h in cc
]

solve_sound : IsSound (int 1) solve
solve_sound = record {
  keeps = λ p r value h v best.
      let (same, fits, good) = solve-even p r h in
      subst (Meets (int 1) p) (some-injective (sym (ap (λ x. x.value) same) ∙ v))
        (even_Meets p fits (all_ok-All p.variables good));
}

abbrev optimiser : CvxpyBrain
optimiser = record {
  topology = topology;
  min_cap_w = int 200;
  alpha = int 3 / int 10;
  threshold = int 3 / int 5;
  idle_ceil = int 13 / int 10;
  ewma = [];
  last_metrics = [];
  fallback = brain;
}

abbrev even_caps : BrainDecision
even_caps = record {
  domain = "d0";
  caps = (0, int 200) ∷ (1, int 200) ∷ [];
  ts = int 8;
  reason = cvxpy "optimal" (int 1);
}

abbrev optimiser_after : CvxpyBrain
optimiser_after = (decide (some solve) "d0" heavy optimiser).0

decides_even : decide (some solve) "d0" heavy optimiser ≡ (optimiser_after, ok even_caps)
unfolding decide ◌>>=◌ get ◌>>◌ sort leb int tabulate solve sum_map ◌+◌ ◌/◌
    opendps.Brain.Prs.ewma_at opendps.Dict.get_or opendps.Dict.set opendps.Brain.Prs.update_ewma
    opendps.Brain.Prs.blend opendps.Num.◌-◌ opendps.Num.max
decides_even = refl

decide-IsGood_example : IsGood (int 1) solve solve_sound "d0" heavy optimiser (int 400) even_caps
unfolding get
decide-IsGood_example =
    decide-IsGood (int 1) solve solve_sound "d0" heavy optimiser optimiser_after d0 even_caps refl
      decides_even

threshold_pos : int 0 < int 3 / int 5
unfolding leb int ◌/◌
threshold_pos = record { holds = refl }

domain_stats_counts_example :
    let stats = domain_stats heavy.gpu_draws heavy.gpu_caps (int 3 / int 5) in
    let busy = is_busy (int 3 / int 5) heavy.gpu_draws in
    (stats.hot_count ≡ length (filter busy heavy.gpu_caps))
    × (stats.idle_count ≡ length (filter (λ e. not (busy e)) heavy.gpu_caps))
    × (stats.idle_stranded_w
        ≡ sum_map (unused heavy.gpu_draws) (filter (λ e. not (busy e)) heavy.gpu_caps))
domain_stats_counts_example =
    domain_stats_counts heavy.gpu_draws heavy.gpu_caps (int 3 / int 5) threshold_pos

-- Two simulated GPUs that a dry run on the actuator's own readings does not touch.
abbrev gpu : ℕ → SimGpu
gpu i = record {
  index = i;
  cap_w = int 300;
  max_cap_w = int 300;
  load = record { base_util_pct = int 90; util_noise = int 5; idle_fraction = int 0 };
  current_util = int 90;
}

abbrev config : ControllerConfig
config = record {
  topology = topology;
  interval_s = int 5;
  domain_names = "d0" ∷ [];
  dry_run = true;
  sim_mode = false;
  brain_type = "prs";
  has_metrics_port = true;
  cap_raise_rate_w_per_tick = int 0;
  ewma_alpha = int 3 / int 10;
  busy_gpus = [];
  priority_boost = int 3 / int 20;
  reads_actuator = true;
  quota_config = none;
  gpu_priority_tiers = [];
  has_priority_source = false;
  thermal_throttled_gpus = [];
  thermal_throttle_temp_c = int 85;
  node_id = "node0";
  adopted_budget_min_w = int 100;
}

abbrev controller : Controller SimState
controller = record {
  topology = topology;
  brain = prs brain;
  actuator = record {
    backend = record { gpus = (0, gpu 0) ∷ (1, gpu 1) ∷ [] };
    ticks = 0;
    rng = λ _ _. record { random = int 0; idle = int 0; noise = int 0 };
  };
  energy = record { energy_j = [] };
  metrics = record {
    stranded = [];
    prs_active = [];
    domain_draw = [];
    domain_cap = [];
    hot_count = [];
    idle_count = [];
    gpu_draw = [];
    gpu_cap = [];
    failsafe_trips = [];
    tenant_energy = [];
  };
}

run_once-dry_run_example :
    (run_once sim_actuator
      (some solve)
      (λ _ _. some (ok (some (int 250))))
      config
      (ok [])
      (int 8)
      controller).0.actuator
    ≡ controller.actuator
run_once-dry_run_example =
    run_once-dry_run sim_actuator (some solve) (λ _ _. some (ok (some (int 250)))) config (ok [])
      (int 8) controller refl refl
