-- ===== src/Brain/Prs.antt =====
-- opendps/brain/prs.py: `PRSBrain`, which reclaims the budget that idle GPUs do not use.
pub mod Ewma
pub mod Caps
pub mod Budget
pub mod Decide
pub mod Floor
pub mod Ticks
use Prim.Native.Nat.{ℕ}
use Prim.Native.String.{String}
use opendps.Prelude.{
  Bool, true, false, not, ◌&&◌, ◌||◌, Option, none, some, List, [], ◌∷◌, if◌then◌else◌,
}
use opendps.Num.{ℚ, ◌+◌, ◌-◌, ◌*◌, ◌/◌, int, leb, ltb, min, max, sum, sum_map, length}
use opendps.Dict.{
  Dict, nat_key, string_key, get, get_or, set, remove, update, keys, values, map_values, tabulate,
  filter,
}
use opendps.Result.{Result, ok, raise, ◌>>=◌, ◌>>◌, raise_if, value_error}
use opendps.Pdn.Model.{PdnTopology, domain_budget_w}
use opendps.Brain.State.{DomainState, BrainDecision, prs}

pub record PrsMetrics : Type 0 where
  pub hot_gpus : List ℕ
  pub idle_gpus : List ℕ
  pub idle_stranded_w : ℚ
  pub domain_draw_w : ℚ
  pub domain_cap_w : ℚ
  pub ewma_draws : Dict ℕ ℚ

pub record PrsBrain : Type 0 where
  pub topology : PdnTopology
  pub min_cap_w : ℚ
  pub alpha : ℚ
  pub threshold : ℚ
  pub margin : ℚ
  pub cap_raise_rate : ℚ
  pub ewma : Dict String (Dict ℕ ℚ)
  pub last_caps : Dict String (Dict ℕ ℚ)
  pub last_metrics : Dict String PrsMetrics

-- `__init__`
unfoldable pub init : PdnTopology → ℚ → ℚ → ℚ → ℚ → ℚ → Result PrsBrain
init topology min_cap_w ewma_alpha reclaim_threshold idle_floor_margin cap_raise_rate_w_per_tick =
    do
      raise_if (not (ltb (int 0) ewma_alpha && leb ewma_alpha (int 1))) value_error
      raise_if (ltb cap_raise_rate_w_per_tick (int 0)) value_error
      ok (record {
        topology = topology;
        min_cap_w = min_cap_w;
        alpha = ewma_alpha;
        threshold = reclaim_threshold;
        margin = idle_floor_margin;
        cap_raise_rate = cap_raise_rate_w_per_tick;
        ewma = [];
        last_caps = [];
        last_metrics = [];
      })

-- Step 1: blend each GPU's draw into its running average, which starts at the first draw.
unfoldable pub blend : ℚ → ℚ → ℚ → ℚ
blend alpha draw prev = alpha * draw + (int 1 - alpha) * prev

unfoldable pub update_ewma : ℚ → Dict ℕ ℚ → Dict ℕ ℚ → Dict ℕ ℚ
update_ewma alpha [] ewma = ewma
update_ewma alpha ((gpu, draw) ∷ draws) ewma =
    update_ewma alpha draws (set gpu (blend alpha draw (get_or gpu draw ewma)) ewma)

-- `domain_ewma[gpu]`; `update_ewma-contains` shows that the key is there.
unfoldable pub ewma_at : Dict ℕ ℚ → ℕ → ℚ
ewma_at ewma gpu = get_or gpu (int 0) ewma

-- Step 2.
unfoldable pub is_hot : ℚ → ℚ → ℚ → Bool
is_hot threshold cap ewma = ltb (int 0) cap && leb threshold (ewma / cap)

-- What one tick works with: the state, the budget and the averages of the domain.
pub record Tick : Type 0 where
  pub brain : PrsBrain
  pub state : DomainState
  pub budget : ℚ
  pub ewma : Dict ℕ ℚ

unfoldable pub gpus : Tick → List ℕ
gpus t = keys t.state.gpu_draws

-- `budget / max(len(gpus), 1)`
unfoldable pub fallback_max : Tick → ℚ
fallback_max t = t.budget / max (int (length (keys t.state.gpu_draws))) (int 1)

unfoldable pub hot_gpu : Tick → ℕ → Bool
hot_gpu t gpu =
    is_hot t.brain.threshold (get_or gpu (fallback_max t) t.state.gpu_caps) (ewma_at t.ewma gpu)

unfoldable pub hot_gpus : Tick → List ℕ
hot_gpus t = filter (hot_gpu t) (keys t.state.gpu_draws)

unfoldable pub idle_gpus : Tick → List ℕ
idle_gpus t = filter (λ gpu. not (hot_gpu t gpu)) (keys t.state.gpu_draws)

unfoldable pub hw_max : Tick → ℕ → ℚ
hw_max t gpu = get_or gpu (get_or gpu (fallback_max t) t.state.gpu_caps) t.state.gpu_max_caps

-- Step 3: an idle GPU keeps its average and a margin.
unfoldable pub idle_cap : Tick → ℕ → ℚ
idle_cap t gpu =
    min (max t.brain.min_cap_w (ewma_at t.ewma gpu * (int 1 + t.brain.margin))) (hw_max t gpu)

unfoldable pub idle_caps : Tick → Dict ℕ ℚ
idle_caps t = tabulate (idle_cap t) (idle_gpus t)

unfoldable pub hot_budget : Tick → ℚ
hot_budget t = max (int 0) (t.budget - sum (values (idle_caps t)))

-- Step 4: the rest goes to the hot GPUs in proportion to their averages.
unfoldable pub hot_share : Tick → ℕ → ℚ
hot_share t gpu =
    let total_hot_ewma = sum_map (ewma_at t.ewma) (hot_gpus t) in
    if ltb (int 0) total_hot_ewma
    then ewma_at t.ewma gpu / total_hot_ewma
    else int 1 / int (length (hot_gpus t))

unfoldable pub hot_cap : Tick → ℕ → ℚ
hot_cap t gpu = max t.brain.min_cap_w (min (hw_max t gpu) (hot_share t gpu * hot_budget t))

unfoldable pub hot_caps : Tick → Dict ℕ ℚ
hot_caps t = tabulate (hot_cap t) (hot_gpus t)

unfoldable pub target_caps : Tick → Dict ℕ ℚ
target_caps t = update (idle_caps t) (hot_caps t)

-- Step 4b: a cap may rise by at most the rate.
unfoldable pub limit : ℚ → Option ℚ → ℚ → ℚ
limit rate none target = target
limit rate (some prev) target = if ltb prev target then min target (prev + rate) else target

-- `last.get(gpu, other)`, where `other` may be None.
unfoldable pub or_else : Option ℚ → Option ℚ → Option ℚ
or_else none other = other
or_else (some cap) other = some cap

-- `last.get(gpu, state.gpu_caps.get(gpu))`
unfoldable pub previous_cap : Dict ℕ ℚ → DomainState → ℕ → Option ℚ
unfolding or_else
previous_cap last state gpu = or_else (get gpu last) (get gpu state.gpu_caps)

unfoldable pub limited_caps : Tick → Dict ℕ ℚ → Dict ℕ ℚ
limited_caps t last =
    if ltb (int 0) t.brain.cap_raise_rate
    then map_values
        (λ gpu target. limit t.brain.cap_raise_rate (previous_cap last t.state gpu) target)
        (target_caps t)
    else target_caps t

-- Step 5.
unfoldable pub metrics_of : Tick → Dict ℕ ℚ → PrsMetrics
metrics_of t caps = record {
  hot_gpus = hot_gpus t;
  idle_gpus = idle_gpus t;
  idle_stranded_w =
      max (int 0)
        (sum_map (λ g. get_or g (int 0) caps - get_or g (int 0) t.state.gpu_draws) (idle_gpus t));
  domain_draw_w = sum (values t.state.gpu_draws);
  domain_cap_w = sum (values caps);
  ewma_draws = t.ewma;
}

unfoldable pub start_tick : PrsBrain → String → ℚ → DomainState → Tick
start_tick b domain_name budget state = record {
  brain = b;
  state = state;
  budget = budget;
  ewma = update_ewma b.alpha state.gpu_draws (get_or domain_name [] b.ewma);
}

unfoldable pub caps_of : PrsBrain → String → ℚ → DomainState → Dict ℕ ℚ
caps_of b domain_name budget state =
    limited_caps (start_tick b domain_name budget state) (get_or domain_name [] b.last_caps)

unfoldable pub decide_within : PrsBrain → String → ℚ → DomainState → PrsBrain × BrainDecision
decide_within b domain_name budget state =
    let t = start_tick b domain_name budget state in
    let caps = caps_of b domain_name budget state in
    let metrics = metrics_of t caps in
    (
      record b {
        ewma = set domain_name t.ewma b.ewma;
        last_caps = set domain_name caps b.last_caps;
        last_metrics = set domain_name metrics b.last_metrics;
      },
      record {
        domain = domain_name;
        caps = caps;
        ts = state.ts;
        reason = prs (length (hot_gpus t)) (length (idle_gpus t)) metrics.idle_stranded_w;
      },
    )

unfoldable pub decide : PrsBrain → String → DomainState → Result (PrsBrain × BrainDecision)
decide b domain_name state = do
  budget ← domain_budget_w b.topology domain_name
  ok (decide_within b domain_name budget state)

unfoldable pub get_last_metrics : PrsBrain → String → Option PrsMetrics
get_last_metrics b domain_name = get domain_name b.last_metrics

unfoldable pub note_applied_caps : PrsBrain → String → Dict ℕ ℚ → PrsBrain
note_applied_caps b domain_name caps = record b { last_caps = set domain_name caps b.last_caps }

unfoldable pub reset_ewma : PrsBrain → Option String → PrsBrain
reset_ewma b none = record b { ewma = []; last_caps = []; last_metrics = [] }
reset_ewma b (some domain_name) = record b {
  ewma = remove domain_name b.ewma;
  last_caps = remove domain_name b.last_caps;
  last_metrics = remove domain_name b.last_metrics;
}
