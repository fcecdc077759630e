-- ===== src/Brain/Priority.antt =====
-- opendps/brain/priority_prs.py: `PriorityTieredPRSBrain`, which splits what the contended GPUs
-- share by draw and tier.
pub mod Tiers
pub mod Budget
use Prim.Native.Nat.{ℕ}
use Prim.Native.String.{String}
use opendps.Prelude.{Bool, true, false, not, ◌&&◌, List, [], ◌∷◌, if◌then◌else◌, nat_leb}
use opendps.Num.{ℚ, ◌+◌, ◌-◌, ◌*◌, ◌/◌, int, leb, ltb, min, max, sum, sum_map}
use opendps.Dict.{
  Dict, nat_key, string_key, get_or, contains, keys, values, map_values, filter, length,
}
use opendps.Result.{Result, ok, raise, ◌>>=◌, ◌>>◌, raise_if, value_error}
use opendps.Pdn.Model.{PdnTopology, domain_budget_w}
use opendps.Brain.State.{DomainState, BrainDecision, priority_prs}
use opendps.Brain.Scale.{is_zero, scale_down}
use opendps.Brain.Prs.{PrsBrain, PrsMetrics, note_applied_caps}
use opendps.Brain.Prs

-- `TIER_WEIGHTS`
abbrev pub tier_weights : Dict String ℚ
tier_weights =
    ("low", int 1 / int 2) ∷ ("normal", int 1) ∷ ("high", int 2) ∷ ("critical", int 4) ∷ []

abbrev pub default_tier : String
default_tier = "normal"

pub record PriorityBrain : Type 0 where
  pub topology : PdnTopology
  pub prs : PrsBrain
  pub tiers : Dict ℕ String
  pub threshold : ℚ
  pub min_cap_w : ℚ

-- `tier not in TIER_WEIGHTS`, for some tier of the mapping.
unfoldable pub has_unknown : List String → Bool
has_unknown [] = false
has_unknown (tier ∷ rest) =
    let unknown = has_unknown rest in if contains tier tier_weights then unknown else true

unfoldable pub set_tiers : PriorityBrain → Dict ℕ String → Result PriorityBrain
set_tiers b gpu_priority_tiers =
    if has_unknown (values gpu_priority_tiers)
    then raise value_error
    else ok (record b { tiers = gpu_priority_tiers })

-- `__init__`; the keyword arguments are the ones of `PRSBrain`, whose floor keeps its default.
unfoldable pub init : PdnTopology → Dict ℕ String → ℚ → ℚ → ℚ → ℚ → ℚ → ℚ → Result PriorityBrain
init topology gpu_priority_tiers contention_threshold min_cap_w alpha threshold margin rate = do
  raise_if (has_unknown (values gpu_priority_tiers)) value_error
  prs ← Prs.init topology (int 200) alpha threshold margin rate
  set_tiers
      (record {
        topology = topology;
        prs = prs;
        tiers = [];
        threshold = contention_threshold;
        min_cap_w = min_cap_w;
      })
      gpu_priority_tiers

-- A GPU that draws near its current cap.
unfoldable pub is_contended : PriorityBrain → DomainState → ℕ → Bool
is_contended b state g =
    ltb (int 0) (get_or g (int 0) state.gpu_caps)
    && leb b.threshold (get_or g (int 0) state.gpu_draws / get_or g (int 0) state.gpu_caps)

unfoldable pub contended : PriorityBrain → DomainState → Dict ℕ ℚ → List ℕ
contended b state caps = filter (is_contended b state) (keys caps)

-- `TIER_WEIGHTS[tiers.get(g, DEFAULT_TIER)]`; `tier-known` shows that the key is there.
unfoldable pub tier_weight : Dict ℕ String → ℕ → ℚ
tier_weight tiers g = get_or (get_or g default_tier tiers) (int 0) tier_weights

unfoldable pub weight : PriorityBrain → DomainState → ℕ → ℚ
unfolding tier_weight
weight b state g = get_or g (int 0) state.gpu_draws * tier_weight b.tiers g

-- `sum(weights.values()) or 1.0`
unfoldable pub total_weight : PriorityBrain → DomainState → Dict ℕ ℚ → ℚ
unfolding is_zero
total_weight b state caps =
    let total = sum_map (weight b state) (contended b state caps) in
    if is_zero total then int 1 else total

-- What is left of the budget after the caps of the others and a floor for each contended GPU.
unfoldable pub reserved_idle : PriorityBrain → DomainState → Dict ℕ ℚ → ℚ
reserved_idle b state caps = sum (values (filter (λ e. not (is_contended b state e.0)) caps))

unfoldable pub surplus : PriorityBrain → DomainState → ℚ → Dict ℕ ℚ → ℚ
surplus b state budget caps =
    max (int 0)
      (budget - reserved_idle b state caps - b.min_cap_w * int (length (contended b state caps)))

unfoldable pub contended_cap : ℚ → ℚ → ℚ → ℚ → ℚ → ℚ
contended_cap floor surplus_w total_w hw_max w = min (floor + surplus_w * w / total_w) hw_max

unfoldable pub tiered_caps : PriorityBrain → DomainState → ℚ → Dict ℕ ℚ → Dict ℕ ℚ
tiered_caps b state budget caps =
    map_values
      (λ g cap.
        if is_contended b state g
        then contended_cap b.min_cap_w (surplus b state budget caps) (total_weight b state caps)
            (get_or g cap state.gpu_max_caps) (weight b state g)
        else cap)
      caps

-- The part of `decide` after the tests.
unfoldable pub arbitrate :
    PriorityBrain → String → DomainState → ℚ → PrsBrain → Dict ℕ ℚ → PriorityBrain × BrainDecision
arbitrate b domain_name state budget prs caps =
    let new_caps = scale_down budget (tiered_caps b state budget caps) in
    (
      record b { prs = note_applied_caps prs domain_name new_caps },
      record {
        domain = domain_name;
        caps = new_caps;
        ts = state.ts;
        reason = priority_prs (length (contended b state caps));
      },
    )

unfoldable pub decide_after :
    PriorityBrain
    → String
    → DomainState
    → PrsBrain × BrainDecision
    → Result (PriorityBrain × BrainDecision)
decide_after b domain_name state (prs, decision) =
    if nat_leb (length (contended b state decision.caps)) 1
    then ok (record b { prs = prs }, decision)
    else do
      budget ← domain_budget_w b.topology domain_name
      ok (
          if is_zero budget
          then (record b { prs = prs }, decision)
          else arbitrate b domain_name state budget prs decision.caps)

unfoldable pub decide :
    PriorityBrain → String → DomainState → Result (PriorityBrain × BrainDecision)
unfolding decide_after
decide b domain_name state = do
  r ← Prs.decide b.prs domain_name state
  decide_after b domain_name state r
