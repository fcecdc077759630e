-- ===== src/Brain/Dpm.antt =====
-- opendps/brain/dpm.py: `DPMBrain`, proportional allocation without state between calls.
pub mod Bounds
use Prim.Native.Nat.{ℕ}
use Prim.Native.String.{String}
use opendps.Prelude.{List, [], ◌∷◌, if◌then◌else◌}
use opendps.Num.{ℚ, ◌*◌, ◌/◌, int, leb, ltb, min, max, sum}
use opendps.Dict.{Dict, nat_key, get_or, keys, values, map_values, tabulate, length}
use opendps.Result.{Result, ok, raise, ◌>>=◌}
use opendps.Pdn.Model.{PdnTopology, domain_budget_w}
use opendps.Brain.State.{DomainState, BrainDecision, under_budget, over_budget}

pub record DpmBrain : Type 0 where
  pub topology : PdnTopology
  pub min_cap_w : ℚ

-- Under budget: back to the hardware maximum.
unfoldable pub released_caps : ℚ → DomainState → Dict ℕ ℚ
released_caps min_cap_w state =
    tabulate (λ gpu. get_or gpu (get_or gpu min_cap_w state.gpu_caps) state.gpu_max_caps)
      (keys state.gpu_draws)

-- Over budget: the budget in proportion to the draws, clamped for each GPU.
unfoldable pub proportional_cap : ℚ → ℚ → ℚ → ℚ → ℚ → ℚ
proportional_cap min_cap_w budget total_draw max_cap draw =
    max min_cap_w (min max_cap (draw / total_draw * budget))

unfoldable pub proportional_caps : ℚ → ℚ → ℚ → DomainState → Dict ℕ ℚ
proportional_caps min_cap_w budget total_draw state =
    map_values
      (λ gpu draw.
        proportional_cap min_cap_w budget total_draw (get_or gpu min_cap_w state.gpu_caps) draw)
      state.gpu_draws

-- Over budget with no draw: an even split.
unfoldable pub even_caps : ℚ → ℚ → DomainState → Dict ℕ ℚ
even_caps min_cap_w budget state =
    tabulate (λ _. max min_cap_w (budget / int (length (keys state.gpu_draws))))
      (keys state.gpu_draws)

unfoldable pub over_budget_caps : ℚ → ℚ → ℚ → DomainState → Dict ℕ ℚ
over_budget_caps min_cap_w budget total_draw state =
    if ltb (int 0) total_draw
    then proportional_caps min_cap_w budget total_draw state
    else even_caps min_cap_w budget state

unfoldable pub decide_within : DpmBrain → String → ℚ → DomainState → BrainDecision
decide_within brain domain_name budget state =
    if leb (sum (values state.gpu_draws)) budget
    then record {
      domain = domain_name;
      caps = released_caps brain.min_cap_w state;
      ts = state.ts;
      reason = under_budget;
    }
    else record {
      domain = domain_name;
      caps = over_budget_caps brain.min_cap_w budget (sum (values state.gpu_draws)) state;
      ts = state.ts;
      reason = over_budget;
    }

unfoldable pub decide : DpmBrain → String → DomainState → Result BrainDecision
unfolding decide_within
decide brain domain_name state = do
  budget ← domain_budget_w brain.topology domain_name
  ok (decide_within brain domain_name budget state)
