-- ===== src/Brain/Thermal.antt =====
-- opendps/brain/thermal_prs.py: `ThermalAwarePRSBrain`, which backs off GPUs that throttle and
-- hands the freed watts to the others.
pub mod Backoff
pub mod Total
use Prim.Native.Nat.{ℕ}
use Prim.Native.String.{String}
use opendps.Prelude.{Bool, true, false, not, ◌&&◌, List, [], ◌∷◌, if◌then◌else◌}
use opendps.Num.{ℚ, ◌+◌, ◌-◌, ◌*◌, ◌/◌, int, leb, ltb, min, max, sum, sum_map}
use opendps.Dict.{Dict, nat_key, get_or, keys, map_values, filter, length}
use opendps.Result.{Result, ok, raise, ◌>>=◌, ◌>>◌, raise_if, value_error}
use opendps.Pdn.Model.{PdnTopology}
use opendps.Brain.State.{DomainState, BrainDecision, thermal_prs}
use opendps.Brain.Prs.{PrsBrain, note_applied_caps}
use opendps.Brain.Prs

pub record ThermalBrain : Type 0 where
  pub topology : PdnTopology
  pub prs : PrsBrain
  pub derate : ℚ
  pub min_cap_w : ℚ

-- `__init__`; the keyword arguments are the ones of `PRSBrain`, whose floor keeps its default.
unfoldable pub init : PdnTopology → ℚ → ℚ → ℚ → ℚ → ℚ → ℚ → Result ThermalBrain
init topology thermal_derate min_cap_w alpha threshold margin rate = do
  raise_if (not (leb (int 0) thermal_derate && ltb thermal_derate (int 1))) value_error
  prs ← Prs.init topology (int 200) alpha threshold margin rate
  ok (record { topology = topology; prs = prs; derate = thermal_derate; min_cap_w = min_cap_w })

unfoldable pub is_throttled : DomainState → ℕ → Bool
is_throttled state g = get_or g false state.gpu_thermal_throttled

unfoldable pub throttled : DomainState → Dict ℕ ℚ → List ℕ
throttled state caps = filter (is_throttled state) (keys caps)

-- The lower of the proposal and the cap that the GPU holds, backed off toward the floor.
unfoldable pub backed_off : ℚ → ℚ → ℚ → ℚ
backed_off min_cap_w derate base = min base (max min_cap_w (base * (int 1 - derate)))

unfoldable pub reduced : ThermalBrain → DomainState → ℕ → ℚ → ℚ
reduced b state g cap = backed_off b.min_cap_w b.derate (min cap (get_or g cap state.gpu_caps))

-- What the loop over the throttled GPUs frees, and the caps after it.
unfoldable pub freed : ThermalBrain → DomainState → Dict ℕ ℚ → ℚ
freed b state caps =
    sum_map (λ e. e.1 - reduced b state e.0 e.1) (filter (λ e. is_throttled state e.0) caps)

unfoldable pub reduced_caps : ThermalBrain → DomainState → Dict ℕ ℚ → Dict ℕ ℚ
reduced_caps b state caps =
    map_values (λ g cap. if is_throttled state g then reduced b state g cap else cap) caps

-- The room that a GPU has below its hardware maximum.
unfoldable pub headroom : DomainState → ℕ → ℚ → ℚ
headroom state g cap = max (int 0) (get_or g cap state.gpu_max_caps - cap)

unfoldable pub total_head : DomainState → Dict ℕ ℚ → ℚ
total_head state caps =
    sum_map (λ e. headroom state e.0 e.1) (filter (λ e. not (is_throttled state e.0)) caps)

unfoldable pub give : DomainState → ℚ → ℚ → Dict ℕ ℚ → Dict ℕ ℚ
give state watts total caps =
    map_values
      (λ g cap. if is_throttled state g then cap else cap + watts * headroom state g cap / total)
      caps

unfoldable pub redistribute : DomainState → ℚ → Dict ℕ ℚ → Dict ℕ ℚ
redistribute state freed_w caps =
    if ltb (int 0) freed_w && ltb (int 0) (total_head state caps)
    then give state (min freed_w (total_head state caps)) (total_head state caps) caps
    else caps

unfoldable pub thermal_caps : ThermalBrain → DomainState → Dict ℕ ℚ → Dict ℕ ℚ
thermal_caps b state caps = redistribute state (freed b state caps) (reduced_caps b state caps)

-- The part of `decide` after the proposal, on the list of throttled GPUs.
unfoldable pub decide_throttled :
    ThermalBrain
    → String
    → DomainState
    → PrsBrain
    → BrainDecision
    → List ℕ
    → ThermalBrain × BrainDecision
decide_throttled b domain_name state prs decision [] = (record b { prs = prs }, decision)
decide_throttled b domain_name state prs decision (g ∷ rest) =
    let caps = thermal_caps b state decision.caps in
    (
      record b { prs = note_applied_caps prs domain_name caps },
      record {
        domain = domain_name;
        caps = caps;
        ts = state.ts;
        reason = thermal_prs (length (g ∷ rest));
      },
    )

unfoldable pub decide : ThermalBrain → String → DomainState → Result (ThermalBrain × BrainDecision)
unfolding decide_throttled
decide b domain_name state = do
  (prs, decision) ← Prs.decide b.prs domain_name state
  ok (decide_throttled b domain_name state prs decision (throttled state decision.caps))
