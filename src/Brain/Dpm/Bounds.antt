-- ===== src/Brain/Dpm/Bounds.antt =====
-- What the proportional caps of `DPMBrain` are worth: bounds for each GPU, and for the domain.
use Prim.Native.Nat.{ℕ}
use Prim.Native.String.{String}
use opendps.Prelude.{◌≡◌, refl, ◌∙◌, ap₂, subst, false}
use opendps.Num.{
  ℚ, ◌+◌, ◌*◌, ◌/◌, int, leb, ◌≤◌, ◌<◌, max, sum, sum_map, All, All-imp, sum_map_le, sum_map-add,
  le_trans, le_of_eq, le_of_lt, lt_of_le_of_lt, min_le_left, min_le_right, le_max_left,
  le_max_right, max_le, le_add_right, le_add_left, div_nonneg, mul_nonneg, div_le_div_right,
  mul_le_mul_right, le_min, sum_map_const, sum_map-share, lt_of_le_of_lt,
}
use opendps.Dict.{nat_key, get_or, values, length, sum-values, sum-values-map_values}
use opendps.Brain.State.{DomainState}
use opendps.Result.{ok}
use opendps.Pdn.Model.{domain_budget_w}
use opendps.Pdn.Model.Adoption.{domain_budget_w_nonneg}
use opendps.Brain.State.{BrainDecision}
use opendps.Brain.Dpm.{
  DpmBrain, proportional_cap, proportional_caps, over_budget_caps, decide_within, decide,
}

-- The clamp: never below the floor, never above the larger of floor and current cap.
pub proportional_cap_bounds :
    (min_cap_w budget total max_cap draw : ℚ)
    → (min_cap_w ≤ proportional_cap min_cap_w budget total max_cap draw)
      × (proportional_cap min_cap_w budget total max_cap draw ≤ max min_cap_w max_cap)
unfolding proportional_cap
proportional_cap_bounds m b t c d =
    (le_max_left m _, max_le (le_max_left m c) (le_trans (min_le_left c _) (le_max_right m c)))

-- Of two GPUs with equal current caps, the one that draws more gets at least as large a cap under
-- DPMBrain, for a budget and a total draw that are not negative.
pub proportional_cap_mono :
    (min_cap_w budget total max_cap draw draw' : ℚ)
    → int 0 ≤ budget
    → int 0 ≤ total
    → draw ≤ draw'
    → proportional_cap min_cap_w budget total max_cap draw
      ≤ proportional_cap min_cap_w budget total max_cap draw'
unfolding proportional_cap
proportional_cap_mono m b t c d d' pb pt h = max_le (le_max_left m _) (
    le_trans
      (le_min (min_le_left c _)
        (le_trans (min_le_right c _) (mul_le_mul_right b pb (div_le_div_right t pt h))))
      (le_max_right m _))

module _ (brain : DpmBrain) (n : String) (state : DomainState) (budget : ℚ) where
  total_draw : ℚ
  total_draw = sum_map (λ e. e.1) state.gpu_draws

  -- Over budget the cap of one GPU is at most its share and the floor together.
  cap-le-share :
      (g : ℕ) (draw : ℚ)
      → int 0 ≤ brain.min_cap_w
      → int 0 ≤ budget
      → int 0 ≤ total_draw
      → int 0 ≤ draw
      → (c : ℚ)
      → proportional_cap brain.min_cap_w budget total_draw c draw
        ≤ draw / total_draw * budget + brain.min_cap_w
  unfolding proportional_cap
  cap-le-share g draw pm pb pt pd c =
      max_le (le_add_left (mul_nonneg (div_nonneg pd pt) pb))
        (le_trans (min_le_right c _) (le_add_right pm))

  over_budget-caps :
      budget < total_draw
      → int 0 ≤ budget
      → (decide_within brain n budget state).caps
        ≡ proportional_caps brain.min_cap_w budget total_draw state
  unfolding decide_within over_budget_caps total_draw
  over_budget-caps over pb =
      let over' : leb (sum (values state.gpu_draws)) budget ≡ false =
        rw (sum-values state.gpu_draws) over.holds in
      let some_draw : int 0 < sum_map (λ e. e.1) state.gpu_draws = lt_of_le_of_lt pb over in
      rw (over', sum-values state.gpu_draws, some_draw.holds) refl

  sum-caps-le :
      budget < total_draw
      → int 0 ≤ budget
      → int 0 ≤ brain.min_cap_w
      → All (λ e. int 0 ≤ e.1) state.gpu_draws
      → sum (values (decide_within brain n budget state).caps)
        ≤ budget + int (length state.gpu_draws) * brain.min_cap_w
  unfolding proportional_caps total_draw
  sum-caps-le over pb pm pd =
      let some_draw : int 0 < sum_map (λ e. e.1) state.gpu_draws = lt_of_le_of_lt pb over in
      let m = brain.min_cap_w in
      let t = sum_map (λ e. e.1) state.gpu_draws in
      rw (over_budget-caps over pb, sum-values-map_values)
        (le_trans
          (sum_map_le _ (λ e. e.1 / t * budget + m) state.gpu_draws
            (All-imp
              (λ e d.
                cap-le-share e.0 e.1 pm pb (le_of_lt some_draw) d (get_or e.0 m state.gpu_caps))
              state.gpu_draws pd))
          (le_of_eq (
            sum_map-add (λ e. e.1 / t * budget) (λ _. m) state.gpu_draws
            ∙ ap₂ ◌+◌ (sum_map-share (λ e. e.1) state.gpu_draws budget some_draw)
                (sum_map_const m state.gpu_draws))))

  sum-caps-le_exact :
      budget < total_draw
      → int 0 ≤ budget
      → All (λ e. brain.min_cap_w ≤ e.1 / total_draw * budget) state.gpu_draws
      → sum (values (decide_within brain n budget state).caps) ≤ budget
  unfolding proportional_caps total_draw proportional_cap
  sum-caps-le_exact over pb enough =
      let some_draw : int 0 < sum_map (λ e. e.1) state.gpu_draws = lt_of_le_of_lt pb over in
      let t = sum_map (λ e. e.1) state.gpu_draws in
      rw (over_budget-caps over pb, sum-values-map_values)
        (le_trans
          (sum_map_le _ (λ e. e.1 / t * budget) state.gpu_draws
            (All-imp (λ e h. max_le h (min_le_right (get_or e.0 brain.min_cap_w state.gpu_caps) _))
              state.gpu_draws enough))
          (le_of_eq (sum_map-share (λ e. e.1) state.gpu_draws budget some_draw)))

-- When the draws exceed the budget, DPMBrain.decide returns and its caps exceed the budget by at
-- most the floor for each GPU (floor and draws not negative).
pub decide_over_budget :
    (brain : DpmBrain) (n : String) (state : DomainState) (budget : ℚ)
    → domain_budget_w brain.topology n ≡ ok budget
    → budget < sum (values state.gpu_draws)
    → int 0 ≤ brain.min_cap_w
    → All (λ e. int 0 ≤ e.1) state.gpu_draws
    → (d : BrainDecision) × (decide brain n state ≡ ok d)
      × (sum (values d.caps) ≤ budget + int (length state.gpu_draws) * brain.min_cap_w)
unfolding decide total_draw
decide_over_budget brain n state budget known over pm pd = (
  decide_within brain n budget state,
  rw known refl,
  sum-caps-le brain n state budget (subst (λ t. budget < t) (sum-values state.gpu_draws) over)
      (domain_budget_w_nonneg brain.topology n known) pm pd,
)

-- When the draws exceed the budget and every proportional share reaches the floor,
-- DPMBrain.decide returns caps that add up to at most the budget.
pub decide_within_budget :
    (brain : DpmBrain) (n : String) (state : DomainState) (budget : ℚ)
    → domain_budget_w brain.topology n ≡ ok budget
    → budget < sum (values state.gpu_draws)
    → All (λ e. brain.min_cap_w ≤ e.1 / sum (values state.gpu_draws) * budget) state.gpu_draws
    → (d : BrainDecision) × (decide brain n state ≡ ok d) × (sum (values d.caps) ≤ budget)
unfolding decide total_draw
decide_within_budget brain n state budget known over enough = (
  decide_within brain n budget state,
  rw known refl,
  sum-caps-le_exact brain n state budget (subst (λ t. budget < t) (sum-values state.gpu_draws) over)
      (domain_budget_w_nonneg brain.topology n known)
      (subst (λ t. All (λ e. brain.min_cap_w ≤ e.1 / t * budget) state.gpu_draws)
        (sum-values state.gpu_draws) enough),
)
