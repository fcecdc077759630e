-- ===== src/Brain/Prs/Floor.antt =====
-- The floor of `PRSBrain` against the budget.
use Prim.Native.Nat.{ℕ}
use Prim.Native.String.{String}
use opendps.Prelude.{◌≡◌, subst, not}
use opendps.Num.{
  ℚ, ◌*◌, int, ◌≤◌, ◌<◌, sum, length, All, All-imp, All-All, lt_of_lt_of_le, add_le_add, sum_map_le,
  sum_map_const, le_min, le_max_left,
}
use opendps.Dict.{
  keys, values, filter, Distinct, nat_key, sum-values-tabulate, sum_map-filter, All-filter,
}
use opendps.Result.{ok, ok-injective}
use opendps.Pdn.Model.{domain_budget_w}
use opendps.Brain.State.{DomainState, BrainDecision}
use opendps.Brain.Prs.{
  PrsBrain, Tick, hw_max, idle_cap, idle_caps, idle_gpus, hot_gpu, hot_gpus, hot_cap, target_caps,
  limited_caps, start_tick, caps_of, decide_within, decide,
}
use opendps.Brain.Prs.Caps.{hot_cap_bounds}
use opendps.Brain.Prs.Budget.{sum-target_caps}

module _ (t : Tick) where
  floor-le-idle_cap : (g : ℕ) → t.brain.min_cap_w ≤ hw_max t g → t.brain.min_cap_w ≤ idle_cap t g
  unfolding idle_cap
  floor-le-idle_cap g h = le_min (le_max_left _ _) h

  -- Where every hardware maximum reaches the floor, the targets add up to at least a floor for
  -- each GPU.
  floors-le-sum-target_caps :
      Distinct (keys t.state.gpu_draws)
      → All (λ g. t.brain.min_cap_w ≤ hw_max t g) (keys t.state.gpu_draws)
      → int (length (keys t.state.gpu_draws)) * t.brain.min_cap_w ≤ sum (values (target_caps t))
  unfolding idle_caps idle_gpus hot_gpus
  floors-le-sum-target_caps d h =
      let m = t.brain.min_cap_w in
      let gpus = keys t.state.gpu_draws in
      let idle = filter (λ g. not (hot_gpu t g)) gpus in
      let hot = filter (hot_gpu t) gpus in
      rw
        (
          sum-target_caps t d,
          sum-values-tabulate (idle_cap t) idle,
          ← sum_map_const m gpus,
          ← sum_map-filter (λ _. m) (hot_gpu t) gpus,
        )
        (add_le_add
          (sum_map_le (λ _. m) (idle_cap t) idle
            (All-imp (λ g k. floor-le-idle_cap g k) idle
              (All-filter (λ g. m ≤ hw_max t g) _ gpus h)))
          (sum_map_le (λ _. m) (hot_cap t) hot (All-All (λ g. (hot_cap_bounds t g).0) hot)))

-- With the limiter off, hardware maxima that reach the floor, and a budget below one floor for
-- each GPU, the caps that PRSBrain.decide returns add up to more than the budget.
pub decide_over_floor :
    (b : PrsBrain) (n : String) (s : DomainState) (budget : ℚ) {r : PrsBrain × BrainDecision}
    → domain_budget_w b.topology n ≡ ok budget
    → Distinct (keys s.gpu_draws)
    → b.cap_raise_rate ≤ int 0
    → All (λ g. b.min_cap_w ≤ hw_max (start_tick b n budget s) g) (keys s.gpu_draws)
    → budget < int (length (keys s.gpu_draws)) * b.min_cap_w
    → decide b n s ≡ ok r
    → budget < sum (values (r.1).caps)
unfolding decide_within decide caps_of limited_caps start_tick
decide_over_floor b n s budget {r} known d off h small e =
    subst (λ q. budget < sum (values (q.1).caps)) (ok-injective (rw known at e))
      (rw off.holds
        (lt_of_lt_of_le small (floors-le-sum-target_caps (start_tick b n budget s) d h)))
