-- ===== src/Brain/Prs/Budget.antt =====
-- The caps of `PRSBrain` against the domain's budget.
use Prim.Native.Nat.{ℕ}
use opendps.Prelude.{◌≡◌, ◌∙◌, ap, not, Bool-cases, inl, inr, arith}
use opendps.Num.{
  ℚ, ◌+◌, ◌*◌, int, ltb, ◌≤◌, max, sum, sum_map, length, All, All-All, le_refl, le_trans, le_of_eq,
  le_of_lt, le_or_lt, add_le_add, sum_map_le, sum_map-add, sum_map_const, sum_map-share,
  sum_map-even, min_le_right, max_le, le_add_left, le_add_right, mul_nonneg, div_nonneg, le-int,
  sum-append, le_max_left, add_max_sub, add_assoc, add_le_add_right,
}
use opendps.Dict.{
  Dict, nat_key, keys, values, tabulate, filter, Distinct, keys-tabulate, filter-Distinct,
  filter-Apart-not, update-append, values-append, sum-values-tabulate, sum-values,
  sum-values-map_values, All-get_or, keys-map_values, update-Distinct, All-update, All-tabulate,
  All-filter, All-map_values,
}
use opendps.Brain.Prs.{
  Tick, idle_cap, idle_caps, idle_gpus, hot_gpu, hot_gpus, hot_cap, hot_caps, hot_share, hot_budget,
  target_caps, limited_caps, ewma_at, previous_cap, hw_max,
}
use opendps.Brain.Prs.Caps.{limit_le}

-- Adding the hot caps to the idle ones adds their sums: the two groups share no GPU.
pub sum-target_caps :
    (t : Tick)
    → Distinct (keys t.state.gpu_draws)
    → sum (values (target_caps t)) ≡ sum (values (idle_caps t)) + sum_map (hot_cap t) (hot_gpus t)
unfolding target_caps idle_caps hot_caps hot_gpus idle_gpus
sum-target_caps t d =
    let p = hot_gpu t in
    let gpus = keys t.state.gpu_draws in
    let idle = tabulate (idle_cap t) (filter (λ g. not (p g)) gpus) in
    let hot = tabulate (hot_cap t) (filter p gpus) in
    ap (λ c. sum (values c))
      (update-append idle hot
        (rw (keys-tabulate (hot_cap t) (filter p gpus)) (filter-Distinct p gpus d))
        (rw
          (
            keys-tabulate (hot_cap t) (filter p gpus),
            keys-tabulate (idle_cap t) (filter (λ g. not (p g)) gpus),
          )
          (filter-Apart-not p gpus gpus)))
    ∙ ap sum (values-append idle hot)
    ∙ sum-append (values idle) (values hot)
    ∙ ap (λ x. sum (values idle) + x) (sum-values-tabulate (hot_cap t) (filter p gpus))

module _ (t : Tick) where
  hot_budget_nonneg : int 0 ≤ hot_budget t
  unfolding hot_budget
  hot_budget_nonneg = le_max_left (int 0) _

  -- The shares of the hot GPUs add up to at most the hot budget.
  pub hot_share_total : sum_map (λ g. hot_share t g * hot_budget t) (hot_gpus t) ≤ hot_budget t
  unfolding hot_share
  hot_share_total = elim (le_or_lt (sum_map (ewma_at t.ewma) (hot_gpus t)) (int 0)) [
    | inl off ↦ rw off.holds (sum_map-even (hot_gpus t) (hot_budget t) hot_budget_nonneg)
    | inr on ↦
        rw on.holds (le_of_eq (sum_map-share (ewma_at t.ewma) (hot_gpus t) (hot_budget t) on))
  ]

  hot_share_nonneg : (g : ℕ) → All (λ e. int 0 ≤ e.1) t.ewma → int 0 ≤ hot_share t g
  unfolding hot_share ewma_at
  hot_share_nonneg g w = elim (le_or_lt (sum_map (ewma_at t.ewma) (hot_gpus t)) (int 0)) [
    | inl off ↦ rw off.holds (div_nonneg (le-int (omega arith)) (le-int (omega arith)))
    | inr on ↦ rw on.holds (
        div_nonneg (All-get_or (λ v. int 0 ≤ v) g (int 0) t.ewma (le_refl (int 0)) w) (le_of_lt on))
  ]

  hot_cap-le :
      (g : ℕ)
      → int 0 ≤ t.brain.min_cap_w
      → All (λ e. int 0 ≤ e.1) t.ewma
      → hot_cap t g ≤ hot_share t g * hot_budget t + t.brain.min_cap_w
  unfolding hot_cap
  hot_cap-le g pm w =
      max_le (le_add_left (mul_nonneg (hot_share_nonneg g w) hot_budget_nonneg))
        (le_trans (min_le_right (hw_max t g) _) (le_add_right pm))

  sum-hot_cap-le :
      int 0 ≤ t.brain.min_cap_w
      → All (λ e. int 0 ≤ e.1) t.ewma
      → sum_map (hot_cap t) (hot_gpus t)
        ≤ hot_budget t + int (length (hot_gpus t)) * t.brain.min_cap_w
  sum-hot_cap-le pm w =
      le_trans
        (sum_map_le (hot_cap t) (λ g. hot_share t g * hot_budget t + t.brain.min_cap_w) (hot_gpus t)
          (All-All (λ g. hot_cap-le g pm w) (hot_gpus t)))
        (le_trans
          (le_of_eq
            (sum_map-add (λ g. hot_share t g * hot_budget t) (λ _. t.brain.min_cap_w) (hot_gpus t)))
          (add_le_add hot_share_total (le_of_eq (sum_map_const t.brain.min_cap_w (hot_gpus t)))))

  idle_and_hot_budget :
      sum (values (idle_caps t)) + hot_budget t ≤ max t.budget (sum (values (idle_caps t)))
  unfolding hot_budget
  idle_and_hot_budget = add_max_sub (sum (values (idle_caps t))) t.budget

  pub sum-target_caps-le :
      Distinct (keys t.state.gpu_draws)
      → int 0 ≤ t.brain.min_cap_w
      → All (λ e. int 0 ≤ e.1) t.ewma
      → sum (values (target_caps t))
        ≤ max t.budget (sum (values (idle_caps t))) + int (length (hot_gpus t)) * t.brain.min_cap_w
  sum-target_caps-le d pm w = rw (sum-target_caps t d) (
      le_trans (add_le_add (le_refl _) (sum-hot_cap-le pm w)) (
        rw
          (← add_assoc (sum (values (idle_caps t))) (hot_budget t)
            (int (length (hot_gpus t)) * t.brain.min_cap_w))
          (add_le_add_right _ idle_and_hot_budget)))

  -- The limiter only lowers the sum.
  pub sum-limited_caps-le :
      (last : Dict ℕ ℚ) → sum (values (limited_caps t last)) ≤ sum (values (target_caps t))
  unfolding limited_caps
  sum-limited_caps-le last = elim (Bool-cases (ltb (int 0) t.brain.cap_raise_rate)) [
    | inl on ↦
        rw (on, sum-values-map_values, sum-values (target_caps t))
          (sum_map_le _ (λ e. e.1) (target_caps t)
            (All-All (λ e. limit_le t.brain.cap_raise_rate (previous_cap last t.state e.0) e.1)
              (target_caps t)))
    | inr off ↦ rw off (le_refl _)
  ]

  -- The caps are for GPUs of the sample, each once.
  pub limited_caps-Distinct :
      (last : Dict ℕ ℚ) → Distinct (keys t.state.gpu_draws) → Distinct (keys (limited_caps t last))
  unfolding limited_caps target_caps idle_caps idle_gpus
  limited_caps-Distinct last d =
      let idle = filter (λ g. not (hot_gpu t g)) (keys t.state.gpu_draws) in
      let kept =
        update-Distinct (tabulate (idle_cap t) idle) (hot_caps t)
          (rw (keys-tabulate (idle_cap t) idle) (filter-Distinct _ (keys t.state.gpu_draws) d)) in
      elim (Bool-cases (ltb (int 0) t.brain.cap_raise_rate)) [
        | inl on ↦ rw (on, keys-map_values) kept
        | inr off ↦ rw off kept
      ]

  pub limited_caps-All :
      (P : ℕ → Type 0) (last : Dict ℕ ℚ)
      → All P (keys t.state.gpu_draws)
      → All (λ e. P e.0) (limited_caps t last)
  unfolding limited_caps target_caps idle_caps hot_caps idle_gpus hot_gpus
  limited_caps-All P last h =
      let caps =
        All-update (λ e. P e.0) _ _
          (All-tabulate (λ e. P e.0) (idle_cap t) _ (All-filter P _ (keys t.state.gpu_draws) h))
          (All-tabulate (λ e. P e.0) (hot_cap t) _ (All-filter P _ (keys t.state.gpu_draws) h)) in
      elim (Bool-cases (ltb (int 0) t.brain.cap_raise_rate)) [
        | inl on ↦ rw on (All-map_values (λ e. P e.0) (λ e. P e.0) _ _ (λ e p. p) caps)
        | inr off ↦ rw off caps
      ]
