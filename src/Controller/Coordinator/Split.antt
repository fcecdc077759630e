-- ===== src/Controller/Coordinator/Split.antt =====
-- The split of the cluster's budget: sums and bounds.
use Prim.Native.Nat.{ℕ, suc}
use opendps.Prelude.{◌≡◌, refl, ◌∙◌, ap, subst, fun_ext, List, ◌∷◌, inl, inr, Bool-cases, arith}
use opendps.Num.{
  ℚ, ◌+◌, ◌-◌, ◌*◌, ◌/◌, int, leb, ◌≤◌, ◌<◌, sum_map, length, All, All-All, le_trans, le_of_eq,
  le_of_lt, le_or_lt, le_antisymm, sum_map_le, sum_map-add, sum_map-mul, sum_map-share,
  sum_map_const, sum_map_nonneg, min_le_left, min_le_right, le_min, le_add_right, add_le_add,
  mul_nonneg, div_nonneg, le-int, int_pos, mul_le_mul_left, mul-one, mul_comm, add_comm,
  sub_add_cancel, zero-mul, div-mul, div_mul_cancel, sub_nonneg, mul_le_mul_right,
}
use opendps.Controller.Coordinator.{
  NodeState, or_one, fair, floor, ceil, surplus, total_draw, node_budget,
}

half-le-one : int 1 / int 2 ≤ int 1
unfolding leb ◌/◌ int
half-le-one = record { holds = refl }

one-le-two : int 1 ≤ int 2
one-le-two = le-int (omega arith)

half_nonneg : int 0 ≤ int 1 / int 2
half_nonneg = div_nonneg (le-int (omega arith)) (le-int (omega arith))

module _ (b : ℚ) (n : ℕ) (pb : int 0 ≤ b) where
  fair_nonneg : int 0 ≤ fair b (suc n)
  unfolding fair
  fair_nonneg = div_nonneg pb (le_of_lt (int_pos n))

  floor-le-fair : floor b (suc n) ≤ fair b (suc n)
  unfolding floor
  floor-le-fair =
      subst (λ t. fair b (suc n) * (int 1 / int 2) ≤ t) (mul-one (fair b (suc n)))
        (mul_le_mul_left (fair b (suc n)) fair_nonneg half-le-one)

  fair-le-ceil : fair b (suc n) ≤ ceil b (suc n)
  unfolding ceil
  fair-le-ceil =
      subst (λ t. t ≤ fair b (suc n) * int 2) (mul-one (fair b (suc n)))
        (mul_le_mul_left (fair b (suc n)) fair_nonneg one-le-two)

  -- The floors take at most the whole budget.
  floors-le : floor b (suc n) * int (suc n) ≤ b
  unfolding fair
  floors-le =
      subst (λ t. floor b (suc n) * int (suc n) ≤ t) (div_mul_cancel b (int_pos n))
        (mul_le_mul_right (int (suc n)) (le_of_lt (int_pos n)) floor-le-fair)

  surplus_nonneg : int 0 ≤ surplus b (suc n)
  unfolding surplus
  surplus_nonneg = sub_nonneg floors-le

or_one_pos : (x : ℚ) → int 0 < x → or_one x ≡ x
unfolding or_one
or_one_pos x h = rw h.holds refl

or_one_nonneg : (x : ℚ) → int 0 ≤ x → int 0 ≤ or_one x
unfolding or_one
or_one_nonneg x h = elim (Bool-cases (leb x (int 0))) [
  | inl zero ↦ rw (zero, h.holds) (le-int (omega arith))
  | inr pos ↦ rw pos h
]

-- The extras add up to at most the surplus.
extras-le :
    (states : List NodeState) (sp : ℚ)
    → int 0 ≤ sp
    → All (λ s. int 0 ≤ s.draw_w) states
    → sum_map (λ s. s.draw_w / total_draw states * sp) states ≤ sp
unfolding total_draw
extras-le states sp ps d = elim (le_or_lt (sum_map (λ s. s.draw_w) states) (int 0)) [
  | inl none_drawn ↦
      let e : sum_map (λ s. s.draw_w) states ≡ int 0 =
        le_antisymm none_drawn (sum_map_nonneg (λ s. s.draw_w) states d) in
      le_trans
        (le_of_eq (
          ap (λ g. sum_map g states)
            (fun_ext (λ s. div-mul s.draw_w sp (or_one (sum_map (λ x. x.draw_w) states))))
          ∙ sum_map-mul (λ s. s.draw_w) (sp / or_one (sum_map (λ x. x.draw_w) states)) states
          ∙ ap (λ t. t * (sp / or_one (sum_map (λ x. x.draw_w) states))) e
          ∙ zero-mul _))
        ps
  | inr some_drawn ↦
      rw (or_one_pos (sum_map (λ s. s.draw_w) states) some_drawn)
        (le_of_eq (sum_map-share (λ s. s.draw_w) states sp some_drawn))
]

floors_and_surplus : (b : ℚ) (n : ℕ) → int n * floor b n + surplus b n ≡ b
unfolding surplus
floors_and_surplus b n =
    add_comm (int n * floor b n) (b - floor b n * int n)
    ∙ ap (λ t. b - floor b n * int n + t) (mul_comm (int n) (floor b n))
    ∙ sub_add_cancel b (floor b n * int n)

-- The sum over all nodes, before it is stored by node.
pub sum-node_budget-le :
    (b : ℚ) (s : NodeState) (rest : List NodeState)
    → int 0 ≤ b
    → All (λ x. int 0 ≤ x.draw_w) (s ∷ rest)
    → sum_map (node_budget b (s ∷ rest)) (s ∷ rest) ≤ b
unfolding node_budget
sum-node_budget-le b s rest pb d =
    let states = s ∷ rest in
    let n = length states in
    le_trans
      (sum_map_le _ (λ x. floor b n + x.draw_w / total_draw states * surplus b n) states
        (All-All (λ x. min_le_left _ _) states))
      (le_trans
        (le_of_eq
          (sum_map-add (λ _. floor b n) (λ x. x.draw_w / total_draw states * surplus b n) states))
        (le_trans
          (add_le_add (le_of_eq (sum_map_const (floor b n) states))
            (extras-le states (surplus b n) (surplus_nonneg b (length rest) pb) d))
          (le_of_eq (floors_and_surplus b n))))

pub node_budget_bounds :
    (b : ℚ) (s : NodeState) (rest : List NodeState) (x : NodeState)
    → int 0 ≤ b
    → All (λ y. int 0 ≤ y.draw_w) (s ∷ rest)
    → int 0 ≤ x.draw_w
    → (floor b (length (s ∷ rest)) ≤ node_budget b (s ∷ rest) x)
      × (node_budget b (s ∷ rest) x ≤ ceil b (length (s ∷ rest)))
unfolding node_budget total_draw
node_budget_bounds b s rest x pb d dx =
    let n = length rest in
    (
      le_min
          (le_add_right (
            mul_nonneg
              (div_nonneg dx (or_one_nonneg _ (sum_map_nonneg (λ y. y.draw_w) (s ∷ rest) d)))
              (surplus_nonneg b n pb)))
          (le_trans (floor-le-fair b n pb) (fair-le-ceil b n pb)),
      min_le_right _ _,
    )
