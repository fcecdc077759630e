-- ===== src/Controller/Coordinator/Command/Printed.antt =====
-- What the command prints.
use Prim.Native.String.{String}
use opendps.Prelude.{
  ◌≡◌, refl, ap, subst, Bool, inl, inr, true, false, Bool-cases, Option, none, some, List, [], ◌∷◌,
}
use opendps.Num.{ℚ, ◌≤◌, int, leb, sum, All, leb_total}
use opendps.Dict.{Dict, string_key, values, All-set}
use opendps.Text.{strip, split_on}
use opendps.Text.Float.{Float, finite, infinite, nan, to_float}
use opendps.Result.{
  Result, ok, raise, or_raise, raise_if, value_error, ◌>>=◌, ◌>>◌, ok-injective, >>=-eq-ok,
}
use opendps.Controller.Coordinator.{
  NodeState, InMemoryStore, empty_store, publish, get_all, rebalance,
}
use opendps.Controller.Coordinator.Publish.{
  IsStore, empty_store-IsStore, publish-IsStore, sum-rebalance-le,
}
use opendps.Controller.Coordinator.Command.{
  is_blank, checked_draw, parse_pair, parse_item, add_item, parse_items, parse_nodes, state_of,
  publish_nodes, coordinator, Outcome, usage_error, printed, rebalanced, with_nodes, with_budget,
  main,
}

-- A draw that passes the checks is not negative.
checked_draw-nonneg : (f : Float) (q : ℚ) → checked_draw f ≡ ok q → int 0 ≤ q
unfolding checked_draw
checked_draw-nonneg (finite x) q h = elim (Bool-cases (leb (int 0) x)) [
  | inl t ↦ subst (λ y. int 0 ≤ y) (ok-injective (rw t at h)) (record { holds = t })
  | inr f ↦ let bad = rw f at h in cc
]
checked_draw-nonneg infinite q h = cc
checked_draw-nonneg nan q h = cc

checked_pair-nonneg :
    (name : Result (Unit {0})) (draw : Result Float) (nid : String) (node : String × ℚ)
    → name >> (draw >>= (λ f. checked_draw f >>= (λ q. ok (nid, q)))) ≡ ok node
    → int 0 ≤ node.1
checked_pair-nonneg (raise e) draw nid node h = cc
checked_pair-nonneg (ok _) (raise e) nid node h = cc
checked_pair-nonneg (ok _) (ok f) nid node h =
    let (q, checked, same) = >>=-eq-ok (checked_draw f) (λ q. ok (nid, q)) h in
    subst (λ n. int 0 ≤ n.1) (ok-injective same) (checked_draw-nonneg f q checked)

parse_pair-nonneg :
    (p : String × String) (node : String × ℚ) → parse_pair p ≡ ok node → int 0 ≤ node.1
unfolding parse_pair
parse_pair-nonneg (nid, draw) node h =
    checked_pair-nonneg (raise_if (is_blank (strip nid)) value_error)
      (or_raise value_error (to_float draw)) (strip nid) node h

parse_item-nonneg : (item : String) (node : String × ℚ) → parse_item item ≡ ok node → int 0 ≤ node.1
unfolding parse_item
parse_item-nonneg item node h =
    let (p, _, h') = >>=-eq-ok _ parse_pair h in parse_pair-nonneg p node h'

add_item-nonneg :
    (blank : Bool) (item : Result (String × ℚ)) (rest : Result (List (String × ℚ)))
    → (nodes : List (String × ℚ)) → ((node : String × ℚ) → item ≡ ok node → int 0 ≤ node.1)
    → ((nodes : List (String × ℚ)) → rest ≡ ok nodes → All (λ node. int 0 ≤ node.1) nodes)
    → add_item blank item rest ≡ ok nodes
    → All (λ node. int 0 ≤ node.1) nodes
unfolding add_item
add_item-nonneg true item rest nodes p q h = q nodes h
add_item-nonneg false (raise e) rest nodes p q h = cc
add_item-nonneg false (ok node) (raise e) nodes p q h = cc
add_item-nonneg false (ok node) (ok l) nodes p q h =
    subst (All (λ node. int 0 ≤ node.1)) (ok-injective h) (p node refl, q l refl)

parse_items-nonneg :
    (items : List String) (nodes : List (String × ℚ))
    → parse_items items ≡ ok nodes
    → All (λ node. int 0 ≤ node.1) nodes
unfolding parse_items
parse_items-nonneg [] nodes h = subst (All (λ node. int 0 ≤ node.1)) (ok-injective h) tt
parse_items-nonneg (item ∷ items) nodes h =
    add_item-nonneg (is_blank (strip item)) (parse_item (strip item)) (parse_items items) nodes
      (parse_item-nonneg (strip item)) (parse_items-nonneg items) h

-- Publishing the nodes keeps the store in order, with draws that are not negative.
publish_nodes-IsStore :
    (nodes : List (String × ℚ)) (store : InMemoryStore)
    → IsStore store
    → IsStore (publish_nodes nodes store)
unfolding publish_nodes
publish_nodes-IsStore [] store v = v
publish_nodes-IsStore (node ∷ nodes) store v =
    publish_nodes-IsStore nodes _ (publish-IsStore store (state_of node) v)

publish_nodes-nonneg :
    (nodes : List (String × ℚ)) (store : InMemoryStore)
    → All (λ node. int 0 ≤ node.1) nodes
    → All (λ e. int 0 ≤ (e.1).draw_w) store.states
    → All (λ e. int 0 ≤ (e.1).draw_w) (publish_nodes nodes store).states
unfolding publish_nodes publish state_of
publish_nodes-nonneg [] store h a = a
publish_nodes-nonneg (node ∷ nodes) store (h, hs) a =
    publish_nodes-nonneg nodes _ hs
      (All-set (λ e. int 0 ≤ (e.1).draw_w) node.0 (state_of node) store.states h a)

All-values :
    (d : Dict String NodeState)
    → All (λ e. int 0 ≤ (e.1).draw_w) d
    → All (λ s. int 0 ≤ s.draw_w) (values d)
All-values [] a = tt
All-values (e ∷ d) (a, rest) = (a, All-values d rest)

sum-coordinator-le :
    (b : ℚ) (nodes : List (String × ℚ))
    → int 0 ≤ b
    → All (λ node. int 0 ≤ node.1) nodes
    → sum (values (rebalance (coordinator b nodes)).1) ≤ b
unfolding coordinator get_all
sum-coordinator-le b nodes p h =
    sum-rebalance-le (coordinator b nodes)
      (publish_nodes-IsStore nodes empty_store empty_store-IsStore) p
      (All-values _ (publish_nodes-nonneg nodes empty_store h tt))

-- What may be printed for a budget: the total of the budgets, which keeps to it.
record IsKept (b : ℚ) (budgets : Dict String ℚ) (total : ℚ) : Type 0 where
  total_eq : total ≡ sum (values budgets)
  total_le : total ≤ b

-- The figures of an outcome.
abbrev pub figures : Outcome → Dict String ℚ × ℚ
figures usage_error = ([], int 0)
figures (printed budgets total) = (budgets, total)

printed-IsKept :
    (b : ℚ) (d budgets : Dict String ℚ) (total : ℚ)
    → sum (values d) ≤ b
    → printed d (sum (values d)) ≡ printed budgets total
    → IsKept b budgets total
printed-IsKept b d budgets total p h =
    let same = ap figures h in
    subst (λ r. IsKept b r.0 r.1) same (record { total_eq = refl; total_le = p })

with_nodes-IsKept :
    (b : ℚ) (nodes : Result (List (String × ℚ))) (budgets : Dict String ℚ) (total : ℚ)
    → int 0 ≤ b
    → ((l : List (String × ℚ)) → nodes ≡ ok l → All (λ node. int 0 ≤ node.1) l)
    → with_nodes b nodes ≡ printed budgets total
    → IsKept b budgets total
unfolding with_nodes rebalanced
with_nodes-IsKept b (raise e) budgets total p n h = cc
with_nodes-IsKept b (ok []) budgets total p n h = cc
with_nodes-IsKept b (ok (node ∷ nodes)) budgets total p n h =
    printed-IsKept b _ budgets total (sum-coordinator-le b (node ∷ nodes) p (n _ refl)) h

with_budget-IsKept :
    (f : Option Float) (nodes : String) (budgets : Dict String ℚ) (total : ℚ)
    → with_budget f nodes ≡ printed budgets total
    → (b : ℚ) × (f ≡ some (finite b)) × IsKept b budgets total
unfolding with_budget parse_nodes
with_budget-IsKept (some (finite b)) nodes budgets total h = elim (Bool-cases (leb b (int 0))) [
  | inl t ↦ let bad = rw t at h in cc
  | inr f ↦ (
    b,
    refl,
    with_nodes-IsKept b (parse_nodes nodes) budgets total (record { holds = leb_total b (int 0) f })
        (parse_items-nonneg (split_on 44 nodes)) (rw f at h),
  )
]
with_budget-IsKept (some infinite) nodes budgets total h = cc
with_budget-IsKept (some nan) nodes budgets total h = cc
with_budget-IsKept none nodes budgets total h = cc

-- When the command prints, the budget that it was given is a finite number, and the total that it
-- prints is the sum of the budgets that it prints, and at most that number.
pub main-le :
    (cluster_budget_w nodes : String) (budgets : Dict String ℚ) (total : ℚ)
    → main cluster_budget_w nodes ≡ printed budgets total
    → (b : ℚ) × (to_float cluster_budget_w ≡ some (finite b))
      × (total ≡ sum (values budgets))
      × (total ≤ b)
unfolding main
main-le cluster_budget_w nodes budgets total h =
    let (b, given, kept) = with_budget-IsKept (to_float cluster_budget_w) nodes budgets total h in
    (b, given, kept.total_eq, kept.total_le)
