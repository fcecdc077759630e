-- ===== src/Tests/ClusterRuns.antt =====
-- The coordinator on two nodes.
use Prim.Native.String.{String}
use opendps.Prelude.{◌≡◌, refl, [], some}
use opendps.Text.{split_on}
use opendps.Num.{ℚ, ◌*◌, ◌/◌, neg, ◌≤◌, int, leb, sum, All, length}
use opendps.Dict.{Dict, set, values, string_key}
use opendps.Controller.Coordinator.{
  NodeState, InMemoryStore, ClusterCoordinator, empty_store, publish, get_all, get_adopted_budget,
  node_budget, rebalance,
}
use opendps.Controller.Coordinator.Publish.{
  IsStore, empty_store-IsStore, publish-IsStore, sum-rebalance-le, rebalance_bounds,
  rebalance_published,
}
use opendps.Text.Float.{to_float, finite}
use opendps.Controller.Coordinator.Command.{main, printed, usage_error}
use opendps.Controller.Coordinator.Command.Printed.{main-le, figures}

abbrev node : String → ℚ → NodeState
node name draw = record {
  node_id = name;
  domain_name = "d0";
  draw_w = draw;
  cap_w = int 300;
  budget_w = int 300;
  ts = int 0;
}

abbrev store : InMemoryStore
store =
    publish (publish (publish empty_store (node "a" (int 100))) (node "b" (int 300)))
      (node "a" (int 200))

store-IsStore : IsStore store
store-IsStore = publish-IsStore _ (node "a" (int 200)) (
    publish-IsStore _ (node "b" (int 300))
      (publish-IsStore empty_store (node "a" (int 100)) empty_store-IsStore))

abbrev coordinator : ClusterCoordinator
coordinator = record {
  store = store;
  cluster_budget = int 600;
  interval = int 30;
  node_budgets = [];
}

cluster_nonneg : int 0 ≤ coordinator.cluster_budget
unfolding leb int
cluster_nonneg = record { holds = refl }

draws_nonneg : All (λ s. int 0 ≤ s.draw_w) (get_all coordinator.store)
unfolding leb int get_all publish set
draws_nonneg = (record { holds = refl }, (record { holds = refl }, tt))

sum-rebalance-le_example : sum (values (rebalance coordinator).1) ≤ coordinator.cluster_budget
sum-rebalance-le_example = sum-rebalance-le coordinator store-IsStore cluster_nonneg draws_nonneg

rebalance_bounds_example :
    let share = coordinator.cluster_budget / int (length (get_all coordinator.store)) in
    All (λ e. (share * (int 1 / int 2) ≤ e.1) × (e.1 ≤ share * int 2)) (rebalance coordinator).1
rebalance_bounds_example = rebalance_bounds coordinator cluster_nonneg draws_nonneg

rebalance_published_example :
    All
      (λ s.
        get_adopted_budget (rebalance coordinator).0.store s.node_id s.domain_name
        ≡ some (node_budget coordinator.cluster_budget (get_all coordinator.store) s))
      (get_all coordinator.store)
rebalance_published_example = rebalance_published coordinator store-IsStore

-- Two nodes, with spaces, an empty entry and an exponent.
abbrev shown : Dict String ℚ × ℚ
unfolding main
shown = figures (main "6e2" " a = 1_00 ,, b=+300.0")

shown_printed : main "6e2" " a = 1_00 ,, b=+300.0" ≡ printed shown.0 shown.1
unfolding main shown to_float leb ◌*◌ ◌/◌ int split_on
shown_printed = refl

main-le_example :
    (b : ℚ) × (to_float "6e2" ≡ some (finite b)) × (shown.1 ≡ sum (values shown.0)) × (shown.1 ≤ b)
main-le_example = main-le "6e2" " a = 1_00 ,, b=+300.0" shown.0 shown.1 shown_printed

negative_draw : main "600" "a=-1" ≡ usage_error
unfolding main to_float leb ◌/◌ int split_on neg
negative_draw = refl

no_number : main "1_" "a=1" ≡ usage_error
unfolding main to_float
no_number = refl

-- A number that is too large for a float is infinite.
too_large : main "1e400" "a=1" ≡ usage_error
unfolding main to_float leb ◌*◌ ◌/◌ int
too_large = refl
