-- ===== src/Controller/Coordinator/Command.antt =====
-- `_parse_nodes` and `main` of opendps/controller/cluster_coordinator.py: one round for the draws that
-- the command line gives.
pub mod Printed
use Prim.Native.Nat.{ℕ}
use Prim.Native.String.{String, [] as empty, ◌∷◌ as ◌∷ₛ◌}
use opendps.Prelude.{
  Bool, true, false, ◌||◌, Option, none, some, List, [], ◌∷◌, if◌then◌else◌, nat_beq,
}
use opendps.Num.{ℚ, int, leb, ltb, sum}
use opendps.Dict.{Dict, values}
use opendps.Text.{strip, split_on, split_once}
use opendps.Text.Float.{Float, finite, infinite, nan, to_float}
use opendps.Result.{Result, ok, raise, value_error, or_raise, raise_if, ◌>>=◌, ◌>>◌}
use opendps.Controller.Coordinator.{
  NodeState, InMemoryStore, ClusterCoordinator, empty_store, publish, rebalance,
}

-- `not text`
unfoldable pub is_blank : String → Bool
is_blank empty = true
is_blank (c ∷ₛ s) = false

-- The checks of a draw, which has to be finite and not negative.
unfoldable pub checked_draw : Float → Result ℚ
checked_draw (finite q) = raise_if (ltb q (int 0)) value_error >> ok q
checked_draw infinite = raise value_error
checked_draw nan = raise value_error

unfoldable pub parse_pair : String × String → Result (String × ℚ)
unfolding checked_draw is_blank
parse_pair (nid, draw) = do
  raise_if (is_blank (strip nid)) value_error
  draw_w ← or_raise value_error (to_float draw)
  draw_w ← checked_draw draw_w
  ok (strip nid, draw_w)

-- An entry that is not empty.
unfoldable pub parse_item : String → Result (String × ℚ)
unfolding parse_pair split_once
parse_item item = or_raise value_error (split_once 61 item) >>= parse_pair

-- An entry and those after it; an empty one is skipped.
unfoldable pub add_item :
    Bool → Result (String × ℚ) → Result (List (String × ℚ)) → Result (List (String × ℚ))
add_item true item rest = rest
add_item false item rest = do node ← item; nodes ← rest; ok (node ∷ nodes)

-- The loop over the entries.
unfoldable pub parse_items : List String → Result (List (String × ℚ))
unfolding parse_item is_blank add_item
parse_items [] = ok []
parse_items (item ∷ items) =
    add_item (is_blank (strip item)) (parse_item (strip item)) (parse_items items)

-- `_parse_nodes`
unfoldable pub parse_nodes : String → Result (List (String × ℚ))
unfolding parse_items
parse_nodes spec = parse_items (split_on 44 spec)

unfoldable pub state_of : String × ℚ → NodeState
state_of (nid, draw) = record {
  node_id = nid;
  domain_name = nid;
  draw_w = draw;
  cap_w = draw;
  budget_w = int 0;
  ts = int 0;
}

-- The loop that publishes the nodes.
unfoldable pub publish_nodes : List (String × ℚ) → InMemoryStore → InMemoryStore
unfolding state_of
publish_nodes [] store = store
publish_nodes (node ∷ nodes) store = publish_nodes nodes (publish store (state_of node))

unfoldable pub coordinator : ℚ → List (String × ℚ) → ClusterCoordinator
unfolding publish_nodes
coordinator cluster_budget_w nodes = record {
  store = publish_nodes nodes empty_store;
  cluster_budget = cluster_budget_w;
  interval = int 10;
  node_budgets = [];
}

-- How the command ends: by `parser.error`, or with the budgets and their total printed.
pub data Outcome : Type 0 where
  usage_error : Outcome
  printed : Dict String ℚ → ℚ → Outcome

unfoldable pub rebalanced : ℚ → List (String × ℚ) → Outcome
unfolding coordinator
rebalanced cluster_budget_w nodes =
    let budgets = (rebalance (coordinator cluster_budget_w nodes)).1 in
    printed budgets (sum (values budgets))

unfoldable pub with_nodes : ℚ → Result (List (String × ℚ)) → Outcome
unfolding rebalanced
with_nodes cluster_budget_w (raise e) = usage_error
with_nodes cluster_budget_w (ok []) = usage_error
with_nodes cluster_budget_w (ok (node ∷ nodes)) = rebalanced cluster_budget_w (node ∷ nodes)

unfoldable pub with_budget : Option Float → String → Outcome
unfolding with_nodes parse_nodes
with_budget (some (finite cluster_budget_w)) nodes =
    if leb cluster_budget_w (int 0)
    then usage_error
    else with_nodes cluster_budget_w (parse_nodes nodes)
with_budget _ nodes = usage_error

-- `main`, on the values that argparse takes for --cluster-budget-w and --nodes.
unfoldable pub main : String → String → Outcome
unfolding with_budget
main cluster_budget_w nodes = with_budget (to_float cluster_budget_w) nodes
