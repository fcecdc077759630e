-- ===== src/Controller/Coordinator.antt =====
-- opendps/controller/cluster_coordinator.py: the store of node states in one process, and the
-- coordinator that splits the cluster's budget over the nodes.
pub mod Split
pub mod Publish
pub mod Command
pub mod Redis
use Prim.Native.Nat.{ℕ}
use Prim.Native.String.{String}
use opendps.Prelude.{
  ◌≡◌, ◌↔◌, Bool, true, false, not, ◌&&◌, Option, none, some, List, [], ◌∷◌, if◌then◌else◌, arith,
}
use opendps.Num.{ℚ, ◌+◌, ◌-◌, ◌*◌, ◌/◌, int, leb, ltb, min, sum_map, length}
use opendps.Dict.{Dict, Key, string_key, get, get_or, set, keys, values}

pub record NodeState : Type 0 where
  pub node_id : String
  pub domain_name : String
  pub draw_w : ℚ
  pub cap_w : ℚ
  pub budget_w : ℚ
  pub ts : ℚ

-- The key of an adopted budget: the pair of node and domain.
unfoldable pub pair_beq : String × String → String × String → Bool
pair_beq (a, b) (c, d) = string_key.beq a c && string_key.beq b d

pub pair_beq_iff : (p q : String × String) → (pair_beq p q ≡ true) ↔ (p ≡ q)
unfolding pair_beq
pair_beq_iff (a, b) (c, d) = ground (arith, string_key.beq_iff a c, string_key.beq_iff b d)

instance abbrev pub pair_key : Key (String × String)
pair_key = record { beq = pair_beq; beq_iff = pair_beq_iff }

-- `InMemoryStore`
pub record InMemoryStore : Type 0 where
  pub states : Dict String NodeState
  pub adopted : Dict (String × String) ℚ

abbrev pub empty_store : InMemoryStore
empty_store = record { states = []; adopted = [] }

unfoldable pub publish : InMemoryStore → NodeState → InMemoryStore
publish store state = record store { states = set state.node_id state store.states }

unfoldable pub get_all : InMemoryStore → List NodeState
get_all store = values store.states

unfoldable pub set_adopted_budget : InMemoryStore → String → String → ℚ → InMemoryStore
set_adopted_budget store node_id domain_name budget_w = record store {
  adopted = set (node_id, domain_name) budget_w store.adopted;
}

unfoldable pub get_adopted_budget : InMemoryStore → String → String → Option ℚ
get_adopted_budget store node_id domain_name = get (node_id, domain_name) store.adopted

-- `ClusterCoordinator`, with its store.
pub record ClusterCoordinator : Type 0 where
  pub store : InMemoryStore
  pub cluster_budget : ℚ
  pub interval : ℚ
  pub node_budgets : Dict String ℚ

unfoldable pub get_node_budget : ClusterCoordinator → String → Option ℚ
get_node_budget c node_id = get node_id c.node_budgets

-- `x or 1.0`
unfoldable pub or_one : ℚ → ℚ
or_one x = if leb x (int 0) && leb (int 0) x then int 1 else x

-- The split among `n` nodes.
unfoldable pub fair : ℚ → ℕ → ℚ
fair cluster_budget n = cluster_budget / int n

unfoldable pub floor : ℚ → ℕ → ℚ
unfolding fair
floor cluster_budget n = fair cluster_budget n * (int 1 / int 2)

unfoldable pub ceil : ℚ → ℕ → ℚ
unfolding fair
ceil cluster_budget n = fair cluster_budget n * int 2

unfoldable pub surplus : ℚ → ℕ → ℚ
surplus cluster_budget n = cluster_budget - floor cluster_budget n * int n

unfoldable pub total_draw : List NodeState → ℚ
unfolding or_one
total_draw states = or_one (sum_map (λ s. s.draw_w) states)

unfoldable pub node_budget : ℚ → List NodeState → NodeState → ℚ
node_budget cluster_budget states s =
    let n = length states in
    min (floor cluster_budget n + s.draw_w / total_draw states * surplus cluster_budget n)
      (ceil cluster_budget n)

-- The loop that fills `new_budgets`.
unfoldable pub fill_budgets : (NodeState → ℚ) → List NodeState → Dict String ℚ → Dict String ℚ
fill_budgets f [] budgets = budgets
fill_budgets f (s ∷ states) budgets = fill_budgets f states (set s.node_id (f s) budgets)

-- The loop that publishes; `new_budgets[s.node_id]` is there for every state.
unfoldable pub publish_budgets : Dict String ℚ → List NodeState → InMemoryStore → InMemoryStore
publish_budgets budgets [] store = store
publish_budgets budgets (s ∷ states) store =
    publish_budgets budgets states
      (set_adopted_budget store s.node_id s.domain_name (get_or s.node_id (int 0) budgets))

unfoldable pub new_budgets : ClusterCoordinator → Dict String ℚ
new_budgets c =
    let states = get_all c.store in fill_budgets (node_budget c.cluster_budget states) states []

unfoldable pub is_empty : List NodeState → Bool
is_empty [] = true
is_empty (s ∷ states) = false

unfoldable pub rebalance : ClusterCoordinator → ClusterCoordinator × Dict String ℚ
rebalance c = if is_empty (get_all c.store) then (c, []) else (
  record c {
    store = publish_budgets (new_budgets c) (get_all c.store) c.store;
    node_budgets = new_budgets c;
  },
  new_budgets c,
)
