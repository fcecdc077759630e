-- ===== src/Controller/Coordinator/Publish.antt =====
-- The coordinator's round: the stored budgets, and what the nodes read back.
use Prim.Native.String.{String}
use opendps.Prelude.{
  ◌≡◌, refl, sym, ◌∙◌, ap, ap₂, subst, true, false, some, List, [], ◌∷◌, inl, inr, Bool-cases,
  arith,
}
use opendps.Num.{ℚ, ◌+◌, ◌*◌, ◌/◌, int, ◌≤◌, sum, sum_map, length, All, All-imp, All-zip}
use opendps.Dict.{
  Dict, string_key, get, get_or, get_or_found, set, update, keys, values, elem, Distinct,
  update-append, get-set, set-Distinct, All-set, beq_refl, Apart,
}
use opendps.Controller.Coordinator.{
  NodeState, InMemoryStore, ClusterCoordinator, pair_beq, pair_beq_iff, pair_key, empty_store,
  publish, get_all, set_adopted_budget, get_adopted_budget, fair, floor, ceil, node_budget,
  fill_budgets, publish_budgets, new_budgets, is_empty, rebalance,
}
use opendps.Controller.Coordinator.Split.{sum-node_budget-le, node_budget_bounds}

-- Each state is stored under its own node, once.
pub record IsStore (store : InMemoryStore) : Type 0 where
  pub distinct : Distinct (keys store.states)
  pub own_key : All (λ e. e.0 ≡ (e.1).node_id) store.states

pub empty_store-IsStore : IsStore empty_store
empty_store-IsStore = record { distinct = tt; own_key = tt }

-- Publishing a node's state keeps the store in order: each state once, under its own node.
pub publish-IsStore :
    (store : InMemoryStore) (s : NodeState) → IsStore store → IsStore (publish store s)
unfolding publish
publish-IsStore store s v = record {
  distinct = set-Distinct s.node_id s store.states v.distinct;
  own_key = All-set (λ e. e.0 ≡ (e.1).node_id) s.node_id s store.states refl v.own_key;
}

-- The nodes' ids, in the order of `get_all`.
abbrev ids : List NodeState → List String
ids [] = []
ids (s ∷ states) = s.node_id ∷ ids states

ids-values :
    (d : Dict String NodeState) → All (λ e. e.0 ≡ (e.1).node_id) d → ids (values d) ≡ keys d
ids-values [] h = refl
ids-values ((k, s) ∷ d) (h, hs) = ap₂ ◌∷◌ (sym h) (ids-values d hs)

entries : (NodeState → ℚ) → List NodeState → Dict String ℚ
entries f [] = []
entries f (s ∷ states) = (s.node_id, f s) ∷ entries f states

fill_budgets-eq-update :
    (f : NodeState → ℚ) (states : List NodeState) (d : Dict String ℚ)
    → fill_budgets f states d ≡ update d (entries f states)
unfolding fill_budgets entries update
fill_budgets-eq-update f [] d = refl
fill_budgets-eq-update f (s ∷ states) d = fill_budgets-eq-update f states (set s.node_id (f s) d)

keys-entries : (f : NodeState → ℚ) (states : List NodeState) → keys (entries f states) ≡ ids states
unfolding entries
keys-entries f [] = refl
keys-entries f (s ∷ states) = ap (◌∷◌ s.node_id) (keys-entries f states)

sum-entries :
    (f : NodeState → ℚ) (states : List NodeState)
    → sum (values (entries f states)) ≡ sum_map f states
unfolding entries sum sum_map
sum-entries f [] = refl
sum-entries f (s ∷ states) = ap (λ t. f s + t) (sum-entries f states)

Apart-nil : (ks : List String) → Apart [] ks
unfolding elem
Apart-nil [] = tt
Apart-nil (k ∷ ks) = (refl, Apart-nil ks)

-- With distinct ids the stored budgets add up to the sum over the nodes.
sum-fill_budgets :
    (f : NodeState → ℚ) (states : List NodeState)
    → Distinct (ids states)
    → sum (values (fill_budgets f states [])) ≡ sum_map f states
sum-fill_budgets f states d =
    ap (λ b. sum (values b))
      (fill_budgets-eq-update f states []
        ∙ update-append [] (entries f states) (rw (keys-entries f states) d) (Apart-nil _))
    ∙ sum-entries f states

Distinct-ids : (store : InMemoryStore) → IsStore store → Distinct (ids (get_all store))
unfolding get_all
Distinct-ids store v = rw (ids-values store.states v.own_key) v.distinct

sum-rebalance_from :
    (c : ClusterCoordinator) (states : List NodeState)
    → get_all c.store ≡ states
    → Distinct (ids states)
    → int 0 ≤ c.cluster_budget
    → All (λ s. int 0 ≤ s.draw_w) states
    → sum (values (rebalance c).1) ≤ c.cluster_budget
unfolding rebalance is_empty new_budgets sum
sum-rebalance_from c [] e v pb d = rw e pb
sum-rebalance_from c (s ∷ rest) e v pb d =
    rw (e, sum-fill_budgets (node_budget c.cluster_budget (s ∷ rest)) (s ∷ rest) v)
      (sum-node_budget-le c.cluster_budget s rest pb d)

-- The budgets that a round of the coordinator computes and stores by node add up to at most the
-- cluster budget, for a store in order and a budget and draws that are not negative.
pub sum-rebalance-le :
    (c : ClusterCoordinator)
    → IsStore c.store
    → int 0 ≤ c.cluster_budget
    → All (λ s. int 0 ≤ s.draw_w) (get_all c.store)
    → sum (values (rebalance c).1) ≤ c.cluster_budget
sum-rebalance-le c v = sum-rebalance_from c (get_all c.store) refl (Distinct-ids c.store v)

All-fill_budgets :
    (P : ℚ → Type 0) (f : NodeState → ℚ) (states : List NodeState) (d : Dict String ℚ)
    → All (λ s. P (f s)) states
    → All (λ e. P e.1) d
    → All (λ e. P e.1) (fill_budgets f states d)
unfolding fill_budgets
All-fill_budgets P f [] d h k = k
All-fill_budgets P f (s ∷ states) d (h, hs) k =
    All-fill_budgets P f states _ hs (All-set (λ e. P e.1) s.node_id (f s) d h k)

rebalance_bounds_from :
    (c : ClusterCoordinator) (states : List NodeState)
    → get_all c.store ≡ states
    → int 0 ≤ c.cluster_budget
    → All (λ s. int 0 ≤ s.draw_w) states
    → All
        (λ e.
          (floor c.cluster_budget (length states) ≤ e.1)
          × (e.1 ≤ ceil c.cluster_budget (length states)))
        (rebalance c).1
unfolding rebalance is_empty new_budgets
rebalance_bounds_from c [] e pb d = rw e tt
rebalance_bounds_from c (s ∷ rest) e pb d =
    let b = c.cluster_budget in
    let n = length (s ∷ rest) in
    rw e (
      All-fill_budgets (λ w. (floor b n ≤ w) × (w ≤ ceil b n)) (node_budget b (s ∷ rest)) (s ∷ rest)
        [] (All-imp (λ x dx. node_budget_bounds b s rest x pb d dx) (s ∷ rest) d) tt)

-- Every node gets at least half of its fair share, the cluster budget over the number of nodes,
-- and at most twice that share, for a budget and draws that are not negative.
pub rebalance_bounds :
    (c : ClusterCoordinator)
    → int 0 ≤ c.cluster_budget
    → All (λ s. int 0 ≤ s.draw_w) (get_all c.store)
    → let share = c.cluster_budget / int (length (get_all c.store)) in
      All (λ e. (share * (int 1 / int 2) ≤ e.1) × (e.1 ≤ share * int 2)) (rebalance c).1
unfolding floor ceil fair
rebalance_bounds c = rebalance_bounds_from c (get_all c.store) refl

-- Reading back.

get-fill_budgets_other :
    (f : NodeState → ℚ) (k : String) (states : List NodeState) (d : Dict String ℚ)
    → elem k (ids states) ≡ false
    → get k (fill_budgets f states d) ≡ get k d
unfolding fill_budgets elem
get-fill_budgets_other f k [] d h = refl
get-fill_budgets_other f k (s ∷ states) d h =
    get-fill_budgets_other f k states _ (ground arith) ∙ get-set k s.node_id (f s) d ∙ ground arith

get-fill_budgets :
    (f : NodeState → ℚ) (states : List NodeState) (d : Dict String ℚ)
    → Distinct (ids states)
    → All (λ s. get s.node_id (fill_budgets f states d) ≡ some (f s)) states
unfolding fill_budgets
get-fill_budgets f [] d h = tt
get-fill_budgets f (s ∷ states) d (h, hs) = (
  get-fill_budgets_other f s.node_id states _ h
      ∙ get-set s.node_id s.node_id (f s) d
      ∙ rw (beq_refl s.node_id) refl,
  get-fill_budgets f states _ hs,
)

set_adopted_keeps :
    (budgets : Dict String ℚ) (id dom : String) (s : NodeState) (store : InMemoryStore)
    → get (id, dom) store.adopted ≡ some (get_or id (int 0) budgets)
    → get
        (id, dom)
        (set (s.node_id, s.domain_name) (get_or s.node_id (int 0) budgets) store.adopted)
      ≡ some (get_or id (int 0) budgets)
set_adopted_keeps budgets id dom s store h =
    let w = get_or s.node_id (int 0) budgets in
    get-set (id, dom) (s.node_id, s.domain_name) w store.adopted
    ∙ (elim (Bool-cases (pair_beq (s.node_id, s.domain_name) (id, dom))) [
      | inl t ↦ rw t (
          ap (λ p. some (get_or p.0 (int 0) budgets))
            ((pair_beq_iff (s.node_id, s.domain_name) (id, dom)).0 t))
      | inr f ↦ rw f h
    ])

-- What is published for a node is not overwritten by another figure.
publish_budgets_keeps :
    (budgets : Dict String ℚ) (id dom : String) (states : List NodeState) (store : InMemoryStore)
    → get (id, dom) store.adopted ≡ some (get_or id (int 0) budgets)
    → get (id, dom) (publish_budgets budgets states store).adopted
      ≡ some (get_or id (int 0) budgets)
unfolding publish_budgets set_adopted_budget
publish_budgets_keeps budgets id dom [] store h = h
publish_budgets_keeps budgets id dom (s ∷ states) store h =
    publish_budgets_keeps budgets id dom states _ (set_adopted_keeps budgets id dom s store h)

pair_beq_refl : (a b : String) → pair_beq (a, b) (a, b) ≡ true
pair_beq_refl a b = (pair_beq_iff (a, b) (a, b)).1 refl

publish_budgets-All :
    (budgets : Dict String ℚ) (states : List NodeState) (store : InMemoryStore)
    → All
        (λ s.
          get (s.node_id, s.domain_name) (publish_budgets budgets states store).adopted
          ≡ some (get_or s.node_id (int 0) budgets))
        states
unfolding publish_budgets set_adopted_budget
publish_budgets-All budgets [] store = tt
publish_budgets-All budgets (s ∷ states) store = (
  publish_budgets_keeps budgets s.node_id s.domain_name states _ (
      get-set (s.node_id, s.domain_name) (s.node_id, s.domain_name) _ store.adopted
      ∙ rw (pair_beq_refl s.node_id s.domain_name) refl),
  publish_budgets-All budgets states _,
)

rebalance-store :
    (c : ClusterCoordinator) (s : NodeState) (rest : List NodeState)
    → get_all c.store ≡ s ∷ rest
    → (rebalance c).0.store ≡ (
        publish_budgets
          (fill_budgets (node_budget c.cluster_budget (s ∷ rest)) (s ∷ rest) [])
          (s ∷ rest)
          c.store)
unfolding rebalance is_empty new_budgets
rebalance-store c s rest e = rw e refl

rebalance_published_from :
    (c : ClusterCoordinator) (states : List NodeState)
    → get_all c.store ≡ states
    → Distinct (ids states)
    → All
        (λ s.
          get (s.node_id, s.domain_name) (rebalance c).0.store.adopted
          ≡ some (node_budget c.cluster_budget states s))
        states
rebalance_published_from c [] e v = tt
rebalance_published_from c (s ∷ rest) e v =
    let states = s ∷ rest in
    let f = node_budget c.cluster_budget states in
    let budgets = fill_budgets f states [] in
    subst (λ st. All (λ x. get (x.node_id, x.domain_name) st.adopted ≡ some (f x)) states)
      (sym (rebalance-store c s rest e))
      (All-zip states (λ x p q. p ∙ ap some (get_or_found x.node_id (int 0) (f x) budgets q))
        (publish_budgets-All budgets states c.store) (get-fill_budgets f states [] v))

-- After a round each node of the store reads back, under its own domain, the budget that the
-- split gives it, for a store in order.
pub rebalance_published :
    (c : ClusterCoordinator)
    → IsStore c.store
    → All
        (λ s.
          get_adopted_budget (rebalance c).0.store s.node_id s.domain_name
          ≡ some (node_budget c.cluster_budget (get_all c.store) s))
        (get_all c.store)
unfolding get_adopted_budget
rebalance_published c v = rebalance_published_from c (get_all c.store) refl (Distinct-ids c.store v)
