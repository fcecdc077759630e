-- ===== src/Operator/Pods.antt =====
-- `_pod_gpu_indices` and `_resolved_assignments`: the GPUs that a Pod names, and what a policy gives
-- them.
pub mod Published
use Prim.Native.Nat.{ℕ}
use Prim.Native.String.{String}
use opendps.Prelude.{
  Bool, true, false, not, ◌&&◌, Option, none, some, List, [], ◌∷◌, ◌++◌, map, if◌then◌else◌,
  nat_leb,
}
use opendps.Num.{ℚ}
use opendps.Dict.{Dict, nat_key, string_key, get, elem}
use opendps.Text.{strip, split_on, is_decimal, to_number}
use opendps.Json.{Json, number, integer, pos, text, object, of_entries}
use opendps.Sort.{sort}
use opendps.Operator.Order.{key_leb}
use opendps.Operator.Api.{Pod}

abbrev pub gpu_indices_annotation : String
gpu_indices_annotation = "opendps.io/gpu-indices"

unfoldable pub prepend_index : ℕ → Option (List ℕ) → Option (List ℕ)
prepend_index index none = none
prepend_index index (some indices) = some (index ∷ indices)

-- The loop over the tokens.
unfoldable pub token_indices : List String → Option (List ℕ)
unfolding prepend_index
token_indices [] = some []
token_indices (item ∷ pieces) =
    let rest = token_indices pieces in
    if is_decimal (strip item) then prepend_index (to_number (strip item)) rest else none

-- `len(indices) == len(set(indices))`
unfoldable pub is_distinct : List ℕ → Bool
is_distinct [] = true
is_distinct (index ∷ indices) = not (elem index indices) && is_distinct indices

unfoldable pub sorted_if_distinct : Option (List ℕ) → Option (List ℕ)
unfolding is_distinct
sorted_if_distinct none = none
sorted_if_distinct (some indices) =
    if is_distinct indices then some (sort nat_leb indices) else none

unfoldable pub parse_indices : String → Option (List ℕ)
unfolding token_indices sorted_if_distinct
parse_indices raw =
    if string_key.beq (strip raw) ""
    then none
    else sorted_if_distinct (token_indices (split_on 44 raw))

-- `_pod_gpu_indices`
unfoldable pub pod_gpu_indices : Pod → Option (List ℕ)
pod_gpu_indices pod = elim (get gpu_indices_annotation pod.annotations) [
  | none ↦ none
  | some raw ↦ parse_indices raw
]

pub record Assignment : Type 0 where
  pub gpu_boost_pct : ℚ
  pub gpu_index : ℕ
  pub node_name : String
  pub pod_uid : String
  pub policy_generation : ℕ
  pub policy_uid : String
  pub priority_class : String

-- The dictionary of the source.
unfoldable pub to_json : Assignment → Json
to_json a = object (
    of_entries (
      ("gpuBoostPct", number a.gpu_boost_pct)
      ∷ ("gpuIndex", integer (pos a.gpu_index))
      ∷ ("nodeName", text a.node_name)
      ∷ ("podUid", text a.pod_uid)
      ∷ ("policyGeneration", integer (pos a.policy_generation))
      ∷ ("policyUid", text a.policy_uid)
      ∷ ("priorityClass", text a.priority_class)
      ∷ []))

-- The policy that is resolved.
pub record Policy : Type 0 where
  pub uid : String
  pub generation : ℕ
  pub priority_class : String
  pub boost_pct : ℚ

unfoldable pub assign : Policy → String → String → ℕ → Assignment
assign policy pod_uid node_name gpu_index = record {
  gpu_boost_pct = policy.boost_pct;
  gpu_index = gpu_index;
  node_name = node_name;
  pod_uid = pod_uid;
  policy_generation = policy.generation;
  policy_uid = policy.uid;
  priority_class = policy.priority_class;
}

-- A missing name counts as an empty one.
unfoldable pub or_empty : Option String → String
or_empty none = ""
or_empty (some s) = s

unfoldable pub assign_all : Policy → String → String → Option (List ℕ) → List Assignment
unfolding assign
assign_all policy pod_uid node_name none = []
assign_all policy pod_uid node_name (some indices) = map (assign policy pod_uid node_name) indices

-- A Pod without a uid or a node is skipped.
unfoldable pub pod_assignments : Policy → Pod → List Assignment
unfolding assign_all pod_gpu_indices or_empty
pod_assignments policy pod =
    if string_key.beq (or_empty pod.uid) ""
    then []
    else if string_key.beq (or_empty pod.node_name) ""
    then []
    else assign_all policy (or_empty pod.uid) (or_empty pod.node_name) (pod_gpu_indices pod)

unfoldable pub all_assignments : Policy → List Pod → List Assignment
unfolding pod_assignments
all_assignments policy [] = []
all_assignments policy (pod ∷ pods) = pod_assignments policy pod ++ all_assignments policy pods

unfoldable pub sort_key : Assignment → String × ℕ × String × String
sort_key a = (a.node_name, a.gpu_index, a.pod_uid, a.policy_uid)

unfoldable pub assignment_leb : Assignment → Assignment → Bool
unfolding sort_key
assignment_leb a b = key_leb nat_leb (sort_key a) (sort_key b)

-- `_resolved_assignments`
unfoldable pub resolved_assignments : List Pod → Policy → List Assignment
unfolding all_assignments assignment_leb
resolved_assignments pods policy = sort assignment_leb (all_assignments policy pods)
