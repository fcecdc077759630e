-- ===== src/Operator/Pods/Published.antt =====
-- What the operator publishes for the Pods of a policy, as the controller reads it.
use Prim.Native.Nat.{ℕ}
use Prim.Native.String.{String}
use opendps.Prelude.{
  ◌≡◌, refl, sym, subst, inl, inr, Bool, true, Bool-cases, Option, none, some, List, [], ◌∷◌, ◌++◌,
  map, if◌then◌else◌,
}
use opendps.Num.{All}
use opendps.Dict.{Dict, nat_key, string_key, get, get_or, contains}
use opendps.Result.{ok}
use opendps.Sort.{insert, sort}
use opendps.Json.{of_entries, entries, equals_text}
use opendps.Operator.Api.{Pod}
use opendps.Operator.Pods.{
  Assignment, Policy, to_json, assign, assign_all, pod_assignments, all_assignments, assignment_leb,
  resolved_assignments, pod_gpu_indices, or_empty,
}
use opendps.Controller.PriorityConfig.{
  Candidate, tier_rank, parse_gpu_index, parse_tier, parse_boost, make_candidate, parse_candidate,
  kept, keep_best, select_one, select,
}

All-append : {A : Type 0} (P : A → Type 0) (xs ys : List A) → All P xs → All P ys → All P (xs ++ ys)
All-append P [] ys a b = b
All-append P (x ∷ xs) ys (h, a) b = (h, All-append P xs ys a b)

All-insert :
    {A : Type 0} (P : A → Type 0) (before : A → A → Bool) (x : A) (xs : List A)
    → P x
    → All P xs
    → All P (insert before x xs)
unfolding insert
All-insert P before x [] h a = (h, tt)
All-insert P before x (y ∷ ys) h (k, a) = elim (Bool-cases (before x y)) [
  | inl first ↦ rw first (h, (k, a))
  | inr later ↦ rw later (k, All-insert P before x ys h a)
]

pub All-sort :
    {A : Type 0} (P : A → Type 0) (before : A → A → Bool) (xs : List A)
    → All P xs
    → All P (sort before xs)
unfolding sort
All-sort P before [] a = tt
All-sort P before (x ∷ xs) (h, a) =
    All-insert P before x (sort before xs) h (All-sort P before xs a)

-- An assignment carries the tier and the boost of its policy.
abbrev pub IsOf : Policy → Assignment → Type 0
IsOf policy a = (a.priority_class ≡ policy.priority_class) × (a.gpu_boost_pct ≡ policy.boost_pct)

All-assign :
    (policy : Policy) (pod_uid node_name : String) (indices : List ℕ)
    → All (IsOf policy) (map (assign policy pod_uid node_name) indices)
unfolding assign
All-assign policy uid node [] = tt
All-assign policy uid node (i ∷ indices) = ((refl, refl), All-assign policy uid node indices)

All-assign_all :
    (policy : Policy) (pod_uid node_name : String) (indices : Option (List ℕ))
    → All (IsOf policy) (assign_all policy pod_uid node_name indices)
unfolding assign_all
All-assign_all policy uid node none = tt
All-assign_all policy uid node (some indices) = All-assign policy uid node indices

All-pod_assignments : (policy : Policy) (pod : Pod) → All (IsOf policy) (pod_assignments policy pod)
unfolding pod_assignments
All-pod_assignments policy pod = elim (Bool-cases (string_key.beq (or_empty pod.uid) "")) [
  | inl unnamed ↦ rw unnamed tt
  | inr named ↦ elim (Bool-cases (string_key.beq (or_empty pod.node_name) "")) [
    | inl pending ↦ rw (named, pending) tt
    | inr placed ↦
        rw (named, placed)
          (All-assign_all policy (or_empty pod.uid) (or_empty pod.node_name) (pod_gpu_indices pod))
  ]
]

All-all_assignments :
    (policy : Policy) (pods : List Pod) → All (IsOf policy) (all_assignments policy pods)
unfolding all_assignments
All-all_assignments policy [] = tt
All-all_assignments policy (pod ∷ pods) =
    All-append (IsOf policy) (pod_assignments policy pod) (all_assignments policy pods)
      (All-pod_assignments policy pod) (All-all_assignments policy pods)

pub All-resolved_assignments :
    (policy : Policy) (pods : List Pod) → All (IsOf policy) (resolved_assignments pods policy)
unfolding resolved_assignments
All-resolved_assignments policy pods =
    All-sort (IsOf policy) assignment_leb (all_assignments policy pods)
      (All-all_assignments policy pods)

-- The candidate that the controller makes of an assignment.
abbrev pub candidate_of : Assignment → Candidate
candidate_of a = record {
  rank = get_or a.priority_class 0 tier_rank;
  boost = a.gpu_boost_pct;
  tier = a.priority_class;
}

select_one-to_json :
    (node_name : String) (d : Dict ℕ Candidate) (a : Assignment)
    → contains a.priority_class tier_rank ≡ true
    → select_one node_name d (to_json a)
      ≡ ok (
          if string_key.beq a.node_name node_name
          then keep_best d (a.gpu_index, candidate_of a)
          else d)
unfolding select_one kept parse_candidate make_candidate parse_gpu_index parse_tier parse_boost
    to_json of_entries entries equals_text get
select_one-to_json node d a known = elim (Bool-cases (string_key.beq a.node_name node)) [
  | inl mine ↦ rw (mine, known) refl
  | inr other ↦ rw other refl
]

-- The candidates that a node has from a list of assignments, as the controller is meant to keep them:
-- for each GPU of the node the first of those that no other one beats.
unfoldable pub apply_assignments : String → Dict ℕ Candidate → List Assignment → Dict ℕ Candidate
unfolding keep_best
apply_assignments node_name d [] = d
apply_assignments node_name d (a ∷ as_) =
    apply_assignments node_name
      (if string_key.beq a.node_name node_name
        then keep_best d (a.gpu_index, candidate_of a)
        else d)
      as_

select-to_json :
    (node_name : String) (as_ : List Assignment) (d : Dict ℕ Candidate)
    → All (λ a. contains a.priority_class tier_rank ≡ true) as_
    → select node_name d (map to_json as_) ≡ ok (apply_assignments node_name d as_)
unfolding select apply_assignments
select-to_json node [] d known = refl
select-to_json node (a ∷ as_) d (k, known) = rw (select_one-to_json node d a k) (
    select-to_json node as_
      (if string_key.beq a.node_name node then keep_best d (a.gpu_index, candidate_of a) else d)
      known)

All-known :
    (policy : Policy) (as_ : List Assignment)
    → contains policy.priority_class tier_rank ≡ true
    → All (IsOf policy) as_
    → All (λ a. contains a.priority_class tier_rank ≡ true) as_
All-known policy [] known h = tt
All-known policy (a ∷ as_) known ((t, _), h) =
    (subst (λ t. contains t tier_rank ≡ true) (sym t) known, All-known policy as_ known h)

-- For a policy with a valid tier, the controller accepts every assignment that the operator
-- resolves for any Pods, in its published form, and keeps the candidates that the assignments
-- describe.
pub select-resolved_assignments :
    (policy : Policy) (pods : List Pod) (node_name : String) (d : Dict ℕ Candidate)
    → contains policy.priority_class tier_rank ≡ true
    → select node_name d (map to_json (resolved_assignments pods policy))
      ≡ ok (apply_assignments node_name d (resolved_assignments pods policy))
select-resolved_assignments policy pods node d known =
    select-to_json node (resolved_assignments pods policy) d (
      All-known policy (resolved_assignments pods policy) known
        (All-resolved_assignments policy pods))
