-- ===== src/Operator/PodEvents.antt =====
-- `on_pod_event`: the policies are resolved again when a Pod changes that matters to one.
pub mod Events
use Prim.Native.Nat.{ℕ}
use Prim.Native.String.{String}
use opendps.Prelude.{
  Bool, true, false, not, ◌&&◌, ◌||◌, Option, none, some, List, [], ◌∷◌, if◌then◌else◌,
}
use opendps.Num.{ℚ, ◌+◌, int, ltb}
use opendps.Dict.{Dict, string_key, get, set, remove, or_default}
use opendps.Result.{Result}
use opendps.Text.{text_leb, lower_equals}
use opendps.Json.{Json}
use opendps.Sort.{sort}
use opendps.Op.{finally, Op, return, ◌>>=◌, ◌>>◌}
use opendps.Operator.Api.{Api, Pod, JobPolicy}
use opendps.Operator.Pods.{or_empty, gpu_indices_annotation}
use opendps.Operator.Policies.{
  World, Digest, Seen, Selectors, sorted_labels, remote, reconcile_jobpowerpolicy,
}

-- `_pod_assignment_digest`
unfoldable pub pod_digest : Pod → Digest
unfolding sorted_labels
pod_digest pod = record {
  annotation = get gpu_indices_annotation pod.annotations;
  labels = sorted_labels pod.labels;
  node_name = pod.node_name;
}

unfoldable pub same_text : Option String → Option String → Bool
same_text none none = true
same_text (some a) (some b) = string_key.beq a b
same_text _ _ = false

unfoldable pub same_labels : Dict String String → Dict String String → Bool
same_labels [] [] = true
same_labels ((k, v) ∷ a) ((l, w) ∷ b) =
    string_key.beq k l && (string_key.beq v w && same_labels a b)
same_labels _ _ = false

-- `==` on digests.
unfoldable pub same_digest : Digest → Digest → Bool
unfolding same_text same_labels
same_digest a b =
    same_text a.annotation b.annotation
    && (same_labels a.labels b.labels && same_text a.node_name b.node_name)

-- `all(labels.get(key) == value for key, value in selector_items)`
unfoldable pub selects : Dict String String → Dict String String → Bool
selects [] labels = true
selects ((key, value) ∷ selector) labels =
    same_text (get key labels) (some value) && selects selector labels

unfoldable pub any_selects : List (Dict String String) → Dict String String → Bool
unfolding selects
any_selects [] labels = false
any_selects (selector ∷ selectors) labels = selects selector labels || any_selects selectors labels

unfoldable pub is_present : Dict String String → Bool
is_present [] = false
is_present (_ ∷ _) = true

-- The selectors of the policies that have one.
unfoldable pub selectors_of : List JobPolicy → List (Dict String String)
unfolding is_present sorted_labels
selectors_of [] = []
selectors_of (policy ∷ policies) =
    let rest = selectors_of policies in
    let selector = or_default [] policy.spec.match_labels in
    if is_present selector then sorted_labels selector ∷ rest else rest

-- A digest that has been kept for the Pod and mattered then.
unfoldable pub was_relevant : Option Seen → Bool
was_relevant none = false
was_relevant (some seen) = seen.relevant

unfoldable pub is_unchanged : Option Seen → Digest → Bool
unfolding same_digest
is_unchanged none digest = false
is_unchanged (some seen) digest = same_digest seen.digest digest

unfoldable pub policy_leb : JobPolicy → JobPolicy → Bool
unfolding or_empty
policy_leb a b = text_leb (or_empty a.name) (or_empty b.name)

unfoldable pub forget : {S : Type 0} → String → World S → World S
forget pod_uid w = record w { digests = remove pod_uid w.digests }

module _ {S : Type 0} (v1 : Api S) (loads : String → Option Json) (dumps show : Json → String) where
  unfoldable pub cache_selectors :
      String → ℚ → List JobPolicy → Op (World S) (List (Dict String String))
  unfolding selectors_of return
  cache_selectors namespace now policies w = return (selectors_of policies) (record w {
    selector_cache =
        set namespace (record { expires = now + int 5; selectors = selectors_of policies })
          w.selector_cache;
  })

  unfoldable pub fetch_selectors : String → ℚ → Op (World S) (List (Dict String String))
  unfolding cache_selectors remote ◌>>=◌
  fetch_selectors namespace now =
      remote (v1.list_job_policies namespace) >>= cache_selectors namespace now

  unfoldable pub cached_or :
      ℚ
      → Option Selectors
      → Op (World S) (List (Dict String String))
      → Op (World S) (List (Dict String String))
  unfolding return
  cached_or now none fetch = fetch
  cached_or now (some cached) fetch =
      if ltb now cached.expires then return cached.selectors else fetch

  -- `_policy_selectors`, at the time `now`.
  unfoldable pub policy_selectors : String → ℚ → Op (World S) (List (Dict String String))
  unfolding fetch_selectors cached_or
  policy_selectors namespace now w =
      cached_or now (get namespace w.selector_cache) (fetch_selectors namespace now) w

  -- A Pod with the annotation matters whatever the policies select.
  unfoldable pub annotated_or : Option String → Op (World S) Bool → Op (World S) Bool
  unfolding return
  annotated_or none rest = rest
  annotated_or (some _) rest = return true

  unfoldable pub selected_by_any : ℚ → Pod → String → Op (World S) Bool
  unfolding policy_selectors any_selects sorted_labels return ◌>>=◌
  selected_by_any now pod namespace =
      policy_selectors namespace now
      >>= (λ selectors. return (any_selects selectors (sorted_labels pod.labels)))

  -- `_pod_matches_assignment_policy`
  unfoldable pub matches_policy : ℚ → Pod → String → Op (World S) Bool
  unfolding annotated_or selected_by_any is_present return
  matches_policy now pod namespace =
      annotated_or (get gpu_indices_annotation pod.annotations)
        (if is_present pod.labels then selected_by_any now pod namespace else return false)

  unfoldable pub reconcile_each : String → List JobPolicy → Op (World S) (Unit {0})
  unfolding reconcile_jobpowerpolicy or_empty remote return ◌>>=◌ ◌>>◌
  reconcile_each namespace [] = return tt
  reconcile_each namespace (policy ∷ policies) =
      let rest = reconcile_each namespace policies in
      if string_key.beq (or_empty policy.name) "" then rest else (do
        counts ←
            remote
              (reconcile_jobpowerpolicy v1 loads dumps show namespace (or_empty policy.name) policy)
        rest)

  -- `_reconcile_jobpowerpolicies_for_namespace`
  unfoldable pub reconcile_all : String → Op (World S) (Unit {0})
  unfolding reconcile_each policy_leb remote ◌>>=◌
  reconcile_all namespace = do
    policies ← remote (v1.list_job_policies namespace)
    reconcile_each namespace (sort policy_leb policies)

  unfoldable pub reconcile_if : Bool → String → Op (World S) (Unit {0})
  unfolding reconcile_all return
  reconcile_if relevant namespace = if relevant then reconcile_all namespace else return tt

  unfoldable pub remember : String → Digest → Bool → String → Op (World S) (Unit {0})
  unfolding return
  remember pod_uid digest relevant namespace w = return tt (record w {
    digests =
        set pod_uid (record { digest = digest; relevant = relevant; namespace = namespace })
          w.digests;
  })

  -- A Pod that is gone: its digest is dropped whatever happens.
  unfoldable pub on_deleted : ℚ → Pod → String → String → Option Seen → Op (World S) (Unit {0})
  unfolding matches_policy reconcile_if was_relevant finally forget ◌>>=◌
  on_deleted now pod pod_uid namespace previous =
      finally
        (do
          currently_relevant ← matches_policy now pod namespace
          reconcile_if (currently_relevant || was_relevant previous) namespace)
        (forget pod_uid)

  unfoldable pub on_changed : ℚ → Pod → String → String → Option Seen → Op (World S) (Unit {0})
  unfolding is_unchanged matches_policy reconcile_if was_relevant remember pod_digest return ◌>>=◌
      ◌>>◌
  on_changed now pod pod_uid namespace previous =
      if is_unchanged previous (pod_digest pod) then return tt else (do
        relevant ← matches_policy now pod namespace
        reconcile_if (relevant || was_relevant previous) namespace
        remember pod_uid (pod_digest pod) relevant namespace)

  -- `on_pod_event`, for an event with this type and Pod.
  unfoldable pub on_pod_event : ℚ → String → Pod → String → Op (World S) (Unit {0})
  unfolding on_deleted on_changed or_empty return
  on_pod_event now event_type pod namespace w =
      let pod_uid = or_empty pod.uid in
      let previous = get pod_uid w.digests in
      if string_key.beq pod_uid "" || string_key.beq namespace ""
      then return tt w
      else (if lower_equals event_type "deleted"
          then on_deleted now pod pod_uid namespace previous w
          else on_changed now pod pod_uid namespace previous w)
