-- ===== src/Operator/Policies.antt =====
-- The JobPowerPolicy handlers: a policy is resolved to its Pods, and published.
use Prim.Native.Nat.{ℕ}
use Prim.Native.String.{String, ◌++◌ as ◌+s◌}
use opendps.Prelude.{
  Bool, true, not, ◌||◌, Option, none, some, List, [], ◌∷◌, map, if◌then◌else◌, nat_beq,
}
use opendps.Num.{ℚ, int, ltb, length}
use opendps.Dict.{Dict, string_key, elem, remove, or_default, filter}
use opendps.Result.{Error, temporary_error}
use opendps.Text.{text_leb}
use opendps.Json.{Json, integer, pos, number, text, object, array, of_entries, of_items}
use opendps.Sort.{sort}
use opendps.Op.{Op, return, throw, ◌>>=◌, ◌>>◌, try}
use opendps.Operator.Api.{Api, Pod, JobPolicy, has_status}
use opendps.Operator.Pods.{Assignment, resolved_assignments, to_json, or_empty}
use opendps.Operator.Registry.{write_boost_registry}

-- The relevant fields of a Pod: its annotation, its labels in order, and its node.
pub record Digest : Type 0 where
  pub annotation : Option String
  pub labels : Dict String String
  pub node_name : Option String

-- What `_POD_ASSIGNMENT_DIGESTS` keeps for a uid.
pub record Seen : Type 0 where
  pub digest : Digest
  pub relevant : Bool
  pub namespace : String

-- What `_POLICY_SELECTOR_CACHE` keeps for a namespace.
pub record Selectors : Type 0 where
  pub expires : ℚ
  pub selectors : List (Dict String String)

-- The state of the operator, beside the cluster's.
pub record World (S : Type 0) : Type 0 where
  pub cluster : S
  pub digests : Dict String Seen
  pub selector_cache : Dict String Selectors

unfoldable pub within : {S A : Type 0} → World S → S × A → World S × A
within w (s, a) = (record w { cluster = s }, a)

-- A call of the API leaves the operator's own state alone.
unfoldable pub remote : {S A : Type 0} → Op S A → Op (World S) A
unfolding within
remote call w = within w (call w.cluster)

-- `_invalidate_policy_selector_cache`
unfoldable pub invalidate_selectors : {S : Type 0} → String → Op (World S) (Unit {0})
unfolding return
invalidate_selectors namespace w =
    return tt (record w { selector_cache = remove namespace w.selector_cache })

-- `",".join(f"{key}={value}" ...)`
unfoldable pub join_labels : Dict String String → String
join_labels [] = ""
join_labels ((key, value) ∷ []) = key +s "=" +s value
join_labels ((key, value) ∷ label ∷ labels) =
    key +s "=" +s value +s "," +s join_labels (label ∷ labels)

unfoldable pub sorted_labels : Dict String String → Dict String String
sorted_labels labels = sort (λ a b. text_leb a.0 b.0) labels

-- A status that is passed on as it is.
unfoldable pub is_final : Error → Bool
unfolding has_status
is_final e = has_status 401 e || has_status 403 e || has_status 404 e || has_status 422 e

unfoldable pub labels_json : Dict String String → Dict String Json
labels_json [] = []
labels_json ((key, value) ∷ labels) = (key, text value) ∷ labels_json labels

-- The entry of the registry.
unfoldable pub entry_json : Dict String String → ℚ → String → ℕ → List Assignment → Json
unfolding labels_json to_json
entry_json match_labels boost_pct priority matched resolved = object (
    of_entries (
      ("matchLabels", object (of_entries (labels_json match_labels)))
      ∷ ("gpu_boost_pct", number boost_pct)
      ∷ ("priority", text priority)
      ∷ ("matched_pods", integer (pos matched))
      ∷ ("assignments", array (of_items (map to_json resolved)))
      ∷ ("schemaVersion", integer (pos 1))
      ∷ []))

-- The part of `status` that the handlers compare and write.
pub record Status : Type 0 where
  pub matched_pods : Option ℕ
  pub active_boosts : Option ℕ

unfoldable pub differs : Option ℕ → ℕ → Bool
differs none n = true
differs (some m) n = not (nat_beq m n)

unfoldable pub if_changed : Option ℕ → ℕ → Option ℕ
unfolding differs
if_changed current n = if differs current n then some n else none

-- `stale`, negated: an entry of another namespace, or of a Pod that lives.
unfoldable pub is_kept : String → List String → String × Seen → Bool
is_kept namespace live_uids entry =
    not (string_key.beq (entry.1).namespace namespace) || elem entry.0 live_uids

-- The uids that are set.
unfoldable pub uids_of : List Pod → List String
unfolding or_empty
uids_of [] = []
uids_of (pod ∷ pods) =
    let rest = uids_of pods in
    if string_key.beq (or_empty pod.uid) "" then rest else or_empty pod.uid ∷ rest

module _ {S : Type 0} (v1 : Api S) (loads : String → Option Json) (dumps show : Json → String) where
  unfoldable pub list_matching_pods : String → Dict String String → Op S (List Pod)
  unfolding try throw return is_final join_labels sorted_labels
  list_matching_pods namespace [] = return []
  list_matching_pods namespace (label ∷ labels) =
      try (v1.list_pods namespace (join_labels (sorted_labels (label ∷ labels))))
        (λ e. if is_final e then throw e else throw temporary_error) return

  unfoldable pub count_matching_pods : String → Dict String String → Op S ℕ
  unfolding list_matching_pods ◌>>=◌ return
  count_matching_pods namespace match_labels = do
    pods ← list_matching_pods namespace match_labels
    return (length pods)

  -- `_reconcile_jobpowerpolicy`, for a policy with a name; it returns the numbers of matched Pods
  -- and of active boosts.
  unfoldable pub reconcile_jobpowerpolicy : String → String → JobPolicy → Op S (ℕ × ℕ)
  unfolding list_matching_pods resolved_assignments write_boost_registry entry_json or_default
      or_empty ◌>>=◌ ◌>>◌ return
  reconcile_jobpowerpolicy namespace name policy =
      let match_labels = or_default [] policy.spec.match_labels in
      let boost_pct = or_default (int 15) policy.spec.gpu_boost_pct in
      let priority = or_default "normal" policy.spec.priority_class in
      do
        pods ← list_matching_pods namespace match_labels
        let matched = length pods
        let resolved = resolved_assignments pods (record {
          uid = or_empty policy.uid;
          generation = or_default 0 policy.generation;
          priority_class = priority;
          boost_pct = boost_pct;
        })
        write_boost_registry v1 loads dumps show namespace name
            (some (entry_json match_labels boost_pct priority matched resolved))
        return (matched, if ltb (int 0) boost_pct then matched else 0)

  -- The handlers return what they put in the status.
  unfoldable pub on_jobpowerpolicy_change : String → String → JobPolicy → Op (World S) (ℕ × ℕ)
  unfolding invalidate_selectors reconcile_jobpowerpolicy remote ◌>>◌ ◌>>=◌
  on_jobpowerpolicy_change namespace name policy =
      invalidate_selectors namespace >> remote (reconcile_jobpowerpolicy namespace name policy)

  unfoldable pub on_jobpowerpolicy_delete : String → String → Op (World S) (Unit {0})
  unfolding invalidate_selectors write_boost_registry remote ◌>>◌ ◌>>=◌
  on_jobpowerpolicy_delete namespace name =
      invalidate_selectors namespace
      >> remote (write_boost_registry v1 loads dumps show namespace name none)

  -- The digests without those of Pods of the namespace that are gone.
  unfoldable pub keep_live : String → List Pod → Op (World S) (Unit {0})
  unfolding return is_kept uids_of filter
  keep_live namespace pods w =
      return tt (record w { digests = filter (is_kept namespace (uids_of pods)) w.digests })

  unfoldable pub prune_digests : String → Op (World S) (Unit {0})
  unfolding keep_live remote ◌>>=◌
  prune_digests namespace = remote (v1.list_all_pods namespace) >>= keep_live namespace

  -- The timer writes the numbers that have changed.
  unfoldable pub resync_jobpowerpolicy :
      String → String → Status → JobPolicy → Op (World S) (Option ℕ × Option ℕ)
  unfolding reconcile_jobpowerpolicy prune_digests if_changed remote return ◌>>=◌ ◌>>◌
  resync_jobpowerpolicy namespace name current policy = do
    counts ← remote (reconcile_jobpowerpolicy namespace name policy)
    prune_digests namespace
    return (if_changed current.matched_pods counts.0, if_changed current.active_boosts counts.1)
