-- ===== src/Tests/OperatorRuns.antt =====
-- The operator and the priority source, on small clusters.
use Prim.Native.Nat.{ℕ, suc, zero}
use Prim.Native.String.{String}
use opendps.Prelude.{
  ◌≡◌, refl, sym, ap, true, Option, none, some, [], ◌∷◌, List, map, arith, if◌then◌else◌,
}
use opendps.Num.{All, int}
use opendps.Sort.{sort}
use opendps.Text.{text_leb, ends_with, lower_equals}
use opendps.Dict.{
  update, string_key, Distinct, Dict, string_key, nat_key, get, set, keys, remove, update, contains,
  elem,
}
use opendps.Result.{Result, ok, raise, api_error, temporary_error}
use opendps.Json.{Json, null, text, integer, object, array, pos, of_entries, of_items, entries}
use opendps.Brain.Priority.{set_tiers, tier_weights}
use opendps.Controller.PriorityConfig.{Answer, config_map, failed, init, Candidate, select}
use opendps.Controller.PriorityConfig.Polls.{polls, polls-set_tiers}
use opendps.Controller.PriorityConfig.Good.{last_good, polls-last_good}
use opendps.Operator.Api.{has_status, Api, ConfigMap, Pod, JobPolicy}
use opendps.Operator.Pods.{Policy, to_json, resolved_assignments, or_empty}
use opendps.Operator.Pods.Published.{apply_assignments, select-resolved_assignments}
use opendps.Operator.ConfigMaps.{patch_or_create_cm}
use opendps.Operator.ConfigMaps.Landed.{IsLawful, IsLanded, patch_or_create_cm-IsLanded}
use opendps.Operator.Registry.{updated, same_entries, write_boost_registry}
use opendps.Operator.Registry.Retry.{
  Conflict, Success, on_replace, replaced, stop, more, write-Conflicts, write_exhausted,
}
use opendps.Operator.Policies.{World}
use opendps.Operator.PodEvents.{on_pod_event}
use opendps.Operator.PodEvents.Events.{on_pod_event_deleted, on_pod_event-on_pod_event}
use opendps.Tests.WrapperRuns.{tiered}

abbrev no_json : String → Option Json
no_json _ = none

abbrev as_text : Json → String
as_text _ = "x"

abbrev registry : ConfigMap
registry = record {
  name = "opendps-job-boosts";
  namespace = "ops";
  resource_version = some "7";
  entries = ("other.json", "y") ∷ [];
}

abbrev job_policy : JobPolicy
job_policy = record {
  name = some "train";
  uid = some "u1";
  generation = some 2;
  spec = record {
    match_labels = some (("app", "train") ∷ []);
    gpu_boost_pct = some (int 20);
    priority_class = some "high";
  };
}

abbrev pod : Pod
pod = record {
  uid = some "p1";
  node_name = some "n1";
  labels = ("app", "train") ∷ [];
  annotations = ("opendps.io/gpu-indices", "3, 1") ∷ [];
}

-- A cluster with a number of writes that lose before one is accepted.
abbrev replace_at : ℕ → ℕ × Result (Unit {0})
replace_at zero = (zero, ok tt)
replace_at (suc n) = (n, raise (api_error 409))

abbrev contended_api : Api ℕ
contended_api = record {
  read_config_map = λ _ _ s. (s, ok registry);
  create_config_map = λ _ s. (s, ok tt);
  replace_config_map = λ _ s. replace_at s;
  patch_data = λ _ _ _ s. (s, ok tt);
  patch_annotations = λ _ _ _ s. (s, ok tt);
  delete_config_map = λ _ _ s. (s, ok tt);
  list_pods = λ _ _ s. (s, ok (pod ∷ []));
  list_all_pods = λ _ s. (s, ok (pod ∷ []));
  list_job_policies = λ _ s. (s, ok (job_policy ∷ []));
}

abbrev written : Dict String String
written = ("other.json", "y") ∷ ("p.json", "x") ∷ ("resolved-assignments.json", "x") ∷ []

loses :
    (n : ℕ) → Conflict contended_api no_json as_text as_text "ops" "p.json" (some null) (suc n) n
unfolding updated same_entries sort set text_leb ends_with has_status
loses n = on_replace {entries = written} refl refl refl refl refl

wins : Success contended_api no_json as_text as_text "ops" "p.json" (some null) 0 0
unfolding updated same_entries sort set text_leb ends_with
wins = replaced {entries = written} refl refl refl refl

write-Conflicts_example :
    write_boost_registry contended_api no_json as_text as_text "ops" "p" (some null) 2 ≡ (0, ok tt)
write-Conflicts_example =
    write-Conflicts contended_api no_json as_text as_text "ops" "p" (some null) 2 2 0 0
      (omega arith) (more (loses 1) (more (loses 0) stop)) wins

write_exhausted_example :
    write_boost_registry contended_api no_json as_text as_text "ops" "p" (some null) 3
    ≡ (0, raise temporary_error)
write_exhausted_example =
    write_exhausted contended_api no_json as_text as_text "ops" "p" (some null) 3 0
      (more (loses 2) (more (loses 1) (more (loses 0) stop)))

abbrev world : World ℕ
world = record { cluster = 0; digests = []; selector_cache = [] }

abbrev world_after : World ℕ
world_after =
    (on_pod_event contended_api no_json as_text as_text (int 1) "modified" pod "ops" world).0

first_event :
    on_pod_event contended_api no_json as_text as_text (int 1) "modified" pod "ops" world
    ≡ (world_after, ok tt)
unfolding on_pod_event lower_equals get sort set text_leb ends_with
first_event = refl

on_pod_event-on_pod_event_example :
    on_pod_event contended_api no_json as_text as_text (int 9) "modified" pod "ops" world_after
    ≡ (world_after, ok tt)
unfolding lower_equals
on_pod_event-on_pod_event_example =
    on_pod_event-on_pod_event contended_api no_json as_text as_text (int 1) (int 9) "modified" pod
      "ops" world world_after refl first_event

on_pod_event_deleted_example :
    (on_pod_event contended_api no_json as_text as_text (int 1) "DELETED" pod "ops" world).0.digests
    ≡ remove "p1" world.digests
unfolding lower_equals or_empty
on_pod_event_deleted_example =
    on_pod_event_deleted contended_api no_json as_text as_text (int 1) "DELETED" pod "ops" world
      refl refl refl

-- A cluster with one object, which may be missing.
abbrev Object : Type 0
Object = Option (Dict String String)

abbrev patch_object : Dict String String → Object → Object × Result (Unit {0})
patch_object d none = (none, raise (api_error 404))
patch_object d (some old) = (some (update old d), ok tt)

abbrev object_api : Api Object
object_api = record {
  read_config_map = λ _ _ s. (s, raise (api_error 404));
  create_config_map = λ cm _. (some cm.entries, ok tt);
  replace_config_map = λ cm _. (some cm.entries, ok tt);
  patch_data = λ _ _ d s. patch_object d s;
  patch_annotations = λ _ _ _ s. (s, ok tt);
  delete_config_map = λ _ _ _. (none, ok tt);
  list_pods = λ _ _ s. (s, ok []);
  list_all_pods = λ _ s. (s, ok []);
  list_job_policies = λ _ s. (s, ok []);
}

patched_object :
    (d : Dict String String) (s t : Object)
    → patch_object d s ≡ (t, ok tt)
    → (old : Dict String String) × (s ≡ some old) × (t ≡ some (update old d))
patched_object d none t h = let never = ap (λ r. r.1) h in cc
patched_object d (some old) t h = (old, refl, sym (ap (λ r. r.0) h))

abbrev object_laws : IsLawful object_api
object_laws = record {
  data_of = λ s _ _. s;
  patched = λ _ _ d s t h. patched_object d s t h;
  created = λ cm s t h. sym (ap (λ r. r.0) h);
}

abbrev params : Dict String String
params = ("params.json", "x") ∷ ("topology.json", "y") ∷ []

params_distinct : Distinct (keys params)
unfolding elem
params_distinct = (refl, (refl, tt))

created_after : patch_or_create_cm object_api "ops" "domain" params none ≡ (some params, ok tt)
unfolding patch_or_create_cm has_status
created_after = refl

patch_or_create_cm-IsLanded_example :
    IsLanded object_api object_laws "ops" "domain" params params_distinct (some params)
patch_or_create_cm-IsLanded_example =
    patch_or_create_cm-IsLanded object_api object_laws "ops" "domain" params params_distinct none
      (some params) created_after

abbrev policy : Policy
policy = record { uid = "u1"; generation = 2; priority_class = "high"; boost_pct = int 20 }

select-resolved_assignments_example :
    select "n1" [] (map to_json (resolved_assignments (pod ∷ []) policy))
    ≡ ok (apply_assignments "n1" [] (resolved_assignments (pod ∷ []) policy))
unfolding contains elem
select-resolved_assignments_example = select-resolved_assignments policy (pod ∷ []) "n1" [] refl

-- Two assignments for one GPU of the node, and one for another node.
abbrev assignment : String → String → ℕ → Json
assignment node_name tier boost = object (
    of_entries (
      ("gpuIndex", integer (pos 0))
      ∷ ("nodeName", text node_name)
      ∷ ("priorityClass", text tier)
      ∷ ("gpuBoostPct", integer (pos boost))
      ∷ []))

abbrev published : List Json
published = assignment "n1" "normal" 30 ∷ assignment "n1" "high" 5 ∷ assignment "n2" "low" 1 ∷ []

abbrev best : Dict ℕ Candidate
best = (0, record { rank = 2; boost = int 5; tier = "high" }) ∷ []

abbrev json : String → Option Json
json _ = some (
    object (
      of_entries
        (("schemaVersion", integer (pos 1)) ∷ ("assignments", array (of_items published)) ∷ [])))

abbrev answers : List Answer
answers =
    config_map (some "1") (("resolved-assignments.json", "x") ∷ [])
    ∷ failed (some 403)
    ∷ config_map (some "2") []
    ∷ []

abbrev baseline : Dict ℕ String
baseline = (0, "low") ∷ (1, "critical") ∷ []

baseline_known : All (λ e. contains e.1 tier_weights ≡ true) baseline
unfolding contains elem
baseline_known = (refl, (refl, tt))

polls-set_tiers_example :
    set_tiers tiered (polls json (init "n1" baseline) answers).snapshot
    ≡ ok (record tiered { tiers = (polls json (init "n1" baseline) answers).snapshot })
polls-set_tiers_example = polls-set_tiers json "n1" baseline answers tiered baseline_known

-- What the two versions stand for.
abbrev data_at : String → Dict String String
data_at version = if string_key.beq version "1" then ("resolved-assignments.json", "x") ∷ [] else []

polls-last_good_example :
    (polls json (init "n1" baseline) answers).snapshot
    ≡ update baseline (last_good json "n1" [] answers)
polls-last_good_example =
    polls-last_good json "n1" baseline data_at answers (refl, (tt, (refl, tt)))
