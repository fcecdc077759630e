-- ===== src/Controller/PriorityConfig.antt =====
-- opendps/controller/priority_config.py: the tiers that the operator publishes in a ConfigMap.
-- `json.loads` is the argument `loads`; what the Kubernetes API answers is an argument of `poll`.
pub mod Parsed
pub mod Polls
pub mod Good
pub mod Best
use Prim.Native.Nat.{ℕ}
use Prim.Native.String.{String}
use opendps.Prelude.{
  Bool, true, false, not, ◌&&◌, ◌||◌, Option, none, some, List, [], ◌∷◌, if◌then◌else◌, nat_leb,
  nat_beq,
}
use opendps.Num.{ℚ, int, ltb}
use opendps.Dict.{Dict, nat_key, string_key, get, get_or, set, contains, update, map_values, elem}
use opendps.Result.{Result, ok, raise, ◌>>=◌, ◌>>◌, raise_if, value_error, type_error}
use opendps.Text.{strip, lower_equals}
use opendps.Json.{
  Json, Items, integer, number, text, array, object, pos, negsuc, of_int, items, entries,
  equals_int, equals_text,
}

-- `VALID_TIERS` and `TIER_RANK`
abbrev pub tier_rank : Dict String ℕ
tier_rank = ("low", 0) ∷ ("normal", 1) ∷ ("high", 2) ∷ ("critical", 3) ∷ []

-- The switch and the node's name, from the variables of the environment.
unfoldable pub dynamic_priority_config_from_env : Dict String String → Result (Bool × Option String)
dynamic_priority_config_from_env env =
    let raw = strip (get_or "OPENDPS_PRIORITY_CONFIG_ENABLED" "false" env) in
    let node_name = strip (get_or "OPENDPS_NODE_NAME" "" env) in
    if lower_equals raw "true"
    then (if string_key.beq node_name "" then raise value_error else ok (true, some node_name))
    else (if lower_equals raw "false" then ok (false, none) else raise value_error)

-- The state of a `PriorityConfigSource`.
pub record PriorityConfigSource : Type 0 where
  pub node_name : String
  pub baseline : Dict ℕ String
  pub snapshot : Dict ℕ String
  pub resource_version : Option String
  pub reported_unavailable : Bool

unfoldable pub init : String → Dict ℕ String → PriorityConfigSource
init node_name baseline = record {
  node_name = node_name;
  baseline = baseline;
  snapshot = baseline;
  resource_version = none;
  reported_unavailable = false;
}

-- A `candidate`: the rank of the tier, the boost and the tier.
pub record Candidate : Type 0 where
  pub rank : ℕ
  pub boost : ℚ
  pub tier : String

-- `a[:2] < b[:2]`
unfoldable pub below : Candidate → Candidate → Bool
below a b = not (nat_leb b.rank a.rank) || nat_beq a.rank b.rank && ltb a.boost b.boost

-- `current is None or candidate[:2] > current[:2]`
unfoldable pub wins : Candidate → Option Candidate → Bool
unfolding below
wins candidate none = true
wins candidate (some current) = below current candidate

unfoldable pub parse_gpu_index : Option Json → Result ℕ
parse_gpu_index (some (integer (pos n))) = ok n
parse_gpu_index _ = raise value_error

-- A list or an object is no member of a `frozenset`: it has no hash.
unfoldable pub parse_tier : Option Json → Result String
parse_tier (some (text tier)) = if contains tier tier_rank then ok tier else raise value_error
parse_tier (some (array _)) = raise type_error
parse_tier (some (object _)) = raise type_error
parse_tier _ = raise value_error

unfoldable pub parse_boost : Option Json → Result ℚ
parse_boost (some (integer n)) = ok (of_int n)
parse_boost (some (number q)) = ok q
parse_boost _ = raise value_error

-- The three fields are checked in this order.
unfoldable pub make_candidate : Result ℕ → Result String → Result ℚ → Result (ℕ × Candidate)
make_candidate (raise e) tier boost = raise e
make_candidate (ok gpu_index) (raise e) boost = raise e
make_candidate (ok gpu_index) (ok tier) (raise e) = raise e
make_candidate (ok gpu_index) (ok tier) (ok boost) =
    ok (gpu_index, record { rank = get_or tier 0 tier_rank; boost = boost; tier = tier })

-- The GPU and the candidate of an assignment of this node.
unfoldable pub parse_candidate : Dict String Json → Result (ℕ × Candidate)
unfolding parse_gpu_index parse_tier parse_boost make_candidate
parse_candidate assignment =
    make_candidate (parse_gpu_index (get "gpuIndex" assignment))
      (parse_tier (get "priorityClass" assignment)) (parse_boost (get "gpuBoostPct" assignment))

unfoldable pub keep_best : Dict ℕ Candidate → ℕ × Candidate → Dict ℕ Candidate
unfolding wins
keep_best selected (gpu_index, candidate) =
    if wins candidate (get gpu_index selected) then set gpu_index candidate selected else selected

unfoldable pub kept : Dict ℕ Candidate → Result (ℕ × Candidate) → Result (Dict ℕ Candidate)
unfolding keep_best
kept selected (raise e) = raise e
kept selected (ok candidate) = ok (keep_best selected candidate)

-- An assignment for another node is skipped before it is checked.
unfoldable pub select_one : String → Dict ℕ Candidate → Json → Result (Dict ℕ Candidate)
unfolding parse_candidate kept
select_one node_name selected (object fields) =
    if equals_text node_name (get "nodeName" (entries fields))
    then kept selected (parse_candidate (entries fields))
    else ok selected
select_one node_name selected _ = raise value_error

-- The loop of `_parse`.
unfoldable pub select : String → Dict ℕ Candidate → List Json → Result (Dict ℕ Candidate)
unfolding select_one
select node_name selected [] = ok selected
select node_name selected (assignment ∷ assignments) =
    select_one node_name selected assignment >>= (λ kept. select node_name kept assignments)

-- `{gpu: candidate[2] for gpu, candidate in selected.items()}`
unfoldable pub tiers_of : Dict ℕ Candidate → Dict ℕ String
tiers_of selected = map_values (λ _ candidate. candidate.tier) selected

unfoldable pub parse_assignments : String → Option Json → Result (Dict ℕ Candidate)
unfolding select
parse_assignments node_name (some (array assignments)) = select node_name [] (items assignments)
parse_assignments node_name _ = raise value_error

unfoldable pub tiers_or_raise : Result (Dict ℕ Candidate) → Result (Dict ℕ String)
unfolding tiers_of
tiers_or_raise (raise e) = raise e
tiers_or_raise (ok selected) = ok (tiers_of selected)

unfoldable pub parse_payload : String → Option Json → Result (Dict ℕ String)
unfolding parse_assignments tiers_or_raise
parse_payload node_name (some (object payload)) =
    if equals_int 1 (get "schemaVersion" (entries payload))
    then tiers_or_raise (parse_assignments node_name (get "assignments" (entries payload)))
    else raise value_error
parse_payload node_name _ = raise value_error

-- `_parse`; a text that is no JSON raises a JSONDecodeError, which is a ValueError.
unfoldable pub parse : (String → Option Json) → String → Option String → Result (Dict ℕ String)
unfolding parse_payload
parse loads node_name none = raise value_error
parse loads node_name (some raw) = parse_payload node_name (loads raw)

-- What a read of the ConfigMap comes to: there is no client, an exception with the status that it
-- has, if any, or the resource version and the data.
pub data Answer : Type 0 where
  no_client : Answer
  failed : Option ℕ → Answer
  config_map : Option String → Dict String String → Answer

-- `resource_version and resource_version == self._resource_version`
unfoldable pub is_current : Option String → Option String → Bool
is_current (some version) (some known) =
    not (string_key.beq version "") && string_key.beq version known
is_current _ _ = false

unfoldable pub poll_failed : PriorityConfigSource → Option ℕ → PriorityConfigSource
poll_failed source none = source
poll_failed source (some status) =
    if nat_beq status 404
    then record source { resource_version = none; snapshot = source.baseline }
    else (if nat_beq status 401 || nat_beq status 403
        then record source { reported_unavailable = true }
        else source)

-- What `poll` does with the outcome of `_parse`.
unfoldable pub apply_parsed :
    PriorityConfigSource → Option String → Result (Dict ℕ String) → PriorityConfigSource
apply_parsed source version (raise _) = record source { reported_unavailable = true }
apply_parsed source version (ok dynamic) = record source {
  snapshot = update source.baseline dynamic;
  resource_version = version;
  reported_unavailable = false;
}

-- `poll`; it returns the new snapshot.
unfoldable pub poll : (String → Option Json) → PriorityConfigSource → Answer → PriorityConfigSource
unfolding poll_failed is_current apply_parsed parse
poll loads source no_client = record source { reported_unavailable = true }
poll loads source (failed status) = poll_failed source status
poll loads source (config_map version data_of) =
    if is_current version source.resource_version
    then record source { reported_unavailable = false }
    else apply_parsed source version
        (parse loads source.node_name (get "resolved-assignments.json" data_of))
