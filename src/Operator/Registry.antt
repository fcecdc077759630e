-- ===== src/Operator/Registry.antt =====
-- `_aggregate_resolved_assignments` and `_write_boost_registry`: the ConfigMap with one entry for
-- each JobPowerPolicy and the assignments of all of them. `loads` and `dumps` are the `json`
-- functions, and `show` is `str` on what is no text.
pub mod Retry
use Prim.Native.Nat.{ℕ, suc, zero}
use Prim.Native.String.{String, ◌++◌ as ◌+s◌}
use opendps.Prelude.{
  Bool, true, false, not, ◌&&◌, ◌||◌, Option, none, some, List, [], ◌∷◌, ◌++◌, if◌then◌else◌,
  nat_beq,
}
use opendps.Num.{length}
use opendps.Dict.{Dict, string_key, get, set, remove}
use opendps.Result.{Result, Error, ok, raise, attribute_error, temporary_error}
use opendps.Text.{text_leb, ends_with}
use opendps.Json.{
  Json, ℤ, integer, pos, negsuc, text, object, array, items, entries, of_entries, of_items,
  sort_keys, int_leb,
}
use opendps.Sort.{sort}
use opendps.Operator.Order.{key_leb}
use opendps.Op.{Op, return, throw, ◌>>=◌, ◌>>◌, try, lift}
use opendps.Operator.Api.{Api, ConfigMap, has_status}

abbrev pub boost_map_name : String
boost_map_name = "opendps-job-boosts"

abbrev pub assignments_key : String
assignments_key = "resolved-assignments.json"

-- `isinstance(value, dict)`
unfoldable pub objects : List Json → List (Dict String Json)
objects [] = []
objects (object fields ∷ values) = entries fields ∷ objects values
objects (_ ∷ values) = objects values

unfoldable pub assignments_in : Option Json → List (Dict String Json)
unfolding objects
assignments_in (some (array values)) = objects (items values)
assignments_in _ = []

-- What one entry of the registry adds; a value without `get` raises, a text that is no JSON is
-- skipped.
unfoldable pub entry_assignments : Option Json → Result (List (Dict String Json))
unfolding assignments_in
entry_assignments none = ok []
entry_assignments (some (object policy)) = ok (assignments_in (get "assignments" (entries policy)))
entry_assignments (some _) = raise attribute_error

-- A key that holds no policy.
unfoldable pub is_skipped : String → Bool
is_skipped key = string_key.beq key assignments_key || not (ends_with key ".json")

unfoldable pub collected :
    Bool
    → Result (List (Dict String Json))
    → Result (List (Dict String Json))
    → Result (List (Dict String Json))
collected true found rest = rest
collected false (raise e) rest = raise e
collected false (ok found) (raise e) = raise e
collected false (ok found) (ok rest) = ok (found ++ rest)

-- The loop over the entries.
unfoldable pub collect :
    (String → Option Json) → Dict String String → Result (List (Dict String Json))
unfolding is_skipped entry_assignments collected
collect loads [] = ok []
collect loads ((key, raw) ∷ data_of) =
    collected (is_skipped key) (entry_assignments (loads raw)) (collect loads data_of)

-- `str(value.get(key, ""))`
unfoldable pub text_of : (Json → String) → Option Json → String
text_of show none = ""
text_of show (some (text s)) = s
text_of show (some value) = show value

unfoldable pub index_of : Option Json → ℤ
index_of (some (integer n)) = n
index_of _ = negsuc 0

unfoldable pub sort_key : (Json → String) → Dict String Json → String × ℤ × String × String
unfolding text_of index_of
sort_key show value = (
  text_of show (get "nodeName" value),
  index_of (get "gpuIndex" value),
  text_of show (get "podUid" value),
  text_of show (get "policyUid" value),
)

unfoldable pub sorted_by_key : Dict String String → Dict String String
sorted_by_key data_of = sort (λ a b. text_leb a.0 b.0) data_of

unfoldable pub json_objects : List (Dict String Json) → List Json
json_objects [] = []
json_objects (value ∷ values) = object (of_entries value) ∷ json_objects values

-- The payload that the controller reads.
unfoldable pub payload : (Json → String) → List (Dict String Json) → Json
unfolding json_objects sort_key
payload show assignments = object (
    of_entries (
      (
        "assignments",
        array (
            of_items (
              json_objects
                (sort (λ a b. key_leb int_leb (sort_key show a) (sort_key show b)) assignments))),
      )
      ∷ ("schemaVersion", integer (pos 1))
      ∷ []))

unfoldable pub with_payload :
    (Json → String) → (Json → String) → Result (List (Dict String Json)) → Result String
with_payload dumps show (raise e) = raise e
with_payload dumps show (ok assignments) = ok (dumps (sort_keys (payload show assignments)))

-- `_aggregate_resolved_assignments`
unfoldable pub aggregate :
    (String → Option Json) → (Json → String) → (Json → String) → Dict String String → Result String
unfolding collect sorted_by_key with_payload
aggregate loads dumps show data_of = with_payload dumps show (collect loads (sorted_by_key data_of))

-- `data[policy_key] = ...` or `data.pop(policy_key, None)`
unfoldable pub put_entry :
    (Json → String) → String → Option Json → Dict String String → Dict String String
put_entry dumps policy_key none data_of = remove policy_key data_of
put_entry dumps policy_key (some entry) data_of = set policy_key (dumps (sort_keys entry)) data_of

-- Every entry of the first is in the second.
unfoldable pub is_within : Dict String String → Dict String String → Bool
is_within [] d = true
is_within ((key, value) ∷ entries_of) d = elim (get key d) [
  | none ↦ false
  | some w ↦ string_key.beq value w && is_within entries_of d
]

-- `data == original_data`
unfoldable pub same_entries : Dict String String → Dict String String → Bool
unfolding is_within
same_entries a b = nat_beq (length a) (length b) && is_within a b

unfoldable pub with_aggregate : Dict String String → Result String → Result (Dict String String)
with_aggregate data_of (raise e) = raise e
with_aggregate data_of (ok resolved) = ok (set assignments_key resolved data_of)

module _ {S : Type 0} (v1 : Api S) (loads : String → Option Json) (dumps show : Json → String) where
  -- The data with the entry and the assignments of all entries.
  unfoldable pub updated : String → Option Json → Dict String String → Result (Dict String String)
  unfolding put_entry aggregate with_aggregate
  updated policy_key entry data_of =
      let data' = put_entry dumps policy_key entry data_of in
      with_aggregate data' (aggregate loads dumps show data')

  -- After a conflict: another attempt, or the exception that makes kopf call again.
  unfoldable pub retry : ℕ → Op S (Unit {0}) → Error → Op S (Unit {0})
  unfolding has_status throw
  retry later again e =
      if has_status 409 e
      then elim later [ zero ↦ throw temporary_error | suc _ ↦ again ]
      else throw e

  unfoldable pub create_registry :
      ℕ → Op S (Unit {0}) → String → String → Option Json → Op S (Unit {0})
  unfolding updated lift retry try return ◌>>=◌
  create_registry later again namespace policy_key entry = do
    data_of ← lift (updated policy_key entry [])
    try
        (v1.create_config_map (record {
          name = boost_map_name;
          namespace = namespace;
          resource_version = none;
          entries = data_of;
        }))
        (retry later again) (λ _. return tt)

  unfoldable pub replace_registry :
      ℕ → Op S (Unit {0}) → String → String → Option Json → ConfigMap → Op S (Unit {0})
  unfolding updated lift retry try return same_entries ◌>>=◌
  replace_registry later again namespace policy_key entry current = do
    data_of ← lift (updated policy_key entry current.entries)
    if same_entries data_of current.entries
        then return tt
        else try
            (v1.replace_config_map (record {
              name = boost_map_name;
              namespace = namespace;
              resource_version = current.resource_version;
              entries = data_of;
            }))
            (retry later again) (λ _. return tt)

  -- The loop, for the number of attempts that are left.
  unfoldable pub attempts : ℕ → String → String → Option Json → Op S (Unit {0})
  unfolding create_registry replace_registry try has_status throw return
  attempts zero namespace policy_key entry = return tt
  attempts (suc later) namespace policy_key entry =
      let again = attempts later namespace policy_key entry in
      try (v1.read_config_map boost_map_name namespace)
        (λ exc.
          if has_status 404 exc
          then create_registry later again namespace policy_key entry
          else throw exc)
        (replace_registry later again namespace policy_key entry)

  -- `_write_boost_registry`; without an entry, the policy's key goes.
  unfoldable pub write_boost_registry : String → String → Option Json → Op S (Unit {0})
  unfolding attempts
  write_boost_registry namespace policy_name entry =
      attempts 3 namespace (policy_name +s ".json") entry
