-- ===== src/Operator/Registry/Retry.antt =====
-- The attempts of `_write_boost_registry`, as steps from one state of the cluster to the next.
use Prim.Native.Nat.{ℕ, suc, zero, ◌≤◌}
use Prim.Native.String.{String, ◌++◌ as ◌+s◌}
use opendps.Prelude.{◌≡◌, refl, ◌∙◌, true, false, Option, none, [], arith}
use opendps.Dict.{Dict}
use opendps.Result.{Error, ok, raise, temporary_error}
use opendps.Json.{Json}
use opendps.Op.{try, lift, return, throw, ◌>>=◌, ◌>>◌, continue_with, caught_by}
use opendps.Operator.Api.{Api, ConfigMap, has_status}
use opendps.Operator.Registry.{
  boost_map_name, updated, retry, same_entries, create_registry, replace_registry, attempts,
  write_boost_registry,
}

-- The object that a write sends.
unfoldable pub sent : String → Option String → Dict String String → ConfigMap
sent namespace version entries = record {
  name = boost_map_name;
  namespace = namespace;
  resource_version = version;
  entries = entries;
}

module _ {S : Type 0} (v1 : Api S) (loads : String → Option Json) (dumps show : Json → String)
    (namespace policy_key : String) (entry : Option Json) where
  -- An attempt that loses against another writer.
  pub data Conflict : S → S → Type 0 where
    on_create :
        {s t u : S} {e ce : Error} {entries : Dict String String}
        → v1.read_config_map boost_map_name namespace s ≡ (t, raise e)
        → has_status 404 e ≡ true
        → updated v1 loads dumps show policy_key entry [] ≡ ok entries
        → v1.create_config_map (sent namespace none entries) t ≡ (u, raise ce)
        → has_status 409 ce ≡ true
        → Conflict s u
    on_replace :
        {s t u : S} {current : ConfigMap} {e : Error} {entries : Dict String String}
        → v1.read_config_map boost_map_name namespace s ≡ (t, ok current)
        → updated v1 loads dumps show policy_key entry current.entries ≡ ok entries
        → same_entries entries current.entries ≡ false
        → v1.replace_config_map (sent namespace current.resource_version entries) t ≡ (u, raise e)
        → has_status 409 e ≡ true
        → Conflict s u

  -- An attempt that writes the entry, or finds it there.
  pub data Success : S → S → Type 0 where
    created :
        {s t u : S} {e : Error} {entries : Dict String String}
        → v1.read_config_map boost_map_name namespace s ≡ (t, raise e)
        → has_status 404 e ≡ true
        → updated v1 loads dumps show policy_key entry [] ≡ ok entries
        → v1.create_config_map (sent namespace none entries) t ≡ (u, ok tt)
        → Success s u
    replaced :
        {s t u : S} {current : ConfigMap} {entries : Dict String String}
        → v1.read_config_map boost_map_name namespace s ≡ (t, ok current)
        → updated v1 loads dumps show policy_key entry current.entries ≡ ok entries
        → same_entries entries current.entries ≡ false
        → v1.replace_config_map (sent namespace current.resource_version entries) t ≡ (u, ok tt)
        → Success s u
    unchanged :
        {s t : S} {current : ConfigMap} {entries : Dict String String}
        → v1.read_config_map boost_map_name namespace s ≡ (t, ok current)
        → updated v1 loads dumps show policy_key entry current.entries ≡ ok entries
        → same_entries entries current.entries ≡ true
        → Success s t

  -- So many conflicts in a row.
  pub data Conflicts : ℕ → S → S → Type 0 where
    stop : {s : S} → Conflicts zero s s
    more : {n : ℕ} {s t u : S} → Conflict s t → Conflicts n t u → Conflicts (suc n) s u

  after-Conflict :
      (later : ℕ) (s t : S)
      → Conflict s t
      → attempts v1 loads dumps show (suc (suc later)) namespace policy_key entry s
        ≡ attempts v1 loads dumps show (suc later) namespace policy_key entry t
  unfolding attempts create_registry replace_registry retry sent try lift return throw ◌>>=◌ ◌>>◌
      continue_with caught_by
  after-Conflict later s t (on_create read gone made lost status) =
      rw (read, gone, made, lost, status) refl
  after-Conflict later s t (on_replace read made differ lost status) =
      rw (read, made, differ, lost, status) refl

  last-Conflict :
      (s t : S)
      → Conflict s t
      → attempts v1 loads dumps show 1 namespace policy_key entry s ≡ (t, raise temporary_error)
  unfolding attempts create_registry replace_registry retry sent try lift return throw ◌>>=◌ ◌>>◌
      continue_with caught_by
  last-Conflict s t (on_create read gone made lost status) =
      rw (read, gone, made, lost, status) refl
  last-Conflict s t (on_replace read made differ lost status) =
      rw (read, made, differ, lost, status) refl

  on_success :
      (later : ℕ) (s t : S)
      → Success s t
      → attempts v1 loads dumps show (suc later) namespace policy_key entry s ≡ (t, ok tt)
  unfolding attempts create_registry replace_registry retry sent try lift return throw ◌>>=◌ ◌>>◌
      continue_with caught_by
  on_success later s t (created read gone made done) = rw (read, gone, made, done) refl
  on_success later s t (replaced read made differ done) = rw (read, made, differ, done) refl
  on_success later s t (unchanged read made same) = rw (read, made, same) refl

-- After at most two lost attempts in a row, an attempt that writes the registry, or finds the
-- entry there, makes the call return in the state of that attempt.
pub write-Conflicts :
    {S : Type 0} (v1 : Api S) (loads : String → Option Json) (dumps show : Json → String)
    (namespace policy_name : String) (entry : Option Json) (n : ℕ) (s t u : S)
    → n ≤ 2
    → Conflicts v1 loads dumps show namespace (policy_name +s ".json") entry n s t
    → Success v1 loads dumps show namespace (policy_name +s ".json") entry t u
    → write_boost_registry v1 loads dumps show namespace policy_name entry s ≡ (u, ok tt)
unfolding write_boost_registry
write-Conflicts v1 loads dumps show namespace policy_name entry _ s t u few stop done =
    on_success v1 loads dumps show namespace (policy_name +s ".json") entry 2 s u done
write-Conflicts v1 loads dumps show namespace policy_name entry _ s t u few (more a stop) done =
    after-Conflict v1 loads dumps show namespace (policy_name +s ".json") entry 1 s _ a
    ∙ on_success v1 loads dumps show namespace (policy_name +s ".json") entry 1 _ u done
write-Conflicts v1 loads dumps show namespace policy_name entry _ s t u few (more a (more b stop))
      done =
    after-Conflict v1 loads dumps show namespace (policy_name +s ".json") entry 1 s _ a
    ∙ after-Conflict v1 loads dumps show namespace (policy_name +s ".json") entry 0 _ _ b
    ∙ on_success v1 loads dumps show namespace (policy_name +s ".json") entry 0 _ u done
write-Conflicts v1 loads dumps show namespace policy_name entry _ s t u few
      (more a (more b (more c cs))) done =
    absurd (omega arith)

-- After three lost attempts in a row the call raises a TemporaryError in the state of the third.
pub write_exhausted :
    {S : Type 0} (v1 : Api S) (loads : String → Option Json) (dumps show : Json → String)
    (namespace policy_name : String) (entry : Option Json) (s t : S)
    → Conflicts v1 loads dumps show namespace (policy_name +s ".json") entry 3 s t
    → write_boost_registry v1 loads dumps show namespace policy_name entry s
      ≡ (t, raise temporary_error)
unfolding write_boost_registry
write_exhausted v1 loads dumps show namespace policy_name entry s t
      (more a (more b (more c stop))) =
    after-Conflict v1 loads dumps show namespace _ entry 1 s _ a
    ∙ after-Conflict v1 loads dumps show namespace _ entry 0 _ _ b
    ∙ last-Conflict v1 loads dumps show namespace _ entry _ t c
