-- ===== src/Operator/ConfigMaps.antt =====
-- The ConfigMap of a domain: `on_powerdomain_change`, `on_powerdomain_delete`,
-- `on_powerpolicy_change` and what they call. `json.dumps` is the argument `dumps`.
pub mod Landed
use Prim.Native.Nat.{ℕ}
use Prim.Native.String.{String, ◌++◌ as ◌+s◌}
use opendps.Prelude.{Bool, true, false, Option, none, some, List, [], ◌∷◌, ◌++◌, map, if◌then◌else◌}
use opendps.Num.{ℚ, ◌*◌, ◌/◌, int, leb, length}
use opendps.Dict.{Dict, or_default}
use opendps.Result.{permanent_error, temporary_error}
use opendps.Json.{Json, number, integer, pos, text, object, array, of_entries, of_items}
use opendps.Op.{Op, return, throw, ◌>>=◌, ◌>>◌, try, fail_if}
use opendps.Operator.Api.{Api, ConfigMap, has_status}

-- `f"{CONFIG_MAP_NAME}-{domain_name}"`
unfoldable pub domain_map_name : String → String
domain_map_name domain_name = "opendps-topology-" +s domain_name

unfoldable pub build_topology : String → List ℕ → ℚ → ℚ → Json
build_topology domain_name gpu_indices budget_w overhead_w = object (
    of_entries (
      (
        "pdus",
        object (
            of_entries (
              (
                "pdu0",
                object (
                    of_entries (
                      ("name", text "pdu0")
                      ∷ ("capacity_w", number (budget_w * (int 6 / int 5)))
                      ∷ [])),
              )
              ∷ [])),
      )
      ∷ (
        "domains",
        object (
            of_entries (
              (
                domain_name,
                object (
                    of_entries (
                      ("name", text domain_name)
                      ∷ ("pdu_name", text "pdu0")
                      ∷ (
                        "gpu_indices",
                        array (of_items (map (λ index. integer (pos index)) gpu_indices)),
                      )
                      ∷ ("budget_w", number budget_w)
                      ∷ ("node_overhead_w", number overhead_w)
                      ∷ [])),
              )
              ∷ [])),
      )
      ∷ []))

-- The fields of a PowerDomain's `spec`.
pub record DomainSpec : Type 0 where
  pub gpu_indices : Option (List ℕ)
  pub budget_watts : Option ℚ
  pub node_overhead_watts : Option ℚ

-- The fields of a PowerPolicy's `spec`.
pub record PolicySettings : Type 0 where
  pub domain_ref : String
  pub brain : Option String
  pub interval_seconds : Option ℚ
  pub cap_raise_rate : Option ℚ
  pub ewma_alpha : Option ℚ
  pub failsafe_threshold : Option ℚ
  pub failsafe_emergency_cap : Option ℚ

unfoldable pub is_empty : List ℕ → Bool
is_empty [] = true
is_empty (_ ∷ _) = false

-- A parameter that is written only where the `spec` has it.
unfoldable pub optional_param : String → Option ℚ → Dict String Json
optional_param key none = []
optional_param key (some value) = (key, number value) ∷ []

-- The optional parameters come last.
unfoldable pub policy_params : PolicySettings → Json
unfolding optional_param
policy_params spec = object (
    of_entries (
      ("brain", text (or_default "prs" spec.brain))
      ∷ ("interval_s", number (or_default (int 5) spec.interval_seconds))
      ∷ ("cap_raise_rate_w_per_tick", number (or_default (int 50) spec.cap_raise_rate))
      ∷ ("ewma_alpha", number (or_default (int 3 / int 10) spec.ewma_alpha))
      ∷ (optional_param "failsafe_threshold_w" spec.failsafe_threshold
          ++ optional_param "failsafe_emergency_cap_w" spec.failsafe_emergency_cap)))

module _ {S : Type 0} (v1 : Api S) where
  -- The part of `_patch_or_create_cm` for a map that is missing: a create, and a patch again where
  -- another client has created it in between.
  unfoldable pub create_or_patch : String → String → Dict String String → Op S (Unit {0})
  unfolding try throw return has_status
  create_or_patch namespace cm_name entries =
      try
        (v1.create_config_map (record {
          name = cm_name;
          namespace = namespace;
          resource_version = none;
          entries = entries;
        }))
        (λ ce. if has_status 409 ce then v1.patch_data cm_name namespace entries else throw ce)
        (λ _. return tt)

  -- `_patch_or_create_cm`
  unfoldable pub patch_or_create_cm : String → String → Dict String String → Op S (Unit {0})
  unfolding try throw return has_status create_or_patch
  patch_or_create_cm namespace cm_name entries =
      try (v1.patch_data cm_name namespace entries)
        (λ e. if has_status 404 e then create_or_patch namespace cm_name entries else throw e)
        (λ _. return tt)

  unfoldable pub upsert_configmap : (Json → String) → String → String → Json → Op S (Unit {0})
  unfolding patch_or_create_cm domain_map_name
  upsert_configmap dumps namespace domain_name topology =
      patch_or_create_cm namespace (domain_map_name domain_name)
        (("topology.json", dumps topology) ∷ [])

  -- The handler returns the phase that it puts in the status.
  unfoldable pub on_powerdomain_change :
      (Json → String) → DomainSpec → String → String → Op S String
  unfolding upsert_configmap build_topology is_empty or_default ◌>>=◌ ◌>>◌ fail_if return
  on_powerdomain_change dumps spec name namespace =
      let gpu_indices = or_default [] spec.gpu_indices in
      let budget_w = or_default (int 1000) spec.budget_watts in
      let overhead_w = or_default (int 0) spec.node_overhead_watts in
      do
        fail_if (is_empty gpu_indices) permanent_error
        fail_if (leb budget_w (int 0)) permanent_error
        upsert_configmap dumps namespace name (build_topology name gpu_indices budget_w overhead_w)
        return "Active"

  unfoldable pub on_powerdomain_delete : String → String → Op S (Unit {0})
  unfolding try throw return has_status domain_map_name
  on_powerdomain_delete name namespace =
      try (v1.delete_config_map (domain_map_name name) namespace)
        (λ e. if has_status 404 e then return tt else throw e) (λ _. return tt)

  unfoldable pub write_domain_params : (Json → String) → String → String → Json → Op S Bool
  unfolding try throw return has_status domain_map_name
  write_domain_params dumps namespace domain_name params =
      try
        (v1.patch_data (domain_map_name domain_name) namespace (("params.json", dumps params) ∷ []))
        (λ e. if has_status 404 e then throw temporary_error else throw e) (λ _. return true)

  unfoldable pub annotate_domain_configmap : String → String → Dict String String → Op S (Unit {0})
  unfolding try throw return has_status domain_map_name
  annotate_domain_configmap namespace domain_name annotations =
      try (v1.patch_annotations (domain_map_name domain_name) namespace annotations)
        (λ e. if has_status 404 e then return tt else throw e) (λ _. return tt)

  -- `interval_text` is `str(interval)`; the handler returns the status `active`.
  unfoldable pub on_powerpolicy_change :
      (Json → String) → (ℚ → String) → PolicySettings → String → Op S Bool
  unfolding write_domain_params annotate_domain_configmap policy_params or_default ◌>>=◌ ◌>>◌ return
  on_powerpolicy_change dumps interval_text spec namespace = do
    wrote ← write_domain_params dumps namespace spec.domain_ref (policy_params spec)
    annotate_domain_configmap namespace spec.domain_ref (
        ("opendps.io/brain", or_default "prs" spec.brain)
        ∷ ("opendps.io/interval", interval_text (or_default (int 5) spec.interval_seconds))
        ∷ [])
    return wrote
