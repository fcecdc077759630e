-- ===== src/Operator/Api.antt =====
-- The Kubernetes client. It is not part of the repository: a record of operations on a state `S`,
-- which holds the cluster and what other clients do to it between the calls.
use Prim.Native.Nat.{ℕ}
use Prim.Native.String.{String}
use opendps.Prelude.{Bool, false, Option, List, nat_beq}
use opendps.Num.{ℚ}
use opendps.Dict.{Dict}
use opendps.Result.{Error, api_error}
use opendps.Op.{Op}

-- `e.status == status`, for an ApiException.
unfoldable pub has_status : ℕ → Error → Bool
has_status status (api_error s) = nat_beq s status
has_status status _ = false

pub record ConfigMap : Type 0 where
  pub name : String
  pub namespace : String
  pub resource_version : Option String
  -- `data`
  pub entries : Dict String String

pub record Pod : Type 0 where
  pub uid : Option String
  pub node_name : Option String
  pub labels : Dict String String
  pub annotations : Dict String String

pub record PolicySpec : Type 0 where
  pub match_labels : Option (Dict String String)
  pub gpu_boost_pct : Option ℚ
  pub priority_class : Option String

-- A JobPowerPolicy.
pub record JobPolicy : Type 0 where
  pub name : Option String
  pub uid : Option String
  pub generation : Option ℕ
  pub spec : PolicySpec

-- `CoreV1Api` and `CustomObjectsApi`; a name comes before its namespace.
pub record Api (S : Type 0) : Type 1 where
  pub read_config_map : String → String → Op S ConfigMap
  pub create_config_map : ConfigMap → Op S (Unit {0})
  pub replace_config_map : ConfigMap → Op S (Unit {0})
  pub patch_data : String → String → Dict String String → Op S (Unit {0})
  pub patch_annotations : String → String → Dict String String → Op S (Unit {0})
  pub delete_config_map : String → String → Op S (Unit {0})
  -- with a label selector
  pub list_pods : String → String → Op S (List Pod)
  pub list_all_pods : String → Op S (List Pod)
  pub list_job_policies : String → Op S (List JobPolicy)
