-- ===== src/Pdn/Quota.antt =====
-- opendps/pdn/quota.py: the tenants' fractions of a domain's budget.
pub mod Validated
use Prim.Native.Nat.{ℕ}
use Prim.Native.String.{String}
use opendps.Prelude.{Bool, true, false, not, ◌&&◌, ◌||◌, List, [], ◌∷◌, ◌++◌}
use opendps.Num.{ℚ, ◌+◌, ◌*◌, ◌/◌, int, leb, ltb, sum_map}
use opendps.Dict.{nat_key, string_key, elem}
use opendps.Result.{Result, ok, raise, ◌>>=◌, ◌>>◌, raise_if, value_error}

pub record TenantQuota : Type 0 where
  pub tenant_id : String
  pub domain_name : String
  pub gpu_indices : List ℕ
  pub max_watts_pct : ℚ

-- The constructor, with `__post_init__`.
unfoldable pub make_tenant : String → String → List ℕ → ℚ → Result TenantQuota
make_tenant tenant_id domain_name gpu_indices max_watts_pct = do
  raise_if (not (ltb (int 0) max_watts_pct && leb max_watts_pct (int 1))) value_error
  ok (record {
    tenant_id = tenant_id;
    domain_name = domain_name;
    gpu_indices = gpu_indices;
    max_watts_pct = max_watts_pct;
  })

pub record QuotaConfig : Type 0 where
  pub domain_name : String
  pub tenants : List TenantQuota

-- A tenant that names another domain.
unfoldable pub has_stray : String → List TenantQuota → Bool
has_stray domain_name [] = false
has_stray domain_name (t ∷ tenants) =
    not (string_key.beq t.domain_name domain_name) || has_stray domain_name tenants

-- `bool(seen & set(gpus))`
unfoldable pub meets : List ℕ → List ℕ → Bool
meets [] seen = false
meets (g ∷ gpus) seen = elem g seen || meets gpus seen

-- The loop over `seen`.
unfoldable pub overlaps : List ℕ → List TenantQuota → Bool
overlaps seen [] = false
overlaps seen (t ∷ tenants) = meets t.gpu_indices seen || overlaps (t.gpu_indices ++ seen) tenants

-- `1.0 + 1e-6`
abbrev pub whole : ℚ
whole = int 1 + int 1 / int 1000000

unfoldable pub validate : QuotaConfig → Result (Unit {0})
validate q = do
  raise_if (has_stray q.domain_name q.tenants) value_error
  raise_if (ltb whole (sum_map (λ t. t.max_watts_pct) q.tenants)) value_error
  raise_if (overlaps [] q.tenants) value_error
  ok tt

unfoldable pub tenant_budget_w : TenantQuota → ℚ → ℚ
tenant_budget_w tenant domain_budget_w = tenant.max_watts_pct * domain_budget_w
