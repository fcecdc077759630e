-- ===== src/Pdn/Quota/Validated.antt =====
-- Validated configurations.
use Prim.Native.Nat.{ℕ}
use Prim.Native.String.{String}
use opendps.Prelude.{◌≡◌, refl, sym, ◌∙◌, Bool, true, false, not, ◌||◌, List, [], ◌∷◌, ◌++◌, arith}
use opendps.Num.{ℚ, ◌*◌, int, ltb, ◌≤◌, sum_map, sum_map-mul, All, All-imp, mul_le_mul_right}
use opendps.Dict.{nat_key, string_key, elem}
use opendps.Result.{Result, ok, raise_if, value_error, ◌>>◌, raise-ne-ok}
use opendps.Pdn.Quota.{
  TenantQuota, QuotaConfig, has_stray, meets, overlaps, whole, validate, tenant_budget_w,
}

-- The GPUs of each tenant are in no later tenant.
abbrev pub Disjoint : List TenantQuota → Type 0
Disjoint [] = Unit
Disjoint (t ∷ tenants) =
    All (λ u. meets u.gpu_indices t.gpu_indices ≡ false) tenants × Disjoint tenants

record Checks (q : QuotaConfig) : Type 0 where
  at_home : has_stray q.domain_name q.tenants ≡ false
  in_total : ltb whole (sum_map (λ t. t.max_watts_pct) q.tenants) ≡ false
  apart : overlaps [] q.tenants ≡ false

abbrev passed : Result (Unit {0})
passed = ok tt

three_checks :
    (a b c : Bool)
    → (raise_if a value_error >> (raise_if b value_error >> (raise_if c value_error >> passed)))
      ≡ passed
    → (a ≡ false) × ((b ≡ false) × (c ≡ false))
three_checks true b c h = absurd (raise-ne-ok h)
three_checks false true c h = absurd (raise-ne-ok h)
three_checks false false true h = absurd (raise-ne-ok h)
three_checks false false false h = (refl, (refl, refl))

validate-Checks : (q : QuotaConfig) → validate q ≡ ok tt → Checks q
unfolding validate
validate-Checks q h =
    let p =
      three_checks (has_stray q.domain_name q.tenants)
        (ltb whole (sum_map (λ t. t.max_watts_pct) q.tenants)) (overlaps [] q.tenants) h in
    record { at_home = p.0; in_total = p.1.0; apart = p.1.1 }

-- In a validated configuration the tenants' budgets add up to at most the domain's, with the
-- tolerance of the check, for a budget that is not negative.
pub sum-tenant_budget_w-le :
    (q : QuotaConfig) (budget : ℚ)
    → validate q ≡ ok tt
    → int 0 ≤ budget
    → sum_map (λ t. tenant_budget_w t budget) q.tenants ≤ whole * budget
unfolding tenant_budget_w
sum-tenant_budget_w-le q budget h p =
    rw (sum_map-mul (λ t. t.max_watts_pct) budget q.tenants) (
      mul_le_mul_right budget p (record { holds = ground (arith, (validate-Checks q h).in_total) }))

pub elem-append : (g : ℕ) (xs ys : List ℕ) → elem g (xs ++ ys) ≡ (elem g xs || elem g ys)
unfolding elem
elem-append g [] ys = refl
elem-append g (x ∷ xs) ys = ground (arith, elem-append g xs ys)

meets-append : (gs xs ys : List ℕ) → meets gs (xs ++ ys) ≡ (meets gs xs || meets gs ys)
unfolding meets
meets-append [] xs ys = refl
meets-append (g ∷ gs) xs ys = ground (arith, elem-append g xs ys, meets-append gs xs ys)

or_false : (a b : Bool) → (a || b) ≡ false → (a ≡ false) × (b ≡ false)
or_false a b h = (ground arith, ground arith)

meets-both :
    (u t : TenantQuota) (seen : List ℕ)
    → meets u.gpu_indices (t.gpu_indices ++ seen) ≡ false
    → (meets u.gpu_indices t.gpu_indices ≡ false) × (meets u.gpu_indices seen ≡ false)
meets-both u t seen e =
    or_false (meets u.gpu_indices t.gpu_indices) (meets u.gpu_indices seen)
      (sym (meets-append u.gpu_indices t.gpu_indices seen) ∙ e)

overlaps-Disjoint :
    (seen : List ℕ) (tenants : List TenantQuota)
    → overlaps seen tenants ≡ false
    → All (λ u. meets u.gpu_indices seen ≡ false) tenants × Disjoint tenants
unfolding overlaps
overlaps-Disjoint seen [] h = (tt, tt)
overlaps-Disjoint seen (t ∷ tenants) h =
    let now = or_false (meets t.gpu_indices seen) (overlaps (t.gpu_indices ++ seen) tenants) h in
    let later = overlaps-Disjoint (t.gpu_indices ++ seen) tenants now.1 in
    (
      (now.0, All-imp (λ u e. (meets-both u t seen e).1) tenants later.0),
      (All-imp (λ u e. (meets-both u t seen e).0) tenants later.0, later.1),
    )

at_home :
    (n : String) (tenants : List TenantQuota)
    → has_stray n tenants ≡ false
    → All (λ t. t.domain_name ≡ n) tenants
unfolding has_stray
at_home n [] h = tt
at_home n (t ∷ tenants) h =
    let p = or_false (not (string_key.beq t.domain_name n)) (has_stray n tenants) h in
    ((string_key.beq_iff t.domain_name n).0 (ground (arith, p.0)), at_home n tenants p.1)

-- In a validated configuration no GPU belongs to two tenants, and every tenant names the domain
-- of the configuration.
pub validate-Disjoint :
    (q : QuotaConfig)
    → validate q ≡ ok tt
    → Disjoint q.tenants × All (λ t. t.domain_name ≡ q.domain_name) q.tenants
validate-Disjoint q h =
    let c = validate-Checks q h in
    ((overlaps-Disjoint [] q.tenants c.apart).1, at_home q.domain_name q.tenants c.at_home)
