-- ===== src/Pdn/Model/Adoption.antt =====
-- Budgets handed down by a coordinator: adopted, superseding, and released.
use Prim.Native.String.{String}
use opendps.Prelude.{◌≡◌, refl, ap, subst, false, Option, none, some}
use opendps.Num.{ℚ, ◌-◌, int, ◌≤◌, max, le_max_left}
use opendps.Dict.{string_key, get, get-set, beq_refl, get-remove-set}
use opendps.Result.{ok, ◌>>=◌, or_raise, key_error}
use opendps.Pdn.Model.{
  PowerDomain, Rack, PdnTopology, adopt_budget, release_budget, rack_of, rack_total, budget_from,
  effective_budget, domain_budget_w, domains_on_rack,
}

-- After a budget is adopted for a domain of the topology, the domain's budget is the adopted one
-- less the node overhead, and at least zero, whatever its rack says.
pub domain_budget_w-adopt_budget :
    (t : PdnTopology) (n : String) (b : ℚ) (d : PowerDomain)
    → get n t.domains ≡ some d
    → domain_budget_w (adopt_budget t n b) n ≡ ok (max (int 0) (b - d.node_overhead_w))
unfolding domain_budget_w adopt_budget effective_budget
domain_budget_w-adopt_budget t n b d h = rw (h, get-set n n b t.adopted_budget_w, beq_refl n) refl

-- Adopting a budget for one domain leaves the budget of every other domain as it was.
pub domain_budget_w-adopt_budget_other :
    (t : PdnTopology) (n m : String) (b : ℚ)
    → string_key.beq n m ≡ false
    → domain_budget_w (adopt_budget t n b) m ≡ domain_budget_w t m
unfolding domain_budget_w adopt_budget effective_budget rack_of rack_total domains_on_rack
domain_budget_w-adopt_budget_other t n m b h = simp (get-set, h)

-- Releasing a budget that was adopted where none was before gives back the topology.
pub release_budget-adopt_budget :
    (t : PdnTopology) (n : String) (b : ℚ)
    → get n t.adopted_budget_w ≡ none
    → release_budget (adopt_budget t n b) n ≡ t
unfolding release_budget adopt_budget
release_budget-adopt_budget t n b h =
    ap (λ a. record t { adopted_budget_w = a }) (get-remove-set n b t.adopted_budget_w h)

budget_from_nonneg :
    (o : Option ℚ) (rack : Option Rack) (total : ℚ) (d : PowerDomain)
    → int 0 ≤ budget_from o rack total d
unfolding budget_from
budget_from_nonneg none rack total d = le_max_left _ _
budget_from_nonneg (some adopted) rack total d = le_max_left _ _

>>=-nonneg :
    (o : Option PowerDomain) (f : PowerDomain → ℚ) {b : ℚ}
    → ((d : PowerDomain) → int 0 ≤ f d)
    → (or_raise key_error o >>= λ d. ok (f d)) ≡ ok b
    → int 0 ≤ b
>>=-nonneg none f {b} p h = cc
>>=-nonneg (some d) f {b} p h = let e : f d ≡ b = cc in subst (λ x. int 0 ≤ x) e (p d)

-- No domain's budget is negative, whatever the configuration and the adopted budgets.
pub domain_budget_w_nonneg :
    (t : PdnTopology) (n : String) {b : ℚ} → domain_budget_w t n ≡ ok b → int 0 ≤ b
unfolding domain_budget_w effective_budget
domain_budget_w_nonneg t n h =
    >>=-nonneg (get n t.domains) (effective_budget t n)
      (λ d.
        budget_from_nonneg (get n t.adopted_budget_w) (rack_of t d.rack_name)
          (rack_total t d.rack_name) d)
      h
