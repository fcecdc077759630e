-- ===== src/Tests/PdnRuns.antt =====
-- The topology model on the demo installation.
use Prim.Native.Nat.{ℕ}
use opendps.Prelude.{◌≡◌, refl, [], ◌∷◌, some, true, false}
use opendps.Num.{ℚ, ◌≤◌, ◌<◌, ◌+◌, ◌-◌, ◌*◌, ◌/◌, int, leb, max, sum, sum_map, All, neg, inv}
use opendps.Dict.{Dict, get, values, string_key, nat_key, filter}
use opendps.Result.{ok}
use opendps.Pdn.Model.{
  rack_of, rack_total, share_of_rack, budget_from, effective_budget, domains_on_rack,
  domains_on_pdu, same_name, validate_allocation, fits_pdu_and_rack, fits_rack, draw_ceiling,
  effective_capacity_w, domain_budget_w, adopt_budget,
}
use opendps.Pdn.Model.RackShare.{IsPhysical, sum-effective_budget-le}
use opendps.Pdn.Model.Adoption.{domain_budget_w-adopt_budget}
use opendps.Pdn.Model.Allocation.{validate_allocation_fits, validate_allocation_fits_rack}
use opendps.Tests.Demo.{d0, d1, pdu0, r0, topology}

topology_rack : rack_of topology (some "r0") ≡ some r0
unfolding rack_of get
topology_rack = refl

d0-IsPhysical : IsPhysical d0
unfolding leb int
d0-IsPhysical = record {
  budget_nonneg = record { holds = refl };
  overhead_nonneg = record { holds = refl };
}

d1-IsPhysical : IsPhysical d1
unfolding leb int
d1-IsPhysical = record {
  budget_nonneg = record { holds = refl };
  overhead_nonneg = record { holds = refl };
}

r0_pos : int 0 < r0.budget_w
unfolding leb int
r0_pos = record { holds = refl }

sum-effective_budget-le_example :
    sum_map (λ d. effective_budget topology d.name d) (domains_on_rack topology (some "r0"))
    ≤ r0.budget_w
unfolding domains_on_rack filter same_name get
sum-effective_budget-le_example =
    sum-effective_budget-le topology "r0" r0 topology_rack r0_pos (refl, (refl, tt))
      (d0-IsPhysical, (d1-IsPhysical, tt))

both-IsPhysical : All IsPhysical (values topology.domains)
both-IsPhysical = (d0-IsPhysical, (d1-IsPhysical, tt))

abbrev caps : Dict ℕ ℚ
caps = (0, int 150) ∷ (1, int 100) ∷ []

caps_accepted : validate_allocation topology "d0" caps ≡ ok true
unfolding validate_allocation fits_pdu_and_rack fits_rack draw_ceiling effective_capacity_w get
    effective_budget budget_from rack_of rack_total domains_on_rack domains_on_pdu same_name
    share_of_rack filter sum sum_map max leb ◌+◌ ◌-◌ ◌*◌ ◌/◌ inv neg int
caps_accepted = refl

too_much : validate_allocation topology "d0" ((0, int 350) ∷ []) ≡ ok false
unfolding validate_allocation fits_pdu_and_rack fits_rack draw_ceiling effective_capacity_w get
    effective_budget budget_from rack_of rack_total domains_on_rack domains_on_pdu same_name
    share_of_rack filter sum sum_map max leb ◌+◌ ◌-◌ ◌*◌ ◌/◌ inv neg int
too_much = refl

caps_pos : int 0 ≤ sum (values caps) + d0.node_overhead_w
unfolding leb int sum ◌+◌
caps_pos = record { holds = refl }

d0_known : get "d0" topology.domains ≡ some d0
unfolding get
d0_known = refl

pdu0_known : get "pdu0" topology.pdus ≡ some pdu0
unfolding get
pdu0_known = refl

validate_allocation_fits_example :
    (sum (values caps) ≤ effective_budget topology "d0" d0)
    × (sum (values caps) + d0.node_overhead_w ≤ effective_capacity_w pdu0)
validate_allocation_fits_example =
    validate_allocation_fits topology "d0" caps d0 pdu0 d0_known refl pdu0_known both-IsPhysical
      caps_pos caps_accepted

validate_allocation_fits_rack_example : sum (values caps) + d0.node_overhead_w ≤ r0.budget_w
validate_allocation_fits_rack_example =
    validate_allocation_fits_rack topology "d0" caps d0 pdu0 r0 d0_known refl pdu0_known
      topology_rack both-IsPhysical caps_pos caps_accepted

domain_budget_w-adopt_budget_example :
    domain_budget_w (adopt_budget topology "d0" (int 250)) "d0"
    ≡ ok (max (int 0) (int 250 - d0.node_overhead_w))
domain_budget_w-adopt_budget_example =
    domain_budget_w-adopt_budget topology "d0" (int 250) d0 d0_known
