-- ===== src/Pdn/Model.antt =====
-- opendps/pdn/model.py: power domains, PDUs and racks, and the budget of a domain.
pub mod RackShare
pub mod Adoption
pub mod Allocation
use Prim.Native.Nat.{ℕ, ◌+◌ as add}
use Prim.Native.String.{String}
use opendps.Prelude.{Bool, true, false, not, ◌&&◌, Option, none, some, List, [], ◌∷◌, if◌then◌else◌}
use opendps.Num.{ℚ, ◌+◌, ◌-◌, ◌*◌, ◌/◌, int, leb, ltb, max, sum_map, sum}
use opendps.Dict.{Dict, string_key, get, set, remove, contains, values, filter, length, Key}
use opendps.Result.{Result, ok, raise, ◌>>=◌, or_raise, key_error, zero_division}

pub record PowerDomain : Type 0 where
  pub name : String
  pub budget_w : ℚ
  pub gpu_indices : List ℕ
  pub pdu_name : String
  pub priority : ℕ
  pub node_overhead_w : ℚ
  pub rack_name : Option String

unfoldable pub available_gpu_budget_w : PowerDomain → ℚ
available_gpu_budget_w d = max (int 0) (d.budget_w - d.node_overhead_w)

pub record Pdu : Type 0 where
  pub name : String
  pub capacity_w : ℚ
  pub derating : ℚ

unfoldable pub effective_capacity_w : Pdu → ℚ
effective_capacity_w p = p.capacity_w * p.derating

pub record Rack : Type 0 where
  pub name : String
  pub budget_w : ℚ

pub record PdnTopology : Type 0 where
  pub pdus : Dict String Pdu
  pub domains : Dict String PowerDomain
  pub racks : Dict String Rack
  pub adopted_budget_w : Dict String ℚ

unfoldable pub adopt_budget : PdnTopology → String → ℚ → PdnTopology
adopt_budget t domain_name budget_w = record t {
  adopted_budget_w = set domain_name budget_w t.adopted_budget_w;
}

unfoldable pub release_budget : PdnTopology → String → PdnTopology
release_budget t domain_name = record t { adopted_budget_w = remove domain_name t.adopted_budget_w }

-- `==` on optional names.
unfoldable pub same_name : Option String → Option String → Bool
same_name none none = true
same_name none (some _) = false
same_name (some _) none = false
same_name (some a) (some b) = string_key.beq a b

unfoldable pub domains_on_pdu : PdnTopology → String → List PowerDomain
domains_on_pdu t pdu_name = filter (λ d. string_key.beq d.pdu_name pdu_name) (values t.domains)

unfoldable pub domains_on_rack : PdnTopology → Option String → List PowerDomain
unfolding same_name
domains_on_rack t rack_name = filter (λ d. same_name d.rack_name rack_name) (values t.domains)

-- An empty rack name counts as none.
unfoldable pub rack_of : PdnTopology → Option String → Option Rack
rack_of t none = none
rack_of t (some r) = if string_key.beq r "" then none else get r t.racks

unfoldable pub rack_for_domain : PdnTopology → String → Result (Option Rack)
rack_for_domain t domain_name = do
  domain ← or_raise key_error (get domain_name t.domains)
  ok (rack_of t domain.rack_name)

unfoldable pub pdu_for_domain : PdnTopology → String → Result Pdu
pdu_for_domain t domain_name = do
  domain ← or_raise key_error (get domain_name t.domains)
  or_raise key_error (get domain.pdu_name t.pdus)

-- `sum(d.budget_w for d in self.domains_on_rack(rack_name))`
unfoldable pub rack_total : PdnTopology → Option String → ℚ
rack_total t rack_name = sum_map (λ d. d.budget_w) (domains_on_rack t rack_name)

-- The domain's budget, or its share of a rack that is too small for its domains.
unfoldable pub share_of_rack : Option Rack → ℚ → ℚ → ℚ
share_of_rack none total budget = budget
share_of_rack (some rack) total budget =
    if ltb rack.budget_w total && ltb (int 0) rack.budget_w
    then budget * rack.budget_w / total
    else budget

-- An adopted budget supersedes the static one; the overhead comes off either.
unfoldable pub budget_from : Option ℚ → Option Rack → ℚ → PowerDomain → ℚ
budget_from (some adopted) rack total domain = max (int 0) (adopted - domain.node_overhead_w)
budget_from none rack total domain =
    max (int 0) (share_of_rack rack total domain.budget_w - domain.node_overhead_w)

unfoldable pub effective_budget : PdnTopology → String → PowerDomain → ℚ
unfolding budget_from
effective_budget t domain_name domain =
    budget_from (get domain_name t.adopted_budget_w) (rack_of t domain.rack_name)
      (rack_total t domain.rack_name) domain

unfoldable pub domain_budget_w : PdnTopology → String → Result ℚ
domain_budget_w t domain_name = do
  domain ← or_raise key_error (get domain_name t.domains)
  ok (effective_budget t domain_name domain)

-- The draw put down for one domain when `domain_name` proposes caps: its caps and its overhead,
-- and for any other domain its full budget.
unfoldable pub draw_ceiling : String → ℚ → PowerDomain → PowerDomain → ℚ
draw_ceiling domain_name proposed_total domain d =
    if string_key.beq d.name domain_name
    then proposed_total + domain.node_overhead_w
    else d.budget_w

-- The rack rollup of `validate_allocation`: `rack_draw` is the sum over the rack's domains.
unfoldable pub fits_rack : Option Rack → ℚ → Bool
fits_rack none rack_draw = true
fits_rack (some rack) rack_draw = not (ltb rack.budget_w rack_draw)

-- The PDU check of `validate_allocation`, and the rack rollup after it.
unfoldable pub fits_pdu_and_rack : PdnTopology → String → ℚ → PowerDomain → Result Bool
unfolding fits_rack draw_ceiling
fits_pdu_and_rack t domain_name proposed_total domain = do
  pdu ← or_raise key_error (get domain.pdu_name t.pdus)
  let pdu_total =
      sum_map (draw_ceiling domain_name proposed_total domain) (domains_on_pdu t domain.pdu_name)
  if ltb (effective_capacity_w pdu) pdu_total
      then ok false
      else ok (
          fits_rack (rack_of t domain.rack_name) (
            sum_map (draw_ceiling domain_name proposed_total domain)
              (domains_on_rack t domain.rack_name)))

unfoldable pub validate_allocation : PdnTopology → String → Dict ℕ ℚ → Result Bool
unfolding fits_pdu_and_rack
validate_allocation t domain_name proposed_caps = do
  domain ← or_raise key_error (get domain_name t.domains)
  let proposed_total = sum (values proposed_caps)
  if ltb (effective_budget t domain_name domain) proposed_total
      then ok false
      else fits_pdu_and_rack t domain_name proposed_total domain

unfoldable pub gpu_count : List PowerDomain → ℕ
gpu_count [] = 0
gpu_count (d ∷ ds) = add (length d.gpu_indices) (gpu_count ds)

unfoldable pub total_gpu_count : PdnTopology → ℕ
total_gpu_count t = gpu_count (values t.domains)

unfoldable pub oversubscription_ratio : PdnTopology → String → Dict ℕ ℚ → Result ℚ
oversubscription_ratio t domain_name proposed_caps = do
  domain ← or_raise key_error (get domain_name t.domains)
  if leb domain.budget_w (int 0) && leb (int 0) domain.budget_w
      then raise zero_division
      else ok (sum (values proposed_caps) / domain.budget_w)
