-- ===== src/Pdn/Model/Allocation.antt =====
-- Accepted allocations, on the PDU and on the rack.
use Prim.Native.Nat.{ℕ}
use Prim.Native.String.{String}
use opendps.Prelude.{◌≡◌, refl, Bool, true, Option, none, some, arith, Bool-cases, inl, inr}
use opendps.Num.{ℚ, ◌+◌, int, ◌≤◌, sum, sum_map, All, All-imp, le_trans}
use opendps.Dict.{
  Dict, string_key, nat_key, get, values, filter, beq_refl, get-le-sum_map, All-filter,
}
use opendps.Result.{ok}
use opendps.Pdn.Model.{
  PowerDomain, Pdu, Rack, PdnTopology, effective_capacity_w, rack_of, effective_budget,
  draw_ceiling, domains_on_pdu, domains_on_rack, fits_rack, validate_allocation, same_name,
}
use opendps.Pdn.Model.RackShare.{IsPhysical}

-- The parts of an acceptance.
record Accepted (t : PdnTopology) (n : String) (total : ℚ) (d : PowerDomain) (pdu : Pdu)
    : Type 0 where
  in_budget : total ≤ effective_budget t n d
  on_pdu : sum_map (draw_ceiling n total d) (domains_on_pdu t d.pdu_name) ≤ effective_capacity_w pdu
  on_rack :
      fits_rack
        (rack_of t d.rack_name)
        (sum_map (draw_ceiling n total d) (domains_on_rack t d.rack_name))
      ≡ true

accepted :
    (t : PdnTopology) (n : String) (caps : Dict ℕ ℚ) (d : PowerDomain) (pdu : Pdu)
    → get n t.domains ≡ some d
    → get d.pdu_name t.pdus ≡ some pdu
    → validate_allocation t n caps ≡ ok true
    → Accepted t n (sum (values caps)) d pdu
unfolding validate_allocation
accepted t n caps d pdu h k v = record {
  in_budget = record { holds = ground arith };
  on_pdu = record { holds = ground arith };
  on_rack = ground arith;
}

draw_ceiling_nonneg :
    (n : String) (total : ℚ) (d : PowerDomain)
    → int 0 ≤ total + d.node_overhead_w
    → (x : PowerDomain) → IsPhysical x
    → int 0 ≤ draw_ceiling n total d x
unfolding draw_ceiling
draw_ceiling_nonneg n total d h x p = elim (Bool-cases (string_key.beq x.name n)) [
  | inl e ↦ rw e h
  | inr e ↦ rw e p.budget_nonneg
]

draw_ceiling_self :
    (n : String) (total : ℚ) (d : PowerDomain)
    → d.name ≡ n
    → draw_ceiling n total d d ≡ total + d.node_overhead_w
unfolding draw_ceiling
draw_ceiling_self n total d e = rw (e, beq_refl n) refl

-- A sum over the domains that pass a test is at least what the proposing domain draws.
draw-le-sum :
    (t : PdnTopology) (n : String) (total : ℚ) (d : PowerDomain) (p : PowerDomain → Bool)
    → get n t.domains ≡ some d
    → d.name ≡ n
    → p d ≡ true
    → All IsPhysical (values t.domains)
    → int 0 ≤ total + d.node_overhead_w
    → total + d.node_overhead_w ≤ sum_map (draw_ceiling n total d) (filter p (values t.domains))
draw-le-sum t n total d p h e q all pos = rw (draw_ceiling_self n total d e) at (
    get-le-sum_map (draw_ceiling n total d) p n d t.domains h q (
      All-filter (λ x. int 0 ≤ draw_ceiling n total d x) p (values t.domains)
        (All-imp (draw_ceiling_nonneg n total d pos) (values t.domains) all)))

-- An accepted allocation fits the domain's effective budget, and with the node overhead the
-- derated capacity of its PDU, when the domains are physical, the domain is stored under its name
-- and its draw is not negative.
pub validate_allocation_fits :
    (t : PdnTopology) (n : String) (caps : Dict ℕ ℚ) (d : PowerDomain) (pdu : Pdu)
    → get n t.domains ≡ some d
    → d.name ≡ n
    → get d.pdu_name t.pdus ≡ some pdu
    → All IsPhysical (values t.domains)
    → int 0 ≤ sum (values caps) + d.node_overhead_w
    → validate_allocation t n caps ≡ ok true
    → (sum (values caps) ≤ effective_budget t n d)
      × (sum (values caps) + d.node_overhead_w ≤ effective_capacity_w pdu)
unfolding domains_on_pdu
validate_allocation_fits t n caps d pdu h e k all pos v =
    let a = accepted t n caps d pdu h k v in
    (
      a.in_budget,
      le_trans
          (draw-le-sum t n (sum (values caps)) d (λ x. string_key.beq x.pdu_name d.pdu_name) h e
            (beq_refl d.pdu_name) all pos)
          a.on_pdu,
    )

fits_rack→le : (rack : Rack) (draw : ℚ) → fits_rack (some rack) draw ≡ true → draw ≤ rack.budget_w
unfolding fits_rack
fits_rack→le rack draw h = record { holds = ground arith }

same_name_refl : (a : Option String) → same_name a a ≡ true
unfolding same_name
same_name_refl none = refl
same_name_refl (some a) = beq_refl a

-- For a domain that belongs to a rack, an accepted allocation and the node overhead fit the
-- budget of the rack, when the domains are physical, the domain is stored under its name and its
-- draw is not negative.
pub validate_allocation_fits_rack :
    (t : PdnTopology) (n : String) (caps : Dict ℕ ℚ) (d : PowerDomain) (pdu : Pdu) (rack : Rack)
    → get n t.domains ≡ some d
    → d.name ≡ n
    → get d.pdu_name t.pdus ≡ some pdu
    → rack_of t d.rack_name ≡ some rack
    → All IsPhysical (values t.domains)
    → int 0 ≤ sum (values caps) + d.node_overhead_w
    → validate_allocation t n caps ≡ ok true
    → sum (values caps) + d.node_overhead_w ≤ rack.budget_w
unfolding domains_on_rack
validate_allocation_fits_rack t n caps d pdu rack h e k r all pos v =
    let a = accepted t n caps d pdu h k v in
    let total = sum (values caps) in
    le_trans
      (draw-le-sum t n total d (λ x. same_name x.rack_name d.rack_name) h e
        (same_name_refl d.rack_name) all pos)
      (fits_rack→le rack _ (rw r at a.on_rack))
