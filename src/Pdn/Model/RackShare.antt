-- ===== src/Pdn/Model/RackShare.antt =====
-- The scaling of the domains of one rack.
use Prim.Native.String.{String}
use text.Mathlib.TextEquality.{eq_iff}
use opendps.Prelude.{◌≡◌, refl, ◌∙◌, fun_ext, ap, true, Option, none, some, List, inl, inr}
use opendps.Num.{
  ℚ, ◌*◌, ◌/◌, int, ◌≤◌, ◌<◌, sum_map, All, All-zip, sum_map_le, sum_map-mul, le_trans, le_of_eq,
  le_of_lt, le_or_lt, max_le, sub_le_self, mul_nonneg, div_nonneg, mul_div_assoc, div_mul_cancel,
  lt_of_le_of_lt, mul_comm,
}
use opendps.Dict.{string_key, get, filter_passes, values}
use opendps.Pdn.Model.{
  PowerDomain, Rack, PdnTopology, same_name, rack_of, rack_total, share_of_rack, domains_on_rack,
  effective_budget,
}

-- No watts are negative in the description of a domain.
pub record IsPhysical (d : PowerDomain) : Type 0 where
  pub budget_nonneg : int 0 ≤ d.budget_w
  pub overhead_nonneg : int 0 ≤ d.node_overhead_w

same_name→eq : (a : Option String) (r : String) → same_name a (some r) ≡ true → a ≡ some r
unfolding same_name
same_name→eq none r h = cc
same_name→eq (some a) r h = ap some ((eq_iff a r).0 h)

share_nonneg :
    (rack : Rack) (total budget : ℚ)
    → int 0 ≤ budget
    → int 0 ≤ share_of_rack (some rack) total budget
unfolding share_of_rack
share_nonneg rack total budget h = elim (le_or_lt total rack.budget_w) [
  | inl small ↦ rw small.holds h
  | inr big ↦ elim (le_or_lt rack.budget_w (int 0)) [
    | inl off ↦ rw (big.holds, off.holds) h
    | inr on ↦
        rw (big.holds, on.holds)
          (div_nonneg (mul_nonneg h (le_of_lt on)) (le_trans (le_of_lt on) (le_of_lt big)))
  ]
]

scaled_share :
    (rack : Rack) (total : ℚ) (ds : List PowerDomain)
    → rack.budget_w < total
    → int 0 < rack.budget_w
    → sum_map (λ d. share_of_rack (some rack) total d.budget_w) ds
      ≡ sum_map (λ d. d.budget_w) ds * (rack.budget_w / total)
unfolding share_of_rack
scaled_share rack total ds big on =
    ap (λ f. sum_map f ds)
      (fun_ext (λ d. rw (big.holds, on.holds) (mul_div_assoc d.budget_w rack.budget_w total)))
    ∙ sum_map-mul (λ d. d.budget_w) (rack.budget_w / total) ds

whole_share :
    (rack : Rack) (total : ℚ) (ds : List PowerDomain)
    → total ≤ rack.budget_w
    → sum_map (λ d. share_of_rack (some rack) total d.budget_w) ds ≡ sum_map (λ d. d.budget_w) ds
unfolding share_of_rack
whole_share rack total ds small = rw small.holds refl

-- Every domain's budget, added up after the scaling, is at most the rack's.
shares_le :
    (rack : Rack) (total : ℚ) (ds : List PowerDomain)
    → int 0 < rack.budget_w
    → sum_map (λ d. d.budget_w) ds ≡ total
    → sum_map (λ d. share_of_rack (some rack) total d.budget_w) ds ≤ rack.budget_w
shares_le rack total ds on e = elim (le_or_lt total rack.budget_w) [
  | inl small ↦ rw (whole_share rack total ds small, e) small
  | inr big ↦
      rw (scaled_share rack total ds big on, e, mul_comm total (rack.budget_w / total))
        (le_of_eq (div_mul_cancel rack.budget_w (lt_of_le_of_lt (le_of_lt on) big)))
]

effective_budget-le_share :
    (t : PdnTopology) (r : String) (rack : Rack) (d : PowerDomain)
    → rack_of t (some r) ≡ some rack
    → get d.name t.adopted_budget_w ≡ none
    → d.rack_name ≡ some r
    → IsPhysical d
    → effective_budget t d.name d ≤ share_of_rack (some rack) (rack_total t (some r)) d.budget_w
unfolding effective_budget
effective_budget-le_share t r rack d known free same p =
    rw (free, same, known)
      (max_le (share_nonneg rack (rack_total t (some r)) d.budget_w p.budget_nonneg)
        (sub_le_self p.overhead_nonneg))

-- The effective budgets of the domains on a rack with a positive budget add up to at most that
-- budget, when none of them has an adopted budget and no budget or overhead is negative.
pub sum-effective_budget-le :
    (t : PdnTopology) (r : String) (rack : Rack)
    → rack_of t (some r) ≡ some rack
    → int 0 < rack.budget_w
    → All (λ d. get d.name t.adopted_budget_w ≡ none) (domains_on_rack t (some r))
    → All IsPhysical (domains_on_rack t (some r))
    → sum_map (λ d. effective_budget t d.name d) (domains_on_rack t (some r)) ≤ rack.budget_w
unfolding rack_total domains_on_rack
sum-effective_budget-le t r rack known on free physical =
    le_trans
      (sum_map_le (λ d. effective_budget t d.name d)
        (λ d. share_of_rack (some rack) (rack_total t (some r)) d.budget_w)
        (domains_on_rack t (some r))
        (All-zip {P = λ d. (get d.name t.adopted_budget_w ≡ none) × (d.rack_name ≡ some r)}
          (domains_on_rack t (some r))
          (λ d h p. effective_budget-le_share t r rack d known h.0 h.1 p)
          (All-zip (domains_on_rack t (some r)) (λ d h q. (h, same_name→eq d.rack_name r q)) free
            (filter_passes (λ d. same_name d.rack_name (some r)) (values t.domains)))
          physical))
      (shares_le rack (rack_total t (some r)) (domains_on_rack t (some r)) on refl)
