-- ===== src/Brain/Priority/Tiers.antt =====
-- The tiers of `PriorityTieredPRSBrain`: known names only, and what a higher one is worth.
use Prim.Native.Nat.{ℕ}
use Prim.Native.String.{String}
use opendps.Prelude.{◌≡◌, refl, Bool, true, false, [], ◌∷◌, if◌then◌else◌, arith}
use opendps.Num.{
  ℚ, All, int, ◌≤◌, min, le_refl, le_trans, le_min, min_le_left, min_le_right, add_le_add,
  le_add_right, mul_le_mul_left, div_le_div_right, mul_nonneg, div_nonneg,
}
use opendps.Dict.{Dict, nat_key, string_key, get_or, All-get_or, contains, elem, values}
use opendps.Brain.Priority.{tier_weights, default_tier, has_unknown, contended_cap}

known_if :
    (unknown rest : Bool)
    → (if unknown then rest else true) ≡ false
    → (unknown ≡ true) × (rest ≡ false)
known_if unknown rest h = (ground arith, ground arith)

All-known :
    (tiers : Dict ℕ String)
    → has_unknown (values tiers) ≡ false
    → All (λ e. contains e.1 tier_weights ≡ true) tiers
unfolding has_unknown
All-known [] h = tt
All-known ((k, t) ∷ tiers) h =
    let p = known_if (contains t tier_weights) (has_unknown (values tiers)) h in
    (p.0, All-known tiers p.1)

-- With known tiers only, the weight of a GPU's tier, or of the default tier, is found, so that
-- reading it raises no KeyError.
pub tier-known :
    (tiers : Dict ℕ String) (g : ℕ)
    → has_unknown (values tiers) ≡ false
    → contains (get_or g default_tier tiers) tier_weights ≡ true
unfolding contains elem
tier-known tiers g h =
    All-get_or (λ t. contains t tier_weights ≡ true) g default_tier tiers refl (All-known tiers h)

-- A higher weight, and a hardware maximum that is not lower, give a contended GPU at least as
-- large a cap before the scaling, for a surplus and a total that are not negative.
pub contended_cap_mono :
    (floor surplus_w total_w hw_max hw_max' w w' : ℚ)
    → int 0 ≤ surplus_w
    → int 0 ≤ total_w
    → hw_max ≤ hw_max'
    → w ≤ w'
    → contended_cap floor surplus_w total_w hw_max w
      ≤ contended_cap floor surplus_w total_w hw_max' w'
unfolding contended_cap
contended_cap_mono f s t m m' w w' ps pt hm hw =
    le_min
      (le_trans (min_le_left _ _)
        (add_le_add (le_refl f) (div_le_div_right t pt (mul_le_mul_left s ps hw))))
      (le_trans (min_le_right _ _) hm)

-- A contended GPU keeps the floor, or its hardware maximum where that is lower.
pub contended_cap_floor :
    (floor surplus_w total_w hw_max w : ℚ)
    → int 0 ≤ surplus_w
    → int 0 ≤ total_w
    → int 0 ≤ w
    → min floor hw_max ≤ contended_cap floor surplus_w total_w hw_max w
unfolding contended_cap
contended_cap_floor f s t m w ps pt pw =
    le_min (le_trans (min_le_left _ _) (le_add_right (div_nonneg (mul_nonneg ps pw) pt)))
      (min_le_right _ _)
