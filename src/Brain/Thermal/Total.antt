-- ===== src/Brain/Thermal/Total.antt =====
-- The total of the caps under `ThermalAwarePRSBrain`.
use Prim.Native.Nat.{ℕ}
use opendps.Prelude.{
  ◌≡◌, ◌∙◌, sym, ap, Bool, not, [], ◌∷◌, if◌then◌else◌, Bool-cases, inl, inr, fun_ext,
}
use opendps.Num.{
  ℚ, ◌+◌, ◌-◌, ◌*◌, ◌/◌, int, min, ◌≤◌, ◌<◌, sum, sum_map, sum_map-mul, add_assoc, add_comm,
  le_refl, le_of_eq, le_trans, le_or_lt, min_le_left, add_le_add, div_mul_cancel, mul_div_assoc,
  mul_comm, sub_add_cancel, zero-add, sub_nonneg, le_add_right, sum_map_nonneg, All-All,
  add_add_comm,
}
use opendps.Dict.{Dict, nat_key, values, map_values, filter}
use opendps.Brain.State.{DomainState}
use opendps.Brain.Thermal.{
  ThermalBrain, is_throttled, backed_off, reduced, freed, reduced_caps, headroom, total_head, give,
  redistribute, thermal_caps,
}

-- A sum that changes only the entries that pass a test.
sum-where :
    (p : ℕ → Bool) (f : ℕ → ℚ → ℚ) (caps : Dict ℕ ℚ)
    → sum (values (map_values (λ g cap. if p g then f g cap else cap) caps))
        + sum_map (λ e. e.1 - f e.0 e.1) (filter (λ e. p e.0) caps)
      ≡ sum (values caps)
unfolding map_values filter sum sum_map
sum-where p f [] = zero-add (int 0)
sum-where p f ((g, c) ∷ caps) = elim (Bool-cases (p g)) [
  | inl t ↦ rw t (
      add_add_comm (f g c) _ (c - f g c) _
      ∙ ap (λ x. x + _) (add_comm (f g c) (c - f g c) ∙ sub_add_cancel c (f g c))
      ∙ ap (λ x. c + x) (sum-where p f caps))
  | inr t ↦ rw t (add_assoc c _ _ ∙ ap (λ x. c + x) (sum-where p f caps))
]

sum-where-add :
    (p : ℕ → Bool) (f : ℕ → ℚ → ℚ) (caps : Dict ℕ ℚ)
    → sum (values (map_values (λ g cap. if p g then cap else cap + f g cap) caps))
      ≡ sum (values caps) + sum_map (λ e. f e.0 e.1) (filter (λ e. not (p e.0)) caps)
unfolding map_values filter sum sum_map
sum-where-add p f [] = sym (zero-add (int 0))
sum-where-add p f ((g, c) ∷ caps) = elim (Bool-cases (p g)) [
  | inl t ↦ rw t (ap (λ x. c + x) (sum-where-add p f caps) ∙ sym (add_assoc c _ _))
  | inr t ↦ rw t (ap (λ x. c + f g c + x) (sum-where-add p f caps) ∙ add_add_comm c (f g c) _ _)
]

share-swap : (watts h total : ℚ) → watts * h / total ≡ h * (watts / total)
share-swap watts h total = ap (λ x. x / total) (mul_comm watts h) ∙ mul_div_assoc h watts total

-- What is given adds up, when there is room.
sum-give :
    (state : DomainState) (watts : ℚ) (caps : Dict ℕ ℚ)
    → int 0 < total_head state caps
    → sum (values (give state watts (total_head state caps) caps)) ≡ sum (values caps) + watts
unfolding give total_head
sum-give state watts caps h =
    let total = total_head state caps in
    let rest = filter (λ e. not (is_throttled state e.0)) caps in
    sum-where-add (is_throttled state) (λ g cap. watts * headroom state g cap / total) caps
    ∙ ap (λ x. sum (values caps) + x)
        (ap (λ f. sum_map f rest) (fun_ext (λ e. share-swap watts (headroom state e.0 e.1) total))
          ∙ sum_map-mul (λ e. headroom state e.0 e.1) (watts / total) rest
          ∙ mul_comm total (watts / total)
          ∙ div_mul_cancel watts h)

module _ (b : ThermalBrain) (state : DomainState) (caps : Dict ℕ ℚ) where
  reduced-le : (g : ℕ) (cap : ℚ) → reduced b state g cap ≤ cap
  unfolding reduced backed_off
  reduced-le g cap = le_trans (min_le_left _ _) (min_le_left _ _)

  freed_nonneg : int 0 ≤ freed b state caps
  unfolding freed
  freed_nonneg = sum_map_nonneg _ _ (All-All (λ e. sub_nonneg (reduced-le e.0 e.1)) _)

  sum-reduced_caps :
      sum (values (reduced_caps b state caps)) + freed b state caps ≡ sum (values caps)
  unfolding reduced_caps freed
  sum-reduced_caps = sum-where (is_throttled state) (reduced b state) caps

  sum-redistribute-le :
      (watts : ℚ) (low : Dict ℕ ℚ)
      → int 0 ≤ watts
      → sum (values (redistribute state watts low)) ≤ sum (values low) + watts
  unfolding redistribute
  sum-redistribute-le watts low h = elim (le_or_lt watts (int 0)) [
    | inl none_freed ↦ rw none_freed.holds (le_add_right h)
    | inr some_freed ↦ elim (le_or_lt (total_head state low) (int 0)) [
      | inl full ↦ rw (some_freed.holds, full.holds) (le_add_right h)
      | inr room ↦
          rw (some_freed.holds, room.holds)
            (le_trans (le_of_eq (sum-give state (min watts (total_head state low)) low room))
              (add_le_add (le_refl (sum (values low))) (min_le_left watts (total_head state low))))
    ]
  ]

  -- The caps add up to at most what the wrapped brain proposed.
  pub sum-thermal_caps-le : sum (values (thermal_caps b state caps)) ≤ sum (values caps)
  unfolding thermal_caps
  sum-thermal_caps-le =
      le_trans (sum-redistribute-le (freed b state caps) (reduced_caps b state caps) freed_nonneg)
        (le_of_eq sum-reduced_caps)
