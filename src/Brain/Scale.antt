-- ===== src/Brain/Scale.antt =====
-- The scaling to the budget that opendps/brain/priority_prs.py and opendps/brain/job_aware_prs.py
-- end with.
use Prim.Native.Nat.{ℕ}
use opendps.Prelude.{
  ◌≡◌, refl, ◌∙◌, sym, ap, Bool, false, not, ◌&&◌, if◌then◌else◌, inl, inr, arith,
}
use opendps.Num.{
  ℚ, ◌*◌, ◌/◌, int, leb, ltb, ◌≤◌, ◌<◌, sum, sum_map-mul, le_of_lt, le_of_eq, le_or_lt,
  lt_of_le_of_lt, mul_comm, div_mul_cancel,
}
use opendps.Dict.{Dict, values, map_values, sum-values, sum-values-map_values}

-- `not x`, for a number.
unfoldable pub is_zero : ℚ → Bool
is_zero x = leb x (int 0) && leb (int 0) x

-- `if budget and total > budget: caps[g] *= budget / total`
unfoldable pub scale_down : ℚ → Dict ℕ ℚ → Dict ℕ ℚ
unfolding is_zero
scale_down budget caps =
    if not (is_zero budget) && ltb budget (sum (values caps))
    then map_values (λ _ cap. cap * (budget / sum (values caps))) caps
    else caps

pub is_zero-pos : {b : ℚ} → int 0 < b → is_zero b ≡ false
unfolding is_zero
is_zero-pos {b} h = rw h.holds refl

pub pos_of-is_zero : {b : ℚ} → int 0 ≤ b → is_zero b ≡ false → int 0 < b
unfolding is_zero
pos_of-is_zero {b} h z = record { holds = ground (arith, h.holds, z) }

sum-scaled :
    (budget : ℚ) (caps : Dict ℕ ℚ)
    → int 0 < sum (values caps)
    → sum (values (map_values (λ _ cap. cap * (budget / sum (values caps))) caps)) ≡ budget
sum-scaled budget caps h =
    let total = sum (values caps) in
    sum-values-map_values (λ _ cap. cap * (budget / total)) caps
    ∙ sum_map-mul (λ e. e.1) (budget / total) caps
    ∙ ap (λ t. t * (budget / total)) (sym (sum-values caps))
    ∙ mul_comm total (budget / total)
    ∙ div_mul_cancel budget h

-- After the scaling the caps add up to at most a positive budget.
pub sum-scale_down-le :
    (budget : ℚ) (caps : Dict ℕ ℚ) → int 0 < budget → sum (values (scale_down budget caps)) ≤ budget
unfolding scale_down
sum-scale_down-le budget caps h = elim (le_or_lt (sum (values caps)) budget) [
  | inl fits ↦ rw (is_zero-pos h, fits.holds) fits
  | inr over ↦
      rw (is_zero-pos h, over.holds)
        (le_of_eq (sum-scaled budget caps (lt_of_le_of_lt (le_of_lt h) over)))
]

-- Caps that fit a budget are left alone.
pub scale_down_fits :
    (budget : ℚ) (caps : Dict ℕ ℚ) → sum (values caps) ≤ budget → scale_down budget caps ≡ caps
unfolding scale_down
scale_down_fits budget caps h = rw h.holds (ground arith)
