-- ===== src/Telemetry/Energy/Totals.antt =====
-- The counters of `EnergyAccountant` over a tick.
use Prim.Native.Nat.{ℕ}
use opendps.Prelude.{
  ◌≡◌, refl, sym, ◌∙◌, ap, Bool, Option, none, some, [], ◌∷◌, if◌then◌else◌, Bool-cases, inl, inr,
  subst,
}
use opendps.Num.{
  ℚ, ◌+◌, ◌*◌, ◌/◌, int, ◌≤◌, ◌<◌, sum, sum_map, All, add_assoc, add_comm, add-zero, zero-mul,
  le_refl, le_trans, le_or_lt, le_of_lt, le_add_right, mul_nonneg, add-div, sum_map-mul,
  div_le_div_right, int_pos,
}
use opendps.Dict.{Dict, nat_key, get, get_or, or_default, set, values, get-set}
use opendps.Telemetry.Energy.{
  EnergyAccountant, Tick, j_per_wh, add_gpu, add_draws, add_tick, total_wh, gpu_energy_wh,
}

get_or-cons :
    (k i : ℕ) (w v : ℚ) (d : Dict ℕ ℚ)
    → get_or k w ((i, v) ∷ d) ≡ (if nat_key.beq i k then v else get_or k w d)
unfolding get_or get or_default
get_or-cons k i w v d = elim (Bool-cases (nat_key.beq i k)) [
  | inl same ↦ rw same refl
  | inr other ↦ rw other refl
]

get_or-set :
    (i k : ℕ) (z w : ℚ) (d : Dict ℕ ℚ)
    → get_or i z (set k w d) ≡ (if nat_key.beq k i then w else get_or i z d)
unfolding get_or or_default
get_or-set i k z w d = elim (Bool-cases (nat_key.beq k i)) [
  | inl same ↦ rw (get-set i k w d, same) refl
  | inr other ↦ rw (get-set i k w d, other) refl
]

get_or-cons_if :
    (k i : ℕ) (v x : ℚ) (d : Dict ℕ ℚ) {b : Bool}
    → nat_key.beq i k ≡ b
    → get_or k (int 0) ((i, v) ∷ d) ≡ x
    → (if b then v else get_or k (int 0) d) ≡ x
get_or-cons_if k i v x d e h =
    subst (λ b. (if b then v else get_or k (int 0) d) ≡ x) e (sym (get_or-cons k i (int 0) v d) ∙ h)

get_or-nil : (k : ℕ) (x : ℚ) → get_or {K = ℕ} k (int 0) [] ≡ x → int 0 ≡ x
unfolding get_or get or_default
get_or-nil k x h = h

-- Adding to one entry adds to the sum.
sum-set_add :
    (k : ℕ) (x j : ℚ) (d : Dict ℕ ℚ)
    → get_or k (int 0) d ≡ x
    → sum (values (set k (x + j) d)) ≡ sum (values d) + j
unfolding set sum
sum-set_add k x j [] h = add-zero (x + j) ∙ ap (λ t. t + j) (sym (get_or-nil k x h))
sum-set_add k x j ((i, v) ∷ d) h = elim (Bool-cases (nat_key.beq i k)) [
  | inl same ↦
      rw (same, ← get_or-cons_if k i v x d same h)
        (add_assoc v j _ ∙ ap (λ t. v + t) (add_comm j _) ∙ sym (add_assoc v _ j))
  | inr other ↦ rw other (
      ap (λ t. v + t) (sum-set_add k x j d (get_or-cons_if k i v x d other h))
      ∙ sym (add_assoc v _ j))
]

-- The watts of a sample; a GPU without a reading has none.
abbrev pub watts : Option ℚ → ℚ
watts none = int 0
watts (some draw) = draw

sum-add_gpu :
    (dt : ℚ) (g : ℕ) (draw : Option ℚ) (t : Tick)
    → sum (values (add_gpu dt g draw t).energy) ≡ sum (values t.energy) + watts draw * dt
unfolding add_gpu
sum-add_gpu dt g none t = sym (ap (λ x. sum (values t.energy) + x) (zero-mul dt) ∙ add-zero _)
sum-add_gpu dt g (some draw) t = sum-set_add g _ (draw * dt) t.energy refl

sum-add_draws :
    (dt : ℚ) (draws : Dict ℕ (Option ℚ)) (t : Tick)
    → sum (values (add_draws dt draws t).energy)
      ≡ sum (values t.energy) + sum_map (λ e. watts e.1 * dt) draws
unfolding add_draws sum_map
sum-add_draws dt [] t = sym (add-zero _)
sum-add_draws dt ((g, draw) ∷ draws) t =
    sum-add_draws dt draws (add_gpu dt g draw t)
    ∙ ap (λ x. x + sum_map (λ e. watts e.1 * dt) draws) (sum-add_gpu dt g draw t)
    ∙ add_assoc _ _ _

-- Over a tick of positive length the total grows by the watts of all GPUs times that length, in
-- watt-hours.
pub total_wh-add_tick :
    (a : EnergyAccountant) (draws : Dict ℕ (Option ℚ)) (dt : ℚ)
    → int 0 < dt
    → total_wh (add_tick a draws dt).0 ≡ total_wh a + sum_map (λ e. watts e.1) draws * dt / j_per_wh
unfolding total_wh add_tick
total_wh-add_tick a draws dt h = rw h.holds (
    ap (λ x. x / j_per_wh)
      (sum-add_draws dt draws (record { energy = a.energy_j; added = [] })
        ∙ ap (λ x. sum (values a.energy_j) + x) (sum_map-mul (λ e. watts e.1) dt draws))
    ∙ add-div (sum (values a.energy_j)) _ j_per_wh)

energy_le_set :
    (i k : ℕ) (j : ℚ) (d : Dict ℕ ℚ)
    → int 0 ≤ j
    → get_or i (int 0) d ≤ get_or i (int 0) (set k (get_or k (int 0) d + j) d)
energy_le_set i k j d h = elim (Bool-cases (nat_key.beq k i)) [
  | inl same ↦
      rw (get_or-set i k (int 0) (get_or k (int 0) d + j) d, same, (nat_key.beq_iff k i).0 same)
        (le_add_right h)
  | inr other ↦
      rw (get_or-set i k (int 0) (get_or k (int 0) d + j) d, other) (le_refl (get_or i (int 0) d))
]

energy_le_add_gpu :
    (dt : ℚ) (i g : ℕ) (draw : Option ℚ) (t : Tick)
    → int 0 ≤ dt
    → int 0 ≤ watts draw
    → get_or i (int 0) t.energy ≤ get_or i (int 0) (add_gpu dt g draw t).energy
unfolding add_gpu
energy_le_add_gpu dt i g none t h w = le_refl _
energy_le_add_gpu dt i g (some draw) t h w = energy_le_set i g (draw * dt) t.energy (mul_nonneg w h)

energy_le_add_draws :
    (dt : ℚ) (i : ℕ) (draws : Dict ℕ (Option ℚ)) (t : Tick)
    → int 0 ≤ dt
    → All (λ e. int 0 ≤ watts e.1) draws
    → get_or i (int 0) t.energy ≤ get_or i (int 0) (add_draws dt draws t).energy
unfolding add_draws
energy_le_add_draws dt i [] t h w = le_refl _
energy_le_add_draws dt i ((g, draw) ∷ draws) t h (w, ws) =
    le_trans (energy_le_add_gpu dt i g draw t h w)
      (energy_le_add_draws dt i draws (add_gpu dt g draw t) h ws)

-- The counter of a GPU never falls, whatever the length of the tick, for draws that are not
-- negative.
pub gpu_energy_wh_mono :
    (a : EnergyAccountant) (draws : Dict ℕ (Option ℚ)) (dt : ℚ) (gpu : ℕ)
    → All (λ e. int 0 ≤ watts e.1) draws
    → gpu_energy_wh a gpu ≤ gpu_energy_wh (add_tick a draws dt).0 gpu
unfolding gpu_energy_wh add_tick
gpu_energy_wh_mono a draws dt gpu w = elim (le_or_lt dt (int 0)) [
  | inl none_passed ↦ rw none_passed.holds (le_refl _)
  | inr passed ↦ rw passed.holds (
      div_le_div_right j_per_wh (le_of_lt (int_pos 3599))
        (energy_le_add_draws dt gpu draws _ (le_of_lt passed) w))
]
