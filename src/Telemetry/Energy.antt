-- ===== src/Telemetry/Energy.antt =====
-- opendps/telemetry/energy.py: `EnergyAccountant`, the energy that each GPU has used.
pub mod Totals
use Prim.Native.Nat.{ℕ}
use opendps.Prelude.{Bool, true, false, Option, none, some, List, [], ◌∷◌, if◌then◌else◌}
use opendps.Num.{ℚ, ◌+◌, ◌*◌, ◌/◌, int, leb, sum, sum_map}
use opendps.Dict.{Dict, nat_key, get_or, set, values}

abbrev pub j_per_wh : ℚ
j_per_wh = int 3600

pub record EnergyAccountant : Type 0 where
  pub energy_j : Dict ℕ ℚ

-- What the loop of `add_tick` fills: the counters, and the joules of this tick.
pub record Tick : Type 0 where
  pub energy : Dict ℕ ℚ
  pub added : Dict ℕ ℚ

unfoldable pub add_gpu : ℚ → ℕ → Option ℚ → Tick → Tick
add_gpu dt_s gpu none t = t
add_gpu dt_s gpu (some draw) t = record {
  energy = set gpu (get_or gpu (int 0) t.energy + draw * dt_s) t.energy;
  added = set gpu (draw * dt_s) t.added;
}

unfoldable pub add_draws : ℚ → Dict ℕ (Option ℚ) → Tick → Tick
unfolding add_gpu
add_draws dt_s [] t = t
add_draws dt_s ((gpu, draw) ∷ draws) t = add_draws dt_s draws (add_gpu dt_s gpu draw t)

unfoldable pub add_tick : EnergyAccountant → Dict ℕ (Option ℚ) → ℚ → EnergyAccountant × Dict ℕ ℚ
add_tick a gpu_draws_w dt_s =
    if leb dt_s (int 0)
    then (a, [])
    else (let t = add_draws dt_s gpu_draws_w (record { energy = a.energy_j; added = [] }) in
        (record { energy_j = t.energy }, t.added))

unfoldable pub gpu_energy_wh : EnergyAccountant → ℕ → ℚ
gpu_energy_wh a gpu = get_or gpu (int 0) a.energy_j / j_per_wh

unfoldable pub tenant_energy_wh : EnergyAccountant → List ℕ → ℚ
tenant_energy_wh a gpu_indices = sum_map (λ g. get_or g (int 0) a.energy_j) gpu_indices / j_per_wh

unfoldable pub total_wh : EnergyAccountant → ℚ
total_wh a = sum (values a.energy_j) / j_per_wh
