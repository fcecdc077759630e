-- ===== src/Sim/Actuator.antt =====
-- opendps/sim/protocol.py: the enforcement target that the controller drives, and the simulated GPUs
-- as one. Two of the operations that the controller looks for are not part of the protocol.
use Prim.Native.Nat.{ℕ, suc}
use opendps.Prelude.{Option, none, some}
use opendps.Num.{ℚ}
use opendps.Dict.{Dict}
use opendps.Result.{Result, ok, raise}
use opendps.Sim.Backend.{SimBackend, Draws, tick}
use opendps.Sim.Backend

-- `Actuator`, on its state; `None` where a target lacks the method.
pub record Actuator (A : Type 0) : Type 0 where
  pub set_power_cap : A → ℕ → ℚ → Result A
  pub get_power_cap : A → ℕ → Result ℚ
  pub get_power_draw : A → ℕ → Result ℚ
  pub get_util_pct : A → ℕ → Result ℚ
  pub gpu_count : A → ℕ
  pub get_max_cap_w : Option (A → ℕ → Result ℚ)
  pub push_all_caps : Option (A → Dict ℕ ℚ → A)
  pub tick : Option (A → A)

-- The simulated GPUs, with the number of ticks so far and what their generators return in each.
pub record SimState : Type 0 where
  pub backend : SimBackend
  pub ticks : ℕ
  pub rng : ℕ → ℕ → Draws

unfoldable pub with_backend : SimState → Result SimBackend → Result SimState
with_backend s (raise e) = raise e
with_backend s (ok backend) = ok (record s { backend = backend })

unfoldable pub tick_state : SimState → SimState
unfolding tick
tick_state s = record s { backend = tick s.backend (s.rng s.ticks); ticks = suc s.ticks }

unfoldable pub sim_actuator : Actuator SimState
unfolding with_backend tick_state
sim_actuator = record {
  set_power_cap = λ s gpu watts. with_backend s (Backend.set_power_cap s.backend gpu watts);
  get_power_cap = λ s gpu. Backend.get_power_cap s.backend gpu;
  get_power_draw = λ s gpu. Backend.get_power_draw s.backend gpu;
  get_util_pct = λ s gpu. Backend.get_util_pct s.backend gpu;
  gpu_count = λ s. Backend.gpu_count s.backend;
  get_max_cap_w = some (λ s gpu. Backend.get_max_cap_w s.backend gpu);
  push_all_caps = none;
  tick = some tick_state;
}
