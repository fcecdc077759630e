-- ===== src/Sim/Backend/Caps.antt =====
-- The caps of the simulated GPUs.
use opendps.Num.{ℚ, int, ◌≤◌, le_refl, le_trans, min_le_left, min_le_right, max_le}
use opendps.Sim.Backend.{SimGpu, power_draw_w, capped}

-- A GPU never draws more than its cap.
pub power_draw_w-le : (gpu : SimGpu) → power_draw_w gpu ≤ gpu.cap_w
unfolding power_draw_w
power_draw_w-le gpu = min_le_right _ _

-- After a cap that is not negative is set on a simulated GPU, its draw is at most that cap and at
-- most the hardware maximum.
pub power_draw_w-capped :
    (gpu : SimGpu) (watts : ℚ)
    → int 0 ≤ watts
    → (power_draw_w (capped gpu watts) ≤ watts) × (power_draw_w (capped gpu watts) ≤ gpu.max_cap_w)
unfolding capped
power_draw_w-capped gpu watts h = (
  le_trans (power_draw_w-le (capped gpu watts))
      (le_trans (min_le_left _ _) (max_le h (le_refl watts))),
  le_trans (power_draw_w-le (capped gpu watts)) (min_le_right _ _),
)
