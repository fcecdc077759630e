-- ===== src/Brain/State.antt =====
-- The data classes of opendps/brain/dpm.py that every brain shares.
use Prim.Native.Nat.{ℕ}
use Prim.Native.String.{String}
use opendps.Prelude.{Bool}
use opendps.Num.{ℚ}
use opendps.Dict.{Dict}

pub record DomainState : Type 0 where
  pub domain_name : String
  pub gpu_draws : Dict ℕ ℚ
  pub gpu_caps : Dict ℕ ℚ
  pub ts : ℚ
  pub gpu_max_caps : Dict ℕ ℚ
  pub gpu_thermal_throttled : Dict ℕ Bool

-- The `reason` texts, with the numbers that they print.
pub data Reason : Type 0 where
  under_budget over_budget : Reason
  prs : ℕ → ℕ → ℚ → Reason
  quota_prs priority_prs thermal_prs : ℕ → Reason
  cvxpy : String → ℚ → Reason

pub record BrainDecision : Type 0 where
  pub domain : String
  pub caps : Dict ℕ ℚ
  pub ts : ℚ
  pub reason : Reason
