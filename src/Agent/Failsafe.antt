-- ===== src/Agent/Failsafe.antt =====
-- opendps/agent/failsafe.py: the loop that cuts a GPU that draws too much, over any actuator.
pub mod Scan
pub mod Simulated
use Prim.Native.Nat.{ℕ, zero, suc}
use opendps.Prelude.{Bool, true, false, List, [], ◌∷◌, ◌++◌, if◌then◌else◌}
use opendps.Num.{ℚ, leb, ltb}
use opendps.Result.{Result, ok, raise, ◌>>=◌, ◌>>◌, raise_if, value_error}
use opendps.Sim.Actuator.{Actuator}

-- The loop, with the state of its actuator.
pub record FailsafeLoop (A : Type 0) : Type 0 where
  pub actuator : A
  pub threshold : ℚ
  pub emergency_cap : ℚ
  pub poll_interval : ℚ
  pub trip_count : ℕ

-- `__init__`
unfoldable pub init : {A : Type 0} → A → ℚ → ℚ → ℚ → Result (FailsafeLoop A)
init actuator emergency_threshold_w emergency_cap_w poll_interval_s = do
  raise_if (leb emergency_threshold_w emergency_cap_w) value_error
  ok (record {
    actuator = actuator;
    threshold = emergency_threshold_w;
    emergency_cap = emergency_cap_w;
    poll_interval = poll_interval_s;
    trip_count = 0;
  })

-- `try: ... except Exception: log`, which leaves the loop as it was.
unfoldable pub caught : {A : Type 0} → FailsafeLoop A → Result (FailsafeLoop A) → FailsafeLoop A
caught f (ok g) = g
caught f (raise e) = f

-- A cap that is set counts as a trip.
unfoldable pub tripped : {A : Type 0} → FailsafeLoop A → A → FailsafeLoop A
tripped f actuator = record f { actuator = actuator; trip_count = suc f.trip_count }

-- A GPU over the threshold.
unfoldable pub trip : {A : Type 0} → Actuator A → FailsafeLoop A → ℕ → Result (FailsafeLoop A)
unfolding tripped
trip target f i = target.set_power_cap f.actuator i f.emergency_cap >>= (λ set. ok (tripped f set))

-- The body of the inner loop of `_run`.
unfoldable pub poll_gpu : {A : Type 0} → Actuator A → FailsafeLoop A → ℕ → Result (FailsafeLoop A)
unfolding trip
poll_gpu target f i =
    target.get_power_draw f.actuator i
    >>= (λ draw. if ltb f.threshold draw then trip target f i else ok f)

unfoldable pub scan_gpus : {A : Type 0} → Actuator A → FailsafeLoop A → List ℕ → FailsafeLoop A
unfolding caught poll_gpu
scan_gpus target f [] = f
scan_gpus target f (i ∷ rest) = scan_gpus target (caught f (poll_gpu target f i)) rest

-- `range(n)`
unfoldable pub range : ℕ → List ℕ
range zero = []
range (suc n) = range n ++ (n ∷ [])

-- One scan of the fleet, the body of the outer loop of `_run`.
unfoldable pub scan : {A : Type 0} → Actuator A → FailsafeLoop A → FailsafeLoop A
unfolding range
scan target f = scan_gpus target f (range (target.gpu_count f.actuator))
