-- ===== src/Tests/AgentRuns.antt =====
-- The failsafe over three simulated GPUs, and the energy of a few ticks.
use Prim.Native.Nat.{ℕ}
use Prim.Native.String.{String}
use opendps.Prelude.{◌≡◌, refl, [], ◌∷◌, Option, some, none}
use opendps.Num.{ℚ, ◌≤◌, ◌<◌, ◌+◌, ◌*◌, ◌/◌, int, leb, sum_map, All}
use opendps.Dict.{Dict, nat_key, get, get_or, set}
use opendps.Result.{ok, raise, value_error}
use opendps.Sim.Backend.{power_draw_w, SimGpu, SimBackend, gpu_count}
use opendps.Json.{pos}
use opendps.Text.{splitlines, split_on, split_once, strip}
use opendps.Text.Float.{to_int}
use opendps.Agent.JobTracker.{JobTracker, empty_tracker}
use opendps.Agent.JobTracker.Poll.{poll, refresh_uuid_map}
use opendps.Agent.JobTracker.Poll.Filed.{IsFiled, poll-IsFiled}
use opendps.Agent.Failsafe.{FailsafeLoop, init, range, scan, scan_gpus, caught, trip}
use opendps.Agent.Failsafe.Scan.{Guarded, init-IsFailsafe, scan-Guarded}
use opendps.Agent.Failsafe.Simulated.{sim_actuator-IsTarget}
use opendps.Sim.Actuator.{SimState, sim_actuator}
use opendps.Telemetry.Energy.{EnergyAccountant, add_tick, total_wh, j_per_wh}
use opendps.Telemetry.Energy.Totals.{watts, total_wh-add_tick}

abbrev gpu : ℕ → ℚ → SimGpu
gpu i util = record {
  index = i;
  cap_w = int 700;
  max_cap_w = int 700;
  load = record { base_util_pct = util; util_noise = int 0; idle_fraction = int 0 };
  current_util = util;
}

abbrev backend : SimBackend
backend = record { gpus = (0, gpu 0 (int 100)) ∷ (1, gpu 1 (int 20)) ∷ (2, gpu 2 (int 90)) ∷ [] }

abbrev sim : SimState
sim = record {
  backend = backend;
  ticks = 0;
  rng = λ tick gpu. record { random = int 0; idle = int 0; noise = int 0 };
}

abbrev failsafe : FailsafeLoop SimState
failsafe = record {
  actuator = sim;
  threshold = int 500;
  emergency_cap = int 350;
  poll_interval = int 1;
  trip_count = 0;
}

init-failsafe : init sim (int 500) (int 350) (int 1) ≡ ok failsafe
unfolding init leb int
init-failsafe = refl

cap_nonneg : int 0 ≤ int 350
unfolding leb int
cap_nonneg = record { holds = refl }

scan-Guarded_example :
    All
      (Guarded sim_actuator (int 500) (int 350) (scan sim_actuator failsafe).actuator)
      (range (sim_actuator.gpu_count sim))
scan-Guarded_example =
    scan-Guarded sim_actuator sim_actuator-IsTarget failsafe
      (init-IsFailsafe sim (int 500) (int 350) (int 1) cap_nonneg init-failsafe)

-- Of three GPUs two draw too much.
two_trips : (scan sim_actuator failsafe).trip_count ≡ 2
unfolding scan range scan_gpus sim_actuator gpu_count caught opendps.Agent.Failsafe.poll_gpu trip
    opendps.Sim.Backend.get_power_draw opendps.Sim.Backend.set_power_cap power_draw_w get set leb
    int ◌*◌ ◌/◌ ◌+◌ opendps.Num.◌-◌ opendps.Num.min opendps.Num.max
two_trips = refl

-- A cap at the threshold is refused.
init-refused : init sim (int 500) (int 500) (int 1) ≡ raise value_error
unfolding init leb int
init-refused = refl

abbrev accountant : EnergyAccountant
accountant = record { energy_j = (0, int 1000) ∷ [] }

abbrev draws : Dict ℕ (Option ℚ)
draws = (0, some (int 300)) ∷ (1, none) ∷ (2, some (int 200)) ∷ []

ten_pos : int 0 < int 10
unfolding leb int
ten_pos = record { holds = refl }

total_wh-add_tick_example :
    total_wh (add_tick accountant draws (int 10)).0
    ≡ total_wh accountant + sum_map (λ e. watts e.1) draws * int 10 / j_per_wh
total_wh-add_tick_example = total_wh-add_tick accountant draws (int 10) ten_pos

draws_nonneg : All (λ e. int 0 ≤ watts e.1) draws
unfolding leb int
draws_nonneg = (record { holds = refl }, (record { holds = refl }, (record { holds = refl }, tt)))

-- A GPU that the driver numbers, a process on it, and a line that ends the reading.
abbrev polling : JobTracker
polling = record { jobs = []; uuid_to_index = ("GPU-a", pos 3) ∷ [] }

abbrev printed_jobs : String
printed_jobs = "17, GPU-a, 512\n18, GPU-b, 64\nbroken, GPU-a, 1\n19, GPU-a, 2\n"

poll-IsFiled_example : IsFiled polling.uuid_to_index (poll polling (some printed_jobs))
poll-IsFiled_example = poll-IsFiled polling (some printed_jobs)

polled_job :
    poll polling (some printed_jobs)
    ≡ (
      3,
      record { pid = pos 17; gpu_uuid = "GPU-a"; gpu_index = 3; used_memory_mib = pos 512 } ∷ [],
    )
      ∷ []
unfolding poll splitlines strip split_on to_int get_or get set
polled_job = refl

refreshed :
    (refresh_uuid_map (some "0, GPU-b\r\n3, GPU-a\n") empty_tracker).uuid_to_index
    ≡ ("GPU-b", pos 0) ∷ ("GPU-a", pos 3) ∷ []
unfolding refresh_uuid_map splitlines strip split_once to_int set
refreshed = refl
