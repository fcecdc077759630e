-- ===== src/Sim/Backend.antt =====
-- opendps/sim/backend.py: the simulated GPUs. The numbers that the random generator returns are
-- arguments.
pub mod Caps
use Prim.Native.Nat.{ℕ}
use opendps.Prelude.{Bool, true, false, ◌&&◌, List, [], ◌∷◌, map, if◌then◌else◌, nat_leb}
use opendps.Sort.{sort}
use opendps.Num.{ℚ, ◌+◌, ◌*◌, ◌/◌, int, ltb, min, max}
use opendps.Dict.{Dict, nat_key, get, set, keys, values, map_values, length}
use opendps.Result.{Result, ok, raise, ◌>>=◌, or_raise, key_error}

abbrev pub load_efficiency : ℚ
load_efficiency = int 17 / int 20

abbrev pub idle_power_w : ℚ
idle_power_w = int 50

pub record LoadProfile : Type 0 where
  pub base_util_pct : ℚ
  pub util_noise : ℚ
  pub idle_fraction : ℚ

-- What the generator returns: `random()`, `uniform(2.0, 8.0)` and `uniform(-noise, noise)`.
pub record Draws : Type 0 where
  pub random : ℚ
  pub idle : ℚ
  pub noise : ℚ

unfoldable pub sample_util : LoadProfile → Draws → ℚ
sample_util load rng =
    if ltb (int 0) load.idle_fraction && ltb rng.random load.idle_fraction
    then max (int 0) rng.idle
    else max (int 0) (min (int 100) (load.base_util_pct + rng.noise))

pub record SimGpu : Type 0 where
  pub index : ℕ
  pub cap_w : ℚ
  pub max_cap_w : ℚ
  pub load : LoadProfile
  pub current_util : ℚ

unfoldable pub resample : SimGpu → Draws → SimGpu
resample gpu rng = record gpu { current_util = sample_util gpu.load rng }

unfoldable pub power_draw_w : SimGpu → ℚ
power_draw_w gpu =
    min (gpu.cap_w * (gpu.current_util / int 100) * load_efficiency + idle_power_w) gpu.cap_w

pub record SimBackend : Type 0 where
  pub gpus : Dict ℕ SimGpu

unfoldable pub by_index : Dict ℕ SimGpu → List SimGpu → Dict ℕ SimGpu
by_index d [] = d
by_index d (g ∷ gpus) = by_index (set g.index g d) gpus

unfoldable pub make_backend : List SimGpu → SimBackend
make_backend gpus = record { gpus = by_index [] gpus }

unfoldable pub capped : SimGpu → ℚ → SimGpu
capped gpu watts = record gpu { cap_w = min (max (int 0) watts) gpu.max_cap_w }

unfoldable pub set_power_cap : SimBackend → ℕ → ℚ → Result SimBackend
set_power_cap b gpu_index watts = do
  gpu ← or_raise key_error (get gpu_index b.gpus)
  ok (record { gpus = set gpu_index (capped gpu watts) b.gpus })

unfoldable pub get_power_cap : SimBackend → ℕ → Result ℚ
get_power_cap b gpu_index = do gpu ← or_raise key_error (get gpu_index b.gpus); ok gpu.cap_w

unfoldable pub get_power_draw : SimBackend → ℕ → Result ℚ
get_power_draw b gpu_index = do
  gpu ← or_raise key_error (get gpu_index b.gpus)
  ok (power_draw_w gpu)

unfoldable pub get_util_pct : SimBackend → ℕ → Result ℚ
get_util_pct b gpu_index = do gpu ← or_raise key_error (get gpu_index b.gpus); ok gpu.current_util

unfoldable pub get_max_cap_w : SimBackend → ℕ → Result ℚ
get_max_cap_w b gpu_index = do gpu ← or_raise key_error (get gpu_index b.gpus); ok gpu.max_cap_w

unfoldable pub gpu_count : SimBackend → ℕ
gpu_count b = length (keys b.gpus)

-- The generator of each GPU is a generator of its own.
unfoldable pub tick : SimBackend → (ℕ → Draws) → SimBackend
tick b rng = record { gpus = map_values (λ i gpu. resample gpu (rng i)) b.gpus }

-- One line of `snapshot`.
pub record Reading : Type 0 where
  pub index : ℕ
  pub power_draw_w : ℚ
  pub cap_w : ℚ
  pub util_pct : ℚ

unfoldable pub reading : SimGpu → Reading
reading gpu = record {
  index = gpu.index;
  power_draw_w = power_draw_w gpu;
  cap_w = gpu.cap_w;
  util_pct = gpu.current_util;
}

unfoldable pub snapshot : SimBackend → List Reading
unfolding reading
snapshot b = map reading (sort (λ g h. nat_leb g.index h.index) (values b.gpus))
