-- ===== src/Controller/Standalone/Stats.antt =====
-- `_domain_stats`.
use Prim.Native.Nat.{ℕ, suc}
use opendps.Prelude.{[], ◌∷◌, if◌then◌else◌}
use opendps.Num.{ℚ, ◌+◌, ◌-◌, ◌/◌, int, ltb, max, sum}
use opendps.Dict.{Dict, nat_key, get_or, values}
use opendps.Telemetry.Metrics.{DomainStats}

-- `(draw / cap) if cap > 0 else 0.0`
unfoldable pub ratio : ℚ → ℚ → ℚ
ratio draw cap = if ltb (int 0) cap then draw / cap else int 0

-- What the loop counts.
pub record Counts : Type 0 where
  pub stranded : ℚ
  pub hot : ℕ
  pub idle : ℕ

unfoldable pub count_gpu : ℚ → ℚ → ℚ → Counts → Counts
unfolding ratio
count_gpu hot_threshold draw cap c =
    if ltb (ratio draw cap) hot_threshold
    then record { stranded = c.stranded + max (int 0) (cap - draw); hot = c.hot; idle = suc c.idle }
    else record c { hot = suc c.hot }

unfoldable pub count_gpus : ℚ → Dict ℕ ℚ → Dict ℕ ℚ → Counts → Counts
unfolding count_gpu
count_gpus hot_threshold gpu_draws [] c = c
count_gpus hot_threshold gpu_draws ((gpu, cap) ∷ caps) c =
    count_gpus hot_threshold gpu_draws caps
      (count_gpu hot_threshold (get_or gpu (int 0) gpu_draws) cap c)

unfoldable pub stats_of : Dict ℕ ℚ → Dict ℕ ℚ → Counts → DomainStats
stats_of gpu_draws caps c = record {
  idle_stranded_w = c.stranded;
  hot_count = c.hot;
  idle_count = c.idle;
  draw_w = sum (values gpu_draws);
  cap_w = sum (values caps);
}

unfoldable pub domain_stats : Dict ℕ ℚ → Dict ℕ ℚ → ℚ → DomainStats
unfolding count_gpus stats_of
domain_stats gpu_draws caps hot_threshold =
    stats_of gpu_draws caps
      (count_gpus hot_threshold gpu_draws caps (record { stranded = int 0; hot = 0; idle = 0 }))
