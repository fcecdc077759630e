-- ===== src/Telemetry/Metrics.antt =====
-- opendps/telemetry/metrics.py: the gauges and the counter that the controller keeps, by domain, and
-- by GPU or tenant below it.
use Prim.Native.Nat.{ℕ}
use Prim.Native.String.{String}
use opendps.Prelude.{Bool, Option, none, some, [], if◌then◌else◌}
use opendps.Num.{ℚ, ◌+◌, int, ltb}
use opendps.Dict.{Dict, nat_key, string_key, get_or, set, update}

pub record Metrics : Type 0 where
  pub stranded : Dict String ℚ
  pub prs_active : Dict String ℕ
  pub domain_draw : Dict String ℚ
  pub domain_cap : Dict String ℚ
  pub hot_count : Dict String ℕ
  pub idle_count : Dict String ℕ
  pub gpu_draw : Dict String (Dict ℕ ℚ)
  pub gpu_cap : Dict String (Dict ℕ ℚ)
  pub failsafe_trips : Dict String ℕ
  pub tenant_energy : Dict String (Dict String ℚ)

-- A counter that has not been touched is at zero.
unfoldable pub energy_of : Metrics → String → String → ℚ
energy_of m domain tenant = get_or tenant (int 0) (get_or domain [] m.tenant_energy)

unfoldable pub add_tenant_energy_kwh : String → String → ℚ → Metrics → Metrics
unfolding energy_of
add_tenant_energy_kwh domain tenant delta_kwh m =
    if ltb (int 0) delta_kwh
    then record m {
      tenant_energy =
          set domain
            (set tenant (energy_of m domain tenant + delta_kwh) (get_or domain [] m.tenant_energy))
            m.tenant_energy;
    }
    else m

-- What `_domain_stats` returns.
pub record DomainStats : Type 0 where
  pub idle_stranded_w : ℚ
  pub hot_count : ℕ
  pub idle_count : ℕ
  pub draw_w : ℚ
  pub cap_w : ℚ

unfoldable pub set_trips : String → Option ℕ → Dict String ℕ → Dict String ℕ
set_trips domain none trips = trips
set_trips domain (some n) trips = set domain n trips

-- The gauges of GPUs that are not named keep their values.
unfoldable pub update_decision_metrics :
    String → Bool → DomainStats → Dict ℕ ℚ → Dict ℕ ℚ → Option ℕ → Metrics → Metrics
unfolding set_trips
update_decision_metrics domain prs_active stats gpu_draws gpu_caps failsafe_trips m = record {
  stranded = set domain stats.idle_stranded_w m.stranded;
  prs_active = set domain (if prs_active then 1 else 0) m.prs_active;
  domain_draw = set domain stats.draw_w m.domain_draw;
  domain_cap = set domain stats.cap_w m.domain_cap;
  hot_count = set domain stats.hot_count m.hot_count;
  idle_count = set domain stats.idle_count m.idle_count;
  gpu_draw = set domain (update (get_or domain [] m.gpu_draw) gpu_draws) m.gpu_draw;
  gpu_cap = set domain (update (get_or domain [] m.gpu_cap) gpu_caps) m.gpu_cap;
  failsafe_trips = set_trips domain failsafe_trips m.failsafe_trips;
  tenant_energy = m.tenant_energy;
}
