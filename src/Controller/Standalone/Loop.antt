-- ===== src/Controller/Standalone/Loop.antt =====
-- `StandaloneController.run`: the priority source is polled, a tick is run, and an exception ends the
-- tick only.
use Prim.Native.Nat.{ℕ}
use Prim.Native.String.{String}
use opendps.Prelude.{Bool, true, false, Option, none, some, List, [], ◌∷◌, if◌then◌else◌}
use opendps.Num.{ℚ, ◌/◌, int}
use opendps.Dict.{Dict, string_key, set}
use opendps.Result.{Result, Error, ok, raise}
use opendps.Op.{Op, return, ◌>>=◌, ◌>>◌}
use opendps.Json.{Json}
use opendps.Pdn.Quota.{TenantQuota}
use opendps.Brain.State.{BrainDecision}
use opendps.Brain.Cvxpy.{Program, Solution}
use opendps.Sim.Actuator.{Actuator}
use opendps.Telemetry.Energy.{EnergyAccountant, tenant_energy_wh}
use opendps.Controller.PriorityConfig.{PriorityConfigSource, Answer, poll}
use opendps.Controller.Standalone.Brains.{Brain, ControllerConfig, set_tiers}
use opendps.Controller.Standalone.Tick.{Controller, GpuReading, run_once, tenants_of}

-- The controller and its priority source, where it has one.
pub record Running (A : Type 0) : Type 0 where
  pub controller : Controller A
  pub source : Option PriorityConfigSource

unfoldable pub report : EnergyAccountant → List TenantQuota → Dict String ℚ → Dict String ℚ
report energy [] r = r
report energy (tenant ∷ tenants) r =
    report energy tenants
      (set tenant.tenant_id (tenant_energy_wh energy tenant.gpu_indices / int 1000) r)

unfoldable pub energy_showback : {A : Type 0} → ControllerConfig → Controller A → Dict String ℚ
unfolding report tenants_of
energy_showback config c = report c.energy (tenants_of config.quota_config) []

-- What the world answers during one iteration: the ConfigMap, Prometheus and the clock, and the
-- coordinator's store.
pub record Inputs : Type 0 where
  pub answer : Answer
  pub scrape : Result (Dict ℕ GpuReading)
  pub ts : ℚ
  pub read_budget : String → String → Option (Result (Option ℚ))

unfoldable pub with_tiers : {A : Type 0} → Running A → Result Brain → Running A × Result (Unit {0})
with_tiers r (raise e) = (r, raise e)
with_tiers r (ok brain) = (record r { controller = record r.controller { brain = brain } }, ok tt)

-- `set_tiers(priority_source.poll())`
unfoldable pub refresh_from :
    {A : Type 0}
    → (String → Option Json)
    → Answer
    → Option PriorityConfigSource
    → Op (Running A) (Unit {0})
unfolding with_tiers return
refresh_from loads answer none r = return tt r
refresh_from loads answer (some source) r =
    let polled = poll loads source answer in
    with_tiers (record r { source = some polled }) (set_tiers polled.snapshot r.controller.brain)

-- A brain without `set_tiers` is not polled for.
unfoldable pub can_set_tiers : Brain → Bool
can_set_tiers (Brain.priority_prs b) = true
can_set_tiers _ = false

unfoldable pub refresh_tiers :
    {A : Type 0} → (String → Option Json) → Answer → Op (Running A) (Unit {0})
unfolding refresh_from can_set_tiers
refresh_tiers loads answer r =
    if can_set_tiers r.controller.brain
    then refresh_from loads answer r.source r
    else (r, elim r.source [ none ↦ ok tt | some _ ↦ raise Error.type_error ])

unfoldable pub with_controller :
    {A B : Type 0} → Running A → Controller A × Result B → Running A × Result B
with_controller r (c, result) = (record r { controller = c }, result)

module _ {A : Type 0} (target : Actuator A) where
  unfoldable pub tick_once :
      Option (Program → Result Solution)
      → ControllerConfig
      → Inputs
      → Op (Running A) (List BrainDecision)
  unfolding run_once with_controller
  tick_once solve config inputs r =
      with_controller r
        (run_once target solve inputs.read_budget config inputs.scrape inputs.ts r.controller)

  -- One iteration; what it raises is logged.
  unfoldable pub iterate :
      Option (Program → Result Solution)
      → (String → Option Json)
      → ControllerConfig
      → Inputs
      → Running A
      → Running A
  unfolding refresh_tiers tick_once ◌>>=◌ ◌>>◌
  iterate solve loads config inputs r =
      ((refresh_tiers loads inputs.answer >> tick_once solve config inputs) r).0

  -- The loop, as far as the inputs go.
  unfoldable pub run :
      Option (Program → Result Solution)
      → (String → Option Json)
      → ControllerConfig
      → List Inputs
      → Running A
      → Running A
  unfolding iterate
  run solve loads config [] r = r
  run solve loads config (inputs ∷ rest) r =
      run solve loads config rest (iterate solve loads config inputs r)
