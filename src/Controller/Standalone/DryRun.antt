-- ===== src/Controller/Standalone/DryRun.antt =====
-- A dry run.
use Prim.Native.Nat.{ℕ}
use Prim.Native.String.{String}
use opendps.Prelude.{
  ◌≡◌, refl, inl, inr, true, false, Bool-cases, Option, none, some, List, [], ◌∷◌,
}
use opendps.Num.{ℚ}
use opendps.Dict.{Dict}
use opendps.Result.{Result}
use opendps.Op.{Keeps, Keeps-return, Keeps-lift, Keeps-gets, Keeps-modify, Keeps-bind, Keeps-then}
use opendps.Brain.State.{DomainState}
use opendps.Brain.Cvxpy.{Program, Solution}
use opendps.Sim.Actuator.{Actuator}
use opendps.Controller.Standalone.Brains.{ControllerConfig, managed_domains}
use opendps.Controller.Standalone.Tick.{
  Controller, GpuReading, Readings, adopt_from_store, with_topology, account, note_metrics,
  run_brain, with_decision, read_gpu, read_actuator, read_telemetry, push_caps, run_domain,
  run_domains, tick_sim, run_once,
}

module _ {A : Type 0} (target : Actuator A) where
  abbrev actuator_of : Controller A → A
  actuator_of c = c.actuator

  Keeps-read_gpu :
      (fallback_cap : ℚ) (gpu : ℕ) (r : Readings)
      → Keeps actuator_of (read_gpu target fallback_cap gpu r)
  unfolding read_gpu
  Keeps-read_gpu fallback_cap gpu r = Keeps-bind (Keeps-gets _) (λ a.
      Keeps-bind (Keeps-lift _) (λ draw.
        Keeps-bind (Keeps-lift _) (λ cap. Keeps-bind (Keeps-lift _) (λ m. (Keeps-return _)))))

  Keeps-read_actuator :
      (fallback_cap : ℚ) (gpus : List ℕ) (r : Readings)
      → Keeps actuator_of (read_actuator target fallback_cap gpus r)
  unfolding read_actuator
  Keeps-read_actuator fallback_cap [] r = Keeps-return _
  Keeps-read_actuator fallback_cap (gpu ∷ gpus) r =
      Keeps-bind (Keeps-read_gpu fallback_cap gpu r) (Keeps-read_actuator fallback_cap gpus)

  Keeps-read_telemetry :
      (sample : Option (Dict ℕ GpuReading)) (fallback_cap : ℚ) (gpus : List ℕ)
      → Keeps actuator_of (read_telemetry target sample fallback_cap gpus)
  unfolding read_telemetry
  Keeps-read_telemetry none fallback_cap gpus = Keeps-read_actuator fallback_cap gpus _
  Keeps-read_telemetry (some sample) fallback_cap gpus = Keeps-return _

  module _ (solve : Option (Program → Result Solution)) (config : ControllerConfig)
      (dry : config.dry_run ≡ true) where
    Keeps-run_brain :
        (domain_name : String) (state : DomainState)
        → Keeps actuator_of (run_brain {A = A} solve domain_name state)
    unfolding run_brain with_decision
    Keeps-run_brain domain_name state = record { holds = λ c. refl }

    Keeps-adopt :
        (domain_name : String) (read : Option (Result (Option ℚ))) (c : Controller A)
        → (adopt_from_store config domain_name read c).actuator ≡ c.actuator
    unfolding adopt_from_store with_topology
    Keeps-adopt domain_name none c = refl
    Keeps-adopt domain_name (some read) c = refl

    Keeps-note_metrics :
        (domain_name : String) (gpu_draws caps : Dict ℕ ℚ) (c : Controller A)
        → (note_metrics config domain_name gpu_draws caps c).actuator ≡ c.actuator
    unfolding note_metrics
    Keeps-note_metrics domain_name gpu_draws caps c = elim (Bool-cases config.has_metrics_port) [
      | inl on ↦ rw on refl
      | inr off ↦ rw off refl
    ]

    Keeps-push_caps : (caps : Dict ℕ ℚ) → Keeps actuator_of (push_caps target config caps)
    unfolding push_caps
    Keeps-push_caps caps = rw dry (Keeps-return _)

    Keeps-run_domain :
        (read_budget : String → String → Option (Result (Option ℚ)))
        (sample : Option (Dict ℕ GpuReading)) (ts : ℚ) (domain_name : String)
        → Keeps actuator_of (run_domain target solve read_budget config sample ts domain_name)
    unfolding run_domain account
    Keeps-run_domain read_budget sample ts domain_name = Keeps-bind (Keeps-gets _) (λ found.
        Keeps-bind (Keeps-lift _) (λ domain.
          Keeps-then (Keeps-modify _ (Keeps-adopt domain_name _)) (
            Keeps-bind (Keeps-gets _) (λ known. Keeps-bind (Keeps-lift _) (λ budget.
              Keeps-bind (Keeps-read_telemetry sample _ domain.gpu_indices) (λ readings.
                Keeps-bind (Keeps-run_brain domain_name _) (λ decision.
                  Keeps-then (Keeps-modify _ (λ c. refl)) (
                    Keeps-then (Keeps-push_caps decision.caps) (
                      Keeps-then
                        (Keeps-modify _
                          (Keeps-note_metrics domain_name readings.draws decision.caps))
                        (Keeps-return _))))))))))

    Keeps-run_domains :
        (read_budget : String → String → Option (Result (Option ℚ)))
        (sample : Option (Dict ℕ GpuReading)) (ts : ℚ) (names : List String)
        → Keeps actuator_of (run_domains target solve read_budget config sample ts names)
    unfolding run_domains
    Keeps-run_domains read_budget sample ts [] = Keeps-return _
    Keeps-run_domains read_budget sample ts (name ∷ names) =
        Keeps-bind (Keeps-run_domain read_budget sample ts name) (λ decision.
          Keeps-bind (Keeps-run_domains read_budget sample ts names) (λ decisions. Keeps-return _))

    Keeps-tick_sim :
        config.sim_mode ≡ false
        → (c : Controller A) → (tick_sim target config c).actuator ≡ c.actuator
    unfolding tick_sim
    Keeps-tick_sim real c = rw real refl

    Keeps-run_once :
        (read_budget : String → String → Option (Result (Option ℚ)))
        (scrape : Result (Dict ℕ GpuReading)) (ts : ℚ)
        → config.sim_mode ≡ false
        → Keeps actuator_of (run_once target solve read_budget config scrape ts)
    unfolding run_once
    Keeps-run_once read_budget scrape ts real = Keeps-bind (Keeps-lift _) (λ sample.
        Keeps-bind (Keeps-run_domains read_budget sample ts (managed_domains config))
          (λ decisions. Keeps-then (Keeps-modify _ (Keeps-tick_sim real)) (Keeps-return _)))

  -- A tick in a dry run, not simulated, leaves the actuator as it was, whatever the telemetry,
  -- the store, the brain and the solver answer or raise.
  pub run_once-dry_run :
      (solve : Option (Program → Result Solution))
      (read_budget : String → String → Option (Result (Option ℚ))) (config : ControllerConfig)
      (scrape : Result (Dict ℕ GpuReading)) (ts : ℚ) (c : Controller A)
      → config.dry_run ≡ true
      → config.sim_mode ≡ false
      → (run_once target solve read_budget config scrape ts c).0.actuator ≡ c.actuator
  run_once-dry_run solve read_budget config scrape ts c dry real =
      (Keeps-run_once solve config dry read_budget scrape ts real).holds c
