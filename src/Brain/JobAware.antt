-- ===== src/Brain/JobAware.antt =====
-- opendps/brain/job_aware_prs.py: `JobAwarePRSBrain`, which favours GPUs with running jobs.
pub mod Boost
use Prim.Native.Nat.{ℕ}
use Prim.Native.String.{String}
use opendps.Prelude.{Bool, true, false, List, [], ◌∷◌, if◌then◌else◌}
use opendps.Num.{ℚ, ◌+◌, ◌*◌, int, ltb, min}
use opendps.Dict.{Dict, nat_key, get_or, keys, map_values, filter}
use opendps.Result.{Result, ok, raise, ◌>>=◌, ◌>>◌, raise_if, value_error}
use opendps.Pdn.Model.{PdnTopology, domain_budget_w}
use opendps.Agent.JobTracker.{JobTracker, is_gpu_busy}
use opendps.Brain.State.{DomainState, BrainDecision}
use opendps.Brain.Scale.{scale_down}
use opendps.Brain.Prs.{PrsBrain}
use opendps.Brain.Prs

pub record JobAwareBrain : Type 0 where
  pub topology : PdnTopology
  pub prs : PrsBrain
  pub tracker : JobTracker
  pub boost : ℚ

-- `__init__`; the other arguments are the ones of `PRSBrain`.
unfoldable pub init : PdnTopology → JobTracker → ℚ → ℚ → ℚ → ℚ → ℚ → ℚ → Result JobAwareBrain
init topology job_tracker priority_boost min_cap_w alpha threshold margin rate = do
  raise_if (ltb priority_boost (int 0)) value_error
  prs ← Prs.init topology min_cap_w alpha threshold margin rate
  ok (record { topology = topology; prs = prs; tracker = job_tracker; boost = priority_boost })

unfoldable pub busy : JobAwareBrain → Dict ℕ ℚ → List ℕ
busy b caps = filter (is_gpu_busy b.tracker) (keys caps)

unfoldable pub boosted_cap : ℚ → ℚ → ℚ → ℚ
boosted_cap boost hw_max cap = min (cap * (int 1 + boost)) hw_max

unfoldable pub boosted_caps : JobAwareBrain → DomainState → Dict ℕ ℚ → Dict ℕ ℚ
boosted_caps b state caps =
    map_values
      (λ g cap.
        if is_gpu_busy b.tracker g
        then boosted_cap b.boost (get_or g cap state.gpu_max_caps) cap
        else cap)
      caps

-- The part of `decide` after the proposal, on the list of busy GPUs.
unfoldable pub decide_busy :
    JobAwareBrain → String → DomainState → BrainDecision → List ℕ → Result BrainDecision
decide_busy b domain_name state decision [] = ok decision
decide_busy b domain_name state decision (g ∷ rest) = do
  budget ← domain_budget_w b.topology domain_name
  ok (record decision { caps = scale_down budget (boosted_caps b state decision.caps) })

unfoldable pub decide :
    JobAwareBrain → String → DomainState → Result (JobAwareBrain × BrainDecision)
unfolding decide_busy
decide b domain_name state = do
  (prs, proposal) ← Prs.decide b.prs domain_name state
  decision ← decide_busy b domain_name state proposal (busy b proposal.caps)
  ok (record b { prs = prs }, decision)
