-- ===== src/Brain/JobAware/Boost.antt =====
-- The boost of `JobAwarePRSBrain` against the budget and the hardware maxima.
use Prim.Native.Nat.{ℕ}
use Prim.Native.String.{String}
use opendps.Prelude.{◌≡◌, refl, List, ◌∷◌}
use opendps.Num.{ℚ, int, ◌≤◌, ◌<◌, sum}
use opendps.Dict.{nat_key, values}
use opendps.Result.{ok}
use opendps.Pdn.Model.{domain_budget_w}
use opendps.Brain.State.{DomainState, BrainDecision}
use opendps.Brain.Scale.{scale_down, sum-scale_down-le}
use opendps.Brain.Prs.{PrsBrain}
use opendps.Brain.Prs
use opendps.Brain.JobAware.{JobAwareBrain, busy, boosted_caps, decide_busy, decide}

-- With a positive budget and a busy GPU, JobAwarePRSBrain.decide returns and its caps add up to
-- at most the budget.
pub decide-busy_budget :
    (b : JobAwareBrain) (n : String) (s : DomainState) (budget : ℚ) (prs : PrsBrain)
    (proposal : BrainDecision) (g : ℕ) (rest : List ℕ)
    → Prs.decide b.prs n s ≡ ok (prs, proposal)
    → domain_budget_w b.topology n ≡ ok budget
    → int 0 < budget
    → busy b proposal.caps ≡ g ∷ rest
    → (r : JobAwareBrain × BrainDecision) × (decide b n s ≡ ok r)
      × (sum (values (r.1).caps) ≤ budget)
unfolding decide decide_busy
decide-busy_budget b n s budget prs proposal g rest h known pos some_busy =
    let caps = scale_down budget (boosted_caps b s proposal.caps) in
    (
      (record b { prs = prs }, record proposal { caps = caps }),
      rw (h, some_busy, known) refl,
      sum-scale_down-le budget (boosted_caps b s proposal.caps) pos,
    )
