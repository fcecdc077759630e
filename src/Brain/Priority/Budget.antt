-- ===== src/Brain/Priority/Budget.antt =====
-- The budget of a domain under `PriorityTieredPRSBrain`.
use Prim.Native.String.{String}
use opendps.Prelude.{◌≡◌, refl, true, false, [], nat_leb}
use opendps.Num.{ℚ, int, ◌≤◌, ◌<◌, sum}
use opendps.Dict.{string_key, get_or, values, length, get_or-set_self}
use opendps.Result.{ok}
use opendps.Pdn.Model.{domain_budget_w}
use opendps.Brain.State.{DomainState, BrainDecision}
use opendps.Brain.Scale.{is_zero-pos, scale_down, sum-scale_down-le}
use opendps.Brain.Prs.{PrsBrain, note_applied_caps}
use opendps.Brain.Prs
use opendps.Brain.Priority.{PriorityBrain, contended, arbitrate, tiered_caps, decide_after, decide}

-- With a positive budget and at least two contended GPUs, PriorityTieredPRSBrain.decide returns,
-- its caps add up to at most the budget, and the wrapped brain has them on record.
pub decide-contended :
    (b : PriorityBrain) (n : String) (s : DomainState) (budget : ℚ) (prs : PrsBrain)
    (proposal : BrainDecision)
    → Prs.decide b.prs n s ≡ ok (prs, proposal)
    → domain_budget_w b.topology n ≡ ok budget
    → int 0 < budget
    → nat_leb (length (contended b s proposal.caps)) 1 ≡ false
    → (r : PriorityBrain × BrainDecision) × (decide b n s ≡ ok r)
      × (sum (values (r.1).caps) ≤ budget)
      × (get_or n [] r.0.prs.last_caps ≡ (r.1).caps)
unfolding decide decide_after arbitrate note_applied_caps
decide-contended b n s budget prs proposal h known pos two =
    let caps = scale_down budget (tiered_caps b s budget proposal.caps) in
    (
      arbitrate b n s budget prs proposal.caps,
      rw (h, two, known, is_zero-pos pos) refl,
      sum-scale_down-le budget (tiered_caps b s budget proposal.caps) pos,
      get_or-set_self n caps [] prs.last_caps,
    )

-- With fewer, the proposal of the wrapped brain stands.
pub decide_uncontended :
    (b : PriorityBrain) (n : String) (s : DomainState) (prs : PrsBrain) (proposal : BrainDecision)
    → Prs.decide b.prs n s ≡ ok (prs, proposal)
    → nat_leb (length (contended b s proposal.caps)) 1 ≡ true
    → decide b n s ≡ ok (record b { prs = prs }, proposal)
unfolding decide decide_after
decide_uncontended b n s prs proposal h few = rw (h, few) refl
