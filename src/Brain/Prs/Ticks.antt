-- ===== src/Brain/Prs/Ticks.antt =====
-- Several calls on one `PRSBrain`: the limiter between ticks, other domains, and `reset_ewma`.
use Prim.Native.String.{String}
use opendps.Prelude.{◌≡◌, subst, false, none, some}
use opendps.Dict.{Dict, nat_key, string_key, get, get-set, get-remove-set}
use opendps.Result.{ok}
use opendps.Brain.State.{DomainState, BrainDecision}
use opendps.Brain.Prs.{
  PrsBrain, metrics_of, start_tick, caps_of, decide_within, decide, get_last_metrics, reset_ewma,
}
use opendps.Brain.Prs.Decide.{decide-eq-ok}

-- A decision for one domain leaves the averages, caps on record and metrics of every other domain
-- as they were.
pub decide_other :
    (b : PrsBrain) (n m : String) (s : DomainState) {r : PrsBrain × BrainDecision}
    → string_key.beq n m ≡ false
    → decide b n s ≡ ok r
    → (get m r.0.ewma ≡ get m b.ewma)
      × (get m r.0.last_caps ≡ get m b.last_caps)
      × (get_last_metrics r.0 m ≡ get_last_metrics b m)
unfolding decide_within get_last_metrics
decide_other b n m s other h =
    let (budget, known, e) = decide-eq-ok b n s h in
    subst
      (λ q.
        (get m q.0.ewma ≡ get m b.ewma)
        × (get m q.0.last_caps ≡ get m b.last_caps)
        × (get m q.0.last_metrics ≡ get m b.last_metrics))
      e (simp (get-set, other), simp (get-set, other), simp (get-set, other))

-- Resetting a domain after its first decision gives back the brain from before that decision.
pub reset_ewma-decide :
    (b : PrsBrain) (n : String) (s : DomainState) {r : PrsBrain × BrainDecision}
    → get n b.ewma ≡ none
    → get n b.last_caps ≡ none
    → get_last_metrics b n ≡ none
    → decide b n s ≡ ok r
    → reset_ewma r.0 (some n) ≡ b
unfolding decide_within get_last_metrics reset_ewma
reset_ewma-decide b n s h k l d =
    let (budget, known, e) = decide-eq-ok b n s d in
    subst (λ q. reset_ewma q.0 (some n) ≡ b) e
      (λ i. record b {
        ewma = get-remove-set n (start_tick b n budget s).ewma b.ewma h i;
        last_caps = get-remove-set n (caps_of b n budget s) b.last_caps k i;
        last_metrics =
            get-remove-set n (metrics_of (start_tick b n budget s) (caps_of b n budget s))
              b.last_metrics l i;
      })
