-- ===== src/Brain/Prs/Decide.antt =====
-- `PRSBrain.decide` as a whole: its invariant, the budget and the hardware maxima.
use Prim.Native.String.{String}
use Prim.Native.Nat.{ℕ}
use opendps.Prelude.{◌≡◌, ◌⊎◌, refl, sym, subst, [], inl, inr, none, some}
use opendps.Num.{
  ℚ, ◌+◌, ◌*◌, ◌/◌, int, ◌≤◌, ◌<◌, max, sum, length, All, le_trans, le_of_lt, le_or_lt,
}
use opendps.Dict.{
  nat_key, string_key, get, get_or, or_default, keys, values, Distinct, All-set, All-get,
  All-get_or,
}
use opendps.Result.{ok, >>=-eq-ok, ok-injective, raise-ne-ok}
use opendps.Pdn.Model.{PdnTopology, domain_budget_w}
use opendps.Brain.State.{DomainState, BrainDecision}
use opendps.Brain.Prs.{
  PrsBrain, Tick, init, hot_gpus, idle_caps, fallback_max, hw_max, start_tick, caps_of,
  decide_within, decide,
}
use opendps.Brain.Prs.Ewma.{update_ewma_nonneg}
use opendps.Brain.Prs.Caps.{limited_caps-le}
use opendps.Brain.Prs.Budget.{
  sum-limited_caps-le, sum-target_caps-le, limited_caps-Distinct, limited_caps-All,
}

-- What the constructor checks, a floor that is not negative, and averages that are not negative.
pub record IsValid (b : PrsBrain) : Type 0 where
  pub alpha_pos : int 0 < b.alpha
  pub alpha_le : b.alpha ≤ int 1
  pub floor_nonneg : int 0 ≤ b.min_cap_w
  pub rate_nonneg : int 0 ≤ b.cap_raise_rate
  pub ewma_nonneg : All (λ e. All (λ a. int 0 ≤ a.1) e.1) b.ewma

-- A sample: a GPU is in it once, and no draw is negative.
pub record IsSample (s : DomainState) : Type 0 where
  pub distinct : Distinct (keys s.gpu_draws)
  pub draws_nonneg : All (λ e. int 0 ≤ e.1) s.gpu_draws

-- A brain that the constructor returns for a floor that is not negative is valid.
pub init-IsValid :
    (topology : PdnTopology) (floor alpha threshold margin rate : ℚ) {b : PrsBrain}
    → int 0 ≤ floor
    → init topology floor alpha threshold margin rate ≡ ok b
    → IsValid b
unfolding init
init-IsValid topology floor alpha threshold margin rate {b} pf h = elim (le_or_lt alpha (int 0)) [
  | inl none_left ↦ absurd (raise-ne-ok (rw none_left.holds at h))
  | inr pos ↦ elim (le_or_lt alpha (int 1)) [
    | inr above ↦ absurd (raise-ne-ok (rw (pos.holds, above.holds) at h))
    | inl below ↦ elim (le_or_lt (int 0) rate) [
      | inr negative ↦ absurd (raise-ne-ok (rw (pos.holds, below.holds, negative.holds) at h))
      | inl rising ↦
          subst IsValid (ok-injective (rw (pos.holds, below.holds, rising.holds) at h)) (record {
            alpha_pos = pos;
            alpha_le = below;
            floor_nonneg = pf;
            rate_nonneg = rising;
            ewma_nonneg = tt;
          })
    ]
  ]
]

ewma_of_nonneg :
    (b : PrsBrain) (n : String) → IsValid b → All (λ a. int 0 ≤ a.1) (get_or n [] b.ewma)
ewma_of_nonneg b n v = All-get_or (λ d. All (λ a. int 0 ≤ a.1) d) n [] b.ewma tt v.ewma_nonneg

tick_nonneg :
    (b : PrsBrain) (n : String) (budget : ℚ) (s : DomainState)
    → IsValid b
    → IsSample s
    → All (λ a. int 0 ≤ a.1) (start_tick b n budget s).ewma
unfolding start_tick
tick_nonneg b n budget s v w =
    update_ewma_nonneg b.alpha s.gpu_draws _ (le_of_lt v.alpha_pos) v.alpha_le w.draws_nonneg
      (ewma_of_nonneg b n v)

decide_within-IsValid :
    (b : PrsBrain) (n : String) (budget : ℚ) (s : DomainState)
    → IsValid b
    → IsSample s
    → IsValid (decide_within b n budget s).0
unfolding decide_within
decide_within-IsValid b n budget s v w = record {
  alpha_pos = v.alpha_pos;
  alpha_le = v.alpha_le;
  floor_nonneg = v.floor_nonneg;
  rate_nonneg = v.rate_nonneg;
  ewma_nonneg =
      All-set (λ e. All (λ a. int 0 ≤ a.1) e.1) n _ b.ewma (tick_nonneg b n budget s v w)
        v.ewma_nonneg;
}

-- A decision is made against the domain's budget.
pub decide-eq-ok :
    (b : PrsBrain) (n : String) (s : DomainState) {r : PrsBrain × BrainDecision}
    → decide b n s ≡ ok r
    → (budget : ℚ) × (domain_budget_w b.topology n ≡ ok budget) × (decide_within b n budget s ≡ r)
unfolding decide
decide-eq-ok b n s h =
    let (budget, known, e) = >>=-eq-ok (domain_budget_w b.topology n) _ h in
    (budget, known, ok-injective e)

-- A decision on a sample with distinct GPUs and draws that are not negative keeps a valid brain
-- valid: the constructor's checks, a floor that is not negative, and averages that are not
-- negative, for every domain.
pub decide-IsValid :
    (b : PrsBrain) (n : String) (s : DomainState) {r : PrsBrain × BrainDecision}
    → IsValid b
    → IsSample s
    → decide b n s ≡ ok r
    → IsValid r.0
decide-IsValid b n s v w h =
    let (budget, known, e) = decide-eq-ok b n s h in
    subst (λ r. IsValid r.0) e (decide_within-IsValid b n budget s v w)

-- For a domain of the topology PRSBrain.decide returns, and its caps add up to at most the larger
-- of the budget and the idle caps, plus the floor for each hot GPU (valid brain, sample without
-- negative draws).
pub decide_budget :
    (b : PrsBrain) (n : String) (s : DomainState) (budget : ℚ)
    → IsValid b
    → IsSample s
    → domain_budget_w b.topology n ≡ ok budget
    → (r : PrsBrain × BrainDecision) × (decide b n s ≡ ok r)
      × (let t = start_tick b n budget s in
          sum (values (r.1).caps)
          ≤ max budget (sum (values (idle_caps t))) + int (length (hot_gpus t)) * b.min_cap_w)
unfolding decide decide_within caps_of start_tick
decide_budget b n s budget v w known =
    let t = start_tick b n budget s in
    (
      decide_within b n budget s,
      rw known refl,
      le_trans (sum-limited_caps-le t (get_or n [] b.last_caps))
          (sum-target_caps-le t w.distinct v.floor_nonneg (tick_nonneg b n budget s v w)),
    )

-- The hardware maximum of a GPU: the one that is reported, or else its cap, or else an even share of
-- the budget.
abbrev pub IsMaximum : DomainState → ℚ → ℕ → ℚ → Type 0
IsMaximum s budget g m =
    (get g s.gpu_max_caps ≡ some m)
    ⊎ ((get g s.gpu_max_caps ≡ none) × (get g s.gpu_caps ≡ some m))
    ⊎ ((get g s.gpu_max_caps ≡ none)
        × (get g s.gpu_caps ≡ none)
        × (m ≡ budget / max (int (length (keys s.gpu_draws))) (int 1)))

hw_max-eq : (t : Tick) (g : ℕ) (m : ℚ) → IsMaximum t.state t.budget g m → hw_max t g ≡ m
unfolding hw_max fallback_max get_or or_default
hw_max-eq t g m (inl reported) = rw reported refl
hw_max-eq t g m (inr (inl (unknown, held))) = rw (unknown, held) refl
hw_max-eq t g m (inr (inr (unknown, uncapped, even))) = rw (unknown, uncapped) (sym even)

-- PRSBrain.decide gives no GPU more than its hardware maximum, which is the maximum that the
-- sample reports for it, or else the cap that it reports, or else an even share of the budget; or
-- more than the floor where that is larger.
pub decide-hw_max :
    (b : PrsBrain) (n : String) (s : DomainState) (budget : ℚ) (g : ℕ) (m cap : ℚ)
    → {r : PrsBrain × BrainDecision} → domain_budget_w b.topology n ≡ ok budget
    → IsMaximum s budget g m
    → decide b n s ≡ ok r
    → get g (r.1).caps ≡ some cap
    → cap ≤ max b.min_cap_w m
unfolding decide decide_within caps_of start_tick
decide-hw_max b n s budget g m cap {r} known top h found =
    let t = start_tick b n budget s in
    let bounded : All (λ e. e.1 ≤ max b.min_cap_w (hw_max t e.0)) (r.1).caps =
      subst (λ q. All (λ e. e.1 ≤ max b.min_cap_w (hw_max t e.0)) (q.1).caps)
        (ok-injective (rw known at h)) (limited_caps-le t (get_or n [] b.last_caps)) in
    subst (λ w. cap ≤ max b.min_cap_w w) (hw_max-eq t g m top)
      (All-get (λ e. e.1 ≤ max b.min_cap_w (hw_max t e.0)) g cap (r.1).caps found bounded)

-- The caps of a decision are for GPUs of the sample, each once.
pub decide-Distinct :
    (b : PrsBrain) (n : String) (s : DomainState) {r : PrsBrain × BrainDecision}
    → Distinct (keys s.gpu_draws)
    → decide b n s ≡ ok r
    → Distinct (keys (r.1).caps)
unfolding decide_within caps_of start_tick
decide-Distinct b n s d h =
    let (budget, known, e) = decide-eq-ok b n s h in
    subst (λ r. Distinct (keys (r.1).caps)) e
      (limited_caps-Distinct (start_tick b n budget s) (get_or n [] b.last_caps) d)

pub decide-All :
    (P : ℕ → Type 0) (b : PrsBrain) (n : String) (s : DomainState) {r : PrsBrain × BrainDecision}
    → All P (keys s.gpu_draws)
    → decide b n s ≡ ok r
    → All (λ e. P e.0) (r.1).caps
unfolding decide_within caps_of start_tick
decide-All P b n s d h =
    let (budget, known, e) = decide-eq-ok b n s h in
    subst (λ r. All (λ e. P e.0) (r.1).caps) e
      (limited_caps-All (start_tick b n budget s) P (get_or n [] b.last_caps) d)
