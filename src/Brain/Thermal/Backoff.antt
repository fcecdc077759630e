-- ===== src/Brain/Thermal/Backoff.antt =====
-- Single GPUs under `ThermalAwarePRSBrain`, and its `decide`.
use Prim.Native.Nat.{ℕ}
use Prim.Native.String.{String}
use opendps.Prelude.{
  ◌≡◌, refl, ◌∙◌, Bool, true, false, ◌&&◌, List, [], ◌∷◌, Bool-cases, Option-cases, inl, inr,
}
use opendps.Num.{ℚ, int, ltb, ◌≤◌, All, sum, le_refl, le_trans, min_le_left, min_le_right}
use opendps.Dict.{
  Dict, nat_key, get, get_or, or_default, values, keys, filter, keys-filter, All-where, map_values,
}
use opendps.Result.{ok}
use opendps.Brain.State.{DomainState, BrainDecision}
use opendps.Brain.Prs.{PrsBrain}
use opendps.Brain.Prs
use opendps.Brain.Thermal.{
  ThermalBrain, is_throttled, throttled, backed_off, reduced, reduced_caps, total_head, freed, give,
  redistribute, thermal_caps, decide_throttled, decide,
}
use opendps.Brain.Thermal.Total.{sum-thermal_caps-le}

-- A throttling GPU's new cap is at most the cap that it reports.
abbrev Held : DomainState → ℕ × ℚ → Type 0
Held state e = e.1 ≤ get_or e.0 e.1 state.gpu_caps

held_if : (x c : ℚ) (g : ℕ) (d : Dict ℕ ℚ) → x ≤ get_or g c d → x ≤ get_or g x d
unfolding get_or or_default
held_if x c g d h = elim (Option-cases (get g d)) [
  | inl e ↦ rw e (le_refl x)
  | inr (v, e) ↦ let k : x ≤ v = rw e at h in rw e k
]

HeldThrottled : DomainState → ℕ × ℚ → Type 0
HeldThrottled state e = is_throttled state e.0 ≡ true → Held state e

true-ne-false : {A : Type 0} {x : Bool} → x ≡ true → x ≡ false → A
true-ne-false h k = cc

reduced-Held :
    (b : ThermalBrain) (state : DomainState) (g : ℕ) (cap : ℚ)
    → Held state (g, reduced b state g cap)
unfolding reduced backed_off
reduced-Held b state g cap =
    held_if _ cap g state.gpu_caps (le_trans (min_le_left _ _) (min_le_right cap _))

All-reduced_caps :
    (b : ThermalBrain) (state : DomainState) (caps : Dict ℕ ℚ)
    → All (HeldThrottled state) (reduced_caps b state caps)
unfolding reduced_caps map_values HeldThrottled
All-reduced_caps b state [] = tt
All-reduced_caps b state ((g, c) ∷ caps) = elim (Bool-cases (is_throttled state g)) [
  | inl t ↦ rw t ((λ _. reduced-Held b state g c), All-reduced_caps b state caps)
  | inr f ↦ ((λ t. true-ne-false t f), All-reduced_caps b state caps)
]

All-give :
    (state : DomainState) (watts total : ℚ) (caps : Dict ℕ ℚ)
    → All (HeldThrottled state) caps
    → All (HeldThrottled state) (give state watts total caps)
unfolding give map_values HeldThrottled
All-give state watts total [] h = tt
All-give state watts total ((g, c) ∷ caps) (h, hs) = elim (Bool-cases (is_throttled state g)) [
  | inl t ↦ rw t ((λ _. h t), All-give state watts total caps hs)
  | inr f ↦ ((λ t. true-ne-false t f), All-give state watts total caps hs)
]

All-thermal_caps :
    (b : ThermalBrain) (state : DomainState) (caps : Dict ℕ ℚ)
    → All (HeldThrottled state) (thermal_caps b state caps)
unfolding thermal_caps redistribute
All-thermal_caps b state caps =
    let low = reduced_caps b state caps in
    elim (Bool-cases (ltb (int 0) (freed b state caps) && ltb (int 0) (total_head state low))) [
      | inl t ↦ rw t (All-give state _ _ low (All-reduced_caps b state caps))
      | inr f ↦ rw f (All-reduced_caps b state caps)
    ]

All-keys-nil : (P : ℕ × ℚ → Type 0) (d : Dict ℕ ℚ) → keys d ≡ [] → All P d
All-keys-nil P [] h = tt
All-keys-nil P (e ∷ d) h = cc

Held-decision :
    (b : ThermalBrain) (n : String) (s : DomainState) (prs : PrsBrain) (proposal : BrainDecision)
    (gs : List ℕ)
    → throttled s proposal.caps ≡ gs
    → All
        (Held s)
        (filter (λ e. is_throttled s e.0) ((decide_throttled b n s prs proposal gs).1).caps)
unfolding decide_throttled throttled HeldThrottled
Held-decision b n s prs proposal [] e =
    All-keys-nil (Held s) (filter (λ e. is_throttled s e.0) proposal.caps)
      (keys-filter (is_throttled s) proposal.caps ∙ e)
Held-decision b n s prs proposal (g ∷ gs) e =
    All-where (Held s) (λ e. is_throttled s e.0) (thermal_caps b s proposal.caps)
      (All-thermal_caps b s proposal.caps)

sum_decision-le :
    (b : ThermalBrain) (n : String) (s : DomainState) (prs : PrsBrain) (proposal : BrainDecision)
    (gs : List ℕ)
    → sum (values ((decide_throttled b n s prs proposal gs).1).caps) ≤ sum (values proposal.caps)
unfolding decide_throttled
sum_decision-le b n s prs proposal [] = le_refl _
sum_decision-le b n s prs proposal (g ∷ gs) = sum-thermal_caps-le b s proposal.caps

-- On a proposal of the wrapped brain ThermalAwarePRSBrain.decide returns; its caps add up to at
-- most what was proposed, and the cap of a GPU that throttles is at most the cap that it reports,
-- if any.
pub decide_backoff :
    (b : ThermalBrain) (n : String) (s : DomainState) (prs : PrsBrain) (proposal : BrainDecision)
    → Prs.decide b.prs n s ≡ ok (prs, proposal)
    → (r : ThermalBrain × BrainDecision) × (decide b n s ≡ ok r)
      × (sum (values (r.1).caps) ≤ sum (values proposal.caps))
      × All (λ e. e.1 ≤ get_or e.0 e.1 s.gpu_caps) (filter (λ e. is_throttled s e.0) (r.1).caps)
unfolding decide
decide_backoff b n s prs proposal h =
    let gs = throttled s proposal.caps in
    (
      decide_throttled b n s prs proposal gs,
      rw h refl,
      sum_decision-le b n s prs proposal gs,
      Held-decision b n s prs proposal gs refl,
    )
