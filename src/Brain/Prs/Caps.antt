-- ===== src/Brain/Prs/Caps.antt =====
-- The caps of single GPUs under `PRSBrain`, and the limiter of raises.
use Prim.Native.Nat.{ℕ}
use opendps.Prelude.{◌≡◌, refl, Option, none, some, Bool-cases, inl, inr}
use opendps.Num.{
  ℚ, ◌+◌, ◌*◌, int, ltb, ◌≤◌, ◌<◌, max, All, All-All, le_refl, le_trans, min_le_left, min_le_right,
  le_max_left, le_max_right, max_le, le_or_lt, le_of_lt, le_add_right,
}
use opendps.Dict.{Dict, nat_key, All-map_values, All-tabulate, All-update}
use opendps.Brain.Prs.{
  Tick, hw_max, idle_cap, idle_caps, hot_cap, hot_caps, target_caps, limit, limited_caps,
  previous_cap, ewma_at, idle_gpus, hot_gpus,
}

-- The limiter only lowers a target.
pub limit_le : (rate : ℚ) (prev : Option ℚ) (target : ℚ) → limit rate prev target ≤ target
unfolding limit
limit_le rate none target = le_refl target
limit_le rate (some p) target = elim (le_or_lt target p) [
  | inl low ↦ rw low.holds (le_refl target)
  | inr high ↦ rw high.holds (min_le_left target (p + rate))
]

-- A raise is at most the rate, and a cap that is to fall, falls at once.
pub limit_raise : (rate p target : ℚ) → int 0 ≤ rate → limit rate (some p) target ≤ p + rate
unfolding limit
limit_raise rate p target h = elim (le_or_lt target p) [
  | inl low ↦ rw low.holds (le_trans low (le_add_right h))
  | inr high ↦ rw high.holds (min_le_right target (p + rate))
]

pub limit_lowers : (rate p target : ℚ) → target ≤ p → limit rate (some p) target ≡ target
unfolding limit
limit_lowers rate p target h = rw h.holds refl

-- What the limiter may do to a raise.
abbrev pub RaisedAtMost : ℚ → Option ℚ → ℚ → Type 0
RaisedAtMost rate none cap = Unit
RaisedAtMost rate (some p) cap = cap ≤ p + rate

limit-RaisedAtMost :
    (rate : ℚ) (prev : Option ℚ) (target : ℚ)
    → int 0 ≤ rate
    → RaisedAtMost rate prev (limit rate prev target)
limit-RaisedAtMost rate none target h = tt
limit-RaisedAtMost rate (some p) target h = limit_raise rate p target h

module _ (t : Tick) where
  idle_cap-le-hw_max : (g : ℕ) → idle_cap t g ≤ hw_max t g
  unfolding idle_cap
  idle_cap-le-hw_max g = min_le_right _ _

  -- An idle GPU gets no more than its average with the margin, or the floor.
  pub idle_cap-le :
      (g : ℕ) → idle_cap t g ≤ max t.brain.min_cap_w (ewma_at t.ewma g * (int 1 + t.brain.margin))
  unfolding idle_cap
  idle_cap-le g = min_le_left _ _

  pub hot_cap_bounds :
      (g : ℕ)
      → (t.brain.min_cap_w ≤ hot_cap t g) × (hot_cap t g ≤ max t.brain.min_cap_w (hw_max t g))
  unfolding hot_cap
  hot_cap_bounds g =
      (le_max_left _ _, max_le (le_max_left _ _) (le_trans (min_le_left _ _) (le_max_right _ _)))

  -- The target of every GPU is at most its hardware maximum, or the floor where that is larger.
  pub target_caps-le : All (λ e. e.1 ≤ max t.brain.min_cap_w (hw_max t e.0)) (target_caps t)
  unfolding target_caps idle_caps hot_caps
  target_caps-le =
      All-update (λ e. e.1 ≤ max t.brain.min_cap_w (hw_max t e.0)) _ _
        (All-tabulate (λ e. e.1 ≤ max t.brain.min_cap_w (hw_max t e.0)) (idle_cap t) (idle_gpus t)
          (All-All (λ g. le_trans (idle_cap-le-hw_max g) (le_max_right _ _)) (idle_gpus t)))
        (All-tabulate (λ e. e.1 ≤ max t.brain.min_cap_w (hw_max t e.0)) (hot_cap t) (hot_gpus t)
          (All-All (λ g. (hot_cap_bounds g).1) (hot_gpus t)))

  -- The limited caps keep every upper bound of the targets.
  pub limited_caps-le :
      (last : Dict ℕ ℚ)
      → All (λ e. e.1 ≤ max t.brain.min_cap_w (hw_max t e.0)) (limited_caps t last)
  unfolding limited_caps
  limited_caps-le last = elim (Bool-cases (ltb (int 0) t.brain.cap_raise_rate)) [
    | inl on ↦ rw on (
        All-map_values (λ e. e.1 ≤ max t.brain.min_cap_w (hw_max t e.0)) _ _ (target_caps t)
          (λ e h. le_trans (limit_le _ _ e.1) h) target_caps-le)
    | inr off ↦ rw off target_caps-le
  ]

  -- With the limiter on, no cap rises by more than the rate over the cap before, where there is one.
  pub limited_caps-RaisedAtMost :
      (last : Dict ℕ ℚ)
      → int 0 < t.brain.cap_raise_rate
      → All
          (λ e. RaisedAtMost t.brain.cap_raise_rate (previous_cap last t.state e.0) e.1)
          (limited_caps t last)
  unfolding limited_caps
  limited_caps-RaisedAtMost last on = rw on.holds (
      All-map_values (λ _. Unit) _ _ (target_caps t)
        (λ e _.
          limit-RaisedAtMost t.brain.cap_raise_rate (previous_cap last t.state e.0) e.1
            (le_of_lt on))
        (All-All (λ _. tt) (target_caps t)))
