-- ===== src/Num/MinMax.antt =====
-- `min` and `max`.
use opendps.Prelude.{inl, inr, Bool-cases}
use opendps.Num.Rat.{◌+◌, ◌-◌, int, ℚ, leb, ◌≤◌, max, min}
use opendps.Num.Ring.{add_comm}
use opendps.Num.Linear.{add-zero, sub_add_cancel, le_refl, le_of_lt, le_or_lt}

-- Minimum and maximum.

pub min_le_left : (a b : ℚ) → min a b ≤ a
unfolding min
min_le_left a b = elim (le_or_lt a b) [
  | inl h ↦ rw h.holds (le_refl a)
  | inr h ↦ rw h.holds (le_of_lt h)
]

pub min_le_right : (a b : ℚ) → min a b ≤ b
unfolding min
min_le_right a b = elim (le_or_lt a b) [ inl h ↦ rw h.holds h | inr h ↦ rw h.holds (le_refl b) ]

pub le_min : {a b c : ℚ} → c ≤ a → c ≤ b → c ≤ min a b
unfolding min
le_min {a} {b} h k = elim (Bool-cases (leb a b)) [ inl e ↦ rw e h | inr e ↦ rw e k ]

pub le_max_left : (a b : ℚ) → a ≤ max a b
unfolding max
le_max_left a b = elim (le_or_lt b a) [
  | inl h ↦ rw h.holds (le_refl a)
  | inr h ↦ rw h.holds (le_of_lt h)
]

pub le_max_right : (a b : ℚ) → b ≤ max a b
unfolding max
le_max_right a b = elim (le_or_lt b a) [ inl h ↦ rw h.holds h | inr h ↦ rw h.holds (le_refl b) ]

pub max_le : {a b c : ℚ} → a ≤ c → b ≤ c → max a b ≤ c
unfolding max
max_le {a} {b} h k = elim (Bool-cases (leb b a)) [ inl e ↦ rw e h | inr e ↦ rw e k ]

-- What is left of `b` after `a`, on top of `a`.
pub add_max_sub : (a b : ℚ) → a + max (int 0) (b - a) ≤ max b a
unfolding max
add_max_sub a b = elim (le_or_lt (b - a) (int 0)) [
  | inl low ↦ rw low.holds (rw (add-zero a) (le_max_right b a))
  | inr high ↦ rw high.holds (rw (add_comm a (b - a), sub_add_cancel b a) (le_max_left b a))
]
