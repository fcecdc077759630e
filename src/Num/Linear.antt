-- ===== src/Num/Linear.antt =====
-- The laws of ≤ and < with + and -, in the form that the proofs apply.
use Prim.Native.Nat.{ℕ, suc, ◌≤◌ as Le}
use opendps.Prelude.{
  ◌≡◌, ◌≢◌, ◌⊎◌, inl, inr, sym, ◌∙◌, ap, subst, Bool-cases, le→nat_leb, nat_leb, arith, false,
}
use opendps.Num.Rat.{ℚ, ◌+◌, ◌-◌, neg, int, leb, ◌≤◌, ◌<◌}
use opendps.Num.Ring.{add_comm, add_assoc, zero-add, add_neg, sub-eq-add_neg}
use opendps.Num.Order.{leb_refl, leb_total, leb_trans, leb_antisymm, leb-add_right, leb-int}

pub le_refl : (a : ℚ) → a ≤ a
le_refl a = record { holds = leb_refl a }

pub le_of_eq : {a b : ℚ} → a ≡ b → a ≤ b
le_of_eq {a} e = subst (λ t. a ≤ t) e (le_refl a)

pub le_trans : {a b c : ℚ} → a ≤ b → b ≤ c → a ≤ c
le_trans {a} {b} {c} h k = record { holds = leb_trans a b c h.holds k.holds }

pub le_antisymm : {a b : ℚ} → a ≤ b → b ≤ a → a ≡ b
le_antisymm {a} {b} h k = leb_antisymm a b h.holds k.holds

pub le_of_lt : {a b : ℚ} → a < b → a ≤ b
le_of_lt {a} {b} h = record { holds = leb_total b a h.holds }

pub le_or_lt : (a b : ℚ) → (a ≤ b) ⊎ (b < a)
le_or_lt a b = elim (Bool-cases (leb a b)) [
  | inl h ↦ inl (record { holds = h })
  | inr h ↦ inr (record { holds = h })
]

pub le_total : (a b : ℚ) → (a ≤ b) ⊎ (b ≤ a)
le_total a b = elim (le_or_lt a b) [ inl h ↦ inl h | inr h ↦ inr (le_of_lt h) ]

pub not-lt_of_le : {a b : ℚ} → a ≤ b → ¬ (b < a)
not-lt_of_le h k = cc (h.holds, k.holds)

pub lt_of_le_of_lt : {a b c : ℚ} → a ≤ b → b < c → a < c
lt_of_le_of_lt {a} {b} {c} h k = elim (le_or_lt c a) [
  | inl m ↦ absurd (not-lt_of_le (le_trans m h) k)
  | inr m ↦ m
]

pub lt_of_lt_of_le : {a b c : ℚ} → a < b → b ≤ c → a < c
lt_of_lt_of_le {a} {b} {c} h k = elim (le_or_lt c a) [
  | inl m ↦ absurd (not-lt_of_le (le_trans k m) h)
  | inr m ↦ m
]

pub ne_of_lt : {a b : ℚ} → a < b → b ≢ a
ne_of_lt h e = not-lt_of_le (le_of_eq e) h

pub le-int : {m n : ℕ} → Le m n → int m ≤ int n
le-int {m} {n} h = record { holds = leb-int m n ∙ le→nat_leb m n h }

suc-above : (n : ℕ) → nat_leb (suc n) 0 ≡ false
suc-above n = ground arith

pub int_pos : (n : ℕ) → int 0 < int (suc n)
int_pos n = record { holds = leb-int (suc n) 0 ∙ suc-above n }

-- Addition and subtraction.

pub add-zero : (a : ℚ) → a + int 0 ≡ a
add-zero a = add_comm a (int 0) ∙ zero-add a

pub add_le_add_right : {a b : ℚ} (c : ℚ) → a ≤ b → a + c ≤ b + c
add_le_add_right {a} {b} c h = record { holds = leb-add_right a b c ∙ h.holds }

pub add_le_add : {a b c d : ℚ} → a ≤ b → c ≤ d → a + c ≤ b + d
add_le_add {a} {b} {c} {d} h k =
    le_trans (add_le_add_right c h) (rw (add_comm b c, add_comm b d) (add_le_add_right b k))

pub le_of_add_le_add_right : {a b : ℚ} (c : ℚ) → a + c ≤ b + c → a ≤ b
le_of_add_le_add_right {a} {b} c h = record { holds = sym (leb-add_right a b c) ∙ h.holds }

pub add_sub_cancel : (a b : ℚ) → a + b - b ≡ a
add_sub_cancel a b =
    sub-eq-add_neg (a + b) b ∙ add_assoc a b (neg b) ∙ ap (λ t. a + t) (add_neg b) ∙ add-zero a

pub sub_add_cancel : (a b : ℚ) → a - b + b ≡ a
sub_add_cancel a b =
    rw (sub-eq-add_neg a b, add_assoc a (neg b) b, add_comm (neg b) b, add_neg b) (add-zero a)

pub le_sub_of_add_le : {a c : ℚ} (b : ℚ) → a + b ≤ c → a ≤ c - b
le_sub_of_add_le {a} {c} b h = le_of_add_le_add_right b (rw (sub_add_cancel c b) h)

pub add_le_of_le_sub : {a c : ℚ} (b : ℚ) → a ≤ c - b → a + b ≤ c
add_le_of_le_sub {a} {c} b h = rw (sub_add_cancel c b) at (add_le_add_right b h)

pub sub_le_of_le_add : {a c : ℚ} (b : ℚ) → a ≤ c + b → a - b ≤ c
sub_le_of_le_add {a} {c} b h = le_of_add_le_add_right b (rw (sub_add_cancel a b) h)

pub sub_nonneg : {a b : ℚ} → b ≤ a → int 0 ≤ a - b
sub_nonneg {a} {b} h = le_sub_of_add_le b (rw (zero-add b) h)

pub add_nonneg : {a b : ℚ} → int 0 ≤ a → int 0 ≤ b → int 0 ≤ a + b
add_nonneg {a} {b} h k = rw (zero-add (int 0)) at (add_le_add h k)

pub le_add_right : {a b : ℚ} → int 0 ≤ b → a ≤ a + b
le_add_right {a} {b} h = rw (add-zero a) at (add_le_add (le_refl a) h)

pub le_add_left : {a b : ℚ} → int 0 ≤ b → a ≤ b + a
le_add_left {a} {b} h = rw (add_comm b a) (le_add_right h)

pub sub_le_self : {a b : ℚ} → int 0 ≤ b → a - b ≤ a
sub_le_self {b = b} h = sub_le_of_le_add b (le_add_right h)
