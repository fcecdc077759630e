-- ===== src/Num/Field.antt =====
-- The laws of ≤ with * and /.
use opendps.Prelude.{◌≡◌, refl, ◌∙◌, ap, ap₂, subst}
use opendps.Num.Rat.{ℚ, ◌+◌, ◌-◌, ◌*◌, ◌/◌, neg, inv, int, ◌≤◌, ◌<◌}
use opendps.Num.Ring.{
  zero-add, mul_comm, mul_assoc, one-mul, zero-mul, add-mul, neg-mul, mul-inv, sub-eq-add_neg,
  div-eq-mul_inv,
}
use opendps.Num.Order.{leb-mul_nonneg, leb-inv_nonneg}
use opendps.Num.Linear.{le_of_lt, ne_of_lt, sub_nonneg, add_le_of_le_sub}

-- Multiplication.

pub mul-zero : (a : ℚ) → a * int 0 ≡ int 0
mul-zero a = mul_comm a (int 0) ∙ zero-mul a

pub mul-one : (a : ℚ) → a * int 1 ≡ a
mul-one a = mul_comm a (int 1) ∙ one-mul a

pub mul-add : (a b c : ℚ) → a * (b + c) ≡ a * b + a * c
mul-add a b c = mul_comm a (b + c) ∙ add-mul b c a ∙ ap₂ ◌+◌ (mul_comm b a) (mul_comm c a)

pub sub-mul : (a b c : ℚ) → (a - b) * c ≡ a * c - b * c
sub-mul a b c =
    rw (sub-eq-add_neg a b, add-mul a (neg b) c, neg-mul b c, sub-eq-add_neg (a * c) (b * c)) refl

pub mul_nonneg : {a b : ℚ} → int 0 ≤ a → int 0 ≤ b → int 0 ≤ a * b
mul_nonneg {a} {b} h k = record { holds = leb-mul_nonneg a b h.holds k.holds }

pub mul_le_mul_right : {a b : ℚ} (c : ℚ) → int 0 ≤ c → a ≤ b → a * c ≤ b * c
mul_le_mul_right {a} {b} c h k =
    rw (zero-add (a * c)) at
      (add_le_of_le_sub (a * c) (rw (sub-mul b a c) at (mul_nonneg (sub_nonneg k) h)))

pub mul_le_mul_left : {a b : ℚ} (c : ℚ) → int 0 ≤ c → a ≤ b → c * a ≤ c * b
mul_le_mul_left {a} {b} c h k = rw (mul_comm c a, mul_comm c b) (mul_le_mul_right c h k)

-- Division by a positive number.

pub inv_nonneg : {a : ℚ} → int 0 ≤ a → int 0 ≤ inv a
inv_nonneg {a} h = record { holds = leb-inv_nonneg a h.holds }

pub div_nonneg : {a b : ℚ} → int 0 ≤ a → int 0 ≤ b → int 0 ≤ a / b
div_nonneg {a} {b} h k = rw (div-eq-mul_inv a b) (mul_nonneg h (inv_nonneg k))

pub div_mul_cancel : (a : ℚ) {b : ℚ} → int 0 < b → a / b * b ≡ a
div_mul_cancel a {b} h =
    rw (div-eq-mul_inv a b, mul_assoc a (inv b) b, mul_comm (inv b) b, mul-inv b (ne_of_lt h))
      (mul-one a)

pub mul_div_assoc : (a b c : ℚ) → a * b / c ≡ a * (b / c)
mul_div_assoc a b c = rw (div-eq-mul_inv (a * b) c, div-eq-mul_inv b c) (mul_assoc a b (inv c))

pub add-div : (a b c : ℚ) → (a + b) / c ≡ a / c + b / c
add-div a b c =
    rw (div-eq-mul_inv (a + b) c, div-eq-mul_inv a c, div-eq-mul_inv b c) (add-mul a b (inv c))

pub div-mul : (a b c : ℚ) → a / c * b ≡ a * (b / c)
div-mul a b c =
    rw (div-eq-mul_inv a c, div-eq-mul_inv b c, mul_assoc a (inv c) b, mul_comm (inv c) b) refl

pub zero-div : (a : ℚ) → int 0 / a ≡ int 0
zero-div a = div-eq-mul_inv (int 0) a ∙ zero-mul (inv a)

pub div_le_div_right : {a b : ℚ} (c : ℚ) → int 0 ≤ c → a ≤ b → a / c ≤ b / c
div_le_div_right {a} {b} c h k =
    rw (div-eq-mul_inv a c, div-eq-mul_inv b c) (mul_le_mul_right (inv c) (inv_nonneg h) k)

pub div_self : {a : ℚ} → int 0 < a → a / a ≡ int 1
div_self {a} h = div-eq-mul_inv a a ∙ mul-inv a (ne_of_lt h)

pub div_le_of_le_mul : {a b c : ℚ} → int 0 < b → a ≤ c * b → a / b ≤ c
div_le_of_le_mul {a} {b} {c} h k =
    subst (λ t. a / b ≤ t) (mul_div_assoc c b b ∙ ap (λ t. c * t) (div_self h) ∙ mul-one c)
      (div_le_div_right b (le_of_lt h) k)

pub mul_le_of_le_div : {a b c : ℚ} → int 0 < b → c ≤ a / b → c * b ≤ a
mul_le_of_le_div {a} {b} {c} h k = rw (div_mul_cancel a h) at (mul_le_mul_right b (le_of_lt h) k)
