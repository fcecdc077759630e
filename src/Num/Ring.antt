-- ===== src/Num/Ring.antt =====
-- The laws of + - * / on the exact numbers.
use Prim.Native.Nat.{ℕ, suc, ◌+◌ as add, ◌*◌ as mul}
use mathlib.Core.HLevel.{Π_prop}
use opendps.Prelude.{◌≡◌, refl, sym, ◌∙◌, ◌≢◌, ap, arith}
use opendps.Num.Frac.{Frac, ◌∼◌, sum, product, inverse_cancel}
use opendps.Num.Rat.{ℚ, ⟦◌⟧, ℚ_set, sound, of_frac, ◌+◌, ◌-◌, ◌*◌, ◌/◌, neg, inv, int}

-- An equation between numbers follows from the equation between fractions.
ring₁ : (f g : ℚ → ℚ) → ((x : Frac) → f ⟦ x ⟧ ≡ g ⟦ x ⟧) → (a : ℚ) → f a ≡ g a
ring₁ f g h = of_frac (λ _. ℚ_set _ _) h

ring₂ :
    (f g : ℚ → ℚ → ℚ) → ((x y : Frac) → f ⟦ x ⟧ ⟦ y ⟧ ≡ g ⟦ x ⟧ ⟦ y ⟧) → (a b : ℚ) → f a b ≡ g a b
ring₂ f g h a b = ring₁ (λ c. f c b) (λ c. g c b) (λ x. ring₁ (f ⟦ x ⟧) (g ⟦ x ⟧) (h x) b) a

ring₃ :
    (f g : ℚ → ℚ → ℚ → ℚ)
    → ((x y z : Frac) → f ⟦ x ⟧ ⟦ y ⟧ ⟦ z ⟧ ≡ g ⟦ x ⟧ ⟦ y ⟧ ⟦ z ⟧)
    → (a b c : ℚ) → f a b c ≡ g a b c
ring₃ f g h a b c = ring₁ (λ d. f d b c) (λ d. g d b c) (λ x. ring₂ (f ⟦ x ⟧) (g ⟦ x ⟧) (h x) b c) a

ext : {x y : Frac} → x.pos ≡ y.pos → x.neg ≡ y.neg → x.den ≡ y.den → x ≡ y
ext p q r = λ i. record { pos = p i; neg = q i; den = r i }

pub add_comm : (a b : ℚ) → a + b ≡ b + a
unfolding ◌+◌
add_comm = ring₂ (λ a b. a + b) (λ a b. b + a) (λ x y. sound _ _ (omega arith))

pub add_assoc : (a b c : ℚ) → a + b + c ≡ a + (b + c)
unfolding ◌+◌
add_assoc =
    ring₃ (λ a b c. a + b + c) (λ a b c. a + (b + c))
      λ x y z. ap ⟦◌⟧ (ext (omega arith) (omega arith) (omega arith))

pub zero-add : (a : ℚ) → int 0 + a ≡ a
unfolding ◌+◌ int
zero-add = ring₁ (λ a. int 0 + a) (λ a. a) (λ x. sound _ _ (omega arith))

pub add_neg : (a : ℚ) → a + neg a ≡ int 0
unfolding ◌+◌ neg int
add_neg = ring₁ (λ a. a + neg a) (λ _. int 0) (λ x. sound _ _ (omega arith))

pub mul_comm : (a b : ℚ) → a * b ≡ b * a
unfolding ◌*◌
mul_comm = ring₂ (λ a b. a * b) (λ a b. b * a) (λ x y. sound _ _ (omega arith))

pub mul_assoc : (a b c : ℚ) → a * b * c ≡ a * (b * c)
unfolding ◌*◌
mul_assoc =
    ring₃ (λ a b c. a * b * c) (λ a b c. a * (b * c))
      λ x y z. ap ⟦◌⟧ (ext (omega arith) (omega arith) (omega arith))

pub one-mul : (a : ℚ) → int 1 * a ≡ a
unfolding ◌*◌ int
one-mul = ring₁ (λ a. int 1 * a) (λ a. a) (λ x. sound _ _ (omega arith))

pub zero-mul : (a : ℚ) → int 0 * a ≡ int 0
unfolding ◌*◌ int
zero-mul = ring₁ (λ a. int 0 * a) (λ a. int 0) (λ x. sound _ _ (omega arith))

-- A fraction with both parts multiplied by one number.
scale : Frac → ℕ → Frac
scale x k = record {
  pos = mul x.pos (suc k);
  neg = mul x.neg (suc k);
  den = add (add (mul x.den k) x.den) k;
}

scale-∼ : (x : Frac) (k : ℕ) → x ∼ scale x k
unfolding scale
scale-∼ x k = omega arith

common : (x y z : Frac) → sum (product x z) (product y z) ≡ scale (product (sum x y) z) z.den
unfolding sum product scale
common x y z = ext (omega arith) (omega arith) (omega arith)

pub add-mul : (a b c : ℚ) → (a + b) * c ≡ a * c + b * c
unfolding ◌+◌ ◌*◌
add-mul =
    ring₃ (λ a b c. (a + b) * c) (λ a b c. a * c + b * c)
      λ x y z. sound _ _ (scale-∼ (product (sum x y) z) z.den) ∙ ap ⟦◌⟧ (sym (common x y z))

pub neg-mul : (a b : ℚ) → neg a * b ≡ neg (a * b)
unfolding neg ◌*◌
neg-mul = ring₂ (λ a b. neg a * b) (λ a b. neg (a * b)) (λ x y. sound _ _ (omega arith))

pub neg-add : (a b : ℚ) → neg (a + b) ≡ neg a + neg b
unfolding neg ◌+◌
neg-add = ring₂ (λ a b. neg (a + b)) (λ a b. neg a + neg b) (λ x y. sound _ _ (omega arith))

pub neg_neg : (a : ℚ) → neg (neg a) ≡ a
unfolding neg
neg_neg = ring₁ (λ a. neg (neg a)) (λ a. a) (λ x. refl)

pub neg_zero : neg (int 0) ≡ int 0
unfolding neg int
neg_zero = refl

pub int-add : (m n : ℕ) → int (add m n) ≡ int m + int n
unfolding ◌+◌ int
int-add m n = sound _ _ (omega arith)

mul-inv_frac : (x : Frac) → ⟦ x ⟧ ≢ int 0 → ⟦ x ⟧ * inv ⟦ x ⟧ ≡ int 1
unfolding ◌*◌ inv int
mul-inv_frac x h = sound _ _ (inverse_cancel x (λ e. h (sound _ _ (omega arith))))

-- The one law of the inverse.
pub mul-inv : (a : ℚ) → a ≢ int 0 → a * inv a ≡ int 1
mul-inv = of_frac (λ _. Π_prop (λ _. ℚ_set _ _)) mul-inv_frac

-- Subtraction and division in terms of the other operations.
pub sub-eq-add_neg : (a b : ℚ) → a - b ≡ a + neg b
unfolding ◌-◌
sub-eq-add_neg a b = refl

pub div-eq-mul_inv : (a b : ℚ) → a / b ≡ a * inv b
unfolding ◌/◌
div-eq-mul_inv a b = refl
