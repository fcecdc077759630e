-- ===== src/Num/Rat.antt =====
-- The rational numbers: fractions up to equal value, so that equality is a path. The operations
-- compute on concrete values.
use Prim.Native.Nat.{ℕ}
use mathlib.Core.HLevel.{Π_set}
use mathlib.Core.Quot
use mathlib.Core.Quot.{Quot, Quot-set}
use opendps.Prelude.{◌≡◌, refl, fun_ext, Bool, true, false, not, if◌then◌else◌, arith}
use opendps.Num.Frac.{
  Frac, ◌∼◌, sum, product, negation, inverse, le_test, sum_left, sum_right, product_left,
  product_right, negation_congr, inverse_congr, le_test_left, le_test_right,
}

unfoldable pub ℚ : Type 0
ℚ = Quot ◌∼◌

unfoldable pub ⟦◌⟧ : Frac → ℚ
unfolding ℚ
⟦ x ⟧ = Quot.mk x

pub ℚ_set : IsSet ℚ
unfolding ℚ
ℚ_set = Quot-set

pub Bool_set : IsSet Bool
Bool_set = hlevel

-- Equal fractions are one number.
pub sound : (x y : Frac) → x ∼ y → ⟦ x ⟧ ≡ ⟦ y ⟧
unfolding ℚ ⟦◌⟧
sound x y h = Quot.sound h

-- A proposition about all numbers holds when it holds of all fractions.
pub of_frac {ℓ} :
    {P : ℚ → Type ℓ} → ((a : ℚ) → IsProp (P a)) → ((x : Frac) → P ⟦ x ⟧) → (a : ℚ) → P a
unfolding ℚ ⟦◌⟧
of_frac isp f = Quot.ind isp f

-- Lifts of a function of two fractions that respects equal values on either side.
lift₂ {ℓ} :
    {B : Type ℓ} (B_set : IsSet B) (f : Frac → Frac → B)
    → ((x x' y : Frac) → x ∼ x' → f x y ≡ f x' y)
    → ((x y y' : Frac) → y ∼ y' → f x y ≡ f x y')
    → ℚ
    → ℚ
    → B
unfolding ℚ
lift₂ B_set f left right =
    Quot.lift (Π_set (λ _. B_set)) (λ x. Quot.lift B_set (f x) (right x))
      (λ x x' h. fun_ext (Quot.ind (λ b. B_set _ _) (λ y. left x x' y h)))

infixl 65 ◌+◌ ◌-◌
infixl 70 ◌*◌ ◌/◌
unfoldable pub ◌+◌ : ℚ → ℚ → ℚ
unfolding ℚ ⟦◌⟧ lift₂ sum
◌+◌ =
    lift₂ ℚ_set (λ x y. ⟦ sum x y ⟧) (λ x x' y h. sound _ _ (sum_left x x' y h))
      (λ x y y' h. sound _ _ (sum_right x y y' h))

unfoldable pub ◌*◌ : ℚ → ℚ → ℚ
unfolding ℚ ⟦◌⟧ lift₂ product
◌*◌ =
    lift₂ ℚ_set (λ x y. ⟦ product x y ⟧) (λ x x' y h. sound _ _ (product_left x x' y h))
      (λ x y y' h. sound _ _ (product_right x y y' h))

unfoldable pub neg : ℚ → ℚ
unfolding ℚ ⟦◌⟧ negation
neg = Quot.lift ℚ_set (λ x. ⟦ negation x ⟧) (λ x y h. sound _ _ (negation_congr x y h))

unfoldable pub inv : ℚ → ℚ
unfolding ℚ ⟦◌⟧ inverse
inv = Quot.lift ℚ_set (λ x. ⟦ inverse x ⟧) (λ x y h. sound _ _ (inverse_congr x y h))

unfoldable pub ◌-◌ : ℚ → ℚ → ℚ
unfolding ◌+◌ neg
a - b = a + neg b

unfoldable pub ◌/◌ : ℚ → ℚ → ℚ
unfolding ◌*◌ inv
a / b = a * inv b

-- The comparison `a <= b`, and `a < b`.
unfoldable pub leb : ℚ → ℚ → Bool
unfolding ℚ lift₂ le_test
leb = lift₂ Bool_set le_test le_test_left le_test_right

abbrev pub ltb : ℚ → ℚ → Bool
ltb a b = not (leb b a)

-- A whole number.
unfoldable pub int : ℕ → ℚ
unfolding ⟦◌⟧
int n = ⟦ record { pos = n; neg = 0; den = 0 } ⟧

infix 50 ◌≤◌ ◌<◌
pub record ◌≤◌ (a b : ℚ) : Type 0 where
  pub holds : leb a b ≡ true

pub record ◌<◌ (a b : ℚ) : Type 0 where
  pub holds : leb b a ≡ false

-- Python's `max` and `min` keep the first argument on a tie.
unfoldable pub max : ℚ → ℚ → ℚ
max a b = if ltb a b then b else a

unfoldable pub min : ℚ → ℚ → ℚ
min a b = if ltb b a then b else a

test_third : int 1 / int 3 + int 2 / int 3 ≡ int 1
unfolding ◌+◌ ◌/◌ int
test_third = sound _ _ (omega arith)

test_leb : leb (int 1 / int 3 - int 1) (int 2 / int 3 * int 5) ≡ true
unfolding ◌+◌ ◌/◌ int leb ◌-◌ ◌*◌
test_leb = refl

test_leb' : leb (int 4) (int 2 / int 3 * int 5) ≡ false
unfolding ◌+◌ ◌/◌ int leb ◌-◌ ◌*◌
test_leb' = refl
