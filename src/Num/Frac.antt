-- ===== src/Num/Frac.antt =====
-- Fractions (pos - neg) / (den + 1), the representatives of the exact numbers.
use Prim.Native.Nat.{ℕ, zero, suc, ◌+◌, ◌*◌, ◌-◌, ◌≤◌, ◌<◌}
use native.Mathlib.Nat.{le_of_mul-le-mul_right, mul-le-mul_right, mul_comm, mul-sub}
use opendps.Prelude.{◌≡◌, ◌≢◌, ◌⊎◌, ap, Bool, nat_leb, nat_leb-eq_of_iff, arith}

pub record Frac : Type 0 where
  pub pos : ℕ
  pub neg : ℕ
  pub den : ℕ

-- Equal values.
infix 4 ◌∼◌
abbrev pub ◌∼◌ : Frac → Frac → Type 0
x ∼ y = x.pos * suc y.den + y.neg * suc x.den ≡ y.pos * suc x.den + x.neg * suc y.den

unfoldable pub sum : Frac → Frac → Frac
sum x y = record {
  pos = x.pos * suc y.den + y.pos * suc x.den;
  neg = x.neg * suc y.den + y.neg * suc x.den;
  den = x.den * y.den + x.den + y.den;
}

unfoldable pub product : Frac → Frac → Frac
product x y = record {
  pos = x.pos * y.pos + x.neg * y.neg;
  neg = x.pos * y.neg + x.neg * y.pos;
  den = x.den * y.den + x.den + y.den;
}

unfoldable pub negation : Frac → Frac
negation x = record { pos = x.neg; neg = x.pos; den = x.den }

-- The inverse of a value from its parts above and below zero. Zero is its own inverse here: the
-- program guards its divisions, and the models say where it does not.
inverse_of : ℕ → ℕ → ℕ → Frac
inverse_of (suc k) _ d = record { pos = suc d; neg = 0; den = k }
inverse_of zero (suc k) d = record { pos = 0; neg = suc d; den = k }
inverse_of zero zero d = record { pos = 0; neg = 0; den = 0 }

unfoldable pub inverse : Frac → Frac
unfolding inverse_of
inverse x = inverse_of (x.pos - x.neg) (x.neg - x.pos) x.den

unfoldable pub le_test : Frac → Frac → Bool
le_test x y =
    nat_leb (x.pos * suc y.den + y.neg * suc x.den) (y.pos * suc x.den + x.neg * suc y.den)

pub sum_left : (x x' y : Frac) → x ∼ x' → sum x y ∼ sum x' y
unfolding sum
sum_left x x' y h = omega (arith, ap (λ (t : ℕ). t * (suc y.den * suc y.den)) h)

pub sum_right : (x y y' : Frac) → y ∼ y' → sum x y ∼ sum x y'
unfolding sum
sum_right x y y' h = omega (arith, ap (λ (t : ℕ). t * (suc x.den * suc x.den)) h)

pub product_left : (x x' y : Frac) → x ∼ x' → product x y ∼ product x' y
unfolding product
product_left x x' y h =
    omega
      (arith, ap (λ (t : ℕ). t * (suc y.den * y.pos)) h, ap (λ (t : ℕ). t * (suc y.den * y.neg)) h)

pub product_right : (x y y' : Frac) → y ∼ y' → product x y ∼ product x y'
unfolding product
product_right x y y' h =
    omega
      (arith, ap (λ (t : ℕ). t * (suc x.den * x.pos)) h, ap (λ (t : ℕ). t * (suc x.den * x.neg)) h)

pub negation_congr : (x x' : Frac) → x ∼ x' → negation x ∼ negation x'
unfolding negation
negation_congr x x' h = omega arith

abbrev Below : Frac → Frac → Type 0
Below x y = x.pos * suc y.den + y.neg * suc x.den ≤ y.pos * suc x.den + x.neg * suc y.den

Below-left : (x x' y : Frac) → x ∼ x' → Below x y → Below x' y
Below-left x x' y h le =
    le_of_mul-le-mul_right {k = suc x.den}
      (omega (arith, mul-le-mul_right (suc x'.den) le, ap (λ (t : ℕ). t * suc y.den) h))
      (omega arith)

Below-right : (x y y' : Frac) → y ∼ y' → Below x y → Below x y'
Below-right x y y' h le =
    le_of_mul-le-mul_right {k = suc y.den}
      (omega (arith, mul-le-mul_right (suc y'.den) le, ap (λ (t : ℕ). t * suc x.den) h))
      (omega arith)

pub le_test_left : (x x' y : Frac) → x ∼ x' → le_test x y ≡ le_test x' y
unfolding le_test
le_test_left x x' y h =
    nat_leb-eq_of_iff _ _ _ _ (Below-left x x' y h) (Below-left x' x y (omega arith))

pub le_test_right : (x y y' : Frac) → y ∼ y' → le_test x y ≡ le_test x y'
unfolding le_test
le_test_right x y y' h =
    nat_leb-eq_of_iff _ _ _ _ (Below-right x y y' h) (Below-right x y' y (omega arith))

above_scaled :
    (p n d p' n' d' : ℕ) → p * d' + n' * d ≡ p' * d + n * d' → (p - n) * d' ≡ (p' - n') * d
above_scaled p n d p' n' d' h =
    rw (mul_comm (p - n) d', mul-sub, mul_comm (p' - n') d, mul-sub) (omega arith)

inverse_of_congr :
    (u w d u' w' d' : ℕ)
    → u * suc d' ≡ u' * suc d
    → w * suc d' ≡ w' * suc d
    → inverse_of u w d ∼ inverse_of u' w' d'
unfolding inverse_of
inverse_of_congr (suc u) w d (suc u') w' d' p q = omega arith
inverse_of_congr (suc u) w d zero w' d' p q = absurd (omega arith)
inverse_of_congr zero w d (suc u') w' d' p q = absurd (omega arith)
inverse_of_congr zero (suc w) d zero (suc w') d' p q = omega arith
inverse_of_congr zero (suc w) d zero zero d' p q = absurd (omega arith)
inverse_of_congr zero zero d zero (suc w') d' p q = absurd (omega arith)
inverse_of_congr zero zero d zero zero d' p q = omega arith

pub inverse_congr : (x x' : Frac) → x ∼ x' → inverse x ∼ inverse x'
unfolding inverse
inverse_congr x x' h =
    inverse_of_congr (x.pos - x.neg) (x.neg - x.pos) x.den (x'.pos - x'.neg) (x'.neg - x'.pos)
      x'.den (above_scaled x.pos x.neg (suc x.den) x'.pos x'.neg (suc x'.den) h)
      (above_scaled x.neg x.pos (suc x.den) x'.neg x'.pos (suc x'.den) (omega arith))

-- A value off zero times its inverse is one.
inverse_of_cancel :
    (x : Frac) (u w : ℕ)
    → x.pos + w ≡ x.neg + u
    → 0 < u + w
    → (u ≡ 0) ⊎ (w ≡ 0)
    → product x (inverse_of u w x.den) ∼ record { pos = 1; neg = 0; den = 0 }
unfolding product inverse_of
inverse_of_cancel x (suc u) (suc w) e h s = absurd (omega arith)
inverse_of_cancel x (suc u) zero e h s = omega (arith, ap (λ (t : ℕ). t * suc x.den) e)
inverse_of_cancel x zero (suc w) e h s = omega (arith, ap (λ (t : ℕ). t * suc x.den) e)
inverse_of_cancel x zero zero e h s = absurd (omega arith)

pub inverse_cancel :
    (x : Frac) → x.pos ≢ x.neg → product x (inverse x) ∼ record { pos = 1; neg = 0; den = 0 }
unfolding inverse
inverse_cancel x h =
    inverse_of_cancel x (x.pos - x.neg) (x.neg - x.pos) (omega arith) (omega arith) (ground arith)
