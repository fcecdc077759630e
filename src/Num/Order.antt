-- ===== src/Num/Order.antt =====
-- The order of the exact numbers: it is total and agrees with + and *.
use Prim.Native.Nat.{ℕ, suc, ◌+◌ as add, ◌*◌ as mul, ◌-◌ as sub, ◌≤◌ as Le}
use mathlib.Core.HLevel.{Π_prop}
use native.Mathlib.Nat.{le_of_mul-le-mul_right, mul-le-mul_right}
use opendps.Prelude.{◌≡◌, true, false, nat_leb, nat_leb→le, le→nat_leb, nat_leb-eq_of_iff, arith}
use opendps.Num.Frac.{Frac, ◌∼◌, sum, product, inverse, le_test}
use opendps.Num.Rat.{ℚ, ⟦◌⟧, ℚ_set, Bool_set, sound, of_frac, ◌+◌, ◌*◌, inv, int, leb}

refl_frac : (x : Frac) → le_test x x ≡ true
unfolding le_test
refl_frac x = ground arith

pub leb_refl : (a : ℚ) → leb a a ≡ true
unfolding leb ⟦◌⟧
leb_refl = of_frac (λ _. Bool_set _ _) refl_frac

leb_total_frac : (x y : Frac) → le_test x y ≡ false → le_test y x ≡ true
unfolding le_test
leb_total_frac x y h = ground arith

pub leb_total : (a b : ℚ) → leb a b ≡ false → leb b a ≡ true
unfolding leb ⟦◌⟧
leb_total =
    of_frac (λ _. Π_prop λ _. Π_prop λ _. Bool_set _ _)
      λ x. of_frac (λ _. Π_prop λ _. Bool_set _ _) λ y. leb_total_frac x y

trans_frac : (x y z : Frac) → le_test x y ≡ true → le_test y z ≡ true → le_test x z ≡ true
unfolding le_test
trans_frac x y z p q = le→nat_leb _ _ (
    le_of_mul-le-mul_right {k = suc y.den}
      (omega (
        arith,
        mul-le-mul_right (suc z.den) (nat_leb→le _ _ p),
        mul-le-mul_right (suc x.den) (nat_leb→le _ _ q),
      ))
      (omega arith))

pub leb_trans : (a b c : ℚ) → leb a b ≡ true → leb b c ≡ true → leb a c ≡ true
unfolding leb ⟦◌⟧
leb_trans =
    of_frac (λ _. Π_prop λ _. Π_prop λ _. Π_prop λ _. Π_prop λ _. Bool_set _ _)
      λ x.
        of_frac (λ _. Π_prop λ _. Π_prop λ _. Π_prop λ _. Bool_set _ _)
          λ y. of_frac (λ _. Π_prop λ _. Π_prop λ _. Bool_set _ _) λ z. trans_frac x y z

antisymm_frac : (x y : Frac) → le_test x y ≡ true → le_test y x ≡ true → x ∼ y
unfolding le_test
antisymm_frac x y p q = omega (arith, nat_leb→le _ _ p, nat_leb→le _ _ q)

pub leb_antisymm : (a b : ℚ) → leb a b ≡ true → leb b a ≡ true → a ≡ b
unfolding leb ⟦◌⟧
leb_antisymm =
    of_frac (λ _. Π_prop λ _. Π_prop λ _. Π_prop λ _. ℚ_set _ _)
      λ x.
        of_frac (λ _. Π_prop λ _. Π_prop λ _. ℚ_set _ _) λ y p q. sound _ _ (antisymm_frac x y p q)

-- Fractions over one denominator are compared and added by their parts.
abbrev pub over : ℕ → ℕ → ℕ → Frac
over d p n = record { pos = p; neg = n; den = d }

add_right_frac : (x y z : Frac) → le_test (sum x z) (sum y z) ≡ le_test x y
unfolding le_test sum
add_right_frac x y z =
    nat_leb-eq_of_iff _ _ _ _
      (λ h. le_of_mul-le-mul_right {k = mul (suc z.den) (suc z.den)} (omega arith) (omega arith))
      (λ h. omega (arith, mul-le-mul_right (mul (suc z.den) (suc z.den)) h))

-- Adding a number to both sides keeps the comparison.
pub leb-add_right : (a b c : ℚ) → leb (a + c) (b + c) ≡ leb a b
unfolding leb ⟦◌⟧ ◌+◌
leb-add_right =
    of_frac (λ _. Π_prop λ _. Π_prop λ _. Bool_set _ _)
      λ x.
        of_frac (λ _. Π_prop λ _. Bool_set _ _)
          λ y. of_frac (λ _. Bool_set _ _) λ z. add_right_frac x y z

mul_nonneg_parts :
    (n u m v : ℕ)
    → Le (add (mul (add n u) m) (mul n (add m v))) (add (mul (add n u) (add m v)) (mul n m))
mul_nonneg_parts n u m v = omega arith

mul_nonneg_nat :
    (p n q m : ℕ) → Le n p → Le m q → Le (add (mul p m) (mul n q)) (add (mul p q) (mul n m))
mul_nonneg_nat p n q m h k =
    let up : p ≡ add n (sub p n) = omega arith in
    let vp : q ≡ add m (sub q m) = omega arith in
    rw (up, vp) (mul_nonneg_parts n (sub p n) m (sub q m))

mul_nonneg_frac :
    (x y : Frac)
    → le_test (over 0 0 0) x ≡ true
    → le_test (over 0 0 0) y ≡ true
    → le_test (over 0 0 0) (product x y) ≡ true
unfolding le_test product
mul_nonneg_frac x y p q = le→nat_leb _ _ (
    omega (
      arith,
      mul_nonneg_nat x.pos x.neg y.pos y.neg (let h = nat_leb→le _ _ p in omega arith)
          (let h = nat_leb→le _ _ q in omega arith),
    ))

pub leb-mul_nonneg :
    (a b : ℚ) → leb (int 0) a ≡ true → leb (int 0) b ≡ true → leb (int 0) (a * b) ≡ true
unfolding leb ⟦◌⟧ ◌*◌ int
leb-mul_nonneg =
    of_frac (λ _. Π_prop λ _. Π_prop λ _. Π_prop λ _. Bool_set _ _)
      λ x. of_frac (λ _. Π_prop λ _. Π_prop λ _. Bool_set _ _) λ y. mul_nonneg_frac x y

inv_nonneg_frac :
    (x : Frac) → le_test (over 0 0 0) x ≡ true → le_test (over 0 0 0) (inverse x) ≡ true
unfolding le_test inverse
inv_nonneg_frac x p = ground arith

pub leb-inv_nonneg : (a : ℚ) → leb (int 0) a ≡ true → leb (int 0) (inv a) ≡ true
unfolding leb ⟦◌⟧ inv int
leb-inv_nonneg = of_frac (λ _. Π_prop λ _. Bool_set _ _) λ x. inv_nonneg_frac x

pub leb-int : (m n : ℕ) → leb (int m) (int n) ≡ nat_leb m n
unfolding leb int
leb-int m n = nat_leb-eq_of_iff _ _ _ _ (λ h. omega arith) (λ h. omega arith)
