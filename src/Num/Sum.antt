-- ===== src/Num/Sum.antt =====
-- Sums of lists. In exact arithmetic the order of summation does not matter.
use Prim.Native.Nat.{ℕ, suc, ◌+◌ as add}
use opendps.Prelude.{arith, ap₂, ◌≡◌, refl, sym, ◌∙◌, ap, List, [], ◌∷◌, ◌++◌}
use opendps.Num.Rat.{ℚ, ◌+◌, ◌*◌, int, ◌≤◌}
use opendps.Num.Ring.{add_assoc, add_comm, zero-add, add-mul, zero-mul, one-mul, int-add}
use opendps.Num.Linear.{le_refl, add_le_add, add_nonneg}

abbrev pub All {ℓ κ} : {A : Type ℓ} → (A → Type κ) → List A → Type κ
All P [] = Unit
All P (x ∷ xs) = P x × All P xs

unfoldable pub sum : List ℚ → ℚ
sum [] = int 0
sum (x ∷ xs) = x + sum xs

pub sum-append : (xs ys : List ℚ) → sum (xs ++ ys) ≡ sum xs + sum ys
unfolding sum
sum-append [] ys = sym (zero-add (sum ys))
sum-append (x ∷ xs) ys = ap (λ t. x + t) (sum-append xs ys) ∙ sym (add_assoc x (sum xs) (sum ys))

pub add_add_comm : (a b c d : ℚ) → a + b + (c + d) ≡ a + c + (b + d)
add_add_comm a b c d =
    rw
      (
        add_assoc a b (c + d),
        ← add_assoc b c d,
        add_comm b c,
        add_assoc c b d,
        add_assoc a c (b + d),
      )
      refl

abbrev pub length {ℓ} : {A : Type ℓ} → List A → ℕ
length [] = 0
length (x ∷ xs) = suc (length xs)

suc-add : (n : ℕ) → suc n ≡ add 1 n
suc-add n = omega arith

module _ {ℓ} {A : Type ℓ} where
  -- `sum(f(x) for x in xs)`
  unfoldable pub sum_map : (A → ℚ) → List A → ℚ
  sum_map f [] = int 0
  sum_map f (x ∷ xs) = f x + sum_map f xs

  pub sum_map-mul : (f : A → ℚ) (c : ℚ) (xs : List A) → sum_map (λ x. f x * c) xs ≡ sum_map f xs * c
  unfolding sum_map
  sum_map-mul f c [] = sym (zero-mul c)
  sum_map-mul f c (x ∷ xs) =
      ap (λ t. f x * c + t) (sum_map-mul f c xs) ∙ sym (add-mul (f x) (sum_map f xs) c)

  pub sum_map-add :
      (f g : A → ℚ) (xs : List A) → sum_map (λ x. f x + g x) xs ≡ sum_map f xs + sum_map g xs
  unfolding sum_map
  sum_map-add f g [] = sym (zero-add (int 0))
  sum_map-add f g (x ∷ xs) =
      ap (λ t. f x + g x + t) (sum_map-add f g xs)
      ∙ add_add_comm (f x) (g x) (sum_map f xs) (sum_map g xs)

  pub sum_map_const : (c : ℚ) (xs : List A) → sum_map (λ _. c) xs ≡ int (length xs) * c
  unfolding sum_map
  sum_map_const c [] = sym (zero-mul c)
  sum_map_const c (x ∷ xs) =
      rw
        (suc-add (length xs), int-add 1 (length xs), add-mul (int 1) (int (length xs)) c, one-mul c)
        (ap (λ t. c + t) (sum_map_const c xs))

  pub sum_map_congr :
      (f g : A → ℚ) (xs : List A) → All (λ x. f x ≡ g x) xs → sum_map f xs ≡ sum_map g xs
  unfolding sum_map
  sum_map_congr f g [] h = refl
  sum_map_congr f g (x ∷ xs) (h, hs) = ap₂ ◌+◌ h (sum_map_congr f g xs hs)

  pub sum_map_le :
      (f g : A → ℚ) (xs : List A) → All (λ x. f x ≤ g x) xs → sum_map f xs ≤ sum_map g xs
  unfolding sum_map
  sum_map_le f g [] h = le_refl (int 0)
  sum_map_le f g (x ∷ xs) (h, hs) = add_le_add h (sum_map_le f g xs hs)

  pub sum_map_nonneg : (f : A → ℚ) (xs : List A) → All (λ x. int 0 ≤ f x) xs → int 0 ≤ sum_map f xs
  unfolding sum_map
  sum_map_nonneg f [] h = le_refl (int 0)
  sum_map_nonneg f (x ∷ xs) (h, hs) = add_nonneg h (sum_map_nonneg f xs hs)

  pub All-All : {P : A → Type 0} → ((x : A) → P x) → (xs : List A) → All P xs
  All-All h [] = tt
  All-All h (x ∷ xs) = (h x, All-All h xs)

  pub All-zip :
      {P Q R : A → Type 0} (xs : List A)
      → ((x : A) → P x → Q x → R x)
      → All P xs
      → All Q xs
      → All R xs
  All-zip [] f h k = tt
  All-zip (x ∷ xs) f (h, hs) (k, ks) = (f x h k, All-zip xs f hs ks)

  pub All-imp : {P Q : A → Type 0} → ((x : A) → P x → Q x) → (xs : List A) → All P xs → All Q xs
  All-imp f [] h = tt
  All-imp f (x ∷ xs) (h, hs) = (f x h, All-imp f xs hs)
