-- ===== src/Num/Share.antt =====
-- Amounts that are split in proportion, or scaled down to a total.
use opendps.Prelude.{◌≡◌, ◌∙◌, sym, ap, fun_ext, List, [], ◌∷◌}
use opendps.Num.Rat.{ℚ, ◌*◌, ◌/◌, int, ◌≤◌, ◌<◌}
use opendps.Num.Ring.{mul_comm, mul_assoc, one-mul}
use opendps.Num.Linear.{le_of_eq, int_pos}
use opendps.Num.Field.{div-mul, div_mul_cancel}
use opendps.Num.Sum.{sum_map, sum_map-mul, sum_map_const, length}

module _ {ℓ} {A : Type ℓ} (f : A → ℚ) (xs : List A) (b : ℚ) where
  -- Every amount times `b / total` adds up to `b`.
  pub sum_map-rescale : int 0 < sum_map f xs → sum_map (λ x. f x * (b / sum_map f xs)) xs ≡ b
  sum_map-rescale h =
      sum_map-mul f (b / sum_map f xs) xs
      ∙ mul_comm (sum_map f xs) (b / sum_map f xs)
      ∙ div_mul_cancel b h

  -- The shares `amount / total * b` add up to `b`.
  pub sum_map-share : int 0 < sum_map f xs → sum_map (λ x. f x / sum_map f xs * b) xs ≡ b
  sum_map-share h =
      ap (λ g. sum_map g xs) (fun_ext (λ x. div-mul (f x) b (sum_map f xs))) ∙ sum_map-rescale h

-- An even split of `b` over a list adds up to at most `b`.
pub sum_map-even {ℓ} :
    {A : Type ℓ} (xs : List A) (b : ℚ)
    → int 0 ≤ b
    → sum_map (λ _. int 1 / int (length xs) * b) xs ≤ b
unfolding sum_map
sum_map-even [] b h = h
sum_map-even (x ∷ xs) b h =
    let n = int (length (x ∷ xs)) in
    le_of_eq (
      sum_map_const (int 1 / n * b) (x ∷ xs)
      ∙ sym (mul_assoc n (int 1 / n) b)
      ∙ ap (λ t. t * b) (mul_comm n (int 1 / n) ∙ div_mul_cancel (int 1) (int_pos (length xs)))
      ∙ one-mul b)
