-- ===== src/Brain/Prs/Ewma.antt =====
-- The running averages of `PRSBrain`.
use Prim.Native.Nat.{ℕ}
use opendps.Prelude.{◌≡◌, sym, ◌∙◌, ap, true, [], ◌∷◌, arith, Bool-cases, inl, inr}
use opendps.Num.{
  ℚ, ◌+◌, ◌-◌, ◌*◌, int, ◌≤◌, All, add_le_add, mul_le_mul_left, sub_nonneg, le_trans, le_of_eq,
  add-mul, add_comm, sub_add_cancel, one-mul,
}
use opendps.Dict.{Dict, nat_key, keys, elem, contains, All-set, All-get_or, elem-keys-set}
use opendps.Brain.Prs.{blend, update_ewma}

convex : (a m : ℚ) → a * m + (int 1 - a) * m ≡ m
convex a m =
    sym (add-mul a (int 1 - a) m)
    ∙ ap (λ t. t * m) (add_comm a (int 1 - a) ∙ sub_add_cancel (int 1) a)
    ∙ one-mul m

pub blend_le :
    {alpha draw prev m : ℚ}
    → int 0 ≤ alpha
    → alpha ≤ int 1
    → draw ≤ m
    → prev ≤ m
    → blend alpha draw prev ≤ m
unfolding blend
blend_le {alpha} {draw} {prev} {m} h k p q =
    le_trans
      (add_le_add (mul_le_mul_left alpha h p) (mul_le_mul_left (int 1 - alpha) (sub_nonneg k) q))
      (le_of_eq (convex alpha m))

pub le_blend :
    {alpha draw prev m : ℚ}
    → int 0 ≤ alpha
    → alpha ≤ int 1
    → m ≤ draw
    → m ≤ prev
    → m ≤ blend alpha draw prev
unfolding blend
le_blend {alpha} {draw} {prev} {m} h k p q =
    le_trans (le_of_eq (sym (convex alpha m)))
      (add_le_add (mul_le_mul_left alpha h p) (mul_le_mul_left (int 1 - alpha) (sub_nonneg k) q))

-- For a smoothing factor between 0 and 1, the update keeps every average in any range that holds
-- the old averages and the new draws.
pub update_ewma_bounds :
    (alpha lo hi : ℚ) (draws ewma : Dict ℕ ℚ)
    → int 0 ≤ alpha
    → alpha ≤ int 1
    → All (λ e. (lo ≤ e.1) × (e.1 ≤ hi)) draws
    → All (λ e. (lo ≤ e.1) × (e.1 ≤ hi)) ewma
    → All (λ e. (lo ≤ e.1) × (e.1 ≤ hi)) (update_ewma alpha draws ewma)
unfolding update_ewma
update_ewma_bounds alpha lo hi [] ewma h k d w = w
update_ewma_bounds alpha lo hi ((g, draw) ∷ draws) ewma h k (d, rest) w =
    let prev = All-get_or (λ v. (lo ≤ v) × (v ≤ hi)) g draw ewma d w in
    update_ewma_bounds alpha lo hi draws _ h k rest (
      All-set (λ e. (lo ≤ e.1) × (e.1 ≤ hi)) g _ ewma
        (le_blend h k d.0 prev.0, blend_le h k d.1 prev.1) w)

pub update_ewma_nonneg :
    (alpha : ℚ) (draws ewma : Dict ℕ ℚ)
    → int 0 ≤ alpha
    → alpha ≤ int 1
    → All (λ e. int 0 ≤ e.1) draws
    → All (λ e. int 0 ≤ e.1) ewma
    → All (λ e. int 0 ≤ e.1) (update_ewma alpha draws ewma)
unfolding update_ewma
update_ewma_nonneg alpha [] ewma h k d w = w
update_ewma_nonneg alpha ((g, draw) ∷ draws) ewma h k (d, rest) w =
    update_ewma_nonneg alpha draws _ h k rest (
      All-set (λ e. int 0 ≤ e.1) g _ ewma
        (le_blend h k d (All-get_or (λ v. int 0 ≤ v) g draw ewma d w)) w)

update_ewma-keeps :
    (alpha : ℚ) (g : ℕ) (draws ewma : Dict ℕ ℚ)
    → elem g (keys ewma) ≡ true
    → elem g (keys (update_ewma alpha draws ewma)) ≡ true
unfolding update_ewma
update_ewma-keeps alpha g [] ewma h = h
update_ewma-keeps alpha g ((j, draw) ∷ draws) ewma h =
    update_ewma-keeps alpha g draws _ (elem-keys-set g j _ ewma ∙ ground arith)

-- After the update every GPU with a draw has an average, so that reading it raises no KeyError.
pub update_ewma-contains :
    (alpha : ℚ) (g : ℕ) (draws ewma : Dict ℕ ℚ)
    → elem g (keys draws) ≡ true
    → contains g (update_ewma alpha draws ewma) ≡ true
unfolding update_ewma contains elem
update_ewma-contains alpha g [] ewma h = cc
update_ewma-contains alpha g ((j, draw) ∷ draws) ewma h = elim (Bool-cases (nat_key.beq j g)) [
  | inl here ↦ update_ewma-keeps alpha g draws _ (elem-keys-set g j _ ewma ∙ ground arith)
  | inr there ↦ update_ewma-contains alpha g draws _ (ground arith)
]
