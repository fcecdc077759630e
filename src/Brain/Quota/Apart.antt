-- ===== src/Brain/Quota/Apart.antt =====
-- The GPUs of the tenants, apart from each other, and the caps on them.
use Prim.Native.Nat.{ℕ}
use Prim.Native.String.{String}
use opendps.Prelude.{
  ◌≡◌, refl, ◌∙◌, ap, subst, Bool, true, false, ◌&&◌, Bool-cases, inl, inr, List, [], ◌∷◌, ◌++◌,
  arith,
}
use opendps.Num.{ℚ, ◌+◌, int, ltb, sum, sum-append, All, All-imp}
use opendps.Dict.{
  Dict, nat_key, string_key, keys, values, update, filter, elem, Distinct, Apart, update-append,
  update-Distinct, values-append, keys-map_values, elem-filter, All-keys, All-update, All-tabulate,
  All-map_values, beq_refl,
}
use opendps.Pdn.Quota.{meets}
use opendps.Pdn.Quota.Validated.{elem-append}
use opendps.Brain.State.{DomainState}
use opendps.Brain.Quota.{collect, sub_state, fit_slice}

-- Two dicts without a common key: their values add up.
pub sum-update :
    (a b : Dict ℕ ℚ)
    → Distinct (keys b)
    → Apart (keys a) (keys b)
    → sum (values (update a b)) ≡ sum (values a) + sum (values b)
sum-update a b d s =
    ap (λ c. sum (values c)) (update-append a b d s)
    ∙ ap sum (values-append a b)
    ∙ sum-append (values a) (values b)

-- The GPUs of a list are among those of another.
abbrev pub In : List ℕ → List ℕ → Type 0
In gs = All (λ g. elem g gs ≡ true)

pub not-elem : (g : ℕ) (gs ks : List ℕ) → In gs ks → elem g gs ≡ false → elem g ks ≡ false
unfolding elem
not-elem g gs [] h out = refl
not-elem g gs (k ∷ ks) (h, hs) out = elim (Bool-cases (nat_key.beq k g)) [
  | inl same ↦ let found = subst (λ i. elem i gs ≡ true) ((nat_key.beq_iff k g).0 same) h in cc
  | inr other ↦ rw other (not-elem g gs ks hs out)
]

pub In-self : (gs : List ℕ) → In gs gs
unfolding elem
In-self [] = tt
In-self (g ∷ gs) = (rw (beq_refl g) refl, All-imp (λ j h. ground (arith, h)) gs (In-self gs))

-- What a tenant's GPUs do not meet.
pub meets-append :
    (gs xs ys : List ℕ) → meets gs xs ≡ false → meets gs ys ≡ false → meets gs (xs ++ ys) ≡ false
unfolding meets
meets-append [] xs ys h k = refl
meets-append (g ∷ gs) xs ys h k = ground (arith, elem-append g xs ys, meets-append gs xs ys)

pub meets-filter :
    (gs ys : List ℕ) (p : ℕ → Bool) → meets gs ys ≡ false → meets gs (filter p ys) ≡ false
unfolding meets
meets-filter [] ys p h = refl
meets-filter (g ∷ gs) ys p h = ground (arith, elem-filter p g ys, meets-filter gs ys p)

pub meets-Apart : (gs xs : List ℕ) → meets gs xs ≡ false → Apart xs gs
unfolding meets
meets-Apart [] xs h = tt
meets-Apart (g ∷ gs) xs h = (ground (arith, h), meets-Apart gs xs (ground (arith, h)))

-- The GPUs of a tenant's state.
pub sub_state-Distinct :
    (name : String) (s : DomainState) (gs : List ℕ)
    → Distinct (keys (sub_state name s gs).gpu_draws)
unfolding sub_state collect
sub_state-Distinct name s gs = update-Distinct [] _ tt

pub sub_state-All :
    (P : ℕ → Type 0) (name : String) (s : DomainState) (gs : List ℕ)
    → All P gs
    → All P (keys (sub_state name s gs).gpu_draws)
unfolding sub_state collect
sub_state-All P name s gs h =
    All-keys P _ (All-update (λ e. P e.0) [] _ tt (All-tabulate (λ e. P e.0) _ gs h))

-- The caps of a tenant keep their GPUs when they are scaled.
pub keys-fit_slice : (w : ℚ) (caps : Dict ℕ ℚ) → keys (fit_slice w caps) ≡ keys caps
unfolding fit_slice
keys-fit_slice w caps = elim (Bool-cases (ltb (int 0) w && ltb w (sum (values caps)))) [
  | inl over ↦ rw over (keys-map_values _ caps)
  | inr fits ↦ rw fits refl
]

pub fit_slice-All :
    (P : ℕ → Type 0) (w : ℚ) (caps : Dict ℕ ℚ)
    → All (λ e. P e.0) caps
    → All (λ e. P e.0) (fit_slice w caps)
unfolding fit_slice
fit_slice-All P w caps h = elim (Bool-cases (ltb (int 0) w && ltb w (sum (values caps)))) [
  | inl over ↦ rw over (All-map_values (λ e. P e.0) (λ e. P e.0) _ caps (λ e p. p) h)
  | inr fits ↦ rw fits h
]
