-- ===== src/Dict/Laws.antt =====
-- The laws of the operations of a `dict`.
use opendps.Prelude.{
  ◌≡◌, Bool, refl, ap, true, false, ◌||◌, none, some, List, [], ◌∷◌, ◌++◌, if◌then◌else◌,
  Bool-cases, inl, inr, arith,
}
use opendps.Num.{
  ℚ, int, ◌+◌, ◌≤◌, All, sum, sum_map, sum_map_nonneg, le_add_right, le_trans, le_add_left,
}
use opendps.Dict.Core.{
  remove, values, filter, Key, Dict, keys, map_values, tabulate, elem, get, get_or, or_default,
  contains, set,
}

pub keys-map_values {ℓ κ μ} :
    {K : Type ℓ} {V : Type κ} {W : Type μ} (f : K → V → W) (d : Dict K V)
    → keys (map_values f d) ≡ keys d
unfolding map_values
keys-map_values f [] = refl
keys-map_values f ((k, v) ∷ d) = ap (◌∷◌ k) (keys-map_values f d)

pub keys-tabulate {ℓ κ} :
    {K : Type ℓ} {V : Type κ} (f : K → V) (ks : List K) → keys (tabulate f ks) ≡ ks
unfolding tabulate
keys-tabulate f [] = refl
keys-tabulate f (k ∷ ks) = ap (◌∷◌ k) (keys-tabulate f ks)

-- What `filter` keeps passes the test, and keeps what held of every element.
pub filter_passes {ℓ} :
    {A : Type ℓ} (p : A → Bool) (xs : List A) → All (λ x. p x ≡ true) (filter p xs)
unfolding filter
filter_passes p [] = tt
filter_passes p (x ∷ xs) = elim (Bool-cases (p x)) [
  | inl h ↦ rw h (h, filter_passes p xs)
  | inr h ↦ rw h (filter_passes p xs)
]

pub sum-values-map_values {ℓ κ} :
    {K : Type ℓ} {V : Type κ} (f : K → V → ℚ) (d : Dict K V)
    → sum (values (map_values f d)) ≡ sum_map (λ e. f e.0 e.1) d
unfolding sum sum_map map_values
sum-values-map_values f [] = refl
sum-values-map_values f ((k, v) ∷ d) = ap (λ t. f k v + t) (sum-values-map_values f d)

pub sum-values {ℓ} : {K : Type ℓ} (d : Dict K ℚ) → sum (values d) ≡ sum_map (λ e. e.1) d
unfolding sum sum_map
sum-values [] = refl
sum-values ((k, v) ∷ d) = ap (λ t. v + t) (sum-values d)

pub sum-values-tabulate {ℓ} :
    {K : Type ℓ} (f : K → ℚ) (ks : List K) → sum (values (tabulate f ks)) ≡ sum_map f ks
unfolding sum sum_map tabulate
sum-values-tabulate f [] = refl
sum-values-tabulate f (k ∷ ks) = ap (λ t. f k + t) (sum-values-tabulate f ks)

pub All-filter {ℓ} :
    {A : Type ℓ} (P : A → Type 0) (p : A → Bool) (xs : List A) → All P xs → All P (filter p xs)
unfolding filter
All-filter P p [] h = tt
All-filter P p (x ∷ xs) (h, hs) = elim (Bool-cases (p x)) [
  | inl t ↦ rw t (h, All-filter P p xs hs)
  | inr t ↦ rw t (All-filter P p xs hs)
]

module _ {ℓ} {A : Type ℓ} where
  All-tail :
      (P : A → Type 0) (p : A → Bool) (w : A) (xs : List A)
      → All P (filter p (w ∷ xs))
      → All P (filter p xs)
  unfolding filter
  All-tail P p w xs h = elim (Bool-cases (p w)) [
    | inl t ↦ let m : All P (w ∷ filter p xs) = rw t at h in m.1
    | inr t ↦ rw t at h
  ]

  head_le_sum :
      (f : A → ℚ) (p : A → Bool) (x w : A) (xs : List A)
      → w ≡ x
      → p x ≡ true
      → All (λ y. int 0 ≤ f y) (filter p (w ∷ xs))
      → f x ≤ sum_map f (filter p (w ∷ xs))
  unfolding filter sum_map
  head_le_sum f p x w xs same t n =
      rw (same, t)
        (le_add_right (sum_map_nonneg f (filter p xs) (All-tail (λ y. int 0 ≤ f y) p w xs n)))

  tail_le_sum :
      (f : A → ℚ) (p : A → Bool) (x w : A) (xs : List A)
      → f x ≤ sum_map f (filter p xs)
      → All (λ y. int 0 ≤ f y) (filter p (w ∷ xs))
      → f x ≤ sum_map f (filter p (w ∷ xs))
  unfolding filter sum_map
  tail_le_sum f p x w xs h n = elim (Bool-cases (p w)) [
    | inl t ↦
        let m : All (λ y. int 0 ≤ f y) (w ∷ filter p xs) = rw t at n in
        rw t (le_trans h (le_add_left m.0))
    | inr t ↦ rw t h
  ]

module _ {ℓ} {K : Type ℓ} ⦃e : Key K⦄ where
  pub beq_refl : (k : K) → e.beq k k ≡ true
  beq_refl k = (e.beq_iff k k).1 refl

  pub beq_symm : (j k : K) → e.beq j k ≡ e.beq k j
  beq_symm j k = ground (arith, e.beq_iff j k, e.beq_iff k j)

  -- No key twice.
  abbrev pub Distinct : List K → Type 0
  Distinct [] = Unit
  Distinct (k ∷ ks) = (elem k ks ≡ false) × Distinct ks

  module _ {κ} {V : Type κ} where
    pub get-set :
        (j k : K) (v : V) (d : Dict K V)
        → get j (set k v d) ≡ (if e.beq k j then some v else get j d)
    unfolding get set
    get-set j k v [] = refl
    get-set j k v ((i, w) ∷ d) =
        ground (arith, e.beq_iff i k, e.beq_iff i j, e.beq_iff k j, get-set j k v d)

    pub get_or_found : (k : K) (v w : V) (d : Dict K V) → get k d ≡ some w → get_or k v d ≡ w
    unfolding get_or or_default
    get_or_found k v w d h = rw h refl

    pub get_or-set_self : (k : K) (v w : V) (d : Dict K V) → get_or k w (set k v d) ≡ v
    unfolding get_or
    get_or-set_self k v w d = ground (arith, get-set k k v d, beq_refl k)

    pub elem-keys-set :
        (j k : K) (v : V) (d : Dict K V)
        → elem j (keys (set k v d)) ≡ (e.beq k j || elem j (keys d))
    unfolding elem set
    elem-keys-set j k v [] = refl
    elem-keys-set j k v ((i, w) ∷ d) =
        ground (arith, e.beq_iff i k, e.beq_iff i j, e.beq_iff k j, elem-keys-set j k v d)

    pub set-Distinct :
        (k : K) (v : V) (d : Dict K V) → Distinct (keys d) → Distinct (keys (set k v d))
    unfolding set elem
    set-Distinct k v [] h = (refl, tt)
    set-Distinct k v ((i, w) ∷ d) h =
        ground (arith, elem-keys-set i k v d, e.beq_iff k i, e.beq_iff i k, set-Distinct k v d)

    -- A new key is appended.
    pub set_new :
        (k : K) (v : V) (d : Dict K V) → elem k (keys d) ≡ false → set k v d ≡ d ++ ((k, v) ∷ [])
    unfolding set elem
    set_new k v [] h = refl
    set_new k v ((i, w) ∷ d) h = ground (arith, set_new k v d)

    pub get_of_contains :
        (k : K) (d : Dict K V) → contains k d ≡ true → (v : V) × (get k d ≡ some v)
    unfolding contains elem get
    get_of_contains k [] h = cc
    get_of_contains k ((i, w) ∷ d) h = elim (Bool-cases (e.beq i k)) [
      | inl t ↦ (w, rw t refl)
      | inr t ↦ rw t (get_of_contains k d (rw t at h))
    ]

    pub get-remove-set : (k : K) (v : V) (d : Dict K V) → get k d ≡ none → remove k (set k v d) ≡ d
    unfolding get set remove
    get-remove-set k v [] h = ground (arith, beq_refl k)
    get-remove-set k v ((i, w) ∷ d) h = ground (arith, get-remove-set k v d)

    -- One entry that passes the test is part of the sum over all that pass.
    pub get-le-sum_map :
        (f : V → ℚ) (p : V → Bool) (k : K) (x : V) (d : Dict K V)
        → get k d ≡ some x
        → p x ≡ true
        → All (λ y. int 0 ≤ f y) (filter p (values d))
        → f x ≤ sum_map f (filter p (values d))
    unfolding get
    get-le-sum_map f p k x [] h t n = cc
    get-le-sum_map f p k x ((i, w) ∷ d) h t n = elim (Bool-cases (e.beq i k)) [
      | inl same ↦ head_le_sum f p x w (values d) (let q : some w ≡ some x = rw same at h in cc) t n
      | inr other ↦
          tail_le_sum f p x w (values d)
            (get-le-sum_map f p k x d (rw other at h) t
              (All-tail (λ y. int 0 ≤ f y) p w (values d) n))
            n
    ]
