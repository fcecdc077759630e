-- ===== src/Dict/Update.antt =====
-- `update` over distinct keys, and filtered key lists.
use opendps.Prelude.{
  some, some-injective, ◌≡◌, refl, sym, ◌∙◌, ap, Bool, true, false, not, ◌&&◌, List, [], ◌∷◌, ◌++◌,
  Bool-cases, inl, inr, arith, subst,
}
use mathlib.Core.List.{append_assoc, append-nil}
use opendps.Num.{ℚ, ◌+◌, int, add_assoc, add_comm, zero-add, sum_map, All, All-zip}
use opendps.Dict.Core.{
  Key, Dict, keys, values, filter, tabulate, map_values, elem, get, get_or, set, update,
}
use opendps.Dict.Laws.{Distinct, set-Distinct, set_new, elem-keys-set, beq_symm}

pub values-append {ℓ κ} :
    {K : Type ℓ} {V : Type κ} (a b : Dict K V) → values (a ++ b) ≡ values a ++ values b
values-append [] b = refl
values-append ((k, v) ∷ a) b = ap (◌∷◌ v) (values-append a b)

pub All-map_values {ℓ κ μ} :
    {K : Type ℓ} {V : Type κ} {W : Type μ} (P : K × V → Type 0) (Q : K × W → Type 0) (f : K → V → W)
    (d : Dict K V)
    → ((e : K × V) → P e → Q (e.0, f e.0 e.1))
    → All P d
    → All Q (map_values f d)
unfolding map_values
All-map_values P Q f [] h a = tt
All-map_values P Q f ((k, v) ∷ d) h (a, rest) = (h (k, v) a, All-map_values P Q f d h rest)

pub All-tabulate {ℓ κ} :
    {K : Type ℓ} {V : Type κ} (Q : K × V → Type 0) (f : K → V) (ks : List K)
    → All (λ k. Q (k, f k)) ks
    → All Q (tabulate f ks)
unfolding tabulate
All-tabulate Q f [] a = tt
All-tabulate Q f (k ∷ ks) (a, rest) = (a, All-tabulate Q f ks rest)

-- A sum over a list is the sum over what passes a test and over what does not.
pub sum_map-filter {ℓ} :
    {A : Type ℓ} (f : A → ℚ) (p : A → Bool) (xs : List A)
    → sum_map f (filter (λ x. not (p x)) xs) + sum_map f (filter p xs) ≡ sum_map f xs
unfolding filter sum_map
sum_map-filter f p [] = zero-add (int 0)
sum_map-filter f p (x ∷ xs) = elim (Bool-cases (p x)) [
  | inl t ↦ rw t (
      rw
        (
          ← add_assoc (sum_map f (filter (λ x. not (p x)) xs)) (f x) (sum_map f (filter p xs)),
          add_comm (sum_map f (filter (λ x. not (p x)) xs)) (f x),
          add_assoc (f x) (sum_map f (filter (λ x. not (p x)) xs)) (sum_map f (filter p xs)),
        )
        (ap (λ t. f x + t) (sum_map-filter f p xs)))
  | inr t ↦ rw t (
      add_assoc (f x) (sum_map f (filter (λ x. not (p x)) xs)) (sum_map f (filter p xs))
      ∙ ap (λ t. f x + t) (sum_map-filter f p xs))
]

-- Filtering by key, seen on the keys.
pub keys-filter {ℓ κ} :
    {K : Type ℓ} {V : Type κ} (p : K → Bool) (d : Dict K V)
    → keys (filter (λ e. p e.0) d) ≡ filter p (keys d)
unfolding filter
keys-filter p [] = refl
keys-filter p ((k, v) ∷ d) = elim (Bool-cases (p k)) [
  | inl t ↦ rw t (ap (◌∷◌ k) (keys-filter p d))
  | inr t ↦ rw t (keys-filter p d)
]

-- What passes a test has what passing brings.
pub All-where {ℓ} :
    {A : Type ℓ} (P : A → Type 0) (p : A → Bool) (xs : List A)
    → All (λ x. p x ≡ true → P x) xs
    → All P (filter p xs)
unfolding filter
All-where P p [] h = tt
All-where P p (x ∷ xs) (h, hs) = elim (Bool-cases (p x)) [
  | inl t ↦ rw t (h t, All-where P p xs hs)
  | inr t ↦ rw t (All-where P p xs hs)
]

module _ {ℓ} {K : Type ℓ} ⦃e : Key K⦄ where
  pub elem-filter : (p : K → Bool) (k : K) (ks : List K) → elem k (filter p ks) ≡ (elem k ks && p k)
  unfolding elem filter
  elem-filter p k [] = refl
  elem-filter p k (j ∷ ks) = ground (arith, e.beq_iff j k, elem-filter p k ks)

  pub filter-Distinct : (p : K → Bool) (ks : List K) → Distinct ks → Distinct (filter p ks)
  unfolding filter
  filter-Distinct p [] h = tt
  filter-Distinct p (k ∷ ks) h = elim (Bool-cases (p k)) [
    | inl t ↦ rw t (ground (arith, elem-filter p k ks), filter-Distinct p ks h.1)
    | inr t ↦ rw t (filter-Distinct p ks h.1)
  ]

  -- No key of the list is among the others.
  abbrev pub Apart : List K → List K → Type 0
  Apart ks = All (λ j. elem j ks ≡ false)

  pub filter-Apart-not :
      (p : K → Bool) (ks js : List K) → Apart (filter (λ k. not (p k)) js) (filter p ks)
  unfolding filter
  filter-Apart-not p [] js = tt
  filter-Apart-not p (k ∷ ks) js = elim (Bool-cases (p k)) [
    | inl t ↦ rw t (ground (arith, elem-filter (λ k. not (p k)) k js), filter-Apart-not p ks js)
    | inr t ↦ rw t (filter-Apart-not p ks js)
  ]

  ne_of_elem : (k : K) (ks : List K) → elem k ks ≡ false → All (λ j. e.beq k j ≡ false) ks
  unfolding elem
  ne_of_elem k [] h = tt
  ne_of_elem k (j ∷ ks) h = (ground (arith, beq_symm j k), ne_of_elem k ks (ground arith))

  module _ {κ} {V : Type κ} where
    Apart-set :
        (a : Dict K V) (k : K) (v : V) (js : List K)
        → Apart (keys a) js
        → All (λ j. e.beq k j ≡ false) js
        → Apart (keys (set k v a)) js
    Apart-set a k v js s t = All-zip js (λ j absent other. elem-keys-set j k v a ∙ ground arith) s t

    pub update-append :
        (a b : Dict K V) → Distinct (keys b) → Apart (keys a) (keys b) → update a b ≡ a ++ b
    unfolding update
    update-append a [] d s = sym (append-nil a)
    update-append a ((k, v) ∷ b) d s =
        update-append (set k v a) b d.1 (Apart-set a k v (keys b) s.1 (ne_of_elem k (keys b) d.0))
        ∙ ap (λ c. c ++ b) (set_new k v a s.0)
        ∙ append_assoc a ((k, v) ∷ []) b

    pub All-set :
        (P : K × V → Type 0) (k : K) (v : V) (d : Dict K V) → P (k, v) → All P d → All P (set k v d)
    unfolding set
    All-set P k v [] h a = (h, tt)
    All-set P k v ((j, w) ∷ d) h (a, rest) = elim (Bool-cases (e.beq j k)) [
      | inl t ↦ rw t (subst (λ i. P (i, v)) (sym ((e.beq_iff j k).0 t)) h, rest)
      | inr t ↦ rw t (a, All-set P k v d h rest)
    ]

    pub All-get :
        (P : K × V → Type 0) (k : K) (v : V) (d : Dict K V) → get k d ≡ some v → All P d → P (k, v)
    unfolding get
    All-get P k v [] h a = cc
    All-get P k v ((j, w) ∷ d) h (a, rest) = elim (Bool-cases (e.beq j k)) [
      | inl t ↦
          subst (λ i. P (i, v)) ((e.beq_iff j k).0 t)
            (subst (λ u. P (j, u)) (some-injective (rw t at h)) a)
      | inr t ↦ All-get P k v d (rw t at h) rest
    ]

    pub All-get_or :
        (P : V → Type 0) (k : K) (v : V) (d : Dict K V)
        → P v
        → All (λ e. P e.1) d
        → P (get_or k v d)
    unfolding get_or get
    All-get_or P k v [] h a = h
    All-get_or P k v ((j, w) ∷ d) h (a, rest) = elim (Bool-cases (e.beq j k)) [
      | inl t ↦ rw t a
      | inr t ↦ rw t (All-get_or P k v d h rest)
    ]

    pub All-update : (P : K × V → Type 0) (a b : Dict K V) → All P a → All P b → All P (update a b)
    unfolding update
    All-update P a [] pa pb = pa
    All-update P a ((k, v) ∷ b) pa (p, pb) = All-update P (set k v a) b (All-set P k v a p pa) pb

    pub update-Distinct : (a b : Dict K V) → Distinct (keys a) → Distinct (keys (update a b))
    unfolding update
    update-Distinct a [] d = d
    update-Distinct a ((k, v) ∷ b) d = update-Distinct (set k v a) b (set-Distinct k v a d)

    pub All-keys : (P : K → Type 0) (d : Dict K V) → All (λ e. P e.0) d → All P (keys d)
    All-keys P [] h = tt
    All-keys P ((k, v) ∷ d) (h, hs) = (h, All-keys P d hs)
