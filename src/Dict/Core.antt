-- ===== src/Dict/Core.antt =====
-- The operations of a `dict`.
use Prim.Native.Nat.{ℕ}
use Prim.Native.String.{String}
use text.Mathlib.Text.{◌==◌ as str_eq}
use text.Mathlib.TextEquality.{eq_iff}
use opendps.Prelude.{
  ◌≡◌, ◌↔◌, Bool, true, false, ◌||◌, Option, none, some, List, [], ◌∷◌, if◌then◌else◌, nat_beq,
  nat_beq_iff,
}

-- Keys: what `==` on them decides.
pub record Key {ℓ} (A : Type ℓ) : Type ℓ where
  pub beq : A → A → Bool
  pub beq_iff : (a b : A) → (beq a b ≡ true) ↔ (a ≡ b)

instance abbrev pub nat_key : Key ℕ
nat_key = record { beq = nat_beq; beq_iff = nat_beq_iff }

instance abbrev pub string_key : Key String
string_key = record { beq = str_eq; beq_iff = eq_iff }

abbrev pub Dict {ℓ κ} : Type ℓ → Type κ → Type (ℓ ⊔ κ)
Dict K V = List (K × V)

abbrev pub keys {ℓ κ} : {K : Type ℓ} {V : Type κ} → Dict K V → List K
keys [] = []
keys ((k, v) ∷ d) = k ∷ keys d

abbrev pub values {ℓ κ} : {K : Type ℓ} {V : Type κ} → Dict K V → List V
values [] = []
values ((k, v) ∷ d) = v ∷ values d

-- `[x for x in xs if p(x)]`
unfoldable pub filter {ℓ} : {A : Type ℓ} → (A → Bool) → List A → List A
filter p [] = []
filter p (x ∷ xs) = let rest = filter p xs in if p x then x ∷ rest else rest

-- `{k: f(k, v) for k, v in d.items()}`, and `for k in d: d[k] = f(k, d[k])`.
unfoldable pub map_values {ℓ κ μ} :
    {K : Type ℓ} {V : Type κ} {W : Type μ} → (K → V → W) → Dict K V → Dict K W
map_values f [] = []
map_values f ((k, v) ∷ d) = (k, f k v) ∷ map_values f d

-- `{k: f(k) for k in ks}`, for distinct `ks`.
unfoldable pub tabulate {ℓ κ} : {K : Type ℓ} {V : Type κ} → (K → V) → List K → Dict K V
tabulate f [] = []
tabulate f (k ∷ ks) = (k, f k) ∷ tabulate f ks

unfoldable pub or_default {ℓ} : {V : Type ℓ} → V → Option V → V
or_default v none = v
or_default v (some w) = w

module _ {ℓ} {K : Type ℓ} ⦃e : Key K⦄ where
  -- `k in ks`
  unfoldable pub elem : K → List K → Bool
  elem k [] = false
  elem k (j ∷ ks) = e.beq j k || elem k ks

  module _ {κ} {V : Type κ} where
    -- `d.get(k)`
    unfoldable pub get : K → Dict K V → Option V
    get k [] = none
    get k ((j, v) ∷ d) = if e.beq j k then some v else get k d

    -- `d.get(k, default)`
    unfoldable pub get_or : K → V → Dict K V → V
    unfolding or_default
    get_or k v d = or_default v (get k d)

    -- `k in d`
    unfoldable pub contains : K → Dict K V → Bool
    contains k d = elem k (keys d)

    -- `d[k] = v`
    unfoldable pub set : K → V → Dict K V → Dict K V
    set k v [] = (k, v) ∷ []
    set k v ((j, w) ∷ d) = if e.beq j k then (j, v) ∷ d else (j, w) ∷ set k v d

    -- `d.pop(k, None)`
    unfoldable pub remove : K → Dict K V → Dict K V
    remove k [] = []
    remove k ((j, w) ∷ d) = if e.beq j k then d else (j, w) ∷ remove k d

    -- `d.update(other)`, and `{**d, **other}`
    unfoldable pub update : Dict K V → Dict K V → Dict K V
    update d [] = d
    update d ((k, v) ∷ other) = update (set k v d) other
