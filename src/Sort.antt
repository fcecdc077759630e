-- ===== src/Sort.antt =====
-- Python's `sorted`, by a test that says which of two elements may come first.
use opendps.Prelude.{Bool, List, [], ◌∷◌, if◌then◌else◌}

unfoldable pub insert {ℓ} : {A : Type ℓ} → (A → A → Bool) → A → List A → List A
insert before x [] = x ∷ []
insert before x (y ∷ ys) =
    let rest = insert before x ys in if before x y then x ∷ y ∷ ys else y ∷ rest

-- `sorted(xs)`, which keeps the order of equal elements.
unfoldable pub sort {ℓ} : {A : Type ℓ} → (A → A → Bool) → List A → List A
unfolding insert
sort before [] = []
sort before (x ∷ xs) = insert before x (sort before xs)
