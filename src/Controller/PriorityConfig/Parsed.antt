-- ===== src/Controller/PriorityConfig/Parsed.antt =====
-- What `_parse` lets through.
use Prim.Native.Nat.{ℕ}
use Prim.Native.String.{String}
use opendps.Prelude.{
  ◌≡◌, refl, ap, subst, inl, inr, true, false, Bool-cases, Option, none, some, List, [], ◌∷◌,
}
use opendps.Num.{ℚ, All}
use opendps.Dict.{Dict, nat_key, string_key, get, contains, elem, values, All-set, All-map_values}
use opendps.Result.{Result, ok, raise, ok-injective, >>=-eq-ok}
use opendps.Json.{
  Json, null, boolean, integer, number, text, array, object, items, entries, equals_text,
  equals_int,
}
use opendps.Brain.Priority.{tier_weights, has_unknown}
use opendps.Controller.PriorityConfig.{
  Candidate, tier_rank, wins, parse_tier, make_candidate, parse_candidate, keep_best, kept,
  select_one, select, tiers_of, parse_assignments, tiers_or_raise, parse_payload, parse,
}

-- `VALID_TIERS` are the tiers that the brain weighs.
abbrev pub IsKnown : String → Type 0
IsKnown tier = contains tier tier_weights ≡ true

parse_tier-IsKnown : (o : Option Json) (tier : String) → parse_tier o ≡ ok tier → IsKnown tier
unfolding parse_tier contains elem
parse_tier-IsKnown none t h = cc
parse_tier-IsKnown (some null) t h = cc
parse_tier-IsKnown (some (boolean b)) t h = cc
parse_tier-IsKnown (some (integer n)) t h = cc
parse_tier-IsKnown (some (number q)) t h = cc
parse_tier-IsKnown (some (array xs)) t h = cc
parse_tier-IsKnown (some (object fields)) t h = cc
parse_tier-IsKnown (some (text s)) t h = elim (Bool-cases (contains s tier_rank)) [
  | inl valid ↦ subst IsKnown (ok-injective (rw valid at h)) valid
  | inr invalid ↦ let bad = rw invalid at h in cc
]

make_candidate-tier :
    (gpu : Result ℕ) (tier : Result String) (boost : Result ℚ) (r : ℕ × Candidate)
    → make_candidate gpu tier boost ≡ ok r
    → tier ≡ ok (r.1).tier
unfolding make_candidate
make_candidate-tier (raise e) tier boost r h = cc
make_candidate-tier (ok gpu) (raise e) boost r h = cc
make_candidate-tier (ok gpu) (ok tier) (raise e) r h = cc
make_candidate-tier (ok gpu) (ok tier) (ok boost) r h = ap (λ r. ok (r.1).tier) (ok-injective h)

parse_candidate-IsKnown :
    (a : Dict String Json) (r : ℕ × Candidate) → parse_candidate a ≡ ok r → IsKnown (r.1).tier
unfolding parse_candidate
parse_candidate-IsKnown a r h =
    parse_tier-IsKnown (get "priorityClass" a) (r.1).tier (make_candidate-tier _ _ _ r h)

module _ (P : ℕ × Candidate → Type 0)
    (p : (a : Dict String Json) (r : ℕ × Candidate) → parse_candidate a ≡ ok r → P r) where
  All-kept :
      (d d' : Dict ℕ Candidate) (c : Result (ℕ × Candidate))
      → All P d
      → ((r : ℕ × Candidate) → c ≡ ok r → P r)
      → kept d c ≡ ok d'
      → All P d'
  unfolding kept keep_best
  All-kept d d' (raise e) a q h = cc
  All-kept d d' (ok (gpu, c)) a q h = elim (Bool-cases (wins c (get gpu d))) [
    | inl won ↦ subst (All P) (ok-injective (rw won at h)) (All-set P gpu c d (q (gpu, c) refl) a)
    | inr lost ↦ subst (All P) (ok-injective (rw lost at h)) a
  ]

  All-select_one :
      (node_name : String) (x : Json) (d d' : Dict ℕ Candidate)
      → All P d
      → select_one node_name d x ≡ ok d'
      → All P d'
  unfolding select_one
  All-select_one node null d d' a h = cc
  All-select_one node (boolean b) d d' a h = cc
  All-select_one node (integer n) d d' a h = cc
  All-select_one node (number q) d d' a h = cc
  All-select_one node (text s) d d' a h = cc
  All-select_one node (array ys) d d' a h = cc
  All-select_one node (object fields) d d' a h =
      elim (Bool-cases (equals_text node (get "nodeName" (entries fields)))) [
        | inl mine ↦
            All-kept d d' (parse_candidate (entries fields)) a (p (entries fields)) (rw mine at h)
        | inr other ↦ subst (All P) (ok-injective (rw other at h)) a
      ]

  -- What holds of each candidate holds of the ones that are kept.
  pub All-select :
      (node_name : String) (xs : List Json) (d d' : Dict ℕ Candidate)
      → All P d
      → select node_name d xs ≡ ok d'
      → All P d'
  unfolding select
  All-select node [] d d' a h = subst (All P) (ok-injective h) a
  All-select node (x ∷ xs) d d' a h =
      let (d₁, one, rest) = >>=-eq-ok (select_one node d x) (λ k. select node k xs) h in
      All-select node xs d₁ d' (All-select_one node x d d₁ a one) rest

-- Known tiers pass the check of the brain.
pub has_unknown-All :
    (tiers : Dict ℕ String) → All (λ e. IsKnown e.1) tiers → has_unknown (values tiers) ≡ false
unfolding has_unknown
has_unknown-All [] a = refl
has_unknown-All ((g, t) ∷ tiers) (h, a) = rw (h, has_unknown-All tiers a) refl

-- What a parse returns.
parse_assignments-IsKnown :
    (node_name : String) (o : Option Json) (d : Dict ℕ Candidate)
    → parse_assignments node_name o ≡ ok d
    → All (λ e. IsKnown (e.1).tier) d
unfolding parse_assignments
parse_assignments-IsKnown node none d h = cc
parse_assignments-IsKnown node (some null) d h = cc
parse_assignments-IsKnown node (some (boolean b)) d h = cc
parse_assignments-IsKnown node (some (integer n)) d h = cc
parse_assignments-IsKnown node (some (number q)) d h = cc
parse_assignments-IsKnown node (some (text s)) d h = cc
parse_assignments-IsKnown node (some (object fields)) d h = cc
parse_assignments-IsKnown node (some (array xs)) d h =
    All-select (λ e. IsKnown (e.1).tier) parse_candidate-IsKnown node (items xs) [] d tt h

tiers_or_raise-IsKnown :
    (r : Result (Dict ℕ Candidate)) (tiers : Dict ℕ String)
    → ((d : Dict ℕ Candidate) → r ≡ ok d → All (λ e. IsKnown (e.1).tier) d)
    → tiers_or_raise r ≡ ok tiers
    → All (λ e. IsKnown e.1) tiers
unfolding tiers_or_raise tiers_of
tiers_or_raise-IsKnown (raise e) tiers a h = cc
tiers_or_raise-IsKnown (ok d) tiers a h = subst (All (λ e. IsKnown e.1)) (ok-injective h) (
    All-map_values (λ e. IsKnown (e.1).tier) (λ e. IsKnown e.1) (λ _ c. c.tier) d (λ e k. k)
      (a d refl))

parse_payload-IsKnown :
    (node_name : String) (o : Option Json) (tiers : Dict ℕ String)
    → parse_payload node_name o ≡ ok tiers
    → All (λ e. IsKnown e.1) tiers
unfolding parse_payload
parse_payload-IsKnown node none tiers h = cc
parse_payload-IsKnown node (some null) tiers h = cc
parse_payload-IsKnown node (some (boolean b)) tiers h = cc
parse_payload-IsKnown node (some (integer n)) tiers h = cc
parse_payload-IsKnown node (some (number q)) tiers h = cc
parse_payload-IsKnown node (some (text s)) tiers h = cc
parse_payload-IsKnown node (some (array xs)) tiers h = cc
parse_payload-IsKnown node (some (object fields)) tiers h =
    elim (Bool-cases (equals_int 1 (get "schemaVersion" (entries fields)))) [
      | inl one ↦
          tiers_or_raise-IsKnown (parse_assignments node (get "assignments" (entries fields))) tiers
            (parse_assignments-IsKnown node (get "assignments" (entries fields))) (rw one at h)
      | inr other ↦ let bad = rw other at h in cc
    ]

pub parse-IsKnown :
    (loads : String → Option Json) (node_name : String) (raw : Option String)
    (tiers : Dict ℕ String)
    → parse loads node_name raw ≡ ok tiers
    → All (λ e. IsKnown e.1) tiers
unfolding parse
parse-IsKnown loads node none tiers h = cc
parse-IsKnown loads node (some raw) tiers h = parse_payload-IsKnown node (loads raw) tiers h
