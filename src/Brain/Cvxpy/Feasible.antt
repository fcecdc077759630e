-- ===== src/Brain/Cvxpy/Feasible.antt =====
-- The decisions of `CVXPYBrain`, for a solver that keeps the constraints.
use Prim.Native.Nat.{ℕ}
use Prim.Native.String.{String}
use opendps.Prelude.{
  ◌≡◌, ◌⊎◌, refl, sym, ◌∙◌, ap, subst, inl, inr, true, Bool-cases, Option, none, some, Option-cases,
  List, [], ◌∷◌,
}
use opendps.Num.{ℚ, ◌+◌, sum, sum_map, ◌≤◌, All}
use opendps.Dict.{nat_key, string_key, get, values, tabulate}
use opendps.Result.{Result, Error, ok, raise, or_raise, Result-cases, ok-injective}
use opendps.Op.{
  ◌>>=◌, lift, return, try, caught_by, Ensures, Ensures-bind, Ensures-then, Ensures-gets,
  Ensures-lift, Ensures-modify, Ensures-return, Ensures-weaken,
}
use opendps.Pdn.Model.{PowerDomain}
use opendps.Brain.State.{DomainState, BrainDecision}
use opendps.Brain.Prs.{PrsBrain}
use opendps.Brain.Prs
use opendps.Brain.Cvxpy.{
  CvxpyBrain, Program, Solution, Variable, ewma_update, variable_or_raise, make_variable,
  cons_variable, make_variables, gpus_of, result_caps, is_optimal, run_fallback_on, fallback_decide,
  decide_unsolved, decide_solved, decide_with, decide_cvxpy, decide,
}

-- The constraint of an idle GPU, up to a tolerance.
abbrev pub AtMost : ℚ → ℚ → Option ℚ → Type 0
AtMost tolerance x none = Unit
AtMost tolerance x (some ceil) = x ≤ ceil + tolerance

-- The values meet the constraints of a program up to a tolerance.
pub record Meets (tolerance : ℚ) (p : Program) (value : ℕ → ℚ) : Type 0 where
  pub within_budget : sum_map (λ v. value v.gpu) p.variables ≤ p.budget + tolerance
  pub lower : All (λ v. v.lower ≤ value v.gpu + tolerance) p.variables
  pub upper : All (λ v. value v.gpu ≤ v.upper + tolerance) p.variables
  pub idle : All (λ v. AtMost tolerance (value v.gpu) v.idle_ceil) p.variables

-- What is asked of the solver: what it calls optimal, accurate or not, meets the constraints up to
-- the tolerance.
pub record IsSound (tolerance : ℚ) (solve : Program → Result Solution) : Type 0 where
  pub keeps :
      (p : Program) (r : Solution) (value : ℕ → ℚ)
      → solve p ≡ ok r
      → r.value ≡ some value
      → is_optimal r.status ≡ true
      → Meets tolerance p value

-- A cap between the brain's floor and the maximum that the GPU reports.
pub record IsBounded (tolerance floor : ℚ) (s : DomainState) (e : ℕ × ℚ) : Type 0 where
  pub max_cap : ℚ
  pub reported : get e.0 s.gpu_max_caps ≡ some max_cap
  pub at_least : floor ≤ e.1 + tolerance
  pub at_most : e.1 ≤ max_cap + tolerance

-- The caps keep the budget, and each keeps its bounds.
pub record IsWithin (tolerance floor budget : ℚ) (s : DomainState) (d : BrainDecision)
    : Type 0 where
  pub in_budget : sum (values d.caps) ≤ budget + tolerance
  pub bounded : All (IsBounded tolerance floor s) d.caps

-- The decision is one of the fallback.
pub record IsFallback (fallback : PrsBrain) (n : String) (s : DomainState) (d : BrainDecision)
    : Type 0 where
  pub prs : PrsBrain
  pub decided : Prs.decide fallback n s ≡ ok (prs, d)

sum-result_caps :
    (value : ℕ → ℚ) (vs : List Variable)
    → sum (values (result_caps value vs)) ≡ sum_map (λ v. value v.gpu) vs
unfolding result_caps gpus_of tabulate sum sum_map
sum-result_caps value [] = refl
sum-result_caps value (v ∷ vs) = ap (λ t. value v.gpu + t) (sum-result_caps value vs)

-- A variable has the bounds of its GPU.
abbrev IsMade : ℚ → DomainState → Variable → Type 0
IsMade floor s v = (get v.gpu s.gpu_max_caps ≡ some v.upper) × (v.lower ≡ floor)

variable-IsMade :
    (b : CvxpyBrain) (n : String) (s : DomainState) (g : ℕ) (o : Option ℚ) (v : Variable)
    → get g s.gpu_max_caps ≡ o
    → variable_or_raise b n s g o ≡ ok v
    → IsMade b.min_cap_w s v
unfolding variable_or_raise make_variable
variable-IsMade b n s g none v h e = cc
variable-IsMade b n s g (some m) v h e = subst (IsMade b.min_cap_w s) (ok-injective e) (h, refl)

cons_variable-All :
    (P : Variable → Type 0) (r : Result Variable) (rest : Result (List Variable))
    (vs : List Variable)
    → ((v : Variable) → r ≡ ok v → P v)
    → ((vs : List Variable) → rest ≡ ok vs → All P vs)
    → cons_variable r rest ≡ ok vs
    → All P vs
unfolding cons_variable
cons_variable-All P (raise e) rest vs h k made = cc
cons_variable-All P (ok v) (raise e) vs h k made = cc
cons_variable-All P (ok v) (ok l) vs h k made =
    subst (All P) (ok-injective made) (h v refl, k l refl)

make_variables-IsMade :
    (b : CvxpyBrain) (n : String) (s : DomainState) (gs : List ℕ) (vs : List Variable)
    → make_variables b n s gs ≡ ok vs
    → All (IsMade b.min_cap_w s) vs
unfolding make_variables
make_variables-IsMade b n s [] vs h = subst (All (IsMade b.min_cap_w s)) (ok-injective h) tt
make_variables-IsMade b n s (g ∷ gs) vs h =
    cons_variable-All (IsMade b.min_cap_w s) (variable_or_raise b n s g (get g s.gpu_max_caps))
      (make_variables b n s gs) vs (λ v. variable-IsMade b n s g (get g s.gpu_max_caps) v refl)
      (make_variables-IsMade b n s gs) h

result_caps-IsBounded :
    (tolerance floor : ℚ) (s : DomainState) (value : ℕ → ℚ) (vs : List Variable)
    → All (IsMade floor s) vs
    → All (λ v. v.lower ≤ value v.gpu + tolerance) vs
    → All (λ v. value v.gpu ≤ v.upper + tolerance) vs
    → All (IsBounded tolerance floor s) (result_caps value vs)
unfolding result_caps gpus_of tabulate
result_caps-IsBounded tolerance floor s value [] made low high = tt
result_caps-IsBounded tolerance floor s value (v ∷ vs) ((reported, is_floor), made) (l, low)
      (h, high) =
    (
      record {
        max_cap = v.upper;
        reported = reported;
        at_least = subst (λ x. x ≤ value v.gpu + tolerance) is_floor l;
        at_most = h;
      },
      result_caps-IsBounded tolerance floor s value vs made low high,
    )

run_fallback-IsFallback :
    (b b' : CvxpyBrain) (r : Result (PrsBrain × BrainDecision)) (d : BrainDecision)
    → run_fallback_on b r ≡ (b', ok d)
    → (prs : PrsBrain) × (r ≡ ok (prs, d))
unfolding run_fallback_on
run_fallback-IsFallback b b' (raise e) d h = cc
run_fallback-IsFallback b b' (ok (prs, d')) d h =
    (prs, ap (λ d. ok (prs, d)) (ok-injective (ap (λ p. p.1) h)))

fallback-IsFallback :
    (n : String) (s : DomainState) (b b' : CvxpyBrain) (d : BrainDecision)
    → fallback_decide n s b ≡ (b', ok d)
    → IsFallback b.fallback n s d
unfolding fallback_decide
fallback-IsFallback n s b b' d h =
    let (prs, found) = run_fallback-IsFallback b b' (Prs.decide b.fallback n s) d h in
    record { prs = prs; decided = found }

run_fallback_raises :
    (b b' : CvxpyBrain) (r : Result (PrsBrain × BrainDecision)) (e : Error)
    → run_fallback_on b r ≡ (b', raise e)
    → b'.fallback ≡ b.fallback
unfolding run_fallback_on
run_fallback_raises b b' (raise e') e h = ap (λ p. (p.0).fallback) (sym h)
run_fallback_raises b b' (ok (prs, d)) e h = let never = ap (λ p. p.1) h in cc

module _ (tolerance : ℚ) (solve : Program → Result Solution) (sound : IsSound tolerance solve)
    (n : String) (s : DomainState) where
  -- A decision within the budget of the program and the bounds of its GPUs, or one of the fallback.
  abbrev pub IsGood : CvxpyBrain → ℚ → BrainDecision → Type 0
  IsGood b budget d = IsWithin tolerance b.min_cap_w budget s d ⊎ IsFallback b.fallback n s d

  module _ (f : PrsBrain) where
    abbrev Holds : CvxpyBrain → Type 0
    Holds b = b.fallback ≡ f

    fallback_raises :
        (b b' : CvxpyBrain) (e : Error)
        → fallback_decide n s b ≡ (b', raise e)
        → b'.fallback ≡ b.fallback
    unfolding fallback_decide
    fallback_raises b b' e h = run_fallback_raises b b' (Prs.decide b.fallback n s) e h

    fallback_decide-Ensures : Ensures Holds Holds (fallback_decide n s) (λ b d. IsFallback f n s d)
    fallback_decide-Ensures = record {
      holds = λ b b' d p h. subst (λ g. IsFallback g n s d) p (fallback-IsFallback n s b b' d h);
      raises = λ b b' e p h. fallback_raises b b' e h ∙ p;
    }

    unsolved-Ensures :
        (vs : List Variable) (r : Solution)
        → Ensures Holds Holds (decide_unsolved n s vs r) (λ b d. IsFallback f n s d)
    unfolding decide_unsolved
    unsolved-Ensures vs r =
        Ensures-bind (λ b m. Holds b) (Ensures-gets _ (λ b p. p))
          (λ m.
            Ensures-bind (λ b d. IsFallback f n s d) fallback_decide-Ensures
              (λ result.
                Ensures-then (λ b. IsFallback f n s result) (Ensures-modify _ (λ b p. p))
                  (Ensures-return _ (λ b p. p))))

    module _ (floor budget : ℚ) where
      abbrev Good : BrainDecision → Type 0
      Good d = IsWithin tolerance floor budget s d ⊎ IsFallback f n s d

      solved-Ensures :
          (vs : List Variable) (r : Solution) (value : ℕ → ℚ)
          → All (IsMade floor s) vs
          → Meets tolerance (record { variables = vs; budget = budget }) value
          → Ensures Holds Holds (decide_solved n s vs r value) (λ b d. Good d)
      unfolding decide_solved
      solved-Ensures vs r value made m = Ensures-then Holds (Ensures-modify _ (λ b p. p)) (
          Ensures-return _ (λ b p. inl (record {
            in_budget =
                subst (λ t. t ≤ budget + tolerance) (sym (sum-result_caps value vs))
                  m.within_budget;
            bounded = result_caps-IsBounded tolerance floor s value vs made m.lower m.upper;
          })))

      with-Ensures :
          (vs : List Variable) (r : Solution)
          → All (IsMade floor s) vs
          → solve (record { variables = vs; budget = budget }) ≡ ok r
          → Ensures Holds Holds (decide_with n s vs r) (λ b d. Good d)
      unfolding decide_with
      with-Ensures vs r made found = elim (Option-cases r.value) [
        | inl nothing ↦ rw nothing (Ensures-weaken (λ b d. inr) (unsolved-Ensures vs r))
        | inr (value, h) ↦ elim (Bool-cases (is_optimal r.status)) [
          | inl best ↦
              rw (h, best)
                (solved-Ensures vs r value made
                  (sound.keeps (record { variables = vs; budget = budget }) r value found h best))
          | inr other ↦ rw (h, other) (Ensures-weaken (λ b d. inr) (unsolved-Ensures vs r))
        ]
      ]

    module _ (floor : ℚ) (domain : PowerDomain) where
      -- Before the solver is called: the fallback, the floor and the domain are the ones given.
      abbrev Started : CvxpyBrain → Type 0
      Started b = Holds b × (b.min_cap_w ≡ floor)

      abbrev Made : Result (List Variable) → Type 0
      Made made = (vs : List Variable) → made ≡ ok vs → All (IsMade floor s) vs

      abbrev Solved : PowerDomain → List Variable → Solution → CvxpyBrain → Type 0
      Solved domain' vs r b =
          Holds b
          × (domain' ≡ domain)
          × All (IsMade floor s) vs
          × (solve (record { variables = vs; budget = domain'.budget_w }) ≡ ok r)

      solution-Ensures :
          (domain' : PowerDomain) (vs : List Variable) (r : Solution)
          → Ensures
              (Solved domain' vs r)
              Holds
              (decide_with n s vs r)
              (λ b d. Good floor domain.budget_w d)
      solution-Ensures domain' vs r = record {
        holds = λ b b' d (p, same, made, found) h.
            subst (λ x. Good floor x.budget_w d) same
              ((with-Ensures floor domain'.budget_w vs r made found).holds b b' d p h);
        raises = λ b b' e (p, same, made, found) h.
            (with-Ensures floor domain'.budget_w vs r made found).raises b b' e p h;
      }

      variables-Ensures :
          (domain' : PowerDomain) (made : Result (List Variable))
          → Ensures
              (λ b. Holds b × (domain' ≡ domain) × Made made)
              Holds
              (lift made >>= (λ vs.
                lift (solve (record { variables = vs; budget = domain'.budget_w }))
                >>= (λ r. decide_with n s vs r)))
              (λ b d. Good floor domain.budget_w d)
      variables-Ensures domain' made =
          Ensures-bind (λ b vs. Holds b × (domain' ≡ domain) × All (IsMade floor s) vs)
            (Ensures-lift _ (λ b vs h p. (p.0, p.1, p.2 vs h)) (λ b p. p.0))
            (λ vs.
              Ensures-bind (λ b r. Solved domain' vs r b)
                (Ensures-lift _ (λ b r h p. (p.0, p.1, p.2, h)) (λ b p. p.0))
                (λ r. solution-Ensures domain' vs r))

      cvxpy-Ensures :
          Ensures
            (λ b. Started b × (get n b.topology.domains ≡ some domain))
            Holds
            (decide_cvxpy solve n s)
            (λ b d. Good floor domain.budget_w d)
      unfolding decide_cvxpy ewma_update
      cvxpy-Ensures =
          Ensures-bind (λ b found. Started b × (found ≡ some domain)) (Ensures-gets _ (λ b p. p))
            (λ found.
              Ensures-bind (λ b domain'. Started b × (domain' ≡ domain))
                (Ensures-lift _ (λ b d h p. (p.0, ok-injective (sym h ∙ ap (or_raise _) p.1)))
                  (λ b p. p.0.0))
                (λ domain'.
                  Ensures-then (λ b. Started b × (domain' ≡ domain)) (Ensures-modify _ (λ b p. p))
                    (Ensures-bind (λ b made. Holds b × (domain' ≡ domain) × Made made)
                      (Ensures-gets _ (λ b p. (
                        p.0.0,
                        p.1,
                        λ vs h.
                            subst (λ w. All (IsMade w s) vs) p.0.1
                              (make_variables-IsMade b n s _ vs h),
                      )))
                      (variables-Ensures domain'))))

  -- For a domain of the topology and a solver whose optimal solutions meet the constraints of a
  -- program up to a tolerance, a decision that CVXPYBrain.decide returns has, up to that
  -- tolerance, caps that add up to at most the domain's budget and lie between the brain's floor
  -- and the maximum that the sample reports for the GPU, or it is the decision of the fallback in
  -- the state it had.
  pub decide-IsGood :
      (b b' : CvxpyBrain) (domain : PowerDomain) (d : BrainDecision)
      → get n b.topology.domains ≡ some domain
      → decide (some solve) n s b ≡ (b', ok d)
      → IsGood b domain.budget_w d
  unfolding decide try caught_by return
  decide-IsGood b b' domain d known h =
      let ensured = cvxpy-Ensures b.fallback b.min_cap_w domain in
      let (b₁, r) = decide_cvxpy solve n s b in
      elim (Result-cases (decide_cvxpy solve n s b).1) [
        | inr (d', q) ↦
            let same = ap (λ r. r.1) (rw q at h) in
            subst (IsGood b domain.budget_w) (ok-injective same) (
              ensured.holds b b₁ d' ((refl, refl), known)
                (ap (λ r. ((decide_cvxpy solve n s b).0, r)) q))
        | inl (e, q) ↦
            let kept =
              ensured.raises b b₁ e ((refl, refl), known)
                (ap (λ r. ((decide_cvxpy solve n s b).0, r)) q) in
            inr (subst (λ g. IsFallback g n s d) kept (fallback-IsFallback n s b₁ b' d (rw q at h)))
      ]
