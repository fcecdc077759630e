-- ===== src/Brain/Cvxpy.antt =====
-- opendps/brain/cvxpy_brain.py: `CVXPYBrain`, which has a linear program solved. The package cvxpy is
-- the argument `solve`, from a program to what `prob.solve` leaves, or an exception; none where it
-- cannot be imported.
pub mod Feasible
use Prim.Native.Nat.{ℕ}
use Prim.Native.String.{String}
use opendps.Prelude.{
  Bool, true, false, not, ◌||◌, Option, none, some, List, [], ◌∷◌, if◌then◌else◌, nat_leb,
}
use opendps.Num.{ℚ, ◌+◌, ◌-◌, ◌*◌, ◌/◌, int, leb, max, sum, sum_map}
use opendps.Dict.{
  Dict, nat_key, string_key, get, get_or, or_default, set, keys, values, filter, tabulate,
}
use opendps.Result.{Result, ok, raise, Error, or_raise, key_error}
use opendps.Op.{Op, return, lift, modify, gets, ◌>>=◌, ◌>>◌, try, throw}
use opendps.Sort.{sort}
use opendps.Pdn.Model.{PdnTopology}
use opendps.Brain.State.{DomainState, BrainDecision, cvxpy}
use opendps.Brain.Prs.{PrsBrain, PrsMetrics, update_ewma, ewma_at}
use opendps.Brain.Prs

-- The data of one GPU in the program: its draw, its bounds, and whether it is hot.
pub record Variable : Type 0 where
  pub gpu : ℕ
  pub draw : ℚ
  pub hot : Bool
  pub lower : ℚ
  pub upper : ℚ
  -- the constraint of an idle GPU
  pub idle_ceil : Option ℚ

pub record Program : Type 0 where
  pub variables : List Variable
  pub budget : ℚ

-- `prob.status` and `caps_var.value`, by GPU, with the time taken.
pub record Solution : Type 0 where
  pub status : String
  pub value : Option (ℕ → ℚ)
  pub solve_time_ms : ℚ

pub record CvxpyMetrics : Type 0 where
  pub hot_gpus : List ℕ
  pub idle_gpus : List ℕ
  pub idle_stranded_w : ℚ
  pub domain_draw_w : ℚ
  pub domain_cap_w : ℚ
  pub is_fallback : Bool
  pub solver_status : String
  pub solve_time_ms : ℚ

pub record CvxpyBrain : Type 0 where
  pub topology : PdnTopology
  pub min_cap_w : ℚ
  pub alpha : ℚ
  pub threshold : ℚ
  pub idle_ceil : ℚ
  pub ewma : Dict String (Dict ℕ ℚ)
  pub last_metrics : Dict String CvxpyMetrics
  pub fallback : PrsBrain

unfoldable pub make_brain : PdnTopology → ℚ → ℚ → ℚ → ℚ → PrsBrain → CvxpyBrain
make_brain topology min_cap_w ewma_alpha reclaim_threshold idle_reclaim_ceil fallback = record {
  topology = topology;
  min_cap_w = min_cap_w;
  alpha = ewma_alpha;
  threshold = reclaim_threshold;
  idle_ceil = idle_reclaim_ceil;
  ewma = [];
  last_metrics = [];
  fallback = fallback;
}

-- `__init__`; the fallback keeps the defaults of `PRSBrain` for the rest.
unfoldable pub init : PdnTopology → ℚ → ℚ → ℚ → ℚ → Result CvxpyBrain
unfolding make_brain
init topology min_cap_w ewma_alpha reclaim_threshold idle_reclaim_ceil =
    elim (Prs.init topology min_cap_w ewma_alpha (int 3 / int 5) (int 3 / int 10) (int 0)) [
      | raise e ↦ raise e
      | ok fallback ↦
          ok (make_brain topology min_cap_w ewma_alpha reclaim_threshold idle_reclaim_ceil fallback)
    ]

-- `_ewma_update`: the averages of a domain start as its first draws.
unfoldable pub ewma_update : CvxpyBrain → String → Dict ℕ ℚ → CvxpyBrain
ewma_update b domain draws = record b {
  ewma = set domain (update_ewma b.alpha draws (get_or domain draws b.ewma)) b.ewma;
}

unfoldable pub averages : CvxpyBrain → String → Dict ℕ ℚ
averages b domain = get_or domain [] b.ewma

unfoldable pub is_hot : ℚ → ℚ → ℚ → Bool
is_hot threshold ewma max_cap = leb threshold (ewma / max max_cap (int 1))

unfoldable pub make_variable : CvxpyBrain → String → DomainState → ℕ → ℚ → Variable
unfolding is_hot averages
make_variable b domain_name state gpu max_cap =
    let ewma = ewma_at (averages b domain_name) gpu in
    let hot = is_hot b.threshold ewma max_cap in
    record {
      gpu = gpu;
      draw = get_or gpu (int 0) state.gpu_draws;
      hot = hot;
      lower = b.min_cap_w;
      upper = max_cap;
      idle_ceil = if hot then none else some (max b.min_cap_w (ewma * b.idle_ceil));
    }

unfoldable pub cons_variable : Result Variable → Result (List Variable) → Result (List Variable)
cons_variable (raise e) rest = raise e
cons_variable (ok v) (raise e) = raise e
cons_variable (ok v) (ok rest) = ok (v ∷ rest)

-- `state.gpu_max_caps[g]`, then the variable.
unfoldable pub variable_or_raise :
    CvxpyBrain → String → DomainState → ℕ → Option ℚ → Result Variable
unfolding make_variable
variable_or_raise b domain_name state gpu none = raise key_error
variable_or_raise b domain_name state gpu (some max_cap) =
    ok (make_variable b domain_name state gpu max_cap)

unfoldable pub make_variables : CvxpyBrain → String → DomainState → List ℕ → Result (List Variable)
unfolding variable_or_raise cons_variable
make_variables b domain_name state [] = ok []
make_variables b domain_name state (gpu ∷ gpus) =
    cons_variable (variable_or_raise b domain_name state gpu (get gpu state.gpu_max_caps))
      (make_variables b domain_name state gpus)

unfoldable pub gpus_of : List Variable → List ℕ
gpus_of [] = []
gpus_of (v ∷ variables) = v.gpu ∷ gpus_of variables

unfoldable pub hot_gpus : List Variable → List ℕ
unfolding gpus_of
hot_gpus variables = gpus_of (filter (λ v. v.hot) variables)

unfoldable pub idle_gpus : List Variable → List ℕ
unfolding gpus_of
idle_gpus variables = gpus_of (filter (λ v. not v.hot) variables)

unfoldable pub is_optimal : String → Bool
is_optimal status = string_key.beq status "optimal" || string_key.beq status "optimal_inaccurate"

-- `getattr(m, "idle_stranded_w", 0.0) if m else 0.0`
unfoldable pub stranded_of : Option PrsMetrics → ℚ
stranded_of none = int 0
stranded_of (some m) = m.idle_stranded_w

unfoldable pub note_metrics : String → CvxpyMetrics → CvxpyBrain → CvxpyBrain
note_metrics domain_name metrics b = record b {
  last_metrics = set domain_name metrics b.last_metrics;
}

unfoldable pub metrics_of : List Variable → ℚ → ℚ → Bool → Solution → CvxpyMetrics
unfolding hot_gpus idle_gpus
metrics_of variables stranded cap_w is_fallback solution = record {
  hot_gpus = hot_gpus variables;
  idle_gpus = idle_gpus variables;
  idle_stranded_w = stranded;
  domain_draw_w = sum_map (λ v. v.draw) variables;
  domain_cap_w = cap_w;
  is_fallback = is_fallback;
  solver_status = solution.status;
  solve_time_ms = solution.solve_time_ms;
}

-- The fallback keeps its state when it raises.
unfoldable pub run_fallback_on :
    CvxpyBrain → Result (PrsBrain × BrainDecision) → CvxpyBrain × Result BrainDecision
run_fallback_on b (raise e) = (b, raise e)
run_fallback_on b (ok (prs, decision)) = (record b { fallback = prs }, ok decision)

unfoldable pub fallback_decide : String → DomainState → Op CvxpyBrain BrainDecision
unfolding run_fallback_on
fallback_decide domain_name state b = run_fallback_on b (Prs.decide b.fallback domain_name state)

-- The branch where the solver has found nothing.
unfoldable pub decide_unsolved :
    String → DomainState → List Variable → Solution → Op CvxpyBrain BrainDecision
unfolding fallback_decide note_metrics metrics_of stranded_of modify gets return
decide_unsolved domain_name state variables solution = do
  m ← gets (λ b. Prs.get_last_metrics b.fallback domain_name)
  result ← fallback_decide domain_name state
  modify (
      note_metrics domain_name
        (metrics_of variables (stranded_of m) (sum (values result.caps)) true solution))
  return result

unfoldable pub result_caps : (ℕ → ℚ) → List Variable → Dict ℕ ℚ
unfolding gpus_of
result_caps value variables = tabulate value (gpus_of variables)

unfoldable pub idle_stranded : (ℕ → ℚ) → List Variable → ℚ
idle_stranded value variables =
    sum_map (λ v. v.upper - value v.gpu) (filter (λ v. not v.hot) variables)

unfoldable pub decide_solved :
    String → DomainState → List Variable → Solution → (ℕ → ℚ) → Op CvxpyBrain BrainDecision
unfolding result_caps idle_stranded note_metrics metrics_of modify return
decide_solved domain_name state variables solution value = do
  modify (
      note_metrics domain_name (
        metrics_of variables (idle_stranded value variables)
          (sum (values (result_caps value variables))) false solution))
  return (record {
    domain = domain_name;
    caps = result_caps value variables;
    ts = state.ts;
    reason = cvxpy solution.status solution.solve_time_ms;
  })

unfoldable pub decide_with :
    String → DomainState → List Variable → Solution → Op CvxpyBrain BrainDecision
unfolding decide_solved decide_unsolved is_optimal
decide_with domain_name state variables solution = elim solution.value [
  | none ↦ decide_unsolved domain_name state variables solution
  | some value ↦
      if is_optimal solution.status
      then decide_solved domain_name state variables solution value
      else decide_unsolved domain_name state variables solution
]

-- `_decide_cvxpy`; the averages are updated before anything else can fail.
unfoldable pub decide_cvxpy :
    (Program → Result Solution) → String → DomainState → Op CvxpyBrain BrainDecision
unfolding ewma_update make_variables decide_with modify gets lift
decide_cvxpy solve domain_name state = do
  found ← gets (λ b. get domain_name b.topology.domains)
  domain ← lift (or_raise key_error found)
  modify (λ b. ewma_update b domain_name state.gpu_draws)
  made ← gets (λ b. make_variables b domain_name state (sort nat_leb (keys state.gpu_draws)))
  variables ← lift made
  solution ← lift (solve (record { variables = variables; budget = domain.budget_w }))
  decide_with domain_name state variables solution

-- `decide`: any exception is answered by the fallback, and so is a failed import of cvxpy, where there
-- is nothing to solve with and the averages stay as they are.
unfoldable pub decide :
    Option (Program → Result Solution) → String → DomainState → Op CvxpyBrain BrainDecision
unfolding decide_cvxpy fallback_decide try return
decide none domain_name state = fallback_decide domain_name state
decide (some solve) domain_name state =
    try (decide_cvxpy solve domain_name state) (λ _. fallback_decide domain_name state) return
