-- ===== src/Agent/Failsafe/Simulated.antt =====
-- The simulated GPUs as the actuator of the failsafe.
use Prim.Native.Nat.{ℕ}
use opendps.Prelude.{◌≡◌, refl, ap, sym, ◌∙◌, false, some, Option-cases, inl, inr}
use opendps.Num.{ℚ, int, ◌≤◌, le_refl, le_trans, min_le_left, max_le}
use opendps.Dict.{nat_key, get, set, get-set, beq_refl}
use opendps.Result.{ok, ok-injective}
use opendps.Sim.Backend.{SimGpu, SimBackend, capped}
use opendps.Sim.Backend
use opendps.Sim.Actuator.{SimState, with_backend, sim_actuator}
use opendps.Agent.Failsafe.Scan.{IsTarget}

-- A cap that is set replaces one GPU by the GPU with that cap.
record Replaced (s s' : SimState) (i : ℕ) (watts : ℚ) : Type 0 where
  gpu : SimGpu
  gpus : s'.backend.gpus ≡ set i (capped gpu watts) s.backend.gpus

set-Replaced :
    (s s' : SimState) (i : ℕ) (watts : ℚ)
    → sim_actuator.set_power_cap s i watts ≡ ok s'
    → Replaced s s' i watts
unfolding sim_actuator with_backend Backend.set_power_cap
set-Replaced s s' i watts h = elim (Option-cases (get i s.backend.gpus)) [
  | inl missing ↦ let bad = rw missing at h in cc
  | inr (gpu, there) ↦
      let same = ok-injective (rw there at h) in
      record { gpu = gpu; gpus = sym (ap (λ s. s.backend.gpus) same) }
]

get-other :
    (s s' : SimState) (i j : ℕ) (watts : ℚ)
    → nat_key.beq i j ≡ false
    → sim_actuator.set_power_cap s i watts ≡ ok s'
    → get j s'.backend.gpus ≡ get j s.backend.gpus
get-other s s' i j watts other h =
    let r = set-Replaced s s' i watts h in
    ap (get j) r.gpus ∙ get-set j i (capped r.gpu watts) s.backend.gpus ∙ rw other refl

capped-le : (gpu : SimGpu) (watts : ℚ) → int 0 ≤ watts → (capped gpu watts).cap_w ≤ watts
unfolding capped
capped-le gpu watts pos = le_trans (min_le_left _ _) (max_le pos (le_refl watts))

-- The simulated GPUs keep what is asked of an actuator.
pub sim_actuator-IsTarget : IsTarget sim_actuator
unfolding sim_actuator with_backend Backend.set_power_cap Backend.get_power_draw
    Backend.get_power_cap
sim_actuator-IsTarget = record {
  reads_back = λ s s' i watts pos h.
      let r = set-Replaced s s' i watts h in
      let there : get i s'.backend.gpus ≡ some (capped r.gpu watts) =
        ap (get i) r.gpus
        ∙ get-set i i (capped r.gpu watts) s.backend.gpus
        ∙ rw (beq_refl i) refl in
      record {
        cap = (capped r.gpu watts).cap_w;
        reads = rw there refl;
        cap_le = capped-le r.gpu watts pos;
      };
  other_draw = λ s s' i j watts other h. rw (get-other s s' i j watts other h) refl;
  other_cap = λ s s' i j watts other h. rw (get-other s s' i j watts other h) refl;
  other_refused = λ s s' i j watts w e other h failed. elim (Option-cases (get j s.backend.gpus)) [
    | inl missing ↦
        let same = get-other s s' i j watts other h ∙ missing in rw same (rw missing at failed)
    | inr (gpu, there) ↦ let bad = rw there at failed in cc
  ];
}
