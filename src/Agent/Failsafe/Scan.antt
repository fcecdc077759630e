-- ===== src/Agent/Failsafe/Scan.antt =====
-- A scan of the failsafe, GPU by GPU.
use Prim.Native.Nat.{ℕ}
use opendps.Prelude.{◌≡◌, refl, ◌∙◌, false, List, [], ◌∷◌, Bool-cases, inl, inr, subst}
use opendps.Num.{ℚ, int, leb, ◌≤◌, ◌<◌, le_or_lt, All, All-imp}
use opendps.Dict.{nat_key}
use opendps.Result.{Error, ok, raise, Result-cases, ok-injective, raise-ne-ok}
use opendps.Sim.Actuator.{Actuator}
use opendps.Agent.Failsafe.{
  FailsafeLoop, caught, tripped, init, trip, poll_gpu, scan_gpus, range, scan,
}

-- What the constructor checks, for a cap that is not negative.
pub record IsFailsafe {A : Type 0} (f : FailsafeLoop A) : Type 0 where
  pub cap_nonneg : int 0 ≤ f.emergency_cap
  pub cap_below : f.emergency_cap < f.threshold

-- The cap of a GPU reads back as at most so many watts.
pub record IsCapped {A : Type 0} (target : Actuator A) (s : A) (i : ℕ) (watts : ℚ) : Type 0 where
  pub cap : ℚ
  pub reads : target.get_power_cap s i ≡ ok cap
  pub cap_le : cap ≤ watts

-- What is asked of an actuator: a cap that is set without an exception reads back, and setting it on
-- one GPU changes nothing about another.
pub record IsTarget {A : Type 0} (target : Actuator A) : Type 0 where
  pub reads_back :
      (s s' : A) (i : ℕ) (watts : ℚ)
      → int 0 ≤ watts
      → target.set_power_cap s i watts ≡ ok s'
      → IsCapped target s' i watts
  pub other_draw :
      (s s' : A) (i j : ℕ) (watts : ℚ)
      → nat_key.beq i j ≡ false
      → target.set_power_cap s i watts ≡ ok s'
      → target.get_power_draw s' j ≡ target.get_power_draw s j
  pub other_cap :
      (s s' : A) (i j : ℕ) (watts : ℚ)
      → nat_key.beq i j ≡ false
      → target.set_power_cap s i watts ≡ ok s'
      → target.get_power_cap s' j ≡ target.get_power_cap s j
  pub other_refused :
      (s s' : A) (i j : ℕ) (watts w : ℚ) (e : Error)
      → nat_key.beq i j ≡ false
      → target.set_power_cap s i watts ≡ ok s'
      → target.set_power_cap s j w ≡ raise e
      → target.set_power_cap s' j w ≡ raise e

-- How a scan leaves a GPU.
pub data Guarded {A : Type 0} (target : Actuator A) (threshold emergency_cap : ℚ) (s : A) (i : ℕ)
    : Type 0 where
  in_limit :
      (draw : ℚ)
      → target.get_power_draw s i ≡ ok draw
      → draw ≤ threshold
      → Guarded target threshold emergency_cap s i
  cut :
      IsCapped target s i emergency_cap
      → emergency_cap < threshold
      → Guarded target threshold emergency_cap s i
  unread :
      (e : Error) → target.get_power_draw s i ≡ raise e → Guarded target threshold emergency_cap s i
  refused :
      (e : Error)
      → target.set_power_cap s i emergency_cap ≡ raise e
      → Guarded target threshold emergency_cap s i

module _ {A : Type 0} (target : Actuator A) (laws : IsTarget target) where
  Guarded-other :
      (thr c : ℚ) (s s' : A) (i j : ℕ)
      → nat_key.beq i j ≡ false
      → target.set_power_cap s i c ≡ ok s'
      → Guarded target thr c s j
      → Guarded target thr c s' j
  Guarded-other thr c s s' i j other set (in_limit draw reads low) =
      in_limit draw (laws.other_draw s s' i j c other set ∙ reads) low
  Guarded-other thr c s s' i j other set (cut capped less) =
      cut
        (record {
          cap = capped.cap;
          reads = laws.other_cap s s' i j c other set ∙ capped.reads;
          cap_le = capped.cap_le;
        })
        less
  Guarded-other thr c s s' i j other set (unread e failed) =
      unread e (laws.other_draw s s' i j c other set ∙ failed)
  Guarded-other thr c s s' i j other set (refused e failed) =
      refused e (laws.other_refused s s' i j c c e other set failed)

  -- A cap on one GPU leaves another guarded, and the same GPU is guarded by it.
  Guarded-set :
      (thr c : ℚ) (s s' : A) (i j : ℕ)
      → int 0 ≤ c
      → c < thr
      → target.set_power_cap s i c ≡ ok s'
      → Guarded target thr c s j
      → Guarded target thr c s' j
  Guarded-set thr c s s' i j pos less set h = elim (Bool-cases (nat_key.beq i j)) [
    | inl same ↦
        subst (Guarded target thr c s') ((nat_key.beq_iff i j).0 same)
          (cut (laws.reads_back s s' i c pos set) less)
    | inr other ↦ Guarded-other thr c s s' i j other set h
  ]

  -- What a step of the loop keeps.
  record Step (f g : FailsafeLoop A) (i : ℕ) : Type 0 where
    threshold : g.threshold ≡ f.threshold
    emergency : g.emergency_cap ≡ f.emergency_cap
    visited : Guarded target f.threshold f.emergency_cap g.actuator i
    others :
        (j : ℕ)
        → Guarded target f.threshold f.emergency_cap f.actuator j
        → Guarded target f.threshold f.emergency_cap g.actuator j

  Step-trip : (f : FailsafeLoop A) (i : ℕ) → IsFailsafe f → Step f (caught f (trip target f i)) i
  unfolding trip caught tripped
  Step-trip f i v = elim (Result-cases (target.set_power_cap f.actuator i f.emergency_cap)) [
    | inl (e, failed) ↦ rw failed (record {
      threshold = refl;
      emergency = refl;
      visited = refused e failed;
      others = λ j h. h;
    })
    | inr (s', set) ↦ rw set (record {
      threshold = refl;
      emergency = refl;
      visited = cut (laws.reads_back f.actuator s' i f.emergency_cap v.cap_nonneg set) v.cap_below;
      others = λ j h.
          Guarded-set f.threshold f.emergency_cap f.actuator s' i j v.cap_nonneg v.cap_below set h;
    })
  ]

  Step-poll_gpu :
      (f : FailsafeLoop A) (i : ℕ) → IsFailsafe f → Step f (caught f (poll_gpu target f i)) i
  unfolding poll_gpu caught
  Step-poll_gpu f i v = elim (Result-cases (target.get_power_draw f.actuator i)) [
    | inl (e, failed) ↦ rw failed (record {
      threshold = refl;
      emergency = refl;
      visited = unread e failed;
      others = λ j h. h;
    })
    | inr (draw, reads) ↦ elim (le_or_lt draw f.threshold) [
      | inl low ↦
          rw (reads, low.holds)
            (record {
              threshold = refl;
              emergency = refl;
              visited = in_limit draw reads low;
              others = λ j h. h;
            })
      | inr high ↦ rw (reads, high.holds) (Step-trip f i v)
    ]
  ]

  Step-IsFailsafe : (f g : FailsafeLoop A) (i : ℕ) → Step f g i → IsFailsafe f → IsFailsafe g
  Step-IsFailsafe f g i st v = record {
    cap_nonneg = rw st.emergency v.cap_nonneg;
    cap_below = rw (st.emergency, st.threshold) v.cap_below;
  }

  abbrev GuardedBy : FailsafeLoop A → A → ℕ → Type 0
  GuardedBy f s i = Guarded target f.threshold f.emergency_cap s i

  -- A step's figures are the same, so a GPU that is guarded for the one is for the other.
  GuardedBy-Step :
      (f g : FailsafeLoop A) (i j : ℕ) (s : A)
      → Step f g i
      → (GuardedBy f s j → GuardedBy g s j) × (GuardedBy g s j → GuardedBy f s j)
  GuardedBy-Step f g i j s st = (
    λ h. rw (st.threshold, st.emergency) h,
    λ h.
        subst (λ t. Guarded target t f.emergency_cap s j) st.threshold
          (subst (λ c. Guarded target g.threshold c s j) st.emergency h),
  )

  scan_gpus_keeps :
      (f : FailsafeLoop A) (is : List ℕ) (j : ℕ)
      → IsFailsafe f
      → GuardedBy f f.actuator j
      → GuardedBy f (scan_gpus target f is).actuator j
  unfolding scan_gpus
  scan_gpus_keeps f [] j v h = h
  scan_gpus_keeps f (i ∷ is) j v h =
      let g = caught f (poll_gpu target f i) in
      let st = Step-poll_gpu f i v in
      (GuardedBy-Step f g i j _ st).1 (
        scan_gpus_keeps g is j (Step-IsFailsafe f g i st v)
          ((GuardedBy-Step f g i j g.actuator st).0 (st.others j h)))

  scan_gpus-Guarded :
      (f : FailsafeLoop A) (is : List ℕ)
      → IsFailsafe f
      → All (GuardedBy f (scan_gpus target f is).actuator) is
  unfolding scan_gpus
  scan_gpus-Guarded f [] v = tt
  scan_gpus-Guarded f (i ∷ is) v =
      let g = caught f (poll_gpu target f i) in
      let st = Step-poll_gpu f i v in
      let w = Step-IsFailsafe f g i st v in
      (
        (GuardedBy-Step f g i i _ st).1
            (scan_gpus_keeps g is i w ((GuardedBy-Step f g i i g.actuator st).0 st.visited)),
        All-imp (λ j. (GuardedBy-Step f g i j _ st).1) is (scan_gpus-Guarded g is w),
      )

  -- After one scan of the fleet, with an emergency cap that is not negative and below the
  -- threshold, every GPU with an index below the number of GPUs reads a draw of at most the
  -- threshold, or has a cap that reads back as at most the emergency cap, and so below the
  -- threshold, or its draw cannot be read, or the actuator refuses the emergency cap with an
  -- exception; for an actuator whose caps read back where they are set without an exception, and
  -- whose calls on one GPU leave the others alone.
  pub scan-Guarded :
      (f : FailsafeLoop A)
      → IsFailsafe f
      → All
          (Guarded target f.threshold f.emergency_cap (scan target f).actuator)
          (range (target.gpu_count f.actuator))
  unfolding scan
  scan-Guarded f v = scan_gpus-Guarded f (range (target.gpu_count f.actuator)) v

-- A loop that the constructor returns for a cap that is not negative has an emergency cap below the
-- threshold.
pub init-IsFailsafe :
    {A : Type 0} (actuator : A) (threshold emergency_cap interval : ℚ) {f : FailsafeLoop A}
    → int 0 ≤ emergency_cap
    → init actuator threshold emergency_cap interval ≡ ok f
    → IsFailsafe f
unfolding init
init-IsFailsafe actuator threshold emergency_cap interval {f} h e =
    elim (Bool-cases (leb threshold emergency_cap)) [
      | inl bad ↦ absurd (raise-ne-ok (rw bad at e))
      | inr good ↦
          subst IsFailsafe (ok-injective (rw good at e))
            (record { cap_nonneg = h; cap_below = record { holds = good } })
    ]
