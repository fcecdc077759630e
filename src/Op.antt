-- ===== src/Op.antt =====
-- Calls that change a state and may raise: the state after the call is there in either case.
use opendps.Prelude.{◌≡◌, refl, ◌∙◌, ap, subst, inl, inr, Bool, true, false}
use opendps.Result.{Result, ok, raise, Error, Result-cases, ok-injective}

-- What a call does: the state after it, and its result or exception.
abbrev pub Op : Type 0 → Type 0 → Type 0
Op S A = S → S × Result A

unfoldable pub return : {S A : Type 0} → A → Op S A
return a s = (s, ok a)

unfoldable pub throw : {S A : Type 0} → Error → Op S A
throw e s = (s, raise e)

unfoldable pub continue_with : {S A B : Type 0} → (A → Op S B) → S × Result A → S × Result B
continue_with rest (s, raise e) = (s, raise e)
continue_with rest (s, ok a) = rest a s

infixl 5 ◌>>=◌
unfoldable pub ◌>>=◌ : {S A B : Type 0} → Op S A → (A → Op S B) → Op S B
unfolding continue_with
◌>>=◌ call rest s = continue_with rest (call s)

infixl 5 ◌>>◌
unfoldable pub ◌>>◌ : {S A B : Type 0} → Op S A → Op S B → Op S B
unfolding ◌>>=◌
◌>>◌ call rest = call >>= (λ _. rest)

unfoldable pub caught_by :
    {S A B : Type 0} → (Error → Op S B) → (A → Op S B) → S × Result A → S × Result B
caught_by handler rest (s, raise e) = handler e s
caught_by handler rest (s, ok a) = rest a s

-- `try: a = call() except: handler(e) else: rest(a)`
unfoldable pub try : {S A B : Type 0} → Op S A → (Error → Op S B) → (A → Op S B) → Op S B
unfolding caught_by
try call handler rest s = caught_by handler rest (call s)

unfoldable pub lift : {S A : Type 0} → Result A → Op S A
lift result s = (s, result)

-- `if failed: raise error`
unfoldable pub fail_if : {S : Type 0} → Bool → Error → Op S (Unit {0})
unfolding throw return
fail_if true e = throw e
fail_if false e = return tt

unfoldable pub after : {S A : Type 0} → (S → S) → S × Result A → S × Result A
after clean (s, result) = (clean s, result)

-- `finally:`; the exception, if any, goes on.
unfoldable pub finally : {S A : Type 0} → Op S A → (S → S) → Op S A
unfolding after
finally call clean s = after clean (call s)

-- An update that cannot raise.
unfoldable pub modify : {S : Type 0} → (S → S) → Op S (Unit {0})
modify f s = (f s, ok tt)

-- A value that is read off the state.
unfoldable pub gets : {S A : Type 0} → (S → A) → Op S A
gets f s = (s, ok (f s))

-- A chain that returns is a call that returns, and what follows on its value.
module _ {S A B : Type 0} (call : Op S A) (rest : A → Op S B) (s t : S) (b : B) where
  returned :
      (r : S × Result A)
      → call s ≡ r
      → continue_with rest r ≡ (t, ok b)
      → (u : S) × (a : A) × (call s ≡ (u, ok a)) × (rest a u ≡ (t, ok b))
  unfolding continue_with
  returned (u, raise e) p h = cc
  returned (u, ok a) p h = (u, a, p, h)

  pub >>=-eq-ok :
      (call >>= rest) s ≡ (t, ok b)
      → (u : S) × (a : A) × (call s ≡ (u, ok a)) × (rest a u ≡ (t, ok b))
  unfolding ◌>>=◌
  >>=-eq-ok h = returned (call s) refl h

-- A call that leaves a part of the state as it is, also when it raises.
pub record Keeps {S A X : Type 0} (view : S → X) (call : Op S A) : Type 0 where
  pub holds : (s : S) → view (call s).0 ≡ view s

module _ {S X : Type 0} {view : S → X} where
  pub Keeps-return : {A : Type 0} (a : A) → Keeps view (return a)
  unfolding return
  Keeps-return a = record { holds = λ s. refl }

  pub Keeps-lift : {A : Type 0} (result : Result A) → Keeps view (lift result)
  unfolding lift
  Keeps-lift r = record { holds = λ s. refl }

  pub Keeps-gets : {A : Type 0} (f : S → A) → Keeps view (gets f)
  unfolding gets
  Keeps-gets f = record { holds = λ s. refl }

  pub Keeps-modify : (f : S → S) → ((s : S) → view (f s) ≡ view s) → Keeps view (modify f)
  unfolding modify
  Keeps-modify f h = record { holds = h }

  pub Keeps-bind :
      {A B : Type 0} {call : Op S A} {rest : A → Op S B}
      → Keeps view call
      → ((a : A) → Keeps view (rest a))
      → Keeps view (call >>= rest)
  unfolding ◌>>=◌ continue_with
  Keeps-bind {call = call} k r = record {
    holds = λ s. elim (Result-cases (call s).1) [
      | inl (e, h) ↦ rw h (k.holds s)
      | inr (a, h) ↦ rw h ((r a).holds (call s).0 ∙ k.holds s)
    ];
  }

  pub Keeps-then :
      {A B : Type 0} {call : Op S A} {rest : Op S B}
      → Keeps view call
      → Keeps view rest
      → Keeps view (call >> rest)
  unfolding ◌>>◌
  Keeps-then k r = Keeps-bind k (λ _. r)

-- From a state with `pre`, a call that returns leaves a state and a value with `post`, and one that
-- raises a state with `bad`.
pub record Ensures {S A : Type 0} (pre bad : S → Type 0) (call : Op S A) (post : S → A → Type 0)
    : Type 0 where
  pub holds : (s t : S) (a : A) → pre s → call s ≡ (t, ok a) → post t a
  pub raises : (s t : S) (e : Error) → pre s → call s ≡ (t, raise e) → bad t

module _ {S A : Type 0} {s t : S} {r r' : Result A}
    (h : ◌≡◌ {A = S × Result A} (s, r) (t, r')) where
  returned_state : s ≡ t
  returned_state = ap (λ r. r.0) h

  returned_value : r ≡ r'
  returned_value = ap (λ r. r.1) h

module _ {S A : Type 0} {pre bad : S → Type 0} {post : S → A → Type 0} where
  pub Ensures-return : (a : A) → ((s : S) → pre s → post s a) → Ensures pre bad (return a) post
  unfolding return
  Ensures-return a h = record {
    holds = λ s t b p e.
        subst (λ b. post t b) (ok-injective (returned_value e))
          (subst (λ u. post u a) (returned_state e) (h s p));
    raises = λ s t b p e. let never = returned_value e in cc;
  }

  pub Ensures-gets : (f : S → A) → ((s : S) → pre s → post s (f s)) → Ensures pre bad (gets f) post
  unfolding gets
  Ensures-gets f h = record {
    holds = λ s t b p e.
        subst (λ b. post t b) (ok-injective (returned_value e))
          (subst (λ u. post u (f s)) (returned_state e) (h s p));
    raises = λ s t b p e. let never = returned_value e in cc;
  }

  pub Ensures-lift :
      (r : Result A)
      → ((s : S) (a : A) → r ≡ ok a → pre s → post s a)
      → ((s : S) → pre s → bad s)
      → Ensures pre bad (lift r) post
  unfolding lift
  Ensures-lift r h k = record {
    holds = λ s t b p e. subst (λ u. post u b) (returned_state e) (h s b (returned_value e) p);
    raises = λ s t b p e. subst bad (returned_state e) (k s p);
  }

  pub Ensures-weaken :
      {weak : S → A → Type 0} {call : Op S A}
      → ((s : S) (a : A) → post s a → weak s a)
      → Ensures pre bad call post
      → Ensures pre bad call weak
  Ensures-weaken w k = record { holds = λ s t a p e. w t a (k.holds s t a p e); raises = k.raises }

  pub Ensures-bind :
      {B : Type 0} {call : Op S B} {rest : B → Op S A} (mid : S → B → Type 0)
      → Ensures pre bad call mid
      → ((b : B) → Ensures (λ s. mid s b) bad (rest b) post)
      → Ensures pre bad (call >>= rest) post
  unfolding ◌>>=◌ continue_with
  Ensures-bind {call = call} {rest = rest} mid k r = record {
    holds = λ s t a p e.
        let (u, b, h, h') = >>=-eq-ok call rest s t a e in (r b).holds u t a (k.holds s u b p h) h';
    raises = λ s t e p h. elim (Result-cases (call s).1) [
      | inl (e', q) ↦
          let h' = rw q at h in
          subst bad (returned_state h') (k.raises s (call s).0 e' p (ap (λ r. ((call s).0, r)) q))
      | inr (b, q) ↦
          (r b).raises (call s).0 t e (k.holds s (call s).0 b p (ap (λ r. ((call s).0, r)) q))
            (rw q at h)
    ];
  }

  pub Ensures-then :
      {B : Type 0} {call : Op S B} {rest : Op S A} (mid : S → Type 0)
      → Ensures pre bad call (λ s _. mid s)
      → Ensures mid bad rest post
      → Ensures pre bad (call >> rest) post
  unfolding ◌>>◌
  Ensures-then mid k r = Ensures-bind (λ s _. mid s) k (λ _. r)

pub Ensures-modify :
    {S : Type 0} {pre bad post : S → Type 0} (f : S → S)
    → ((s : S) → pre s → post (f s))
    → Ensures pre bad (modify f) (λ s _. post s)
unfolding modify
Ensures-modify {post = post} f h = record {
  holds = λ s t _ p e. subst post (returned_state e) (h s p);
  raises = λ s t b p e. let never = returned_value e in cc;
}
