-- ===== src/Operator/PodEvents/Events.antt =====
-- What a Pod event leaves behind.
use Prim.Native.String.{String}
use opendps.Prelude.{
  ◌≡◌, refl, sym, ◌∙◌, ap, subst, inl, inr, Bool, true, false, ◌||◌, Bool-cases, Option, none, some,
  Option-cases, List, [], ◌∷◌,
}
use opendps.Num.{ℚ, ltb}
use opendps.Dict.{Dict, string_key, get, remove, get-set, beq_refl}
use opendps.Result.{ok}
use opendps.Text.{lower_equals}
use opendps.Json.{Json}
use opendps.Op.{Keeps-bind as bind_keeps, Op, return, finally, after, ◌>>=◌, ◌>>◌, >>=-eq-ok}
use opendps.Sort.{sort}
use opendps.Operator.Api.{Api, Pod, JobPolicy}
use opendps.Operator.Pods.{or_empty, gpu_indices_annotation}
use opendps.Operator.Policies.{
  World, Digest, Seen, sorted_labels, remote, within, reconcile_jobpowerpolicy,
}
use opendps.Operator.PodEvents.{
  pod_digest, same_text, same_labels, same_digest, any_selects, is_present, was_relevant,
  is_unchanged, policy_leb, forget, cache_selectors, fetch_selectors, cached_or, policy_selectors,
  annotated_or, selected_by_any, matches_policy, reconcile_each, reconcile_all, reconcile_if,
  remember, on_deleted, on_changed, on_pod_event,
}

same_text_refl : (a : Option String) → same_text a a ≡ true
unfolding same_text
same_text_refl none = refl
same_text_refl (some a) = beq_refl a

same_labels_refl : (labels : Dict String String) → same_labels labels labels ≡ true
unfolding same_labels
same_labels_refl [] = refl
same_labels_refl ((k, v) ∷ labels) = rw (beq_refl k, beq_refl v, same_labels_refl labels) refl

same_digest_refl : (d : Digest) → same_digest d d ≡ true
unfolding same_digest
same_digest_refl d =
    rw (same_text_refl d.annotation, same_labels_refl d.labels, same_text_refl d.node_name) refl

-- A call that leaves the digests as they are, also when it raises.
abbrev pub Keeps : {S A : Type 0} → Op (World S) A → Type 0
Keeps {S} {A} call = (w : World S) → (call w).0.digests ≡ w.digests

Keeps-remote : {S A : Type 0} (call : Op S A) → Keeps (remote call)
unfolding remote within
Keeps-remote call w = refl

Keeps-bind :
    {S A B : Type 0} (call : Op (World S) A) (rest : A → Op (World S) B)
    → Keeps call
    → ((a : A) → Keeps (rest a))
    → Keeps (call >>= rest)
Keeps-bind call rest k r =
    let kept =
      bind_keeps {view = λ w. w.digests} {call = call} {rest = rest} (record { holds = k })
        (λ a. record { holds = r a }) in
    kept.holds

Keeps-return : {S A : Type 0} (a : A) → Keeps {S = S} (return a)
unfolding return
Keeps-return a w = refl

module _ {S : Type 0} (v1 : Api S) (loads : String → Option Json) (dumps show : Json → String) where
  Keeps-fetch :
      (namespace : String) (now : ℚ) → Keeps (fetch_selectors v1 loads dumps show namespace now)
  unfolding fetch_selectors cache_selectors return
  Keeps-fetch namespace now =
      Keeps-bind (remote (v1.list_job_policies namespace))
        (cache_selectors v1 loads dumps show namespace now)
        (Keeps-remote (v1.list_job_policies namespace)) (λ policies w. refl)

  Keeps-policy_selectors :
      (namespace : String) (now : ℚ) → Keeps (policy_selectors v1 loads dumps show namespace now)
  unfolding policy_selectors cached_or return
  Keeps-policy_selectors namespace now w = elim (Option-cases (get namespace w.selector_cache)) [
    | inl fresh ↦ rw fresh (Keeps-fetch namespace now w)
    | inr (cached, h) ↦ elim (Bool-cases (ltb now cached.expires)) [
      | inl valid ↦ rw (h, valid) refl
      | inr stale ↦ rw (h, stale) (Keeps-fetch namespace now w)
    ]
  ]

  Keeps-selected_by_any :
      (now : ℚ) (pod : Pod) (namespace : String)
      → Keeps (selected_by_any v1 loads dumps show now pod namespace)
  unfolding selected_by_any return
  Keeps-selected_by_any now pod namespace =
      Keeps-bind (policy_selectors v1 loads dumps show namespace now)
        (λ selectors. return (any_selects selectors (sorted_labels pod.labels)))
        (Keeps-policy_selectors namespace now) (λ selectors w. refl)

  Keeps-matches_policy :
      (now : ℚ) (pod : Pod) (namespace : String)
      → Keeps (matches_policy v1 loads dumps show now pod namespace)
  unfolding matches_policy annotated_or return
  Keeps-matches_policy now pod namespace w =
      elim (Option-cases (get gpu_indices_annotation pod.annotations)) [
        | inl missing ↦ elim (Bool-cases (is_present pod.labels)) [
          | inl labelled ↦ rw (missing, labelled) (Keeps-selected_by_any now pod namespace w)
          | inr bare ↦ rw (missing, bare) refl
        ]
        | inr (raw, h) ↦ rw h refl
      ]

  Keeps-reconcile_each :
      (namespace : String) (policies : List JobPolicy)
      → Keeps (reconcile_each v1 loads dumps show namespace policies)
  unfolding reconcile_each return ◌>>◌
  Keeps-reconcile_each namespace [] w = refl
  Keeps-reconcile_each namespace (policy ∷ policies) w =
      elim (Bool-cases (string_key.beq (or_empty policy.name) "")) [
        | inl unnamed ↦ rw unnamed (Keeps-reconcile_each namespace policies w)
        | inr named ↦ rw named (
            Keeps-bind
              (remote (
                reconcile_jobpowerpolicy v1 loads dumps show namespace (or_empty policy.name)
                  policy))
              (λ counts. reconcile_each v1 loads dumps show namespace policies)
              (Keeps-remote (
                reconcile_jobpowerpolicy v1 loads dumps show namespace (or_empty policy.name)
                  policy))
              (λ counts. Keeps-reconcile_each namespace policies) w)
      ]

  Keeps-reconcile_if :
      (relevant : Bool) (namespace : String)
      → Keeps (reconcile_if v1 loads dumps show relevant namespace)
  unfolding reconcile_if reconcile_all return
  Keeps-reconcile_if true namespace w =
      Keeps-bind (remote (v1.list_job_policies namespace))
        (λ policies. reconcile_each v1 loads dumps show namespace (sort policy_leb policies))
        (Keeps-remote (v1.list_job_policies namespace))
        (λ policies. Keeps-reconcile_each namespace (sort policy_leb policies)) w
  Keeps-reconcile_if false namespace w = refl

  -- A deletion takes the digest of the Pod out of the cache and leaves the other digests alone,
  -- whether or not what it starts raises, for a Pod with a uid and a namespace.
  pub on_pod_event_deleted :
      (now : ℚ) (event_type : String) (pod : Pod) (namespace : String) (w : World S)
      → lower_equals event_type "deleted" ≡ true
      → string_key.beq (or_empty pod.uid) "" ≡ false
      → string_key.beq namespace "" ≡ false
      → (on_pod_event v1 loads dumps show now event_type pod namespace w).0.digests
        ≡ remove (or_empty pod.uid) w.digests
  unfolding on_pod_event on_deleted finally after forget
  on_pod_event_deleted now event_type pod namespace w deleted named placed =
      rw (deleted, named, placed)
        (ap (remove (or_empty pod.uid)) (
          Keeps-bind (matches_policy v1 loads dumps show now pod namespace)
            (λ relevant.
              reconcile_if v1 loads dumps show
                (relevant || was_relevant (get (or_empty pod.uid) w.digests)) namespace)
            (Keeps-matches_policy now pod namespace)
            (λ relevant.
              Keeps-reconcile_if (relevant || was_relevant (get (or_empty pod.uid) w.digests))
                namespace)
            w))

  remember-get :
      (pod_uid : String) (digest : Digest) (relevant : Bool) (namespace : String) (w w' : World S)
      → remember v1 loads dumps show pod_uid digest relevant namespace w ≡ (w', ok tt)
      → get pod_uid w'.digests
        ≡ some (record { digest = digest; relevant = relevant; namespace = namespace })
  unfolding remember return
  remember-get pod_uid digest relevant namespace w w' h =
      let seen : Seen = record { digest = digest; relevant = relevant; namespace = namespace } in
      sym (ap (λ r. get pod_uid (r.0).digests) h)
      ∙ (get-set pod_uid pod_uid seen w.digests ∙ rw (beq_refl pod_uid) refl)

  -- What a change that returns leaves: the digest of the Pod is on record.
  on_changed-is_unchanged :
      (now : ℚ) (pod : Pod) (pod_uid namespace : String) (w w' : World S)
      → on_changed v1 loads dumps show now pod pod_uid namespace (get pod_uid w.digests) w
        ≡ (w', ok tt)
      → is_unchanged (get pod_uid w'.digests) (pod_digest pod) ≡ true
  unfolding on_changed return ◌>>◌ is_unchanged
  on_changed-is_unchanged now pod pod_uid namespace w w' h =
      elim (Bool-cases (is_unchanged (get pod_uid w.digests) (pod_digest pod))) [
        | inl same ↦
            subst (λ v. is_unchanged (get pod_uid v.digests) (pod_digest pod) ≡ true)
              (ap (λ r. r.0) (rw same at h)) same
        | inr new ↦
            let (w₁, relevant, _, h₁) =
              >>=-eq-ok (matches_policy v1 loads dumps show now pod namespace)
                (λ relevant.
                  reconcile_if v1 loads dumps show
                    (relevant || was_relevant (get pod_uid w.digests)) namespace
                  >>= (λ _.
                      remember v1 loads dumps show pod_uid (pod_digest pod) relevant namespace))
                w w' tt (rw new at h) in
            let (w₂, _, _, h₂) =
              >>=-eq-ok
                (reconcile_if v1 loads dumps show (relevant || was_relevant (get pod_uid w.digests))
                  namespace)
                (λ _. remember v1 loads dumps show pod_uid (pod_digest pod) relevant namespace) w₁
                w' tt h₁ in
            rw (remember-get pod_uid (pod_digest pod) relevant namespace w₂ w' h₂)
              (same_digest_refl (pod_digest pod))
      ]

  -- Once an event that is no deletion has been handled without an exception, the same event
  -- again, at any time, changes nothing and calls nothing.
  pub on_pod_event-on_pod_event :
      (now later : ℚ) (event_type : String) (pod : Pod) (namespace : String) (w w' : World S)
      → lower_equals event_type "deleted" ≡ false
      → on_pod_event v1 loads dumps show now event_type pod namespace w ≡ (w', ok tt)
      → on_pod_event v1 loads dumps show later event_type pod namespace w' ≡ (w', ok tt)
  unfolding on_pod_event on_changed return
  on_pod_event-on_pod_event now later event_type pod namespace w w' kept h =
      elim (Bool-cases (string_key.beq (or_empty pod.uid) "" || string_key.beq namespace "")) [
        | inl nameless ↦ rw nameless refl
        | inr named ↦
            rw
              (
                named,
                kept,
                on_changed-is_unchanged now pod (or_empty pod.uid) namespace w w'
                    (rw (named, kept) at h),
              )
              refl
      ]
