-- ===== src/Controller/PriorityConfig/Good.antt =====
-- The snapshot and the last good document.
use Prim.Native.Nat.{ℕ}
use Prim.Native.String.{String}
use opendps.Prelude.{
  ◌≡◌, refl, sym, ◌∙◌, ap, subst, true, inl, inr, ◌||◌, Bool-cases, Option, none, some, List, [],
  ◌∷◌, nat_beq, arith, some-injective, if◌then◌else◌,
}
use opendps.Dict.{Dict, nat_key, string_key, get, update}
use opendps.Result.{Result, ok, raise}
use opendps.Json.{Json}
use opendps.Controller.PriorityConfig.{
  PriorityConfigSource, Answer, no_client, failed, config_map, init, poll, poll_failed, is_current,
  apply_parsed, parse,
}
use opendps.Controller.PriorityConfig.Polls.{polls}

-- The tiers of the document of a ConfigMap, if it is well formed.
abbrev parsed : (String → Option Json) → String → Dict String String → Result (Dict ℕ String)
parsed loads node_name data_of = parse loads node_name (get "resolved-assignments.json" data_of)

unfoldable tiers_or : Dict ℕ String → Result (Dict ℕ String) → Dict ℕ String
tiers_or good (raise e) = good
tiers_or good (ok tiers) = tiers

unfoldable after_status : Dict ℕ String → Option ℕ → Dict ℕ String
after_status good none = good
after_status good (some status) = if nat_beq status 404 then [] else good

-- The tiers of the last good document, without a look at the versions: none where there has been no
-- such document, or the ConfigMap has been gone since.
unfoldable pub good_after : (String → Option Json) → String → Dict ℕ String → Answer → Dict ℕ String
unfolding tiers_or after_status
good_after loads node_name good no_client = good
good_after loads node_name good (failed status) = after_status good status
good_after loads node_name good (config_map version data_of) =
    tiers_or good (parsed loads node_name data_of)

unfoldable pub last_good :
    (String → Option Json) → String → Dict ℕ String → List Answer → Dict ℕ String
unfolding good_after
last_good loads node_name good [] = good
last_good loads node_name good (answer ∷ answers) =
    last_good loads node_name (good_after loads node_name good answer) answers

-- A resource version stands for the data that the ConfigMap had under it.
abbrev pub IsVersioned : (String → Dict String String) → Answer → Type 0
IsVersioned data_at (config_map (some version) data_of) = data_of ≡ data_at version
IsVersioned data_at (config_map none data_of) = Unit
IsVersioned data_at no_client = Unit
IsVersioned data_at (failed status) = Unit

abbrev pub AreVersioned : (String → Dict String String) → List Answer → Type 0
AreVersioned data_at [] = Unit
AreVersioned data_at (answer ∷ answers) = IsVersioned data_at answer × AreVersioned data_at answers

module _ (loads : String → Option Json) (node_name : String) (baseline : Dict ℕ String)
    (data_at : String → Dict String String) where
  -- The snapshot has the good tiers, and the data of the version on record parse to them.
  record Tracks (source : PriorityConfigSource) (good : Dict ℕ String) : Type 0 where
    node : source.node_name ≡ node_name
    base : source.baseline ≡ baseline
    snapshot : source.snapshot ≡ update baseline good
    version :
        (known : String)
        → source.resource_version ≡ some known
        → parsed loads node_name (data_at known) ≡ ok good

  Tracks-poll_failed :
      (source : PriorityConfigSource) (good : Dict ℕ String) (status : Option ℕ)
      → Tracks source good
      → Tracks (poll_failed source status) (after_status good status)
  unfolding poll_failed after_status update
  Tracks-poll_failed source good none t = t
  Tracks-poll_failed source good (some status) t = elim (Bool-cases (nat_beq status 404)) [
    | inl gone ↦
        rw gone
          (record { node = t.node; base = t.base; snapshot = t.base; version = λ known h. cc })
    | inr other ↦ elim (Bool-cases (nat_beq status 401 || nat_beq status 403)) [
      | inl denied ↦
          rw (other, denied)
            (record { node = t.node; base = t.base; snapshot = t.snapshot; version = t.version })
      | inr else_ ↦ rw (other, else_) t
    ]
  ]

  -- A version that is current is the one on record.
  is_current-eq :
      (version known : Option String)
      → is_current version known ≡ true
      → (v : String) × (version ≡ some v) × (known ≡ some v)
  unfolding is_current
  is_current-eq none known h = cc
  is_current-eq (some v) none h = cc
  is_current-eq (some v) (some k) h =
      (v, refl, ap some (sym ((string_key.beq_iff v k).0 (ground (arith, h)))))

  Tracks-apply_parsed :
      (source : PriorityConfigSource) (good : Dict ℕ String) (version : Option String)
      (data_of : Dict String String) (r : Result (Dict ℕ String))
      → parsed loads node_name data_of ≡ r
      → IsVersioned data_at (config_map version data_of)
      → Tracks source good
      → Tracks (apply_parsed source version r) (tiers_or good r)
  unfolding apply_parsed tiers_or
  Tracks-apply_parsed source good version data_of (raise e) h same t = record {
    node = t.node;
    base = t.base;
    snapshot = t.snapshot;
    version = t.version;
  }
  Tracks-apply_parsed source good none data_of (ok tiers) h same t = record {
    node = t.node;
    base = t.base;
    snapshot = ap (λ b. update b tiers) t.base;
    version = λ known e. cc;
  }
  Tracks-apply_parsed source good (some v) data_of (ok tiers) h same t = record {
    node = t.node;
    base = t.base;
    snapshot = ap (λ b. update b tiers) t.base;
    version =
        λ known e. ap (parsed loads node_name) (ap data_at (sym (some-injective e)) ∙ sym same) ∙ h;
  }

  -- The data that are current parse to the good tiers.
  current-parsed :
      (source : PriorityConfigSource) (good : Dict ℕ String) (version : Option String)
      (data_of : Dict String String)
      → is_current version source.resource_version ≡ true
      → IsVersioned data_at (config_map version data_of)
      → Tracks source good
      → parsed loads node_name data_of ≡ ok good
  current-parsed source good none data_of h same t =
      let (v, never, _) = is_current-eq none source.resource_version h in cc
  current-parsed source good (some v) data_of h same t =
      let (w, given, known) = is_current-eq (some v) source.resource_version h in
      ap (parsed loads node_name) (same ∙ ap data_at (some-injective given)) ∙ t.version w known

  Tracks-poll :
      (source : PriorityConfigSource) (good : Dict ℕ String) (answer : Answer)
      → IsVersioned data_at answer
      → Tracks source good
      → Tracks (poll loads source answer) (good_after loads node_name good answer)
  unfolding poll good_after
  Tracks-poll source good no_client same t = record {
    node = t.node;
    base = t.base;
    snapshot = t.snapshot;
    version = t.version;
  }
  Tracks-poll source good (failed status) same t = Tracks-poll_failed source good status t
  Tracks-poll source good (config_map version data_of) same t =
      elim (Bool-cases (is_current version source.resource_version)) [
        | inl current ↦
            rw (current, current-parsed source good version data_of current same t)
              (record { node = t.node; base = t.base; snapshot = t.snapshot; version = t.version })
        | inr new ↦ rw new (
            subst
              (λ n.
                Tracks (apply_parsed source version (parsed loads n data_of))
                  (tiers_or good (parsed loads node_name data_of)))
              (sym t.node)
              (Tracks-apply_parsed source good version data_of (parsed loads node_name data_of) refl
                same t))
      ]

  Tracks-polls :
      (answers : List Answer) (source : PriorityConfigSource) (good : Dict ℕ String)
      → AreVersioned data_at answers
      → Tracks source good
      → Tracks (polls loads source answers) (last_good loads node_name good answers)
  unfolding polls last_good
  Tracks-polls [] source good same t = t
  Tracks-polls (answer ∷ answers) source good (same, rest) t =
      Tracks-polls answers (poll loads source answer) (good_after loads node_name good answer) rest
        (Tracks-poll source good answer same t)

  -- Where a resource version always stands for the same data, the snapshot after any sequence of
  -- polls is the baseline with the tiers of the last well-formed document laid over it, or the
  -- baseline alone where there was none or the ConfigMap has been gone since; malformed data and
  -- other failures change nothing.
  pub polls-last_good :
      (answers : List Answer)
      → AreVersioned data_at answers
      → (polls loads (init node_name baseline) answers).snapshot
        ≡ update baseline (last_good loads node_name [] answers)
  unfolding init update
  polls-last_good answers same =
      (Tracks-polls answers (init node_name baseline) [] same
        (record { node = refl; base = refl; snapshot = refl; version = λ known h. cc })).snapshot
