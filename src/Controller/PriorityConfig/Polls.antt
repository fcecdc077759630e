-- ===== src/Controller/PriorityConfig/Polls.antt =====
-- The snapshot over the polls.
use Prim.Native.Nat.{ℕ}
use Prim.Native.String.{String}
use opendps.Prelude.{
  ◌≡◌, refl, inl, inr, ◌||◌, Bool-cases, Option, none, some, List, [], ◌∷◌, nat_beq,
}
use opendps.Num.{All}
use opendps.Dict.{Dict, nat_key, string_key, get, All-update}
use opendps.Result.{Result, ok, raise}
use opendps.Json.{Json}
use opendps.Brain.Priority.{PriorityBrain, set_tiers}
use opendps.Controller.PriorityConfig.{
  PriorityConfigSource, Answer, no_client, failed, config_map, init, poll, poll_failed, is_current,
  apply_parsed, parse,
}
use opendps.Controller.PriorityConfig.Parsed.{IsKnown, parse-IsKnown, has_unknown-All}

-- The baseline and the snapshot name known tiers only.
pub record IsSource (source : PriorityConfigSource) : Type 0 where
  pub baseline : All (λ e. IsKnown e.1) source.baseline
  pub snapshot : All (λ e. IsKnown e.1) source.snapshot

pub init-IsSource :
    (node_name : String) (baseline : Dict ℕ String)
    → All (λ e. IsKnown e.1) baseline
    → IsSource (init node_name baseline)
unfolding init
init-IsSource node baseline a = record { baseline = a; snapshot = a }

poll_failed-IsSource :
    (source : PriorityConfigSource) (status : Option ℕ)
    → IsSource source
    → IsSource (poll_failed source status)
unfolding poll_failed
poll_failed-IsSource source none h = h
poll_failed-IsSource source (some status) h = elim (Bool-cases (nat_beq status 404)) [
  | inl gone ↦ rw gone (record { baseline = h.baseline; snapshot = h.baseline })
  | inr other ↦ elim (Bool-cases (nat_beq status 401 || nat_beq status 403)) [
    | inl denied ↦ rw (other, denied) (record { baseline = h.baseline; snapshot = h.snapshot })
    | inr else_ ↦ rw (other, else_) h
  ]
]

apply_parsed-IsSource :
    (source : PriorityConfigSource) (version : Option String) (parsed : Result (Dict ℕ String))
    → IsSource source
    → ((tiers : Dict ℕ String) → parsed ≡ ok tiers → All (λ e. IsKnown e.1) tiers)
    → IsSource (apply_parsed source version parsed)
unfolding apply_parsed
apply_parsed-IsSource source version (raise e) h known = record {
  baseline = h.baseline;
  snapshot = h.snapshot;
}
apply_parsed-IsSource source version (ok tiers) h known = record {
  baseline = h.baseline;
  snapshot = All-update (λ e. IsKnown e.1) source.baseline tiers h.baseline (known tiers refl);
}

pub poll-IsSource :
    (loads : String → Option Json) (source : PriorityConfigSource) (answer : Answer)
    → IsSource source
    → IsSource (poll loads source answer)
unfolding poll
poll-IsSource loads source no_client h = record { baseline = h.baseline; snapshot = h.snapshot }
poll-IsSource loads source (failed status) h = poll_failed-IsSource source status h
poll-IsSource loads source (config_map version entries) h =
    elim (Bool-cases (is_current version source.resource_version)) [
      | inl same ↦ rw same (record { baseline = h.baseline; snapshot = h.snapshot })
      | inr new ↦ rw new (
          apply_parsed-IsSource source version
            (parse loads source.node_name (get "resolved-assignments.json" entries)) h
            (parse-IsKnown loads source.node_name (get "resolved-assignments.json" entries)))
    ]

-- The polls, one after the other.
unfoldable pub polls :
    (String → Option Json) → PriorityConfigSource → List Answer → PriorityConfigSource
unfolding poll
polls loads source [] = source
polls loads source (answer ∷ answers) = polls loads (poll loads source answer) answers

polls-IsSource :
    (loads : String → Option Json) (source : PriorityConfigSource) (answers : List Answer)
    → IsSource source
    → IsSource (polls loads source answers)
unfolding polls
polls-IsSource loads source [] h = h
polls-IsSource loads source (answer ∷ answers) h =
    polls-IsSource loads (poll loads source answer) answers (poll-IsSource loads source answer h)

-- For a baseline of known tiers, after any sequence of answers, well formed or not,
-- PriorityTieredPRSBrain.set_tiers accepts the snapshot of the source.
pub polls-set_tiers :
    (loads : String → Option Json) (node_name : String) (baseline : Dict ℕ String)
    (answers : List Answer) (b : PriorityBrain)
    → All (λ e. IsKnown e.1) baseline
    → set_tiers b (polls loads (init node_name baseline) answers).snapshot
      ≡ ok (record b { tiers = (polls loads (init node_name baseline) answers).snapshot })
unfolding set_tiers
polls-set_tiers loads node baseline answers b known =
    let source = polls loads (init node baseline) answers in
    rw
      (has_unknown-All source.snapshot
        (polls-IsSource loads (init node baseline) answers
          (init-IsSource node baseline known)).snapshot)
      refl
