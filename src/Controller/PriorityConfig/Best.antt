-- ===== src/Controller/PriorityConfig/Best.antt =====
-- The candidate that `_parse` keeps for a GPU.
use Prim.Native.Nat.{ℕ}
use Prim.Native.String.{String}
use opendps.Prelude.{◌≡◌, true, false, some}
use opendps.Dict.{Dict, nat_key, string_key, get}
use opendps.Result.{Result, ok}
use opendps.Json.{Json, Fields, object, entries, equals_text}
use opendps.Controller.PriorityConfig.{Candidate, below, parse_candidate}

-- The dictionary has a candidate for the GPU that the given one does not beat.
abbrev pub IsUnbeaten : Dict ℕ Candidate → ℕ → Candidate → Type 0
IsUnbeaten d gpu r = (c : Candidate) × (get gpu d ≡ some c) × (below c r ≡ false)

-- A candidate of the node is not better than what is kept for its GPU.
abbrev pub IsSettled : String → Dict ℕ Candidate → Json → Type 0
IsSettled node_name d x =
    (fields : Fields) (gpu : ℕ) (r : Candidate)
    → x ≡ object fields
    → equals_text node_name (get "nodeName" (entries fields)) ≡ true
    → parse_candidate (entries fields) ≡ ok (gpu, r)
    → IsUnbeaten d gpu r
