-- ===== src/Controller/Coordinator/Redis.antt =====
-- `RedisStore` of opendps/controller/cluster_coordinator.py, less `get_all`. The Redis client is not
-- part of the repository: a record of operations on a state `S`, which is there from the start, so no
-- import fails. `json.dumps` and `str` on a float are the arguments `dumps` and `show`.
use Prim.Native.Nat.{ℕ}
use Prim.Native.String.{String, [] as empty, ◌∷◌ as ◌∷ₛ◌, ◌++◌}
use opendps.Prelude.{◌≡◌, refl, Option, none, some}
use opendps.Num.{ℚ}
use opendps.Json.{Json, number, text, object, end, field}
use opendps.Text.Float.{Float, to_float}
use opendps.Result.{Result, ok, raise, value_error}
use opendps.Op.{Op, lift, ◌>>=◌}
use opendps.Controller.Coordinator.{NodeState}

-- `redis.Redis`, with `decode_responses=True`.
pub record Client (S : Type 0) : Type 0 where
  pub setex : String → ℕ → String → Op S (Unit {0})
  pub get : String → Op S (Option String)

-- `json.dumps(dataclasses.asdict(state))`, as a value.
unfoldable pub asdict : NodeState → Json
asdict state = object (
    field "node_id" (text state.node_id) (
      field "domain_name" (text state.domain_name) (
        field "draw_w" (number state.draw_w) (
          field "cap_w" (number state.cap_w)
            (field "budget_w" (number state.budget_w) (field "ts" (number state.ts) end))))))

unfoldable pub node_key : String → String
node_key node_id = "opendps:node:" ++ node_id

unfoldable pub budget_key : String → String → String
budget_key node_id domain_name = "opendps:budget:" ++ (node_id ++ (":" ++ domain_name))

unfoldable pub some_or_raise : Option Float → Result (Option Float)
some_or_raise none = raise value_error
some_or_raise (some x) = ok (some x)

-- `float(raw) if raw else None`
unfoldable pub float_or_none : Option String → Result (Option Float)
unfolding some_or_raise
float_or_none none = ok none
float_or_none (some empty) = ok none
float_or_none (some (c ∷ₛ raw)) = some_or_raise (to_float (c ∷ₛ raw))

module _ {S : Type 0} (client : Client S) (ttl_s : ℕ) where
  unfoldable pub publish : (Json → String) → NodeState → Op S (Unit {0})
  unfolding asdict node_key
  publish dumps state = client.setex (node_key state.node_id) ttl_s (dumps (asdict state))

  unfoldable pub set_adopted_budget : (ℚ → String) → String → String → ℚ → Op S (Unit {0})
  unfolding budget_key
  set_adopted_budget show node_id domain_name budget_w =
      client.setex (budget_key node_id domain_name) ttl_s (show budget_w)

unfoldable pub get_adopted_budget : {S : Type 0} → Client S → String → String → Op S (Option Float)
unfolding budget_key float_or_none ◌>>=◌ lift
get_adopted_budget client node_id domain_name = do
  raw ← client.get (budget_key node_id domain_name)
  lift (float_or_none raw)

-- Two nodes with a colon in their names share a key.
budget_key_shared : budget_key "a:b" "c" ≡ budget_key "a" "b:c"
unfolding budget_key
budget_key_shared = refl
