-- ===== src/Controller/AgentBridge.antt =====
-- opendps/controller/agent_bridge.py: the client of the Rust agent. What the agent answers is part of
-- the state: whether it takes a message, and the draws that it reports, none where the connection or
-- the decoding fails.
use Prim.Native.Nat.{ℕ}
use opendps.Prelude.{Bool, true, false, Option, none, some, List, [], ◌∷◌}
use opendps.Num.{ℚ, int}
use opendps.Dict.{Dict, nat_key, get_or, set}
use opendps.Result.{ok}
use opendps.Sim.Actuator.{Actuator}

-- The agent's side: the caps that it has been sent, one message for each.
pub record Agent : Type 0 where
  pub is_reachable : Bool
  pub draws : Option (Dict ℕ ℚ)
  pub received : List (ℕ × ℚ)

-- `AgentBridge`
pub record AgentBridge : Type 0 where
  pub agent : Agent
  pub is_connected : Bool

unfoldable pub send : Agent → List (ℕ × ℚ) → Agent
send agent [] = agent
send agent (message ∷ messages) =
    send (record agent { received = message ∷ agent.received }) messages

-- `push_caps`; the second component is what it returns.
unfoldable pub push_caps : AgentBridge → Dict ℕ ℚ → AgentBridge × Bool
unfolding send
push_caps bridge caps = elim bridge.agent.is_reachable [
  | true ↦ (record { agent = send bridge.agent caps; is_connected = true }, true)
  | false ↦ (record bridge { is_connected = false }, false)
]

unfoldable pub get_draws : AgentBridge → Option (Dict ℕ ℚ)
get_draws bridge = elim bridge.agent.is_reachable [ true ↦ bridge.agent.draws | false ↦ none ]

pub record AgentBridgeActuator : Type 0 where
  pub bridge : AgentBridge
  pub last_caps : Dict ℕ ℚ

unfoldable pub set_power_cap : AgentBridgeActuator → ℕ → ℚ → AgentBridgeActuator
unfolding push_caps
set_power_cap a gpu_index watts = record {
  bridge = (push_caps a.bridge ((gpu_index, watts) ∷ [])).0;
  last_caps = set gpu_index watts a.last_caps;
}

-- The second component is what it returns.
unfoldable pub push_all_caps : AgentBridgeActuator → Dict ℕ ℚ → AgentBridgeActuator × Bool
unfolding push_caps
push_all_caps a caps =
    (record { bridge = (push_caps a.bridge caps).0; last_caps = caps }, (push_caps a.bridge caps).1)

unfoldable pub get_power_cap : AgentBridgeActuator → ℕ → ℚ
get_power_cap a gpu_index = get_or gpu_index (int 0) a.last_caps

-- An empty answer counts as none.
unfoldable pub draw_in : Option (Dict ℕ ℚ) → ℕ → ℚ
draw_in none gpu_index = int 0
draw_in (some draws) gpu_index = get_or gpu_index (int 0) draws

unfoldable pub get_power_draw : AgentBridgeActuator → ℕ → ℚ
unfolding draw_in get_draws
get_power_draw a gpu_index = draw_in (get_draws a.bridge) gpu_index

unfoldable pub agent_actuator : Actuator AgentBridgeActuator
unfolding set_power_cap push_all_caps get_power_cap get_power_draw
agent_actuator = record {
  set_power_cap = λ a gpu watts. ok (set_power_cap a gpu watts);
  get_power_cap = λ a gpu. ok (get_power_cap a gpu);
  get_power_draw = λ a gpu. ok (get_power_draw a gpu);
  get_util_pct = λ a gpu. ok (int 0);
  gpu_count = λ a. 0;
  get_max_cap_w = none;
  push_all_caps = some (λ a caps. (push_all_caps a caps).0);
  tick = none;
}
