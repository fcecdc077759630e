-- ===== src/Lib.antt =====
-- opendps splits a power budget over GPUs. A topology (src/opendps/pdn/model.py) gives each power
-- domain a budget; a brain (src/opendps/brain/) turns one sample of a domain's draws into a cap
-- for each GPU; on a cluster, a coordinator (src/opendps/controller/cluster_coordinator.py) splits
-- one budget over the nodes, and a node hands its part down to its topology by `adopt_budget`.
--
-- - Pdn/Model.antt: `PDNTopology` with its domains, PDUs and racks (`PowerDomain`, `Pdu`, `Rack`,
--   `PdnTopology`), and its methods under their own names. Pdn/Model/RackShare, Adoption and
--   Allocation hold the proofs.
-- - Brain/State.antt: `DomainState` and `BrainDecision` of src/opendps/brain/dpm.py.
-- - Brain/Dpm.antt: `DPMBrain` of src/opendps/brain/dpm.py; proofs in Brain/Dpm/Bounds.
-- - Brain/Prs.antt: `PRSBrain` of src/opendps/brain/prs.py. `decide` takes the brain and returns it
--   changed, with the decision; each numbered step of the method is a function of a `Tick`, which
--   holds what the method has computed before it. Proofs in Brain/Prs/Ewma (averages), Caps and
--   Budget (one tick), Decide (`decide` itself), Floor and Ticks (several calls).
-- - Brain/Priority.antt, Brain/Thermal.antt, Brain/JobAware.antt: the brains of
--   src/opendps/brain/priority_prs.py, thermal_prs.py and job_aware_prs.py, which hold a `PrsBrain`
--   and rewrite its proposal; Brain/Scale.antt is the scaling to the budget that two of them share,
--   Agent/JobTracker.antt the tracker of src/opendps/agent/job_tracker.py, with the polling in its Poll,
--   where what nvidia-smi prints is an argument. Proofs in Agent/JobTracker/Poll/Filed,
--   Brain/Priority/Budget and Tiers, Brain/Thermal/Total and Backoff, Brain/JobAware/Boost.
-- - Pdn/Quota.antt: `TenantQuota` and `QuotaConfig` of src/opendps/pdn/quota.py. Brain/Quota.antt:
--   the brain of src/opendps/brain/quota_prs.py, with one `PrsBrain` for each tenant and set of active
--   GPUs; the time of a decision is an argument. Proofs in Pdn/Quota/Validated,
--   Brain/Quota/Shares (the figures), Apart (the GPUs), Counted (the loop) and Total.
-- - Controller/Coordinator.antt: `InMemoryStore` and `ClusterCoordinator`; proofs in
--   Controller/Coordinator/Split (the figures) and Publish (the store). Controller/Coordinator/Command is
--   `_parse_nodes` and `main`, on the values of the two options; proofs in its Printed.
--   Controller/Coordinator/Redis is `RedisStore`, over a record of the Redis client's operations.
-- - Sim/Backend.antt: `SimGpu` and `SimBackend` of src/opendps/sim/backend.py; what the random
--   generator returns is an argument. Agent/Failsafe.antt: `FailsafeLoop` of
--   src/opendps/agent/failsafe.py over any `Actuator`, whose state moves by the calls of the loop only;
--   `scan` is the body of its outer loop. Proofs in Sim/Backend/Caps, Agent/Failsafe/Simulated and
--   Agent/Failsafe/Scan.
-- - Telemetry/Energy.antt: `EnergyAccountant` of src/opendps/telemetry/energy.py; proofs in
--   Telemetry/Energy/Totals.
-- - Telemetry/Metrics.antt: the gauges and the counter of src/opendps/telemetry/metrics.py.
-- - Brain/Cvxpy.antt: `CVXPYBrain` of src/opendps/brain/cvxpy_brain.py. What cvxpy does with a linear
--   program is the argument `solve`, none where it cannot be imported; Brain/Cvxpy/Feasible says what
--   a solver has to keep to.
-- - Sim/Actuator.antt: `Actuator` of src/opendps/sim/protocol.py, a record of operations on a state, and
--   the simulated GPUs as one. Controller/AgentBridge.antt: `AgentBridge` and `AgentBridgeActuator` of
--   src/opendps/controller/agent_bridge.py, another; what the agent answers is part of its state.
-- - Controller/PriorityConfig.antt: `PriorityConfigSource` of src/opendps/controller/priority_config.py and
--   the functions that read a ConfigMap. `json.loads` is the argument `loads`, and what the Kubernetes API
--   answers is an argument of `poll`. Proofs in Controller/PriorityConfig/Parsed (one document), Best
--   (rival entries for a GPU), Polls (several polls, and the brain that takes the tiers) and Good (the
--   last well-formed document).
-- - Controller/Standalone.antt: `StandaloneController` of src/opendps/controller/standalone.py. Brains is
--   the choice of a brain and the calls on it, Stats the `_domain_stats` of a domain, Tick `run_once` over
--   any actuator, Loop `run`. Every brain of the source holds the controller's own topology, which
--   `adopt_budget` changes: `share_topology` hands a brain the current one before a decision. The
--   coordinator's store is the argument `read_budget`. Proofs in Counted and DryRun.
-- - Operator: src/opendps/operator/handlers.py. Operator/Api.antt is the Kubernetes client, a record of
--   operations on a state that holds the cluster and what others do to it between the calls; the laws
--   that a theorem needs are its hypotheses. ConfigMaps are the handlers that write a domain's ConfigMap,
--   Pods the GPUs and the assignments of the Pods that a policy selects, Registry the entry of a policy in
--   the ConfigMap that all policies share, Policies the handlers of a policy, PodEvents `on_pod_event`,
--   Order the sorting of assignments. `json.loads`, `json.dumps` and `str` are the arguments `loads`,
--   `dumps` and `show`. Proofs in ConfigMaps/Landed, Pods/Published, Registry/Retry, PodEvents/Events.
-- - Prelude, Num, Dict, Result: tests and conditionals, numbers, Python's dict, and exceptions. Text,
--   Json, Sort: Python's str, the values of json, and `sorted`. Op: calls that change a state and may
--   raise, with do blocks; `Keeps` and `Ensures` are what such a call leaves alone and establishes.
-- - Tests: a small installation, and the theorems applied to it.
--
-- The operator publishes a registry of assignments, the priority source reads it, and the priority
-- brain takes the tiers.
--
-- Numbers. Watts, fractions and seconds are floats in the source and exact rational numbers here,
-- so rounding is not modelled, and infinities and NaN only where a text is read as a float: a
-- bound that is proved holds up to the rounding of the float operations. Division by zero gives
-- zero in `Num`; the source's divisions are either guarded by a test, which is part of the model,
-- or raise, which the model writes out. GPU indices and counts are natural numbers.
--
-- A dict is an association list in insertion order. A lookup that can fail raises `key_error`. The
-- theorems state distinct keys where they need them; a dict of the source always has them.
--
-- Every loop of the modelled code runs over a list and is structural recursion. The write of the
-- registry runs at most three times: its fuel is `attempts`, the bound of the source's `range(3)`.
-- Loops that run until the process is stopped are modelled by their body, or by the body over a
-- given list of samples.
--
-- Locks are not modelled: each operation is one step, and other clients of the Kubernetes API act
-- only between the calls on it. Time stamps are carried along and not read.
--
-- Not modelled are the loaders of JSON files, the reading of all states from Redis, the
-- controller's command line, the HTTP scrapers, the presets, the agent's hardware calls and
-- process, threads, timers and waits between retries, and what is printed or logged. An agent's
-- connection fails before its first message or not at all, and the limits of conversions between
-- floats and integers are left aside. Numbers are read from text with the digits of ASCII only.
-- The reason text of a decision is a data type with the numbers that it prints.
pub mod Agent
pub mod Brain
pub mod Controller
pub mod Dict
pub mod Json
pub mod Num
pub mod Op
pub mod Operator
pub mod Pdn
pub mod Prelude
pub mod Result
pub mod Sim
pub mod Sort
pub mod Telemetry
pub mod Tests
pub mod Text
