-- ===== src/Tests/Demo.antt =====
-- A small installation: a rack too small for its two domains, one PDU, and a few samples.
use opendps.Prelude.{◌≡◌, refl, [], ◌∷◌, some}
use opendps.Num.{ℚ, int, ◌/◌}
use opendps.Dict.{get, string_key}
use opendps.Result.{ok}
use opendps.Pdn.Model.{PowerDomain, Pdu, Rack, PdnTopology, effective_budget, domain_budget_w}
use opendps.Brain.State.{DomainState, BrainDecision}
use opendps.Brain.Prs.{PrsBrain}
use opendps.Brain.Prs
use opendps.Brain.Dpm.{DpmBrain}

abbrev pub d0 : PowerDomain
d0 = record {
  name = "d0";
  budget_w = int 400;
  gpu_indices = 0 ∷ 1 ∷ [];
  pdu_name = "pdu0";
  priority = 1;
  node_overhead_w = int 50;
  rack_name = some "r0";
}

abbrev pub d1 : PowerDomain
d1 = record {
  name = "d1";
  budget_w = int 300;
  gpu_indices = 2 ∷ [];
  pdu_name = "pdu0";
  priority = 1;
  node_overhead_w = int 20;
  rack_name = some "r0";
}

abbrev pub pdu0 : Pdu
pdu0 = record { name = "pdu0"; capacity_w = int 1000; derating = int 4 / int 5 }

abbrev pub r0 : Rack
r0 = record { name = "r0"; budget_w = int 600 }

abbrev pub topology : PdnTopology
topology = record {
  pdus = ("pdu0", pdu0) ∷ [];
  domains = ("d0", d0) ∷ ("d1", d1) ∷ [];
  racks = ("r0", r0) ∷ [];
  adopted_budget_w = [];
}

-- The budget of `d0`: its share of the rack, less the overhead.
abbrev pub budget0 : ℚ
budget0 = effective_budget topology "d0" d0

pub topology_budget0 : domain_budget_w topology "d0" ≡ ok budget0
unfolding domain_budget_w get
topology_budget0 = refl

-- One GPU near its cap, one idle.
abbrev pub sample : DomainState
sample = record {
  domain_name = "d0";
  gpu_draws = (0, int 190) ∷ (1, int 40) ∷ [];
  gpu_caps = (0, int 200) ∷ (1, int 200) ∷ [];
  ts = int 7;
  gpu_max_caps = (0, int 300) ∷ (1, int 300) ∷ [];
  gpu_thermal_throttled = [];
}

-- More draw than the budget.
abbrev pub heavy : DomainState
heavy = record sample { gpu_draws = (0, int 300) ∷ (1, int 200) ∷ []; ts = int 8 }

abbrev pub brain : PrsBrain
brain = record {
  topology = topology;
  min_cap_w = int 30;
  alpha = int 1 / int 2;
  threshold = int 4 / int 5;
  margin = int 1 / int 10;
  cap_raise_rate = int 25;
  ewma = [];
  last_caps = [];
  last_metrics = [];
}

abbrev pub dpm : DpmBrain
dpm = record { topology = topology; min_cap_w = int 30 }

-- The first decision, and one from the brain that it leaves.
abbrev pub first : PrsBrain × BrainDecision
first = Prs.decide_within brain "d0" budget0 sample

pub brain_first : Prs.decide brain "d0" sample ≡ ok first
unfolding Prs.decide
brain_first = rw topology_budget0 refl
