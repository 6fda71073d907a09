-- ===== src/Placement/Nodes.antt =====
-- sim/cluster/infra_node.go: GPUs, nodes and the life cycle of a node. GPU memory, a float64 that
-- nothing here reads, is left out. A drain callback is a value of a type of its own, and an operation
-- that calls callbacks returns those it called.
use inference_sim.Prelude.{
  ℕ, suc, String, List, [], ◌∷◌, Option, Bool, true, false, ℤ, Result, ok, panic, violation,
  if◌then◌else◌, ite, string_discrete,
}

pub data NodeState : Type 0 where
  provisioning ready draining terminated : NodeState

-- IsValidNodeState
unfoldable pub is_valid_node_state : String → Bool
unfolding string_discrete
is_valid_node_state s = ite (string_discrete s "Provisioning") true (
    ite (string_discrete s "Ready") true
      (ite (string_discrete s "Draining") true (ite (string_discrete s "Terminated") true false)))

-- An empty `allocated_to` stands for a free GPU.
pub record Gpu : Type 0 where
  pub id : String
  pub node_id : String
  pub pool_name : String
  pub gpu_type : String
  pub allocated_to : String

pub record Node (Callback : Type 0) : Type 0 where
  pub id : String
  pub pool_name : String
  pub gpu_type : String
  pub total_gpus : ℕ
  pub gpus : List Gpu
  pub state : NodeState
  pub cost_start_time : ℤ
  pub drain_callback : Option Callback

-- s == t
abbrev pub same_text : String → String → Bool
same_text s t = ite (string_discrete s t) true false

-- freeCount
unfoldable pub free_count : List Gpu → ℕ
unfolding string_discrete
free_count [] = 0
free_count (g ∷ gpus) =
    let rest = free_count gpus in if same_text g.allocated_to "" then suc rest else rest

-- allocatedCount
unfoldable pub allocated_count : List Gpu → ℕ
unfolding string_discrete
allocated_count [] = 0
allocated_count (g ∷ gpus) =
    let rest = allocated_count gpus in if same_text g.allocated_to "" then rest else suc rest

-- validNodeTransitions
unfoldable pub is_valid_transition : NodeState → NodeState → Bool
is_valid_transition provisioning ready = true
is_valid_transition provisioning terminated = true
is_valid_transition ready draining = true
is_valid_transition ready terminated = true
is_valid_transition draining terminated = true
is_valid_transition from to = false

-- transitionNode
unfoldable pub transition_node :
    {Callback : Type 0} → Node Callback → NodeState → Result (Node Callback)
unfolding is_valid_transition
transition_node n to =
    if is_valid_transition n.state to then ok (record n { state = to }) else panic violation
