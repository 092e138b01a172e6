-- ===== src/Core/FailoverNode.antt =====
-- core/FailoverNode.hpp and .cpp: a node that holds its state. Its log lines are not modelled.
use easy_failover.Base.{ℕ, ℤ, ◌==◌, Text, if◌then◌else◌}
use easy_failover.Core.NodeState.{NodeState, backup, master, fault, candidate}

pub record FailoverNode : Type 0 where
  pub node_id : Text
  pub vip_address : Text
  pub priority : ℤ
  pub state : NodeState

-- The constructor: a node starts as backup.
pub new_node : Text → Text → ℤ → FailoverNode
new_node node_id vip_address priority = record {
  node_id = node_id;
  vip_address = vip_address;
  priority = priority;
  state = backup;
}

-- The number of an enumerator, which == compares.
index : NodeState → ℕ
index backup = 0
index candidate = 1
index master = 2
index fault = 3

set_state : NodeState → FailoverNode → FailoverNode
unfolding index
set_state next_state node =
    if index node.state == index next_state then node else record node { state = next_state }

pub become_master : FailoverNode → FailoverNode
unfolding set_state
become_master = set_state master

pub become_backup : FailoverNode → FailoverNode
unfolding set_state
become_backup = set_state backup

pub enter_fault : FailoverNode → FailoverNode
unfolding set_state
enter_fault = set_state fault
