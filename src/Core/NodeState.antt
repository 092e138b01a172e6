-- ===== src/Core/NodeState.antt =====
-- core/NodeState.hpp: the states of a node and their names.
use easy_failover.Base.{Text, codes}

pub data NodeState : Type 0 where
  backup candidate master fault : NodeState

unfoldable pub to_string : NodeState → Text
to_string backup = codes "backup"
to_string candidate = codes "candidate"
to_string master = codes "master"
to_string fault = codes "fault"
