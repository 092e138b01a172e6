-- ===== src/Core.antt =====
-- core/: the states of a node, the election and the failover decision.
pub mod NodeState
pub mod Election
pub mod Decision
pub mod FailoverNode
