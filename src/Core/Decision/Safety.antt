-- ===== src/Core/Decision/Safety.antt =====
-- What every single decision guarantees.
use easy_failover.Base.{
  ◌≤ℤ◌, eqb_iff, ◌≡◌, inl, inr, Bool, true, false, some, List, arith, Option-cases,
}
use easy_failover.Core.Election.{CandidateNode}
use easy_failover.Core.Election.Best.{choose-none}
use easy_failover.Core.Decision.{
  LocalNodeStatus, PeerStatus, ElectionPolicy, FailoverAction, become_master, stay_master,
  quorum_threshold, observed_cluster_members, local_candidate, elect, after_election, lacks_quorum,
  decide_failover_action,
}

-- The local candidate is healthy, so the election of `decide_failover_action` has a winner.
pub elect-total :
    (local : LocalNodeStatus) (peers : List PeerStatus)
    → (w : CandidateNode) × (elect local peers ≡ some w)
unfolding elect local_candidate
elect-total local peers = elim (Option-cases (elect local peers)) [
  | inl e ↦ absurd (cc ((choose-none _ e).0))
  | inr found ↦ found
]

-- The actions after which the node holds the VIP.
unfoldable pub claims_vip : FailoverAction → Bool
claims_vip become_master = true
claims_vip stay_master = true
claims_vip _ = false

pub record MayOwn (local : LocalNodeStatus) (peers : List PeerStatus) (policy : ElectionPolicy)
    : Type 0 where
  pub is_healthy : local.healthy ≡ true
  pub has_quorum :
      policy.require_quorum ≡ true → quorum_threshold policy ≤ℤ observed_cluster_members peers

-- A node decides to take or keep the VIP only if it is healthy and, under quorum, observes at least
-- the threshold.
pub owner-MayOwn :
    (local : LocalNodeStatus) (peers : List PeerStatus) (policy : ElectionPolicy)
    → claims_vip (decide_failover_action local peers policy).action ≡ true
    → MayOwn local peers policy
unfolding claims_vip decide_failover_action lacks_quorum
owner-MayOwn local peers policy h = record {
  is_healthy = ground arith;
  has_quorum = λ q. ground arith;
}

-- Under preemption an owner is the winner of its own election.
pub owner_elected :
    (local : LocalNodeStatus) (peers : List PeerStatus) (policy : ElectionPolicy)
    → policy.preempt ≡ true
    → claims_vip (decide_failover_action local peers policy).action ≡ true
    → (w : CandidateNode) × (elect local peers ≡ some w) × (w.node_id ≡ local.node_id)
unfolding claims_vip decide_failover_action after_election
owner_elected local peers policy p h =
    let (w, e) = elect-total local peers in
    (w, e, ground (arith, e, eqb_iff w.node_id local.node_id))

-- Under preemption a healthy node that does not lack quorum and that its own election chooses owns
-- the VIP.
pub elected_owns :
    (local : LocalNodeStatus) (peers : List PeerStatus) (policy : ElectionPolicy)
    (w : CandidateNode)
    → policy.preempt ≡ true
    → local.healthy ≡ true
    → lacks_quorum peers policy ≡ false
    → elect local peers ≡ some w
    → w.node_id ≡ local.node_id
    → claims_vip (decide_failover_action local peers policy).action ≡ true
unfolding claims_vip decide_failover_action after_election
elected_owns local peers policy w p h q e i = ground (arith, eqb_iff w.node_id local.node_id)
