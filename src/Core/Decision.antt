-- ===== src/Core/Decision.antt =====
-- core/FailoverDecision.hpp and core/FailoverDecision.cpp. The reason of a decision is kept as the
-- case of the source that produced it (`Reason`), with the numbers that its text shows.
pub mod Safety
pub mod Cluster
use easy_failover.Base.{
  ℕ, suc, ◌+◌, ◌/◌, ℤ, pos, negsuc, Text, eqb, ltb_ℤ, leb_ℤ, ◌≡◌, Bool, true, false, not, ◌&&◌,
  ◌||◌, Option, none, some, List, [], ◌∷◌, if◌then◌else◌, codes, ◌+ℤ◌,
}
use easy_failover.Core.NodeState.{NodeState, backup, master}
use easy_failover.Core.Election.{CandidateNode, choose_highest_priority_healthy_node}

pub record LocalNodeStatus : Type 0 where
  pub node_id : Text
  pub priority : ℤ
  pub healthy : Bool
  pub state : NodeState

pub record PeerStatus : Type 0 where
  pub node_id : Text
  pub priority : ℤ
  pub healthy : Bool
  pub heartbeat_seen : Bool
  pub state : NodeState

pub data FailoverAction : Type 0 where
  stay_backup become_master stay_master become_backup enter_fault : FailoverAction

pub action_to_string : FailoverAction → Text
action_to_string stay_backup = codes "stay_backup"
action_to_string become_master = codes "become_master"
action_to_string stay_master = codes "stay_master"
action_to_string become_backup = codes "become_backup"
action_to_string enter_fault = codes "enter_fault"

-- ElectionPolicy, with the defaults of its members in `default_policy`.
pub record ElectionPolicy : Type 0 where
  pub require_quorum : Bool
  pub quorum_size : ℤ
  pub cluster_size : ℤ
  pub preempt : Bool

abbrev pub default_policy : ElectionPolicy
default_policy = record {
  require_quorum = false;
  quorum_size = pos 0;
  cluster_size = pos 1;
  preempt = true;
}

-- `size / 2` of a positive `int`.
half : ℤ → ℤ
half (pos n) = pos (n / 2)
half (negsuc n) = negsuc n

pub quorum_threshold : ElectionPolicy → ℤ
unfolding half
quorum_threshold policy =
    if ltb_ℤ (pos 0) policy.quorum_size
    then policy.quorum_size
    else half (if ltb_ℤ (pos 0) policy.cluster_size then policy.cluster_size else pos 1) +ℤ pos 1

pub count_seen : List PeerStatus → ℕ
count_seen [] = 0
count_seen (p ∷ ps) = if p.heartbeat_seen then suc (count_seen ps) else count_seen ps

pub observed_cluster_members : List PeerStatus → ℤ
observed_cluster_members peers = pos (1 + count_seen peers)

unfoldable pub is_master : NodeState → Bool
is_master master = true
is_master _ = false

-- An observed, healthy peer that advertises itself as master.
pub advertises_master : PeerStatus → Bool
unfolding is_master
advertises_master peer = peer.healthy && peer.heartbeat_seen && is_master peer.state

unfoldable pub healthy_peer_master : List PeerStatus → Option Text
healthy_peer_master [] = none
healthy_peer_master (p ∷ ps) =
    if advertises_master p then some p.node_id else healthy_peer_master ps

pub peer_is_healthy_master : List PeerStatus → Text → Bool
peer_is_healthy_master [] node_id = false
peer_is_healthy_master (p ∷ ps) node_id =
    if eqb p.node_id node_id && advertises_master p then true else peer_is_healthy_master ps node_id

-- The texts of FailoverDecision.reason, one constructor for each.
pub data Reason : Type 0 where
  no_reason : Reason
  local_unhealthy : Reason
  quorum_lost no_quorum : ℤ → ℤ → Reason
  local_remains local_highest defers_to_master incumbent_retains peer_highest peer_remains : Reason

pub record FailoverDecision : Type 0 where
  pub action : FailoverAction
  pub selected_master : Option Text
  pub reason : Reason

abbrev decided : FailoverAction → Option Text → Reason → FailoverDecision
decided a m r = record { action = a; selected_master = m; reason = r }

unfoldable pub peer_candidates : List PeerStatus → List CandidateNode
peer_candidates [] = []
peer_candidates (p ∷ ps) =
    if not p.healthy || not p.heartbeat_seen
    then peer_candidates ps
    else record { node_id = p.node_id; priority = p.priority; healthy = true } ∷ peer_candidates ps

unfoldable pub local_candidate : LocalNodeStatus → CandidateNode
local_candidate local = record {
  node_id = local.node_id;
  priority = local.priority;
  healthy = true;
}

-- The local node is selected.
unfoldable pub take_over :
    LocalNodeStatus → List PeerStatus → ElectionPolicy → Text → FailoverDecision
take_over local peers policy selected =
    let claim : FailoverDecision = decided become_master (some selected) local_highest in
    if is_master local.state
    then decided stay_master (some selected) local_remains
    else if not policy.preempt
    then (elim (healthy_peer_master peers) [
      | some master_id ↦ decided stay_backup (some master_id) defers_to_master
      | none ↦ claim
    ])
    else claim

-- A peer is selected.
unfoldable pub hand_over :
    LocalNodeStatus → List PeerStatus → ElectionPolicy → Text → FailoverDecision
hand_over local peers policy selected =
    if is_master local.state
    then (if not policy.preempt && not (peer_is_healthy_master peers selected)
        then decided stay_master (some local.node_id) incumbent_retains
        else decided become_backup (some selected) peer_highest)
    else decided stay_backup (some selected) peer_remains

-- `winner.value()` throws on an empty optional; the local candidate is healthy, so there is always a
-- winner, and the empty case has a default value here.
unfoldable pub elect : LocalNodeStatus → List PeerStatus → Option CandidateNode
elect local peers =
    choose_highest_priority_healthy_node (local_candidate local ∷ peer_candidates peers)

unfoldable pub after_election :
    LocalNodeStatus → List PeerStatus → ElectionPolicy → Option CandidateNode → FailoverDecision
unfolding take_over hand_over
after_election local peers policy none = decided stay_backup none no_reason
after_election local peers policy (some winner) =
    if eqb winner.node_id local.node_id
    then take_over local peers policy winner.node_id
    else hand_over local peers policy winner.node_id

-- The quorum gate fails: fewer members observed than the threshold.
unfoldable pub lacks_quorum : List PeerStatus → ElectionPolicy → Bool
lacks_quorum peers policy =
    policy.require_quorum && ltb_ℤ (observed_cluster_members peers) (quorum_threshold policy)

unfoldable pub decide_failover_action :
    LocalNodeStatus → List PeerStatus → ElectionPolicy → FailoverDecision
decide_failover_action local peers policy =
    let observed = observed_cluster_members peers in
    let threshold = quorum_threshold policy in
    if not local.healthy
    then decided enter_fault none local_unhealthy
    else if lacks_quorum peers policy
    then (if is_master local.state
        then decided become_backup none (quorum_lost observed threshold)
        else decided stay_backup none (no_quorum observed threshold))
    else after_election local peers policy (elect local peers)
