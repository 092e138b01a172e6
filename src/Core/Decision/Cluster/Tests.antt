-- ===== src/Core/Decision/Cluster/Tests.antt =====
-- A cluster of three nodes, of which the third is cut off.
use easy_failover.Base.{
  ℕ, ℤ, pos, ◌+ℤ◌, codes, eqb, before, Text, ◌≡◌, refl, sym, ap, ◌∙◌, inl, inr, Bool, true, false,
  some, List, [], ◌∷◌, In, arith,
}
use easy_failover.Core.NodeState.{NodeState, backup, master}
use easy_failover.Core.Election.{ranks_below, max_element, choose_highest_priority_healthy_node}
use easy_failover.Core.Election.Best.{IsBest}
use easy_failover.Core.Decision.{
  LocalNodeStatus, ElectionPolicy, stay_master, decide_failover_action, lacks_quorum,
  quorum_threshold, half, observed_cluster_members, count_seen, elect, peer_candidates,
  local_candidate, after_election, take_over, is_master,
}
use easy_failover.Core.Decision.Safety.{claims_vip, MayOwn, owner-MayOwn}
use easy_failover.Core.Decision.Cluster.{
  Member, peer_of, peers_of, decide, DistinctMembers, Owns, group_candidates, cand,
}
use easy_failover.Core.Decision.Cluster.Owners.{
  MajorityPolicy, GroupOwner, single_owner, owners_share_group, group_has_owner, masters_stay,
}

abbrev node : Text → ℤ → NodeState → LocalNodeStatus
node id priority state = record { node_id = id; priority = priority; healthy = true; state = state }

abbrev member : Text → ℤ → NodeState → ℕ → Member
member id priority state n = record { status = node id priority state; group = n }

abbrev leader : Member
leader = member (codes "n1") (pos 150) backup 0

abbrev follower : Member
follower = member (codes "n2") (pos 100) master 0

abbrev lonely : Member
lonely = member (codes "n3") (pos 90) master 1

abbrev cluster : List Member
cluster = leader ∷ follower ∷ lonely ∷ []

abbrev majority : Bool → ElectionPolicy
majority preempt = record {
  require_quorum = true;
  quorum_size = pos 0;
  cluster_size = pos 3;
  preempt = preempt;
}

majority-MajorityPolicy : (preempt : Bool) → MajorityPolicy (majority preempt) 3
majority-MajorityPolicy preempt = record { on = refl; automatic = refl; size = refl }

cluster-DistinctMembers : DistinctMembers cluster
unfolding DistinctMembers codes
cluster-DistinctMembers a b p q i = ground arith

leader-Owns : Owns (majority true) cluster leader
unfolding Owns decide peers_of peer_of decide_failover_action lacks_quorum quorum_threshold half
    observed_cluster_members count_seen elect peer_candidates local_candidate after_election
    take_over is_master claims_vip choose_highest_priority_healthy_node max_element ranks_below
    codes eqb ◌+ℤ◌
leader-Owns = refl

single_owner_example : leader ≡ leader
single_owner_example =
    single_owner (majority true) cluster leader leader refl (majority-MajorityPolicy true)
      cluster-DistinctMembers (inl refl) (inl refl) leader-Owns leader-Owns

owners_share_group_example : leader.group ≡ leader.group
owners_share_group_example =
    owners_share_group (majority true) cluster leader leader (majority-MajorityPolicy true)
      (inl refl) (inl refl) leader-Owns leader-Owns

quorum_in_group :
    (m : Member)
    → In m cluster
    → m.group ≡ 0
    → lacks_quorum (peers_of m cluster) (majority true) ≡ false
unfolding peers_of peer_of lacks_quorum quorum_threshold half observed_cluster_members count_seen
    codes eqb ◌+ℤ◌
quorum_in_group m (inl e) g = rw e refl
quorum_in_group m (inr (inl e)) g = rw e refl
quorum_in_group m (inr (inr (inl e))) g =
    absurd (omega (arith, sym (ap (λ (x : Member). x.group) e) ∙ g))
quorum_in_group m (inr (inr (inr e))) g = absurd e

group_has_owner_example : GroupOwner (majority true) cluster 0
group_has_owner_example =
    group_has_owner (majority true) cluster follower refl cluster-DistinctMembers (inr (inl refl))
      refl quorum_in_group

owner-MayOwn_example : MayOwn leader.status (peers_of leader cluster) (majority true)
unfolding Owns decide
owner-MayOwn_example =
    owner-MayOwn leader.status (peers_of leader cluster) (majority true) leader-Owns

leader_elected : elect leader.status (peers_of leader cluster) ≡ some (cand leader)
unfolding elect peers_of peer_of peer_candidates local_candidate cand
    choose_highest_priority_healthy_node max_element ranks_below codes eqb
leader_elected = refl

-- Two masters of one partition after it has healed, and a backup that outranks both.
abbrev rejoined : Member
rejoined = member (codes "n3") (pos 90) master 0

abbrev healed : List Member
healed = leader ∷ follower ∷ rejoined ∷ []

healed-DistinctMembers : DistinctMembers healed
unfolding DistinctMembers codes
healed-DistinctMembers a b p q i = ground arith

healed_quorum : lacks_quorum (peers_of rejoined healed) (majority false) ≡ false
unfolding peers_of peer_of lacks_quorum quorum_threshold half observed_cluster_members count_seen
    codes eqb ◌+ℤ◌
healed_quorum = refl

leader-IsBest : IsBest (cand leader) (group_candidates 0 healed)
unfolding group_candidates cand local_candidate ranks_below codes before
leader-IsBest = record {
  member = inl refl;
  is_healthy = refl;
  unbeaten = (refl, (refl, (refl, tt)));
}

masters_stay_example : (decide (majority false) healed rejoined).action ≡ stay_master
unfolding is_master
masters_stay_example =
    masters_stay (majority false) healed rejoined leader refl healed-DistinctMembers
      (inr (inr (inl refl))) (inl refl) refl refl refl healed_quorum refl leader-IsBest
