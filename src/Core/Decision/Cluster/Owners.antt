-- ===== src/Core/Decision/Cluster/Owners.antt =====
-- Who owns the VIP in a whole cluster, connected or partitioned.
use easy_failover.Base.{
  ℕ, ◌+◌, ◌/◌, ◌≤◌, ◌<◌, pos, ◌+ℤ◌, eqb_iff, ◌≡◌, refl, sym, inl, inr, true, false, some, List, [],
  ◌∷◌, arith, length, In, ap, ◌∙◌, ℕ_discrete,
}
use easy_failover.Core.Election.{CandidateNode, choose_highest_priority_healthy_node}
use easy_failover.Core.Election.Best.{IsBest, choose-IsBest, choose_of_IsBest}
use easy_failover.Core.Decision.{
  LocalNodeStatus, PeerStatus, ElectionPolicy, stay_master, observed_cluster_members,
  local_candidate, elect, decide_failover_action, lacks_quorum, quorum_threshold, after_election,
  peer_is_healthy_master, advertises_master, is_master,
}
use easy_failover.Core.Decision.Safety.{owner-MayOwn, elected_owns, elect-total}
use easy_failover.Core.Decision.Cluster.{
  Member, peers_of, decide, DistinctMembers, cand, group_candidates, Origin, origin, elect-group,
  DistinctIds-group, Owns, owners_in_group, size_of, two_groups, seen_lt,
}

-- Automatic quorum over the configured cluster: a strict majority of `n` nodes.
pub record MajorityPolicy (policy : ElectionPolicy) (n : ℕ) : Type 0 where
  pub on : policy.require_quorum ≡ true
  pub automatic : policy.quorum_size ≡ pos 0
  pub size : policy.cluster_size ≡ pos n

threshold_majority :
    (policy : ElectionPolicy) (n : ℕ)
    → 0 < n
    → MajorityPolicy policy n
    → quorum_threshold policy ≡ pos (n / 2 + 1)
unfolding quorum_threshold ◌+ℤ◌
threshold_majority policy n h m = ground arith

nonempty : (m : Member) (ms : List Member) → In m ms → 0 < length ms
nonempty m [] i = absurd i
nonempty m (x ∷ xs) i = omega arith

owner_group :
    (policy : ElectionPolicy) (ms : List Member) (a : Member)
    → MajorityPolicy policy (length ms)
    → In a ms
    → Owns policy ms a
    → length ms / 2 + 1 ≤ size_of a.group ms
unfolding Owns decide observed_cluster_members
owner_group policy ms a m i o = ground (
  arith,
  (owner-MayOwn a.status (peers_of a ms) policy o).has_quorum m.on,
  threshold_majority policy (length ms) (nonempty a ms i) m,
  seen_lt a ms i,
)

-- Two nodes that own the VIP are in the same partition, if quorum is on and automatic.
pub owners_share_group :
    (policy : ElectionPolicy) (ms : List Member) (a b : Member)
    → MajorityPolicy policy (length ms)
    → In a ms
    → In b ms
    → Owns policy ms a
    → Owns policy ms b
    → a.group ≡ b.group
owners_share_group policy ms a b m ia ib oa ob = elim (ℕ_discrete a.group b.group) [
  | yes e ↦ e
  | no n ↦ absurd (
      omega (
        arith,
        two_groups a.group b.group ms n,
        owner_group policy ms a m ia oa,
        owner_group policy ms b m ib ob,
      ))
]

-- No split brain: with distinct node ids, preemption and automatic quorum, at most one node of the
-- cluster decides to own the VIP, however the nodes are partitioned and whatever state they are in.
pub single_owner :
    (policy : ElectionPolicy) (ms : List Member) (a b : Member)
    → policy.preempt ≡ true
    → MajorityPolicy policy (length ms)
    → DistinctMembers ms
    → In a ms
    → In b ms
    → Owns policy ms a
    → Owns policy ms b
    → a ≡ b
single_owner policy ms a b p m d ia ib oa ob =
    owners_in_group policy ms a b p d ia ib (owners_share_group policy ms a b m ia ib oa ob) oa ob

-- The owner that a group has.
pub record GroupOwner (policy : ElectionPolicy) (ms : List Member) (g : ℕ) : Type 0 where
  pub owner : Member
  pub is_member : In owner ms
  pub in_group : owner.group ≡ g
  pub owns : Owns policy ms owner

-- Liveness: under preemption a partition with a healthy node in which no node lacks quorum has an
-- owner.
pub group_has_owner :
    (policy : ElectionPolicy) (ms : List Member) (x : Member)
    → policy.preempt ≡ true
    → DistinctMembers ms
    → In x ms
    → x.healthy ≡ true
    → ((m : Member) → In m ms → m.group ≡ x.group → lacks_quorum (peers_of m ms) policy ≡ false)
    → GroupOwner policy ms x.group
unfolding Owns decide
group_has_owner policy ms x p d i h q =
    let (w, e) = elect-total x.status (peers_of x ms) in
    let won : choose_highest_priority_healthy_node (group_candidates x.group ms) ≡ some w =
      sym (elect-group x ms d i h) ∙ e in
    let o : Origin w x.group ms =
      origin w x.group ms (choose-IsBest (group_candidates x.group ms) w won).member in
    record {
      owner = o.source;
      is_member = o.is_member;
      in_group = o.in_group;
      owns =
          elected_owns o.source.status (peers_of o.source ms) policy w p o.is_healthy
            (q o.source o.is_member o.in_group)
            (elect-group o.source ms d o.is_member o.is_healthy
              ∙ ap (λ g. choose_highest_priority_healthy_node (group_candidates g ms)) o.in_group
              ∙ won)
            (unfold cand local_candidate in ap (λ (c : CandidateNode). c.node_id) o.same);
    }

not_advertised :
    (a x : Member) (ms : List Member)
    → is_master x.state ≡ false
    → ((y : Member) → In y ms → y.node_id ≡ x.node_id → y ≡ x)
    → peer_is_healthy_master (peers_of a ms) x.node_id ≡ false
unfolding peer_is_healthy_master peers_of advertises_master
not_advertised a x [] h d = refl
not_advertised a x (y ∷ ys) h d = ground (
  arith,
  not_advertised a x ys h (λ z i. d z (inr i)),
  eqb_iff y.node_id x.node_id,
  d y (inl refl),
)

incumbent :
    (local : LocalNodeStatus) (peers : List PeerStatus) (policy : ElectionPolicy)
    (w : CandidateNode)
    → policy.preempt ≡ false
    → local.healthy ≡ true
    → is_master local.state ≡ true
    → lacks_quorum peers policy ≡ false
    → elect local peers ≡ some w
    → peer_is_healthy_master peers w.node_id ≡ false
    → (decide_failover_action local peers policy).action ≡ stay_master
unfolding decide_failover_action after_election
incumbent local peers policy w p h s q e n = ground arith

-- Without preemption every healthy master of a connected partition keeps the VIP as long as the best
-- healthy node `x` of the partition is not itself a master: two masters that meet after a partition
-- both stay, and nothing resolves them.
pub masters_stay :
    (policy : ElectionPolicy) (ms : List Member) (a x : Member)
    → policy.preempt ≡ false
    → DistinctMembers ms
    → In a ms
    → In x ms
    → a.group ≡ x.group
    → a.healthy ≡ true
    → is_master a.state ≡ true
    → lacks_quorum (peers_of a ms) policy ≡ false
    → is_master x.state ≡ false
    → IsBest (cand x) (group_candidates x.group ms)
    → (decide policy ms a).action ≡ stay_master
unfolding decide
masters_stay policy ms a x p d ia ix g h s q n best =
    incumbent a.status (peers_of a ms) policy (cand x) p h s q
      (elect-group a ms d ia h
        ∙ ap (λ k. choose_highest_priority_healthy_node (group_candidates k ms)) g
        ∙ choose_of_IsBest (group_candidates x.group ms) (cand x) (DistinctIds-group x.group ms d)
            best)
      (unfold cand local_candidate DistinctMembers in not_advertised a x ms n (λ y i. d y x i ix))
