-- ===== src/Core/Decision/Cluster.antt =====
-- A cluster of nodes that all run `decide_failover_action`, seen from outside: each node sees a
-- heartbeat of exactly the nodes in its own partition (`group`), with what they advertise.
pub mod Owners
mod Tests
use easy_failover.Base.{
  ℕ, suc, ◌+◌, ◌/◌, ◌≤◌, ◌<◌, ℤ, pos, negsuc, ◌≤ℤ◌, ◌<ℤ◌, ◌+ℤ◌, ltb_ℤ, Text, eqb, eqb_iff, eqb_refl,
  ◌≡◌, refl, sym, ◌⊎◌, inl, inr, Bool, true, false, not, ◌&&◌, Option, none, some, List, [], ◌∷◌,
  arith, length, In, Bool-cases, Option-cases, ◌==◌, ==_iff, if◌then◌else◌, ◌≢◌, ap, ◌∙◌,
}
use easy_failover.Core.NodeState.{NodeState, master, backup, candidate, fault}
use easy_failover.Core.Election.{CandidateNode, choose_highest_priority_healthy_node}
use easy_failover.Core.Election.Best.{
  IsBest, choose-IsBest, choose-none, choose-SameMembers, DistinctIds, SameMembers,
}
use easy_failover.Core.Decision.{
  LocalNodeStatus, PeerStatus, ElectionPolicy, FailoverDecision, count_seen,
  observed_cluster_members, peer_candidates, local_candidate, elect, decide_failover_action,
  lacks_quorum, quorum_threshold, half,
}
use easy_failover.Core.Decision.Safety.{
  claims_vip, MayOwn, owner-MayOwn, owner_elected, elected_owns, elect-total,
}

pub record Member : Type 0 where
  pub status : LocalNodeStatus
  pub open status use *
  pub group : ℕ

-- What `m` knows of `x`.
pub peer_of : Member → Member → PeerStatus
peer_of m x = record {
  node_id = x.node_id;
  priority = x.priority;
  healthy = x.healthy;
  heartbeat_seen = x.group == m.group;
  state = x.state;
}

-- The peers of `m`: every member with another id.
pub peers_of : Member → List Member → List PeerStatus
unfolding peer_of
peers_of m [] = []
peers_of m (x ∷ xs) = if eqb x.node_id m.node_id then peers_of m xs else peer_of m x ∷ peers_of m xs

pub decide : ElectionPolicy → List Member → Member → FailoverDecision
decide policy ms m = decide_failover_action m.status (peers_of m ms) policy

pub DistinctMembers : List Member → Type 0
DistinctMembers ms = (a b : Member) → In a ms → In b ms → a.node_id ≡ b.node_id → a ≡ b

pub cand : Member → CandidateNode
unfolding local_candidate
cand x = local_candidate x.status

-- The healthy members of a group, as candidates.
pub group_candidates : ℕ → List Member → List CandidateNode
group_candidates g [] = []
group_candidates g (x ∷ xs) =
    if (x.group == g) && x.healthy then cand x ∷ group_candidates g xs else group_candidates g xs

-- A candidate of a node's election is a healthy member of its group.
from_peers :
    (c : CandidateNode) (a : Member) (ms : List Member)
    → In c (peer_candidates (peers_of a ms))
    → In c (group_candidates a.group ms)
unfolding peer_candidates peers_of group_candidates cand
from_peers c a [] h = h
from_peers c a (x ∷ xs) h = ground (arith, from_peers c a xs)

from_self :
    (c : CandidateNode) (a : Member) (ms : List Member)
    → a.healthy ≡ true
    → In a ms
    → c ≡ cand a
    → In c (group_candidates a.group ms)
unfolding group_candidates
from_self c a [] h m e = m
from_self c a (x ∷ xs) h (inl p) e = rw (← p) (ground arith)
from_self c a (x ∷ xs) h (inr m) e = ground (arith, from_self c a xs h m e)

into :
    (c : CandidateNode) (a : Member) (ms : List Member)
    → ((x : Member) → In x ms → x.node_id ≡ a.node_id → x ≡ a)
    → In c (group_candidates a.group ms)
    → (c ≡ cand a) ⊎ In c (peer_candidates (peers_of a ms))
unfolding peer_candidates peers_of group_candidates cand
into c a [] d h = inr h
into c a (x ∷ xs) d h =
    ground (arith, into c a xs (λ y m. d y (inr m)), eqb_iff x.node_id a.node_id, d x (inl refl))

SameMembers-group :
    (a : Member) (ms : List Member)
    → DistinctMembers ms
    → In a ms
    → a.healthy ≡ true
    → SameMembers
        (local_candidate a.status ∷ peer_candidates (peers_of a ms))
        (group_candidates a.group ms)
unfolding DistinctMembers cand
SameMembers-group a ms d m h c = (
  elim [ inl e ↦ from_self c a ms h m e | inr p ↦ from_peers c a ms p ],
  into c a ms (λ x n. d x a n m),
)

-- Where a candidate of a group comes from.
record Origin (c : CandidateNode) (g : ℕ) (ms : List Member) : Type 0 where
  source : Member
  is_member : In source ms
  same : c ≡ cand source
  in_group : source.group ≡ g
  is_healthy : source.healthy ≡ true

Origin-skip :
    (c : CandidateNode) (g : ℕ) (x : Member) (ms : List Member)
    → Origin c g ms
    → Origin c g (x ∷ ms)
Origin-skip c g x ms o = record {
  source = o.source;
  is_member = inr o.is_member;
  same = o.same;
  in_group = o.in_group;
  is_healthy = o.is_healthy;
}

origin :
    (c : CandidateNode) (g : ℕ) (ms : List Member) → In c (group_candidates g ms) → Origin c g ms
unfolding group_candidates
origin c g [] h = absurd h
origin c g (x ∷ xs) h = elim (Bool-cases ((x.group == g) && x.healthy)) [
  | inl e ↦ elim (rw e at h) [
    | inl p ↦ record {
      source = x;
      is_member = inl refl;
      same = p;
      in_group = ground arith;
      is_healthy = ground arith;
    }
    | inr m ↦ Origin-skip c g x xs (origin c g xs m)
  ]
  | inr e ↦ Origin-skip c g x xs (origin c g xs (rw e at h))
]

DistinctIds-group :
    (g : ℕ) (ms : List Member) → DistinctMembers ms → DistinctIds (group_candidates g ms)
unfolding DistinctMembers cand local_candidate
DistinctIds-group g ms d a b p q i =
    let o = origin a g ms p in
    let r = origin b g ms q in
    cc (
      o.same,
      r.same,
      d o.source r.source o.is_member r.is_member (
          sym (ap (λ (c : CandidateNode). c.node_id) o.same)
          ∙ i
          ∙ ap (λ (c : CandidateNode). c.node_id) r.same),
    )

elect-group :
    (a : Member) (ms : List Member)
    → DistinctMembers ms
    → In a ms
    → a.healthy ≡ true
    → elect a.status (peers_of a ms)
      ≡ choose_highest_priority_healthy_node (group_candidates a.group ms)
unfolding elect
elect-group a ms d m h = sym (
    choose-SameMembers (group_candidates a.group ms)
      (local_candidate a.status ∷ peer_candidates (peers_of a ms)) (DistinctIds-group a.group ms d)
      (λ x. ((SameMembers-group a ms d m h x).1, (SameMembers-group a ms d m h x).0)))

pub Owns : ElectionPolicy → List Member → Member → Type 0
Owns policy ms m = claims_vip (decide policy ms m).action ≡ true

-- Within one partition at most one node owns the VIP.
owners_in_group :
    (policy : ElectionPolicy) (ms : List Member) (a b : Member)
    → policy.preempt ≡ true
    → DistinctMembers ms
    → In a ms
    → In b ms
    → a.group ≡ b.group
    → Owns policy ms a
    → Owns policy ms b
    → a ≡ b
unfolding Owns decide
owners_in_group policy ms a b p d ma mb g oa ob =
    let (v, ev, iv) = owner_elected a.status (peers_of a ms) policy p oa in
    let (w, ew, iw) = owner_elected b.status (peers_of b ms) policy p ob in
    unfold DistinctMembers in
    d a b ma mb (
      cc (
        ev,
        iv,
        ew,
        iw,
        elect-group a ms d ma (owner-MayOwn a.status (peers_of a ms) policy oa).is_healthy,
        elect-group b ms d mb (owner-MayOwn b.status (peers_of b ms) policy ob).is_healthy,
        ap (λ g. choose_highest_priority_healthy_node (group_candidates g ms)) g,
      ))

-- The number of members in a group.
size_of : ℕ → List Member → ℕ
size_of g [] = 0
size_of g (x ∷ xs) = if x.group == g then suc (size_of g xs) else size_of g xs

two_groups : (g k : ℕ) (ms : List Member) → g ≢ k → size_of g ms + size_of k ms ≤ length ms
unfolding size_of
two_groups g k [] h = omega arith
two_groups g k (x ∷ xs) h = ground (arith, two_groups g k xs h)

seen_le : (m : Member) (ms : List Member) → count_seen (peers_of m ms) ≤ size_of m.group ms
unfolding size_of count_seen peers_of
seen_le m [] = omega arith
seen_le m (x ∷ xs) = ground (arith, seen_le m xs)

-- A member does not count itself among its peers.
seen_lt :
    (m : Member) (ms : List Member) → In m ms → count_seen (peers_of m ms) < size_of m.group ms
unfolding size_of count_seen peers_of
seen_lt m [] i = absurd i
seen_lt m (x ∷ xs) (inl e) = ground (
  arith,
  seen_le m xs,
  ap (λ (y : Member). y.group) e,
  ap (λ (y : Member). y.node_id) e,
  eqb_refl m.node_id,
)
seen_lt m (x ∷ xs) (inr i) = ground (arith, seen_lt m xs i)
