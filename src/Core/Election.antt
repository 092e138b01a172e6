-- ===== src/Core/Election.antt =====
-- core/Election.hpp and core/Election.cpp: the choice of the healthy candidate of highest priority.
pub mod Best
pub mod Elected
mod Tests
use easy_failover.Base.{
  ℤ, Text, eqb_ℤ, ltb_ℤ, before, Bool, true, false, not, ◌&&◌, Option, none, some, List, [], ◌∷◌,
  if◌then◌else◌,
}

pub record CandidateNode : Type 0 where
  pub node_id : Text
  pub priority : ℤ
  pub healthy : Bool

-- The comparison that std::max_element is given: `left` ranks below `right`.
unfoldable pub ranks_below : CandidateNode → CandidateNode → Bool
ranks_below left right =
    if not left.healthy && right.healthy
    then true
    else if left.healthy && not right.healthy
    then false
    else if not left.healthy && not right.healthy
    then false
    else if not (eqb_ℤ left.priority right.priority)
    then ltb_ℤ left.priority right.priority
    else before right.node_id left.node_id

-- std::max_element from its second step on: the first of the largest.
unfoldable pub max_element : CandidateNode → List CandidateNode → CandidateNode
max_element largest [] = largest
max_element largest (c ∷ cs) = max_element (if ranks_below largest c then c else largest) cs

healthy_winner : CandidateNode → Option CandidateNode
healthy_winner winner = if not winner.healthy then none else some winner

unfoldable pub choose_highest_priority_healthy_node : List CandidateNode → Option CandidateNode
unfolding healthy_winner
choose_highest_priority_healthy_node [] = none
choose_highest_priority_healthy_node (c ∷ cs) = healthy_winner (max_element c cs)
