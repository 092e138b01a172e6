-- ===== src/Core/Election/Tests.antt =====
-- The election on concrete candidates.
use easy_failover.Base.{
  pos, codes, ◌≡◌, ◌↔◌, refl, true, false, none, some, List, [], ◌∷◌, All, arith,
}
use easy_failover.Core.Election.{
  CandidateNode, ranks_below, max_element, choose_highest_priority_healthy_node,
}
use easy_failover.Core.Election.Elected.{IsElected, choose-IsElected_iff}
use easy_failover.Core.Election.Best.{choose-none, DistinctIds, SameMembers, choose-SameMembers}

abbrev first_node : CandidateNode
first_node = record { node_id = codes "n1"; priority = pos 150; healthy = true }

abbrev second_node : CandidateNode
second_node = record { node_id = codes "n2"; priority = pos 100; healthy = true }

abbrev sick_node : CandidateNode
sick_node = record { node_id = codes "n3"; priority = pos 200; healthy = false }

abbrev candidates : List CandidateNode
candidates = second_node ∷ sick_node ∷ first_node ∷ []

abbrev two_nodes : List CandidateNode
two_nodes = first_node ∷ second_node ∷ []

abbrev two_nodes_swapped : List CandidateNode
two_nodes_swapped = second_node ∷ first_node ∷ []

elected : choose_highest_priority_healthy_node candidates ≡ some first_node
unfolding choose_highest_priority_healthy_node max_element ranks_below codes
elected = refl

nobody : choose_highest_priority_healthy_node (sick_node ∷ []) ≡ none
unfolding choose_highest_priority_healthy_node max_element ranks_below
nobody = refl

choose-none_example : All (λ c. c.healthy ≡ false) (sick_node ∷ [])
choose-none_example = choose-none (sick_node ∷ []) nobody

two_nodes-DistinctIds : DistinctIds two_nodes
unfolding codes
two_nodes-DistinctIds a b p q i = ground arith

swapped : SameMembers two_nodes two_nodes_swapped
swapped x = ground arith

choose-SameMembers_example :
    choose_highest_priority_healthy_node two_nodes
    ≡ choose_highest_priority_healthy_node two_nodes_swapped
choose-SameMembers_example =
    choose-SameMembers two_nodes two_nodes_swapped two_nodes-DistinctIds swapped

choose-IsElected_iff_example :
    (choose_highest_priority_healthy_node two_nodes ≡ some first_node)
    ↔ IsElected first_node two_nodes
choose-IsElected_iff_example = choose-IsElected_iff two_nodes first_node two_nodes-DistinctIds

first_node-IsElected : IsElected first_node two_nodes
unfolding choose_highest_priority_healthy_node max_element ranks_below codes
first_node-IsElected = (choose-IsElected_iff two_nodes first_node two_nodes-DistinctIds).0 refl
