-- ===== src/Core/Election/Best.antt =====
-- What the election chooses: the healthy candidate that no other one outranks.
use easy_failover.Base.{
  ◌≡◌, subst, refl, sym, inl, inr, ◌↔◌, true, false, none, some, List, [], ◌∷◌, arith,
  before_irrefl, before_asym, before_total, not_before_trans, eqb_ℤ_iff, In, All, All_of_In,
  Bool-cases, Option-cases, ap, ◌∙◌,
}
use easy_failover.Core.Election.{
  CandidateNode, ranks_below, max_element, healthy_winner, choose_highest_priority_healthy_node,
}

ranks_below_irrefl : (a : CandidateNode) → ranks_below a a ≡ false
unfolding ranks_below
ranks_below_irrefl a = ground (arith, before_irrefl a.node_id)

-- No candidate ranks below two candidates in a circle: "not below" is transitive.
not_below_trans :
    (a b c : CandidateNode)
    → ranks_below a b ≡ false
    → ranks_below b c ≡ false
    → ranks_below a c ≡ false
unfolding ranks_below
not_below_trans a b c h k =
    ground (arith, not_before_trans a.node_id b.node_id c.node_id, eqb_ℤ_iff a.priority b.priority)

-- One step of the loop, on each branch.
max_element_up :
    (c d : CandidateNode) (cs : List CandidateNode)
    → ranks_below c d ≡ true
    → max_element c (d ∷ cs) ≡ max_element d cs
unfolding max_element
max_element_up c d cs e = rw e

max_element_same :
    (c d : CandidateNode) (cs : List CandidateNode)
    → ranks_below c d ≡ false
    → max_element c (d ∷ cs) ≡ max_element c cs
unfolding max_element
max_element_same c d cs e = rw e

In_skip : (x c d : CandidateNode) (cs : List CandidateNode) → In x (c ∷ cs) → In x (c ∷ d ∷ cs)
In_skip x c d cs (inl p) = inl p
In_skip x c d cs (inr m) = inr (inr m)

max_element-In : (c : CandidateNode) (cs : List CandidateNode) → In (max_element c cs) (c ∷ cs)
max_element-In c [] = unfold max_element in inl refl
max_element-In c (d ∷ cs) = elim (Bool-cases (ranks_below c d)) [
  | inl e ↦
      subst (λ w. In w (c ∷ d ∷ cs)) (sym (max_element_up c d cs e)) (inr (max_element-In d cs))
  | inr e ↦
      subst (λ w. In w (c ∷ d ∷ cs)) (sym (max_element_same c d cs e))
        (In_skip _ c d cs (max_element-In c cs))
]

below_asym : (a b : CandidateNode) → ranks_below a b ≡ true → ranks_below b a ≡ false
unfolding ranks_below
below_asym a b h = ground (arith, before_asym b.node_id a.node_id)

-- The running maximum only rises.
max_element-ge :
    (a c : CandidateNode) (cs : List CandidateNode)
    → ranks_below c a ≡ false
    → ranks_below (max_element c cs) a ≡ false
unfolding max_element
max_element-ge a c [] h = h
max_element-ge a c (d ∷ cs) h = elim (Bool-cases (ranks_below c d)) [
  | inl e ↦ rw (e, max_element) (max_element-ge a d cs (not_below_trans d c a (below_asym c d e) h))
  | inr e ↦ rw (e, max_element) (max_element-ge a c cs h)
]

max_element_top :
    (c : CandidateNode) (cs : List CandidateNode)
    → All (λ x. ranks_below (max_element c cs) x ≡ false) (c ∷ cs)
max_element_top c [] = unfold max_element in (ranks_below_irrefl c, tt)
max_element_top c (d ∷ cs) = elim (Bool-cases (ranks_below c d)) [
  | inl e ↦
      subst (λ w. All (λ x. ranks_below w x ≡ false) (c ∷ d ∷ cs)) (sym (max_element_up c d cs e))
        (max_element-ge c d cs (below_asym c d e), max_element_top d cs)
  | inr e ↦
      subst (λ w. All (λ x. ranks_below w x ≡ false) (c ∷ d ∷ cs)) (sym (max_element_same c d cs e))
        ((max_element_top c cs).0, (max_element-ge d c cs e, (max_element_top c cs).1))
]

-- `w` is a healthy member of the list, and no member outranks it for `ranks_below`.
pub record IsBest (w : CandidateNode) (cs : List CandidateNode) : Type 0 where
  pub member : In w cs
  pub is_healthy : w.healthy ≡ true
  pub unbeaten : All (λ c. ranks_below w c ≡ false) cs

healthy_winner-some :
    (w v : CandidateNode) → healthy_winner w ≡ some v → (w ≡ v) × (w.healthy ≡ true)
unfolding healthy_winner
healthy_winner-some w v h = ground arith

pub choose-IsBest :
    (cs : List CandidateNode) (w : CandidateNode)
    → choose_highest_priority_healthy_node cs ≡ some w
    → IsBest w cs
unfolding choose_highest_priority_healthy_node
choose-IsBest [] w h = cc
choose-IsBest (c ∷ cs) w h =
    let (e, healthy) = healthy_winner-some (max_element c cs) w h in
    rw (← e) (record {
      member = max_element-In c cs;
      is_healthy = healthy;
      unbeaten = max_element_top c cs;
    })

below_healthy :
    (a b : CandidateNode) → a.healthy ≡ false → ranks_below a b ≡ false → b.healthy ≡ false
unfolding ranks_below
below_healthy a b h k = ground arith

All-below_healthy :
    (w : CandidateNode) (cs : List CandidateNode)
    → w.healthy ≡ false
    → All (λ c. ranks_below w c ≡ false) cs
    → All (λ c. c.healthy ≡ false) cs
All-below_healthy w [] h k = tt
All-below_healthy w (c ∷ cs) h k = (below_healthy w c h k.0, All-below_healthy w cs h k.1)

healthy_winner-none : (w : CandidateNode) → healthy_winner w ≡ none → w.healthy ≡ false
unfolding healthy_winner
healthy_winner-none w h = ground arith

-- If the election returns nothing, no candidate is healthy.
pub choose-none :
    (cs : List CandidateNode)
    → choose_highest_priority_healthy_node cs ≡ none
    → All (λ c. c.healthy ≡ false) cs
unfolding choose_highest_priority_healthy_node
choose-none [] h = tt
choose-none (c ∷ cs) h =
    All-below_healthy (max_element c cs) (c ∷ cs) (healthy_winner-none (max_element c cs) h)
      (max_element_top c cs)

-- Of two healthy candidates neither of which outranks the other the ids are the same.
unbeaten_ids :
    (a b : CandidateNode)
    → a.healthy ≡ true
    → b.healthy ≡ true
    → ranks_below a b ≡ false
    → ranks_below b a ≡ false
    → a.node_id ≡ b.node_id
unfolding ranks_below
unbeaten_ids a b ha hb h k = ground (arith, before_total a.node_id b.node_id)

-- No two different candidates of the list share a node id.
abbrev pub DistinctIds : List CandidateNode → Type 0
DistinctIds cs = (a b : CandidateNode) → In a cs → In b cs → a.node_id ≡ b.node_id → a ≡ b

-- The best candidate is unique where ids are.
pub IsBest-unique :
    (cs : List CandidateNode) (a b : CandidateNode)
    → DistinctIds cs
    → IsBest a cs
    → IsBest b cs
    → a ≡ b
IsBest-unique cs a b d p q = d a b p.member q.member (
    unbeaten_ids a b p.is_healthy q.is_healthy
      (All_of_In (λ c. ranks_below a c ≡ false) cs b p.unbeaten q.member)
      (All_of_In (λ c. ranks_below b c ≡ false) cs a q.unbeaten p.member))

All-to_In :
    (P : CandidateNode → Type 0) (cs ds : List CandidateNode)
    → All P cs
    → ((x : CandidateNode) → In x ds → In x cs)
    → All P ds
All-to_In P cs [] h k = tt
All-to_In P cs (d ∷ ds) h k =
    (All_of_In P cs d h (k d (inl refl)), All-to_In P cs ds h (λ x m. k x (inr m)))

abbrev pub SameMembers : List CandidateNode → List CandidateNode → Type 0
SameMembers cs ds = (x : CandidateNode) → In x cs ↔ In x ds

IsBest-SameMembers :
    (cs ds : List CandidateNode) (w : CandidateNode) → SameMembers cs ds → IsBest w cs → IsBest w ds
IsBest-SameMembers cs ds w s b = record {
  member = (s w).0 b.member;
  is_healthy = b.is_healthy;
  unbeaten = All-to_In (λ c. ranks_below w c ≡ false) cs ds b.unbeaten (λ x. (s x).1);
}

IsBest-not_none :
    (cs : List CandidateNode) (w : CandidateNode) → IsBest w cs → ¬ All (λ c. c.healthy ≡ false) cs
IsBest-not_none cs w b h = cc (b.is_healthy, All_of_In (λ c. c.healthy ≡ false) cs w h b.member)

-- The winner is the best candidate, where ids are distinct.
pub choose_of_IsBest :
    (cs : List CandidateNode) (w : CandidateNode)
    → DistinctIds cs
    → IsBest w cs
    → choose_highest_priority_healthy_node cs ≡ some w
choose_of_IsBest cs w d b = elim (Option-cases (choose_highest_priority_healthy_node cs)) [
  | inl e ↦ absurd (IsBest-not_none cs w b (choose-none cs e))
  | inr (v, e) ↦ rw e (ap some (IsBest-unique cs v w d (choose-IsBest cs v e) b))
]

-- Two lists with the same candidates, in any order and with any repetition, elect the same node,
-- where no two candidates share an id.
pub choose-SameMembers :
    (cs ds : List CandidateNode)
    → DistinctIds cs
    → SameMembers cs ds
    → choose_highest_priority_healthy_node cs ≡ choose_highest_priority_healthy_node ds
choose-SameMembers cs ds d s = elim (Option-cases (choose_highest_priority_healthy_node cs)) [
  | inr (w, e) ↦ rw e (
      sym (
        choose_of_IsBest ds w (λ a b p q. d a b ((s a).1 p) ((s b).1 q))
          (IsBest-SameMembers cs ds w s (choose-IsBest cs w e))))
  | inl e ↦ elim (Option-cases (choose_highest_priority_healthy_node ds)) [
    | inl f ↦ e ∙ sym f
    | inr (w, f) ↦ absurd (
        IsBest-not_none cs w
          (IsBest-SameMembers ds cs w (λ x. ((s x).1, (s x).0)) (choose-IsBest ds w f))
          (choose-none cs e))
  ]
]
