-- ===== src/Core/Election/Elected.antt =====
-- The choice of the election by priorities and ids, against `ranks_below`.
use easy_failover.Base.{
  before, ◌≤ℤ◌, ◌≡◌, refl, inl, inr, ◌↔◌, true, false, some, List, [], ◌∷◌, arith, eqb_ℤ_iff, In,
  All, All_of_In,
}
use easy_failover.Core.Election.{CandidateNode, ranks_below, choose_highest_priority_healthy_node}
use easy_failover.Core.Election.Best.{IsBest, DistinctIds, choose-IsBest, choose_of_IsBest}

-- `w` is a healthy candidate of the list; every other healthy one has a lower priority, or the same
-- priority and an id that is not less.
pub record IsElected (w : CandidateNode) (cs : List CandidateNode) : Type 0 where
  pub listed : In w cs
  pub is_healthy : w.healthy ≡ true
  pub highest : (c : CandidateNode) → In c cs → c.healthy ≡ true → c.priority ≤ℤ w.priority
  pub least_id :
      (c : CandidateNode)
      → In c cs
      → c.healthy ≡ true
      → c.priority ≡ w.priority
      → before c.node_id w.node_id ≡ false

below_priority :
    (w c : CandidateNode)
    → w.healthy ≡ true
    → c.healthy ≡ true
    → ranks_below w c ≡ false
    → c.priority ≤ℤ w.priority
unfolding ranks_below
below_priority w c hw hc h = ground (arith, eqb_ℤ_iff w.priority c.priority)

below_id :
    (w c : CandidateNode)
    → w.healthy ≡ true
    → c.healthy ≡ true
    → c.priority ≡ w.priority
    → ranks_below w c ≡ false
    → before c.node_id w.node_id ≡ false
unfolding ranks_below
below_id w c hw hc e h = ground (arith, eqb_ℤ_iff w.priority c.priority)

not_below :
    (w c : CandidateNode)
    → w.healthy ≡ true
    → (c.healthy ≡ true → c.priority ≤ℤ w.priority)
    → (c.healthy ≡ true → c.priority ≡ w.priority → before c.node_id w.node_id ≡ false)
    → ranks_below w c ≡ false
unfolding ranks_below
not_below w c hw p i = ground (arith, eqb_ℤ_iff w.priority c.priority, p, i)

IsBest-IsElected : (w : CandidateNode) (cs : List CandidateNode) → IsBest w cs → IsElected w cs
IsBest-IsElected w cs b =
    let unbeaten =
      λ (c : CandidateNode). All_of_In (λ c. ranks_below w c ≡ false) cs c b.unbeaten in
    record {
      listed = b.member;
      is_healthy = b.is_healthy;
      highest = λ c i h. below_priority w c b.is_healthy h (unbeaten c i);
      least_id = λ c i h e. below_id w c b.is_healthy h e (unbeaten c i);
    }

All-of_In :
    (P : CandidateNode → Type 0) (cs : List CandidateNode)
    → ((c : CandidateNode) → In c cs → P c)
    → All P cs
All-of_In P [] h = tt
All-of_In P (c ∷ cs) h = (h c (inl refl), All-of_In P cs (λ x i. h x (inr i)))

IsElected-IsBest : (w : CandidateNode) (cs : List CandidateNode) → IsElected w cs → IsBest w cs
IsElected-IsBest w cs e = record {
  member = e.listed;
  is_healthy = e.is_healthy;
  unbeaten =
      All-of_In (λ c. ranks_below w c ≡ false) cs
        (λ c i. not_below w c e.is_healthy (e.highest c i) (e.least_id c i));
}

-- Where no two candidates share an id, the election returns a candidate exactly if it is healthy, no
-- healthy candidate has a higher priority, and none of the same priority has a lesser id.
pub choose-IsElected_iff :
    (cs : List CandidateNode) (w : CandidateNode)
    → DistinctIds cs
    → (choose_highest_priority_healthy_node cs ≡ some w) ↔ IsElected w cs
choose-IsElected_iff cs w d = (
  λ h. IsBest-IsElected w cs (choose-IsBest cs w h),
  λ e. choose_of_IsBest cs w d (IsElected-IsBest w cs e),
)
