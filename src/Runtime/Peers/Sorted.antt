-- ===== src/Runtime/Peers/Sorted.antt =====
-- The map of recent peers: an update keeps its keys in ascending order and replaces one entry.
use easy_failover.Base.{
  Text, eqb, eqb_iff, before, before_irrefl, before_trans, before_total, ◌≡◌, ◌≢◌, true, In, ◌⊎◌,
  inl, inr, List, [], ◌∷◌, arith, Bool-cases,
}
use easy_failover.Runtime.Peers.{RecentPeer, put_recent}

-- The keys of the map ascend.
unfoldable pub IsSorted : List RecentPeer → Type 0
IsSorted [] = Unit
IsSorted (x ∷ xs) = ((r : RecentPeer) → In r xs → before x.key r.key ≡ true) × IsSorted xs

-- After an update: the new entry, and the old ones of other keys.
abbrev pub AfterPut : RecentPeer → List RecentPeer → RecentPeer → Type 0
AfterPut new xs r = (r ≡ new) ⊎ (In r xs × (r.key ≢ new.key))

before-ne : (a b : Text) → before a b ≡ true → b ≢ a
before-ne a b h e = cc (h, before_irrefl a, e)

pub put_recent-In :
    (new r : RecentPeer) (xs : List RecentPeer)
    → IsSorted xs
    → In r (put_recent new xs)
    → AfterPut new xs r
unfolding put_recent IsSorted
put_recent-In new r [] d m = ground arith
put_recent-In new r (x ∷ xs) d m = elim (Bool-cases (eqb new.key x.key)) [
  | inl q ↦
      let same = (eqb_iff new.key x.key).0 q in
      ground (arith, q, λ (i : In r xs). before-ne x.key r.key (d.0 r i), same)
  | inr q ↦ elim (Bool-cases (before new.key x.key)) [
    | inl b ↦ ground (
      arith,
      q,
      b,
      before-ne new.key x.key b,
      λ (i : In r xs). before-ne new.key r.key (before_trans new.key x.key r.key b (d.0 r i)),
    )
    | inr b ↦ ground (arith, q, b, put_recent-In new r xs d.1, eqb_iff new.key x.key)
  ]
]

pub In-put_recent :
    (new r : RecentPeer) (xs : List RecentPeer) → AfterPut new xs r → In r (put_recent new xs)
unfolding put_recent
In-put_recent new r [] h = ground arith
In-put_recent new r (x ∷ xs) h = ground (arith, In-put_recent new r xs, eqb_iff new.key x.key)

pub put_recent-IsSorted :
    (new : RecentPeer) (xs : List RecentPeer) → IsSorted xs → IsSorted (put_recent new xs)
unfolding put_recent IsSorted
put_recent-IsSorted new [] d = ((λ r m. absurd m), tt)
put_recent-IsSorted new (x ∷ xs) d = elim (Bool-cases (eqb new.key x.key)) [
  | inl q ↦
      let same = (eqb_iff new.key x.key).0 q in rw (q, put_recent) ((λ r m. rw same (d.0 r m)), d.1)
  | inr q ↦ elim (Bool-cases (before new.key x.key)) [
    | inl b ↦
        rw (q, b, put_recent)
          (
            (λ r m. elim m [
              | inl h ↦ rw h b
              | inr i ↦ before_trans new.key x.key r.key b (d.0 r i)
            ]),
            d,
          )
    | inr b ↦
        rw (q, b, put_recent)
          (
            (λ r m. elim (put_recent-In new r xs d.1 m) [
              | inl h ↦ rw h (ground (arith, before_total new.key x.key, eqb_iff new.key x.key))
              | inr (i, _) ↦ d.0 r i
            ]),
            put_recent-IsSorted new xs d.1,
          )
  ]
]
