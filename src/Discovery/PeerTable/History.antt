-- ===== src/Discovery/PeerTable/History.antt =====
-- The table of peers over a history of observations: what it holds.
use easy_failover.Base.{
  ℕ, ℤ, Text, eqb, eqb_iff, true, not, ◌≡◌, ◌≢◌, refl, sym, ◌∙◌, ◌↔◌, ◌⊎◌, inl, inr, List, [], ◌∷◌,
  is_empty, In, arith, if◌then◌else◌, if_cases, ap, Bool-cases,
}
use easy_failover.Discovery.Beacon.{Beacon}
use easy_failover.Discovery.PeerTable.{Entry, PeerTable, identity_of, put_entry, observe}

-- The MAC address, or the node id of a beacon without one.
abbrev pub HasIdentity : Beacon → Text → Type 0
HasIdentity b key = ((b.mac ≢ []) × (key ≡ b.mac)) ⊎ ((b.mac ≡ []) × (key ≡ b.node_id))

identity_cases :
    (mac id key : Text)
    → ((if not (is_empty mac) then mac else id) ≡ key)
      ↔ (((mac ≢ []) × (key ≡ mac)) ⊎ ((mac ≡ []) × (key ≡ id)))
identity_cases [] id key =
    (λ h. inr (refl, sym h), λ h. elim h [ inl (n, _) ↦ absurd (n refl) | inr (_, e) ↦ sym e ])
identity_cases (c ∷ cs) id key =
    (λ h. inl ((λ e. cc e), sym h), λ h. elim h [ inl (_, e) ↦ sym e | inr (e, _) ↦ absurd (cc e) ])

identity_of-HasIdentity : (b : Beacon) (key : Text) → (identity_of b ≡ key) ↔ HasIdentity b key
unfolding identity_of
identity_of-HasIdentity b key = identity_cases b.mac b.node_id key

nil_of : (t : Text) → is_empty t ≡ true → t ≡ []
nil_of [] h = refl
nil_of (c ∷ cs) h = absurd (cc h)

is_empty_nil : is_empty {A = ℕ} [] ≡ true
is_empty_nil = refl

-- No two entries share a key.
pub DistinctKeys : PeerTable → Type 0
DistinctKeys [] = Unit
DistinctKeys (x ∷ xs) = ((e : Entry) → In e xs → e.key ≢ x.key) × DistinctKeys xs

-- After a put: the new entry, and the old ones of other keys.
abbrev AfterPut : Entry → PeerTable → Entry → Type 0
AfterPut new t e = (e ≡ new) ⊎ (In e t × (e.key ≢ new.key))

put_entry-In :
    (new e : Entry) (t : PeerTable) → DistinctKeys t → In e (put_entry new t) → AfterPut new t e
unfolding put_entry DistinctKeys
put_entry-In new e [] d m = ground arith
put_entry-In new e (x ∷ xs) d m = elim (Bool-cases (eqb x.key new.key)) [
  | inl q ↦ ground (arith, d.0 e, eqb_iff x.key new.key)
  | inr q ↦ ground (arith, put_entry-In new e xs d.1, eqb_iff x.key new.key)
]

In-put_entry : (new e : Entry) (t : PeerTable) → AfterPut new t e → In e (put_entry new t)
unfolding put_entry
In-put_entry new e [] h = ground arith
In-put_entry new e (x ∷ xs) h = ground (arith, In-put_entry new e xs, eqb_iff x.key new.key)

put_entry-DistinctKeys :
    (new : Entry) (t : PeerTable) → DistinctKeys t → DistinctKeys (put_entry new t)
unfolding put_entry DistinctKeys
put_entry-DistinctKeys new [] d = ((λ e m. absurd m), tt)
put_entry-DistinctKeys new (x ∷ xs) d = elim (Bool-cases (eqb x.key new.key)) [
  | inl q ↦
      let same = (eqb_iff x.key new.key).0 q in
      rw (q, put_entry) ((λ e m h. d.0 e m (h ∙ sym same)), d.1)
  | inr q ↦
      rw (q, put_entry)
        (
          (λ e m h. ground (arith, put_entry-In new e xs d.1 m, d.0 e, eqb_iff x.key new.key)),
          put_entry-DistinctKeys new xs d.1,
        )
]

-- An observation: a beacon and the time it came at.
abbrev pub Sighting : Type 0
Sighting = Beacon × ℤ

-- The table after a history of observations, the latest of which stands first.
pub table_of : List Sighting → PeerTable
table_of [] = []
table_of ((b, at) ∷ earlier) = observe b at (table_of earlier)

-- The latest observation of an identity in the history is that of `b` at time `at`.
pub LastSeen : Text → Beacon → ℤ → List Sighting → Type 0
LastSeen key b at [] = ⊥
LastSeen key b at ((c, time) ∷ earlier) =
    (HasIdentity c key × (b ≡ c) × (at ≡ time))
    ⊎ ((¬ HasIdentity c key) × LastSeen key b at earlier)

observe_cases :
    (Q : PeerTable → Type 0) (b : Beacon) (at : ℤ) (t : PeerTable)
    → (identity_of b ≡ [] → Q t)
    → (identity_of b ≢ []
        → Q (put_entry (record { key = identity_of b; beacon = b; last_seen_ms = at }) t))
    → Q (observe b at t)
unfolding observe
observe_cases Q b at t none_yet known =
    if_cases Q (is_empty (identity_of b)) _ _ (λ e. none_yet (nil_of (identity_of b) e))
      (λ n. known (λ e. cc (n, e, is_empty_nil)))

table_of-DistinctKeys : (ss : List Sighting) → DistinctKeys (table_of ss)
unfolding table_of DistinctKeys
table_of-DistinctKeys [] = tt
table_of-DistinctKeys ((b, at) ∷ earlier) =
    observe_cases DistinctKeys b at (table_of earlier) (λ e. table_of-DistinctKeys earlier)
      (λ n. put_entry-DistinctKeys _ (table_of earlier) (table_of-DistinctKeys earlier))

-- The entry is the latest observation of its identity.
abbrev pub IsHeld : List Sighting → Entry → Type 0
IsHeld ss e = (e.key ≢ []) × LastSeen e.key e.beacon e.last_seen_ms ss

entry_eq :
    (e : Entry) (key : Text) (b : Beacon) (at : ℤ)
    → e.key ≡ key
    → e.beacon ≡ b
    → e.last_seen_ms ≡ at
    → e ≡ record { key = key; beacon = b; last_seen_ms = at }
entry_eq e key b at h k l = rw (sym h, sym k, sym l) refl

-- An observation of another identity leaves an entry the latest.
still-IsHeld :
    (b : Beacon) (at : ℤ) (ss : List Sighting) (e : Entry)
    → identity_of b ≢ e.key
    → IsHeld ss e
    → IsHeld ((b, at) ∷ ss) e
unfolding LastSeen
still-IsHeld b at ss e n (k, l) = (k, inr ((λ h. n ((identity_of-HasIdentity b e.key).1 h)), l))

pub In-IsHeld : (ss : List Sighting) (e : Entry) → In e (table_of ss) → IsHeld ss e
unfolding table_of LastSeen
In-IsHeld [] e m = absurd m
In-IsHeld ((b, at) ∷ earlier) e m =
    observe_cases (λ t. In e t → IsHeld ((b, at) ∷ earlier) e) b at (table_of earlier)
      (λ z m.
        let (k, l) = In-IsHeld earlier e m in
        still-IsHeld b at earlier e (λ q. k (sym q ∙ z)) (k, l))
      (λ n m. elim (put_entry-In _ e (table_of earlier) (table_of-DistinctKeys earlier) m) [
        | inl h ↦
            let key = ap (λ (x : Entry). x.key) h in
            (
              (λ z. n (sym key ∙ z)),
              inl (
                (identity_of-HasIdentity b e.key).0 (sym key),
                ap (λ (x : Entry). x.beacon) h,
                ap (λ (x : Entry). x.last_seen_ms) h,
              ),
            )
        | inr (i, other) ↦ still-IsHeld b at earlier e (λ q. other (sym q)) (In-IsHeld earlier e i)
      ])
      m

pub IsHeld-In : (ss : List Sighting) (e : Entry) → IsHeld ss e → In e (table_of ss)
unfolding table_of LastSeen
IsHeld-In [] e (k, l) = absurd l
IsHeld-In ((b, at) ∷ earlier) e (k, inl (i, hb, ha)) =
    let key = (identity_of-HasIdentity b e.key).1 i in
    observe_cases (λ t. In e t) b at (table_of earlier) (λ z. absurd (k (sym key ∙ z)))
      (λ n. In-put_entry _ e (table_of earlier) (inl (entry_eq e _ b at (sym key) hb ha)))
IsHeld-In ((b, at) ∷ earlier) e (k, inr (other, l)) =
    observe_cases (λ t. In e t) b at (table_of earlier) (λ z. IsHeld-In earlier e (k, l))
      (λ n. In-put_entry _ e (table_of earlier) (
        inr
          (IsHeld-In earlier e (k, l), (λ q. other ((identity_of-HasIdentity b e.key).0 (sym q))))))
