-- ===== src/Discovery/PeerTable/Fresh.antt =====
-- What is active of the table of peers after a history of observations, and pruning.
use easy_failover.Base.{
  ℤ, ◌-ℤ◌, ◌+ℤ◌, ◌≤ℤ◌, ltb_ℤ, Text, eqb, eqb_iff, true, false, not, ◌&&◌, ◌≡◌, ◌≢◌, refl, sym, ◌↔◌,
  ◌⊎◌, inl, inr, List, [], ◌∷◌, is_empty, In, arith, if_cases, Bool-cases,
}
use easy_failover.Core.Decision.{PeerStatus}
use easy_failover.Discovery.Beacon.{peer_status_from_beacon}
use easy_failover.Discovery.PeerTable.{Entry, PeerTable, active_peers, prune}
use easy_failover.Discovery.PeerTable.History.{Sighting, LastSeen, table_of, In-IsHeld, IsHeld-In}

further :
    (P : Entry → Type 0) (x : Entry) (xs : List Entry)
    → ((e : Entry) × In e xs × P e)
    → (e : Entry) × In e (x ∷ xs) × P e
further P x xs (e, i, z) = (e, inr i, z)

-- The entry is shown to the election of node `self` as the status `s`.
abbrev pub ShownAs : ℤ → ℤ → Text → PeerStatus → Entry → Type 0
ShownAs now_ms timeout_ms self s e =
    ((self ≡ []) ⊎ (e.key ≢ self))
    × (now_ms -ℤ e.last_seen_ms ≤ℤ timeout_ms)
    × (s ≡ peer_status_from_beacon e.beacon)

own_iff :
    (self key : Text)
    → ((not (is_empty self) && eqb key self) ≡ false) ↔ ((self ≡ []) ⊎ (key ≢ self))
own_iff [] key = (λ h. inl refl, λ h. refl)
own_iff (c ∷ cs) key = ground (arith, eqb_iff key (c ∷ cs))

active-ShownAs :
    (now_ms timeout_ms : ℤ) (self : Text) (s : PeerStatus) (table : PeerTable)
    → In s (active_peers now_ms timeout_ms self table)
    → (e : Entry) × In e table × ShownAs now_ms timeout_ms self s e
unfolding active_peers
active-ShownAs now t self s [] m = absurd m
active-ShownAs now t self s (e ∷ es) m =
    let later = λ (q : In s (active_peers now t self es)).
      further (ShownAs now t self s) e es (active-ShownAs now t self s es q) in
    if_cases (λ l. In s l → (f : Entry) × In f (e ∷ es) × ShownAs now t self s f)
      (not (is_empty self) && eqb e.key self) _ _ (λ _. later)
      (λ own.
        if_cases (λ l. In s l → (f : Entry) × In f (e ∷ es) × ShownAs now t self s f)
          (ltb_ℤ t (now -ℤ e.last_seen_ms)) _ _ (λ _. later)
          (λ live q. elim q [
            | inl h ↦ (e, inl refl, ((own_iff self e.key).0 own, ground arith, h))
            | inr i ↦ later i
          ]))
      m

ShownAs-active :
    (now_ms timeout_ms : ℤ) (self : Text) (s : PeerStatus) (e : Entry) (table : PeerTable)
    → In e table
    → ShownAs now_ms timeout_ms self s e
    → In s (active_peers now_ms timeout_ms self table)
unfolding active_peers
ShownAs-active now t self s e [] m z = absurd m
ShownAs-active now t self s e (x ∷ xs) (inl h) (own, live, q) =
    let fresh : ltb_ℤ t (now -ℤ e.last_seen_ms) ≡ false = ground arith in
    rw (sym h, (own_iff self e.key).1 own, fresh) (inl q)
ShownAs-active now t self s e (x ∷ xs) (inr i) z =
    ground (arith, ShownAs-active now t self s e xs i z)

-- After a history of observations, exactly those statuses are active that come from the latest
-- observation of an identity, not empty and not this node's own, no longer ago than the timeout.
pub active_peers-table_of :
    (now_ms timeout_ms : ℤ) (self : Text) (ss : List Sighting) (s : PeerStatus)
    → In s (active_peers now_ms timeout_ms self (table_of ss)) ↔ (
        (e : Entry) × ((e.key ≢ []) × LastSeen e.key e.beacon e.last_seen_ms ss)
        × ShownAs now_ms timeout_ms self s e)
active_peers-table_of now t self ss s = (
  λ m.
      let (e, i, shown) = active-ShownAs now t self s (table_of ss) m in
      (e, In-IsHeld ss e i, shown),
  λ h. ShownAs-active now t self s h.0 (table_of ss) (IsHeld-In ss h.0 h.1) h.2,
)

stale_later :
    (before now last timeout : ℤ)
    → before ≤ℤ now
    → ltb_ℤ timeout (before -ℤ last) ≡ true
    → ltb_ℤ timeout (now -ℤ last) ≡ true
unfolding ◌-ℤ◌ ◌+ℤ◌
stale_later before now last timeout h k = ground arith

-- Pruning at an earlier time with the same timeout does not change what is active later.
pub active_peers-prune :
    (earlier_ms now_ms timeout_ms : ℤ) (self : Text) (table : PeerTable)
    → earlier_ms ≤ℤ now_ms
    → active_peers now_ms timeout_ms self (prune earlier_ms timeout_ms table)
      ≡ active_peers now_ms timeout_ms self table
unfolding active_peers prune
active_peers-prune before now t self [] h = refl
active_peers-prune before now t self (e ∷ es) h =
    let ih = active_peers-prune before now t self es h in
    elim (Bool-cases (ltb_ℤ t (before -ℤ e.last_seen_ms))) [
      | inl stale ↦
          let later = stale_later before now e.last_seen_ms t h stale in
          rw (stale, later) (ground (arith, ih))
      | inr fresh ↦ rw (fresh, active_peers) (ground (arith, ih))
    ]
