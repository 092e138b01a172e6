-- ===== src/Runtime/Peers/Live.antt =====
-- The recent peers over a history of received heartbeats: what the lifecycle is shown of them.
use easy_failover.Base.{
  ℤ, ◌-ℤ◌, ◌<ℤ◌, leb_ℤ, Text, eqb, eqb_iff, ◌≡◌, ◌≢◌, refl, sym, ◌∙◌, true, false, In, ◌↔◌, ◌⊎◌,
  inl, inr, List, [], ◌∷◌, arith, any, Bool-cases, if_cases, ap, subst, some,
}
use easy_failover.Config.{Config, PeerConfig}
use easy_failover.Core.Decision.{PeerStatus}
use easy_failover.Runtime.Peers.{
  RecentPeer, peer_is_configured, put_recent, is_stale, expire_peers, active_peer_statuses,
}
use easy_failover.Runtime.Peers.Sorted.{IsSorted, put_recent-In, In-put_recent, put_recent-IsSorted}
use easy_failover.Runtime.LoopData.{remember}

-- A status that a heartbeat brought, and the elapsed time of its round.
abbrev pub Heard : Type 0
Heard = PeerStatus × ℤ

-- The map after a history of heartbeats, the latest of which stands first.
pub recent_of : Config → List Heard → List RecentPeer
recent_of config [] = []
recent_of config ((p, at) ∷ earlier) = remember config at (some p) (recent_of config earlier)

-- The latest heartbeat of a node in the history brought the status `p` at time `at`.
pub LastHeard : Text → PeerStatus → ℤ → List Heard → Type 0
LastHeard id p at [] = ⊥
LastHeard id p at ((q, time) ∷ earlier) =
    ((q.node_id ≡ id) × (p ≡ q) × (at ≡ time)) ⊎ ((q.node_id ≢ id) × LastHeard id p at earlier)

abbrev pub IsConfigured : Config → Text → Type 0
IsConfigured config id = (c : PeerConfig) × In c config.peers × (c.id ≡ id)

any_configured :
    (id : Text) (cs : List PeerConfig)
    → any (λ p. eqb p.id id) cs ≡ true
    → (c : PeerConfig) × In c cs × (c.id ≡ id)
any_configured id [] h = absurd (cc h)
any_configured id (c ∷ cs) h = elim (Bool-cases (eqb c.id id)) [
  | inl e ↦ (c, inl refl, (eqb_iff c.id id).0 e)
  | inr n ↦ let (d, i, e) = any_configured id cs (ground (arith, n)) in (d, inr i, e)
]

configured_any :
    (id : Text) (c : PeerConfig) (cs : List PeerConfig)
    → In c cs
    → c.id ≡ id
    → any (λ p. eqb p.id id) cs ≡ true
configured_any id c [] i e = absurd i
configured_any id c (d ∷ cs) (inl h) e =
    ground (arith, eqb_iff d.id id, ap (λ (x : PeerConfig). x.id) h)
configured_any id c (d ∷ cs) (inr i) e = ground (arith, configured_any id c cs i e)

peer_is_configured-IsConfigured :
    (config : Config) (id : Text) → (peer_is_configured config id ≡ true) ↔ IsConfigured config id
unfolding peer_is_configured
peer_is_configured-IsConfigured config id =
    (any_configured id config.peers, λ h. configured_any id h.0 config.peers h.1 h.2)

module _ (config : Config) where
  remember_cases :
      (Q : List RecentPeer → Type 0) (p : PeerStatus) (at : ℤ) (rs : List RecentPeer)
      → (¬ IsConfigured config p.node_id → Q rs)
      → (IsConfigured config p.node_id
          → Q (put_recent (record { key = p.node_id; status = p; last_seen_elapsed_ms = at }) rs))
      → Q (remember config at (some p) rs)
  unfolding remember
  remember_cases Q p at rs unknown known =
      if_cases Q (peer_is_configured config p.node_id) _ _
        (λ e. known ((peer_is_configured-IsConfigured config p.node_id).0 e))
        (λ e. unknown (λ h. cc (e, (peer_is_configured-IsConfigured config p.node_id).1 h)))

  recent_of-IsSorted : (hs : List Heard) → IsSorted (recent_of config hs)
  unfolding recent_of IsSorted
  recent_of-IsSorted [] = tt
  recent_of-IsSorted ((p, at) ∷ earlier) =
      remember_cases IsSorted p at (recent_of config earlier) (λ n. recent_of-IsSorted earlier)
        (λ c. put_recent-IsSorted _ (recent_of config earlier) (recent_of-IsSorted earlier))

  -- The entry is the latest heartbeat of a configured peer.
  abbrev IsHeard : List Heard → RecentPeer → Type 0
  IsHeard hs r = IsConfigured config r.key × LastHeard r.key r.status r.last_seen_elapsed_ms hs

  In-IsHeard : (hs : List Heard) (r : RecentPeer) → In r (recent_of config hs) → IsHeard hs r
  unfolding recent_of LastHeard
  In-IsHeard [] r m = absurd m
  In-IsHeard ((p, at) ∷ earlier) r m =
      remember_cases (λ rs. In r rs → IsHeard ((p, at) ∷ earlier) r) p at (recent_of config earlier)
        (λ n m.
          let (c, l) = In-IsHeard earlier r m in (c, inr ((λ e. n (c.0, c.1, c.2 ∙ sym e)), l)))
        (λ c m. elim (put_recent-In _ r (recent_of config earlier) (recent_of-IsSorted earlier) m) [
          | inl h ↦
              let key = ap (λ (x : RecentPeer). x.key) h in
              (
                (c.0, c.1, c.2 ∙ sym key),
                inl (
                  sym key,
                  ap (λ (x : RecentPeer). x.status) h,
                  ap (λ (x : RecentPeer). x.last_seen_elapsed_ms) h,
                ),
              )
          | inr (i, other) ↦
              let (d, l) = In-IsHeard earlier r i in (d, inr ((λ e. other (sym e)), l))
        ])
        m

  recent_eq :
      (r : RecentPeer) (key : Text) (p : PeerStatus) (at : ℤ)
      → r.key ≡ key
      → r.status ≡ p
      → r.last_seen_elapsed_ms ≡ at
      → r ≡ record { key = key; status = p; last_seen_elapsed_ms = at }
  recent_eq r key p at h k l = rw (sym h, sym k, sym l) refl

  IsHeard-In : (hs : List Heard) (r : RecentPeer) → IsHeard hs r → In r (recent_of config hs)
  unfolding recent_of LastHeard
  IsHeard-In [] r (c, l) = absurd l
  IsHeard-In ((p, at) ∷ earlier) r (c, inl (k, hp, ha)) =
      remember_cases (λ rs. In r rs) p at (recent_of config earlier)
        (λ n. absurd (n (c.0, c.1, c.2 ∙ sym k)))
        (λ _. In-put_recent _ r (recent_of config earlier) (inl (recent_eq r _ p at (sym k) hp ha)))
  IsHeard-In ((p, at) ∷ earlier) r (c, inr (other, l)) =
      remember_cases (λ rs. In r rs) p at (recent_of config earlier)
        (λ n. IsHeard-In earlier r (c, l))
        (λ _.
          In-put_recent _ r (recent_of config earlier)
            (inr (IsHeard-In earlier r (c, l), (λ e. other (sym e)))))

LastHeard-node_id :
    (id : Text) (p : PeerStatus) (at : ℤ) (hs : List Heard) → LastHeard id p at hs → p.node_id ≡ id
unfolding LastHeard
LastHeard-node_id id p at [] l = absurd l
LastHeard-node_id id p at ((q, time) ∷ hs) (inl (k, hp, _)) =
    ap (λ (x : PeerStatus). x.node_id) hp ∙ k
LastHeard-node_id id p at ((q, time) ∷ hs) (inr (_, l)) = LastHeard-node_id id p at hs l

-- The entry is shown to the lifecycle as the status `p`.
abbrev IsShown : ℤ → ℤ → PeerStatus → RecentPeer → Type 0
IsShown now timeout p r = (now -ℤ r.last_seen_elapsed_ms <ℤ timeout) × (p ≡ r.status)

live-IsShown :
    (now timeout : ℤ) (p : PeerStatus) (rs : List RecentPeer)
    → In p (active_peer_statuses (expire_peers now timeout rs))
    → (r : RecentPeer) × In r rs × IsShown now timeout p r
unfolding active_peer_statuses expire_peers is_stale
live-IsShown now t p [] m = absurd m
live-IsShown now t p (r ∷ rs) m = elim (Bool-cases (leb_ℤ t (now -ℤ r.last_seen_elapsed_ms))) [
  | inl stale ↦ let (q, i, z) = live-IsShown now t p rs (ground (arith, stale, m)) in (q, inr i, z)
  | inr fresh ↦
      let here : (p ≡ r.status) ⊎ In p (active_peer_statuses (expire_peers now t rs)) =
        ground (arith, fresh, m) in
      elim here [
        | inl h ↦ (r, inl refl, (ground arith, h))
        | inr i ↦ let (q, j, z) = live-IsShown now t p rs i in (q, inr j, z)
      ]
]

IsShown-live :
    (now timeout : ℤ) (p : PeerStatus) (r : RecentPeer) (rs : List RecentPeer)
    → In r rs
    → IsShown now timeout p r
    → In p (active_peer_statuses (expire_peers now timeout rs))
unfolding active_peer_statuses expire_peers is_stale
IsShown-live now t p r [] m z = absurd m
IsShown-live now t p r (x ∷ xs) (inl h) (live, e) =
    let fresh : leb_ℤ t (now -ℤ r.last_seen_elapsed_ms) ≡ false = ground arith in
    rw (sym h, fresh) (inl e)
IsShown-live now t p r (x ∷ xs) (inr i) z = ground (arith, IsShown-live now t p r xs i z)

-- After a history of heartbeats and expiry, exactly those statuses are shown that the latest heartbeat
-- of a configured peer brought, less than the timeout ago.
pub active_peer_statuses-recent_of :
    (config : Config) (now timeout : ℤ) (hs : List Heard) (p : PeerStatus)
    → In p (active_peer_statuses (expire_peers now timeout (recent_of config hs))) ↔ (
        (at : ℤ) × IsConfigured config p.node_id
        × LastHeard p.node_id p at hs
        × (now -ℤ at <ℤ timeout))
active_peer_statuses-recent_of config now timeout hs p = (
  λ m.
      let (r, i, (live, e)) = live-IsShown now timeout p (recent_of config hs) m in
      let (c, l) = In-IsHeard config hs r i in
      let id : p.node_id ≡ r.key =
        ap (λ (x : PeerStatus). x.node_id) e
        ∙ LastHeard-node_id r.key r.status r.last_seen_elapsed_ms hs l in
      (
        r.last_seen_elapsed_ms,
        (c.0, c.1, c.2 ∙ sym id),
        subst (λ q. LastHeard p.node_id q r.last_seen_elapsed_ms hs) (sym e)
            (subst (λ k. LastHeard k r.status r.last_seen_elapsed_ms hs) (sym id) l),
        live,
      ),
  λ (at, c, l, live).
      let r : RecentPeer = record { key = p.node_id; status = p; last_seen_elapsed_ms = at } in
      IsShown-live now timeout p r (recent_of config hs) (IsHeard-In config hs r (c, l))
        (live, refl),
)
