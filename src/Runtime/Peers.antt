-- ===== src/Runtime/Peers.antt =====
-- runtime/DaemonRuntime.cpp: the peers heard of lately. std::map iterates in the order of its keys,
-- so the map is a list that is sorted by node id.
pub mod Live
pub mod Sorted
use easy_failover.Base.{
  ℤ, ◌-ℤ◌, leb_ℤ, Text, eqb, before, Bool, List, [], ◌∷◌, any, map, if◌then◌else◌,
}
use easy_failover.Config.{Config}
use easy_failover.Core.Decision.{PeerStatus}

-- A key of the map with its RecentPeerStatus.
pub record RecentPeer : Type 0 where
  pub key : Text
  pub status : PeerStatus
  pub last_seen_elapsed_ms : ℤ

pub peer_is_configured : Config → Text → Bool
peer_is_configured config node_id = any (λ p. eqb p.id node_id) config.peers

-- recent_peers[key] = …
pub put_recent : RecentPeer → List RecentPeer → List RecentPeer
put_recent r [] = r ∷ []
put_recent r (x ∷ xs) =
    if eqb r.key x.key
    then r ∷ xs
    else if before r.key x.key
    then r ∷ x ∷ xs
    else x ∷ put_recent r xs

pub is_stale : ℤ → ℤ → RecentPeer → Bool
is_stale elapsed_ms timeout_ms r = leb_ℤ timeout_ms (elapsed_ms -ℤ r.last_seen_elapsed_ms)

unfoldable pub expire_peers : ℤ → ℤ → List RecentPeer → List RecentPeer
unfolding is_stale
expire_peers elapsed_ms timeout_ms [] = []
expire_peers elapsed_ms timeout_ms (r ∷ rs) =
    let rest = expire_peers elapsed_ms timeout_ms rs in
    if is_stale elapsed_ms timeout_ms r then rest else r ∷ rest

unfoldable pub active_peer_statuses : List RecentPeer → List PeerStatus
active_peer_statuses = map (λ r. r.status)
