-- ===== src/Discovery/PeerTable.antt =====
-- discovery/PeerTable.hpp and .cpp. The table is a hash map, whose order of iteration is not
-- specified: here it is a list of entries with distinct keys.
pub mod Fresh
pub mod History
use easy_failover.Base.{
  ℤ, ◌-ℤ◌, ltb_ℤ, Text, eqb, Bool, not, ◌&&◌, List, [], ◌∷◌, is_empty, if◌then◌else◌,
}
use easy_failover.Core.Decision.{PeerStatus}
use easy_failover.Discovery.Beacon.{Beacon, peer_status_from_beacon}

pub record Entry : Type 0 where
  pub key : Text
  pub beacon : Beacon
  pub last_seen_ms : ℤ

abbrev pub PeerTable : Type 0
PeerTable = List Entry

unfoldable pub identity_of : Beacon → Text
identity_of b = if not (is_empty b.mac) then b.mac else b.node_id

-- entries_[key] = Entry{beacon, now_ms}: the entry of the key is replaced, or a new one added.
pub put_entry : Entry → PeerTable → PeerTable
put_entry e [] = e ∷ []
put_entry e (x ∷ xs) = if eqb x.key e.key then e ∷ xs else x ∷ put_entry e xs

pub observe : Beacon → ℤ → PeerTable → PeerTable
unfolding put_entry identity_of
observe beacon now_ms table =
    let key = identity_of beacon in
    if is_empty key
    then table
    else put_entry (record { key = key; beacon = beacon; last_seen_ms = now_ms }) table

pub active_peers : ℤ → ℤ → Text → PeerTable → List PeerStatus
active_peers now_ms timeout_ms self [] = []
active_peers now_ms timeout_ms self (e ∷ es) =
    let rest = active_peers now_ms timeout_ms self es in
    if not (is_empty self) && eqb e.key self
    then rest
    else if ltb_ℤ timeout_ms (now_ms -ℤ e.last_seen_ms)
    then rest
    else peer_status_from_beacon e.beacon ∷ rest

pub prune : ℤ → ℤ → PeerTable → PeerTable
prune now_ms timeout_ms [] = []
prune now_ms timeout_ms (e ∷ es) =
    let rest = prune now_ms timeout_ms es in
    if ltb_ℤ timeout_ms (now_ms -ℤ e.last_seen_ms) then rest else e ∷ rest
