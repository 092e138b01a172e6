-- ===== src/Discovery.antt =====
-- discovery/: the signed beacon, its signature and the table of discovered peers.
pub mod Sha256
pub mod Hmac
pub mod Beacon
pub mod PeerTable
pub mod Udp
mod Tests
