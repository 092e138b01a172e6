-- ===== src/Heartbeat.antt =====
-- heartbeat/: the message, the transport and one round of the heartbeat loop.
pub mod Message
pub mod Transport
pub mod Endpoint
pub mod Udp
pub mod Loop
