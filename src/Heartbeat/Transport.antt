-- ===== src/Heartbeat/Transport.antt =====
-- heartbeat/HeartbeatTransport.hpp and .cpp.
use easy_failover.Base.{ℤ, Text, codes, Bool, false, Option, none}

pub record HeartbeatDatagram : Type 0 where
  pub peer_address : Text
  pub payload : Text

pub record HeartbeatSendResult : Type 0 where
  pub sent : Bool
  pub peer_address : Text
  pub payload : Text
  pub error : Text

pub record HeartbeatReceiveResult : Type 0 where
  pub datagram : Option HeartbeatDatagram
  pub timed_out : Bool
  pub timeout_ms : ℤ
  pub error : Text

-- class HeartbeatTransport, over the state of the world.
pub record HeartbeatTransport (W : Type 0) : Type 0 where
  pub send : Text → Text → W → HeartbeatSendResult × W
  pub receive : ℤ → W → HeartbeatReceiveResult × W

disabled_error : Text
disabled_error = codes "heartbeat transport is disabled"

-- DisabledHeartbeatTransport
pub disabled_transport : (W : Type 0) → HeartbeatTransport W
unfolding disabled_error
disabled_transport W = record {
  send = λ address payload w. (
    record { sent = false; peer_address = address; payload = payload; error = disabled_error },
    w,
  );
  receive = λ timeout w. (
    record { datagram = none; timed_out = false; timeout_ms = timeout; error = disabled_error },
    w,
  );
}
