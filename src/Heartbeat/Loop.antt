-- ===== src/Heartbeat/Loop.antt =====
-- heartbeat/HeartbeatLoop.hpp and .cpp: send to every peer, then receive at most one datagram.
pub mod Attempted
use easy_failover.Base.{ℤ, Text, Bool, true, false, Option, none, some, List, [], ◌∷◌}
use easy_failover.Base.Result.{Result, ok, throw}
use easy_failover.Toml.{Toml}
use easy_failover.Config.{PeerConfig}
use easy_failover.Core.Decision.{LocalNodeStatus, PeerStatus}
use easy_failover.Heartbeat.Message.{
  HeartbeatMessage, HeartbeatError, serialize_heartbeat_message, parse_heartbeat_message,
  peer_status_from_heartbeat,
}
use easy_failover.Heartbeat.Transport.{
  HeartbeatTransport, HeartbeatDatagram, HeartbeatReceiveResult,
}

pub record HeartbeatSendObservation : Type 0 where
  pub peer_id : Text
  pub peer_address : Text
  pub sent : Bool
  pub error : Text

-- An error of a receive is the transport's text or a message that does not parse.
pub data ReceiveError : Type 0 where
  transport_error : Text → ReceiveError
  message_error : HeartbeatError → ReceiveError

-- `error.empty()`: the texts of the parser's errors are not empty.
unfoldable pub no_error : ReceiveError → Bool
no_error (transport_error []) = true
no_error (transport_error (c ∷ cs)) = false
no_error (message_error e) = false

pub record HeartbeatReceiveObservation : Type 0 where
  pub attempted : Bool
  pub timed_out : Bool
  pub timeout_ms : ℤ
  pub peer_address : Text
  pub payload : Text
  pub peer_status : Option PeerStatus
  pub error : ReceiveError

pub record HeartbeatLoopResult : Type 0 where
  pub sends : List HeartbeatSendObservation
  pub receive : HeartbeatReceiveObservation

module _ (T : Toml) {W : Type 0} (transport : HeartbeatTransport W) where
  pub send_all : List PeerConfig → Text → W → List HeartbeatSendObservation × W
  send_all [] payload w = ([], w)
  send_all (p ∷ ps) payload w =
      let (r, w1) = transport.send p.address payload w in
      let (rest, w2) = send_all ps payload w1 in
      (
        record { peer_id = p.id; peer_address = r.peer_address; sent = r.sent; error = r.error }
            ∷ rest,
        w2,
      )

  -- The observation of a received datagram, whose message parses or does not.
  pub observe_message :
      HeartbeatReceiveResult
      → HeartbeatDatagram
      → Result HeartbeatError HeartbeatMessage
      → HeartbeatReceiveObservation
  observe_message r d (ok m) = record {
    attempted = true;
    timed_out = r.timed_out;
    timeout_ms = r.timeout_ms;
    peer_address = d.peer_address;
    payload = d.payload;
    peer_status = some (peer_status_from_heartbeat m);
    error = transport_error r.error;
  }
  observe_message r d (throw e) = record {
    attempted = true;
    timed_out = r.timed_out;
    timeout_ms = r.timeout_ms;
    peer_address = d.peer_address;
    payload = d.payload;
    peer_status = none;
    error = message_error e;
  }

  pub observe_receive : HeartbeatReceiveResult → HeartbeatReceiveObservation
  unfolding observe_message
  observe_receive r = elim r.datagram [
    | none ↦ record {
      attempted = true;
      timed_out = r.timed_out;
      timeout_ms = r.timeout_ms;
      peer_address = [];
      payload = [];
      peer_status = none;
      error = transport_error r.error;
    }
    | some d ↦ observe_message r d (parse_heartbeat_message T d.payload)
  ]

  unfoldable pub run_heartbeat_loop_once :
      LocalNodeStatus → List PeerConfig → ℤ → W → HeartbeatLoopResult × W
  unfolding observe_receive send_all
  run_heartbeat_loop_once local peers receive_timeout_ms w =
      let payload = serialize_heartbeat_message T (record {
        node_id = local.node_id;
        priority = local.priority;
        healthy = local.healthy;
        state = local.state;
      }) in
      let (sends, w1) = send_all peers payload w in
      let (received, w2) = transport.receive receive_timeout_ms w1 in
      (record { sends = sends; receive = observe_receive received }, w2)
