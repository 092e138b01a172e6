-- ===== src/Heartbeat/Loop/Attempted.antt =====
-- A cycle of the heartbeat loop always waits for a datagram.
use easy_failover.Base.{ℤ, ◌≡◌, refl, true, Option, none, some, List}
use easy_failover.Base.Result.{Result, ok, throw}
use easy_failover.Toml.{Toml}
use easy_failover.Config.{PeerConfig}
use easy_failover.Core.Decision.{LocalNodeStatus}
use easy_failover.Heartbeat.Message.{HeartbeatMessage, HeartbeatError, parse_heartbeat_message}
use easy_failover.Heartbeat.Transport.{
  HeartbeatTransport, HeartbeatDatagram, HeartbeatReceiveResult,
}
use easy_failover.Heartbeat.Loop.{observe_message, observe_receive, run_heartbeat_loop_once}

module _ (T : Toml) {W : Type 0} (transport : HeartbeatTransport W) where
  observe_message-attempted :
      (r : HeartbeatReceiveResult) (d : HeartbeatDatagram)
      (m : Result HeartbeatError HeartbeatMessage)
      → (observe_message T transport r d m).attempted ≡ true
  unfolding observe_message
  observe_message-attempted r d (ok m) = refl
  observe_message-attempted r d (throw e) = refl

  observe_receive-attempted :
      (r : HeartbeatReceiveResult) (o : Option HeartbeatDatagram)
      → r.datagram ≡ o
      → (observe_receive T transport r).attempted ≡ true
  unfolding observe_receive
  observe_receive-attempted r none e = rw (e, observe_receive) refl
  observe_receive-attempted r (some d) e =
      rw (e, observe_receive) (observe_message-attempted r d (parse_heartbeat_message T d.payload))

  pub run_heartbeat_loop_once-attempted :
      (local : LocalNodeStatus) (peers : List PeerConfig) (timeout_ms : ℤ) (w : W)
      → (run_heartbeat_loop_once T transport local peers timeout_ms w).0.receive.attempted ≡ true
  unfolding run_heartbeat_loop_once
  run_heartbeat_loop_once-attempted local peers timeout_ms w = observe_receive-attempted _ _ refl
