-- ===== src/Runtime/LoopData.antt =====
-- runtime/DaemonRuntime.hpp and .cpp: what runDaemonRuntimeLoop is given, the local variables of the
-- loop as the fields of `LoopState`, and the helpers of a round that do not call the environment.
use easy_failover.Base.{
  ℕ, ℤ, pos, ltb_ℤ, Text, eqb, Bool, not, ◌&&◌, Option, none, some, List, [], ◌∷◌, is_empty,
  if◌then◌else◌,
}
use easy_failover.Base.Result.{ok, throw}
use easy_failover.Config.{Config}
use easy_failover.Core.Decision.{LocalNodeStatus, PeerStatus}
use easy_failover.Discovery.Beacon.{Beacon, verify_signed_beacon}
use easy_failover.Discovery.PeerTable.{PeerTable, identity_of, observe}
use easy_failover.Heartbeat.Transport.{HeartbeatTransport}
use easy_failover.Heartbeat.Loop.{no_error}
use easy_failover.Platform.VipManager.{VipManager}
use easy_failover.Platform.Ownership.{VipOwnershipProbe}
use easy_failover.Runtime.Shutdown.{ShutdownHandle}
use easy_failover.Runtime.Lifecycle.{DaemonLifecycleState}
use easy_failover.Runtime.Observations.{
  DaemonLoopResult, HeartbeatSendScheduleObservation, HeartbeatReceiveStateObservation,
}
use easy_failover.Runtime.Peers.{RecentPeer, peer_is_configured, put_recent}

pub record DaemonLoopOptions : Type 0 where
  pub dry_run : Bool
  pub max_iterations : ℕ
  pub run_until_shutdown : Bool
  pub inter_iteration_delay_ms : ℤ
  pub logical_iteration_elapsed_ms : ℤ
  pub max_recorded_observations : ℕ

pub record DaemonLoopRequest (W : Type 0) : Type 0 where
  pub config : Config
  pub options : DaemonLoopOptions
  pub initial_state : DaemonLifecycleState
  pub shutdown_state : Option (ShutdownHandle W)
  pub config_prevalidated : Bool

-- class DiscoveryTransport, over the state of the world.
pub record DiscoveryTransport (W : Type 0) : Type 0 where
  pub broadcast : Text → W → W
  pub drain : W → List Text × W

pub record DiscoveryContext (W : Type 0) : Type 0 where
  pub transport : Option (DiscoveryTransport W)
  pub self_mac : Text
  pub secret : Text

-- The objects that the loop is given, and the sleep between two rounds.
pub record Environment (W : Type 0) : Type 0 where
  pub vip_manager : VipManager W
  pub ownership_probe : VipOwnershipProbe W
  pub heartbeat_transport : HeartbeatTransport W
  pub result_observer : Option (DaemonLoopResult → W → W)
  pub discovery : DiscoveryContext W
  pub sleep : ℤ → W → W

pub record LoopState : Type 0 where
  pub result : DaemonLoopResult
  pub current_state : DaemonLifecycleState
  pub elapsed_ms : ℤ
  pub health_check_was_due : Bool
  pub last_due_elapsed_ms : ℤ
  pub heartbeat_send_was_due : Bool
  pub last_heartbeat_send_due_elapsed_ms : ℤ
  pub recent_peers : List RecentPeer
  pub local_status : LocalNodeStatus
  pub real_mutation_warmup_complete : Bool
  pub discovery_peers : PeerTable
  pub discovery_seq : ℕ
  pub discovery_send_was_due : Bool
  pub last_discovery_send_elapsed_ms : ℤ

-- What a round ends with: a `return` of the loop, or the next round.
pub data Outcome : Type 0 where
  return : DaemonLoopResult → Outcome
  go_on : LoopState → Outcome

unfoldable pub effective_iteration_elapsed_ms : DaemonLoopOptions → ℤ
effective_iteration_elapsed_ms options =
    let elapsed_ms =
      if ltb_ℤ (pos 0) options.logical_iteration_elapsed_ms
      then options.logical_iteration_elapsed_ms
      else options.inter_iteration_delay_ms in
    if ltb_ℤ (pos 0) elapsed_ms then elapsed_ms else pos 0

unfoldable pub real_network_mutation_requested : Config → DaemonLoopOptions → Bool
real_network_mutation_requested config options =
    not options.dry_run && config.mutation_safety.allow_network_mutation

pub make_beacon : Config → Text → LocalNodeStatus → ℕ → Beacon
make_beacon config self_mac status seq = record {
  cluster = config.discovery.cluster;
  node_id = if is_empty status.node_id then config.node_id else status.node_id;
  mac = self_mac;
  priority = status.priority;
  address = config.heartbeat.bind;
  healthy = status.healthy;
  state = status.state;
  seq = seq;
}

-- A received heartbeat of a configured peer enters the map.
unfoldable pub remember : Config → ℤ → Option PeerStatus → List RecentPeer → List RecentPeer
remember config elapsed_ms none peers = peers
remember config elapsed_ms (some p) peers =
    if peer_is_configured config p.node_id
    then put_recent (record { key = p.node_id; status = p; last_seen_elapsed_ms = elapsed_ms })
        peers
    else peers

-- What the heartbeat part of a round hands on.
pub record HeartbeatRound : Type 0 where
  pub state : LoopState
  pub schedule : HeartbeatSendScheduleObservation
  pub receive : HeartbeatReceiveStateObservation
  pub transport_failed : Bool

-- A due heartbeat cycle that ended without an error completes the warm-up.
unfoldable pub warmed_up : HeartbeatRound → Bool
warmed_up h = h.schedule.due && h.receive.receive_attempted && no_error h.receive.error

-- One payload that `drain` returned.
pub ingest : Config → Text → Text → ℤ → Text → PeerTable → PeerTable
ingest config secret self_mac elapsed_ms payload table =
    elim (verify_signed_beacon payload secret config.discovery.cluster) [
      | throw e ↦ table
      | ok beacon ↦
          if eqb (identity_of beacon) self_mac then table else observe beacon elapsed_ms table
    ]

unfoldable pub ingest_all : Config → Text → Text → ℤ → List Text → PeerTable → PeerTable
unfolding ingest
ingest_all config secret self_mac elapsed_ms [] table = table
ingest_all config secret self_mac elapsed_ms (p ∷ ps) table =
    ingest_all config secret self_mac elapsed_ms ps
      (ingest config secret self_mac elapsed_ms p table)
