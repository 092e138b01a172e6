-- ===== src/Runtime/Observations.antt =====
-- runtime/DaemonRuntime.hpp and .cpp: the observations of the loop, its result, and the vectors that
-- hold the latest observations only.
pub mod Bounds
use easy_failover.Base.{
  ℕ, ltb, ℤ, ◌-ℤ◌, leb_ℤ, Text, Bool, false, not, ◌&&◌, ◌||◌, Option, none, List, [], ◌∷◌, ◌++◌,
  length, any, drop, is_empty, if◌then◌else◌,
}
use easy_failover.Config.{Config}
use easy_failover.Core.Decision.{LocalNodeStatus, PeerStatus, FailoverDecision}
use easy_failover.Heartbeat.Loop.{
  HeartbeatLoopResult, HeartbeatSendObservation, ReceiveError, transport_error,
}
use easy_failover.Platform.VipManager.{VipOperationResult}
use easy_failover.Runtime.Lifecycle.{DaemonLifecycleState, Detail}

pub data DaemonLoopStopReason : Type 0 where
  max_iterations shutdown_requested lifecycle_faulted : DaemonLoopStopReason

pub record HealthScheduleObservation : Type 0 where
  pub iteration_index : ℕ
  pub elapsed_ms : ℤ
  pub interval_ms : ℤ
  pub due : Bool
  pub command_configured : Bool

pub record HeartbeatSendScheduleObservation : Type 0 where
  pub iteration_index : ℕ
  pub elapsed_ms : ℤ
  pub interval_ms : ℤ
  pub due : Bool
  pub peers_configured : Bool
  pub expected_send_count : ℕ

pub record HeartbeatReceiveStateObservation : Type 0 where
  pub iteration_index : ℕ
  pub elapsed_ms : ℤ
  pub receive_attempted : Bool
  pub timed_out : Bool
  pub timeout_ms : ℤ
  pub peer_address : Text
  pub peer_status : Option PeerStatus
  pub error : ReceiveError

pub record FailoverDecisionObservation : Type 0 where
  pub iteration_index : ℕ
  pub elapsed_ms : ℤ
  pub local_status : LocalNodeStatus
  pub peer_statuses : List PeerStatus
  pub decision : FailoverDecision

pub record DaemonLoopResult : Type 0 where
  pub initial_state : DaemonLifecycleState
  pub final_state : DaemonLifecycleState
  pub stop_reason : DaemonLoopStopReason
  pub iterations_ran : ℕ
  pub validation_errors : List Text
  pub vip_operations : List VipOperationResult
  pub health_schedules : List HealthScheduleObservation
  pub heartbeat_send_schedules : List HeartbeatSendScheduleObservation
  pub heartbeat_sends : List HeartbeatSendObservation
  pub heartbeat_receive_states : List HeartbeatReceiveStateObservation
  pub failover_decisions : List FailoverDecisionObservation
  pub detail : Detail

module _ {A : Type 0} where
  -- pushObservation: 0 means no limit; beyond the limit the oldest goes.
  pub push_observation : List A → A → ℕ → List A
  push_observation xs x limit =
      let pushed = xs ++ x ∷ [] in
      if ltb 0 limit && ltb limit (length pushed) then drop 1 pushed else pushed

  -- appendObservations
  pub append_observations : List A → List A → ℕ → List A
  unfolding push_observation
  append_observations xs [] limit = xs
  append_observations xs (y ∷ ys) limit = append_observations (push_observation xs y limit) ys limit

-- `!was_due || elapsed_ms - last_due >= interval`
unfoldable pub is_due : Bool → ℤ → ℤ → ℤ → Bool
is_due was_due elapsed_ms last_due interval_ms =
    not was_due || leb_ℤ interval_ms (elapsed_ms -ℤ last_due)

pub evaluate_health_schedule : Config → ℕ → ℤ → Bool → ℤ → HealthScheduleObservation
unfolding is_due
evaluate_health_schedule config index elapsed_ms was_due last_due = record {
  iteration_index = index;
  elapsed_ms = elapsed_ms;
  interval_ms = config.health.interval_ms;
  due = is_due was_due elapsed_ms last_due config.health.interval_ms;
  command_configured = not (is_empty config.health.command);
}

unfoldable pub evaluate_heartbeat_send_schedule :
    Config → ℕ → ℤ → Bool → ℤ → HeartbeatSendScheduleObservation
unfolding is_due
evaluate_heartbeat_send_schedule config index elapsed_ms was_due last_due = record {
  iteration_index = index;
  elapsed_ms = elapsed_ms;
  interval_ms = config.heartbeat.interval_ms;
  due = is_due was_due elapsed_ms last_due config.heartbeat.interval_ms;
  peers_configured = not (is_empty config.peers);
  expected_send_count = length config.peers;
}

unfoldable pub heartbeat_receive_state_from_loop_result :
    ℕ → ℤ → HeartbeatLoopResult → HeartbeatReceiveStateObservation
heartbeat_receive_state_from_loop_result index elapsed_ms r = record {
  iteration_index = index;
  elapsed_ms = elapsed_ms;
  receive_attempted = r.receive.attempted;
  timed_out = r.receive.timed_out;
  timeout_ms = r.receive.timeout_ms;
  peer_address = r.receive.peer_address;
  peer_status = r.receive.peer_status;
  error = r.receive.error;
}

-- The receive state of a round in which no heartbeat is due.
pub no_receive : ℕ → ℤ → ℤ → HeartbeatReceiveStateObservation
no_receive index elapsed_ms timeout_ms = record {
  iteration_index = index;
  elapsed_ms = elapsed_ms;
  receive_attempted = false;
  timed_out = false;
  timeout_ms = timeout_ms;
  peer_address = [];
  peer_status = none;
  error = transport_error [];
}

unfoldable pub heartbeat_send_failed : HeartbeatLoopResult → Bool
heartbeat_send_failed r = any (λ o. not o.sent || not (is_empty o.error)) r.sends
