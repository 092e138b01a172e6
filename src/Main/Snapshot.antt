-- ===== src/Main/Snapshot.antt =====
-- buildHttpSnapshotFromLoopResult: what the local API shows of the daemon's loop.
pub mod Secrets
use easy_failover.Base.{
  ℕ, suc, ◌+◌, ltb, pos, Text, codes, Bool, true, false, Option, none, some, List, [], ◌∷◌, ◌++◌,
  length, is_empty, if◌then◌else◌,
}
use easy_failover.Core.NodeState.{NodeState, backup}
use easy_failover.Core.Decision.{
  PeerStatus, LocalNodeStatus, FailoverDecision, stay_backup, no_reason, is_master,
}
use easy_failover.Config.{Config}
use easy_failover.Health.{HealthCheckResult, healthy, unhealthy}
use easy_failover.Platform.VipManager.{VipOperationResult}
use easy_failover.Runtime.Lifecycle.{
  DaemonLifecycleResult, DaemonLifecycleState, stopped, running, faulted, text,
}
use easy_failover.Runtime.Log.{RuntimeLogContext}
use easy_failover.Runtime.Observations.{
  DaemonLoopResult, FailoverDecisionObservation, max_iterations,
}
use easy_failover.Api.Data.{LocalApiEvent, LocalApiHttpSnapshot}
use easy_failover.Api.Status.{build_local_api_status_response}
use easy_failover.Api.View.{build_local_api_config_response}
use easy_failover.Api.Events.{
  build_local_api_lifecycle_event, build_local_api_vip_operation_event,
  build_local_api_events_response,
}

-- back() of the decisions, if there is one.
latest : {A : Type 0} → List A → Option A
latest [] = none
latest (x ∷ []) = some x
latest (x ∷ (y ∷ ys)) = latest (y ∷ ys)

is_stopped : DaemonLifecycleState → Bool
is_stopped stopped = true
is_stopped running = false
is_stopped faulted = false

-- The lifecycle without a decision.
undecided_lifecycle : Config → DaemonLoopResult → DaemonLifecycleResult
unfolding is_stopped
undecided_lifecycle config loop_result = record {
  initial_state = loop_result.initial_state;
  final_state = loop_result.final_state;
  started = ltb 0 loop_result.iterations_ran;
  iteration_ran = ltb 0 loop_result.iterations_ran;
  was_stopped = is_stopped loop_result.final_state;
  validation_errors = loop_result.validation_errors;
  vip_operations = loop_result.vip_operations;
  local_vip_owner_known = false;
  local_vip_owner = false;
  local_status = record {
    node_id = config.node_id;
    priority = config.priority;
    healthy = true;
    state = backup;
  };
  failover_decision = record { action = stay_backup; selected_master = none; reason = no_reason };
  detail = loop_result.detail;
}

lifecycle_snapshot :
    Config → DaemonLoopResult → Option FailoverDecisionObservation → DaemonLifecycleResult
unfolding undecided_lifecycle is_master
lifecycle_snapshot config loop_result none = undecided_lifecycle config loop_result
lifecycle_snapshot config loop_result (some latest_decision) =
    record (undecided_lifecycle config loop_result) {
      local_status = latest_decision.local_status;
      failover_decision = latest_decision.decision;
      local_vip_owner = is_master latest_decision.local_status.state;
      local_vip_owner_known = true;
    }

pool_of : Option FailoverDecisionObservation → List PeerStatus
pool_of none = []
pool_of (some latest_decision) = latest_decision.peer_statuses

node_state_of : Option FailoverDecisionObservation → NodeState
node_state_of none = backup
node_state_of (some latest_decision) = latest_decision.local_status.state

unevaluated_health : Config → HealthCheckResult
unevaluated_health config =
    if is_empty config.health.command
    then record { status = healthy; detail = codes "no health command configured" }
    else record { status = unhealthy; detail = codes "health check not evaluated" }

-- The loop over the VIP operations, from an index on.
operation_events : ℕ → List VipOperationResult → List LocalApiEvent
operation_events index [] = []
operation_events index (operation ∷ more) =
    build_local_api_vip_operation_event (index + 2) operation index
    ∷ operation_events (suc index) more

snapshot_at :
    Config → DaemonLoopResult → Bool → Option FailoverDecisionObservation → LocalApiHttpSnapshot
unfolding lifecycle_snapshot pool_of node_state_of unevaluated_health operation_events
snapshot_at config loop_result dry_run decision =
    let lifecycle = lifecycle_snapshot config loop_result decision in
    let pool = pool_of decision in
    record {
      status =
          build_local_api_status_response config lifecycle (unevaluated_health config)
            (node_state_of decision) dry_run (length pool) pool;
      config = build_local_api_config_response config;
      events = build_local_api_events_response (
          build_local_api_lifecycle_event 1 lifecycle
            (record { node_id = config.node_id; dry_run = dry_run })
          ∷ operation_events 0 loop_result.vip_operations);
    }

pub build_http_snapshot_from_loop_result : Config → DaemonLoopResult → Bool → LocalApiHttpSnapshot
unfolding snapshot_at latest
build_http_snapshot_from_loop_result config loop_result dry_run =
    snapshot_at config loop_result dry_run (latest loop_result.failover_decisions)

pub initial_loop_result : DaemonLoopResult
initial_loop_result = record {
  initial_state = stopped;
  final_state = stopped;
  stop_reason = max_iterations;
  iterations_ran = 0;
  validation_errors = [];
  vip_operations = [];
  health_schedules = [];
  heartbeat_send_schedules = [];
  heartbeat_sends = [];
  heartbeat_receive_states = [];
  failover_decisions = [];
  detail = text (codes "daemon starting");
}
