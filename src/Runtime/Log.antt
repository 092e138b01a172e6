-- ===== src/Runtime/Log.antt =====
-- runtime/RuntimeLog.hpp and RuntimeLog.cpp: the texts of the runtime's events; and the texts that
-- `Reason` and `Detail` stand for.
use easy_failover.Base.{
  ℕ, ◌+◌, ◌-◌, ◌/◌, ◌%◌, ltb, ◌==◌, Text, codes, Bool, ◌||◌, [], ◌∷◌, ◌++◌, length, if◌then◌else◌,
}
use easy_failover.Base.Decimal.{decimal, decimal_ℤ}
use easy_failover.Base.Search.{join}
use easy_failover.Config.Decode.{value_or}
use easy_failover.Core.NodeState.{to_string}
use easy_failover.Core.Decision.{
  Reason, no_reason, local_unhealthy, quorum_lost, no_quorum, local_remains, local_highest,
  defers_to_master, incumbent_retains, peer_highest, peer_remains, action_to_string,
}
use easy_failover.Platform.VipManager.{VipOperationResult, operation_to_string}
use easy_failover.Runtime.Lifecycle.{
  DaemonLifecycleResult, DaemonLifecycleState, stopped, running, faulted, Detail, text,
  decision_reason,
}
use easy_failover.Runtime.Observations.{
  DaemonLoopResult, DaemonLoopStopReason, max_iterations, shutdown_requested, lifecycle_faulted,
}

pub record RuntimeLogContext : Type 0 where
  pub node_id : Text
  pub dry_run : Bool

reason_text : Reason → Text
reason_text no_reason = []
reason_text local_unhealthy = codes "local node is unhealthy"
reason_text (quorum_lost observed need) = join (
    codes "quorum lost; releasing VIP (observed="
    ∷ decimal_ℤ observed
    ∷ codes ", need="
    ∷ decimal_ℤ need
    ∷ codes ")"
    ∷ [])
reason_text (no_quorum observed need) = join (
    codes "no quorum; refusing to claim VIP (observed="
    ∷ decimal_ℤ observed
    ∷ codes ", need="
    ∷ decimal_ℤ need
    ∷ codes ")"
    ∷ [])
reason_text local_remains = codes "local node remains highest-priority healthy candidate"
reason_text local_highest = codes "local node is highest-priority healthy candidate"
reason_text defers_to_master = codes "preempt disabled; deferring to existing healthy master"
reason_text incumbent_retains = codes "preempt disabled; incumbent master retains VIP"
reason_text peer_highest = codes "peer is highest-priority healthy candidate"
reason_text peer_remains = codes "peer remains highest-priority healthy candidate"

unfoldable pub detail_text : Detail → Text
unfolding reason_text
detail_text (text t) = t
detail_text (decision_reason r) = reason_text r

unfoldable pub lifecycle_state_to_string : DaemonLifecycleState → Text
lifecycle_state_to_string stopped = codes "stopped"
lifecycle_state_to_string running = codes "running"
lifecycle_state_to_string faulted = codes "faulted"

unfoldable pub stop_reason_to_string : DaemonLoopStopReason → Text
stop_reason_to_string max_iterations = codes "max_iterations"
stop_reason_to_string shutdown_requested = codes "shutdown_requested"
stop_reason_to_string lifecycle_faulted = codes "lifecycle_faulted"

bool_value : Bool → Text
bool_value value = if value then codes "true" else codes "false"

upper_hex_digit : ℕ → ℕ
upper_hex_digit n = if ltb n 10 then b'0' + n else b'A' + (n - 10)

quoted_char : ℕ → Text
unfolding upper_hex_digit
quoted_char c =
    if c == b'\n'
    then codes "\\n"
    else if c == b'\r'
    then codes "\\r"
    else if c == b'\t'
    then codes "\\t"
    else if (c == b'\\') || (c == b'"')
    then b'\\' ∷ (c ∷ [])
    else if ltb c 0x20 || (c == 0x7F)
    then codes "\\x" ++ (upper_hex_digit (c / 16) ∷ (upper_hex_digit (c % 16) ∷ []))
    else c ∷ []

quoted_chars : Text → Text
unfolding quoted_char
quoted_chars [] = []
quoted_chars (c ∷ cs) = quoted_char c ++ quoted_chars cs

pub quoted_value : Text → Text
unfolding quoted_chars
quoted_value value = b'"' ∷ (quoted_chars value ++ b'"' ∷ [])

pub format_runtime_lifecycle_event : DaemonLifecycleResult → RuntimeLogContext → Text
unfolding quoted_value bool_value
format_runtime_lifecycle_event result context = join (
    codes "event=daemon_lifecycle_result node_id="
    ∷ quoted_value context.node_id
    ∷ codes " initial_state="
    ∷ lifecycle_state_to_string result.initial_state
    ∷ codes " final_state="
    ∷ lifecycle_state_to_string result.final_state
    ∷ codes " started="
    ∷ bool_value result.started
    ∷ codes " iteration_ran="
    ∷ bool_value result.iteration_ran
    ∷ codes " stopped="
    ∷ bool_value result.was_stopped
    ∷ codes " dry_run="
    ∷ bool_value context.dry_run
    ∷ codes " validation_errors="
    ∷ decimal (length result.validation_errors)
    ∷ codes " vip_operations="
    ∷ decimal (length result.vip_operations)
    ∷ codes " local_vip_owner_known="
    ∷ bool_value result.local_vip_owner_known
    ∷ codes " local_vip_owner="
    ∷ bool_value result.local_vip_owner
    ∷ codes " local_node_state="
    ∷ to_string result.local_status.state
    ∷ codes " failover_action="
    ∷ action_to_string result.failover_decision.action
    ∷ codes " selected_master="
    ∷ quoted_value (value_or result.failover_decision.selected_master [])
    ∷ codes " failover_reason="
    ∷ quoted_value (reason_text result.failover_decision.reason)
    ∷ codes " detail="
    ∷ quoted_value (detail_text result.detail)
    ∷ [])

pub format_runtime_loop_event : DaemonLoopResult → RuntimeLogContext → Text
unfolding quoted_value bool_value
format_runtime_loop_event result context = join (
    codes "event=daemon_loop_result node_id="
    ∷ quoted_value context.node_id
    ∷ codes " initial_state="
    ∷ lifecycle_state_to_string result.initial_state
    ∷ codes " final_state="
    ∷ lifecycle_state_to_string result.final_state
    ∷ codes " stop_reason="
    ∷ stop_reason_to_string result.stop_reason
    ∷ codes " iterations_ran="
    ∷ decimal result.iterations_ran
    ∷ codes " dry_run="
    ∷ bool_value context.dry_run
    ∷ codes " validation_errors="
    ∷ decimal (length result.validation_errors)
    ∷ codes " vip_operations="
    ∷ decimal (length result.vip_operations)
    ∷ codes " health_schedules="
    ∷ decimal (length result.health_schedules)
    ∷ codes " heartbeat_send_schedules="
    ∷ decimal (length result.heartbeat_send_schedules)
    ∷ codes " heartbeat_sends="
    ∷ decimal (length result.heartbeat_sends)
    ∷ codes " heartbeat_receive_states="
    ∷ decimal (length result.heartbeat_receive_states)
    ∷ codes " failover_decisions="
    ∷ decimal (length result.failover_decisions)
    ∷ codes " detail="
    ∷ quoted_value (detail_text result.detail)
    ∷ [])

pub format_runtime_vip_operation_event : VipOperationResult → ℕ → Text
unfolding quoted_value bool_value
format_runtime_vip_operation_event result zero_based_index = join (
    codes "event=vip_operation zero_based_index="
    ∷ decimal zero_based_index
    ∷ codes " operation="
    ∷ operation_to_string result.request.type
    ∷ codes " address="
    ∷ quoted_value result.request.address
    ∷ codes " interface="
    ∷ quoted_value result.request.interface
    ∷ codes " request_dry_run="
    ∷ bool_value result.request.dry_run
    ∷ codes " result_dry_run="
    ∷ bool_value result.dry_run
    ∷ codes " success="
    ∷ bool_value result.success
    ∷ codes " commands="
    ∷ decimal (length result.commands)
    ∷ codes " error="
    ∷ quoted_value result.error
    ∷ [])
