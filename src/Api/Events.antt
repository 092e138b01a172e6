-- ===== src/Api/Events.antt =====
-- The events, the audit event of a write, and the JSON of events and results.
use easy_failover.Base.{
  ℕ, ℤ, pos, Text, codes, Bool, false, List, [], ◌∷◌, ◌++◌, map, length, if◌then◌else◌,
}
use easy_failover.Base.Decimal.{decimal, decimal_ℤ}
use easy_failover.Base.Search.{join}
use easy_failover.Core.NodeState.{to_string}
use easy_failover.Core.Decision.{action_to_string}
use easy_failover.Platform.VipManager.{VipOperationResult, operation_to_string}
use easy_failover.Runtime.Lifecycle.{DaemonLifecycleResult}
use easy_failover.Runtime.Log.{
  RuntimeLogContext, lifecycle_state_to_string, detail_text, format_runtime_lifecycle_event,
  format_runtime_vip_operation_event,
}
use easy_failover.Api.Data.{
  LocalApiEventFieldValue, string_value, bool_value, int_value, LocalApiEventField, LocalApiEvent,
  LocalApiEventsResponse, LocalApiHttpRequest, LocalApiConfigApplyResult,
  LocalApiConfigValidateResponse, validate_outcome_to_string,
}
use easy_failover.Api.Http.{trim_query_string}
use easy_failover.Api.Json.{json_string, json_bool, separated}

string_field : Text → Text → LocalApiEventField
string_field name value = record { name = name; value = string_value value }

bool_field : Text → Bool → LocalApiEventField
bool_field name value = record { name = name; value = bool_value value }

int_field : Text → ℤ → LocalApiEventField
int_field name value = record { name = name; value = int_value value }

size_field : Text → ℕ → LocalApiEventField
unfolding int_field
size_field name value = int_field name (pos value)

unfoldable pub build_local_api_events_response : List LocalApiEvent → LocalApiEventsResponse
build_local_api_events_response events = record { events = events }

pub build_local_api_lifecycle_event : ℕ → DaemonLifecycleResult → RuntimeLogContext → LocalApiEvent
unfolding string_field bool_field size_field
build_local_api_lifecycle_event sequence result context = record {
  sequence = sequence;
  event = codes "daemon_lifecycle_result";
  level = codes "info";
  message = format_runtime_lifecycle_event result context;
  fields =
      string_field (codes "node_id") context.node_id
      ∷ string_field (codes "initial_state") (lifecycle_state_to_string result.initial_state)
      ∷ string_field (codes "final_state") (lifecycle_state_to_string result.final_state)
      ∷ bool_field (codes "started") result.started
      ∷ bool_field (codes "iteration_ran") result.iteration_ran
      ∷ bool_field (codes "stopped") result.was_stopped
      ∷ bool_field (codes "dry_run") context.dry_run
      ∷ size_field (codes "validation_errors") (length result.validation_errors)
      ∷ size_field (codes "vip_operations") (length result.vip_operations)
      ∷ bool_field (codes "local_vip_owner_known") result.local_vip_owner_known
      ∷ bool_field (codes "local_vip_owner") result.local_vip_owner
      ∷ string_field (codes "local_node_state") (to_string result.local_status.state)
      ∷ string_field (codes "failover_action") (action_to_string result.failover_decision.action)
      ∷ string_field (codes "detail") (detail_text result.detail)
      ∷ [];
}

pub build_local_api_vip_operation_event : ℕ → VipOperationResult → ℕ → LocalApiEvent
unfolding string_field bool_field size_field
build_local_api_vip_operation_event sequence result zero_based_index = record {
  sequence = sequence;
  event = codes "vip_operation";
  level = codes "info";
  message = format_runtime_vip_operation_event result zero_based_index;
  fields =
      size_field (codes "zero_based_index") zero_based_index
      ∷ string_field (codes "operation") (operation_to_string result.request.type)
      ∷ string_field (codes "address") result.request.address
      ∷ string_field (codes "interface") result.request.interface
      ∷ bool_field (codes "request_dry_run") result.request.dry_run
      ∷ bool_field (codes "result_dry_run") result.dry_run
      ∷ bool_field (codes "success") result.success
      ∷ size_field (codes "commands") (length result.commands)
      ∷ [];
}

pub format_local_api_write_attempt_event : LocalApiHttpRequest → LocalApiConfigApplyResult → Text
format_local_api_write_attempt_event request result = join (
    codes "event=api_write_attempt actor="
    ∷ json_string (codes "bearer-token")
    ∷ codes " outcome="
    ∷ result.audit_outcome
    ∷ codes " reason="
    ∷ result.audit_reason
    ∷ codes " target="
    ∷ json_string (codes "config_apply")
    ∷ codes " method="
    ∷ request.method
    ∷ codes " path="
    ∷ json_string (trim_query_string request.path)
    ∷ codes " status="
    ∷ decimal result.status_code
    ∷ codes " dry_run=false detail="
    ∷ json_string result.audit_detail
    ∷ [])

pub build_local_api_write_attempt_event :
    ℕ → LocalApiHttpRequest → LocalApiConfigApplyResult → LocalApiEvent
unfolding string_field bool_field size_field format_local_api_write_attempt_event
build_local_api_write_attempt_event sequence request result = record {
  sequence = sequence;
  event = codes "api_write_attempt";
  level = if result.applied then codes "info" else codes "warn";
  message = format_local_api_write_attempt_event request result;
  fields =
      string_field (codes "actor") (codes "bearer-token")
      ∷ string_field (codes "outcome") result.audit_outcome
      ∷ string_field (codes "reason") result.audit_reason
      ∷ string_field (codes "target") (codes "config_apply")
      ∷ string_field (codes "method") request.method
      ∷ string_field (codes "path") (trim_query_string request.path)
      ∷ size_field (codes "status") result.status_code
      ∷ bool_field (codes "dry_run") false
      ∷ string_field (codes "detail") result.audit_detail
      ∷ [];
}

event_field_value_json : LocalApiEventFieldValue → Text
event_field_value_json (string_value t) = json_string t
event_field_value_json (bool_value b) = json_bool b
event_field_value_json (int_value n) = decimal_ℤ n

field_json : LocalApiEventField → Text
unfolding event_field_value_json
field_json field = json_string field.name ++ b':' ∷ event_field_value_json field.value

event_json : LocalApiEvent → Text
unfolding field_json
event_json event = join (
    codes "{\"sequence\":"
    ∷ decimal event.sequence
    ∷ codes ",\"event\":"
    ∷ json_string event.event
    ∷ codes ",\"level\":"
    ∷ json_string event.level
    ∷ codes ",\"message\":"
    ∷ json_string event.message
    ∷ codes ",\"fields\":{"
    ∷ separated (map field_json event.fields)
    ∷ codes "}}"
    ∷ [])

unfoldable pub serialize_local_api_events_response : LocalApiEventsResponse → Text
unfolding event_json
serialize_local_api_events_response response =
    join (codes "{\"events\":[" ∷ separated (map event_json response.events) ∷ codes "]}" ∷ [])

string_vector_json : List Text → Text
string_vector_json values = join (codes "[" ∷ separated (map json_string values) ∷ codes "]" ∷ [])

unfoldable pub serialize_local_api_config_validate_response : LocalApiConfigValidateResponse → Text
unfolding string_vector_json
serialize_local_api_config_validate_response response = join (
    codes "{\"outcome\":"
    ∷ json_string (validate_outcome_to_string response.outcome)
    ∷ codes ",\"valid\":"
    ∷ json_bool response.valid
    ∷ codes ",\"errors\":"
    ∷ string_vector_json response.errors
    ∷ codes ",\"error_code\":"
    ∷ json_string response.error_code
    ∷ codes ",\"error_message\":"
    ∷ json_string response.error_message
    ∷ codes "}"
    ∷ [])

unfoldable pub serialize_local_api_config_apply_result : LocalApiConfigApplyResult → Text
unfolding string_vector_json
serialize_local_api_config_apply_result result = join (
    codes "{\"applied\":"
    ∷ json_bool result.applied
    ∷ codes ",\"errors\":"
    ∷ string_vector_json result.errors
    ∷ codes ",\"applied_path\":"
    ∷ json_string result.applied_path
    ∷ codes ",\"backup_path\":"
    ∷ json_string result.backup_path
    ∷ codes ",\"effective\":"
    ∷ json_string (codes "daemon restart or reload required")
    ∷ codes ",\"detail\":"
    ∷ json_string (
        if result.applied
        then codes "config persisted and previous config backed up"
        else codes "config not applied")
    ∷ codes "}"
    ∷ [])
