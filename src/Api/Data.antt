-- ===== src/Api/Data.antt =====
-- The structs of api/LocalApi.hpp.
use easy_failover.Base.{ℕ, ℤ, Text, codes, Bool, List}

pub data LocalApiStartupState : Type 0 where
  disabled ready rejected : LocalApiStartupState

pub record LocalApiStartupResult : Type 0 where
  pub state : LocalApiStartupState
  pub bind : Text
  pub detail : Text

pub record LocalApiStatusNode : Type 0 where
  pub id : Text
  pub priority : ℤ
  pub state : Text
  pub healthy : Bool

pub record LocalApiStatusVip : Type 0 where
  pub address : Text
  pub interface : Text
  pub local_owner : Bool

pub record LocalApiStatusLifecycle : Type 0 where
  pub initial_state : Text
  pub final_state : Text
  pub detail : Text
  pub dry_run : Bool
  pub started : Bool
  pub iteration_ran : Bool
  pub stopped : Bool

pub record LocalApiStatusHeartbeat : Type 0 where
  pub bind : Text
  pub interval_ms : ℤ
  pub timeout_ms : ℤ
  pub peers_observed : ℕ

pub record LocalApiStatusHealth : Type 0 where
  pub status : Text
  pub detail : Text

pub record LocalApiStatusPoolMember : Type 0 where
  pub node_id : Text
  pub priority : ℤ
  pub healthy : Bool
  pub state : Text

pub record LocalApiStatusResponse : Type 0 where
  pub node : LocalApiStatusNode
  pub vip : LocalApiStatusVip
  pub lifecycle : LocalApiStatusLifecycle
  pub heartbeat : LocalApiStatusHeartbeat
  pub health : LocalApiStatusHealth
  pub pool : List LocalApiStatusPoolMember

pub record LocalApiConfigVip : Type 0 where
  pub address : Text
  pub interface : Text

pub record LocalApiConfigHeartbeat : Type 0 where
  pub bind : Text
  pub interval_ms : ℤ
  pub timeout_ms : ℤ

pub record LocalApiConfigHealth : Type 0 where
  pub command_redacted : Bool
  pub interval_ms : ℤ
  pub timeout_ms : ℤ

pub record LocalApiConfigElection : Type 0 where
  pub require_quorum : Bool
  pub preempt : Bool
  pub quorum_size : ℤ

pub record LocalApiConfigApi : Type 0 where
  pub enabled : Bool
  pub bind : Text
  pub read_only : Bool
  pub auth_token_configured : Bool

pub record LocalApiConfigMutationSafety : Type 0 where
  pub allow_network_mutation : Bool

pub record LocalApiConfigPeer : Type 0 where
  pub id : Text
  pub address : Text

pub record LocalApiConfigResponse : Type 0 where
  pub node_id : Text
  pub priority : ℤ
  pub vip : LocalApiConfigVip
  pub heartbeat : LocalApiConfigHeartbeat
  pub health : LocalApiConfigHealth
  pub election : LocalApiConfigElection
  pub api : LocalApiConfigApi
  pub mutation_safety : LocalApiConfigMutationSafety
  pub peers : List LocalApiConfigPeer

pub record LocalApiConfigValidateRequest : Type 0 where
  pub format : Text
  pub config : Text

pub data LocalApiConfigValidateOutcome : Type 0 where
  completed request_error : LocalApiConfigValidateOutcome

pub record LocalApiConfigValidateResponse : Type 0 where
  pub outcome : LocalApiConfigValidateOutcome
  pub valid : Bool
  pub errors : List Text
  pub error_code : Text
  pub error_message : Text

-- `bad_request` is RequestError and `internal_error` is InternalError.
pub data LocalApiConfigApplyOutcome : Type 0 where
  applied validation_failed bad_request unauthorized forbidden internal_error :
      LocalApiConfigApplyOutcome

pub record LocalApiConfigApplyResult : Type 0 where
  pub outcome : LocalApiConfigApplyOutcome
  pub status_code : ℕ
  pub applied : Bool
  pub errors : List Text
  pub applied_path : Text
  pub backup_path : Text
  pub error_code : Text
  pub error_message : Text
  pub audit_outcome : Text
  pub audit_reason : Text
  pub audit_detail : Text

pub record LocalApiWriteContext : Type 0 where
  pub write_enabled : Bool
  pub config_path : Text
  pub auth_token : Text

pub data LocalApiEventFieldValue : Type 0 where
  string_value : Text → LocalApiEventFieldValue
  bool_value : Bool → LocalApiEventFieldValue
  int_value : ℤ → LocalApiEventFieldValue

pub record LocalApiEventField : Type 0 where
  pub name : Text
  pub value : LocalApiEventFieldValue

pub record LocalApiEvent : Type 0 where
  pub sequence : ℕ
  pub event : Text
  pub level : Text
  pub message : Text
  pub fields : List LocalApiEventField

pub record LocalApiEventsResponse : Type 0 where
  pub events : List LocalApiEvent

pub record LocalApiHttpRequest : Type 0 where
  pub method : Text
  pub path : Text
  pub body : Text
  pub authorization : Text

pub record LocalApiHttpResponse : Type 0 where
  pub status_code : ℕ
  pub content_type : Text
  pub body : Text

pub record LocalApiHttpSnapshot : Type 0 where
  pub status : LocalApiStatusResponse
  pub config : LocalApiConfigResponse
  pub events : LocalApiEventsResponse

pub record LocalApiHttpServeResult : Type 0 where
  pub started : Bool
  pub served_request : Bool
  pub error : Text

unfoldable pub validate_outcome_to_string : LocalApiConfigValidateOutcome → Text
unfolding codes
validate_outcome_to_string completed = codes "completed"
validate_outcome_to_string request_error = codes "request_error"
