-- ===== src/Api/Results.antt =====
-- The results of the apply endpoint.
use easy_failover.Base.{ℕ, Text, codes, true, false, List, []}
use easy_failover.Api.Data.{
  LocalApiConfigApplyOutcome, applied, validation_failed, bad_request, internal_error,
  LocalApiConfigApplyResult,
}
use easy_failover.Api.Write.Paths.{backup_of}

unfoldable pub auth_failure_apply_result :
    LocalApiConfigApplyOutcome → ℕ → Text → Text → LocalApiConfigApplyResult
auth_failure_apply_result outcome status_code audit_reason audit_detail = record {
  outcome = outcome;
  status_code = status_code;
  applied = false;
  errors = [];
  applied_path = [];
  backup_path = [];
  error_code = [];
  error_message = [];
  audit_outcome = codes "rejected";
  audit_reason = audit_reason;
  audit_detail = audit_detail;
}

unfoldable pub request_error_apply_result : Text → Text → Text → LocalApiConfigApplyResult
request_error_apply_result error_code error_message audit_detail = record {
  outcome = bad_request;
  status_code = 400;
  applied = false;
  errors = [];
  applied_path = [];
  backup_path = [];
  error_code = error_code;
  error_message = error_message;
  audit_outcome = codes "rejected";
  audit_reason = codes "bad_request";
  audit_detail = audit_detail;
}

unfoldable pub validation_failed_result : List Text → LocalApiConfigApplyResult
validation_failed_result errors = record {
  outcome = validation_failed;
  status_code = 200;
  applied = false;
  errors = errors;
  applied_path = [];
  backup_path = [];
  error_code = [];
  error_message = [];
  audit_outcome = codes "rejected";
  audit_reason = codes "validation_failed";
  audit_detail = codes "submitted config failed validation";
}

unfoldable pub internal_error_result : Text → Text → LocalApiConfigApplyResult
internal_error_result error_message audit_detail = record {
  outcome = internal_error;
  status_code = 500;
  applied = false;
  errors = [];
  applied_path = [];
  backup_path = [];
  error_code = codes "internal_error";
  error_message = error_message;
  audit_outcome = codes "error";
  audit_reason = codes "internal_error";
  audit_detail = audit_detail;
}

unfoldable pub applied_result : Text → LocalApiConfigApplyResult
applied_result config_path = record {
  outcome = applied;
  status_code = 200;
  applied = true;
  errors = [];
  applied_path = config_path;
  backup_path = backup_of config_path;
  error_code = [];
  error_message = [];
  audit_outcome = codes "applied";
  audit_reason = codes "ok";
  audit_detail = codes "config persisted; takes effect on restart";
}
