-- ===== src/Api/Apply.antt =====
-- The validation and the application of a submitted config. An early return is the other result.
pub mod Checked
pub mod Safety
use easy_failover.Base.{
  ℕ, ltb, Text, codes, eqb, Bool, true, false, ◌||◌, not, Option, none, some, List, [], ◌∷◌, ◌++◌,
  length, is_empty, if◌then◌else◌,
}
use easy_failover.Base.Result.{Result, ok, throw, ◌>>=◌}
use easy_failover.Toml.{Toml}
use easy_failover.Config.{Config, validate}
use easy_failover.Config.Decode.{
  ConfigError, parse_error, decode_error, load_config_from_toml_string,
}
use easy_failover.Api.Data.{
  LocalApiConfigValidateRequest, LocalApiConfigValidateResponse, LocalApiConfigValidateOutcome,
  completed, request_error, LocalApiConfigApplyOutcome, applied, validation_failed, bad_request,
  unauthorized, forbidden, internal_error, LocalApiConfigApplyResult, LocalApiWriteContext,
  LocalApiHttpRequest,
}
use easy_failover.Api.Auth.{parse_bearer_token, constant_time_token_equals}
use easy_failover.Api.Http.{max_apply_body_bytes}
use easy_failover.Api.Json.{parse_json_string_value}
use easy_failover.Api.Write.{FileSystem, atomic_write_config_with_backup}
use easy_failover.Api.Write.Paths.{backup_of}
use easy_failover.Api.Results.{
  auth_failure_apply_result, request_error_apply_result, validation_failed_result,
  internal_error_result, applied_result,
}
use easy_failover.Api.Validate.{build_local_api_config_validate_response}

abbrev pub Checked : Type 0
Checked = Result LocalApiConfigApplyResult Text

-- The comparison of a presented token that was found.
unfoldable pub token_checked : Text → Option Text → Checked
token_checked auth_token none = throw (
    auth_failure_apply_result unauthorized 401 (codes "unauthorized")
      (codes "malformed authorization header"))
token_checked auth_token (some presented) =
    if is_empty auth_token || not (constant_time_token_equals presented auth_token)
    then throw
        (auth_failure_apply_result forbidden 403 (codes "forbidden") (codes "invalid credentials"))
    else ok presented

pub authenticated : LocalApiHttpRequest → LocalApiWriteContext → Checked
authenticated request write_context =
    if is_empty request.authorization
    then throw (
        auth_failure_apply_result unauthorized 401 (codes "unauthorized")
          (codes "missing bearer token"))
    else token_checked write_context.auth_token (parse_bearer_token request.authorization)

-- The size of the body and its two members; the text of the config.
submitted : LocalApiHttpRequest → (Text → Text → Checked) → Checked
submitted request go_on =
    let format = parse_json_string_value request.body (codes "format") in
    let config = parse_json_string_value request.body (codes "config") in
    if ltb max_apply_body_bytes (length request.body)
    then throw (
        request_error_apply_result (codes "payload_too_large")
          (codes "request body exceeds size limit") (codes "request body exceeds size limit"))
    else if is_empty format || is_empty config
    then throw (
        request_error_apply_result (codes "bad_request")
          (codes "request body must include format and config strings")
          (codes "missing format or config"))
    else go_on format config

-- What a validation lets through.
validation_checked : LocalApiConfigValidateResponse → Text → Checked
validation_checked validation config = elim validation.outcome [
  | request_error ↦ throw (
      request_error_apply_result validation.error_code validation.error_message
        (codes "config request error"))
  | completed ↦
      if not validation.valid then throw (validation_failed_result validation.errors) else ok config
]

path_checked : LocalApiWriteContext → Text → Checked
path_checked write_context config =
    if is_empty write_context.config_path
    then throw (
        internal_error_result (codes "no config path configured for apply")
          (codes "no config path configured"))
    else ok config

module _ (T : Toml) (hostname : Option Text) where
  candidate_checked : Text → Text → Checked
  unfolding validation_checked
  candidate_checked format config =
      validation_checked
        (build_local_api_config_validate_response T hostname
          (record { format = format; config = config }))
        config

  -- All that stands before the write, in its order.
  unfoldable pub checked : LocalApiHttpRequest → LocalApiWriteContext → Checked
  unfolding authenticated submitted candidate_checked path_checked
  checked request write_context = do
    _ ← authenticated request write_context
    config ← submitted request candidate_checked
    path_checked write_context config

  persisted : Text → Bool → LocalApiConfigApplyResult
  persisted config_path done =
      if done
      then applied_result config_path
      else internal_error_result (codes "failed to persist config")
          (codes "failed to persist config")

  module _ {W : Type 0} (fs : FileSystem W) where
    abbrev finished : Text → Option (Bool × W) → Option (LocalApiConfigApplyResult × W)
    finished config_path none = none
    finished config_path (some (done, w)) = some (persisted config_path done, w)

    apply_checked : ℕ → LocalApiWriteContext → Checked → W → Option (LocalApiConfigApplyResult × W)
    unfolding persisted
    apply_checked fuel write_context (throw result) w = some (result, w)
    apply_checked fuel write_context (ok config) w = finished write_context.config_path (
        atomic_write_config_with_backup fs fuel write_context.config_path config
          (backup_of write_context.config_path) w)

    -- The fuel is that of the write.
    unfoldable pub build_local_api_config_apply_result :
        ℕ → LocalApiHttpRequest → LocalApiWriteContext → W → Option (LocalApiConfigApplyResult × W)
    unfolding apply_checked checked
    build_local_api_config_apply_result fuel request write_context w =
        apply_checked fuel write_context (checked request write_context) w
