-- ===== src/Api/Route.antt =====
-- buildLocalApiHttpResponse: the endpoints, without and with the apply endpoint.
pub mod Laws
use easy_failover.Base.{
  ℕ, ltb, Text, codes, eqb, Bool, not, ◌||◌, Option, none, some, List, [], ◌∷◌, length, is_empty,
  if◌then◌else◌,
}
use easy_failover.Toml.{Toml}
use easy_failover.Api.Data.{
  LocalApiHttpRequest, LocalApiHttpResponse, LocalApiHttpSnapshot, LocalApiWriteContext,
  LocalApiConfigApplyResult, LocalApiConfigValidateResponse, completed, request_error, applied,
  validation_failed, bad_request, unauthorized, forbidden, internal_error,
}
use easy_failover.Api.Http.{
  json_response, error_envelope, auth_error_envelope, trim_query_string, max_apply_body_bytes,
}
use easy_failover.Api.Json.{parse_json_string_value}
use easy_failover.Api.Status.{serialize_local_api_status_response}
use easy_failover.Api.View.{serialize_local_api_config_response}
use easy_failover.Api.Events.{
  serialize_local_api_events_response, serialize_local_api_config_validate_response,
  serialize_local_api_config_apply_result,
}
use easy_failover.Api.Write.{FileSystem}
use easy_failover.Api.Validate.{build_local_api_config_validate_response}
use easy_failover.Api.Apply.{build_local_api_config_apply_result}

unfoldable pub not_found : LocalApiHttpResponse
not_found = json_response 404 (error_envelope (codes "not_found") (codes "endpoint not found"))

-- An endpoint that answers GET alone.
on_get : LocalApiHttpRequest → Text → LocalApiHttpResponse
on_get request body =
    if not (eqb request.method (codes "GET"))
    then json_response 405
        (error_envelope (codes "method_not_allowed") (codes "endpoint only supports GET"))
    else json_response 200 body

post_only : LocalApiHttpResponse
post_only =
    json_response 405
      (error_envelope (codes "method_not_allowed") (codes "endpoint only supports POST"))

validation_response : LocalApiConfigValidateResponse → LocalApiHttpResponse
validation_response validation = elim validation.outcome [
  | request_error ↦ json_response 400 (serialize_local_api_config_validate_response validation)
  | completed ↦ json_response 200 (serialize_local_api_config_validate_response validation)
]

pub apply_response : LocalApiConfigApplyResult → LocalApiHttpResponse
apply_response result = elim result.outcome [
  | unauthorized ↦ json_response 401 (
      auth_error_envelope (codes "unauthorized")
        (codes "authentication required for write operations"))
  | forbidden ↦
      json_response 403 (auth_error_envelope (codes "forbidden") (codes "invalid credentials"))
  | bad_request ↦ json_response 400 (error_envelope result.error_code result.error_message)
  | internal_error ↦ json_response 500 (error_envelope result.error_code result.error_message)
  | validation_failed ↦ json_response 200 (serialize_local_api_config_apply_result result)
  | applied ↦ json_response 200 (serialize_local_api_config_apply_result result)
]

module _ (T : Toml) (hostname : Option Text) where
  validate_endpoint : LocalApiHttpRequest → LocalApiHttpResponse
  unfolding post_only validation_response
  validate_endpoint request =
      let format = parse_json_string_value request.body (codes "format") in
      let config = parse_json_string_value request.body (codes "config") in
      if not (eqb request.method (codes "POST"))
      then post_only
      else if ltb max_apply_body_bytes (length request.body)
      then json_response 413 (
          error_envelope (codes "payload_too_large")
            (codes "request body exceeds maximum allowed size"))
      else if is_empty format || is_empty config
      then json_response 400 (
          error_envelope (codes "bad_request")
            (codes "request body must include format and config strings"))
      else validation_response (
          build_local_api_config_validate_response T hostname
            (record { format = format; config = config }))

  unfoldable pub build_local_api_http_response :
      LocalApiHttpRequest → LocalApiHttpSnapshot → LocalApiHttpResponse
  unfolding on_get validate_endpoint
  build_local_api_http_response request snapshot =
      let path = trim_query_string request.path in
      if eqb path (codes "/api/v1/status")
      then on_get request (serialize_local_api_status_response snapshot.status)
      else if eqb path (codes "/api/v1/config")
      then on_get request (serialize_local_api_config_response snapshot.config)
      else if eqb path (codes "/api/v1/events")
      then on_get request (serialize_local_api_events_response snapshot.events)
      else if eqb path (codes "/api/v1/config/validate")
      then validate_endpoint request
      else not_found

  module _ {W : Type 0} (fs : FileSystem W)
      (emit_audit : Option (LocalApiHttpRequest → LocalApiConfigApplyResult → W → W)) where
    pub emitted : LocalApiHttpRequest → LocalApiConfigApplyResult → W → W
    emitted request result w = elim emit_audit [ none ↦ w | some emit ↦ emit request result w ]

    pub answered :
        LocalApiHttpRequest
        → Option (LocalApiConfigApplyResult × W)
        → Option (LocalApiHttpResponse × W)
    unfolding emitted apply_response
    answered request none = none
    answered request (some (result, w)) = some (apply_response result, emitted request result w)

    apply_endpoint :
        ℕ → LocalApiHttpRequest → LocalApiWriteContext → W → Option (LocalApiHttpResponse × W)
    unfolding answered post_only
    apply_endpoint fuel request write_context w =
        if not write_context.write_enabled
        then some (not_found, w)
        else if not (eqb request.method (codes "POST"))
        then some (post_only, w)
        else answered request
            (build_local_api_config_apply_result T hostname fs fuel request write_context w)

    -- With the write context; the fuel is that of the write.
    unfoldable pub respond :
        ℕ
        → LocalApiHttpRequest
        → LocalApiHttpSnapshot
        → LocalApiWriteContext
        → W
        → Option (LocalApiHttpResponse × W)
    unfolding apply_endpoint
    respond fuel request snapshot write_context w =
        if eqb (trim_query_string request.path) (codes "/api/v1/config/apply")
        then apply_endpoint fuel request write_context w
        else some (build_local_api_http_response request snapshot, w)
