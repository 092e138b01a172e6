-- ===== src/Api/Apply/Checked.antt =====
-- What a request has shown when it passes the checks, and that a refusal reports nothing applied.
use easy_failover.Base.{
  ◌^◌, ◌<◌, Text, codes, true, false, Option, none, some, [], length, ◌≡◌, ◌≢◌, refl, ◌∙◌, ◌⊎◌,
  arith,
}
use easy_failover.Base.Result.{ok, throw, bind-eq-ok, ◌>>=◌}
use easy_failover.Toml.{Toml}
use easy_failover.Api.Data.{
  LocalApiConfigApplyResult, LocalApiConfigValidateResponse, LocalApiWriteContext,
  LocalApiHttpRequest,
}
use easy_failover.Api.Auth.{parse_bearer_token}
use easy_failover.Api.Auth.Compare.{constant_time_token_equals_iff}
use easy_failover.Api.Json.{parse_json_string_value}
use easy_failover.Api.Results.{
  auth_failure_apply_result, request_error_apply_result, validation_failed_result,
  internal_error_result,
}
use easy_failover.Api.Validate.{build_local_api_config_validate_response, Accepts, valid-Accepts}
use easy_failover.Api.Apply.{
  Checked, token_checked, authenticated, submitted, validation_checked, path_checked,
  candidate_checked, checked,
}

-- The request carries the token of the context.
abbrev pub IsAuthentic : LocalApiHttpRequest → LocalApiWriteContext → Type 0
IsAuthentic request write_context =
    (parse_bearer_token request.authorization ≡ some write_context.auth_token)
    × (write_context.auth_token ≢ [])

token_checked-ok :
    (auth_token t : Text) (o : Option Text)
    → length auth_token < 2 ^ 32
    → ((p : Text) → o ≡ some p → length p < 2 ^ 32)
    → token_checked auth_token o ≡ ok t
    → (o ≡ some auth_token) × (auth_token ≢ [])
unfolding token_checked
token_checked-ok auth_token t none l m e = cc
token_checked-ok auth_token t (some p) l m e =
    ground (arith, constant_time_token_equals_iff p auth_token (m p refl) l)

validation_checked-ok :
    (validation : LocalApiConfigValidateResponse) (config text : Text)
    → validation_checked validation config ≡ ok text
    → (text ≡ config) × (validation.valid ≡ true)
unfolding validation_checked
validation_checked-ok validation config text e = ground arith

submitted-ok :
    (request : LocalApiHttpRequest) (go_on : Text → Text → Checked) (text : Text)
    → submitted request go_on ≡ ok text
    → (format : Text) × (go_on format (parse_json_string_value request.body (codes "config"))
        ≡ ok text)
unfolding submitted
submitted-ok request go_on text e =
    (parse_json_string_value request.body (codes "format"), ground arith)

path_checked-ok :
    (write_context : LocalApiWriteContext) (config text : Text)
    → path_checked write_context config ≡ ok text
    → text ≡ config
unfolding path_checked
path_checked-ok write_context config text e = ground arith

-- The tokens are shorter than 2 ^ 32 bytes, so that the comparison sees their lengths.
abbrev pub HasShortTokens : LocalApiHttpRequest → LocalApiWriteContext → Type 0
HasShortTokens request write_context =
    (length write_context.auth_token < 2 ^ 32)
    × ((p : Text) → parse_bearer_token request.authorization ≡ some p → length p < 2 ^ 32)

pub authenticated-ok :
    (request : LocalApiHttpRequest) (write_context : LocalApiWriteContext) (text : Text)
    → HasShortTokens request write_context
    → authenticated request write_context ≡ ok text
    → IsAuthentic request write_context
unfolding authenticated
authenticated-ok request write_context text (short, shorter) e =
    token_checked-ok write_context.auth_token text (parse_bearer_token request.authorization) short
      shorter (ground arith)

module _ (T : Toml) (hostname : Option Text) where
  pub checked-ok :
      (request : LocalApiHttpRequest) (write_context : LocalApiWriteContext) (text : Text)
      → HasShortTokens request write_context
      → checked T hostname request write_context ≡ ok text
      → IsAuthentic request write_context
        × (text ≡ parse_json_string_value request.body (codes "config"))
        × Accepts T hostname text
  unfolding checked candidate_checked
  checked-ok request write_context text short e =
      let (token, known, rest) = bind-eq-ok (authenticated request write_context) _ text e in
      let (config, sent, writable) =
        bind-eq-ok (submitted request (candidate_checked T hostname)) _ text rest in
      let (format, passed) = submitted-ok request (candidate_checked T hostname) config sent in
      let body_config = parse_json_string_value request.body (codes "config") in
      let (same, valid) = validation_checked-ok _ body_config config passed in
      let accepts =
        valid-Accepts T hostname (record { format = format; config = body_config }) valid in
      let all = path_checked-ok write_context config text writable ∙ same in
      (authenticated-ok request write_context token short known, all, rw all accepts)

pub authenticated_status :
    (request : LocalApiHttpRequest) (write_context : LocalApiWriteContext)
    (r : LocalApiConfigApplyResult)
    → authenticated request write_context ≡ throw r
    → (r.status_code ≡ 401) ⊎ (r.status_code ≡ 403)
unfolding authenticated token_checked auth_failure_apply_result
authenticated_status request write_context r e = ground arith

abbrev pub IsRefusal : Checked → Type 0
IsRefusal c = (r : LocalApiConfigApplyResult) → c ≡ throw r → r.applied ≡ false

bind-IsRefusal :
    (m : Checked) (f : Text → Checked)
    → IsRefusal m
    → ((a : Text) → IsRefusal (f a))
    → IsRefusal (m >>= f)
bind-IsRefusal (ok a) f h k r e = k a r e
bind-IsRefusal (throw x) f h k r e = h r cc

authenticated-IsRefusal :
    (request : LocalApiHttpRequest) (write_context : LocalApiWriteContext)
    → IsRefusal (authenticated request write_context)
unfolding authenticated token_checked auth_failure_apply_result
authenticated-IsRefusal request write_context r e = ground arith

validation_checked-IsRefusal :
    (validation : LocalApiConfigValidateResponse) (config : Text)
    → IsRefusal (validation_checked validation config)
unfolding validation_checked request_error_apply_result validation_failed_result
validation_checked-IsRefusal validation config r e = ground arith

submitted-IsRefusal :
    (request : LocalApiHttpRequest) (go_on : Text → Text → Checked)
    → ((format config : Text) → IsRefusal (go_on format config))
    → IsRefusal (submitted request go_on)
unfolding submitted request_error_apply_result
submitted-IsRefusal request go_on h r e = ground (
  arith,
  h (parse_json_string_value request.body (codes "format"))
      (parse_json_string_value request.body (codes "config")) r,
)

path_checked-IsRefusal :
    (write_context : LocalApiWriteContext) (config : Text)
    → IsRefusal (path_checked write_context config)
unfolding path_checked internal_error_result
path_checked-IsRefusal write_context config r e = ground arith

pub checked-IsRefusal :
    (T : Toml) (hostname : Option Text) (request : LocalApiHttpRequest)
    (write_context : LocalApiWriteContext)
    → IsRefusal (checked T hostname request write_context)
unfolding checked candidate_checked
checked-IsRefusal T hostname request write_context =
    bind-IsRefusal _ _ (authenticated-IsRefusal request write_context) λ _.
      bind-IsRefusal _ _
        (submitted-IsRefusal request _ (λ format config.
          validation_checked-IsRefusal
            (build_local_api_config_validate_response T hostname
              (record { format = format; config = config }))
            config))
        λ config. path_checked-IsRefusal write_context config
