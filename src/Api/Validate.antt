-- ===== src/Api/Validate.antt =====
-- buildLocalApiConfigValidateResponse. A ConfigParseError and a ConfigDecodeError are all that can be
-- thrown here.
use easy_failover.Base.{
  ◌≡◌, refl, arith, if_cases, Text, codes, eqb, true, false, not, Option, [], is_empty,
  if◌then◌else◌,
}
use easy_failover.Base.Result.{Result, ok, throw}
use easy_failover.Toml.{Toml}
use easy_failover.Config.{Config, validate}
use easy_failover.Config.Decode.{
  ConfigError, parse_error, decode_error, load_config_from_toml_string,
}
use easy_failover.Api.Data.{
  LocalApiConfigValidateRequest, LocalApiConfigValidateResponse, completed, request_error,
}

request_refused : Text → Text → LocalApiConfigValidateResponse
request_refused code message = record {
  outcome = request_error;
  valid = false;
  errors = [];
  error_code = code;
  error_message = message;
}

validated : Config → LocalApiConfigValidateResponse
validated candidate = record {
  outcome = completed;
  valid = is_empty (validate candidate);
  errors = validate candidate;
  error_code = [];
  error_message = [];
}

validation_of : Result ConfigError Config → LocalApiConfigValidateResponse
unfolding request_refused validated
validation_of (ok candidate) = validated candidate
validation_of (throw (parse_error what)) = request_refused (codes "invalid_toml") what
validation_of (throw (decode_error what)) = request_refused (codes "invalid_config_shape") what

module _ (T : Toml) (hostname : Option Text) where
  unfoldable pub build_local_api_config_validate_response :
      LocalApiConfigValidateRequest → LocalApiConfigValidateResponse
  unfolding validation_of request_refused
  build_local_api_config_validate_response request =
      if not (eqb request.format (codes "toml"))
      then request_refused (codes "unsupported_format")
          (codes "config validation format must be toml")
      else if is_empty request.config
      then request_refused (codes "missing_config") (codes "config must not be empty")
      else validation_of (load_config_from_toml_string T hostname request.config)

  abbrev pub Accepts : Text → Type 0
  Accepts config =
      (c : Config) × (load_config_from_toml_string T hostname config ≡ ok c) × (validate c ≡ [])

  validation-Accepts :
      (config : Text) (loaded : Result ConfigError Config)
      → load_config_from_toml_string T hostname config ≡ loaded
      → (validation_of loaded).valid ≡ true
      → Accepts config
  unfolding validation_of validated request_refused
  validation-Accepts config (ok c) l v = (c, l, ground arith)
  validation-Accepts config (throw (parse_error what)) l v = cc
  validation-Accepts config (throw (decode_error what)) l v = cc

  pub valid-Accepts :
      (request : LocalApiConfigValidateRequest)
      → (build_local_api_config_validate_response request).valid ≡ true
      → Accepts request.config
  unfolding build_local_api_config_validate_response request_refused
  valid-Accepts request =
      let Q : LocalApiConfigValidateResponse → Type 0 =
        λ r. r.valid ≡ true → Accepts request.config in
      if_cases Q (not (eqb request.format (codes "toml"))) _ _ (λ _ v. cc)
        λ _.
          if_cases Q (is_empty request.config) _ _ (λ _ v. cc)
            λ _. validation-Accepts request.config _ refl
