-- ===== src/Config/Tests.antt =====
-- The validation on a concrete config.
use easy_failover.Base.{◌≡◌, ◌↔◌, []}
use easy_failover.Config.{validate, default_config}
use easy_failover.Config.Valid.{IsValid, validate_iff}

validate_iff_example : (validate default_config ≡ []) ↔ IsValid default_config
validate_iff_example = validate_iff default_config
