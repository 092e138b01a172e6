-- ===== src/Health.antt =====
-- health/HealthCheck.hpp and HealthCheck.cpp: the health command. The runner is an object over the
-- state of the world.
pub mod LinuxRunner
use easy_failover.Base.{ℤ, pos, eqb_ℤ, Text, codes, Bool, not, is_empty, if◌then◌else◌}
use easy_failover.Config.{HealthConfig}

pub data HealthStatus : Type 0 where
  healthy unhealthy : HealthStatus

unfoldable pub status_to_string : HealthStatus → Text
status_to_string healthy = codes "healthy"
status_to_string unhealthy = codes "unhealthy"

pub record HealthCheckResult : Type 0 where
  pub status : HealthStatus
  pub detail : Text

pub record CommandResult : Type 0 where
  pub exit_code : ℤ
  pub timed_out : Bool
  pub error : Text

pub record HealthCommandRunner (W : Type 0) : Type 0 where
  pub run : Text → ℤ → W → CommandResult × W

evaluated : CommandResult → HealthCheckResult
evaluated r =
    if r.timed_out
    then record { status = unhealthy; detail = codes "health command timed out" }
    else if not (is_empty r.error)
    then record { status = unhealthy; detail = r.error }
    else if eqb_ℤ r.exit_code (pos 0)
    then record { status = healthy; detail = codes "health command exited successfully" }
    else record { status = unhealthy; detail = codes "health command exited with nonzero status" }

pub evaluate_health_check :
    {W : Type 0} → HealthConfig → HealthCommandRunner W → W → HealthCheckResult × W
unfolding evaluated
evaluate_health_check config runner w =
    if is_empty config.command
    then (record { status = healthy; detail = codes "no health command configured" }, w)
    else let (r, w') = runner.run config.command config.timeout_ms w in (evaluated r, w')
