-- ===== src/Platform/Command.antt =====
-- platform/NetworkCommandRunner.hpp and .cpp. A runner is an object with a state, so a call takes
-- the state of the world and returns the next one. The Linux runner, which forks and executes the
-- command, stands in LinuxRunner; the clients take any runner.
use easy_failover.Base.{ℤ, pos, Text, Bool, true, false, ◌&&◌, List, [], is_empty, eqb_ℤ}

pub record NetworkCommandRequest : Type 0 where
  pub executable : Text
  pub arguments : List Text
  pub dry_run : Bool

pub record NetworkCommandResult : Type 0 where
  pub request : NetworkCommandRequest
  pub exit_code : ℤ
  pub executed : Bool
  pub dry_run : Bool
  pub output : Text
  pub error : Text

pub record NetworkCommandRunner (W : Type 0) : Type 0 where
  pub run : NetworkCommandRequest → W → NetworkCommandResult × W

-- DryRunNetworkCommandRunner::run
pub dry_run_command : NetworkCommandRequest → NetworkCommandResult
dry_run_command request = record {
  request = request;
  exit_code = pos 0;
  executed = false;
  dry_run = true;
  output = [];
  error = [];
}

pub dry_run_runner : (W : Type 0) → NetworkCommandRunner W
unfolding dry_run_command
dry_run_runner W = record { run = λ request w. (dry_run_command request, w) }

-- `command_result.error.empty() && command_result.exit_code == 0`, negated in the source.
unfoldable pub succeeded : NetworkCommandResult → Bool
succeeded r = is_empty r.error && eqb_ℤ r.exit_code (pos 0)
