-- ===== src/Platform/LinuxRunner.antt =====
-- platform/linux/LinuxNetworkCommandRunner.cpp: the parent's part of a command, over the calls on
-- processes. The child's part (dup2, execvp) belongs to the call that forks.
mod Tests
use easy_failover.Base.{
  ℕ, zero, suc, ◌+◌, pos, Text, codes, true, false, Option, none, some, List, [], ◌∷◌, ◌++◌,
  is_empty, if◌then◌else◌,
}
use easy_failover.Base.Options.{◌>>=◌}
use easy_failover.Base.Result.{Result, ok, throw}
use easy_failover.Base.Search.{join}
use easy_failover.Platform.Command.{NetworkCommandRequest, NetworkCommandResult}

-- The results of ::read and ::waitpid; a read of bytes is not empty.
pub data ReadOutcome : Type 0 where
  bytes : Text → ReadOutcome
  end_of_file read_interrupted : ReadOutcome
  read_failed : Text → ReadOutcome

pub data WaitOutcome : Type 0 where
  exited signalled : ℕ → WaitOutcome
  unknown_status wait_interrupted : WaitOutcome
  wait_failed : Text → WaitOutcome

-- `fork_exec` gets the executable, its arguments and the two ends of the pipe; an error of a call
-- comes with its text, and `errno_text` is the text of the errno a call left last.
pub record Processes (W : Type 0) : Type 0 where
  pub pipe : W → Result Text (ℕ × ℕ) × W
  pub fork_exec : Text → List Text → ℕ × ℕ → W → Option ℕ × W
  pub close : ℕ → W → W
  pub read : ℕ → ℕ → W → ReadOutcome × W
  pub waitpid : ℕ → W → WaitOutcome × W
  pub errno_text : W → Text

abbrev process_error_exit_code : ℕ
process_error_exit_code = 127

abbrev signal_exit_code_base : ℕ
signal_exit_code_base = 128

errno_message : Text → Text → Text
errno_message context error = join (context ∷ codes ": " ∷ error ∷ [])

start_result : NetworkCommandRequest → NetworkCommandResult
start_result request = record {
  request = request;
  exit_code = pos 0;
  executed = false;
  dry_run = request.dry_run;
  output = [];
  error = [];
}

failed_start : NetworkCommandRequest → Text → NetworkCommandResult
unfolding start_result
failed_start request error = record (start_result request) {
  exit_code = pos process_error_exit_code;
  error = error;
}

-- exitCodeFromStatus, and what a failed wait leaves; an interrupted one is tried again.
waited : NetworkCommandResult → WaitOutcome → Option NetworkCommandResult
unfolding errno_message
waited result (exited code) = some (record result { exit_code = pos code })
waited result (signalled signal) =
    some (record result { exit_code = pos (signal_exit_code_base + signal) })
waited result unknown_status = some (record result { exit_code = pos process_error_exit_code })
waited result wait_interrupted = none
waited result (wait_failed error) = some (record result {
  exit_code = pos process_error_exit_code;
  error = errno_message (codes "failed to wait for network command") error;
})

module _ {W : Type 0} (processes : Processes W) where
  -- The loop over ::read, for a number of calls; `none` if they do not reach.
  read_output : ℕ → ℕ → NetworkCommandResult → W → Option (NetworkCommandResult × W)
  unfolding errno_message
  read_output zero fd result w = none
  read_output (suc calls) fd result w =
      let (outcome, w') = processes.read fd 4096 w in
      elim outcome [
        | bytes chunk ↦ read_output calls fd (record result { output = result.output ++ chunk }) w'
        | end_of_file ↦ some (result, w')
        | read_interrupted ↦ read_output calls fd result w'
        | read_failed error ↦ some (
          record result {
            error = errno_message (codes "failed to read network command output") error;
          },
          w',
        )
      ]

  -- The loop over ::waitpid.
  wait_child : ℕ → ℕ → NetworkCommandResult → W → Option (NetworkCommandResult × W)
  unfolding waited
  wait_child zero pid result w = none
  wait_child (suc calls) pid result w =
      let (outcome, w') = processes.waitpid pid w in
      elim (waited result outcome) [
        | none ↦ wait_child calls pid result w'
        | some final ↦ some (final, w')
      ]

  parent : ℕ → NetworkCommandRequest → ℕ → ℕ × ℕ → W → Option (NetworkCommandResult × W)
  unfolding read_output wait_child start_result
  parent calls request pid ends w = do
    (result, w') ←
        read_output calls ends.0 (record (start_result request) { executed = true })
          (processes.close ends.1 w)
    wait_child calls pid result (processes.close ends.0 w')

  forked : ℕ → NetworkCommandRequest → ℕ × ℕ → W → Option (NetworkCommandResult × W)
  unfolding parent failed_start errno_message
  forked calls request ends w =
      let (made, w') = processes.fork_exec request.executable request.arguments ends w in
      let closed = processes.close ends.1 (processes.close ends.0 w') in
      elim made [
        | none ↦ some (
          failed_start request (
              errno_message (codes "failed to fork network command") (processes.errno_text closed)),
          closed,
        )
        | some pid ↦ parent calls request pid ends w'
      ]

  piped : ℕ → NetworkCommandRequest → W → Option (NetworkCommandResult × W)
  unfolding forked failed_start errno_message
  piped calls request w =
      let (made, w') = processes.pipe w in
      elim made [
        | throw error ↦ some (
          failed_start request
              (errno_message (codes "failed to create network command output pipe") error),
          w',
        )
        | ok ends ↦ forked calls request ends w'
      ]

  -- LinuxNetworkCommandRunner::run. A dry run executes nothing.
  pub run_linux_command : ℕ → NetworkCommandRequest → W → Option (NetworkCommandResult × W)
  unfolding piped start_result failed_start
  run_linux_command calls request w =
      if request.dry_run
      then some (start_result request, w)
      else if is_empty request.executable
      then some (failed_start request (codes "network command executable must not be empty"), w)
      else piped calls request w
