-- ===== src/Platform/LinuxRunner/Tests.antt =====
-- A network command whose output comes in one read after an interruption, and one killed by a signal.
use easy_failover.Base.{
  ℕ, ◌+◌, ◌≡◌, refl, ℤ, pos, Text, codes, true, false, Option, none, some, [], ◌==◌, if◌then◌else◌,
}
use easy_failover.Base.Result.{ok}
use easy_failover.Base.Search.{join}
use easy_failover.Platform.Command.{NetworkCommandRequest, NetworkCommandResult}
use easy_failover.Platform.LinuxRunner.{
  Processes, bytes, end_of_file, read_interrupted, WaitOutcome, exited, signalled,
  run_linux_command, piped, forked, parent, read_output, wait_child, waited, start_result,
  failed_start, errno_message,
}

-- The state counts the reads.
abbrev processes : WaitOutcome → Processes ℕ
processes ended = record {
  pipe = λ w. (ok (5, 6), w);
  fork_exec = λ _ _ _ w. (some 42, w);
  close = λ _ w. w;
  read = λ _ _ w. (
    if w == 0 then read_interrupted else if w == 1 then bytes (codes "ok") else end_of_file,
    w + 1,
  );
  waitpid = λ _ w. (ended, w);
  errno_text = λ _. [];
}

abbrev request : NetworkCommandRequest
request = record { executable = codes "ip"; arguments = []; dry_run = false }

abbrev exit_code_of : Option (NetworkCommandResult × ℕ) → Option ℤ
exit_code_of none = none
exit_code_of (some (result, _)) = some result.exit_code

abbrev error_of : Option (NetworkCommandResult × ℕ) → Option Text
error_of none = none
error_of (some (result, _)) = some result.error

run_linux_command_exited :
    run_linux_command (processes (exited 3)) 5 request 0
    ≡ some (
      record {
        request = request;
        exit_code = pos 3;
        executed = true;
        dry_run = false;
        output = codes "ok";
        error = [];
      },
      3,
    )
unfolding run_linux_command piped forked parent read_output wait_child waited start_result codes
    join
run_linux_command_exited = refl

run_linux_command_signalled :
    exit_code_of (run_linux_command (processes (signalled 9)) 5 request 0) ≡ some (pos 137)
unfolding run_linux_command piped forked parent read_output wait_child waited start_result codes
    join
run_linux_command_signalled = refl

run_linux_command_no_fuel : run_linux_command (processes (exited 3)) 2 request 0 ≡ none
unfolding run_linux_command piped forked parent read_output codes join
run_linux_command_no_fuel = refl

failed_fork :
    error_of (
      run_linux_command
        (record (processes (exited 0)) {
          fork_exec = λ _ _ _ w. (none, w);
          errno_text = λ _. codes "busy";
        })
        5
        request
        0)
    ≡ some (codes "failed to fork network command: busy")
unfolding run_linux_command piped forked failed_start errno_message codes join
failed_fork = refl
