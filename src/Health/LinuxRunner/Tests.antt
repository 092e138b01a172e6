-- ===== src/Health/LinuxRunner/Tests.antt =====
-- Health commands that exit, that cannot be executed and that take too long.
use easy_failover.Base.{
  ℕ, ◌+◌, ◌≡◌, refl, ◌*◌, pos, codes, true, false, ◌+ℤ◌, ◌-ℤ◌, Option, some, [], ◌∷◌, if◌then◌else◌,
  ltb,
}
use easy_failover.Base.Search.{join}
use easy_failover.Platform.LinuxRunner.{ReadOutcome, bytes, end_of_file, exited, signalled}
use easy_failover.Health.{CommandResult}
use easy_failover.Health.LinuxRunner.{
  HealthProcesses, ready, finished, still_running, run_health_command, piped, forked, parent,
  handshake, after_handshake, supervised, await_child, reported, reaped_with, reap, terminated_with,
  terminate_process_group, grace, signal_child, remaining_poll_milliseconds, result_from_status,
  timeout_result, failed_with, errno_message, nanoseconds,
}

-- The state is the time in milliseconds; the process ends at `end`.
abbrev processes : ReadOutcome → ℕ → HealthProcesses ℕ
processes report end = record {
  now = λ w. (pos (w * 1000000), w);
  sleep_ms = λ ms w. w + ms;
  pipe = λ w. (some (5, 6), w);
  close_on_exec = λ _ w. (true, w);
  fork_shell = λ _ _ w. (some 42, w);
  close = λ _ w. w;
  poll = λ _ _ w. (ready, w);
  read = λ _ _ w. (report, w);
  kill_group = λ _ _ w. w;
  kill = λ _ _ w. w;
  set_group = λ _ w. (true, w);
  peek = λ _ w. (if ltb w end then still_running else finished (exited 1), w);
  waitpid = λ _ w. (signalled 9, w);
  decode_errno = λ _. pos 2;
  strerror = λ _. codes "no such file";
  errno_text = λ _. [];
}

abbrev result_of : ReadOutcome → ℕ → Option (CommandResult × ℕ)
result_of report end = run_health_command (processes report end) 30 (codes "check") (pos 40) 0

run_health_command_exited :
    result_of end_of_file 20
    ≡ some (record { exit_code = pos 1; timed_out = false; error = [] }, 20)
unfolding run_health_command piped forked parent handshake after_handshake supervised await_child
    remaining_poll_milliseconds result_from_status nanoseconds ◌+ℤ◌ ◌-ℤ◌
run_health_command_exited = refl

run_health_command_not_executed :
    result_of (bytes (2 ∷ 0 ∷ 0 ∷ 0 ∷ [])) 20
    ≡ some (
      record {
        exit_code = pos 127;
        timed_out = false;
        error = codes "failed to exec health command: no such file";
      },
      0,
    )
unfolding run_health_command piped forked parent handshake after_handshake reported reaped_with reap
    remaining_poll_milliseconds failed_with errno_message nanoseconds codes join ◌+ℤ◌ ◌-ℤ◌
run_health_command_not_executed = refl

-- The grace period of 100 ms comes after the 40 ms of the timeout.
run_health_command_timed_out : result_of end_of_file 900 ≡ some (timeout_result, 140)
unfolding run_health_command piped forked parent handshake after_handshake supervised await_child
    terminated_with terminate_process_group grace signal_child reap remaining_poll_milliseconds
    timeout_result nanoseconds ◌+ℤ◌ ◌-ℤ◌
run_health_command_timed_out = refl
