-- ===== src/Health/LinuxRunner.antt =====
-- platform/linux/LinuxHealthCommandRunner.cpp: the parent's part of a health command, over the calls on
-- processes and the clock. The child's part (setpgid, execl, the report of an errno) belongs to the
-- call that forks. Loops run for a number of calls; `none` if they do not reach.
mod Tests
use easy_failover.Base.{
  ℕ, zero, suc, ◌+◌, ◌-◌, ◌*◌, ◌/◌, ◌^◌, ℤ, pos, negsuc, ◌+ℤ◌, ◌-ℤ◌, pos_part, ltb, leb_ℤ, ltb_ℤ,
  leb, ◌==◌, Text, codes, Bool, true, false, not, Option, none, some, [], ◌∷◌, ◌++◌, length,
  if◌then◌else◌,
}
use easy_failover.Base.Options.{◌>>=◌}
use easy_failover.Base.Result.{Result, ok, throw}
use easy_failover.Base.Search.{join}
use easy_failover.Health.{CommandResult}
use easy_failover.Platform.LinuxRunner.{
  ReadOutcome, bytes, end_of_file, read_interrupted, read_failed, WaitOutcome, exited, signalled,
  wait_interrupted,
}

-- The result of ::poll on the pipe.
pub data PollOutcome : Type 0 where
  ready poll_timed_out poll_interrupted poll_failed : PollOutcome

-- ::waitpid with WNOHANG; `no_child` is ECHILD.
pub data PeekOutcome : Type 0 where
  finished : WaitOutcome → PeekOutcome
  still_running peek_interrupted : PeekOutcome
  no_child peek_failed : Text → PeekOutcome

-- Times are nanoseconds of the steady clock. `kill_group` and `kill` get a signal and a process.
-- `set_group` is whether the process group of the child can be relied on. `decode_errno` reads the
-- four bytes of an int, and `errno_text` is strerror of the errno a call left last.
pub record HealthProcesses (W : Type 0) : Type 0 where
  pub now : W → ℤ × W
  pub sleep_ms : ℕ → W → W
  pub pipe : W → Option (ℕ × ℕ) × W
  pub close_on_exec : ℕ → W → Bool × W
  pub fork_shell : Text → ℕ × ℕ → W → Option ℕ × W
  pub close : ℕ → W → W
  pub poll : ℕ → ℕ → W → PollOutcome × W
  pub read : ℕ → ℕ → W → ReadOutcome × W
  pub kill_group : ℕ → ℕ → W → W
  pub kill : ℕ → ℕ → W → W
  pub set_group : ℕ → W → Bool × W
  pub peek : ℕ → W → PeekOutcome × W
  pub waitpid : ℕ → W → WaitOutcome × W
  pub decode_errno : Text → ℤ
  pub strerror : ℕ → Text
  pub errno_text : W → Text

-- std::chrono::milliseconds as nanoseconds.
nanoseconds : ℤ → ℤ
nanoseconds (pos ms) = pos (ms * 1000000)
nanoseconds (negsuc n) = pos 0 -ℤ pos (suc n * 1000000)

failed_with : Text → CommandResult
failed_with error = record { exit_code = pos 127; timed_out = false; error = error }

errno_message : Text → Text → Text
errno_message context error = join (context ∷ codes ": " ∷ error ∷ [])

timeout_result : CommandResult
timeout_result = record {
  exit_code = pos 124;
  timed_out = true;
  error = codes "health command timed out";
}

result_from_status : WaitOutcome → CommandResult
unfolding failed_with
result_from_status (exited code) = record { exit_code = pos code; timed_out = false; error = [] }
result_from_status (signalled signal) = record {
  exit_code = pos (128 + signal);
  timed_out = false;
  error = codes "health command terminated by signal";
}
result_from_status _ = failed_with (codes "health command ended with unknown status")

abbrev interrupted_wait : WaitOutcome → Bool
interrupted_wait wait_interrupted = true
interrupted_wait _ = false

-- kPollInterval and kTerminateGracePeriod.
abbrev poll_interval_ms : ℕ
poll_interval_ms = 10

abbrev terminate_grace_period : ℤ
terminate_grace_period = pos 100000000

module _ {W : Type 0} (processes : HealthProcesses W) where
  -- Waiting for a child that has ended or been killed.
  reap : ℕ → ℕ → W → Option W
  reap zero pid w = none
  reap (suc calls) pid w =
      let (outcome, w') = processes.waitpid pid w in
      let again = reap calls pid w' in if interrupted_wait outcome then again else some w'

  signal_child : ℕ → ℕ → Bool → W → W
  signal_child signal pid use_pgid w =
      processes.kill signal pid (if use_pgid then processes.kill_group signal pid w else w)

  -- The grace period: whether the child is gone.
  grace : ℕ → ℕ → ℤ → W → Option (Bool × W)
  grace zero pid deadline w = none
  grace (suc calls) pid deadline w =
      let (now, w1) = processes.now w in
      let (outcome, w2) = processes.peek pid w1 in
      let again = grace calls pid deadline (processes.sleep_ms poll_interval_ms w2) in
      if not (ltb_ℤ now deadline) then some (false, w1) else elim outcome [
        | finished status ↦ some (true, w2)
        | no_child error ↦ some (true, w2)
        | peek_failed error ↦ some (false, w2)
        | peek_interrupted ↦ again
        | still_running ↦ again
      ]

  terminate_process_group : ℕ → ℕ → Bool → W → Option W
  unfolding reap signal_child grace
  terminate_process_group calls pid use_pgid w = do
    let (now, w1) = processes.now (signal_child 15 pid use_pgid w)
    (gone, w2) ← grace calls pid (now +ℤ terminate_grace_period) w1
    if gone then some w2 else reap calls pid (signal_child 9 pid use_pgid w2)

  -- Whole milliseconds up to the deadline, at most INT_MAX.
  remaining_poll_milliseconds : ℤ → W → ℕ × W
  remaining_poll_milliseconds deadline w =
      let (now, w') = processes.now w in
      let remaining = pos_part (deadline -ℤ now) / 1000000 in
      if leb_ℤ deadline now
      then (0, w')
      else if ltb (2 ^ 31 - 1) remaining
      then (2 ^ 31 - 1, w')
      else (remaining, w')

  terminated_with : ℕ → ℕ → Bool → CommandResult → W → Option (CommandResult × W)
  unfolding terminate_process_group
  terminated_with calls pid use_pgid result w = do
    w' ← terminate_process_group calls pid use_pgid w
    some (result, w')

  -- Before the pipe is read to the end: close it, end the child, and return.
  given_up :
      {A : Type 0} → ℕ → ℕ → ℕ → (W → CommandResult) → W → Option (Result CommandResult A × W)
  unfolding terminate_process_group
  given_up calls fd pid result w = do
    w' ← terminate_process_group calls pid true (processes.close fd w)
    some (throw (result w'), w')

  -- The last loop: the child's status, a failed wait, or the timeout.
  await_child : ℕ → ℕ → Bool → ℤ → W → Option (CommandResult × W)
  unfolding terminated_with result_from_status failed_with timeout_result errno_message
  await_child zero pid use_pgid deadline w = none
  await_child (suc calls) pid use_pgid deadline w =
      let (outcome, w1) = processes.peek pid w in
      let again = await_child calls pid use_pgid deadline w1 in
      let (now, w2) = processes.now w1 in
      let slept =
        await_child calls pid use_pgid deadline (processes.sleep_ms poll_interval_ms w2) in
      elim outcome [
        | finished status ↦ some (result_from_status status, w1)
        | peek_interrupted ↦ again
        | no_child error ↦
            some (failed_with (errno_message (codes "failed to wait for health command") error), w1)
        | peek_failed error ↦
            some (failed_with (errno_message (codes "failed to wait for health command") error), w1)
        | still_running ↦
            if leb_ℤ deadline now
            then terminated_with calls pid use_pgid timeout_result w2
            else slept
      ]

  -- The loop over ::poll and ::read: the bytes of the errno and the error that ended it.
  handshake : ℕ → ℕ → ℕ → ℕ → ℤ → Text → W → Option (Result CommandResult (Text × Option Text) × W)
  unfolding remaining_poll_milliseconds given_up timeout_result failed_with errno_message
  handshake zero limit fd pid deadline received w = none
  handshake (suc calls) limit fd pid deadline received w =
      let (poll_ms, w1) = remaining_poll_milliseconds deadline w in
      let (polled, w2) = processes.poll fd poll_ms w1 in
      let (outcome, w3) = processes.read fd (4 - length received) w2 in
      let polled_again = handshake calls limit fd pid deadline received w2 in
      let read_again = handshake calls limit fd pid deadline received w3 in
      if leb 4 (length received)
      then some (ok (received, none), w)
      else if poll_ms == 0
      then given_up limit fd pid (λ _. timeout_result) w1
      else elim polled [
        | poll_timed_out ↦ given_up limit fd pid (λ _. timeout_result) w2
        | poll_interrupted ↦ polled_again
        | poll_failed ↦
            given_up limit fd pid
              (λ w'.
                failed_with (
                  errno_message (codes "failed to poll exec-error pipe") (processes.errno_text w')))
              w2
        | ready ↦ elim outcome [
          | bytes more ↦ handshake calls limit fd pid deadline (received ++ more) w3
          | end_of_file ↦ some (ok (received, none), w3)
          | read_interrupted ↦ read_again
          | read_failed error ↦ some (ok (received, some error), w3)
        ]
      ]

  -- The child's report of a failed setpgid (a negative errno) or execl.
  reported : Text → CommandResult
  unfolding failed_with errno_message
  reported received = elim (processes.decode_errno received) [
    | negsuc n ↦ failed_with (
        errno_message (codes "failed to set process group for health command")
          (processes.strerror (suc n)))
    | pos n ↦
        failed_with (errno_message (codes "failed to exec health command") (processes.strerror n))
  ]

  reaped_with : ℕ → ℕ → CommandResult → W → Option (CommandResult × W)
  unfolding reap
  reaped_with calls pid result w = do w' ← reap calls pid w; some (result, w')

  supervised : ℕ → ℕ → ℤ → W → Option (CommandResult × W)
  unfolding await_child
  supervised calls pid deadline w =
      let (use_pgid, w') = processes.set_group pid w in await_child calls pid use_pgid deadline w'

  after_handshake : ℕ → ℕ → ℤ → Text × Option Text → W → Option (CommandResult × W)
  unfolding reaped_with reported terminated_with failed_with errno_message supervised
  after_handshake calls pid deadline (received, error) w =
      if leb 4 (length received)
      then reaped_with calls pid (reported received) w
      else if ltb 0 (length received)
      then reaped_with calls pid
          (failed_with (codes "exec-error protocol failure: partial errno received")) w
      else elim error [
        | none ↦ supervised calls pid deadline w
        | some text ↦
            terminated_with calls pid true
              (failed_with (errno_message (codes "failed to read exec-error pipe") text)) w
      ]

  parent : ℕ → ℕ × ℕ → ℕ → ℤ → W → Option (CommandResult × W)
  unfolding handshake after_handshake
  parent calls ends pid deadline w = do
    (outcome, w') ← handshake calls calls ends.0 pid deadline [] (processes.close ends.1 w)
    elim outcome [
      | throw result ↦ some (result, w')
      | ok received ↦ after_handshake calls pid deadline received (processes.close ends.0 w')
    ]

  close_both : ℕ × ℕ → W → W
  close_both ends w = processes.close ends.1 (processes.close ends.0 w)

  failed_call : Text → W → Option (CommandResult × W)
  unfolding failed_with errno_message
  failed_call context w = some (failed_with (errno_message context (processes.errno_text w)), w)

  forked : ℕ → Text → ℕ × ℕ → ℤ → W → Option (CommandResult × W)
  unfolding parent failed_call close_both
  forked calls command ends deadline w =
      let (made, w') = processes.fork_shell command ends w in
      elim made [
        | none ↦ failed_call (codes "failed to fork health command") (close_both ends w')
        | some pid ↦ parent calls ends pid deadline w'
      ]

  piped : ℕ → Text → ℕ × ℕ → ℤ → W → Option (CommandResult × W)
  unfolding forked failed_call close_both
  piped calls command ends deadline w =
      let (configured, w') = processes.close_on_exec ends.1 w in
      if configured
      then forked calls command ends deadline w'
      else failed_call (codes "failed to configure exec-error pipe") (close_both ends w')

  -- LinuxHealthCommandRunner::run. The timeout counts from its start.
  pub run_health_command : ℕ → Text → ℤ → W → Option (CommandResult × W)
  unfolding piped failed_call nanoseconds
  run_health_command calls command timeout_ms w =
      let (now, w1) = processes.now w in
      let (made, w2) = processes.pipe w1 in
      elim made [
        | none ↦ failed_call (codes "failed to create exec-error pipe") w2
        | some ends ↦ piped calls command ends (now +ℤ nanoseconds timeout_ms) w2
      ]
