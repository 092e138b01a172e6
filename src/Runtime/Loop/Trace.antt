-- ===== src/Runtime/Loop/Trace.antt =====
-- The loop as a whole: it ends, and how its rounds are counted.
use easy_failover.Base.{
  sym, ap, ℕ, zero, suc, ◌+◌, ◌≤◌, ◌<◌, ltb, ◌≡◌, ◌≢◌, refl, false, not, ◌&&◌, ◌||◌, Option, none,
  some, arith, Bool-cases, Option-cases, if_cases, is_empty, ◌⊎◌, inl, inr,
}
use easy_failover.Toml.{Toml}
use easy_failover.Config.{validate}
use easy_failover.Runtime.Shutdown.{ShutdownHandle}
use easy_failover.Runtime.Observations.{DaemonLoopResult}
use easy_failover.Runtime.LoopData.{
  DaemonLoopRequest, Environment, LoopState, Outcome, return, go_on,
}
use easy_failover.Runtime.Loop.{
  stopped_by_signal, iterate, work, loop_from, initial_loop_state, validated_loop,
  run_daemon_runtime_loop,
}

pub return_not_go_on : {r : DaemonLoopResult} {s : LoopState} → return r ≢ go_on s
return_not_go_on h = cc

pub Outcome-cases :
    (o : Outcome) → ((r : DaemonLoopResult) × (o ≡ return r)) ⊎ ((s : LoopState) × (o ≡ go_on s))
Outcome-cases (return r) = inl (r, refl)
Outcome-cases (go_on s) = inr (s, refl)

module _ (T : Toml) {W : Type 0} (env : Environment W) (request : DaemonLoopRequest W) where
  -- The world after the signals of a round have been same_polling.
  abbrev pub after_polling : Option (ShutdownHandle W) → W → W
  after_polling none w = w
  after_polling (some handle) w = handle.poll w

  same_polling :
      (o : Option (ShutdownHandle W))
      → request.shutdown_state ≡ o
      → (w : W) → after_polling o w ≡ after_polling request.shutdown_state w
  same_polling o n w = sym (ap (λ x. after_polling x w) n)

  -- A round stops on a shutdown, or works in the world after the signals.
  pub iterate_cases :
      (Q : Outcome × W → Type 0) (index : ℕ) (s : LoopState) (w : W)
      → ((handle : ShutdownHandle W) (v : W)
          → Q (return (stopped_by_signal T env request handle s.result v), v))
      → ((v : W) → v ≡ after_polling request.shutdown_state w → Q (work T env request index s v))
      → Q (iterate T env request index s w)
  unfolding iterate
  iterate_cases Q index s w stops works = elim (Option-cases request.shutdown_state) [
    | inl n ↦ rw (n, iterate) (works w (same_polling none n w))
    | inr (handle, n) ↦
        rw (n, iterate)
          (if_cases Q (handle.read (handle.poll w)).shutdown_requested _ _
            (λ _. stops handle (handle.poll w))
            (λ _. works (handle.poll w) (same_polling (some handle) n w)))
  ]

  abbrev pub Ends : Option DaemonLoopResult × W → Type 0
  Ends x = (r : DaemonLoopResult) × (x.0 ≡ some r)

  pub loop_from-Ends :
      request.options.run_until_shutdown ≡ false
      → (fuel index : ℕ) (s : LoopState) (w : W) → index ≤ request.options.max_iterations
      → request.options.max_iterations < index + fuel
      → Ends (loop_from T env request fuel index s w)
  unfolding loop_from
  loop_from-Ends b zero index s w i h = absurd (omega arith)
  loop_from-Ends b (suc fuel) index s w i h =
      elim (Bool-cases
        (request.options.run_until_shutdown || ltb index request.options.max_iterations)) [
          | inr e ↦ rw (e, loop_from) (s.result, refl)
          | inl e ↦
              rw (e, loop_from)
                (elim (Outcome-cases (iterate T env request index s w).0) [
                  | inl (r, q) ↦ rw (q, loop_from) (r, refl)
                  | inr (s', q) ↦
                      rw (q, loop_from)
                        (loop_from-Ends b fuel (suc index) s' (iterate T env request index s w).1
                          (ground arith) (omega arith))
                ])
        ]

  validated :
      request.options.run_until_shutdown ≡ false
      → (fuel : ℕ) (w : W) → request.options.max_iterations < fuel
      → Ends (validated_loop T env request fuel w)
  unfolding validated_loop
  validated b fuel w h =
      if_cases (λ x. Ends x)
        (not request.config_prevalidated && not (is_empty (validate request.config))) _ _
        (λ _. (_, refl))
        (λ _.
          loop_from-Ends b fuel 0 (initial_loop_state T env request) w (omega arith) (omega arith))

  -- A loop that is not told to run until a shutdown returns a result, with one more unit of fuel than
  -- it may run rounds.
  pub run_daemon_runtime_loop-ends :
      request.options.run_until_shutdown ≡ false
      → (fuel : ℕ) (w : W) → request.options.max_iterations < fuel
      → (r : DaemonLoopResult) × ((run_daemon_runtime_loop T env request fuel w).0 ≡ some r)
  unfolding run_daemon_runtime_loop
  run_daemon_runtime_loop-ends b fuel w h = elim (Option-cases request.shutdown_state) [
    | inl e ↦ rw (e, run_daemon_runtime_loop) (validated b fuel w h)
    | inr (handle, e) ↦
        rw (e, run_daemon_runtime_loop)
          (if_cases (λ x. Ends x) (handle.read w).shutdown_requested _ _ (λ _. (_, refl))
            (λ _. validated b fuel w h))
  ]
