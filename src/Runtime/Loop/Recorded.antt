-- ===== src/Runtime/Loop/Recorded.antt =====
-- What the loop records stays within the limit of its options.
use easy_failover.Base.{
  ℕ, zero, suc, ◌≤◌, ◌<◌, ltb, ◌==◌, ◌≡◌, sym, not, ◌&&◌, ◌||◌, Option, none, some, List, length,
  arith, Bool-cases, if_cases, inl, inr, subst,
}
use easy_failover.Toml.{Toml}
use easy_failover.Heartbeat.Loop.{run_heartbeat_loop_once}
use easy_failover.Runtime.Lifecycle.{
  stopped, DaemonLifecycleState, Detail, DaemonLifecycleResult, run_daemon_lifecycle_once,
  is_faulted,
}
use easy_failover.Runtime.Observations.{
  DaemonLoopResult, DaemonLoopStopReason, max_iterations, lifecycle_faulted, shutdown_requested,
  FailoverDecisionObservation,
}
use easy_failover.Runtime.Observations.Bounds.{length-append_observations, length-push_observation}
use easy_failover.Runtime.LoopData.{
  DaemonLoopRequest, Environment, HeartbeatRound, LoopState, Outcome, return, go_on,
}
use easy_failover.Runtime.Loop.{
  limit, heartbeat_round, transport_fault, discover, discovery_round, expired_state, record_round,
  note_lifecycle, after_lifecycle, finish_round, lifecycle_round, lifecycle_request, work,
  stopped_by_signal, iterate, loop_from,
}
use easy_failover.Runtime.Loop.Trace.{iterate_cases, Outcome-cases}

-- The lengths of the vectors of a result.
pub record WithinLimit (n : ℕ) (r : DaemonLoopResult) : Type 0 where
  pub validation_errors : length r.validation_errors ≤ n
  pub vip_operations : length r.vip_operations ≤ n
  pub health_schedules : length r.health_schedules ≤ n
  pub send_schedules : length r.heartbeat_send_schedules ≤ n
  pub sends : length r.heartbeat_sends ≤ n
  pub receive_states : length r.heartbeat_receive_states ≤ n
  pub decisions : length r.failover_decisions ≤ n

-- The result that a round returns, or that it hands on.
result_of : Outcome → DaemonLoopResult
result_of (return r) = r
result_of (go_on s) = s.result

module _ (T : Toml) {W : Type 0} (env : Environment W) (request : DaemonLoopRequest W)
    (positive : 0 < request.options.max_recorded_observations) where
  abbrev Fits : DaemonLoopResult → Type 0
  Fits r = WithinLimit request.options.max_recorded_observations r

  heartbeat_round-Fits :
      (s : LoopState) (w : W)
      → Fits s.result
      → Fits (heartbeat_round T env request s w).0.state.result
  unfolding heartbeat_round limit
  heartbeat_round-Fits s w h =
      let (r, w1) =
        run_heartbeat_loop_once T env.heartbeat_transport s.local_status request.config.peers
          request.config.heartbeat.timeout_ms w in
      record {
        validation_errors = ground (arith, h.validation_errors);
        vip_operations = ground (arith, h.vip_operations);
        health_schedules = ground (arith, h.health_schedules);
        send_schedules = ground (arith, h.send_schedules);
        sends = ground (
          arith,
          h.sends,
          length-append_observations s.result.heartbeat_sends r.sends
              request.options.max_recorded_observations positive h.sends,
        );
        receive_states = ground (arith, h.receive_states);
        decisions = ground (arith, h.decisions);
      }

  transport_fault-Fits :
      (h : HeartbeatRound) → Fits h.state.result → Fits (transport_fault T env request h)
  unfolding transport_fault limit
  transport_fault-Fits h f = record {
    validation_errors = f.validation_errors;
    vip_operations = f.vip_operations;
    health_schedules = f.health_schedules;
    send_schedules = length-push_observation _ _ _ positive f.send_schedules;
    sends = f.sends;
    receive_states = length-push_observation _ _ _ positive f.receive_states;
    decisions = f.decisions;
  }

  discovery_round-result :
      (s : LoopState) (w : W) → (discovery_round T env request s w).0.result ≡ s.result
  unfolding discovery_round discover
  discovery_round-result s w = ground arith

  record_round-Fits :
      (h : HeartbeatRound) (l : DaemonLifecycleResult) (s : LoopState)
      → Fits s.result
      → Fits (record_round T env request h l s).result
  unfolding record_round limit
  record_round-Fits h l s f = record {
    validation_errors = f.validation_errors;
    vip_operations = f.vip_operations;
    health_schedules = length-push_observation _ _ _ positive f.health_schedules;
    send_schedules = length-push_observation _ _ _ positive f.send_schedules;
    sends = f.sends;
    receive_states = length-push_observation _ _ _ positive f.receive_states;
    decisions =
        if_cases
          (λ (xs : List FailoverDecisionObservation).
            length xs ≤ request.options.max_recorded_observations)
          (is_faulted l.final_state) _ _ (λ _. f.decisions)
          (λ _. length-push_observation _ _ _ positive f.decisions);
  }

  note_lifecycle-Fits :
      (l : DaemonLifecycleResult) (s : LoopState)
      → Fits s.result
      → Fits (note_lifecycle T env request l s).result
  unfolding note_lifecycle limit
  note_lifecycle-Fits l s f = record {
    validation_errors =
        length-append_observations _ l.validation_errors _ positive f.validation_errors;
    vip_operations = length-append_observations _ l.vip_operations _ positive f.vip_operations;
    health_schedules = f.health_schedules;
    send_schedules = f.send_schedules;
    sends = f.sends;
    receive_states = f.receive_states;
    decisions = f.decisions;
  }

  after_lifecycle-Fits :
      (h : HeartbeatRound) (l : DaemonLifecycleResult) (s : LoopState)
      → Fits s.result
      → Fits (after_lifecycle T env request h l s).result
  unfolding after_lifecycle
  after_lifecycle-Fits h l s f =
      let noted = note_lifecycle T env request l s in
      if_cases (λ (x : LoopState). Fits x.result) l.iteration_ran
        (record_round T env request h l noted) noted
        (λ _. record_round-Fits h l noted (note_lifecycle-Fits l s f))
        (λ _. note_lifecycle-Fits l s f)

  -- The vectors do not change with the end that is noted.
  relabel-Fits :
      (r : DaemonLoopResult) (final : DaemonLifecycleState) (reason : DaemonLoopStopReason)
      (detail : Detail)
      → Fits r
      → Fits (record r { final_state = final; stop_reason = reason; detail = detail })
  relabel-Fits r final reason detail f = record {
    validation_errors = f.validation_errors;
    vip_operations = f.vip_operations;
    health_schedules = f.health_schedules;
    send_schedules = f.send_schedules;
    sends = f.sends;
    receive_states = f.receive_states;
    decisions = f.decisions;
  }

  finish_round-Fits :
      (index : ℕ) (h : HeartbeatRound) (l : DaemonLifecycleResult) (s : LoopState) (w : W)
      → Fits s.result
      → Fits (result_of (finish_round T env request index h l s w).0)
  unfolding finish_round result_of
  finish_round-Fits index h l s w f =
      let Q = λ (x : Outcome × W). Fits (result_of x.0) in
      if_cases Q (is_faulted l.final_state) _ _
        (λ _. relabel-Fits s.result s.result.final_state lifecycle_faulted s.result.detail f)
        (λ _.
          if_cases Q
            (not request.options.run_until_shutdown
              && (suc index == request.options.max_iterations))
            _ _ (λ _. relabel-Fits s.result s.result.final_state max_iterations _ f) (λ _. f))

  lifecycle_round-Fits :
      (index : ℕ) (h : HeartbeatRound) (s : LoopState) (w : W)
      → Fits s.result
      → Fits (result_of (lifecycle_round T env request index h s w).0)
  unfolding lifecycle_round
  lifecycle_round-Fits index h s w f =
      let (l, w1) =
        run_daemon_lifecycle_once env.vip_manager env.ownership_probe
          (lifecycle_request T env request s) w in
      finish_round-Fits index h l (after_lifecycle T env request h l s) w1
        (after_lifecycle-Fits h l s f)

  work-Fits :
      (index : ℕ) (s : LoopState) (w : W)
      → Fits s.result
      → Fits (result_of (work T env request index s w).0)
  unfolding work expired_state result_of
  work-Fits index s w f =
      let (h, w1) = heartbeat_round T env request (expired_state T env request s) w in
      let (s2, w2) = discovery_round T env request (expired_state T env request h.state) w1 in
      let g : Fits h.state.result = heartbeat_round-Fits (expired_state T env request s) w f in
      let e : s2.result ≡ h.state.result =
        discovery_round-result (expired_state T env request h.state) w1 in
      if_cases (λ (x : Outcome × W). Fits (result_of x.0)) h.transport_failed
        (return (transport_fault T env request h), w1) (lifecycle_round T env request index h s2 w2)
        (λ _. transport_fault-Fits h g)
        (λ _. lifecycle_round-Fits index h s2 w2 (subst Fits (sym e) g))

  iterate-Fits :
      (index : ℕ) (s : LoopState) (w : W)
      → Fits s.result
      → Fits (result_of (iterate T env request index s w).0)
  unfolding result_of stopped_by_signal
  iterate-Fits index s w f =
      iterate_cases T env request (λ x. Fits (result_of x.0)) index s w
        (λ handle v. relabel-Fits s.result stopped shutdown_requested _ f)
        (λ v p. work-Fits index s v f)

  abbrev FitsIfSome : Option DaemonLoopResult → Type 0
  FitsIfSome none = Unit
  FitsIfSome (some r) = Fits r

  loop_from-FitsIfSome :
      (fuel index : ℕ) (s : LoopState) (w : W)
      → Fits s.result
      → FitsIfSome (loop_from T env request fuel index s w).0
  unfolding loop_from
  loop_from-FitsIfSome zero index s w f = tt
  loop_from-FitsIfSome (suc fuel) index s w f =
      elim (Bool-cases
        (request.options.run_until_shutdown || ltb index request.options.max_iterations)) [
          | inr e ↦ rw (e, loop_from) f
          | inl e ↦
              let g = iterate-Fits index s w f in
              rw (e, loop_from)
                (elim (Outcome-cases (iterate T env request index s w).0) [
                  | inl (r, q) ↦
                      rw (q, loop_from) (unfold result_of in subst (λ o. Fits (result_of o)) q g)
                  | inr (s', q) ↦
                      rw (q, loop_from)
                        (loop_from-FitsIfSome fuel (suc index) s'
                          (iterate T env request index s w).1
                          (unfold result_of in subst (λ o. Fits (result_of o)) q g))
                ])
        ]

  -- With a limit above 0, whatever result the loop returns from a state within the limit, each of its
  -- vectors has at most as many elements as the limit, however long the loop runs.
  pub loop_from-WithinLimit :
      (fuel index : ℕ) (s : LoopState) (w : W) (r : DaemonLoopResult)
      → WithinLimit request.options.max_recorded_observations s.result
      → (loop_from T env request fuel index s w).0 ≡ some r
      → WithinLimit request.options.max_recorded_observations r
  loop_from-WithinLimit fuel index s w r f e =
      subst FitsIfSome e (loop_from-FitsIfSome fuel index s w f)
