-- ===== src/Runtime/Loop/Warmup.antt =====
-- The warm-up of a real run: which heartbeat cycle completes it.
use easy_failover.Base.{
  ℕ, ◌≤ℤ◌, ◌-ℤ◌, ◌≡◌, ◌↔◌, refl, subst, ◌∙◌, true, false, not, ◌||◌, ◌⊎◌, List, [], ◌∷◌, All, any,
  is_empty, arith, if_cases,
}
use easy_failover.Toml.{Toml}
use easy_failover.Heartbeat.Loop.{
  HeartbeatSendObservation, HeartbeatLoopResult, ReceiveError, transport_error, message_error,
  no_error, run_heartbeat_loop_once,
}
use easy_failover.Heartbeat.Loop.Attempted.{run_heartbeat_loop_once-attempted}
use easy_failover.Runtime.Observations.{
  is_due, heartbeat_receive_state_from_loop_result, evaluate_heartbeat_send_schedule,
  heartbeat_send_failed,
}
use easy_failover.Runtime.Lifecycle.{DaemonLifecycleResult, run_daemon_lifecycle_once}
use easy_failover.Runtime.LoopData.{
  DaemonLoopRequest, Environment, HeartbeatRound, LoopState, Outcome, go_on, warmed_up,
  real_network_mutation_requested,
}
use easy_failover.Runtime.Loop.{
  iterate, work, lifecycle_round, finish_round, heartbeat_round, expired_state, lifecycle_request,
  after_lifecycle, note_lifecycle, discovery_round, record_round, discover,
}
use easy_failover.Runtime.Loop.Trace.{after_polling, iterate_cases, return_not_go_on}

All-none_failed :
    (os : List HeartbeatSendObservation)
    → any (λ o. not o.sent || not (is_empty o.error)) os ≡ false
    → All (λ o. (o.sent ≡ true) × (o.error ≡ [])) os
All-none_failed [] h = tt
All-none_failed (o ∷ os) h = ground (arith, All-none_failed os)

All-sent_of :
    (r : HeartbeatLoopResult)
    → heartbeat_send_failed r ≡ false
    → All (λ o. (o.sent ≡ true) × (o.error ≡ [])) r.sends
unfolding heartbeat_send_failed
All-sent_of r h = All-none_failed r.sends h

received_of : (e : ReceiveError) → no_error e ≡ true → e ≡ transport_error []
unfolding no_error
received_of (transport_error []) h = refl
received_of (transport_error (c ∷ cs)) h = absurd (cc h)
received_of (message_error m) h = absurd (cc h)

no_error_of : (e : ReceiveError) → e ≡ transport_error [] → no_error e ≡ true
unfolding no_error
no_error_of (transport_error []) h = refl
no_error_of (transport_error (c ∷ cs)) h = absurd (cc h)
no_error_of (message_error m) h = absurd (cc h)

module _ (T : Toml) {W : Type 0} (env : Environment W) (request : DaemonLoopRequest W) where
  -- The heartbeat part of a round completes the warm-up of a real run.
  abbrev IsWarm : HeartbeatRound → Type 0
  IsWarm h =
      (real_network_mutation_requested request.config request.options ≡ true) × (warmed_up h ≡ true)

  abbrev Completes : HeartbeatRound → LoopState → Type 0
  Completes h s' = (s'.real_mutation_warmup_complete ≡ true) ↔ IsWarm h

  finish-IsWarm :
      (index : ℕ) (h : HeartbeatRound) (l : DaemonLifecycleResult) (s s' : LoopState) (w : W)
      → (finish_round T env request index h l s w).0 ≡ go_on s'
      → s.real_mutation_warmup_complete ≡ false
      → Completes h s'
  unfolding finish_round
  finish-IsWarm index h l s s' w e c =
      (λ d. (ground arith, ground arith), λ z. ground (arith, z.0, z.1))

  after_lifecycle-warm :
      (h : HeartbeatRound) (l : DaemonLifecycleResult) (s : LoopState)
      → (after_lifecycle T env request h l s).real_mutation_warmup_complete
        ≡ s.real_mutation_warmup_complete
  unfolding after_lifecycle note_lifecycle record_round
  after_lifecycle-warm h l s = ground arith

  heartbeat_round-warm :
      (s : LoopState) (w : W)
      → (heartbeat_round T env request s w).0.state.real_mutation_warmup_complete
        ≡ s.real_mutation_warmup_complete
  unfolding heartbeat_round
  heartbeat_round-warm s w = ground arith

  discovery_round-warm :
      (s : LoopState) (w : W)
      → (discovery_round T env request s w).0.real_mutation_warmup_complete
        ≡ s.real_mutation_warmup_complete
  unfolding discovery_round discover
  discovery_round-warm s w = ground arith

  lifecycle-IsWarm :
      (index : ℕ) (h : HeartbeatRound) (s s' : LoopState) (w : W)
      → (lifecycle_round T env request index h s w).0 ≡ go_on s'
      → s.real_mutation_warmup_complete ≡ false
      → Completes h s'
  unfolding lifecycle_round
  lifecycle-IsWarm index h s s' w e c =
      let (l, w1) =
        run_daemon_lifecycle_once env.vip_manager env.ownership_probe
          (lifecycle_request T env request s) w in
      finish-IsWarm index h l (after_lifecycle T env request h l s) s' w1 e
        (after_lifecycle-warm h l s ∙ c)

  work-IsWarm :
      (index : ℕ) (s s' : LoopState) (w : W)
      → (work T env request index s w).0 ≡ go_on s'
      → s.real_mutation_warmup_complete ≡ false
      → Completes (heartbeat_round T env request (expired_state T env request s) w).0 s'
        × ((heartbeat_round T env request (expired_state T env request s) w).0.transport_failed
            ≡ false)
  unfolding work expired_state
  work-IsWarm index s s' w e c =
      let (h, w1) = heartbeat_round T env request (expired_state T env request s) w in
      let (s2, w2) = discovery_round T env request (expired_state T env request h.state) w1 in
      let cold =
        discovery_round-warm (expired_state T env request h.state) w1
        ∙ heartbeat_round-warm (expired_state T env request s) w
        ∙ c in
      if_cases (λ (x : Outcome × W). x.0 ≡ go_on s' → Completes h s' × (h.transport_failed ≡ false))
        h.transport_failed _ _ (λ _ q. absurd (return_not_go_on q))
        (λ alive q. (lifecycle-IsWarm index h s2 s' w2 q cold, alive)) e

  -- The heartbeat cycle that a round in state `s` makes.
  abbrev pub cycle : LoopState → W → HeartbeatLoopResult
  cycle s w =
      (run_heartbeat_loop_once T env.heartbeat_transport s.local_status request.config.peers
        request.config.heartbeat.timeout_ms w).0

  -- A real run, in which a heartbeat is due, all were sent and the receive had no error.
  pub record IsGoodCycle (s : LoopState) (w : W) : Type 0 where
    pub not_dry : request.options.dry_run ≡ false
    pub allowed : request.config.mutation_safety.allow_network_mutation ≡ true
    pub due :
        (s.heartbeat_send_was_due ≡ false)
        ⊎ (request.config.heartbeat.interval_ms
            ≤ℤ s.elapsed_ms -ℤ s.last_heartbeat_send_due_elapsed_ms)
    pub all_sent : All (λ o. (o.sent ≡ true) × (o.error ≡ [])) (cycle s w).sends
    pub received : (cycle s w).receive.error ≡ transport_error []

  heartbeat_round-IsGoodCycle :
      (s : LoopState) (w : W)
      → IsWarm (heartbeat_round T env request (expired_state T env request s) w).0
      → (heartbeat_round T env request (expired_state T env request s) w).0.transport_failed ≡ false
      → IsGoodCycle s w
  unfolding heartbeat_round expired_state heartbeat_receive_state_from_loop_result
      evaluate_heartbeat_send_schedule is_due warmed_up real_network_mutation_requested
  heartbeat_round-IsGoodCycle s w (real, warm) alive = record {
    not_dry = ground arith;
    allowed = ground arith;
    due = ground arith;
    all_sent = All-sent_of (cycle s w) (ground arith);
    received = received_of (cycle s w).receive.error (ground arith);
  }

  IsGoodCycle-IsWarm :
      (s : LoopState) (w : W)
      → IsGoodCycle s w
      → IsWarm (heartbeat_round T env request (expired_state T env request s) w).0
  unfolding heartbeat_round expired_state heartbeat_receive_state_from_loop_result
      evaluate_heartbeat_send_schedule is_due warmed_up real_network_mutation_requested
  IsGoodCycle-IsWarm s w g =
      let attempted =
        run_heartbeat_loop_once-attempted T env.heartbeat_transport s.local_status
          request.config.peers request.config.heartbeat.timeout_ms w in
      (
        ground (arith, g.not_dry, g.allowed),
        ground (arith, g.due, attempted, no_error_of (cycle s w).receive.error g.received),
      )

  -- A round that goes on, in a state before the warm-up, completes it exactly if this is a real run, a
  -- heartbeat was due, all its heartbeats were sent and the receive ended without an error.
  pub iterate-IsGoodCycle_iff :
      (index : ℕ) (s s' : LoopState) (w : W)
      → (iterate T env request index s w).0 ≡ go_on s'
      → s.real_mutation_warmup_complete ≡ false
      → (s'.real_mutation_warmup_complete ≡ true)
        ↔ IsGoodCycle s (after_polling T env request request.shutdown_state w)
  iterate-IsGoodCycle_iff index s s' w e c =
      iterate_cases T env request
        (λ x.
          x.0 ≡ go_on s'
          → (s'.real_mutation_warmup_complete ≡ true)
            ↔ IsGoodCycle s (after_polling T env request request.shutdown_state w))
        index s w (λ handle v q. absurd (return_not_go_on q))
        (λ v p q.
          let (completes, alive) = work-IsWarm index s s' v q c in
          subst (λ u. (s'.real_mutation_warmup_complete ≡ true) ↔ IsGoodCycle s u) p
            (
              λ d. heartbeat_round-IsGoodCycle s v (completes.0 d) alive,
              λ g. completes.1 (IsGoodCycle-IsWarm s v g),
            ))
        e
