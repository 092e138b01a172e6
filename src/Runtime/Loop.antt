-- ===== src/Runtime/Loop.antt =====
-- runtime/DaemonRuntime.cpp: runDaemonRuntimeLoop. One round of the `for` is `iterate`. Elapsed times
-- do not overflow here.
pub mod Cold
pub mod Trace
pub mod Warmup
pub mod Recorded
use easy_failover.Base.{
  ℕ, zero, suc, ℤ, pos, ◌+ℤ◌, ltb_ℤ, Text, codes, eqb, ltb, ◌==◌, Bool, true, false, not, ◌&&◌,
  ◌||◌, Option, none, some, List, [], ◌∷◌, ◌++◌, is_empty, if◌then◌else◌,
}
use easy_failover.Base.Result.{ok, throw}
use easy_failover.Toml.{Toml}
use easy_failover.Config.{Config, validate}
use easy_failover.Core.NodeState.{backup}
use easy_failover.Core.Decision.{LocalNodeStatus, PeerStatus, decide_failover_action}
use easy_failover.Discovery.Beacon.{Beacon, sign_beacon, verify_signed_beacon}
use easy_failover.Discovery.PeerTable.{PeerTable, identity_of, observe, active_peers, prune}
use easy_failover.Heartbeat.Transport.{HeartbeatTransport}
use easy_failover.Heartbeat.Loop.{run_heartbeat_loop_once, no_error}
use easy_failover.Platform.VipManager.{VipManager}
use easy_failover.Platform.Ownership.{VipOwnershipProbe}
use easy_failover.Runtime.Shutdown.{ShutdownHandle, reason}
use easy_failover.Runtime.Lifecycle.{
  DaemonLifecycleState, stopped, faulted, is_faulted, text, DaemonLifecycleRequest,
  DaemonLifecycleResult, run_daemon_lifecycle_once, local_status_from_ownership,
  election_policy_from_config,
}
use easy_failover.Runtime.Observations.{
  DaemonLoopResult, max_iterations, shutdown_requested, lifecycle_faulted,
  HeartbeatSendScheduleObservation, HeartbeatReceiveStateObservation, FailoverDecisionObservation,
  push_observation, append_observations, is_due, evaluate_health_schedule,
  evaluate_heartbeat_send_schedule, heartbeat_receive_state_from_loop_result, no_receive,
  heartbeat_send_failed,
}
use easy_failover.Runtime.Peers.{
  RecentPeer, peer_is_configured, put_recent, expire_peers, active_peer_statuses,
}
use easy_failover.Runtime.LoopData.{
  DaemonLoopOptions, DaemonLoopRequest, DiscoveryContext, DiscoveryTransport, Environment,
  HeartbeatRound, LoopState, Outcome, effective_iteration_elapsed_ms, go_on, ingest, ingest_all,
  make_beacon, real_network_mutation_requested, remember, return, warmed_up,
}

module _ (T : Toml) {W : Type 0} (env : Environment W) (request : DaemonLoopRequest W) where
  open request use {config, options}

  pub limit : ℕ
  limit = options.max_recorded_observations

  pub publish : DaemonLoopResult → W → W
  publish r w = elim env.result_observer [ none ↦ w | some observer ↦ observer r w ]

  -- The part of a round under `if (heartbeat_schedule.due)`, and what stands for it otherwise.
  pub heartbeat_round : LoopState → W → HeartbeatRound × W
  unfolding remember limit
  heartbeat_round s w =
      let schedule =
        evaluate_heartbeat_send_schedule config s.result.iterations_ran s.elapsed_ms
          s.heartbeat_send_was_due s.last_heartbeat_send_due_elapsed_ms in
      let (r, w1) =
        run_heartbeat_loop_once T env.heartbeat_transport s.local_status config.peers
          config.heartbeat.timeout_ms w in
      let receive =
        heartbeat_receive_state_from_loop_result s.result.iterations_ran s.elapsed_ms r in
      if schedule.due
      then (
        record {
          state = record s {
            heartbeat_send_was_due = true;
            last_heartbeat_send_due_elapsed_ms = s.elapsed_ms;
            result = record s.result {
              heartbeat_sends = append_observations s.result.heartbeat_sends r.sends limit;
            };
            recent_peers = remember config s.elapsed_ms r.receive.peer_status s.recent_peers;
          };
          schedule = schedule;
          receive = receive;
          transport_failed =
              real_network_mutation_requested config options
              && (heartbeat_send_failed r || not (no_error receive.error));
        },
        w1,
      )
      else (
        record {
          state = s;
          schedule = schedule;
          receive = no_receive s.result.iterations_ran s.elapsed_ms config.heartbeat.timeout_ms;
          transport_failed = false;
        },
        w,
      )

  -- The `return` on a failed transport before a real mutation.
  pub transport_fault : HeartbeatRound → DaemonLoopResult
  unfolding limit
  transport_fault h = record h.state.result {
    heartbeat_send_schedules =
        push_observation h.state.result.heartbeat_send_schedules h.schedule limit;
    heartbeat_receive_states =
        push_observation h.state.result.heartbeat_receive_states h.receive limit;
    final_state = faulted;
    stop_reason = lifecycle_faulted;
    detail = text (codes "heartbeat transport failed before real VIP mutation");
  }

  -- Discovery with a transport: ingest, broadcast when due, prune.
  pub discover : DiscoveryTransport W → LoopState → W → LoopState × W
  unfolding ingest_all
  discover transport s w =
      let d = env.discovery in
      let (payloads, w1) = transport.drain w in
      let seen = ingest_all config d.secret d.self_mac s.elapsed_ms payloads s.discovery_peers in
      let due =
        is_due s.discovery_send_was_due s.elapsed_ms s.last_discovery_send_elapsed_ms
          config.discovery.interval_ms in
      let seq = suc s.discovery_seq in
      let pruned = prune s.elapsed_ms config.discovery.timeout_ms seen in
      if due
      then (
        record s {
          discovery_send_was_due = true;
          last_discovery_send_elapsed_ms = s.elapsed_ms;
          discovery_seq = seq;
          discovery_peers = pruned;
        },
        transport.broadcast
            (sign_beacon (make_beacon config d.self_mac s.local_status seq) d.secret) w1,
      )
      else (record s { discovery_peers = pruned }, w1)

  -- discovery_active: enabled in the configuration, with a transport.
  pub discovery_active : Bool
  discovery_active = elim env.discovery.transport [
    | none ↦ false
    | some t ↦ config.discovery.enabled
  ]

  pub discovery_round : LoopState → W → LoopState × W
  unfolding discover
  discovery_round s w = elim env.discovery.transport [
    | none ↦ (s, w)
    | some transport ↦ if config.discovery.enabled then discover transport s w else (s, w)
  ]

  pub peer_statuses_of : LoopState → List PeerStatus
  unfolding discovery_active
  peer_statuses_of s =
      active_peer_statuses s.recent_peers
      ++ (if discovery_active
          then active_peers s.elapsed_ms config.discovery.timeout_ms env.discovery.self_mac
              s.discovery_peers
          else [])

  -- lifecycle_config: before the warm-up a real mutation is not allowed.
  pub gated_config : LoopState → Config
  gated_config s =
      if real_network_mutation_requested config options && not s.real_mutation_warmup_complete
      then record config { mutation_safety = record { allow_network_mutation = false } }
      else config

  unfoldable pub lifecycle_request : LoopState → DaemonLifecycleRequest W
  unfolding gated_config peer_statuses_of
  lifecycle_request s = record {
    config = gated_config s;
    dry_run = options.dry_run;
    initial_state = s.current_state;
    shutdown_state = request.shutdown_state;
    config_prevalidated = true;
    local_healthy = true;
    peer_statuses = peer_statuses_of s;
  }

  -- The observations of a round that ran.
  pub record_round : HeartbeatRound → DaemonLifecycleResult → LoopState → LoopState
  unfolding limit peer_statuses_of
  record_round h l s =
      let health =
        evaluate_health_schedule config s.result.iterations_ran s.elapsed_ms s.health_check_was_due
          s.last_due_elapsed_ms in
      let status = local_status_from_ownership config l.local_status.healthy l.local_vip_owner in
      let peers = peer_statuses_of s in
      let decision : FailoverDecisionObservation = record {
        iteration_index = h.receive.iteration_index;
        elapsed_ms = h.receive.elapsed_ms;
        local_status = status;
        peer_statuses = peers;
        decision = decide_failover_action status peers (election_policy_from_config config);
      } in
      record s {
        local_status = l.local_status;
        health_check_was_due = s.health_check_was_due || health.due;
        last_due_elapsed_ms = if health.due then s.elapsed_ms else s.last_due_elapsed_ms;
        result = record s.result {
          health_schedules = push_observation s.result.health_schedules health limit;
          heartbeat_send_schedules =
              push_observation s.result.heartbeat_send_schedules h.schedule limit;
          heartbeat_receive_states =
              push_observation s.result.heartbeat_receive_states h.receive limit;
          failover_decisions =
              if is_faulted l.final_state
              then s.result.failover_decisions
              else push_observation s.result.failover_decisions decision limit;
          iterations_ran = suc s.result.iterations_ran;
        };
      }

  -- The state with the lifecycle's final state, detail, errors and operations.
  pub note_lifecycle : DaemonLifecycleResult → LoopState → LoopState
  unfolding limit
  note_lifecycle l s = record s {
    current_state = l.final_state;
    result = record s.result {
      final_state = l.final_state;
      detail = l.detail;
      validation_errors = append_observations s.result.validation_errors l.validation_errors limit;
      vip_operations = append_observations s.result.vip_operations l.vip_operations limit;
    };
  }

  -- The state after the lifecycle of the round.
  pub after_lifecycle : HeartbeatRound → DaemonLifecycleResult → LoopState → LoopState
  unfolding note_lifecycle record_round
  after_lifecycle h l s =
      let noted = note_lifecycle l s in if l.iteration_ran then record_round h l noted else noted

  -- The end of a round: publish, note the warm-up, stop at the last round, sleep.
  pub finish_round : ℕ → HeartbeatRound → DaemonLifecycleResult → LoopState → W → Outcome × W
  unfolding publish warmed_up effective_iteration_elapsed_ms
  finish_round index h l s w =
      let published = publish s.result w in
      let warm =
        s.real_mutation_warmup_complete
        || (real_network_mutation_requested config options && warmed_up h) in
      let slept =
        if ltb_ℤ (pos 0) options.inter_iteration_delay_ms
        then env.sleep options.inter_iteration_delay_ms published
        else published in
      if is_faulted l.final_state
      then (
        return (record s.result { stop_reason = lifecycle_faulted }),
        publish (record s.result { stop_reason = lifecycle_faulted }) w,
      )
      else if not options.run_until_shutdown && (suc index == options.max_iterations)
      then (
        return (record s.result {
          stop_reason = max_iterations;
          detail = text (codes "max iterations completed");
        }),
        published,
      )
      else (
        go_on (record s {
          real_mutation_warmup_complete = warm;
          elapsed_ms =
              if l.iteration_ran
              then s.elapsed_ms +ℤ effective_iteration_elapsed_ms options
              else s.elapsed_ms;
        }),
        slept,
      )

  pub expired_state : LoopState → LoopState
  expired_state s = record s {
    recent_peers = expire_peers s.elapsed_ms config.heartbeat.timeout_ms s.recent_peers;
  }

  -- The round from the lifecycle on.
  pub lifecycle_round : ℕ → HeartbeatRound → LoopState → W → Outcome × W
  unfolding lifecycle_request after_lifecycle finish_round
  lifecycle_round index h s w =
      let (l, w1) =
        run_daemon_lifecycle_once env.vip_manager env.ownership_probe (lifecycle_request s) w in
      finish_round index h l (after_lifecycle h l s) w1

  -- The round after the test for shutdown.
  pub work : ℕ → LoopState → W → Outcome × W
  unfolding heartbeat_round transport_fault discovery_round lifecycle_round expired_state
  work index s w =
      let (h, w1) = heartbeat_round (expired_state s) w in
      let (s2, w2) = discovery_round (expired_state h.state) w1 in
      if h.transport_failed then (return (transport_fault h), w1) else lifecycle_round index h s2 w2

  pub stopped_by_signal : ShutdownHandle W → DaemonLoopResult → W → DaemonLoopResult
  stopped_by_signal handle r w = record r {
    final_state = stopped;
    stop_reason = shutdown_requested;
    detail = text (reason (handle.read w));
  }

  -- One round: poll the signals, stop if a shutdown is requested, work otherwise.
  unfoldable pub iterate : ℕ → LoopState → W → Outcome × W
  unfolding work stopped_by_signal
  iterate index s w = elim request.shutdown_state [
    | none ↦ work index s w
    | some handle ↦
        let w1 = handle.poll w in
        if (handle.read w1).shutdown_requested
        then (return (stopped_by_signal handle s.result w1), w1)
        else work index s w1
  ]

  -- The `for` loop from round `index` on. `none`: the fuel ran out before the loop returned.
  pub loop_from : ℕ → ℕ → LoopState → W → Option DaemonLoopResult × W
  loop_from zero index s w = (none, w)
  loop_from (suc fuel) index s w =
      elim (options.run_until_shutdown || ltb index options.max_iterations) [
        | false ↦ (some s.result, w)
        | true ↦
            let (o, w1) = iterate index s w in
            elim o [ return r ↦ (some r, w1) | go_on s' ↦ loop_from fuel (suc index) s' w1 ]
      ]

  pub initial_loop_result : DaemonLoopResult
  initial_loop_result = record {
    initial_state = request.initial_state;
    final_state = request.initial_state;
    stop_reason = max_iterations;
    iterations_ran = 0;
    validation_errors = [];
    vip_operations = [];
    health_schedules = [];
    heartbeat_send_schedules = [];
    heartbeat_sends = [];
    heartbeat_receive_states = [];
    failover_decisions = [];
    detail = text (codes "max iterations completed");
  }

  unfoldable pub initial_loop_state : LoopState
  unfolding initial_loop_result
  initial_loop_state = record {
    result = initial_loop_result;
    current_state = request.initial_state;
    elapsed_ms = pos 0;
    health_check_was_due = false;
    last_due_elapsed_ms = pos 0;
    heartbeat_send_was_due = false;
    last_heartbeat_send_due_elapsed_ms = pos 0;
    recent_peers = [];
    local_status = record {
      node_id = config.node_id;
      priority = config.priority;
      healthy = true;
      state = backup;
    };
    real_mutation_warmup_complete = false;
    discovery_peers = [];
    discovery_seq = 0;
    discovery_send_was_due = false;
    last_discovery_send_elapsed_ms = pos 0;
  }

  pub validated_loop : ℕ → W → Option DaemonLoopResult × W
  unfolding loop_from initial_loop_state
  validated_loop fuel w =
      let errors = validate config in
      if not request.config_prevalidated && not (is_empty errors)
      then (
        some (record initial_loop_result {
          validation_errors = errors;
          final_state = faulted;
          stop_reason = lifecycle_faulted;
          detail = text (codes "config validation failed");
        }),
        w,
      )
      else loop_from fuel 0 initial_loop_state w

  pub run_daemon_runtime_loop : ℕ → W → Option DaemonLoopResult × W
  unfolding validated_loop stopped_by_signal
  run_daemon_runtime_loop fuel w = elim request.shutdown_state [
    | none ↦ validated_loop fuel w
    | some handle ↦
        if (handle.read w).shutdown_requested
        then (some (stopped_by_signal handle initial_loop_result w), w)
        else validated_loop fuel w
  ]
