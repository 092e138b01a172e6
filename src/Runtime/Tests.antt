-- ===== src/Runtime/Tests.antt =====
-- Rounds of the daemon and of its loop in a world that counts the claims of the VIP.
use easy_failover.Base.{
  ℕ, suc, ℤ, pos, Text, codes, ◌-ℤ◌, ◌<ℤ◌, ◌≡◌, refl, Bool, true, false, not, ◌⊎◌, none, some, List,
  [], ◌∷◌, ◌++◌, In, All, arith, is_empty, drop, ◌↔◌, if◌then◌else◌, eqb,
}
use easy_failover.Base.Result.{ok, throw}
use easy_failover.Toml.{Toml, Value}
use easy_failover.Config.{Config}
use easy_failover.Core.NodeState.{backup}
use easy_failover.Core.Election.{ranks_below, max_element, choose_highest_priority_healthy_node}
use easy_failover.Core.Decision.{
  PeerStatus, decide_failover_action, lacks_quorum, after_election, take_over, hand_over, is_master,
  elect, local_candidate, peer_candidates, healthy_peer_master,
}
use easy_failover.Heartbeat.Loop.{no_error, run_heartbeat_loop_once}
use easy_failover.Heartbeat.Transport.{HeartbeatTransport}
use easy_failover.Platform.Command.{NetworkCommandRunner, succeeded}
use easy_failover.Platform.VipManager.{
  linux_vip_manager, effective_dry_run, run_commands, build_linux_vip_commands, VipManager,
  VipOperationType, add, remove, announce, VipOperationResult,
}
use easy_failover.Platform.Ownership.{VipOwnershipProbe}
use easy_failover.Runtime.Lifecycle.{
  DaemonLifecycleRequest, run_daemon_lifecycle_once, stopped, faulted, local_status_from_ownership,
  wants_master, wants_backup,
}
use easy_failover.Runtime.Lifecycle.Gate.{
  MayClaim, no_claim_without_right, no_release_without_ownership,
}
use easy_failover.Runtime.Lifecycle.Results.{IsSound, requires_dry_run, round-IsSound}
use easy_failover.Runtime.Observations.{
  DaemonLoopResult, evaluate_heartbeat_send_schedule, heartbeat_receive_state_from_loop_result,
  heartbeat_send_failed, append_observations,
}
use easy_failover.Runtime.Observations.Bounds.{append_observations-latest}
use easy_failover.Runtime.Peers.{active_peer_statuses, expire_peers}
use easy_failover.Runtime.Peers.Live.{
  Heard, LastHeard, IsConfigured, recent_of, active_peer_statuses-recent_of,
}
use easy_failover.Runtime.LoopData.{
  DaemonLoopRequest, Environment, LoopState, Outcome, return, go_on,
  real_network_mutation_requested, warmed_up,
}
use easy_failover.Runtime.Loop.{
  loop_from, iterate, initial_loop_state, lifecycle_request, run_daemon_runtime_loop,
}
use easy_failover.Runtime.Loop.Trace.{loop_from-Ends, run_daemon_runtime_loop-ends}
use easy_failover.Runtime.Loop.Cold.{own_round, own_options, cold_round_faults}
use easy_failover.Runtime.Loop.Warmup.{IsGoodCycle, iterate-IsGoodCycle_iff}
use easy_failover.Runtime.Loop.Recorded.{WithinLimit, loop_from-WithinLimit}

-- The numbers of claims and of releases.
abbrev World : Type 0
World = ℕ × ℕ

abbrev operation : VipOperationType → Text → Text → VipOperationResult
operation type address interface = record {
  request = record { type = type; address = address; interface = interface; dry_run = true };
  success = true;
  dry_run = true;
  commands = [];
  error = [];
}

abbrev manager : VipManager World
manager = record {
  add_vip = λ a i w. (operation add a i, (suc w.0, w.1));
  remove_vip = λ a i w. (operation remove a i, (w.0, suc w.1));
  announce_vip = λ a i w. (operation announce a i, (suc w.0, w.1));
}

-- A probe that answers `owner`.
abbrev probe : Bool → VipOwnershipProbe World
probe owner = record {
  probe_local_vip = λ a i w. (
    record {
      address = a;
      interface = i;
      success = true;
      local_owner = owner;
      commands = [];
      error = [];
    },
    w,
  );
}

abbrev config : Config
config = record {
  node_id = codes "n1";
  priority = pos 150;
  vip = record { address = codes "10.0.0.9/24"; interface = codes "eth0" };
  heartbeat = record { bind = codes "0.0.0.0:7432"; interval_ms = pos 1000; timeout_ms = pos 3000 };
  health = record { command = []; interval_ms = pos 1000; timeout_ms = pos 2000 };
  election = record { require_quorum = false; preempt = true; quorum_size = pos 0 };
  api = record {
    enabled = false;
    bind = codes "127.0.0.1:8743";
    read_only = true;
    auth_token_file = [];
  };
  mutation_safety = record { allow_network_mutation = true };
  discovery = record {
    enabled = false;
    cluster = codes "default";
    bind = codes "0.0.0.0:7433";
    interval_ms = pos 1000;
    timeout_ms = pos 3000;
    secret_file = [];
  };
  peers = [];
}

abbrev round_request : Bool → DaemonLifecycleRequest World
round_request healthy = record {
  config = config;
  dry_run = false;
  initial_state = stopped;
  shutdown_state = none;
  config_prevalidated = true;
  local_healthy = healthy;
  peer_statuses = [];
}

unhealthy_may_not :
    (owner : Bool) → ¬ MayClaim manager (probe true) (λ w. w.0 ≡ 0) (round_request false) owner
unfolding local_status_from_ownership
unhealthy_may_not owner m = absurd (cc m.is_healthy)

no_claim_without_right_example :
    (run_daemon_lifecycle_once manager (probe true) (round_request false) (0, 0)).1.0 ≡ 0
no_claim_without_right_example =
    no_claim_without_right manager (probe true) (λ (w : World). w.0 ≡ 0) (λ a i w p. p)
      (λ a i w p. p) (round_request false) (0, 0) unhealthy_may_not refl

no_release_without_ownership_example :
    (run_daemon_lifecycle_once manager (probe false) (round_request true) (0, 0)).1.1 ≡ 0
no_release_without_ownership_example =
    no_release_without_ownership manager (probe false) (λ (w : World). w.1 ≡ 0) (λ a i w p. p)
      (λ a i w p. p) (λ a i w p. p) (λ a i w. refl) (round_request true) (0, 0) refl

round-IsSound_example :
    IsSound
      (requires_dry_run (round_request true))
      (run_daemon_lifecycle_once manager (probe false) (round_request true) (0, 0)).0
round-IsSound_example = round-IsSound manager (probe false) (round_request true) (0, 0)

-- A transport that answers every receive with an empty error, and no TOML text but the empty one.
abbrev transport : HeartbeatTransport World
transport = record {
  send = λ address payload w.
      (record { sent = true; peer_address = address; payload = payload; error = [] }, w);
  receive = λ timeout w.
      (record { datagram = none; timed_out = true; timeout_ms = timeout; error = [] }, w);
}

abbrev toml : Toml
toml = record {
  Table = Unit {0};
  Node = Value;
  parse = λ t. if is_empty t then ok tt else throw (codes "not empty");
  get = λ t key. none;
  as_string = λ n. none;
  as_int = λ n. none;
  as_bool = λ n. none;
  as_table = λ n. none;
  as_array = λ n. none;
  print = λ fields. [];
}

abbrev environment : Environment World
environment = record {
  vip_manager = manager;
  ownership_probe = probe false;
  heartbeat_transport = transport;
  result_observer = none;
  discovery = record { transport = none; self_mac = []; secret = [] };
  sleep = λ ms w. w;
}

abbrev loop_request : DaemonLoopRequest World
loop_request = record {
  config = config;
  options = record {
    dry_run = false;
    max_iterations = 3;
    run_until_shutdown = false;
    inter_iteration_delay_ms = pos 1000;
    logical_iteration_elapsed_ms = pos 0;
    max_recorded_observations = 100;
  };
  initial_state = stopped;
  shutdown_state = none;
  config_prevalidated = false;
}

run_daemon_runtime_loop-ends_example :
    (r : DaemonLoopResult) × ((run_daemon_runtime_loop toml environment loop_request 4 (0, 0)).0
      ≡ some r)
run_daemon_runtime_loop-ends_example =
    run_daemon_runtime_loop-ends toml environment loop_request refl 4 (0, 0) (omega arith)

abbrev first_state : LoopState
first_state = initial_loop_state toml environment loop_request

cold : first_state.real_mutation_warmup_complete ≡ false
unfolding initial_loop_state
cold = refl

-- A runner that counts in the first number what it really executes.
abbrev runner : NetworkCommandRunner World
runner = record {
  run = λ request w. (
    record {
      request = request;
      exit_code = pos 0;
      executed = not request.dry_run;
      dry_run = request.dry_run;
      output = [];
      error = [];
    },
    if request.dry_run then w else (suc w.0, w.1),
  );
}

cold_round_faults_example :
    ((own_round toml environment loop_request runner first_state (0, 0)).vip_operations ≡ [])
    ⊎ (((own_round toml environment loop_request runner first_state (0, 0)).final_state ≡ faulted)
        × All
            (λ o. o.dry_run ≡ false)
            (own_round toml environment loop_request runner first_state (0, 0)).vip_operations)
cold_round_faults_example =
    cold_round_faults toml environment loop_request runner first_state (0, 0) refl refl cold

-- The first round, before the warm-up, has really executed a command, and ends faulted.
first_round_executes :
    ((run_daemon_lifecycle_once
        (linux_vip_manager runner (own_options toml environment loop_request))
        (probe false)
        (lifecycle_request toml environment loop_request first_state)
        (0, 0)).1.0
      ≡ 1)
    × ((own_round toml environment loop_request runner first_state (0, 0)).final_state ≡ faulted)
unfolding run_daemon_lifecycle_once lifecycle_request initial_loop_state
    real_network_mutation_requested decide_failover_action lacks_quorum after_election take_over
    hand_over is_master elect local_candidate peer_candidates healthy_peer_master
    choose_highest_priority_healthy_node max_element ranks_below eqb codes
    local_status_from_ownership wants_master wants_backup active_peer_statuses linux_vip_manager
    effective_dry_run succeeded run_commands build_linux_vip_commands
first_round_executes = (refl, refl)

state_of : Outcome → LoopState
state_of (return r) = first_state
state_of (go_on s) = s

abbrev second_state : LoopState
second_state = state_of (iterate toml environment loop_request 0 first_state (0, 0)).0

first_round_goes_on :
    (iterate toml environment loop_request 0 first_state (0, 0)).0 ≡ go_on second_state
unfolding state_of iterate initial_loop_state real_network_mutation_requested
    run_daemon_lifecycle_once decide_failover_action lacks_quorum after_election take_over hand_over
    is_master elect local_candidate peer_candidates healthy_peer_master
    choose_highest_priority_healthy_node max_element ranks_below eqb codes
    local_status_from_ownership wants_master wants_backup active_peer_statuses warmed_up
    evaluate_heartbeat_send_schedule heartbeat_receive_state_from_loop_result heartbeat_send_failed
    no_error run_heartbeat_loop_once expire_peers
first_round_goes_on = refl

warm : second_state.real_mutation_warmup_complete ≡ true
unfolding state_of iterate initial_loop_state real_network_mutation_requested
    run_daemon_lifecycle_once decide_failover_action lacks_quorum after_election take_over hand_over
    is_master elect local_candidate peer_candidates healthy_peer_master
    choose_highest_priority_healthy_node max_element ranks_below eqb codes
    local_status_from_ownership wants_master wants_backup active_peer_statuses warmed_up
    evaluate_heartbeat_send_schedule heartbeat_receive_state_from_loop_result heartbeat_send_failed
    no_error run_heartbeat_loop_once expire_peers
warm = refl

iterate-IsGoodCycle_iff_example :
    (second_state.real_mutation_warmup_complete ≡ true)
    ↔ IsGoodCycle toml environment loop_request first_state (0, 0)
iterate-IsGoodCycle_iff_example =
    iterate-IsGoodCycle_iff toml environment loop_request 0 first_state second_state (0, 0)
      first_round_goes_on cold

first_state-IsGoodCycle : IsGoodCycle toml environment loop_request first_state (0, 0)
first_state-IsGoodCycle =
    (iterate-IsGoodCycle_iff toml environment loop_request 0 first_state second_state (0, 0)
        first_round_goes_on cold).0
      warm

abbrev older : List ℕ
older = 1 ∷ 2 ∷ []

abbrev newer : List ℕ
newer = 3 ∷ 4 ∷ 5 ∷ []

append_observations-latest_example : append_observations older newer 3 ≡ drop 2 (older ++ newer)
append_observations-latest_example =
    append_observations-latest older newer 3 (omega arith) (omega arith)

abbrev status : Text → ℤ → PeerStatus
status id priority = record {
  node_id = id;
  priority = priority;
  healthy = true;
  heartbeat_seen = true;
  state = backup;
}

abbrev two_peers : Config
two_peers = record config {
  peers =
      record { id = codes "n2"; address = codes "a" }
      ∷ record { id = codes "n3"; address = codes "b" }
      ∷ [];
}

-- The latest heartbeat of n2, one of a stranger, the only one of n3 and an older one of n2.
abbrev history : List Heard
history =
    (status (codes "n2") (pos 90), pos 3500)
    ∷ (status (codes "n9") (pos 300), pos 3400)
    ∷ (status (codes "n3") (pos 100), pos 500)
    ∷ (status (codes "n2") (pos 80), pos 400)
    ∷ []

active_peer_statuses-recent_of_example :
    In
      (status (codes "n2") (pos 90))
      (active_peer_statuses (expire_peers (pos 4000) (pos 3000) (recent_of two_peers history)))
    ↔ ((at : ℤ) × IsConfigured two_peers (codes "n2")
        × LastHeard (codes "n2") (status (codes "n2") (pos 90)) at history
        × (pos 4000 -ℤ at <ℤ pos 3000))
active_peer_statuses-recent_of_example =
    active_peer_statuses-recent_of two_peers (pos 4000) (pos 3000) history
      (status (codes "n2") (pos 90))

first_state-WithinLimit : WithinLimit 100 first_state.result
unfolding initial_loop_state
first_state-WithinLimit = record {
  validation_errors = omega arith;
  vip_operations = omega arith;
  health_schedules = omega arith;
  send_schedules = omega arith;
  sends = omega arith;
  receive_states = omega arith;
  decisions = omega arith;
}

abbrev three_rounds :
    (r : DaemonLoopResult) × ((loop_from toml environment loop_request 4 0 first_state (0, 0)).0
      ≡ some r)
three_rounds =
    loop_from-Ends toml environment loop_request refl 4 0 first_state (0, 0) (omega arith)
      (omega arith)

loop_from-WithinLimit_example : WithinLimit 100 three_rounds.0
loop_from-WithinLimit_example =
    loop_from-WithinLimit toml environment loop_request (omega arith) 4 0 first_state (0, 0)
      three_rounds.0 first_state-WithinLimit three_rounds.1
