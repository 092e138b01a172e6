-- ===== src/Runtime/Lifecycle.antt =====
-- runtime/DaemonRuntime.hpp and .cpp: runDaemonLifecycleOnce, one round of the daemon.
-- The VIP manager and the ownership probe are objects over the state of the world `W`.
pub mod Gate
pub mod Recorded
pub mod Results
use easy_failover.Base.{
  ◌+◌, pos, Text, codes, Bool, true, false, not, ◌&&◌, ◌||◌, Option, none, some, List, [], ◌∷◌,
  ◌++◌, length, all, is_empty, if◌then◌else◌,
}
use easy_failover.Core.NodeState.{backup, master}
use easy_failover.Core.Decision.{
  LocalNodeStatus, PeerStatus, ElectionPolicy, FailoverDecision, FailoverAction, Reason, no_reason,
  stay_backup, become_master, stay_master, become_backup, enter_fault, decide_failover_action,
}
use easy_failover.Config.{Config, validate}
use easy_failover.Platform.VipManager.{VipManager, VipOperationResult}
use easy_failover.Platform.Ownership.{VipOwnershipProbe}
use easy_failover.Runtime.Shutdown.{ShutdownHandle, reason}

pub data DaemonLifecycleState : Type 0 where
  stopped running faulted : DaemonLifecycleState

-- The texts of `detail`: a text of the program or of a called object, or the reason of a decision.
pub data Detail : Type 0 where
  text : Text → Detail
  decision_reason : Reason → Detail

pub record DaemonLifecycleRequest (W : Type 0) : Type 0 where
  pub config : Config
  pub dry_run : Bool
  pub initial_state : DaemonLifecycleState
  pub shutdown_state : Option (ShutdownHandle W)
  pub config_prevalidated : Bool
  pub local_healthy : Bool
  pub peer_statuses : List PeerStatus

pub record DaemonLifecycleResult : Type 0 where
  pub initial_state : DaemonLifecycleState
  pub final_state : DaemonLifecycleState
  pub started : Bool
  pub iteration_ran : Bool
  pub was_stopped : Bool
  pub validation_errors : List Text
  pub vip_operations : List VipOperationResult
  pub local_vip_owner_known : Bool
  pub local_vip_owner : Bool
  pub local_status : LocalNodeStatus
  pub failover_decision : FailoverDecision
  pub detail : Detail

pub is_faulted : DaemonLifecycleState → Bool
is_faulted faulted = true
is_faulted _ = false

is_stopped : DaemonLifecycleState → Bool
is_stopped stopped = true
is_stopped _ = false

unfoldable pub local_status_from_ownership : Config → Bool → Bool → LocalNodeStatus
local_status_from_ownership config local_healthy local_vip_owner = record {
  node_id = config.node_id;
  priority = config.priority;
  healthy = local_healthy;
  state = if local_vip_owner then master else backup;
}

unfoldable pub wants_master : FailoverAction → Bool
wants_master become_master = true
wants_master stay_master = true
wants_master _ = false

unfoldable pub wants_backup : FailoverAction → Bool
wants_backup become_backup = true
wants_backup stay_backup = true
wants_backup _ = false

pub is_enter_fault : FailoverAction → Bool
is_enter_fault enter_fault = true
is_enter_fault _ = false

pub election_policy_from_config : Config → ElectionPolicy
election_policy_from_config config = record {
  require_quorum = config.election.require_quorum;
  quorum_size = config.election.quorum_size;
  cluster_size = pos (length config.peers + 1);
  preempt = config.election.preempt;
}

default_status : LocalNodeStatus
default_status = record { node_id = []; priority = pos 0; healthy = false; state = backup }

default_decision : FailoverDecision
default_decision = record { action = stay_backup; selected_master = none; reason = no_reason }

initial_result : DaemonLifecycleState → DaemonLifecycleResult
unfolding default_status default_decision
initial_result s = record {
  initial_state = s;
  final_state = s;
  started = false;
  iteration_ran = false;
  was_stopped = false;
  validation_errors = [];
  vip_operations = [];
  local_vip_owner_known = false;
  local_vip_owner = false;
  local_status = default_status;
  failover_decision = default_decision;
  detail = text [];
}

-- recordVipOperation: the new result, and whether to go on.
pub record_vip_operation :
    Bool → DaemonLifecycleResult → VipOperationResult → DaemonLifecycleResult × Bool
record_vip_operation require_dry_run r op =
    let ops = r.vip_operations ++ op ∷ [] in
    if require_dry_run && not op.dry_run
    then (
      record r {
        vip_operations = ops;
        final_state = faulted;
        detail = text (codes "dry-run lifecycle received non-dry-run VIP operation");
      },
      false,
    )
    else if not op.success
    then (
      record r {
        vip_operations = ops;
        final_state = faulted;
        detail = text (
            if is_empty op.error
            then (if require_dry_run
                then codes "dry-run lifecycle VIP operation failed"
                else codes "lifecycle VIP operation failed")
            else op.error);
      },
      false,
    )
    else (record r { vip_operations = ops }, true)

pub lifecycle_detail_for_operations : Bool → List VipOperationResult → Text
lifecycle_detail_for_operations dry_run operations =
    if dry_run
    then codes "dry-run lifecycle iteration completed"
    else if all (λ o. o.dry_run) operations
    then codes "mutation safety gate kept lifecycle VIP operations in dry-run mode"
    else codes "real VIP lifecycle iteration completed"

-- The end of a round in which nothing went wrong.
completed : Bool → DaemonLifecycleResult → DaemonLifecycleResult
unfolding lifecycle_detail_for_operations
completed dry_run r = record r {
  detail = text (lifecycle_detail_for_operations dry_run r.vip_operations);
  final_state = stopped;
  was_stopped = true;
}

reason_is_empty : Reason → Bool
reason_is_empty no_reason = true
reason_is_empty _ = false

module _ {W : Type 0} (vip_manager : VipManager W) (ownership_probe : VipOwnershipProbe W) where
  -- addVip, then announceVip.
  pub claim : Config → Bool → Bool → DaemonLifecycleResult → W → DaemonLifecycleResult × W
  unfolding record_vip_operation completed
  claim c dry_run require_dry_run r w =
      let (added, w1) = vip_manager.add_vip c.vip.address c.vip.interface w in
      let (r1, go_on) = record_vip_operation require_dry_run r added in
      let (announced, w2) = vip_manager.announce_vip c.vip.address c.vip.interface w1 in
      let (r2, go_on2) = record_vip_operation require_dry_run r1 announced in
      if go_on then (if go_on2 then (completed dry_run r2, w2) else (r2, w2)) else (r1, w1)

  -- removeVip.
  pub release : Config → Bool → Bool → DaemonLifecycleResult → W → DaemonLifecycleResult × W
  unfolding record_vip_operation completed
  release c dry_run require_dry_run r w =
      let (removed, w1) = vip_manager.remove_vip c.vip.address c.vip.interface w in
      let (r1, go_on) = record_vip_operation require_dry_run r removed in
      if go_on then (completed dry_run r1, w1) else (r1, w1)

  -- From the decision on.
  pub act : DaemonLifecycleRequest W → Bool → DaemonLifecycleResult → W → DaemonLifecycleResult × W
  unfolding claim release is_enter_fault wants_master wants_backup reason_is_empty
  act request require_dry_run r w =
      let decision = r.failover_decision in
      if is_enter_fault decision.action
      then (
        record r {
          final_state = faulted;
          detail =
              if reason_is_empty decision.reason
              then text (codes "failover decision entered fault")
              else decision_reason decision.reason;
        },
        w,
      )
      else if wants_master decision.action && not r.local_vip_owner
      then claim request.config request.dry_run require_dry_run r w
      else if wants_backup decision.action && r.local_vip_owner
      then release request.config request.dry_run require_dry_run r w
      else (completed request.dry_run r, w)

  -- With the ownership known or assumed: the local status and the decision.
  pub with_decision :
      DaemonLifecycleRequest W → Bool → Bool → DaemonLifecycleResult → DaemonLifecycleResult
  unfolding local_status_from_ownership election_policy_from_config
  with_decision request known owner r =
      let status = local_status_from_ownership request.config request.local_healthy owner in
      record r {
        local_vip_owner_known = known;
        local_vip_owner = owner;
        local_status = status;
        failover_decision =
            decide_failover_action status request.peer_statuses
              (election_policy_from_config request.config);
      }

  pub decide_and_act :
      DaemonLifecycleRequest W
      → Bool
      → Bool
      → Bool
      → DaemonLifecycleResult
      → W
      → DaemonLifecycleResult × W
  unfolding act with_decision
  decide_and_act request require_dry_run known owner r w =
      act request require_dry_run (with_decision request known owner r) w

  -- The round of a configured node: probe, decide, act.
  pub probe_and_act :
      DaemonLifecycleRequest W → DaemonLifecycleResult → W → DaemonLifecycleResult × W
  unfolding decide_and_act
  probe_and_act request r w =
      let c = request.config in
      let require_dry_run = request.dry_run || not c.mutation_safety.allow_network_mutation in
      let (ownership, w1) = ownership_probe.probe_local_vip c.vip.address c.vip.interface w in
      if not ownership.success
      then (if not request.dry_run
          then (
            record r {
              final_state = faulted;
              detail = text (
                  if is_empty ownership.error
                  then codes "VIP ownership probe failed"
                  else ownership.error);
            },
            w1,
          )
          else decide_and_act request require_dry_run false false r w1)
      else decide_and_act request require_dry_run true ownership.local_owner r w1

  -- The start of a round: shutdown, then the clean slate without a VIP, then the real round.
  pub start : DaemonLifecycleRequest W → DaemonLifecycleResult → W → DaemonLifecycleResult × W
  unfolding probe_and_act is_stopped local_status_from_ownership
  start request r w =
      let started = record r { started = is_stopped request.initial_state; iteration_ran = true } in
      if is_empty request.config.vip.address
      then (
        record started {
          local_status = local_status_from_ownership request.config request.local_healthy false;
          final_state = stopped;
          detail = text (codes "unconfigured: vip.address not set; daemon idle");
        },
        w,
      )
      else probe_and_act request started w

  pub shutdown_or_start :
      DaemonLifecycleRequest W → DaemonLifecycleResult → W → DaemonLifecycleResult × W
  unfolding start
  shutdown_or_start request r w = elim request.shutdown_state [
    | none ↦ start request r w
    | some handle ↦
        if (handle.read w).shutdown_requested
        then (
          record r {
            final_state = stopped;
            was_stopped = true;
            detail = text (reason (handle.read w));
          },
          w,
        )
        else start request r w
  ]

  unfoldable pub run_daemon_lifecycle_once :
      DaemonLifecycleRequest W → W → DaemonLifecycleResult × W
  unfolding shutdown_or_start initial_result is_faulted
  run_daemon_lifecycle_once request w =
      let r = initial_result request.initial_state in
      let errors = validate request.config in
      if is_faulted request.initial_state
      then (
        record r { detail = text (codes "daemon lifecycle cannot start from faulted state") },
        w,
      )
      else if not request.config_prevalidated && not (is_empty errors)
      then (
        record r {
          validation_errors = errors;
          final_state = faulted;
          detail = text (codes "config validation failed");
        },
        w,
      )
      else shutdown_or_start request r w
