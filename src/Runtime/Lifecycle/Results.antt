-- ===== src/Runtime/Lifecycle/Results.antt =====
-- How a round of the daemon ends: its final state and the VIP operations that it records.
use easy_failover.Base.{
  ◌≤◌, ◌≡◌, ◌≢◌, refl, ◌∙◌, Bool, true, false, not, ◌&&◌, ◌||◌, [], All, length, arith, if_cases,
}
use easy_failover.Config.{Config}
use easy_failover.Platform.VipManager.{VipManager}
use easy_failover.Platform.Ownership.{VipOwnershipProbe}
use easy_failover.Runtime.Lifecycle.{
  stopped, running, faulted, DaemonLifecycleRequest, DaemonLifecycleResult, completed,
  is_enter_fault, wants_master, wants_backup, claim, release, act, decide_and_act, with_decision,
  probe_and_act, run_daemon_lifecycle_once,
}
use easy_failover.Runtime.Lifecycle.Gate.{round_cases}

-- The operations that a round has recorded are fit for its end.
pub record IsSound (require_dry_run : Bool) (r : DaemonLifecycleResult) : Type 0 where
  pub settled : r.final_state ≢ running
  pub few : length r.vip_operations ≤ 2
  pub clean : r.final_state ≢ faulted → All (λ o. o.success ≡ true) r.vip_operations
  pub dry :
      require_dry_run ≡ true
      → r.final_state ≢ faulted
      → All (λ o. o.dry_run ≡ true) r.vip_operations

-- `options.dry_run`, or a configuration that does not allow network mutation.
abbrev pub requires_dry_run : {W : Type 0} → DaemonLifecycleRequest W → Bool
requires_dry_run request =
    request.dry_run || not request.config.mutation_safety.allow_network_mutation

stopped_not_running : stopped ≢ running
stopped_not_running h = cc

faulted_not_running : faulted ≢ running
faulted_not_running h = cc

module _ {W : Type 0} (vip_manager : VipManager W) (ownership_probe : VipOwnershipProbe W) where
  claim-IsSound :
      (c : Config) (dry require : Bool) (r : DaemonLifecycleResult) (w : W)
      → r.vip_operations ≡ []
      → IsSound require (claim vip_manager ownership_probe c dry require r w).0
  unfolding claim
  claim-IsSound c dry require r w e = record {
    settled = ground arith;
    few = ground arith;
    clean = ground arith;
    dry = ground arith;
  }

  release-IsSound :
      (c : Config) (dry require : Bool) (r : DaemonLifecycleResult) (w : W)
      → r.vip_operations ≡ []
      → IsSound require (release vip_manager ownership_probe c dry require r w).0
  unfolding release
  release-IsSound c dry require r w e = record {
    settled = ground arith;
    few = ground arith;
    clean = ground arith;
    dry = ground arith;
  }

  quiet-IsSound :
      (require : Bool) (r : DaemonLifecycleResult)
      → r.vip_operations ≡ []
      → r.final_state ≢ running
      → IsSound require r
  quiet-IsSound require r e n = record {
    settled = n;
    few = ground arith;
    clean = ground arith;
    dry = ground arith;
  }

  pub act_cases :
      (Q : DaemonLifecycleResult × W → Type 0)
      → (request : DaemonLifecycleRequest W) (require : Bool) (r : DaemonLifecycleResult) (w : W)
      → ((q : DaemonLifecycleResult)
          → q.vip_operations ≡ r.vip_operations
          → q.final_state ≢ running
          → Q (q, w))
      → Q (claim vip_manager ownership_probe request.config request.dry_run require r w)
      → Q (release vip_manager ownership_probe request.config request.dry_run require r w)
      → Q (act vip_manager ownership_probe request require r w)
  unfolding act completed
  act_cases Q request require r w quiet claims releases =
      let a = r.failover_decision.action in
      if_cases Q (is_enter_fault a) _ _ (λ _. quiet _ refl faulted_not_running)
        (λ _.
          if_cases Q (wants_master a && not r.local_vip_owner) _ _ (λ _. claims)
            (λ _.
              if_cases Q (wants_backup a && r.local_vip_owner) _ _ (λ _. releases)
                (λ _. quiet _ refl stopped_not_running)))

  act-IsSound :
      (request : DaemonLifecycleRequest W) (require : Bool) (r : DaemonLifecycleResult) (w : W)
      → r.vip_operations ≡ []
      → IsSound require (act vip_manager ownership_probe request require r w).0
  act-IsSound request require r w e =
      act_cases (λ x. IsSound require x.0) request require r w
        (λ q h n. quiet-IsSound require q (h ∙ e) n)
        (claim-IsSound request.config request.dry_run require r w e)
        (release-IsSound request.config request.dry_run require r w e)

  pub probe_and_act_cases :
      (Q : DaemonLifecycleResult × W → Type 0)
      → (request : DaemonLifecycleRequest W) (r : DaemonLifecycleResult) (w : W)
      → ((q : DaemonLifecycleResult) (v : W)
          → q.vip_operations ≡ r.vip_operations
          → q.final_state ≢ running
          → Q (q, v))
      → ((v : W) (known owner : Bool)
          → Q (
              decide_and_act vip_manager ownership_probe request
                (requires_dry_run request)
                known
                owner
                r
                v))
      → Q (probe_and_act vip_manager ownership_probe request r w)
  unfolding probe_and_act
  probe_and_act_cases Q request r w quiet acts =
      let c = request.config in
      let (o, w1) = ownership_probe.probe_local_vip c.vip.address c.vip.interface w in
      if_cases Q (not o.success) _ _
        (λ _.
          if_cases Q (not request.dry_run) _ _ (λ _. quiet _ w1 refl faulted_not_running)
            (λ _. acts w1 false false))
        (λ _. acts w1 true o.local_owner)

  decide_and_act-IsSound :
      (request : DaemonLifecycleRequest W) (require known owner : Bool) (r : DaemonLifecycleResult)
      (w : W)
      → r.vip_operations ≡ []
      → IsSound require
          (decide_and_act vip_manager ownership_probe request require known owner r w).0
  unfolding decide_and_act with_decision
  decide_and_act-IsSound request require known owner r w e =
      act-IsSound request require (with_decision vip_manager ownership_probe request known owner r)
        w e

  probe_and_act-IsSound :
      (request : DaemonLifecycleRequest W) (r : DaemonLifecycleResult) (w : W)
      → r.vip_operations ≡ []
      → IsSound (requires_dry_run request) (probe_and_act vip_manager ownership_probe request r w).0
  probe_and_act-IsSound request r w e =
      probe_and_act_cases (λ x. IsSound (requires_dry_run request) x.0) request r w
        (λ q v h n. quiet-IsSound (requires_dry_run request) q (h ∙ e) n)
        (λ v known owner.
          decide_and_act-IsSound request (requires_dry_run request) known owner r v e)

  -- A round ends stopped or faulted, never running, and records at most two VIP operations; if it
  -- does not end faulted, each of them succeeded and, where a dry run is required, was a dry run.
  pub round-IsSound :
      (request : DaemonLifecycleRequest W) (w : W)
      → IsSound
          (requires_dry_run request)
          (run_daemon_lifecycle_once vip_manager ownership_probe request w).0
  round-IsSound request w =
      round_cases vip_manager ownership_probe request w
        (λ (x : DaemonLifecycleResult × W). IsSound (requires_dry_run request) x.0)
        (λ r q. quiet-IsSound (requires_dry_run request) r q.no_operations q.settled)
        (λ r e. probe_and_act-IsSound request r w e)
