-- ===== src/Runtime/Lifecycle/Gate.antt =====
-- What one round of the daemon may do to the network, and how it ends.
use easy_failover.Base.{
  Text, ◌≡◌, ◌≢◌, refl, inl, inr, Bool, true, false, not, ◌&&◌, ◌||◌, Option, none, some, [],
  is_empty, arith, Bool-cases, if_cases,
}
use easy_failover.Core.Decision.{FailoverAction, become_master, decide_failover_action}
use easy_failover.Core.Decision.Safety.{claims_vip, MayOwn, owner-MayOwn}
use easy_failover.Config.{Config, validate}
use easy_failover.Platform.VipManager.{VipManager}
use easy_failover.Platform.Ownership.{VipOwnershipProbe}
use easy_failover.Runtime.Shutdown.{ShutdownHandle}
use easy_failover.Runtime.Lifecycle.{
  running, DaemonLifecycleRequest, DaemonLifecycleResult, local_status_from_ownership,
  election_policy_from_config, wants_master, claim, release, act, decide_and_act, with_decision,
  probe_and_act, start, shutdown_or_start, run_daemon_lifecycle_once, is_faulted,
}

wants_master-claims : (a : FailoverAction) → wants_master a ≡ claims_vip a
unfolding wants_master claims_vip
wants_master-claims become_master = refl
wants_master-claims _ = refl

-- The result of a round that stops before the probe, or the one that enters it.
pub record IsQuiet (r : DaemonLifecycleResult) : Type 0 where
  pub no_operations : r.vip_operations ≡ []
  pub settled : r.final_state ≢ running

module _ {W : Type 0} (vip_manager : VipManager W) (ownership_probe : VipOwnershipProbe W)
    (request : DaemonLifecycleRequest W) (w : W) (Q : DaemonLifecycleResult × W → Type 0)
    (quiet : (r : DaemonLifecycleResult) → IsQuiet r → Q (r, w))
    (probes : (r : DaemonLifecycleResult)
      → r.vip_operations ≡ []
      → Q (probe_and_act vip_manager ownership_probe request r w)) where
  start_cases :
      (r : DaemonLifecycleResult)
      → r.vip_operations ≡ []
      → Q (start vip_manager ownership_probe request r w)
  unfolding start
  start_cases r e =
      if_cases Q (is_empty request.config.vip.address) _ _
        (λ _. quiet _ (record { no_operations = e; settled = λ h. cc })) (λ _. probes _ e)

  shutdown_or_start_cases :
      (h : Option (ShutdownHandle W))
      → request.shutdown_state ≡ h
      → (r : DaemonLifecycleResult) → r.vip_operations ≡ []
      → Q (shutdown_or_start vip_manager ownership_probe request r w)
  unfolding shutdown_or_start
  shutdown_or_start_cases none h r e = rw (h, shutdown_or_start) (start_cases r e)
  shutdown_or_start_cases (some handle) h r e =
      rw (h, shutdown_or_start)
        (if_cases Q (handle.read w).shutdown_requested _ _
          (λ _. quiet _ (record { no_operations = e; settled = λ h. cc })) (λ _. start_cases r e))

  -- A round stops before the probe, or is the round of `probe_and_act`.
  pub round_cases : Q (run_daemon_lifecycle_once vip_manager ownership_probe request w)
  unfolding run_daemon_lifecycle_once
  round_cases =
      if_cases Q (is_faulted request.initial_state) _ _
        (λ f. quiet _ (record { no_operations = refl; settled = λ h. ground arith }))
        (λ _.
          if_cases Q (not request.config_prevalidated && not (is_empty (validate request.config))) _
            _ (λ _. quiet _ (record { no_operations = refl; settled = λ h. cc }))
            (λ _. shutdown_or_start_cases request.shutdown_state refl _ refl))

module _ {W : Type 0} (vip_manager : VipManager W) (ownership_probe : VipOwnershipProbe W)
    (P : W → Type 0) where
  -- `P` is kept by the call.
  abbrev KeptBy : (Text → Text → W → W) → Type 0
  KeptBy f = (a i : Text) (w : W) → P w → P (f a i w)

  abbrev pub Probes : Type 0
  Probes = KeptBy (λ a i w. (ownership_probe.probe_local_vip a i w).1)

  abbrev pub Removes : Type 0
  Removes = KeptBy (λ a i w. (vip_manager.remove_vip a i w).1)

  abbrev pub Adds : Type 0
  Adds = KeptBy (λ a i w. (vip_manager.add_vip a i w).1)

  abbrev pub Announces : Type 0
  Announces = KeptBy (λ a i w. (vip_manager.announce_vip a i w).1)

  release-keeps :
      Removes
      → (c : Config) (dry require : Bool) (r : DaemonLifecycleResult) (w : W) → P w
      → P (release vip_manager ownership_probe c dry require r w).1
  unfolding release
  release-keeps k c dry require r w p = ground (arith, k c.vip.address c.vip.interface w p)

  act-keeps :
      Removes
      → (request : DaemonLifecycleRequest W) (require : Bool) (r : DaemonLifecycleResult) (w : W)
      → claims_vip r.failover_decision.action ≡ false
      → P w
      → P (act vip_manager ownership_probe request require r w).1
  unfolding act
  act-keeps k request require r w n p = ground (
    arith,
    wants_master-claims r.failover_decision.action,
    release-keeps k request.config request.dry_run require r w p,
  )

  -- The status and the policy that the round of `request` decides with.
  abbrev pub MayClaim : DaemonLifecycleRequest W → Bool → Type 0
  MayClaim request owner =
      MayOwn (local_status_from_ownership request.config request.local_healthy owner)
        request.peer_statuses (election_policy_from_config request.config)

  no_claim :
      (request : DaemonLifecycleRequest W) (owner : Bool)
      → ¬ MayClaim request owner
      → claims_vip
          (decide_failover_action
            (local_status_from_ownership request.config request.local_healthy owner)
            request.peer_statuses
            (election_policy_from_config request.config)).action
        ≡ false
  no_claim request owner n =
      elim (Bool-cases (
        claims_vip
          (decide_failover_action
            (local_status_from_ownership request.config request.local_healthy owner)
            request.peer_statuses (election_policy_from_config request.config)).action)) [
              | inl e ↦ absurd (n (owner-MayOwn _ _ _ e))
              | inr e ↦ e
            ]

  decide_and_act-keeps :
      Removes
      → (request : DaemonLifecycleRequest W) (require known owner : Bool)
        (r : DaemonLifecycleResult) (w : W)
      → ¬ MayClaim request owner
      → P w
      → P (decide_and_act vip_manager ownership_probe request require known owner r w).1
  unfolding decide_and_act with_decision
  decide_and_act-keeps k request require known owner r w n p =
      act-keeps k request require (with_decision vip_manager ownership_probe request known owner r)
        w (no_claim request owner n) p

  probe_and_act-keeps :
      Probes
      → Removes
      → (request : DaemonLifecycleRequest W) (r : DaemonLifecycleResult) (w : W)
      → ((owner : Bool) → ¬ MayClaim request owner)
      → P w
      → P (probe_and_act vip_manager ownership_probe request r w).1
  unfolding probe_and_act
  probe_and_act-keeps kp kr request r w n p =
      let c = request.config in
      let require = request.dry_run || not c.mutation_safety.allow_network_mutation in
      let probed = kp c.vip.address c.vip.interface w p in
      let (o, w1) = ownership_probe.probe_local_vip c.vip.address c.vip.interface w in
      ground (
        arith,
        probed,
        decide_and_act-keeps kr request require false false r w1 (n false) probed,
        decide_and_act-keeps kr request require true o.local_owner r w1 (n o.local_owner) probed,
      )

  -- A round in which the node may not own the VIP, whatever the probe answers (it is unhealthy, or it
  -- requires quorum and observes fewer members than the threshold), keeps whatever of the world the
  -- probe and removeVip keep: it calls neither addVip nor announceVip.
  pub no_claim_without_right :
      Probes
      → Removes
      → (request : DaemonLifecycleRequest W) (w : W) → ((owner : Bool) → ¬ MayClaim request owner)
      → P w
      → P (run_daemon_lifecycle_once vip_manager ownership_probe request w).1
  no_claim_without_right kp kr request w n p =
      round_cases vip_manager ownership_probe request w (λ (x : DaemonLifecycleResult × W). P x.1)
        (λ r q. p) (λ r q. probe_and_act-keeps kp kr request r w n p)

  -- Nothing that the probe answers makes this node an owner.
  abbrev pub NeverOwner : Type 0
  NeverOwner = (a i : Text) (w : W) → (ownership_probe.probe_local_vip a i w).0.local_owner ≡ false

  act-not_owner :
      Adds
      → Announces
      → (request : DaemonLifecycleRequest W) (require : Bool) (r : DaemonLifecycleResult) (w : W)
      → r.local_vip_owner ≡ false
      → P w
      → P (act vip_manager ownership_probe request require r w).1
  unfolding act claim
  act-not_owner ka kn request require r w n p =
      let c = request.config in
      let added = ka c.vip.address c.vip.interface w p in
      ground (
        arith,
        added,
        kn c.vip.address c.vip.interface (vip_manager.add_vip c.vip.address c.vip.interface w).1
            added,
      )

  decide_and_act-not_owner :
      Adds
      → Announces
      → (request : DaemonLifecycleRequest W) (require known owner : Bool)
        (r : DaemonLifecycleResult) (w : W)
      → owner ≡ false
      → P w
      → P (decide_and_act vip_manager ownership_probe request require known owner r w).1
  unfolding decide_and_act with_decision
  decide_and_act-not_owner ka kn request require known owner r w n p =
      act-not_owner ka kn request require
        (with_decision vip_manager ownership_probe request known owner r) w n p

  probe_and_act-not_owner :
      Probes
      → Adds
      → Announces
      → NeverOwner
      → (request : DaemonLifecycleRequest W) (r : DaemonLifecycleResult) (w : W) → P w
      → P (probe_and_act vip_manager ownership_probe request r w).1
  unfolding probe_and_act
  probe_and_act-not_owner kp ka kn never request r w p =
      let c = request.config in
      let require = request.dry_run || not c.mutation_safety.allow_network_mutation in
      let probed = kp c.vip.address c.vip.interface w p in
      let not_here = never c.vip.address c.vip.interface w in
      let (o, w1) = ownership_probe.probe_local_vip c.vip.address c.vip.interface w in
      ground (
        arith,
        probed,
        decide_and_act-not_owner ka kn request require false false r w1 refl probed,
        decide_and_act-not_owner ka kn request require true o.local_owner r w1 not_here probed,
      )

  -- A round whose probe never finds the VIP on this host keeps whatever of the world the probe,
  -- addVip and announceVip keep: it does not call removeVip.
  pub no_release_without_ownership :
      Probes
      → Adds
      → Announces
      → NeverOwner
      → (request : DaemonLifecycleRequest W) (w : W) → P w
      → P (run_daemon_lifecycle_once vip_manager ownership_probe request w).1
  no_release_without_ownership kp ka kn never request w p =
      round_cases vip_manager ownership_probe request w (λ (x : DaemonLifecycleResult × W). P x.1)
        (λ r q. p) (λ r q. probe_and_act-not_owner kp ka kn never request r w p)
