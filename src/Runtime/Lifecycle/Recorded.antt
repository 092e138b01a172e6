-- ===== src/Runtime/Lifecycle/Recorded.antt =====
-- The VIP operations that a round of the daemon records are those that the manager returned.
use easy_failover.Base.{Text, ◌≡◌, ◌∙◌, Bool, false, [], All, arith, subst, sym}
use easy_failover.Config.{Config}
use easy_failover.Platform.VipManager.{VipManager}
use easy_failover.Platform.Ownership.{VipOwnershipProbe}
use easy_failover.Runtime.Lifecycle.{
  DaemonLifecycleRequest, DaemonLifecycleResult, claim, release, decide_and_act, with_decision,
  run_daemon_lifecycle_once,
}
use easy_failover.Runtime.Lifecycle.Gate.{round_cases}
use easy_failover.Runtime.Lifecycle.Results.{requires_dry_run, act_cases, probe_and_act_cases}

-- The manager never runs dry.
pub record IsReal {W : Type 0} (vip_manager : VipManager W) : Type 0 where
  pub adds :
      (address interface : Text) (w : W)
      → (vip_manager.add_vip address interface w).0.dry_run ≡ false
  pub removes :
      (address interface : Text) (w : W)
      → (vip_manager.remove_vip address interface w).0.dry_run ≡ false
  pub announces :
      (address interface : Text) (w : W)
      → (vip_manager.announce_vip address interface w).0.dry_run ≡ false

abbrev pub AllReal : DaemonLifecycleResult → Type 0
AllReal r = All (λ o. o.dry_run ≡ false) r.vip_operations

none_real : (r : DaemonLifecycleResult) → r.vip_operations ≡ [] → AllReal r
none_real r e = subst (λ os. All (λ o. o.dry_run ≡ false) os) (sym e) tt

module _ {W : Type 0} (vip_manager : VipManager W) (ownership_probe : VipOwnershipProbe W)
    (real : IsReal vip_manager) where
  claim-AllReal :
      (c : Config) (dry require : Bool) (r : DaemonLifecycleResult) (w : W)
      → r.vip_operations ≡ []
      → AllReal (claim vip_manager ownership_probe c dry require r w).0
  unfolding claim
  claim-AllReal c dry require r w e =
      let (added, w1) = vip_manager.add_vip c.vip.address c.vip.interface w in
      ground (
        arith,
        real.adds c.vip.address c.vip.interface w,
        real.announces c.vip.address c.vip.interface w1,
      )

  release-AllReal :
      (c : Config) (dry require : Bool) (r : DaemonLifecycleResult) (w : W)
      → r.vip_operations ≡ []
      → AllReal (release vip_manager ownership_probe c dry require r w).0
  unfolding release
  release-AllReal c dry require r w e = ground (arith, real.removes c.vip.address c.vip.interface w)

  decide_and_act-AllReal :
      (request : DaemonLifecycleRequest W) (require known owner : Bool) (r : DaemonLifecycleResult)
      (w : W)
      → r.vip_operations ≡ []
      → AllReal (decide_and_act vip_manager ownership_probe request require known owner r w).0
  unfolding decide_and_act with_decision
  decide_and_act-AllReal request require known owner r w e =
      let r' = with_decision vip_manager ownership_probe request known owner r in
      act_cases vip_manager ownership_probe (λ x. AllReal x.0) request require r' w
        (λ q h n. none_real q (h ∙ e)) (claim-AllReal request.config request.dry_run require r' w e)
        (release-AllReal request.config request.dry_run require r' w e)

  -- Every operation that a round records is real, where the manager never runs dry.
  pub round-AllReal :
      (request : DaemonLifecycleRequest W) (w : W)
      → AllReal (run_daemon_lifecycle_once vip_manager ownership_probe request w).0
  round-AllReal request w =
      round_cases vip_manager ownership_probe request w
        (λ (x : DaemonLifecycleResult × W). AllReal x.0) (λ r q. none_real r q.no_operations)
        (λ r e.
          probe_and_act_cases vip_manager ownership_probe (λ x. AllReal x.0) request r w
            (λ q v h n. none_real q (h ∙ e))
            (λ v known owner.
              decide_and_act-AllReal request (requires_dry_run request) known owner r v e))
