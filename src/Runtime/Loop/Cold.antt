-- ===== src/Runtime/Loop/Cold.antt =====
-- A round before the warm-up of a real run, with the manager that main.cpp builds: its options do not
-- know of the warm-up.
use easy_failover.Base.{Text, ◌≡◌, ◌≢◌, refl, false, true, ◌⊎◌, inl, inr, List, [], ◌∷◌, All, arith}
use easy_failover.Toml.{Toml}
use easy_failover.Platform.Command.{NetworkCommandRunner}
use easy_failover.Platform.VipManager.{
  VipOperationType, add, remove, announce, VipOperationResult, LinuxVipManagerOptions,
  linux_vip_manager,
}
use easy_failover.Platform.VipManager.Gate.{run_operation_dry_run}
use easy_failover.Runtime.Lifecycle.{
  DaemonLifecycleState, DaemonLifecycleResult, run_daemon_lifecycle_once, faulted, stopped, running,
}
use easy_failover.Runtime.Lifecycle.Results.{requires_dry_run, round-IsSound}
use easy_failover.Runtime.Lifecycle.Recorded.{IsReal, AllReal, round-AllReal}
use easy_failover.Runtime.LoopData.{
  DaemonLoopRequest, Environment, LoopState, real_network_mutation_requested,
}
use easy_failover.Runtime.Loop.{gated_config, lifecycle_request}

faulted_or_not : (s : DaemonLifecycleState) → (s ≡ faulted) ⊎ (s ≢ faulted)
faulted_or_not faulted = inl refl
faulted_or_not stopped = inr (λ h. cc h)
faulted_or_not running = inr (λ h. cc h)

linux_vip_manager-IsReal :
    {W : Type 0} (runner : NetworkCommandRunner W) (options : LinuxVipManagerOptions)
    → options.dry_run ≡ false
    → options.allow_network_mutation ≡ true
    → IsReal (linux_vip_manager runner options)
unfolding linux_vip_manager
linux_vip_manager-IsReal {W = W} runner options d a =
    let real = λ (type : VipOperationType) (address interface : Text) (w : W).
      run_operation_dry_run runner options type address interface w d a in
    record { adds = real add; removes = real remove; announces = real announce }

-- An operation cannot be a dry run and a real one.
real_and_dry :
    (os : List VipOperationResult)
    → All (λ o. o.dry_run ≡ false) os
    → All (λ o. o.dry_run ≡ true) os
    → os ≡ []
real_and_dry [] h k = refl
real_and_dry (o ∷ os) h k = absurd (cc (h.0, k.0))

module _ (T : Toml) {W : Type 0} (env : Environment W) (request : DaemonLoopRequest W) where
  -- The options of the manager that main.cpp builds.
  abbrev pub own_options : LinuxVipManagerOptions
  own_options = record {
    allow_network_mutation = request.config.mutation_safety.allow_network_mutation;
    dry_run = request.options.dry_run;
  }

  -- The lifecycle round of the loop in state `s` with that manager.
  abbrev pub own_round : NetworkCommandRunner W → LoopState → W → DaemonLifecycleResult
  own_round runner s w =
      (run_daemon_lifecycle_once (linux_vip_manager runner own_options) env.ownership_probe
        (lifecycle_request T env request s) w).0

  cold_requires_dry_run :
      (s : LoopState)
      → s.real_mutation_warmup_complete ≡ false
      → requires_dry_run (lifecycle_request T env request s) ≡ true
  unfolding lifecycle_request gated_config real_network_mutation_requested
  cold_requires_dry_run s c = ground arith

  -- In a real run with the program's own manager a round before the warm-up records no VIP operation,
  -- or it ends faulted and every operation that it records was a real one.
  pub cold_round_faults :
      (runner : NetworkCommandRunner W) (s : LoopState) (w : W)
      → request.options.dry_run ≡ false
      → request.config.mutation_safety.allow_network_mutation ≡ true
      → s.real_mutation_warmup_complete ≡ false
      → ((own_round runner s w).vip_operations ≡ [])
        ⊎ (((own_round runner s w).final_state ≡ faulted)
            × All (λ o. o.dry_run ≡ false) (own_round runner s w).vip_operations)
  cold_round_faults runner s w d a c =
      let manager = linux_vip_manager runner own_options in
      let asked = lifecycle_request T env request s in
      let real : AllReal (own_round runner s w) =
        round-AllReal manager env.ownership_probe (linux_vip_manager-IsReal runner own_options d a)
          asked w in
      elim (faulted_or_not (own_round runner s w).final_state) [
        | inl f ↦ inr (f, real)
        | inr n ↦ inl (
            real_and_dry (own_round runner s w).vip_operations real (
              (round-IsSound manager env.ownership_probe asked w).dry (cold_requires_dry_run s c)
                n))
      ]
