-- ===== src/Platform/VipManager/Gate.antt =====
-- The mutation gate of the VIP manager, and when an operation succeeds.
use easy_failover.Base.{
  subst, ◌⊎◌, inl, inr, pos, eqb_ℤ_iff, Text, ◌≡◌, refl, sym, ◌↔◌, Bool, true, false, List, [], ◌∷◌,
  All, is_empty, arith,
}
use easy_failover.Platform.Command.{
  NetworkCommandRequest, NetworkCommandResult, NetworkCommandRunner, succeeded,
}
use easy_failover.Platform.VipManager.{
  VipOperationType, add, remove, announce, LinuxVipManagerOptions, effective_dry_run,
  build_linux_vip_commands, first_failure, run_commands, run_operation,
}

build-dry :
    (type : VipOperationType) (address interface : Text) (dry : Bool)
    → All (λ c. c.dry_run ≡ dry) (build_linux_vip_commands type address interface dry)
unfolding build_linux_vip_commands
build-dry add a i dry = (refl, tt)
build-dry remove a i dry = (refl, tt)
build-dry announce a i dry = (refl, (refl, tt))

gate_closed :
    (options : LinuxVipManagerOptions)
    → (options.dry_run ≡ true) ⊎ (options.allow_network_mutation ≡ false)
    → effective_dry_run options ≡ true
unfolding effective_dry_run
gate_closed options (inl d) = ground (arith, d)
gate_closed options (inr n) = ground (arith, n)

is_empty-nil : (t : Text) → (is_empty t ≡ true) ↔ (t ≡ [])
is_empty-nil [] = (λ h. refl, λ h. refl)
is_empty-nil (c ∷ cs) = ground arith

-- A command that left with exit code 0 and no error.
pub record IsDone (r : NetworkCommandResult) : Type 0 where
  pub left_well : r.exit_code ≡ pos 0
  pub without_error : r.error ≡ []

succeeded-IsDone : (r : NetworkCommandResult) → (succeeded r ≡ true) ↔ IsDone r
unfolding succeeded
succeeded-IsDone r = (
  λ h. record {
    left_well = ground (arith, eqb_ℤ_iff r.exit_code (pos 0));
    without_error = ground (arith, is_empty-nil r.error);
  },
  λ d.
      ground
        (arith, eqb_ℤ_iff r.exit_code (pos 0), d.left_well, is_empty-nil r.error, d.without_error),
)

-- The verdict is success exactly if every command succeeded.
first_failure_iff : (rs : List NetworkCommandResult) → ((first_failure rs).0 ≡ true) ↔ All IsDone rs
unfolding first_failure
first_failure_iff [] = (λ h. tt, λ h. refl)
first_failure_iff (r ∷ rs) = ground (arith, first_failure_iff rs, succeeded-IsDone r)

module _ {W : Type 0} (runner : NetworkCommandRunner W) where
  -- What the dry runs of the runner keep of the world.
  abbrev pub KeepsDry : (W → Type 0) → Type 0
  KeepsDry P =
      (request : NetworkCommandRequest) (w : W)
      → request.dry_run ≡ true
      → P w
      → P (runner.run request w).1

  run_commands-keeps :
      (P : W → Type 0)
      → KeepsDry P
      → (cs : List NetworkCommandRequest) (w : W) → All (λ c. c.dry_run ≡ true) cs
      → P w
      → P (run_commands runner cs w).1
  unfolding run_commands
  run_commands-keeps P k [] w d p = p
  run_commands-keeps P k (c ∷ cs) w d p =
      run_commands-keeps P k cs (runner.run c w).1 d.1 (k c w d.0 p)

  -- A manager that may not mutate the network, or runs dry, hands the runner dry requests only: an
  -- operation keeps what the dry runs of the runner keep of the world.
  pub run_operation-keeps :
      (P : W → Type 0)
      → KeepsDry P
      → (options : LinuxVipManagerOptions) (type : VipOperationType) (address interface : Text)
        (w : W)
      → (options.dry_run ≡ true) ⊎ (options.allow_network_mutation ≡ false)
      → P w
      → P (run_operation runner options type address interface w).1
  unfolding run_operation
  run_operation-keeps P k options type address interface w d p = ground (
    arith,
    gate_closed options d,
    λ (e : effective_dry_run options ≡ true).
        run_commands-keeps P k
          (build_linux_vip_commands type address interface (effective_dry_run options)) w
          (subst
            (λ b. All (λ c. c.dry_run ≡ true) (build_linux_vip_commands type address interface b))
            (sym e) (build-dry type address interface true))
          p,
  )

  -- Neither dry by its options nor forbidden to mutate, a manager says that an operation was real.
  pub run_operation_dry_run :
      (options : LinuxVipManagerOptions) (type : VipOperationType) (address interface : Text)
      (w : W)
      → options.dry_run ≡ false
      → options.allow_network_mutation ≡ true
      → (run_operation runner options type address interface w).0.dry_run ≡ false
  unfolding run_operation effective_dry_run
  run_operation_dry_run options type address interface w d a = ground arith

  -- An operation succeeds exactly if the address and the interface are given and every command that
  -- it ran left with exit code 0 and no error.
  pub run_operation-success_iff :
      (options : LinuxVipManagerOptions) (type : VipOperationType) (address interface : Text)
      (w : W)
      → ((run_operation runner options type address interface w).0.success ≡ true) ↔ (
          (is_empty address ≡ false)
          × (is_empty interface ≡ false)
          × All IsDone (run_operation runner options type address interface w).0.commands)
  unfolding run_operation
  run_operation-success_iff options type address interface w = ground (
    arith,
    first_failure_iff
        (run_commands runner
          (build_linux_vip_commands type address interface (effective_dry_run options)) w).0,
  )
