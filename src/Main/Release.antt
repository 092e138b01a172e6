-- ===== src/Main/Release.antt =====
-- The release of the VIP with --release-vip. The log lines are not modelled; the exit code is success
-- in every case.
use easy_failover.Base.{Bool, true, not, ◌||◌, Option, none, some, is_empty, if◌then◌else◌}
use easy_failover.Config.{Config}
use easy_failover.Platform.Command.{NetworkCommandRunner}
use easy_failover.Platform.VipManager.{VipOperationResult, remove, run_operation}
use easy_failover.Platform.Ownership.{VipOwnershipProbeResult, probe_local_vip}

module _ {W : Type 0} (runner : NetworkCommandRunner W) where
  -- What follows a probe: nothing unless it succeeded and found the VIP.
  remove_if_owned : Config → Bool → VipOwnershipProbeResult → W → Option VipOperationResult × W
  remove_if_owned config dry_run ownership w =
      if not ownership.success
      then (none, w)
      else if not ownership.local_owner
      then (none, w)
      else let (result, w') =
          run_operation runner (record { allow_network_mutation = true; dry_run = dry_run }) remove
            config.vip.address config.vip.interface w in
        (some result, w')

  -- The result of the removal, if there was one, and the world after it.
  pub release_vip : Config → Bool → W → Option VipOperationResult × W
  unfolding remove_if_owned
  release_vip config dry_run w =
      if is_empty config.vip.address || is_empty config.vip.interface
      then (none, w)
      else let (ownership, w') = probe_local_vip runner config.vip.address config.vip.interface w in
        remove_if_owned config dry_run ownership w'
