-- ===== src/Platform/VipManager.antt =====
-- platform/VipManager.hpp and platform/linux/LinuxVipManager.hpp and .cpp.
-- The log line of a successful operation is not modelled.
pub mod Gate
use easy_failover.Base.{
  Text, codes, Bool, true, false, not, ◌||◌, List, [], ◌∷◌, is_empty, ◌==◌, if◌then◌else◌,
}
use easy_failover.Platform.Command.{
  NetworkCommandRequest, NetworkCommandResult, NetworkCommandRunner, succeeded,
}

pub data VipOperationType : Type 0 where
  add remove announce : VipOperationType

pub operation_to_string : VipOperationType → Text
operation_to_string add = codes "add"
operation_to_string remove = codes "remove"
operation_to_string announce = codes "announce"

pub record VipOperationRequest : Type 0 where
  pub type : VipOperationType
  pub address : Text
  pub interface : Text
  pub dry_run : Bool

pub record VipOperationResult : Type 0 where
  pub request : VipOperationRequest
  pub success : Bool
  pub dry_run : Bool
  pub commands : List NetworkCommandResult
  pub error : Text

-- class VipManager: the three virtual methods, over the state of the world.
pub record VipManager (W : Type 0) : Type 0 where
  pub add_vip : Text → Text → W → VipOperationResult × W
  pub remove_vip : Text → Text → W → VipOperationResult × W
  pub announce_vip : Text → Text → W → VipOperationResult × W

-- The bytes before the first '/', or all of them.
unfoldable pub address_without_prefix : Text → Text
address_without_prefix [] = []
address_without_prefix (c ∷ cs) = if c == b'/' then [] else c ∷ address_without_prefix cs

ip_command : Text → Text → Text → Bool → NetworkCommandRequest
ip_command verb address interface dry_run = record {
  executable = codes "ip";
  arguments = codes "addr" ∷ verb ∷ address ∷ codes "dev" ∷ interface ∷ [];
  dry_run = dry_run;
}

arping_command : Text → Text → Text → Bool → NetworkCommandRequest
arping_command form address interface dry_run = record {
  executable = codes "arping";
  arguments =
      form ∷ codes "-c" ∷ codes "10" ∷ codes "-I" ∷ interface ∷ address_without_prefix address ∷ [];
  dry_run = dry_run;
}

unfoldable pub build_linux_vip_commands :
    VipOperationType → Text → Text → Bool → List NetworkCommandRequest
unfolding ip_command arping_command
build_linux_vip_commands add address interface dry =
    ip_command (codes "add") address interface dry ∷ []
build_linux_vip_commands remove address interface dry =
    ip_command (codes "del") address interface dry ∷ []
build_linux_vip_commands announce address interface dry =
    arping_command (codes "-A") address interface dry
    ∷ arping_command (codes "-U") address interface dry
    ∷ []

pub record LinuxVipManagerOptions : Type 0 where
  pub allow_network_mutation : Bool
  pub dry_run : Bool

-- `effective_dry_run`
unfoldable pub effective_dry_run : LinuxVipManagerOptions → Bool
effective_dry_run options = options.dry_run || not options.allow_network_mutation

-- The first command that failed decides the error.
pub first_failure : List NetworkCommandResult → Bool × Text
first_failure [] = (true, [])
first_failure (r ∷ rs) =
    if succeeded r
    then first_failure rs
    else (false, if is_empty r.error then codes "network command failed" else r.error)

module _ {W : Type 0} (runner : NetworkCommandRunner W) where
  -- Runs the commands in order and collects their results.
  unfoldable pub run_commands : List NetworkCommandRequest → W → List NetworkCommandResult × W
  run_commands [] w = ([], w)
  run_commands (c ∷ cs) w =
      let (r, w1) = runner.run c w in let (rs, w2) = run_commands cs w1 in (r ∷ rs, w2)

  rejected : VipOperationRequest → Text → VipOperationResult
  rejected request error = record {
    request = request;
    success = false;
    dry_run = request.dry_run;
    commands = [];
    error = error;
  }

  finished : VipOperationRequest → List NetworkCommandResult → VipOperationResult
  finished request results = record {
    request = request;
    success = (first_failure results).0;
    dry_run = request.dry_run;
    commands = results;
    error = (first_failure results).1;
  }

  pub run_operation :
      LinuxVipManagerOptions → VipOperationType → Text → Text → W → VipOperationResult × W
  unfolding effective_dry_run rejected finished
  run_operation options type address interface w =
      let request : VipOperationRequest = record {
        type = type;
        address = address;
        interface = interface;
        dry_run = effective_dry_run options;
      } in
      if is_empty address
      then (rejected request (codes "vip address must not be empty"), w)
      else if is_empty interface
      then (rejected request (codes "vip interface must not be empty"), w)
      else let (results, w') =
          run_commands (build_linux_vip_commands type address interface (effective_dry_run options))
            w in
        (finished request results, w')

  unfoldable pub linux_vip_manager : LinuxVipManagerOptions → VipManager W
  unfolding run_operation
  linux_vip_manager options = record {
    add_vip = run_operation options add;
    remove_vip = run_operation options remove;
    announce_vip = run_operation options announce;
  }
