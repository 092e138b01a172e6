-- ===== src/Platform/Ownership.antt =====
-- platform/VipOwnershipProbe.hpp and platform/linux/LinuxVipOwnershipProbe.hpp and .cpp: whether the
-- VIP stands in the output of `ip addr show`.
pub mod Scan
use easy_failover.Base.{
  ℕ, zero, suc, Text, codes, eqb, leb, ◌==◌, Bool, true, false, ◌&&◌, ◌||◌, List, [], ◌∷◌, length,
  is_empty, if◌then◌else◌,
}
use easy_failover.Platform.Command.{NetworkCommandResult, NetworkCommandRunner, succeeded}
use easy_failover.Platform.VipManager.{address_without_prefix}

pub record VipOwnershipProbeResult : Type 0 where
  pub address : Text
  pub interface : Text
  pub success : Bool
  pub local_owner : Bool
  pub commands : List NetworkCommandResult
  pub error : Text

-- class VipOwnershipProbe, over the state of the world.
pub record VipOwnershipProbe (W : Type 0) : Type 0 where
  pub probe_local_vip : Text → Text → W → VipOwnershipProbeResult × W

-- std::isspace in the "C" locale: space, and \t \n \v \f \r.
unfoldable pub is_space : ℕ → Bool
is_space c = (c == 32) || (leb 9 c && leb c 13)

-- The two inner loops: skip white space, and take the bytes up to the next white space.
unfoldable pub skip_space : Text → Text
skip_space [] = []
skip_space (c ∷ cs) = if is_space c then skip_space cs else c ∷ cs

unfoldable pub token : Text → Text
token [] = []
token (c ∷ cs) = if is_space c then [] else c ∷ token cs

unfoldable pub after_token : Text → Text
after_token [] = []
after_token (c ∷ cs) = if is_space c then c ∷ cs else after_token cs

pub token_matches_address : Text → Text → Text → Bool
token_matches_address t configured host = eqb t configured || eqb t host

-- The outer loop over the rest of the output. Each round consumes a byte or more, so the length of
-- the output is enough fuel.
pub scan : ℕ → Text → Text → Text → Bool
scan zero configured host rest = false
scan (suc fuel) configured host [] = false
scan (suc fuel) configured host (c ∷ cs) =
    let start = skip_space (c ∷ cs) in
    let rest = after_token start in
    let address_start = skip_space rest in
    let rest' = after_token address_start in
    let go_on = scan fuel configured host rest in
    let go_on' = scan fuel configured host rest' in
    if eqb (token start) (codes "inet")
    then (if token_matches_address (token address_start) configured host then true else go_on')
    else go_on

pub output_contains_vip : Text → Text → Bool
unfolding scan
output_contains_vip output configured =
    scan (length output) configured (address_without_prefix configured) output

module _ {W : Type 0} (runner : NetworkCommandRunner W) where
  probe_rejected : Text → Text → Text → VipOwnershipProbeResult
  probe_rejected address interface error = record {
    address = address;
    interface = interface;
    success = false;
    local_owner = false;
    commands = [];
    error = error;
  }

  probe_finished : Text → Text → NetworkCommandResult → VipOwnershipProbeResult
  probe_finished address interface r =
      if succeeded r
      then record {
        address = address;
        interface = interface;
        success = true;
        local_owner = output_contains_vip r.output address;
        commands = r ∷ [];
        error = [];
      }
      else record {
        address = address;
        interface = interface;
        success = false;
        local_owner = false;
        commands = r ∷ [];
        error = if is_empty r.error then codes "VIP ownership probe command failed" else r.error;
      }

  pub probe_local_vip : Text → Text → W → VipOwnershipProbeResult × W
  unfolding probe_rejected probe_finished
  probe_local_vip address interface w =
      if is_empty address
      then (probe_rejected address interface (codes "vip address must not be empty"), w)
      else if is_empty interface
      then (probe_rejected address interface (codes "vip interface must not be empty"), w)
      else let (r, w') =
          runner.run
            (record {
              executable = codes "ip";
              arguments = codes "addr" ∷ codes "show" ∷ codes "dev" ∷ interface ∷ [];
              dry_run = false;
            })
            w in
        (probe_finished address interface r, w')
