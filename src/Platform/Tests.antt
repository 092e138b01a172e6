-- ===== src/Platform/Tests.antt =====
-- Operations of the VIP manager with a runner that counts what it really executes.
use easy_failover.Base.{
  ℕ, suc, pos, Text, codes, ◌≡◌, refl, inr, ◌↔◌, true, false, not, [], All, arith, is_empty,
  if◌then◌else◌,
}
use easy_failover.Platform.Command.{NetworkCommandRequest, NetworkCommandRunner}
use easy_failover.Platform.VipManager.{add, LinuxVipManagerOptions, run_operation}
use easy_failover.Platform.VipManager.Gate.{IsDone, run_operation-keeps, run_operation-success_iff}
use easy_failover.Platform.Ownership.{output_contains_vip}
use easy_failover.Platform.Ownership.Scan.{IsHost, names_vip, words_of, output_contains_vip-words}

abbrev runner : NetworkCommandRunner ℕ
runner = record {
  run = λ request w. (
    record {
      request = request;
      exit_code = pos 0;
      executed = not request.dry_run;
      dry_run = request.dry_run;
      output = [];
      error = [];
    },
    if request.dry_run then w else suc w,
  );
}

abbrev gate_closed : LinuxVipManagerOptions
gate_closed = record { allow_network_mutation = false; dry_run = false }

dry_runs_execute_nothing :
    (request : NetworkCommandRequest) (w : ℕ)
    → request.dry_run ≡ true
    → w ≡ 0
    → (runner.run request w).1 ≡ 0
dry_runs_execute_nothing request w d p = ground (arith, d, p)

run_operation-keeps_example :
    (run_operation runner gate_closed add (codes "10.0.0.9/24") (codes "eth0") 0).1 ≡ 0
run_operation-keeps_example =
    run_operation-keeps runner (λ (w : ℕ). w ≡ 0) dry_runs_execute_nothing gate_closed add
      (codes "10.0.0.9/24") (codes "eth0") 0 (inr refl) refl

run_operation-success_iff_example :
    ((run_operation runner gate_closed add (codes "10.0.0.9/24") (codes "eth0") 0).0.success ≡ true)
    ↔ ((is_empty (codes "10.0.0.9/24") ≡ false)
        × (is_empty (codes "eth0") ≡ false)
        × All IsDone
            (run_operation runner gate_closed add
              (codes "10.0.0.9/24")
              (codes "eth0")
              0).0.commands)
run_operation-success_iff_example =
    run_operation-success_iff runner gate_closed add (codes "10.0.0.9/24") (codes "eth0") 0

abbrev output : Text
output = codes "2: eth0: inet6 10.0.0.9/24 inet 10.0.0.8/24 scope inet 10.0.0.9/32"

abbrev vip : Text
vip = codes "10.0.0.9/24"

abbrev vip_host : Text
vip_host = codes "10.0.0.9"

vip_host-IsHost : IsHost vip_host vip
unfolding codes
vip_host-IsHost = ((λ i. ground arith), inr (codes "24", refl))

output_contains_vip-words_example :
    output_contains_vip output vip ≡ names_vip vip vip_host (words_of output)
output_contains_vip-words_example = output_contains_vip-words output vip vip_host vip_host-IsHost
