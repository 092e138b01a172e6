-- ===== src/Main/Snapshot/Secrets.antt =====
-- What the snapshot does not show.
use easy_failover.Base.{ℕ, List, length, Text, Bool, Option, none, some, is_empty, ◌≡◌, refl}
use easy_failover.Core.NodeState.{NodeState}
use easy_failover.Core.Decision.{PeerStatus}
use easy_failover.Health.{HealthCheckResult}
use easy_failover.Runtime.Lifecycle.{DaemonLifecycleResult}
use easy_failover.Config.{Config, DiscoveryConfig}
use easy_failover.Runtime.Observations.{DaemonLoopResult, FailoverDecisionObservation}
use easy_failover.Api.Status.{build_local_api_status_response, health_detail_for_status_response}
use easy_failover.Api.View.{build_local_api_config_response}
use easy_failover.Main.Snapshot.{
  build_http_snapshot_from_loop_result, snapshot_at, lifecycle_snapshot, undecided_lifecycle,
  unevaluated_health, latest, node_state_of, pool_of,
}

-- A config with another health command, another token file and another discovery section.
abbrev pub with_secrets : Text → Text → DiscoveryConfig → Config → Config
with_secrets command token_file discovery config = record config {
  health = record config.health { command = command };
  api = record config.api { auth_token_file = token_file };
  discovery = discovery;
}

module _ (config : Config) (command token_file : Text) (discovery : DiscoveryConfig)
    (c : is_empty command ≡ is_empty config.health.command)
    (t : is_empty token_file ≡ is_empty config.api.auth_token_file) where
  abbrev other : Config
  other = with_secrets command token_file discovery config

  view_same : build_local_api_config_response other ≡ build_local_api_config_response config
  unfolding build_local_api_config_response
  view_same = rw (c, t) refl

  health_same : unevaluated_health other ≡ unevaluated_health config
  unfolding unevaluated_health
  health_same = rw c refl

  status_same :
      (lifecycle : DaemonLifecycleResult) (health : HealthCheckResult) (state : NodeState)
      (dry_run : Bool) (observed : ℕ) (pool : List PeerStatus)
      → build_local_api_status_response other lifecycle health state dry_run observed pool
        ≡ build_local_api_status_response config lifecycle health state dry_run observed pool
  unfolding build_local_api_status_response health_detail_for_status_response
  status_same lifecycle health state dry_run observed pool = rw c refl

  lifecycle_same :
      (loop_result : DaemonLoopResult) (decision : Option FailoverDecisionObservation)
      → lifecycle_snapshot other loop_result decision
        ≡ lifecycle_snapshot config loop_result decision
  unfolding lifecycle_snapshot undecided_lifecycle
  lifecycle_same loop_result none = refl
  lifecycle_same loop_result (some latest_decision) = refl

  snapshot_same :
      (loop_result : DaemonLoopResult) (dry_run : Bool)
      (decision : Option FailoverDecisionObservation)
      → snapshot_at other loop_result dry_run decision
        ≡ snapshot_at config loop_result dry_run decision
  unfolding snapshot_at
  snapshot_same loop_result dry_run decision =
      rw (lifecycle_same loop_result decision, health_same, view_same)
        (rw
          (status_same (lifecycle_snapshot config loop_result decision) (unevaluated_health config)
            (node_state_of decision) dry_run (length (pool_of decision)) (pool_of decision))
          refl)

-- The snapshot is the same for every health command and every path of a token file, as long as the
-- same of them are empty, and for every discovery section, its secret file included: nothing that the
-- local API shows depends on them.
pub snapshot_hides_secrets :
    (config : Config) (loop_result : DaemonLoopResult) (dry_run : Bool) (command token_file : Text)
    (discovery : DiscoveryConfig)
    → is_empty command ≡ is_empty config.health.command
    → is_empty token_file ≡ is_empty config.api.auth_token_file
    → build_http_snapshot_from_loop_result
        (with_secrets command token_file discovery config)
        loop_result
        dry_run
      ≡ build_http_snapshot_from_loop_result config loop_result dry_run
unfolding build_http_snapshot_from_loop_result
snapshot_hides_secrets config loop_result dry_run command token_file discovery c t =
    snapshot_same config command token_file discovery c t loop_result dry_run
      (latest loop_result.failover_decisions)
