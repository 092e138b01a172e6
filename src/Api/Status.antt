-- ===== src/Api/Status.antt =====
-- The status response and its JSON.
use easy_failover.Base.{
  ℕ, Text, codes, eqb, Bool, List, [], ◌∷◌, map, is_empty, if◌then◌else◌, true, false,
}
use easy_failover.Base.Decimal.{decimal, decimal_ℤ}
use easy_failover.Base.Search.{join}
use easy_failover.Core.NodeState.{NodeState, to_string}
use easy_failover.Core.Decision.{PeerStatus}
use easy_failover.Config.{Config}
use easy_failover.Health.{HealthCheckResult, HealthStatus, healthy, unhealthy, status_to_string}
use easy_failover.Runtime.Lifecycle.{DaemonLifecycleResult}
use easy_failover.Runtime.Log.{lifecycle_state_to_string, detail_text}
use easy_failover.Api.Data.{LocalApiStatusPoolMember, LocalApiStatusResponse}
use easy_failover.Api.Json.{json_string, json_bool, separated}

-- The detail of a health command is not shown.
unfoldable pub health_detail_for_status_response : Config → HealthCheckResult → Text
health_detail_for_status_response config health =
    if is_empty config.health.command
    then health.detail
    else if eqb health.detail (codes "health check not evaluated")
    then health.detail
    else codes "health command detail redacted"

pub is_healthy : HealthStatus → Bool
is_healthy healthy = true
is_healthy unhealthy = false

pool_member : PeerStatus → LocalApiStatusPoolMember
pool_member peer = record {
  node_id = peer.node_id;
  priority = peer.priority;
  healthy = peer.healthy;
  state = to_string peer.state;
}

unfoldable pub build_local_api_status_response :
    Config
    → DaemonLifecycleResult
    → HealthCheckResult
    → NodeState
    → Bool
    → ℕ
    → List PeerStatus
    → LocalApiStatusResponse
unfolding health_detail_for_status_response is_healthy pool_member
build_local_api_status_response config lifecycle health local_node_state dry_run peers_observed
      pool =
    record {
      node = record {
        id = config.node_id;
        priority = config.priority;
        state = to_string local_node_state;
        healthy = is_healthy health.status;
      };
      vip = record {
        address = config.vip.address;
        interface = config.vip.interface;
        local_owner = lifecycle.local_vip_owner;
      };
      lifecycle = record {
        initial_state = lifecycle_state_to_string lifecycle.initial_state;
        final_state = lifecycle_state_to_string lifecycle.final_state;
        detail = detail_text lifecycle.detail;
        dry_run = dry_run;
        started = lifecycle.started;
        iteration_ran = lifecycle.iteration_ran;
        stopped = lifecycle.was_stopped;
      };
      heartbeat = record {
        bind = config.heartbeat.bind;
        interval_ms = config.heartbeat.interval_ms;
        timeout_ms = config.heartbeat.timeout_ms;
        peers_observed = peers_observed;
      };
      health = record {
        status = status_to_string health.status;
        detail = health_detail_for_status_response config health;
      };
      pool = map pool_member pool;
    }

pool_member_json : LocalApiStatusPoolMember → Text
pool_member_json member = join (
    codes "{\"node_id\":"
    ∷ json_string member.node_id
    ∷ codes ",\"priority\":"
    ∷ decimal_ℤ member.priority
    ∷ codes ",\"healthy\":"
    ∷ json_bool member.healthy
    ∷ codes ",\"state\":"
    ∷ json_string member.state
    ∷ codes "}"
    ∷ [])

unfoldable pub serialize_local_api_status_response : LocalApiStatusResponse → Text
unfolding pool_member_json
serialize_local_api_status_response response = join (
    codes "{\"node\":{\"id\":"
    ∷ json_string response.node.id
    ∷ codes ",\"priority\":"
    ∷ decimal_ℤ response.node.priority
    ∷ codes ",\"state\":"
    ∷ json_string response.node.state
    ∷ codes ",\"healthy\":"
    ∷ json_bool response.node.healthy
    ∷ codes "},\"vip\":{\"address\":"
    ∷ json_string response.vip.address
    ∷ codes ",\"interface\":"
    ∷ json_string response.vip.interface
    ∷ codes ",\"local_owner\":"
    ∷ json_bool response.vip.local_owner
    ∷ codes "},\"lifecycle\":{\"initial_state\":"
    ∷ json_string response.lifecycle.initial_state
    ∷ codes ",\"final_state\":"
    ∷ json_string response.lifecycle.final_state
    ∷ codes ",\"detail\":"
    ∷ json_string response.lifecycle.detail
    ∷ codes ",\"dry_run\":"
    ∷ json_bool response.lifecycle.dry_run
    ∷ codes ",\"started\":"
    ∷ json_bool response.lifecycle.started
    ∷ codes ",\"iteration_ran\":"
    ∷ json_bool response.lifecycle.iteration_ran
    ∷ codes ",\"stopped\":"
    ∷ json_bool response.lifecycle.stopped
    ∷ codes "},\"heartbeat\":{\"bind\":"
    ∷ json_string response.heartbeat.bind
    ∷ codes ",\"interval_ms\":"
    ∷ decimal_ℤ response.heartbeat.interval_ms
    ∷ codes ",\"timeout_ms\":"
    ∷ decimal_ℤ response.heartbeat.timeout_ms
    ∷ codes ",\"peers_observed\":"
    ∷ decimal response.heartbeat.peers_observed
    ∷ codes "},\"health\":{\"status\":"
    ∷ json_string response.health.status
    ∷ codes ",\"detail\":"
    ∷ json_string response.health.detail
    ∷ codes "},\"pool\":["
    ∷ separated (map pool_member_json response.pool)
    ∷ codes "]}"
    ∷ [])
