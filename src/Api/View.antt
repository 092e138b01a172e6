-- ===== src/Api/View.antt =====
-- The config response, which shows no secret, and its JSON.
use easy_failover.Base.{Text, codes, not, [], ◌∷◌, map, is_empty}
use easy_failover.Base.Decimal.{decimal_ℤ}
use easy_failover.Base.Search.{join}
use easy_failover.Config.{Config, PeerConfig}
use easy_failover.Api.Data.{LocalApiConfigPeer, LocalApiConfigResponse}
use easy_failover.Api.Json.{json_string, json_bool, separated}

config_peer : PeerConfig → LocalApiConfigPeer
config_peer peer = record { id = peer.id; address = peer.address }

unfoldable pub build_local_api_config_response : Config → LocalApiConfigResponse
unfolding config_peer
build_local_api_config_response config = record {
  node_id = config.node_id;
  priority = config.priority;
  vip = record { address = config.vip.address; interface = config.vip.interface };
  heartbeat = record {
    bind = config.heartbeat.bind;
    interval_ms = config.heartbeat.interval_ms;
    timeout_ms = config.heartbeat.timeout_ms;
  };
  health = record {
    command_redacted = not (is_empty config.health.command);
    interval_ms = config.health.interval_ms;
    timeout_ms = config.health.timeout_ms;
  };
  election = record {
    require_quorum = config.election.require_quorum;
    preempt = config.election.preempt;
    quorum_size = config.election.quorum_size;
  };
  api = record {
    enabled = config.api.enabled;
    bind = config.api.bind;
    read_only = config.api.read_only;
    auth_token_configured = not (is_empty config.api.auth_token_file);
  };
  mutation_safety = record {
    allow_network_mutation = config.mutation_safety.allow_network_mutation;
  };
  peers = map config_peer config.peers;
}

peer_json : LocalApiConfigPeer → Text
peer_json peer = join (
    codes "{\"id\":"
    ∷ json_string peer.id
    ∷ codes ",\"address\":"
    ∷ json_string peer.address
    ∷ codes "}"
    ∷ [])

unfoldable pub serialize_local_api_config_response : LocalApiConfigResponse → Text
unfolding peer_json
serialize_local_api_config_response response = join (
    codes "{\"node_id\":"
    ∷ json_string response.node_id
    ∷ codes ",\"priority\":"
    ∷ decimal_ℤ response.priority
    ∷ codes ",\"vip\":{\"address\":"
    ∷ json_string response.vip.address
    ∷ codes ",\"interface\":"
    ∷ json_string response.vip.interface
    ∷ codes "},\"heartbeat\":{\"bind\":"
    ∷ json_string response.heartbeat.bind
    ∷ codes ",\"interval_ms\":"
    ∷ decimal_ℤ response.heartbeat.interval_ms
    ∷ codes ",\"timeout_ms\":"
    ∷ decimal_ℤ response.heartbeat.timeout_ms
    ∷ codes "},\"health\":{\"command_redacted\":"
    ∷ json_bool response.health.command_redacted
    ∷ codes ",\"interval_ms\":"
    ∷ decimal_ℤ response.health.interval_ms
    ∷ codes ",\"timeout_ms\":"
    ∷ decimal_ℤ response.health.timeout_ms
    ∷ codes "},\"election\":{\"require_quorum\":"
    ∷ json_bool response.election.require_quorum
    ∷ codes ",\"preempt\":"
    ∷ json_bool response.election.preempt
    ∷ codes ",\"quorum_size\":"
    ∷ decimal_ℤ response.election.quorum_size
    ∷ codes "},\"api\":{\"enabled\":"
    ∷ json_bool response.api.enabled
    ∷ codes ",\"bind\":"
    ∷ json_string response.api.bind
    ∷ codes ",\"read_only\":"
    ∷ json_bool response.api.read_only
    ∷ codes ",\"auth_token_configured\":"
    ∷ json_bool response.api.auth_token_configured
    ∷ codes "},\"mutation_safety\":{\"allow_network_mutation\":"
    ∷ json_bool response.mutation_safety.allow_network_mutation
    ∷ codes "},\"peers\":["
    ∷ separated (map peer_json response.peers)
    ∷ codes "]}"
    ∷ [])
