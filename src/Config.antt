-- ===== src/Config.antt =====
-- config/Config.hpp and config/Config.cpp: the configuration, its defaults and its validation.
-- The decoding of a TOML table is in the child Decode.
pub mod Valid
pub mod Decode
mod Tests
use easy_failover.Base.{
  ℕ, ◌+◌, ℤ, pos, ltb_ℤ, leb_ℤ, Text, codes, Bool, true, false, not, ◌&&◌, List, [], ◌∷◌, ◌++◌,
  length, is_empty, if◌then◌else◌,
}

pub record VipConfig : Type 0 where
  pub address : Text
  pub interface : Text

pub record HeartbeatConfig : Type 0 where
  pub bind : Text
  pub interval_ms : ℤ
  pub timeout_ms : ℤ

pub record HealthConfig : Type 0 where
  pub command : Text
  pub interval_ms : ℤ
  pub timeout_ms : ℤ

pub record ElectionConfig : Type 0 where
  pub require_quorum : Bool
  pub preempt : Bool
  pub quorum_size : ℤ

pub record ApiConfig : Type 0 where
  pub enabled : Bool
  pub bind : Text
  pub read_only : Bool
  pub auth_token_file : Text

pub record MutationSafetyConfig : Type 0 where
  pub allow_network_mutation : Bool

pub record DiscoveryConfig : Type 0 where
  pub enabled : Bool
  pub cluster : Text
  pub bind : Text
  pub interval_ms : ℤ
  pub timeout_ms : ℤ
  pub secret_file : Text

pub record PeerConfig : Type 0 where
  pub id : Text
  pub address : Text

pub record Config : Type 0 where
  pub node_id : Text
  pub priority : ℤ
  pub vip : VipConfig
  pub heartbeat : HeartbeatConfig
  pub health : HealthConfig
  pub election : ElectionConfig
  pub api : ApiConfig
  pub mutation_safety : MutationSafetyConfig
  pub discovery : DiscoveryConfig
  pub peers : List PeerConfig

-- A default-constructed Config.
pub default_config : Config
default_config = record {
  node_id = [];
  priority = pos 100;
  vip = record { address = []; interface = [] };
  heartbeat = record { bind = codes "0.0.0.0:7432"; interval_ms = pos 1000; timeout_ms = pos 3000 };
  health = record { command = []; interval_ms = pos 1000; timeout_ms = pos 2000 };
  election = record { require_quorum = false; preempt = true; quorum_size = pos 0 };
  api = record {
    enabled = false;
    bind = codes "127.0.0.1:8743";
    read_only = true;
    auth_token_file = [];
  };
  mutation_safety = record { allow_network_mutation = false };
  discovery = record {
    enabled = false;
    cluster = codes "default";
    bind = codes "0.0.0.0:7433";
    interval_ms = pos 1000;
    timeout_ms = pos 3000;
    secret_file = [];
  };
  peers = [];
}

-- `if (broken) errors.emplace_back(message);` as the list of what it adds.
report : Bool → Text → List Text
report broken message = if broken then message ∷ [] else []

same_bool : Bool → Bool → Bool
same_bool true b = b
same_bool false b = not b

not_positive : ℤ → Bool
not_positive n = leb_ℤ n (pos 0)

peer_errors : List PeerConfig → List Text
unfolding report
peer_errors [] = []
peer_errors (p ∷ ps) =
    report (is_empty p.id) (codes "peers[].id must not be empty")
    ++ (report (is_empty p.address) (codes "peers[].address must not be empty") ++ peer_errors ps)

discovery_errors : DiscoveryConfig → List Text
unfolding report not_positive
discovery_errors d =
    report (is_empty d.secret_file)
      (codes "discovery.secret_file must be set when discovery.enabled is true")
    ++ (report (is_empty d.cluster)
          (codes "discovery.cluster must not be empty when discovery.enabled is true")
        ++ (report (is_empty d.bind)
              (codes "discovery.bind must not be empty when discovery.enabled is true")
            ++ (report (not_positive d.interval_ms) (codes "discovery.interval_ms must be positive")
                ++ report (not_positive d.timeout_ms)
                    (codes "discovery.timeout_ms must be positive"))))

node_errors : Config → List Text
unfolding report not_positive same_bool
node_errors c =
    report (is_empty c.node_id) (codes "node_id must not be empty")
    ++ (report (not_positive c.priority) (codes "priority must be positive")
        ++ report (not (same_bool (is_empty c.vip.address) (is_empty c.vip.interface)))
            (codes "vip.address and vip.interface must be set together"))

timing_errors : Config → List Text
unfolding report not_positive
timing_errors c =
    report (is_empty c.heartbeat.bind) (codes "heartbeat.bind must not be empty")
    ++ (report (not_positive c.heartbeat.interval_ms)
          (codes "heartbeat.interval_ms must be positive")
        ++ (report (not_positive c.heartbeat.timeout_ms)
              (codes "heartbeat.timeout_ms must be positive")
            ++ (report (not_positive c.health.interval_ms)
                  (codes "health.interval_ms must be positive")
                ++ report (not_positive c.health.timeout_ms)
                    (codes "health.timeout_ms must be positive"))))

election_errors : Config → List Text
unfolding report
election_errors c =
    report (ltb_ℤ c.election.quorum_size (pos 0))
      (codes "election.quorum_size must not be negative")
    ++ (report
          (ltb_ℤ (pos 0) c.election.quorum_size
            && ltb_ℤ (pos (length c.peers + 1)) c.election.quorum_size)
          (codes "election.quorum_size must not exceed the cluster size (peers + 1)")
        ++ report (c.api.enabled && is_empty c.api.bind)
            (codes "api.bind must not be empty when api.enabled is true"))

-- Config::validate, whose checks run in this order.
pub validate : Config → List Text
unfolding node_errors timing_errors peer_errors election_errors discovery_errors
validate c =
    node_errors c
    ++ (timing_errors c
        ++ (peer_errors c.peers
            ++ (election_errors c
                ++ (if c.discovery.enabled then discovery_errors c.discovery else []))))
