-- ===== src/Config/Decode.antt =====
-- config/Config.cpp: configFromTable and its helpers, over the toml++ library as a parameter.
-- A thrown ConfigDecodeError or ConfigParseError is the other result. The file that
-- loadConfigFromFile reads and the host name are arguments.
pub mod Cast
pub mod Sample
mod Tests
use easy_failover.Base.{
  ◌-◌, ◌%◌, ◌^◌, ℤ, pos, negsuc, ltb, Text, codes, Bool, Option, none, some, List, [], ◌∷◌, ◌++◌,
  if◌then◌else◌,
}
use easy_failover.Base.Result.{Result, ok, throw, ◌>>=◌}
use easy_failover.Toml.{Toml}
use easy_failover.Config.{
  Config, VipConfig, HeartbeatConfig, HealthConfig, ElectionConfig, ApiConfig, MutationSafetyConfig,
  DiscoveryConfig, PeerConfig, default_config,
}

pub data ConfigError : Type 0 where
  parse_error : Text → ConfigError
  decode_error : Text → ConfigError

-- static_cast<int> of a std::int64_t: the low 32 bits, as a signed number.
pub to_int : ℤ → ℤ
to_int (pos n) = let r = n % 2 ^ 32 in if ltb r (2 ^ 31) then pos r else negsuc (2 ^ 32 - r - 1)
to_int (negsuc n) = let r = n % 2 ^ 32 in if ltb r (2 ^ 31) then negsuc r else pos (2 ^ 32 - r - 1)

-- std::optional::value_or.
abbrev pub value_or {ℓ} : {A : Type ℓ} → Option A → A → A
value_or none a = a
value_or (some b) a = b

abbrev or_throw : {A : Type 0} → Option A → Text → Result ConfigError A
or_throw none message = throw (decode_error message)
or_throw (some a) message = ok a

module _ (T : Toml) where
  open T use {Table, Node, parse, get, as_string, as_int, as_bool, as_table, as_array}

  -- typedValueIfPresent<T>: `read` is node->value<T>.
  pub typed_value_if_present :
      {A : Type 0} → (Node → Option A) → Table → Text → Result ConfigError (Option A)
  typed_value_if_present read table key = elim (get table key) [
    | none ↦ ok none
    | some node ↦ elim (read node) [
      | none ↦ throw (decode_error (codes "Invalid type for config key: " ++ key))
      | some v ↦ ok (some v)
    ]
  ]

  pub optional : {A : Type 0} → (Node → Option A) → Table → Text → A → Result ConfigError A
  unfolding typed_value_if_present
  optional read table key fallback = do
    v ← typed_value_if_present read table key
    ok (value_or v fallback)

  string_value_or_empty : Table → Text → Result ConfigError Text
  unfolding optional
  string_value_or_empty table key = optional as_string table key []

  optional_string : Table → Text → Text → Result ConfigError Text
  unfolding optional
  optional_string = optional as_string

  optional_int : Table → Text → ℤ → Result ConfigError ℤ
  unfolding optional
  optional_int = optional as_int

  optional_bool : Table → Text → Bool → Result ConfigError Bool
  unfolding optional
  optional_bool = optional as_bool

  pub optional_table : Table → Text → Result ConfigError (Option Table)
  optional_table root key = elim (get root key) [
    | none ↦ ok none
    | some node ↦ elim (as_table node) [
      | none ↦ throw (decode_error (codes "Invalid type for TOML table: " ++ key))
      | some table ↦ ok (some table)
    ]
  ]

  pub required_table : Table → Text → Result ConfigError Table
  unfolding optional_table
  required_table root key = do
    found ← optional_table root key
    or_throw found (codes "Missing required TOML table: " ++ key)

  -- `if (const auto* t = optionalTable(root, key); t != nullptr) { … }` over one part of the config.
  pub part :
      {A : Type 0} → Table → Text → A → (Table → A → Result ConfigError A) → Result ConfigError A
  unfolding optional_table
  part root key before read = do
    found ← optional_table root key
    elim found [ none ↦ ok before | some table ↦ read table before ]

  vip_from : Table → Result ConfigError VipConfig
  unfolding string_value_or_empty
  vip_from vip = do
    address ← string_value_or_empty vip (codes "address")
    interface ← string_value_or_empty vip (codes "interface")
    ok (record { address = address; interface = interface })

  heartbeat_from : Table → HeartbeatConfig → Result ConfigError HeartbeatConfig
  unfolding optional_string optional_int
  heartbeat_from t c = do
    bind ← optional_string t (codes "bind") c.bind
    interval_ms ← optional_int t (codes "interval_ms") c.interval_ms
    timeout_ms ← optional_int t (codes "timeout_ms") c.timeout_ms
    ok (record { bind = bind; interval_ms = interval_ms; timeout_ms = timeout_ms })

  health_from : Table → HealthConfig → Result ConfigError HealthConfig
  unfolding optional_string optional_int
  health_from t c = do
    command ← optional_string t (codes "command") c.command
    interval_ms ← optional_int t (codes "interval_ms") c.interval_ms
    timeout_ms ← optional_int t (codes "timeout_ms") c.timeout_ms
    ok (record { command = command; interval_ms = interval_ms; timeout_ms = timeout_ms })

  election_from : Table → ElectionConfig → Result ConfigError ElectionConfig
  unfolding optional_bool optional_int
  election_from t c = do
    require_quorum ← optional_bool t (codes "require_quorum") c.require_quorum
    preempt ← optional_bool t (codes "preempt") c.preempt
    quorum_size ← optional_int t (codes "quorum_size") c.quorum_size
    ok (record {
      require_quorum = require_quorum;
      preempt = preempt;
      quorum_size = to_int quorum_size;
    })

  api_from : Table → ApiConfig → Result ConfigError ApiConfig
  unfolding optional_bool optional_string
  api_from t c = do
    enabled ← optional_bool t (codes "enabled") c.enabled
    bind ← optional_string t (codes "bind") c.bind
    read_only ← optional_bool t (codes "read_only") c.read_only
    file ← optional_string t (codes "auth_token_file") c.auth_token_file
    ok (record { enabled = enabled; bind = bind; read_only = read_only; auth_token_file = file })

  mutation_safety_from : Table → MutationSafetyConfig → Result ConfigError MutationSafetyConfig
  unfolding optional_bool
  mutation_safety_from t c = do
    allow ← optional_bool t (codes "allow_network_mutation") c.allow_network_mutation
    ok (record { allow_network_mutation = allow })

  discovery_from : Table → DiscoveryConfig → Result ConfigError DiscoveryConfig
  unfolding optional_bool optional_string optional_int
  discovery_from t c = do
    enabled ← optional_bool t (codes "enabled") c.enabled
    cluster ← optional_string t (codes "cluster") c.cluster
    bind ← optional_string t (codes "bind") c.bind
    interval_ms ← optional_int t (codes "interval_ms") c.interval_ms
    timeout_ms ← optional_int t (codes "timeout_ms") c.timeout_ms
    secret_file ← optional_string t (codes "secret_file") c.secret_file
    ok (record {
      enabled = enabled;
      cluster = cluster;
      bind = bind;
      interval_ms = interval_ms;
      timeout_ms = timeout_ms;
      secret_file = secret_file;
    })

  peer_from : Node → Result ConfigError PeerConfig
  unfolding string_value_or_empty
  peer_from node = do
    table ← or_throw (as_table node) (codes "Each peers entry must be a TOML table")
    id ← string_value_or_empty table (codes "id")
    address ← string_value_or_empty table (codes "address")
    ok (record { id = id; address = address })

  peers_loop : List Node → Result ConfigError (List PeerConfig)
  unfolding peer_from
  peers_loop [] = ok []
  peers_loop (n ∷ ns) = do p ← peer_from n; ps ← peers_loop ns; ok (p ∷ ps)

  peers_from : Table → Result ConfigError (List PeerConfig)
  unfolding peers_loop
  peers_from root = elim (get root (codes "peers")) [
    | none ↦ ok []
    | some node ↦ do
      nodes ← or_throw (as_array node) (codes "Invalid type for config key: peers")
      peers_loop nodes
  ]

  pub config_from_table : Option Text → Table → Result ConfigError Config
  unfolding optional_string optional_int required_table part vip_from heartbeat_from health_from
      election_from api_from mutation_safety_from discovery_from peers_from default_config
  config_from_table hostname root = do
    node_id ← optional_string root (codes "node_id") (value_or hostname [])
    priority ← optional_int root (codes "priority") default_config.priority
    vip_table ← required_table root (codes "vip")
    vip ← vip_from vip_table
    heartbeat ← part root (codes "heartbeat") default_config.heartbeat heartbeat_from
    health ← part root (codes "health") default_config.health health_from
    election ← part root (codes "election") default_config.election election_from
    api ← part root (codes "api") default_config.api api_from
    safety ← part root (codes "mutation_safety") default_config.mutation_safety mutation_safety_from
    discovery ← part root (codes "discovery") default_config.discovery discovery_from
    peers ← peers_from root
    ok (record {
      node_id = node_id;
      priority = to_int priority;
      vip = vip;
      heartbeat = heartbeat;
      health = health;
      election = election;
      api = api;
      mutation_safety = safety;
      discovery = discovery;
      peers = peers;
    })

  -- loadConfigFromTomlString.
  pub load_config_from_toml_string : Option Text → Text → Result ConfigError Config
  load_config_from_toml_string hostname content = elim (parse content) [
    | ok root ↦ config_from_table hostname root
    | throw description ↦
        throw (parse_error (codes "Failed to parse candidate config: " ++ description))
  ]

  -- loadConfigFromFile, on the contents that toml::parse_file reads from `path`.
  pub load_config_from_file : Option Text → Text → Text → Result ConfigError Config
  load_config_from_file hostname path content = elim (parse content) [
    | ok root ↦ config_from_table hostname root
    | throw description ↦
        throw
          (parse_error (codes "Failed to parse config '" ++ (path ++ (codes "': " ++ description))))
  ]
