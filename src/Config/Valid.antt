-- ===== src/Config/Valid.antt =====
-- What an empty list of validation errors means.
use easy_failover.Base.{
  ◌+◌, pos, ◌≤ℤ◌, ◌<ℤ◌, ◌≡◌, ◌≢◌, refl, ◌↔◌, Bool, true, false, List, [], ◌∷◌, ◌++◌, length, All,
  arith, if◌then◌else◌,
}
use easy_failover.Config.{
  Config, PeerConfig, DiscoveryConfig, validate, node_errors, timing_errors, peer_errors,
  election_errors, discovery_errors,
}

append_empty : {A : Type 0} (xs ys : List A) → xs ++ ys ≡ [] → (xs ≡ []) × (ys ≡ [])
append_empty [] ys h = (refl, h)
append_empty (x ∷ xs) ys h = cc

pub record PeerIsValid (p : PeerConfig) : Type 0 where
  pub id : p.id ≢ []
  pub address : p.address ≢ []

pub record DiscoveryIsValid (d : DiscoveryConfig) : Type 0 where
  pub secret : d.secret_file ≢ []
  pub cluster : d.cluster ≢ []
  pub bind : d.bind ≢ []
  pub interval : pos 0 <ℤ d.interval_ms
  pub timeout : pos 0 <ℤ d.timeout_ms

-- The rules that the messages of `validate` state.
pub record IsValid (c : Config) : Type 0 where
  pub node_id : c.node_id ≢ []
  pub priority : pos 0 <ℤ c.priority
  pub vip : (c.vip.address ≡ []) ↔ (c.vip.interface ≡ [])
  pub heartbeat_bind : c.heartbeat.bind ≢ []
  pub heartbeat_interval : pos 0 <ℤ c.heartbeat.interval_ms
  pub heartbeat_timeout : pos 0 <ℤ c.heartbeat.timeout_ms
  pub health_interval : pos 0 <ℤ c.health.interval_ms
  pub health_timeout : pos 0 <ℤ c.health.timeout_ms
  pub peers : All PeerIsValid c.peers
  pub quorum_nonneg : pos 0 ≤ℤ c.election.quorum_size
  pub quorum_fits : c.election.quorum_size ≤ℤ pos (length c.peers + 1)
  pub api_bind : c.api.enabled ≡ true → c.api.bind ≢ []
  pub discovery : c.discovery.enabled ≡ true → DiscoveryIsValid c.discovery

-- The five groups of checks, each way.
abbrev NodeRules : Config → Type 0
NodeRules c =
    (c.node_id ≢ []) × (pos 0 <ℤ c.priority) × ((c.vip.address ≡ []) ↔ (c.vip.interface ≡ []))

abbrev TimingRules : Config → Type 0
TimingRules c =
    (c.heartbeat.bind ≢ [])
    × (pos 0 <ℤ c.heartbeat.interval_ms)
    × (pos 0 <ℤ c.heartbeat.timeout_ms)
    × (pos 0 <ℤ c.health.interval_ms)
    × (pos 0 <ℤ c.health.timeout_ms)

abbrev ElectionRules : Config → Type 0
ElectionRules c =
    (pos 0 ≤ℤ c.election.quorum_size)
    × (c.election.quorum_size ≤ℤ pos (length c.peers + 1))
    × (c.api.enabled ≡ true → c.api.bind ≢ [])

node_rules : (c : Config) → (node_errors c ≡ []) ↔ NodeRules c
unfolding node_errors
node_rules c = (λ h. ground arith, λ h. ground arith)

timing_rules : (c : Config) → (timing_errors c ≡ []) ↔ TimingRules c
unfolding timing_errors
timing_rules c = (λ h. ground arith, λ h. ground arith)

election_rules : (c : Config) → (election_errors c ≡ []) ↔ ElectionRules c
unfolding election_errors
election_rules c = (λ h. ground arith, λ h. ground arith)

discovery_rules : (d : DiscoveryConfig) → (discovery_errors d ≡ []) ↔ DiscoveryIsValid d
unfolding discovery_errors
discovery_rules d = (λ h. ground arith, λ h. ground arith)

peer_rules : (ps : List PeerConfig) → (peer_errors ps ≡ []) ↔ All PeerIsValid ps
unfolding peer_errors
peer_rules [] = (λ _. tt, λ _. refl)
peer_rules (p ∷ ps) =
    (λ h. ground (arith, (peer_rules ps).0), λ h. ground (arith, (peer_rules ps).1 h.1))

discovery_if :
    (c : Config) (b : Bool)
    → ((if b then discovery_errors c.discovery else []) ≡ [])
      ↔ (b ≡ true → DiscoveryIsValid c.discovery)
discovery_if c true =
    (λ h _. (discovery_rules c.discovery).0 h, λ h. (discovery_rules c.discovery).1 (h refl))
discovery_if c false = (λ h e. cc, λ h. refl)

validate-nil : (c : Config) → validate c ≡ [] → IsValid c
unfolding validate
validate-nil c h =
    let (n, h1) = append_empty (node_errors c) _ h in
    let (t, h2) = append_empty (timing_errors c) _ h1 in
    let (p, h3) = append_empty (peer_errors c.peers) _ h2 in
    let (e, d) = append_empty (election_errors c) _ h3 in
    let nr = (node_rules c).0 n in
    let tr = (timing_rules c).0 t in
    let er = (election_rules c).0 e in
    record {
      node_id = nr.0;
      priority = nr.1;
      vip = nr.2;
      heartbeat_bind = tr.0;
      heartbeat_interval = tr.1;
      heartbeat_timeout = tr.2;
      health_interval = tr.3;
      health_timeout = tr.4;
      peers = (peer_rules c.peers).0 p;
      quorum_nonneg = er.0;
      quorum_fits = er.1;
      api_bind = er.2;
      discovery = (discovery_if c c.discovery.enabled).0 d;
    }

IsValid-validate : (c : Config) → IsValid c → validate c ≡ []
unfolding validate
IsValid-validate c h = rw (
  (node_rules c).1 (h.node_id, h.priority, h.vip),
  (timing_rules c).1 (
    h.heartbeat_bind, h.heartbeat_interval, h.heartbeat_timeout, h.health_interval,
    h.health_timeout,
  ),
  (peer_rules c.peers).1 h.peers,
  (election_rules c).1 (h.quorum_nonneg, h.quorum_fits, h.api_bind),
  (discovery_if c c.discovery.enabled).1 h.discovery,
)

-- A configuration has no validation errors exactly if it obeys every rule.
pub validate_iff : (c : Config) → (validate c ≡ []) ↔ IsValid c
validate_iff c = (validate-nil c, IsValid-validate c)
