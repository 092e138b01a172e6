-- ===== src/Discovery/Udp.antt =====
-- discovery/LinuxUdpDiscoveryTransport.hpp and .cpp, over the UDP sockets of the system. An error of a
-- call has no text here.
use easy_failover.Base.{
  ℕ, zero, suc, Text, codes, eqb, Bool, ◌||◌, Option, none, some, List, [], ◌∷◌, is_empty,
  if◌then◌else◌,
}
use easy_failover.Base.Result.{ok, throw}
use easy_failover.Heartbeat.Endpoint.{UdpHeartbeatEndpoint, parse_udp_heartbeat_endpoint}
use easy_failover.Runtime.LoopData.{DiscoveryTransport}

-- `set_options` is the calls of setsockopt and fcntl, whose results are not looked at; `bind_any`
-- binds to every address, `bind` to one host; an empty `recvfrom` is a count of at most 0.
pub record DiscoverySockets (W : Type 0) : Type 0 where
  pub inet_pton : Text → Bool
  pub socket : W → Option ℕ × W
  pub set_options : ℕ → W → W
  pub bind : ℕ → Text → ℕ → W → Bool × W
  pub bind_any : ℕ → ℕ → W → Bool × W
  pub broadcast : ℕ → ℕ → Text → W → W
  pub recvfrom : ℕ → ℕ → W → Text × W
  pub close : ℕ → W → W

-- The members: a socket that may be missing, and the port.
pub record LinuxUdpDiscoveryTransport : Type 0 where
  pub socket_fd : Option ℕ
  pub port : ℕ

abbrev max_drain_per_call : ℕ
max_drain_per_call = 64

abbrev receive_bytes : ℕ
receive_bytes = 2048

module _ {W : Type 0} (sockets : DiscoverySockets W) where
  bind_host : ℕ → UdpHeartbeatEndpoint → W → Bool × W
  bind_host fd endpoint w =
      if is_empty endpoint.host || eqb endpoint.host (codes "0.0.0.0")
      then sockets.bind_any fd endpoint.port w
      else if sockets.inet_pton endpoint.host
      then sockets.bind fd endpoint.host endpoint.port w
      else sockets.bind_any fd endpoint.port w

  open_on : UdpHeartbeatEndpoint → W → LinuxUdpDiscoveryTransport × W
  unfolding bind_host
  open_on endpoint w =
      let (made, w1) = sockets.socket w in
      elim made [
        | none ↦ (record { socket_fd = none; port = endpoint.port }, w1)
        | some fd ↦
            let (bound, w2) = bind_host fd endpoint (sockets.set_options fd w1) in
            if bound
            then (record { socket_fd = some fd; port = endpoint.port }, w2)
            else (record { socket_fd = none; port = endpoint.port }, sockets.close fd w2)
      ]

  -- The constructor: without a usable address or socket the transport does nothing.
  pub open_discovery_transport : Text → W → LinuxUdpDiscoveryTransport × W
  unfolding open_on
  open_discovery_transport bind_address w =
      elim (parse_udp_heartbeat_endpoint sockets.inet_pton bind_address) [
        | throw error ↦ (record { socket_fd = none; port = 0 }, w)
        | ok endpoint ↦ open_on endpoint w
      ]

  broadcast_beacon : LinuxUdpDiscoveryTransport → Text → W → W
  broadcast_beacon transport payload w = elim transport.socket_fd [
    | none ↦ w
    | some fd ↦ sockets.broadcast fd transport.port payload w
  ]

  -- The loop, for a number of datagrams.
  drain_from : ℕ → ℕ → W → List Text × W
  drain_from zero fd w = ([], w)
  drain_from (suc n) fd w =
      let (payload, w1) = sockets.recvfrom fd receive_bytes w in
      let (more, w2) = drain_from n fd w1 in
      if is_empty payload then ([], w1) else (payload ∷ more, w2)

  drain : LinuxUdpDiscoveryTransport → W → List Text × W
  unfolding drain_from
  drain transport w = elim transport.socket_fd [
    | none ↦ ([], w)
    | some fd ↦ drain_from max_drain_per_call fd w
  ]

  pub discovery_transport : LinuxUdpDiscoveryTransport → DiscoveryTransport W
  unfolding broadcast_beacon drain
  discovery_transport transport = record {
    broadcast = broadcast_beacon transport;
    drain = drain transport;
  }
