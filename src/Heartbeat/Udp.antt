-- ===== src/Heartbeat/Udp.antt =====
-- heartbeat/UdpHeartbeatTransport.hpp and .cpp, over the UDP sockets of the system. An error of a
-- call comes with its text.
use easy_failover.Base.{
  ℕ, ◌^◌, ◌-◌, ℤ, pos, negsuc, ltb, ◌==◌, Text, codes, Bool, true, false, not, none, some, [], ◌∷◌,
  length, if◌then◌else◌,
}
use easy_failover.Base.Result.{Result, ok, throw}
use easy_failover.Base.Search.{join}
use easy_failover.Heartbeat.Endpoint.{UdpHeartbeatEndpoint, parse_udp_heartbeat_endpoint}
use easy_failover.Heartbeat.Transport.{
  HeartbeatSendResult, HeartbeatReceiveResult, HeartbeatTransport,
}

-- The calls on UDP sockets: `get_socket_name` and the sender of a datagram are addresses as text.
pub record UdpSockets (W : Type 0) : Type 0 where
  pub inet_pton : Text → Bool
  pub socket : W → Result Text ℕ × W
  pub reuse_address : ℕ → W → Result Text Unit × W
  pub bind : ℕ → Text → ℕ → W → Result Text Unit × W
  pub get_socket_name : ℕ → W → Result Text Text × W
  pub sendto : ℕ → Text → ℕ → Text → W → Result Text ℕ × W
  pub poll : ℕ → ℕ → W → Result Text Bool × W
  pub recvfrom : ℕ → ℕ → W → Result Text (Text × Text) × W
  pub close : ℕ → W → W

errno_message : Text → Text → Text
errno_message prefix error = join (prefix ∷ codes ": " ∷ error ∷ [])

module _ {W : Type 0} (sockets : UdpSockets W) where
  -- A call on the new socket that must succeed; the socket is closed otherwise.
  step :
      {A : Type 0}
      → Text
      → ℕ
      → (W → Result Text A × W)
      → (A → W → Result Text (ℕ × Text) × W)
      → W
      → Result Text (ℕ × Text) × W
  unfolding errno_message
  step message fd call next w =
      let (result, w') = call w in
      elim result [
        | throw error ↦ (throw (errno_message message error), sockets.close fd w')
        | ok a ↦ next a w'
      ]

  bound : Text → UdpHeartbeatEndpoint → ℕ → W → Result Text (ℕ × Text) × W
  unfolding step
  bound bind_address endpoint fd =
      step (codes "failed to configure heartbeat UDP socket") fd (sockets.reuse_address fd) λ _.
        step (codes "failed to bind heartbeat UDP socket") fd
          (sockets.bind fd endpoint.host endpoint.port)
          λ _.
            step (codes "failed to inspect heartbeat UDP socket") fd (sockets.get_socket_name fd)
              λ local w. (ok (fd, local), w)

  -- The constructor: the socket and its local address, or the text of the exception.
  pub open_udp_heartbeat_transport : Text → W → Result Text (ℕ × Text) × W
  unfolding bound errno_message
  open_udp_heartbeat_transport bind_address w =
      elim (parse_udp_heartbeat_endpoint sockets.inet_pton bind_address) [
        | throw error ↦ (
          throw (
              join (
                codes "invalid heartbeat bind address '"
                ∷ bind_address
                ∷ codes "': "
                ∷ error
                ∷ [])),
          w,
        )
        | ok endpoint ↦
            let (made, w') = sockets.socket w in
            elim made [
              | throw error ↦
                  (throw (errno_message (codes "failed to open heartbeat UDP socket") error), w')
              | ok fd ↦ bound bind_address endpoint fd w'
            ]
      ]

  not_sent : Text → Text → Text → HeartbeatSendResult
  not_sent peer_address payload error = record {
    sent = false;
    peer_address = peer_address;
    payload = payload;
    error = error;
  }

  sent_result : Text → Text → Result Text ℕ → HeartbeatSendResult
  unfolding not_sent errno_message
  sent_result peer_address payload (throw error) =
      not_sent peer_address payload
        (errno_message (codes "failed to send heartbeat UDP datagram") error)
  sent_result peer_address payload (ok count) =
      if not (count == length payload)
      then not_sent peer_address payload (codes "short heartbeat UDP datagram send")
      else record { sent = true; peer_address = peer_address; payload = payload; error = [] }

  pub send_heartbeat : ℕ → Text → Text → W → HeartbeatSendResult × W
  unfolding not_sent sent_result
  send_heartbeat fd peer_address payload w =
      elim (parse_udp_heartbeat_endpoint sockets.inet_pton peer_address) [
        | throw error ↦ (not_sent peer_address payload error, w)
        | ok endpoint ↦
            let (sent, w') = sockets.sendto fd endpoint.host endpoint.port payload w in
            (sent_result peer_address payload sent, w')
      ]

  -- The timeout of ::poll is an `int` and not negative.
  poll_timeout : ℤ → ℕ
  poll_timeout (pos n) = if ltb (2 ^ 31 - 1) n then 2 ^ 31 - 1 else n
  poll_timeout (negsuc n) = 0

  nothing_received : ℤ → Bool → Text → HeartbeatReceiveResult
  nothing_received timeout_ms timed_out error = record {
    datagram = none;
    timed_out = timed_out;
    timeout_ms = timeout_ms;
    error = error;
  }

  received_result : ℤ → Result Text (Text × Text) → HeartbeatReceiveResult
  unfolding nothing_received errno_message
  received_result timeout_ms (throw error) =
      nothing_received timeout_ms false
        (errno_message (codes "failed to receive heartbeat UDP datagram") error)
  received_result timeout_ms (ok (sender, payload)) = record {
    datagram = some (record { peer_address = sender; payload = payload });
    timed_out = false;
    timeout_ms = timeout_ms;
    error = [];
  }

  pub receive_heartbeat : ℕ → ℤ → W → HeartbeatReceiveResult × W
  unfolding poll_timeout nothing_received received_result errno_message
  receive_heartbeat fd timeout_ms w =
      let (polled, w1) = sockets.poll fd (poll_timeout timeout_ms) w in
      elim polled [
        | throw error ↦ (
          nothing_received timeout_ms false
              (errno_message (codes "failed to poll heartbeat UDP socket") error),
          w1,
        )
        | ok false ↦ (nothing_received timeout_ms true [], w1)
        | ok true ↦
            let (received, w2) = sockets.recvfrom fd 8192 w1 in
            (received_result timeout_ms received, w2)
      ]

  pub udp_heartbeat_transport : ℕ → HeartbeatTransport W
  unfolding send_heartbeat receive_heartbeat
  udp_heartbeat_transport fd = record { send = send_heartbeat fd; receive = receive_heartbeat fd }
