-- ===== src/Heartbeat/Endpoint.antt =====
-- parseUdpHeartbeatEndpoint of heartbeat/UdpHeartbeatTransport.cpp. `inet_pton` is whether a host is an
-- IPv4 address.
mod Tests
use easy_failover.Base.{
  ℕ, ℤ, pos, negsuc, leb, ◌==◌, Text, codes, Bool, not, ◌||◌, Option, none, some, [], ◌∷◌, ◌++◌,
  is_empty, any, all, if◌then◌else◌, zero, suc,
}
use easy_failover.Base.Decimal.{decimal, is_digit, leading}
use easy_failover.Base.Result.{Result, ok, throw, ◌>>=◌}
use easy_failover.Base.Search.{cut}

pub record UdpHeartbeatEndpoint : Type 0 where
  pub host : Text
  pub port : ℕ
  pub normalized_address : Text

-- std::from_chars into an `int` that reads all of the text: one '-' may stand in front. A number
-- beyond `int` is an error, as one beyond a port is.
digits_value : Text → Option ℕ
digits_value digits =
    if is_empty digits || not (all is_digit digits) then none else some (leading 0 digits)

abbrev negated : Option ℕ → Option ℤ
negated none = none
negated (some zero) = some (pos 0)
negated (some (suc n)) = some (negsuc n)

abbrev as_positive : Option ℕ → Option ℤ
as_positive none = none
as_positive (some n) = some (pos n)

whole_int : Text → Option ℤ
unfolding digits_value
whole_int [] = none
whole_int (c ∷ cs) =
    if c == b'-' then negated (digits_value cs) else as_positive (digits_value (c ∷ cs))

port_of : Option ℤ → Result Text ℕ
port_of (some (pos n)) =
    if leb n 65535 then ok n else throw (codes "heartbeat port must be 0-65535")
port_of (some (negsuc n)) = throw (codes "heartbeat port must be 0-65535")
port_of none = throw (codes "heartbeat port must be 0-65535")

shape_error : Result Text (Text × Text)
shape_error = throw (codes "heartbeat address must be an IPv4 host:port pair")

-- One ':' with something on both sides.
host_and_port : Option (Text × Text) → Result Text (Text × Text)
unfolding shape_error
host_and_port none = shape_error
host_and_port (some (host, port_text)) =
    if is_empty host || is_empty port_text || any (λ c. c == b':') port_text
    then shape_error
    else ok (host, port_text)

module _ (inet_pton : Text → Bool) where
  endpoint_on : Text → ℕ → Result Text UdpHeartbeatEndpoint
  endpoint_on host port =
      if inet_pton host
      then ok (record {
        host = host;
        port = port;
        normalized_address = host ++ (codes ":" ++ decimal port);
      })
      else throw (codes "heartbeat host must be an IPv4 address")

  -- The endpoint, or the error.
  pub parse_udp_heartbeat_endpoint : Text → Result Text UdpHeartbeatEndpoint
  unfolding host_and_port whole_int port_of endpoint_on cut
  parse_udp_heartbeat_endpoint address = do
    (host, port_text) ← host_and_port (cut (codes ":") address)
    port ← port_of (whole_int port_text)
    endpoint_on host port
