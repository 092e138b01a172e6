-- ===== src/Heartbeat/Endpoint/Tests.antt =====
-- Addresses of heartbeat endpoints: a good one, the ends of the range of a port, and bad shapes.
use easy_failover.Base.{◌≡◌, refl, Text, codes, true, false}
use easy_failover.Base.Decimal.{decimal, is_digit, leading}
use easy_failover.Base.Result.{Result, ok, throw}
use easy_failover.Base.Search.{cut}
use easy_failover.Heartbeat.Endpoint.{
  UdpHeartbeatEndpoint, parse_udp_heartbeat_endpoint, host_and_port, shape_error, whole_int,
  digits_value, port_of, endpoint_on,
}

abbrev parsed : Text → Result Text UdpHeartbeatEndpoint
parsed = parse_udp_heartbeat_endpoint (λ _. true)

parse_udp_heartbeat_endpoint_normalized :
    parsed (codes "10.0.0.1:00065535")
    ≡ ok (record {
      host = codes "10.0.0.1";
      port = 65535;
      normalized_address = codes "10.0.0.1:65535";
    })
unfolding parse_udp_heartbeat_endpoint host_and_port whole_int digits_value port_of endpoint_on cut
    decimal codes is_digit leading
parse_udp_heartbeat_endpoint_normalized = refl

parse_udp_heartbeat_endpoint_out_of_range :
    parsed (codes "10.0.0.1:65536") ≡ throw (codes "heartbeat port must be 0-65535")
unfolding parse_udp_heartbeat_endpoint host_and_port whole_int digits_value port_of cut codes
    is_digit leading
parse_udp_heartbeat_endpoint_out_of_range = refl

parse_udp_heartbeat_endpoint_two_colons :
    parsed (codes "::1:7000") ≡ throw (codes "heartbeat address must be an IPv4 host:port pair")
unfolding parse_udp_heartbeat_endpoint host_and_port shape_error cut codes
parse_udp_heartbeat_endpoint_two_colons = refl

parse_udp_heartbeat_endpoint_no_host :
    parse_udp_heartbeat_endpoint (λ _. false) (codes "localhost:7000")
    ≡ throw (codes "heartbeat host must be an IPv4 address")
unfolding parse_udp_heartbeat_endpoint host_and_port whole_int digits_value port_of endpoint_on cut
    codes is_digit leading
parse_udp_heartbeat_endpoint_no_host = refl
