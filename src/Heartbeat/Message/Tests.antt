-- ===== src/Heartbeat/Message/Tests.antt =====
-- A message that a small table stands for.
use easy_failover.Base.{
  ℤ, pos, Text, codes, eqb, Bool, true, Option, none, some, List, [], ◌∷◌, is_empty, ◌≡◌, refl,
  arith, if◌then◌else◌,
}
use easy_failover.Base.Result.{ok, throw}
use easy_failover.Toml.{Toml, Value, string, integer, boolean}
use easy_failover.Core.NodeState.{master, to_string}
use easy_failover.Heartbeat.Message.{
  HeartbeatMessage, heartbeat_fields, serialize_heartbeat_message, value_of,
  parse_heartbeat_message, node_state_from_string,
}
use easy_failover.Heartbeat.Message.Accepted.{IsAcceptable, parse_heartbeat_message-IsAcceptable}
use easy_failover.Heartbeat.Message.RoundTrip.{
  ReadsBack, parse_heartbeat_message-serialize_heartbeat_message,
}

abbrev text_of : Value → Option Text
text_of (string t) = some t
text_of _ = none

abbrev number_of : Value → Option ℤ
number_of (integer n) = some n
number_of _ = none

abbrev truth_of : Value → Option Bool
truth_of (boolean b) = some b
truth_of _ = none

abbrev value_at : List (Text × Value) → Text → Option Value
value_at [] key = none
value_at ((k, v) ∷ rest) key = if eqb k key then some v else value_at rest key

abbrev message_fields : List (Text × Value)
message_fields =
    (codes "version", integer (pos 1))
    ∷ (codes "type", string (codes "heartbeat"))
    ∷ (codes "node_id", string (codes "n1"))
    ∷ (codes "priority", integer (pos 150))
    ∷ (codes "healthy", boolean true)
    ∷ (codes "state", string (codes "master"))
    ∷ []

-- Every text but the empty one stands for the fields of one message.
abbrev toml : Toml
toml = record {
  Table = List (Text × Value);
  Node = Value;
  parse = λ t. if is_empty t then throw (codes "empty") else ok message_fields;
  get = value_at;
  as_string = text_of;
  as_int = number_of;
  as_bool = truth_of;
  as_table = λ n. none;
  as_array = λ n. none;
  print = λ fields. codes "fields";
}

abbrev message : HeartbeatMessage
message = record { node_id = codes "n1"; priority = pos 150; healthy = true; state = master }

accepted : parse_heartbeat_message toml (codes "fields") ≡ ok message
unfolding parse_heartbeat_message node_state_from_string codes eqb to_string
accepted = refl

parse_heartbeat_message-IsAcceptable_example : IsAcceptable message
parse_heartbeat_message-IsAcceptable_example =
    parse_heartbeat_message-IsAcceptable toml (codes "fields") message accepted

message-IsAcceptable : IsAcceptable message
unfolding codes
message-IsAcceptable = record { identified = refl; positive = omega arith; in_range = omega arith }

message-ReadsBack : ReadsBack toml (heartbeat_fields toml message)
unfolding heartbeat_fields value_of codes eqb to_string
message-ReadsBack = (message_fields, refl, (refl, (refl, (refl, (refl, (refl, (refl, tt)))))))

parse_heartbeat_message-serialize_heartbeat_message_example :
    parse_heartbeat_message toml (serialize_heartbeat_message toml message) ≡ ok message
parse_heartbeat_message-serialize_heartbeat_message_example =
    parse_heartbeat_message-serialize_heartbeat_message toml message message-IsAcceptable
      message-ReadsBack
