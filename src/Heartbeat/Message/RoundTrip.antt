-- ===== src/Heartbeat/Message/RoundTrip.antt =====
-- A serialized heartbeat parses back, where toml++ prints a table that it reads back.
use easy_failover.Base.{
  Text, codes, eqb, eqb_refl, some, List, [], ◌∷◌, ◌++◌, All, ◌≡◌, refl, arith,
}
use easy_failover.Base.Result.{ok}
use easy_failover.Toml.{Toml, Value, string, integer, boolean}
use easy_failover.Core.NodeState.{NodeState, backup, candidate, master, fault, to_string}
use easy_failover.Heartbeat.Message.{
  HeartbeatMessage, heartbeat_fields, serialize_heartbeat_message, read_identity, read_priority,
  read_state, message_from_table, parse_heartbeat_message, value_of, node_state_from_string,
}
use easy_failover.Heartbeat.Message.Accepted.{IsAcceptable}

node_state_from_string-to_string : (s : NodeState) → node_state_from_string (to_string s) ≡ some s
unfolding node_state_from_string to_string codes eqb
node_state_from_string-to_string backup = refl
node_state_from_string-to_string candidate = refl
node_state_from_string-to_string master = refl
node_state_from_string-to_string fault = refl

module _ (T : Toml) where
  -- The table gives the value of the field, by the reader of its type.
  abbrev pub Holds : T.Table → Text × Value → Type 0
  Holds table (key, string t) = value_of T T.as_string table key ≡ some t
  Holds table (key, integer n) = value_of T T.as_int table key ≡ some n
  Holds table (key, boolean b) = value_of T T.as_bool table key ≡ some b

  -- A printed list of fields, with a newline after it, parses to a table that holds each field.
  abbrev pub ReadsBack : List (Text × Value) → Type 0
  ReadsBack fields =
      (table : T.Table) × (T.parse (T.print fields ++ (b'\n' ∷ [])) ≡ ok table)
      × All (Holds table) fields

  table_round_trip :
      (m : HeartbeatMessage) (table : T.Table)
      → IsAcceptable m
      → All (Holds table) (heartbeat_fields T m)
      → message_from_table T table ≡ ok m
  unfolding message_from_table read_identity read_priority read_state heartbeat_fields
  table_round_trip m table v h =
      let (version, (type, (node_id, (priority, (healthy, (state, _)))))) = h in
      ground (
        arith,
        version,
        type,
        node_id,
        priority,
        healthy,
        state,
        v.identified,
        v.positive,
        v.in_range,
        eqb_refl (codes "heartbeat"),
        node_state_from_string-to_string m.state,
      )

  -- If toml++ reads back the fields that it prints, a message with a non-empty node id and a positive
  -- priority in the range of an `int` is parsed from its serialization.
  pub parse_heartbeat_message-serialize_heartbeat_message :
      (m : HeartbeatMessage)
      → IsAcceptable m
      → ReadsBack (heartbeat_fields T m)
      → parse_heartbeat_message T (serialize_heartbeat_message T m) ≡ ok m
  unfolding parse_heartbeat_message serialize_heartbeat_message
  parse_heartbeat_message-serialize_heartbeat_message m v (table, e, h) =
      rw (e, parse_heartbeat_message) (table_round_trip m table v h)
