-- ===== src/Heartbeat/Message.antt =====
-- heartbeat/HeartbeatMessage.hpp and .cpp, over the toml++ library as a parameter.
pub mod Accepted
pub mod RoundTrip
mod Tests
use easy_failover.Base.{
  ◌-◌, ◌^◌, ℤ, pos, ltb_ℤ, leb_ℤ, eqb_ℤ, Text, codes, eqb, Bool, true, false, not, Option, none,
  some, List, [], ◌∷◌, ◌++◌, is_empty, if◌then◌else◌,
}
use easy_failover.Base.Result.{Result, ok, throw, ◌>>=◌, ◌>>◌}
use easy_failover.Toml.{Toml, Value, string, integer, boolean}
use easy_failover.Core.NodeState.{NodeState, backup, candidate, master, fault, to_string}
use easy_failover.Core.Decision.{PeerStatus}

abbrev pub heartbeat_message_version : ℤ
heartbeat_message_version = pos 1

pub record HeartbeatMessage : Type 0 where
  pub node_id : Text
  pub priority : ℤ
  pub healthy : Bool
  pub state : NodeState

pub node_state_from_string : Text → Option NodeState
node_state_from_string value =
    if eqb value (to_string backup)
    then some backup
    else if eqb value (to_string candidate)
    then some candidate
    else if eqb value (to_string master)
    then some master
    else if eqb value (to_string fault)
    then some fault
    else none

-- The texts of the error of HeartbeatParseResult, one constructor for each.
pub data HeartbeatError : Type 0 where
  not_toml : Text → HeartbeatError
  version_type version_unsupported type_wrong node_id_empty priority_type priority_not_positive :
      HeartbeatError
  priority_out_of_range healthy_type state_type state_invalid : HeartbeatError

abbrev pub or_error : {A : Type 0} → Option A → HeartbeatError → Result HeartbeatError A
or_error none e = throw e
or_error (some a) e = ok a

-- `if (broken) return parseError(e);`
abbrev pub reject_if : Bool → HeartbeatError → Result HeartbeatError (Unit {0})
reject_if true e = throw e
reject_if false e = ok tt

-- std::numeric_limits<int>::max()
abbrev pub int_max : ℤ
int_max = pos (2 ^ 31 - 1)

module _ (T : Toml) where
  open T use {Table, Node, parse, get, as_string, as_int, as_bool, print}

  -- intValue, stringValue and boolValue: table[key].value<T>(), empty for a missing key.
  pub value_of : {A : Type 0} → (Node → Option A) → Table → Text → Option A
  value_of read table key = elim (get table key) [ none ↦ none | some node ↦ read node ]

  pub heartbeat_fields : HeartbeatMessage → List (Text × Value)
  heartbeat_fields m =
      (codes "version", integer heartbeat_message_version)
      ∷ (codes "type", string (codes "heartbeat"))
      ∷ (codes "node_id", string m.node_id)
      ∷ (codes "priority", integer m.priority)
      ∷ (codes "healthy", boolean m.healthy)
      ∷ (codes "state", string (to_string m.state))
      ∷ []

  pub serialize_heartbeat_message : HeartbeatMessage → Text
  unfolding heartbeat_fields
  serialize_heartbeat_message m = print (heartbeat_fields m) ++ (b'\n' ∷ [])

  -- The checks on a parsed table, in the order of the source: the version, the type and the id.
  pub read_identity : Table → Result HeartbeatError Text
  unfolding value_of
  read_identity table = do
    version ← or_error (value_of as_int table (codes "version")) version_type
    reject_if (not (eqb_ℤ version heartbeat_message_version)) version_unsupported
    type ← or_error (value_of as_string table (codes "type")) type_wrong
    reject_if (not (eqb type (codes "heartbeat"))) type_wrong
    node_id ← or_error (value_of as_string table (codes "node_id")) node_id_empty
    reject_if (is_empty node_id) node_id_empty
    ok node_id

  -- The checks of the priority.
  pub read_priority : Table → Result HeartbeatError ℤ
  unfolding value_of
  read_priority table = do
    priority ← or_error (value_of as_int table (codes "priority")) priority_type
    reject_if (leb_ℤ priority (pos 0)) priority_not_positive
    reject_if (ltb_ℤ int_max priority) priority_out_of_range
    ok priority

  -- The checks of the state.
  pub read_state : Table → Result HeartbeatError NodeState
  unfolding value_of node_state_from_string
  read_state table = do
    state ← or_error (value_of as_string table (codes "state")) state_type
    or_error (node_state_from_string state) state_invalid

  pub message_from_table : Table → Result HeartbeatError HeartbeatMessage
  unfolding read_identity read_priority read_state value_of
  message_from_table table = do
    node_id ← read_identity table
    priority ← read_priority table
    healthy ← or_error (value_of as_bool table (codes "healthy")) healthy_type
    state ← read_state table
    ok (record { node_id = node_id; priority = priority; healthy = healthy; state = state })

  pub parse_heartbeat_message : Text → Result HeartbeatError HeartbeatMessage
  unfolding message_from_table
  parse_heartbeat_message payload = elim (parse payload) [
    | ok table ↦ message_from_table table
    | throw description ↦ throw (not_toml description)
  ]

pub peer_status_from_heartbeat : HeartbeatMessage → PeerStatus
peer_status_from_heartbeat m = record {
  node_id = m.node_id;
  priority = m.priority;
  healthy = m.healthy;
  heartbeat_seen = true;
  state = m.state;
}
