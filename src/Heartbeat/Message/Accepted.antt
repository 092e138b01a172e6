-- ===== src/Heartbeat/Message/Accepted.antt =====
-- What a heartbeat is that the parser accepts.
use easy_failover.Base.{ℤ, pos, ◌≤ℤ◌, ◌<ℤ◌, Text, false, is_empty, ◌≡◌, refl, arith, ◌⊎◌, inl, inr}
use easy_failover.Base.Result.{Result, ok, throw}
use easy_failover.Toml.{Toml}
use easy_failover.Heartbeat.Message.{
  HeartbeatMessage, int_max, read_identity, read_priority, message_from_table,
  parse_heartbeat_message,
}

-- The values that the parser lets through.
pub record IsAcceptable (m : HeartbeatMessage) : Type 0 where
  pub identified : is_empty m.node_id ≡ false
  pub positive : pos 0 <ℤ m.priority
  pub in_range : m.priority ≤ℤ int_max

Result-cases : {E A : Type 0} (r : Result E A) → ((a : A) × (r ≡ ok a)) ⊎ ((e : E) × (r ≡ throw e))
Result-cases (ok a) = inl (a, refl)
Result-cases (throw e) = inr (e, refl)

module _ (T : Toml) where
  read_priority-ok :
      (table : T.Table) (p : ℤ) → read_priority T table ≡ ok p → (pos 0 <ℤ p) × (p ≤ℤ int_max)
  unfolding read_priority
  read_priority-ok table p h = ground arith

  read_identity-ok :
      (table : T.Table) (id : Text) → read_identity T table ≡ ok id → is_empty id ≡ false
  unfolding read_identity
  read_identity-ok table id h = ground arith

  message-IsAcceptable :
      (table : T.Table) (m : HeartbeatMessage) → message_from_table T table ≡ ok m → IsAcceptable m
  unfolding message_from_table
  message-IsAcceptable table m h = record {
    identified = ground (arith, h, read_identity-ok table m.node_id);
    positive = ground (arith, h, read_priority-ok table m.priority);
    in_range = ground (arith, h, read_priority-ok table m.priority);
  }

  -- A payload that parses gives a message with a non-empty node id and a priority that is positive
  -- and in the range of an `int`.
  pub parse_heartbeat_message-IsAcceptable :
      (payload : Text) (m : HeartbeatMessage)
      → parse_heartbeat_message T payload ≡ ok m
      → IsAcceptable m
  unfolding parse_heartbeat_message
  parse_heartbeat_message-IsAcceptable payload m h = elim (Result-cases (T.parse payload)) [
    | inl (table, e) ↦ message-IsAcceptable table m (rw (e, parse_heartbeat_message) at h)
    | inr (error, e) ↦ absurd (cc (rw (e, parse_heartbeat_message) at h))
  ]
