-- ===== src/Discovery/Beacon.antt =====
-- discovery/Beacon.hpp and .cpp: the beacon, its signed wire form and its verification.
pub mod Delimiter
pub mod Trust
use easy_failover.Base.{
  ℕ, ◌^◌, ℤ, pos, Text, codes, eqb, ◌==◌, Bool, true, false, not, ◌&&◌, Option, none, some, List,
  [], ◌∷◌, ◌++◌, drop, is_empty, if◌then◌else◌,
}
use easy_failover.Base.Decimal.{decimal, decimal_ℤ, from_chars_int, from_chars_unsigned}
use easy_failover.Base.Result.{Result, ok, throw}
use easy_failover.Core.NodeState.{NodeState, backup, candidate, master, fault, to_string}
use easy_failover.Core.Decision.{PeerStatus}
use easy_failover.Discovery.Hmac.{hmac_sha256_hex, constant_time_equals}

abbrev pub beacon_version : ℕ
beacon_version = 1

pub record Beacon : Type 0 where
  pub cluster : Text
  pub node_id : Text
  pub mac : Text
  pub priority : ℤ
  pub address : Text
  pub healthy : Bool
  pub state : NodeState
  pub seq : ℕ

-- kSigDelim: "\nsig="
abbrev pub sig_delim : Text
sig_delim = b'\n' ∷ b's' ∷ b'i' ∷ b'g' ∷ b'=' ∷ []

unfoldable pub state_from_string : Text → NodeState
state_from_string value =
    if eqb value (codes "master")
    then master
    else if eqb value (codes "candidate")
    then candidate
    else if eqb value (codes "fault")
    then fault
    else backup

-- One line "key=value\n" in front of the rest.
line : Text → Text → Text → Text
line key value rest = key ++ (b'=' ∷ (value ++ (b'\n' ∷ rest)))

pub serialize_fields : Beacon → Text
unfolding line
serialize_fields b = line (codes "v") (decimal beacon_version) (
    line (codes "cluster") b.cluster (
      line (codes "node") b.node_id (
        line (codes "mac") b.mac (
          line (codes "prio") (decimal_ℤ b.priority) (
            line (codes "addr") b.address (
              line (codes "healthy") (if b.healthy then codes "1" else codes "0") (
                line (codes "state") (to_string b.state)
                  (line (codes "seq") (decimal b.seq) []))))))))

-- The lines of a block; a line without its newline at the end counts.
push : ℕ → List Text → List Text
push c [] = (c ∷ []) ∷ []
push c (l ∷ ls) = (c ∷ l) ∷ ls

unfoldable pub lines : Text → List Text
unfolding push
lines [] = []
lines (c ∷ cs) = if c == b'\n' then [] ∷ lines cs else push c (lines cs)

-- A line at its first '=': the key and the value.
unfoldable pub split_eq : Text → Option (Text × Text)
split_eq [] = none
split_eq (c ∷ cs) =
    if c == b'='
    then some ([], cs)
    else (elim (split_eq cs) [ none ↦ none | some (k, v) ↦ some (c ∷ k, v) ])

-- fields.emplace keeps the first value of a key, so `get` finds the first line of the key.
unfoldable pub field : Text → List Text → Text
field key [] = []
field key (l ∷ ls) = elim (split_eq l) [
  | none ↦ field key ls
  | some (k, v) ↦ if eqb k key then v else field key ls
]

unfoldable pub parse_fields : Text → Beacon
parse_fields block =
    let fields = lines block in
    record {
      cluster = field (codes "cluster") fields;
      node_id = field (codes "node") fields;
      mac = field (codes "mac") fields;
      priority = from_chars_int (pos 0) (field (codes "prio") fields);
      address = field (codes "addr") fields;
      healthy = eqb (field (codes "healthy") fields) (codes "1");
      state = state_from_string (field (codes "state") fields);
      seq = from_chars_unsigned (2 ^ 64) 0 (field (codes "seq") fields);
    }

pub starts_with : Text → Text → Bool
starts_with [] text = true
starts_with (p ∷ ps) [] = false
starts_with (p ∷ ps) (c ∷ cs) = (p == c) && starts_with ps cs

-- block.rfind(prefix, 0) == 0
unfoldable pub version_matches : Text → Bool
unfolding starts_with
version_matches block = starts_with (codes "v=" ++ (decimal beacon_version ++ (b'\n' ∷ []))) block

pub rfind_step : Text → ℕ → Text → Option (Text × Text) → Option (Text × Text)
unfolding starts_with
rfind_step pattern c cs (some (before, rest)) = some (c ∷ before, rest)
rfind_step pattern c cs none = if starts_with pattern (c ∷ cs) then some ([], c ∷ cs) else none

-- std::string_view::rfind: the text split before the last place where `pattern` stands.
pub rfind : Text → Text → Option (Text × Text)
unfolding rfind_step starts_with
rfind pattern [] = if starts_with pattern [] then some ([], []) else none
rfind pattern (c ∷ cs) = rfind_step pattern c cs (rfind pattern cs)

-- `if (!s.empty() && s.back() == '\n') s.remove_suffix(1);`
unfoldable pub drop_last_newline : Text → Text
drop_last_newline [] = []
drop_last_newline (c ∷ []) = if c == b'\n' then [] else c ∷ []
drop_last_newline (c ∷ d ∷ cs) = c ∷ drop_last_newline (d ∷ cs)

unfoldable pub sign_beacon : Beacon → Text → Text
unfolding serialize_fields
sign_beacon beacon secret =
    let block = serialize_fields beacon in
    block ++ (codes "sig=" ++ (hmac_sha256_hex secret block ++ (b'\n' ∷ [])))

pub data BeaconError : Type 0 where
  missing_signature signature_mismatch unsupported_version cluster_mismatch no_identity :
      BeaconError

-- The checks after the signature, in order.
unfoldable pub accept_block : Text → Text → Result BeaconError Beacon
unfolding version_matches
accept_block block expected_cluster =
    let beacon = parse_fields block in
    if not (version_matches block)
    then throw unsupported_version
    else if not (eqb beacon.cluster expected_cluster)
    then throw cluster_mismatch
    else if is_empty beacon.mac && is_empty beacon.node_id
    then throw no_identity
    else ok beacon

-- `before` is the text in front of the delimiter and `rest` begins with it.
pub verify_parts : Text → Text → Text → Text → Result BeaconError Beacon
unfolding accept_block
verify_parts secret expected_cluster before rest =
    let block = before ++ (b'\n' ∷ []) in
    let signature = drop_last_newline (drop 5 rest) in
    if not (constant_time_equals (hmac_sha256_hex secret block) signature)
    then throw signature_mismatch
    else accept_block block expected_cluster

pub verify_split : Text → Text → Option (Text × Text) → Result BeaconError Beacon
unfolding verify_parts
verify_split secret expected_cluster none = throw missing_signature
verify_split secret expected_cluster (some (before, rest)) =
    verify_parts secret expected_cluster before rest

unfoldable pub verify_signed_beacon : Text → Text → Text → Result BeaconError Beacon
unfolding verify_split rfind
verify_signed_beacon wire secret expected_cluster =
    verify_split secret expected_cluster (rfind sig_delim wire)

pub peer_status_from_beacon : Beacon → PeerStatus
peer_status_from_beacon b = record {
  node_id = b.node_id;
  priority = b.priority;
  healthy = b.healthy;
  heartbeat_seen = true;
  state = b.state;
}
