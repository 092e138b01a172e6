-- ===== src/Discovery/Tests.antt =====
-- SHA-256 on a test vector, a signed beacon and the table of peers.
use easy_failover.Base.{
  ◌^◌, ◌<◌, pos, Text, codes, eqb, ◌≡◌, refl, ◌↔◌, true, [], ◌∷◌, In, arith, length, List, ◌≢◌,
}
use easy_failover.Base.Decimal.{decimal, decimal_ℤ, from_chars_int, from_chars_unsigned}
use easy_failover.Base.Result.{ok}
use easy_failover.Core.NodeState.{backup}
use easy_failover.Discovery.Sha256.{sha256}
use easy_failover.Discovery.Hmac.{hmac_sha256_hex, constant_time_equals}
use easy_failover.Discovery.Hmac.Compare.{constant_time_equals_iff}
use easy_failover.Discovery.Beacon.{
  Beacon, parse_fields, version_matches, accept_block, lines, field, split_eq, state_from_string,
  verify_signed_beacon, peer_status_from_beacon,
}
use easy_failover.Discovery.Beacon.Trust.{IsSigned, IsAccepted, verify_signed_beacon_sound}
use easy_failover.Discovery.PeerTable.{Entry, PeerTable, active_peers, prune}
use easy_failover.Discovery.PeerTable.Fresh.{ShownAs, active_peers-table_of, active_peers-prune}
use easy_failover.Discovery.PeerTable.History.{Sighting, LastSeen, table_of}
use easy_failover.Discovery.Beacon.{drop_last_newline}

abc_digest :
    sha256 (codes "abc")
    ≡ 0xba ∷ 0x78 ∷ 0x16 ∷ 0xbf ∷ 0x8f ∷ 0x01 ∷ 0xcf ∷ 0xea ∷ 0x41 ∷ 0x41 ∷ 0x40 ∷ 0xde ∷ 0x5d
      ∷ 0xae ∷ 0x22 ∷ 0x23 ∷ 0xb0 ∷ 0x03 ∷ 0x61 ∷ 0xa3 ∷ 0x96 ∷ 0x17 ∷ 0x7a ∷ 0x9c ∷ 0xb4 ∷ 0x10
      ∷ 0xff ∷ 0x61 ∷ 0xf2 ∷ 0x00 ∷ 0x15 ∷ 0xad ∷ []
unfolding sha256 codes
abc_digest = refl

ab_short : length (codes "ab") < 2 ^ 32
unfolding codes
ab_short = omega arith

constant_time_equals_iff_example :
    (constant_time_equals (codes "ab") (codes "ab") ≡ true) ↔ (codes "ab" ≡ codes "ab")
constant_time_equals_iff_example =
    constant_time_equals_iff (codes "ab") (codes "ab") ab_short ab_short

abbrev beacon : Beacon
beacon = record {
  cluster = codes "c";
  node_id = codes "n";
  mac = codes "m";
  priority = pos 7;
  address = [];
  healthy = true;
  state = backup;
  seq = 1;
}

abbrev table : PeerTable
table = record { key = codes "m"; beacon = beacon; last_seen_ms = pos 100 } ∷ []

-- The node moved; an older beacon of it and one of this node itself stand behind.
abbrev history : List Sighting
history =
    (record beacon { priority = pos 9 }, pos 900)
    ∷ (record beacon { mac = codes "x" }, pos 800)
    ∷ (beacon, pos 100)
    ∷ []

active_peers-table_of_example :
    In
      (peer_status_from_beacon (record beacon { priority = pos 9 }))
      (active_peers (pos 1000) (pos 3000) (codes "x") (table_of history))
    ↔ ((e : Entry) × ((e.key ≢ []) × LastSeen e.key e.beacon e.last_seen_ms history)
        × ShownAs
            (pos 1000)
            (pos 3000)
            (codes "x")
            (peer_status_from_beacon (record beacon { priority = pos 9 }))
            e)
active_peers-table_of_example =
    active_peers-table_of (pos 1000) (pos 3000) (codes "x") history
      (peer_status_from_beacon (record beacon { priority = pos 9 }))

active_peers-prune_example :
    active_peers (pos 5000) (pos 3000) (codes "x") (prune (pos 4000) (pos 3000) table)
    ≡ active_peers (pos 5000) (pos 3000) (codes "x") table
active_peers-prune_example =
    active_peers-prune (pos 4000) (pos 5000) (pos 3000) (codes "x") table (omega arith)

abbrev wire : Text
wire =
    codes
      "v=1\ncluster=c\nnode=n\nmac=m\nprio=7\naddr=\nhealthy=1\nstate=backup\nseq=1\nsig=fc1bd3cd6e6a3a7d27bc2cad5ee810755c585db6635cc01649eb808cb0a4adf6\n"

wire_short : length wire < 2 ^ 32
unfolding codes
wire_short = omega arith

wire_accepted : verify_signed_beacon wire (codes "k") (codes "c") ≡ ok beacon
unfolding verify_signed_beacon drop_last_newline codes eqb parse_fields hmac_sha256_hex decimal
    decimal_ℤ from_chars_int from_chars_unsigned constant_time_equals version_matches accept_block
    lines field split_eq state_from_string
wire_accepted = refl

verify_signed_beacon_sound_example :
    (block : Text) × (signature : Text) × IsSigned (codes "k") wire block signature
    × IsAccepted (codes "c") block beacon
verify_signed_beacon_sound_example =
    verify_signed_beacon_sound wire (codes "k") (codes "c") beacon wire_short wire_accepted
