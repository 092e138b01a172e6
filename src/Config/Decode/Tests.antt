-- ===== src/Config/Decode/Tests.antt =====
-- A table with a priority that is 2 ^ 32 too high, and the config that it is read as.
use easy_failover.Base.{
  ℤ, pos, ◌+◌, ◌^◌, Text, codes, eqb, Bool, true, false, ◌&&◌, Option, none, some, [], ◌≡◌, ◌↔◌,
  refl, if◌then◌else◌,
}
use easy_failover.Base.Result.{ok}
use easy_failover.Toml.{Toml}
use easy_failover.Config.{Config, default_config}
use easy_failover.Config.Decode.{
  config_from_table, optional_string, optional_int, required_table, part, vip_from, peers_from,
  to_int,
}
use easy_failover.Config.Decode.Cast.{IsInt, Holds, config_from_table-priority_iff}

-- A node is an integer, or the empty table.
abbrev find : Bool → Text → Option (Option ℤ)
find root key =
    if root && eqb key (codes "priority")
    then some (some (pos (100 + 2 ^ 32)))
    else if root && eqb key (codes "vip")
    then some none
    else none

abbrev toml : Toml
toml = record {
  Table = Bool;
  Node = Option ℤ;
  parse = λ t. ok true;
  get = find;
  as_string = λ node. none;
  as_int = λ node. node;
  as_bool = λ node. none;
  as_table = λ node. elim node [ none ↦ some false | some z ↦ none ];
  as_array = λ node. none;
  print = λ fields. [];
}

abbrev config : Config
config = record default_config { node_id = codes "n1"; priority = pos 100 }

reads : config_from_table toml (some (codes "n1")) true ≡ ok config
unfolding config_from_table optional_string optional_int required_table part vip_from peers_from
    default_config codes eqb to_int
reads = refl

held : Holds toml true (codes "priority") (pos (100 + 2 ^ 32))
unfolding codes eqb
held = record { node = some (pos (100 + 2 ^ 32)); found = refl; read = refl }

config_from_table-priority_iff_example :
    IsInt config.priority × ((config.priority ≡ pos (100 + 2 ^ 32)) ↔ IsInt (pos (100 + 2 ^ 32)))
config_from_table-priority_iff_example =
    config_from_table-priority_iff toml (some (codes "n1")) true config (pos (100 + 2 ^ 32)) held
      reads
