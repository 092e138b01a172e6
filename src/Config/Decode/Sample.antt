-- ===== src/Config/Decode/Sample.antt =====
-- A small table with a node id and an empty vip section, and the config that it is read as.
use easy_failover.Base.{
  pos, Text, codes, eqb, Bool, true, false, ◌&&◌, Option, none, some, [], is_empty, ◌≡◌, refl,
  if◌then◌else◌,
}
use easy_failover.Base.Result.{ok, throw}
use easy_failover.Toml.{Toml}
use easy_failover.Config.{
  Config, default_config, validate, node_errors, timing_errors, peer_errors, election_errors,
  report, same_bool, not_positive,
}
use easy_failover.Config.Decode.{
  load_config_from_toml_string, config_from_table, optional_string, optional_int, required_table,
  part, vip_from, peers_from, to_int,
}

abbrev find : Bool → Text → Option (Option Text)
find root key =
    if root && eqb key (codes "node_id")
    then some (some (codes "n1"))
    else if root && eqb key (codes "vip")
    then some none
    else none

abbrev pub sample_toml : Toml
sample_toml = record {
  Table = Bool;
  Node = Option Text;
  parse = λ t. if is_empty t then throw (codes "empty") else ok true;
  get = find;
  as_string = λ node. node;
  as_int = λ node. none;
  as_bool = λ node. none;
  as_table = λ node. elim node [ none ↦ some false | some t ↦ none ];
  as_array = λ node. none;
  print = λ fields. [];
}

abbrev pub sample_config : Config
sample_config = record default_config { node_id = codes "n1"; priority = pos 100 }

pub sample-loads : load_config_from_toml_string sample_toml none (codes "x") ≡ ok sample_config
unfolding load_config_from_toml_string config_from_table optional_string optional_int required_table
    part vip_from peers_from default_config codes eqb to_int
sample-loads = refl

pub sample-validates : validate sample_config ≡ []
unfolding validate node_errors timing_errors peer_errors election_errors report same_bool
    not_positive default_config codes
sample-validates = refl
