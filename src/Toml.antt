-- ===== src/Toml.antt =====
-- The part of the toml++ library that the program calls, as a parameter: toml++ is not part of the
-- repository. `parse` is toml::parse (and toml::parse_file on a file's contents), whose error is the
-- description of the exception; `get` is table::get and table::operator[]; the `as_` fields are
-- node::value<T>, node::as_table and node::as_array; `print` writes a table built from a literal list
-- of keys and values.
use easy_failover.Base.{ℤ, Text, Bool, Option, List}
use easy_failover.Base.Result.{Result}

pub data Value : Type 0 where
  string : Text → Value
  integer : ℤ → Value
  boolean : Bool → Value

pub record Toml : Type 1 where
  pub Table : Type 0
  pub Node : Type 0
  pub parse : Text → Result Text Table
  pub get : Table → Text → Option Node
  pub as_string : Node → Option Text
  pub as_int : Node → Option ℤ
  pub as_bool : Node → Option Bool
  pub as_table : Node → Option Table
  pub as_array : Node → Option (List Node)
  pub print : List (Text × Value) → Text
