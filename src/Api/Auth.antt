-- ===== src/Api/Auth.antt =====
-- The bearer token: its file, its header field and its comparison, and whether the interface starts.
-- The contents of a file are a parameter; `none` is a file that cannot be read.
pub mod Compare
mod Tests
use Prim.Native.Nat.{bit_or, bit_xor}
use easy_failover.Base.{
  ℕ, ◌%◌, ◌^◌, leb, ◌==◌, Text, codes, eqb, Bool, true, false, not, Option, none, some, List, [],
  ◌∷◌, map, length, is_empty, take, drop, if◌then◌else◌,
}
use easy_failover.Base.Search.{starts_with, skip, trim_end, to_lower}
use easy_failover.Config.{ApiConfig}
use easy_failover.Api.Data.{LocalApiStartupState, LocalApiStartupResult, disabled, ready, rejected}

-- The loop over the expected token: a byte that the presented one does not have counts as 0.
token_difference : ℕ → Text → Text → ℕ
token_difference difference presented [] = difference
token_difference difference [] (e ∷ es) = token_difference (bit_or difference (bit_xor 0 e)) [] es
token_difference difference (p ∷ ps) (e ∷ es) =
    token_difference (bit_or difference (bit_xor p e)) ps es

unfoldable pub constant_time_token_equals : Text → Text → Bool
unfolding token_difference
constant_time_token_equals presented expected =
    token_difference (bit_xor (length presented) (length expected) % 2 ^ 32) presented expected == 0

pub load_api_auth_token : (Text → Option Text) → Text → Option Text
unfolding trim_end
load_api_auth_token read_file path = elim (read_file path) [
  | none ↦ none
  | some contents ↦ some (trim_end (codes "\n\r \t") contents)
]

abbrev non_empty : Text → Option Text
non_empty [] = none
non_empty (c ∷ cs) = some (c ∷ cs)

unfoldable pub parse_bearer_token : Text → Option Text
unfolding starts_with skip trim_end
parse_bearer_token header =
    if leb (length header) 7
    then none
    else if not (eqb (map to_lower (take 6 header)) (codes "bearer"))
    then none
    else if not (eqb (take 1 (drop 6 header)) (codes " "))
    then none
    else non_empty (trim_end (codes " \t") (skip (codes " \t") (drop 7 header)))

startup : LocalApiStartupState → ApiConfig → Text → LocalApiStartupResult
startup state config detail = record { state = state; bind = config.bind; detail = detail }

abbrev start_with_token : ApiConfig → Option Text → LocalApiStartupResult
start_with_token config none =
    startup rejected config (codes "write mode requires a readable api.auth_token_file")
start_with_token config (some []) =
    startup rejected config (codes "write mode requires a non-empty api.auth_token_file")
start_with_token config (some (c ∷ cs)) =
    startup ready config (codes "local API write listener ready")

pub evaluate_local_api_startup : (Text → Option Text) → ApiConfig → LocalApiStartupResult
unfolding startup
evaluate_local_api_startup read_file config =
    if not config.enabled
    then startup disabled config (codes "local API disabled")
    else if config.read_only
    then startup ready config (codes "local API read-only listener ready")
    else if is_empty config.auth_token_file
    then startup rejected config (codes "write mode requires a readable api.auth_token_file")
    else start_with_token config (load_api_auth_token read_file config.auth_token_file)
