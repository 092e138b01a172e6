-- ===== src/Main/Startup.antt =====
-- What the main program does between the command line and the loop, and its exit code. The contents
-- of files, the MAC address and whether the discovery socket is bound are parameters. An early return
-- is `throw` with the exit code.
use easy_failover.Base.{
  ℕ, pos, Text, codes, Bool, true, false, not, Option, none, some, [], ◌∷◌, is_empty, if◌then◌else◌,
}
use easy_failover.Base.Result.{Result, ok, throw, ◌>>=◌}
use easy_failover.Base.Search.{trim_end}
use easy_failover.Config.{Config, validate}
use easy_failover.Config.Decode.{value_or}
use easy_failover.Runtime.Lifecycle.{DaemonLifecycleState, stopped, running, faulted}
use easy_failover.Runtime.LoopData.{DaemonLoopRequest, DiscoveryContext, DiscoveryTransport}
use easy_failover.Runtime.Observations.{DaemonLoopResult}
use easy_failover.Runtime.Shutdown.{ShutdownHandle}
use easy_failover.Api.Data.{
  LocalApiStartupResult, LocalApiStartupState, disabled, ready, rejected, LocalApiWriteContext,
  LocalApiHttpServeResult,
}
use easy_failover.Api.Auth.{evaluate_local_api_startup, load_api_auth_token}
use easy_failover.Api.Serve.{no_write_context}

pub data Exit : Type 0 where
  success failure : Exit

-- --validate-config, and the validation before the start.
validation_exit : Config → Bool → Result Exit Config
validation_exit config validate_config =
    if not (is_empty (validate config))
    then throw failure
    else if validate_config
    then throw success
    else ok config

not_rejected : LocalApiStartupResult → Result Exit LocalApiStartupResult
not_rejected startup = elim startup.state [
  | rejected ↦ throw failure
  | ready ↦ ok startup
  | disabled ↦ ok startup
]

is_ready : LocalApiStartupState → Bool
is_ready ready = true
is_ready disabled = false
is_ready rejected = false

with_token : Text → Option Text → Result Exit LocalApiWriteContext
with_token config_path none = throw failure
with_token config_path (some []) = throw failure
with_token config_path (some (c ∷ cs)) =
    ok (record { write_enabled = true; config_path = config_path; auth_token = c ∷ cs })

-- The token is loaded once, in write mode alone.
write_context_of :
    (Text → Option Text) → Config → Text → LocalApiStartupResult → Result Exit LocalApiWriteContext
unfolding is_ready with_token
write_context_of read_file config config_path startup =
    if is_ready startup.state
    then (if not config.api.read_only
        then with_token config_path (load_api_auth_token read_file config.api.auth_token_file)
        else ok no_write_context)
    else ok no_write_context

pub start_api :
    (Text → Option Text)
    → Config
    → Text
    → Bool
    → Result Exit (LocalApiStartupResult × LocalApiWriteContext)
unfolding validation_exit not_rejected write_context_of
start_api read_file config config_path validate_config = do
  valid ← validation_exit config validate_config
  startup ← not_rejected (evaluate_local_api_startup read_file valid.api)
  write_context ← write_context_of read_file valid config_path startup
  ok (startup, write_context)

module _ {W : Type 0} where
  no_discovery : DiscoveryContext W
  no_discovery = record { transport = none; self_mac = []; secret = [] }

  -- The secret without the white space at its end; without a secret the program fails.
  pub start_discovery :
      (Text → Option Text)
      → Config
      → Text
      → Option (DiscoveryTransport W)
      → Result Exit (DiscoveryContext W)
  unfolding no_discovery
  start_discovery read_file config mac bound =
      let secret =
        trim_end (codes "\n\r \t") (value_or (read_file config.discovery.secret_file) []) in
      if not config.discovery.enabled
      then ok no_discovery
      else if is_empty secret
      then throw failure
      else elim bound [
        | none ↦ ok no_discovery
        | some transport ↦ ok (record {
          transport = some transport;
          self_mac = if is_empty mac then config.node_id else mac;
          secret = secret;
        })
      ]

  pub loop_request : Config → Bool → ℕ → Bool → ShutdownHandle W → DaemonLoopRequest W
  loop_request config dry_run max_iterations run_forever shutdown = record {
    config = config;
    options = record {
      dry_run = dry_run;
      max_iterations = max_iterations;
      run_until_shutdown = run_forever;
      inter_iteration_delay_ms = config.heartbeat.interval_ms;
      logical_iteration_elapsed_ms = pos 0;
      max_recorded_observations = if run_forever then 100 else 0;
    };
    initial_state = stopped;
    shutdown_state = some shutdown;
    config_prevalidated = true;
  }

is_faulted_state : DaemonLifecycleState → Bool
is_faulted_state faulted = true
is_faulted_state running = false
is_faulted_state stopped = false

-- The exit code after the loop: of the API thread's result, if it ran, and of the loop's result.
pub exit_code : Option LocalApiHttpServeResult → DaemonLoopResult → Exit
unfolding is_faulted_state
exit_code served loop_result =
    let loop_exit =
      if not (is_empty loop_result.validation_errors)
      then failure
      else if is_faulted_state loop_result.final_state
      then failure
      else success in
    elim served [
      | none ↦ loop_exit
      | some result ↦ if not (is_empty result.error) then failure else loop_exit
    ]
