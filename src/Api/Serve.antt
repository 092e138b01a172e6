-- ===== src/Api/Serve.antt =====
-- serveLocalApiHttpWithMode and the functions that call it, over the sockets of the system.
pub mod Keeps
pub mod ReadOnly
use easy_failover.Base.{
  ℕ, zero, suc, ℤ, pos, negsuc, leb, Text, codes, Bool, true, false, Option, none, some, List, [],
  ◌∷◌, ◌||◌, is_empty, if◌then◌else◌,
}
use easy_failover.Base.Decimal.{stoi}
use easy_failover.Base.Options.{◌>>=◌}
use easy_failover.Base.Result.{Result, ok, throw}
use easy_failover.Base.Search.{cut_last}
use easy_failover.Platform.Ownership.{skip_space}
use easy_failover.Toml.{Toml}
use easy_failover.Runtime.Shutdown.{ShutdownHandle, ShutdownSignalState}
use easy_failover.Api.Data.{
  LocalApiHttpRequest, LocalApiHttpResponse, LocalApiHttpSnapshot, LocalApiWriteContext,
  LocalApiConfigApplyResult, LocalApiHttpServeResult,
}
use easy_failover.Api.Http.{parse_http_request, http_response_bytes, json_response, error_envelope}
use easy_failover.Api.Http.Read.{
  Receiver, Polled, readable, idle, interrupted, failed, read_request_bytes,
}
use easy_failover.Api.Write.{FileSystem}
use easy_failover.Api.Route.{respond}

-- The port of a bind address: 1 to 65535.
valid_port : Text → ℤ → Option (Text × ℕ)
valid_port host (pos zero) = none
valid_port host (pos (suc n)) = if leb (suc n) 65535 then some (host, suc n) else none
valid_port host (negsuc n) = none

unfoldable pub parse_bind : Text → Option (Text × ℕ)
unfolding cut_last stoi skip_space valid_port
parse_bind bind = do
  (host, port_text) ← cut_last b':' bind
  port ← if is_empty host || is_empty port_text then none else stoi (skip_space port_text)
  valid_port host port

-- The result of ::accept.
pub data Accepted : Type 0 where
  client : ℕ → Accepted
  interrupted_accept : Accepted
  failed_accept : Text → Accepted

-- The calls on sockets; an error comes with its text. `inet_pton` is whether a host is an IPv4
-- address.
pub record Sockets (W : Type 0) : Type 0 where
  pub receiver : Receiver W
  pub socket : W → Result Text ℕ × W
  pub reuse_address : ℕ → W → W
  pub inet_pton : Text → Bool
  pub bind : ℕ → Text → ℕ → W → Result Text Unit × W
  pub listen : ℕ → W → Result Text Unit × W
  pub accept : ℕ → W → Accepted × W
  pub send : ℕ → Text → W → W
  pub close : ℕ → W → W

-- What the server is given.
pub record Server (W : Type 0) : Type 0 where
  pub snapshot_provider : W → LocalApiHttpSnapshot × W
  pub serve_once : Bool
  pub shutdown_state : Option (ShutdownHandle W)
  pub startup_observer : Option (LocalApiHttpServeResult → W → W)
  pub write_context : LocalApiWriteContext
  pub emit_audit : Option (LocalApiHttpRequest → LocalApiConfigApplyResult → W → W)

pub data Progress (W : Type 0) : Type 0 where
  returned : LocalApiHttpServeResult → W → Progress W
  going : Bool → W → Progress W

finished : Bool → Text → LocalApiHttpServeResult
finished served_request error = record {
  started = true;
  served_request = served_request;
  error = error;
}

not_started : Text → LocalApiHttpServeResult
not_started error = record { started = false; served_request = false; error = error }

module _ (T : Toml) (hostname : Option Text) {W : Type 0} (fs : FileSystem W) (sockets : Sockets W)
    (server : Server W) (fuel : ℕ) where
  shutdown_requested : W → Bool × W
  shutdown_requested w = elim server.shutdown_state [
    | none ↦ (false, w)
    | some handle ↦ let w' = handle.poll w in ((handle.read w').shutdown_requested, w')
  ]

  -- A request that does not parse gets 400.
  answer : Option LocalApiHttpRequest → LocalApiHttpSnapshot → W → Option (LocalApiHttpResponse × W)
  answer none snapshot w = some (
    json_response 400 (error_envelope (codes "bad_request") (codes "request must be valid HTTP")),
    w,
  )
  answer (some request) snapshot w =
      respond T hostname fs server.emit_audit fuel request snapshot server.write_context w

  -- One client: read, answer, send and close.
  serve_client : ℕ → W → Option W
  unfolding answer
  serve_client fd w = do
    (raw_request, w1) ← read_request_bytes sockets.receiver fd w
    let (snapshot, w2) = server.snapshot_provider w1
    (response, w3) ← answer (parse_http_request raw_request) snapshot w2
    some (sockets.close fd (sockets.send fd (http_response_bytes response) w3))

  after_client : Option W → Option (Progress W)
  unfolding finished
  after_client none = none
  after_client (some w) =
      if server.serve_once then some (returned (finished true []) w) else some (going true w)

  accept_one : Bool → Accepted → W → Option (Progress W)
  unfolding serve_client after_client
  accept_one served (client fd) w = after_client (serve_client fd w)
  accept_one served interrupted_accept w = some (going served w)
  accept_one served (failed_accept error) w = some (returned (finished served error) w)

  polled : ℕ → Bool → Polled → W → Option (Progress W)
  unfolding accept_one
  polled fd served readable w =
      let (accepted, w') = sockets.accept fd w in accept_one served accepted w'
  polled fd served idle w = some (going served w)
  polled fd served interrupted w = some (going served w)
  polled fd served (failed error) w = some (returned (finished served error) w)

  -- One round of the loop that accepts clients.
  pub round : ℕ → Bool → W → Option (Progress W)
  unfolding shutdown_requested polled
  round fd served w =
      let (stop, w1) = shutdown_requested w in
      let (event, w2) = sockets.receiver.poll fd 250 w1 in
      if stop then some (returned (finished served []) w1) else polled fd served event w2

  -- The loop, for a number of rounds.
  unfoldable pub serve_loop : ℕ → ℕ → Bool → W → Option (LocalApiHttpServeResult × W)
  unfolding round
  serve_loop zero fd served w = none
  serve_loop (suc rounds) fd served w = elim (round fd served w) [
    | none ↦ none
    | some progress ↦ elim progress [
      | returned result w' ↦ some (result, w')
      | going served' w' ↦ serve_loop rounds fd served' w'
    ]
  ]

  observed : LocalApiHttpServeResult → W → W
  observed result w = elim server.startup_observer [ none ↦ w | some observe ↦ observe result w ]

  refused : Text → W → LocalApiHttpServeResult × W
  unfolding observed not_started
  refused error w = (not_started error, observed (not_started error) w)

  listening : Text → ℕ → ℕ → W → Result Text Unit × W
  listening host port fd w =
      let (bound, w1) = sockets.bind fd host port w in
      elim bound [ throw error ↦ (throw error, w1) | ok _ ↦ sockets.listen fd w1 ]

  prepare : Text → ℕ → ℕ → W → Result Text Unit × W
  unfolding listening
  prepare host port fd w =
      let w' = sockets.reuse_address fd w in
      if sockets.inet_pton host
      then listening host port fd w'
      else (throw (codes "local API bind host must be an IPv4 address"), w')

  abbrev close_server :
      ℕ → Option (LocalApiHttpServeResult × W) → Option (LocalApiHttpServeResult × W)
  close_server fd none = none
  close_server fd (some (result, w)) = some (result, sockets.close fd w)

  with_socket : ℕ → Text → ℕ → ℕ → W → Option (LocalApiHttpServeResult × W)
  unfolding prepare refused serve_loop
  with_socket rounds host port fd w =
      let (ready, w') = prepare host port fd w in
      close_server fd (elim ready [
        | throw error ↦ some (refused error w')
        | ok _ ↦
            serve_loop rounds fd false
              (observed (record { started = true; served_request = false; error = [] }) w')
      ])

  on_address : ℕ → Option (Text × ℕ) → W → Option (LocalApiHttpServeResult × W)
  unfolding with_socket
  on_address rounds none w = some (refused (codes "local API bind must be host:port") w)
  on_address rounds (some (host, port)) w =
      let (made, w') = sockets.socket w in
      elim made [
        | throw error ↦ some (refused error w')
        | ok fd ↦ with_socket rounds host port fd w'
      ]

  -- For a number of rounds of the loop; `none` if they do not reach.
  unfoldable pub serve_local_api_http_with_mode :
      ℕ → Text → W → Option (LocalApiHttpServeResult × W)
  unfolding on_address
  serve_local_api_http_with_mode rounds bind w = on_address rounds (parse_bind bind) w

-- The write context of the functions that take none.
abbrev pub no_write_context : LocalApiWriteContext
no_write_context = record { write_enabled = false; config_path = []; auth_token = [] }

-- serveLocalApiHttpOnce and serveLocalApiHttp.
unfoldable pub fixed_server :
    {W : Type 0} → LocalApiHttpSnapshot → Bool → Option (ShutdownHandle W) → Server W
fixed_server snapshot serve_once shutdown_state = record {
  snapshot_provider = λ w. (snapshot, w);
  serve_once = serve_once;
  shutdown_state = shutdown_state;
  startup_observer = none;
  write_context = no_write_context;
  emit_audit = none;
}
