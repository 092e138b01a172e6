-- ===== src/Main/Tests.antt =====
-- A client of a server without writes, and the snapshot of a config with a health command.
use easy_failover.Base.{
  ℕ, zero, suc, ◌+◌, ◌≤◌, ◌<◌, Text, codes, eqb, true, false, Option, none, some, [], ◌∷◌, length,
  take, ◌≡◌, refl, arith,
}
use easy_failover.Base.Decimal.{stoi, leading}
use easy_failover.Base.Result.{ok}
use easy_failover.Base.Search.{cut, cut_last, starts_with, skip, one_of, until, to_lower}
use easy_failover.Config.{Config, default_config}
use easy_failover.Config.Decode.Sample.{sample_toml}
use easy_failover.Platform.Ownership.{is_space, skip_space, token, after_token}
use easy_failover.Api.Data.{LocalApiHttpServeResult}
use easy_failover.Api.Http.{
  max_request_bytes, parse_http_request, trim_query_string, lines, parse_content_length,
}
use easy_failover.Api.Http.Read.{
  Receiver, readable, buffer_bytes, read_request_bytes, read_request_bytes_bounded, read_loop,
  is_readable, request_complete,
}
use easy_failover.Api.Write.Disk.{Disk, disk}
use easy_failover.Api.Serve.{
  Sockets, Server, client, fixed_server, serve_local_api_http_with_mode, serve_loop, parse_bind,
}
use easy_failover.Api.Route.{respond}
use easy_failover.Api.Serve.Keeps.{Keeps}
use easy_failover.Api.Serve.ReadOnly.{serve_read_only}
use easy_failover.Main.Snapshot.{build_http_snapshot_from_loop_result, initial_loop_result}
use easy_failover.Main.Snapshot.Secrets.{with_secrets, snapshot_hides_secrets}

abbrev packet : Text
packet = codes "POST /api/v1/config/apply HTTP/1.1\r\nAuthorization: Bearer t\r\n\r\n"

-- A client that always has the same request.
abbrev receiver : Receiver Disk
receiver = record {
  poll = λ fd timeout w. (readable, w);
  recv = λ fd size w. (take size packet, w);
}

length-take : (n : ℕ) (t : Text) → length (take n t) ≤ n
length-take zero t = omega arith
length-take (suc n) [] = omega arith
length-take (suc n) (c ∷ cs) = omega (arith, length-take n cs)

abbrev start : Disk
start = record { contents = (codes "c", codes "old") ∷ []; open_path = none; interruptions = 0 }

read_request_bytes_bounded_example :
    (bytes : Text) × (w : Disk) × (read_request_bytes receiver 4 start ≡ some (bytes, w))
    × (length bytes < max_request_bytes + buffer_bytes)
read_request_bytes_bounded_example =
    read_request_bytes_bounded receiver (λ fd size w. length-take size packet) 4 start

abbrev sockets : Sockets Disk
sockets = record {
  receiver = receiver;
  socket = λ w. (ok 3, w);
  reuse_address = λ fd w. w;
  inet_pton = λ host. true;
  bind = λ fd host port w. (ok tt, w);
  listen = λ fd w. (ok tt, w);
  accept = λ fd w. (client 4, w);
  send = λ fd bytes w. w;
  close = λ fd w. w;
}

abbrev server : Server Disk
server =
    fixed_server (build_http_snapshot_from_loop_result default_config initial_loop_result true) true
      none

abbrev served : Option (LocalApiHttpServeResult × Disk)
served =
    serve_local_api_http_with_mode sample_toml none disk sockets server 9 5 (codes "127.0.0.1:8743")
      start

abbrev result : LocalApiHttpServeResult
result = record { started = true; served_request = true; error = [] }

serves : served ≡ some (result, start)
unfolding serve_local_api_http_with_mode parse_bind cut_last skip_space is_space stoi leading
    serve_loop fixed_server read_request_bytes read_loop is_readable request_complete cut
    starts_with parse_content_length lines parse_http_request token after_token skip one_of to_lower
    respond trim_query_string until codes eqb
serves = refl

keeps : Keeps sockets server (λ w. w.contents)
unfolding fixed_server
keeps = record {
  on_poll = λ fd timeout w. refl;
  on_recv = λ fd size w. refl;
  on_socket = λ w. refl;
  on_reuse = λ fd w. refl;
  on_bind = λ fd host port w. refl;
  on_listen = λ fd w. refl;
  on_accept = λ fd w. refl;
  on_send = λ fd bytes w. refl;
  on_close = λ fd w. refl;
  on_snapshot = λ w. refl;
  on_shutdown = λ handle w e. cc;
  on_observed = λ observe result w e. cc;
}

disabled : server.write_context.write_enabled ≡ false
unfolding fixed_server
disabled = refl

serve_read_only_example : start.contents ≡ start.contents
serve_read_only_example =
    serve_read_only sample_toml none disk sockets server 9 (λ w. w.contents) keeps 5
      (codes "127.0.0.1:8743") start start result disabled serves

abbrev secretive : Config
secretive =
    with_secrets (codes "/bin/check --key k") (codes "/etc/token") default_config.discovery
      default_config

snapshot_hides_secrets_example :
    build_http_snapshot_from_loop_result
      (with_secrets (codes "/bin/true") (codes "/tmp/t") default_config.discovery secretive)
      initial_loop_result
      true
    ≡ build_http_snapshot_from_loop_result secretive initial_loop_result true
unfolding codes
snapshot_hides_secrets_example =
    snapshot_hides_secrets secretive initial_loop_result true (codes "/bin/true") (codes "/tmp/t")
      default_config.discovery refl refl
