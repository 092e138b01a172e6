-- ===== src/Lib.antt =====
-- easy-failover: a daemon that keeps a virtual IP address (VIP) on exactly one healthy host.
--
-- The program (C++, under src/) is a loop. Each round it polls the shutdown signals, exchanges
-- heartbeats with the configured peers, exchanges signed discovery beacons on the LAN, and runs one
-- lifecycle round: probe whether this host owns the VIP, decide by election and quorum, and add,
-- announce or remove the VIP.
--
-- Core: src/core. `Election` is chooseHighestPriorityHealthyNode, `Decision` is
--   decideFailoverAction. The texts of a decision's reason are constructors of `Reason`.
--   `Decision/Cluster` is not code: it is the specification of a cluster in which every node runs
--   the decision and sees exactly the nodes of its own partition.
-- Toml: the calls of toml++ as a record that the models take, since toml++ is not in the repository.
-- Config: src/config/Config.hpp and Config.cpp: the records, `validate`, and in `Decode` the
--   reading of a table. The host name and the contents of a file are arguments.
-- Platform: src/platform: command runners, LinuxVipManager and LinuxVipOwnershipProbe. A runner, a
--   manager and a probe are records of functions on the state of the world, which is a parameter.
--   `LinuxRunner` is LinuxNetworkCommandRunner over the calls on processes.
-- Heartbeat: src/heartbeat: the message, the transport interface and runHeartbeatLoopOnce.
-- Discovery: src/discovery: SHA-256, HMAC, the signed beacon and the table of peers. `table_of` in
--   `PeerTable/History` and `recent_of` in Runtime's `Peers/Live` are not code: they are what the
--   program's operations make of a history of observations.
-- Runtime: src/runtime: `Shutdown` (ShutdownSignal), `Lifecycle` (runDaemonLifecycleOnce),
--   `Observations`, `Peers` and `LoopData` (data and helpers of DaemonRuntime.cpp), `Loop`
--   (runDaemonRuntimeLoop). `Log` is RuntimeLog and the texts of `Reason` and `Detail`.
-- Health: src/health, the evaluation of a health command, which the loop does not call;
--   `LinuxRunner` is LinuxHealthCommandRunner over the calls on processes and the clock.
-- Api: src/api/LocalApi.hpp and .cpp. `Data` is the structs of the header, `Json` the JSON writer and
--   reader, `Http` requests, responses and the read loop, `Auth` the bearer token, `Write` the atomic
--   replacement of the config file, `Validate`, `Results` and `Apply` the two config endpoints,
--   `Status`, `View` and `Events` the other responses, `Route` the endpoints and `Serve` the server.
-- Main: src/main.cpp: `Snapshot` (what the API shows of the loop), `Release` (--release-vip) and
--   `Startup` (the checks and settings before the loop, and the exit code).
-- Base: helpers on texts, integers, lists, options, bits, decimals, results and searches in texts.
--
-- Texts are lists of bytes. `int` and `std::int64_t` are integers without a bound, except where a
-- cast or a parser has a range (`to_int`, from_chars, std::stoi); elapsed times do not overflow here.
-- 32-bit words of SHA-256 wrap around. std::map is a list sorted by key, std::unordered_map a list of
-- entries with distinct keys.
--
-- Calls of the operating system (sockets, files, commands) are records of functions on the state of
-- the world, which is a parameter; a theorem that relies on their documented effects takes a record
-- of laws, and `Api/Write/Disk` is a small disk that meets those of the file system.
--
-- These functions take fuel. `loop_from` counts the rounds of the daemon's loop; a loop with a maximal
-- number of rounds needs one more unit than that number. `scan` consumes a byte or more in each round,
-- so the length of the text is enough. `write_all` counts the calls of ::write; more than the length of
-- the text and the number of interruptions to come is enough. `read_loop` counts the packets of a
-- request; each brings a byte, so one more than the bound on a request is enough. `serve_loop` counts
-- the rounds of a server, which has no end of its own. The runners of Linux count the calls of a loop,
-- which the system may interrupt any number of times, so that no number is enough in general.
--
-- Not modelled: the child's part of a fork, threads, signals' installation, log sinks, the command line,
-- a crash of the system between two calls, and the web console.
pub mod Base
pub mod Core
pub mod Toml
pub mod Config
pub mod Platform
pub mod Heartbeat
pub mod Discovery
pub mod Runtime
pub mod Health
pub mod Api
pub mod Main
