-- ===== src/Api/Serve/Keeps.antt =====
-- What one round of the server keeps of the world.
use easy_failover.Base.{
  ℕ, Text, Bool, false, Option, none, some, Option-cases, ◌≡◌, refl, sym, ◌∙◌, inl, inr, if_cases,
}
use easy_failover.Base.Options.{Each, bind-Each}
use easy_failover.Toml.{Toml}
use easy_failover.Runtime.Shutdown.{ShutdownHandle}
use easy_failover.Api.Data.{
  LocalApiHttpRequest, LocalApiHttpResponse, LocalApiHttpSnapshot, LocalApiHttpServeResult,
}
use easy_failover.Api.Http.{parse_http_request, http_response_bytes}
use easy_failover.Api.Http.Read.{
  Polled, readable, idle, interrupted, failed, read_request_bytes_keeps,
}
use easy_failover.Api.Write.{FileSystem}
use easy_failover.Api.Route.Laws.{respond_read_only}
use easy_failover.Api.Serve.{
  Sockets, Server, Accepted, client, interrupted_accept, failed_accept, Progress, returned, going,
  shutdown_requested, answer, serve_client, after_client, accept_one, polled, round,
}

-- The calls on sockets, the observer, the snapshot provider and the poll of the shutdown signals keep
-- what `view` shows of the world.
pub record Keeps {W V : Type 0} (sockets : Sockets W) (server : Server W) (view : W → V)
    : Type 0 where
  pub on_poll : (fd timeout : ℕ) (w : W) → view (sockets.receiver.poll fd timeout w).1 ≡ view w
  pub on_recv : (fd size : ℕ) (w : W) → view (sockets.receiver.recv fd size w).1 ≡ view w
  pub on_socket : (w : W) → view (sockets.socket w).1 ≡ view w
  pub on_reuse : (fd : ℕ) (w : W) → view (sockets.reuse_address fd w) ≡ view w
  pub on_bind :
      (fd : ℕ) (host : Text) (port : ℕ) (w : W) → view (sockets.bind fd host port w).1 ≡ view w
  pub on_listen : (fd : ℕ) (w : W) → view (sockets.listen fd w).1 ≡ view w
  pub on_accept : (fd : ℕ) (w : W) → view (sockets.accept fd w).1 ≡ view w
  pub on_send : (fd : ℕ) (bytes : Text) (w : W) → view (sockets.send fd bytes w) ≡ view w
  pub on_close : (fd : ℕ) (w : W) → view (sockets.close fd w) ≡ view w
  pub on_snapshot : (w : W) → view (server.snapshot_provider w).1 ≡ view w
  pub on_shutdown :
      (handle : ShutdownHandle W) (w : W)
      → server.shutdown_state ≡ some handle
      → view (handle.poll w) ≡ view w
  pub on_observed :
      (observe : LocalApiHttpServeResult → W → W) (result : LocalApiHttpServeResult) (w : W)
      → server.startup_observer ≡ some observe
      → view (observe result w) ≡ view w

module _ (T : Toml) (hostname : Option Text) {W V : Type 0} (fs : FileSystem W)
    (sockets : Sockets W) (server : Server W) (fuel : ℕ) (view : W → V)
    (keeps : Keeps sockets server view)
    (read_only : server.write_context.write_enabled ≡ false) where
  answer_keeps :
      (request : Option LocalApiHttpRequest) (snapshot : LocalApiHttpSnapshot) (w : W)
      → Each
          (λ (r : LocalApiHttpResponse × W). view r.1 ≡ view w)
          (answer T hostname fs sockets server fuel request snapshot w)
  unfolding answer
  answer_keeps none snapshot w = refl
  answer_keeps (some request) snapshot w =
      let (r, k) =
        respond_read_only T hostname fs server.emit_audit fuel request snapshot server.write_context
          w (λ may. cc (may.2, read_only)) in
      rw k refl

  serve_client_keeps :
      (fd : ℕ) (w : W)
      → Each (λ w'. view w' ≡ view w) (serve_client T hostname fs sockets server fuel fd w)
  unfolding serve_client
  serve_client_keeps fd w =
      bind-Each (λ (r : Text × W). view r.1 ≡ view w) (λ w'. view w' ≡ view w) _ _
        (read_request_bytes_keeps sockets.receiver view keeps.on_poll keeps.on_recv fd w)
        λ (r : Text × W) read.
          let (snapshot, w2) = server.snapshot_provider r.1 in
          bind-Each (λ (a : LocalApiHttpResponse × W). view a.1 ≡ view w2) (λ w'. view w' ≡ view w)
            _ _ (answer_keeps (parse_http_request r.0) snapshot w2)
            λ (a : LocalApiHttpResponse × W) answered.
              keeps.on_close fd _
              ∙ (keeps.on_send fd (http_response_bytes a.0) a.1
                  ∙ (answered ∙ (keeps.on_snapshot r.1 ∙ read)))

  abbrev pub world_of : Progress W → W
  world_of (returned result w) = w
  world_of (going served w) = w

  abbrev pub KeepsProgress : W → Option (Progress W) → Type 0
  KeepsProgress w = Each (λ p. view (world_of p) ≡ view w)

  after_client_keeps :
      (w : W) (o : Option W)
      → Each (λ w'. view w' ≡ view w) o
      → KeepsProgress w (after_client T hostname fs sockets server fuel o)
  unfolding after_client
  after_client_keeps w none h = tt
  after_client_keeps w (some w') h =
      if_cases (KeepsProgress w) server.serve_once _ _ (λ _. h) (λ _. h)

  accept_one_keeps :
      (served : Bool) (accepted : Accepted) (w : W)
      → KeepsProgress w (accept_one T hostname fs sockets server fuel served accepted w)
  unfolding accept_one
  accept_one_keeps served (client fd) w = after_client_keeps w _ (serve_client_keeps fd w)
  accept_one_keeps served interrupted_accept w = refl
  accept_one_keeps served (failed_accept error) w = refl

  polled_keeps :
      (fd : ℕ) (served : Bool) (event : Polled) (w : W)
      → KeepsProgress w (polled T hostname fs sockets server fuel fd served event w)
  unfolding polled
  polled_keeps fd served readable w =
      rw (sym (keeps.on_accept fd w))
        (accept_one_keeps served (sockets.accept fd w).0 (sockets.accept fd w).1)
  polled_keeps fd served idle w = refl
  polled_keeps fd served interrupted w = refl
  polled_keeps fd served (failed error) w = refl

  shutdown_keeps :
      (w : W) → view (shutdown_requested T hostname fs sockets server fuel w).1 ≡ view w
  unfolding shutdown_requested
  shutdown_keeps w = elim (Option-cases server.shutdown_state) [
    | inl e ↦ rw (e, shutdown_requested) refl
    | inr (handle, e) ↦ rw (e, shutdown_requested) (keeps.on_shutdown handle w e)
  ]

  pub round_keeps :
      (fd : ℕ) (served : Bool) (w : W)
      → KeepsProgress w (round T hostname fs sockets server fuel fd served w)
  unfolding round
  round_keeps fd served w =
      let (stop, w1) = shutdown_requested T hostname fs sockets server fuel w in
      let (event, w2) = sockets.receiver.poll fd 250 w1 in
      let same : view w2 ≡ view w = keeps.on_poll fd 250 w1 ∙ shutdown_keeps w in
      if_cases (KeepsProgress w) stop _ _ (λ _. shutdown_keeps w)
        (λ _. rw (sym same) (polled_keeps fd served event w2))
