-- ===== src/Api/Serve/ReadOnly.antt =====
-- A server without the permission to write leaves the files as they are.
use easy_failover.Base.{
  ℕ, zero, suc, Text, Bool, true, false, Option, none, some, Option-cases, [], ◌≡◌, refl, sym, ◌∙◌,
  inl, inr, if_cases,
}
use easy_failover.Base.Options.{Each, Each_of_some}
use easy_failover.Base.Result.{Result, Result-cases}
use easy_failover.Toml.{Toml}
use easy_failover.Api.Data.{LocalApiHttpServeResult}
use easy_failover.Api.Write.{FileSystem}
use easy_failover.Api.Serve.Keeps.{Keeps, round_keeps}
use easy_failover.Api.Serve.{
  Sockets, Server, returned, going, round, serve_loop, observed, refused, listening, prepare,
  with_socket, on_address, parse_bind, close_server, not_started, serve_local_api_http_with_mode,
}

module _ (T : Toml) (hostname : Option Text) {W V : Type 0} (fs : FileSystem W)
    (sockets : Sockets W) (server : Server W) (fuel : ℕ) (view : W → V)
    (keeps : Keeps sockets server view)
    (read_only : server.write_context.write_enabled ≡ false) where
  abbrev KeepsResult : W → Option (LocalApiHttpServeResult × W) → Type 0
  KeepsResult w = Each (λ (r : LocalApiHttpServeResult × W). view r.1 ≡ view w)

  serve_loop_keeps :
      (rounds fd : ℕ) (served : Bool) (w : W)
      → KeepsResult w (serve_loop T hostname fs sockets server fuel rounds fd served w)
  unfolding serve_loop
  serve_loop_keeps zero fd served w = tt
  serve_loop_keeps (suc rounds) fd served w =
      let kept = round_keeps T hostname fs sockets server fuel view keeps read_only fd served w in
      elim (Option-cases (round T hostname fs sockets server fuel fd served w)) [
        | inl e ↦ rw (e, serve_loop) tt
        | inr (returned result w', e) ↦ rw (e, serve_loop) (Each_of_some _ _ _ kept e)
        | inr (going served' w', e) ↦
            rw (e, serve_loop)
              (rw (sym (Each_of_some _ _ _ kept e)) (serve_loop_keeps rounds fd served' w'))
      ]

  observed_keeps :
      (result : LocalApiHttpServeResult) (w : W)
      → view (observed T hostname fs sockets server fuel result w) ≡ view w
  unfolding observed
  observed_keeps result w = elim (Option-cases server.startup_observer) [
    | inl e ↦ rw (e, observed) refl
    | inr (observe, e) ↦ rw (e, observed) (keeps.on_observed observe result w e)
  ]

  refused_keeps :
      (error : Text) (w : W) → view (refused T hostname fs sockets server fuel error w).1 ≡ view w
  unfolding refused
  refused_keeps error w = observed_keeps (not_started error) w

  listening_keeps :
      (host : Text) (port fd : ℕ) (w : W)
      → view (listening T hostname fs sockets server fuel host port fd w).1 ≡ view w
  unfolding listening
  listening_keeps host port fd w =
      let w1 = (sockets.bind fd host port w).1 in
      elim (Result-cases (sockets.bind fd host port w).0) [
        | inl (u, e) ↦ rw (e, listening) (keeps.on_listen fd w1 ∙ keeps.on_bind fd host port w)
        | inr (error, e) ↦ rw (e, listening) (keeps.on_bind fd host port w)
      ]

  prepare_keeps :
      (host : Text) (port fd : ℕ) (w : W)
      → view (prepare T hostname fs sockets server fuel host port fd w).1 ≡ view w
  unfolding prepare
  prepare_keeps host port fd w =
      if_cases (λ (r : Result Text Unit × W). view r.1 ≡ view w) (sockets.inet_pton host) _ _
        (λ _. listening_keeps host port fd (sockets.reuse_address fd w) ∙ keeps.on_reuse fd w)
        (λ _. keeps.on_reuse fd w)

  close_server_keeps :
      (fd : ℕ) (w : W) (o : Option (LocalApiHttpServeResult × W))
      → KeepsResult w o
      → KeepsResult w (close_server T hostname fs sockets server fuel fd o)
  close_server_keeps fd w none h = tt
  close_server_keeps fd w (some (result, w')) h = keeps.on_close fd w' ∙ h

  with_socket_keeps :
      (rounds : ℕ) (host : Text) (port fd : ℕ) (w : W)
      → KeepsResult w (with_socket T hostname fs sockets server fuel rounds host port fd w)
  unfolding with_socket
  with_socket_keeps rounds host port fd w =
      let (ready, w') = prepare T hostname fs sockets server fuel host port fd w in
      let same : view w' ≡ view w = prepare_keeps host port fd w in
      let started : LocalApiHttpServeResult = record {
        started = true;
        served_request = false;
        error = [];
      } in
      elim (Result-cases ready) [
        | inl (u, e) ↦
            rw (e, with_socket)
              (close_server_keeps fd w _ (
                rw (sym same)
                  (rw (sym (observed_keeps started w')) (serve_loop_keeps rounds fd false _))))
        | inr (error, e) ↦
            rw (e, with_socket)
              (close_server_keeps fd w (some (refused T hostname fs sockets server fuel error w'))
                (refused_keeps error w' ∙ same))
      ]

  on_address_keeps :
      (rounds : ℕ) (address : Option (Text × ℕ)) (w : W)
      → KeepsResult w (on_address T hostname fs sockets server fuel rounds address w)
  unfolding on_address
  on_address_keeps rounds none w = refused_keeps _ w
  on_address_keeps rounds (some (host, port)) w =
      let (made, w') = sockets.socket w in
      let same : view w' ≡ view w = keeps.on_socket w in
      elim (Result-cases made) [
        | inl (fd, e) ↦
            rw (e, on_address) (rw (sym same) (with_socket_keeps rounds host port fd w'))
        | inr (error, e) ↦ rw (e, on_address) (refused_keeps error w' ∙ same)
      ]

-- A server whose write context does not enable writes keeps whatever its sockets, observer and
-- snapshot provider keep, such as the contents of all files: whatever its clients send, for any number
-- of rounds, when it returns the view of the world is the one at its start.
pub serve_read_only :
    (T : Toml) (hostname : Option Text) {W V : Type 0} (fs : FileSystem W) (sockets : Sockets W)
    (server : Server W) (fuel : ℕ) (view : W → V) (keeps : Keeps sockets server view) (rounds : ℕ)
    (bind : Text) (w w' : W) (result : LocalApiHttpServeResult)
    → server.write_context.write_enabled ≡ false
    → serve_local_api_http_with_mode T hostname fs sockets server fuel rounds bind w
      ≡ some (result, w')
    → view w' ≡ view w
unfolding serve_local_api_http_with_mode
serve_read_only T hostname fs sockets server fuel view keeps rounds bind w w' result off e =
    Each_of_some _ _ _
      (on_address_keeps T hostname fs sockets server fuel view keeps off rounds (parse_bind bind) w)
      e
