-- ===== src/Api/Http/Read.antt =====
-- The loop that reads a request, over the poll and recv of a socket, and its bounds.
use easy_failover.Base.{
  ℕ, zero, suc, ◌+◌, ◌≤◌, ◌<◌, ltb, leb, tests, Text, codes, Bool, true, false, Option, none, some,
  [], ◌∷◌, ◌++◌, length, length-append, is_empty, ◌≡◌, refl, sym, ◌∙◌, arith, if◌then◌else◌,
  if_cases,
}
use easy_failover.Base.Options.{Each}
use easy_failover.Base.Search.{cut}
use easy_failover.Api.Http.{max_request_bytes, parse_content_length}

-- What ::poll reports on one socket: readable, no event in time, interrupted by a signal, or an error
-- with its text.
pub data Polled : Type 0 where
  readable idle interrupted : Polled
  failed : Text → Polled

-- ::poll with its time-out, and ::recv into a buffer of a size; empty is a count of at most 0.
pub record Receiver (W : Type 0) : Type 0 where
  pub poll : ℕ → ℕ → W → Polled × W
  pub recv : ℕ → ℕ → W → Text × W

abbrev pub buffer_bytes : ℕ
buffer_bytes = 4096

unfoldable pub is_readable : Polled → Bool
is_readable readable = true
is_readable _ = false

abbrev body_complete : ℕ → Option ℕ → Bool
body_complete body_bytes_read none = true
body_complete body_bytes_read (some content_length) = leb content_length body_bytes_read

abbrev header_seen : Text → Option (Text × Text) → Bool
header_seen bytes none = false
header_seen bytes (some (_, body)) = body_complete (length body) (parse_content_length bytes)

-- Whether the header has come, and the body in the length that it announces.
unfoldable pub request_complete : Text → Bool
unfolding cut
request_complete bytes = header_seen bytes (cut (codes "\r\n\r\n") bytes)

module _ {W : Type 0} (receiver : Receiver W) where
  append_chunk : Text → Text → W → Text × (Bool × W)
  append_chunk bytes chunk w =
      if is_empty chunk
      then (bytes, (false, w))
      else if request_complete (bytes ++ chunk)
      then (bytes ++ chunk, (false, w))
      else (bytes ++ chunk, (true, w))

  receive : ℕ → Text → W → Text × (Bool × W)
  unfolding append_chunk
  receive client bytes w =
      let (chunk, w') = receiver.recv client buffer_bytes w in append_chunk bytes chunk w'

  -- One round: what is read is appended, and the loop ends here unless the last part is true.
  pub read_more : ℕ → Text → W → Text × (Bool × W)
  unfolding is_readable receive
  read_more client bytes w =
      let (polled, w') = receiver.poll client 1000 w in
      if is_readable polled then receive client bytes w' else (bytes, (false, w'))

  unfoldable pub read_loop : ℕ → ℕ → Text → W → Option (Text × W)
  unfolding read_more
  read_loop zero client bytes w = none
  read_loop (suc fuel) client bytes w =
      let (bytes', (go_on, w')) = read_more client bytes w in
      let later = read_loop fuel client bytes' w' in
      if ltb (length bytes) max_request_bytes
      then (if go_on then later else some (bytes', w'))
      else some (bytes, w)

  unfoldable pub read_request_bytes : ℕ → W → Option (Text × W)
  unfolding read_loop
  read_request_bytes client w = read_loop (suc max_request_bytes) client [] w

  -- ::recv writes no more bytes than the buffer has.
  abbrev pub FitsBuffer : Type 0
  FitsBuffer = (client size : ℕ) (w : W) → length (receiver.recv client size w).0 ≤ size

  Grows : Text → Text × (Bool × W) → Type 0
  Grows bytes r =
      (length r.0 ≤ length bytes + buffer_bytes) × (r.1.0 ≡ true → length bytes < length r.0)

  append_chunk-Grows :
      (bytes chunk : Text) (w : W)
      → length chunk ≤ buffer_bytes
      → Grows bytes (append_chunk bytes chunk w)
  unfolding append_chunk Grows
  append_chunk-Grows bytes [] w h = (omega arith, λ e. cc)
  append_chunk-Grows bytes (c ∷ cs) w h =
      let longer = length-append bytes (c ∷ cs) in
      if_cases (Grows bytes) (request_complete (bytes ++ c ∷ cs)) _ _
        (λ _. (omega (arith, longer), λ _. omega (arith, longer)))
        (λ _. (omega (arith, longer), λ _. omega (arith, longer)))

  read_more-Grows :
      FitsBuffer → (client : ℕ) (bytes : Text) (w : W) → Grows bytes (read_more client bytes w)
  unfolding read_more Grows receive
  read_more-Grows fits client bytes w =
      let (polled, w') = receiver.poll client 1000 w in
      if_cases (Grows bytes) (is_readable polled) _ _
        (λ _. append_chunk-Grows bytes _ _ (fits client buffer_bytes w'))
        (λ _. (omega arith, λ e. cc))

  -- With a unit of fuel for each byte that is missing, the loop ends, and stays within one buffer of
  -- the bound.
  Ends : Option (Text × W) → Type 0
  Ends result =
      (bytes : Text) × (w : W) × (result ≡ some (bytes, w))
      × (length bytes < max_request_bytes + buffer_bytes)

  read_loop_bounded :
      FitsBuffer
      → (fuel client : ℕ) (bytes : Text) (w : W) → max_request_bytes ≤ fuel + length bytes
      → length bytes < max_request_bytes + buffer_bytes
      → Ends (read_loop (suc fuel) client bytes w)
  unfolding read_loop Ends Grows
  read_loop_bounded fits zero client bytes w h k =
      if_cases Ends (ltb (length bytes) max_request_bytes) _ _ (λ low. absurd (omega (tests, low)))
        (λ _. (bytes, w, refl, k))
  read_loop_bounded fits (suc fuel) client bytes w h k =
      let (bytes', (go_on, w')) = read_more client bytes w in
      let (small, more) = read_more-Grows fits client bytes w in
      if_cases Ends (ltb (length bytes) max_request_bytes) _ _
        (λ low.
          if_cases Ends go_on _ _
            (λ e.
              read_loop_bounded fits fuel client bytes' w' (omega (tests, more e))
                (omega (tests, low)))
            (λ _. (bytes', w', refl, omega (tests, low))))
        (λ _. (bytes, w, refl, k))

-- If recv never returns more bytes than the buffer holds, the read loop ends for every sequence of
-- packets and poll results, and the request that it returns is shorter than the bound on a request
-- and one buffer together.
pub read_request_bytes_bounded :
    {W : Type 0} (receiver : Receiver W)
    → FitsBuffer receiver
    → (client : ℕ) (w : W)
    → (bytes : Text) × (w' : W) × (read_request_bytes receiver client w ≡ some (bytes, w'))
      × (length bytes < max_request_bytes + buffer_bytes)
unfolding read_request_bytes Ends
read_request_bytes_bounded receiver fits client w =
    read_loop_bounded receiver fits max_request_bytes client [] w (omega arith) (omega arith)

-- Reading keeps what poll and recv keep.
module _ {W V : Type 0} (receiver : Receiver W) (view : W → V)
    (on_poll : (fd timeout : ℕ) (w : W) → view (receiver.poll fd timeout w).1 ≡ view w)
    (on_recv : (fd size : ℕ) (w : W) → view (receiver.recv fd size w).1 ≡ view w) where
  abbrev KeepsRound : W → Text × (Bool × W) → Type 0
  KeepsRound w r = view r.1.1 ≡ view w

  append_chunk_keeps :
      (bytes chunk : Text) (w : W) → KeepsRound w (append_chunk receiver bytes chunk w)
  unfolding append_chunk
  append_chunk_keeps bytes chunk w =
      if_cases (KeepsRound w) (is_empty chunk) _ _ (λ _. refl)
        λ _. if_cases (KeepsRound w) (request_complete (bytes ++ chunk)) _ _ (λ _. refl) (λ _. refl)

  read_more_keeps :
      (client : ℕ) (bytes : Text) (w : W) → KeepsRound w (read_more receiver client bytes w)
  unfolding read_more receive
  read_more_keeps client bytes w =
      let (polled, w') = receiver.poll client 1000 w in
      if_cases (KeepsRound w) (is_readable polled) _ _
        (λ _.
          append_chunk_keeps bytes _ (receiver.recv client buffer_bytes w').1
          ∙ (on_recv client buffer_bytes w' ∙ on_poll client 1000 w))
        (λ _. on_poll client 1000 w)

  read_loop_keeps :
      (fuel client : ℕ) (bytes : Text) (w : W)
      → Each (λ (r : Text × W). view r.1 ≡ view w) (read_loop receiver fuel client bytes w)
  unfolding read_loop
  read_loop_keeps zero client bytes w = tt
  read_loop_keeps (suc fuel) client bytes w =
      let (bytes', (go_on, w')) = read_more receiver client bytes w in
      let here = read_more_keeps client bytes w in
      let Kept : Option (Text × W) → Type 0 = Each (λ (r : Text × W). view r.1 ≡ view w) in
      if_cases Kept (ltb (length bytes) max_request_bytes) _ _
        (λ _.
          if_cases Kept go_on _ _ (λ _. rw (sym here) (read_loop_keeps fuel client bytes' w'))
            (λ _. here))
        (λ _. refl)

  pub read_request_bytes_keeps :
      (client : ℕ) (w : W)
      → Each (λ (r : Text × W). view r.1 ≡ view w) (read_request_bytes receiver client w)
  unfolding read_request_bytes
  read_request_bytes_keeps client w = read_loop_keeps (suc max_request_bytes) client [] w
