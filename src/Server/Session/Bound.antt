-- ===== src/Server/Session/Bound.antt =====
-- A session's invariant: the number of requests it handles is bounded, the socket is open while the
-- session is, and the callback is called once, when the session closes.
use ecommerce_platform.Prelude.{
  ℕ, ◌+◌, ◌≤◌, ◌<◌, ◌≡◌, ◌≢◌, refl, inl, inr, Bool, true, false, not, ◌&&◌, ◌||◌, arith, ltb, leb,
  ◌==◌, if◌then◌else◌, Bool-cases,
}
use ecommerce_platform.Http.Error.{Outcome, returns}
use ecommerce_platform.Http.Json.{JsonLibrary}
use ecommerce_platform.Http.Message.{Request, Response}
use ecommerce_platform.Server.Session.{
  SessionConfig, ErrorCode, State, k_open, k_closing, k_closed, Socket, connected, half_closed,
  disconnected, Pending, not_started, nothing, reading, writing, Session, request_close, close,
  force_close, completed, do_read, run, do_write, handle_read_error, handle_read_success,
  write_failed, write_sent,
}
use ecommerce_platform.Server.Session.Steps.{
  Step, runs, is_asked_to_close, is_forced_to_close, fails_to_read, reads, fails_to_write, writes,
  Steps, done, next, Reachable, failed_lem, handled_lem,
}

-- The most requests that a session handles: one at least, since the limit is tested afterwards.
abbrev pub most : SessionConfig → ℕ
most config =
    if config.max_requests_per_connection == 0 then 1 else config.max_requests_per_connection

unfoldable pub awaits : ℕ → ℕ → Pending → Bool
awaits bound n not_started = n == 0
awaits bound n nothing = true
awaits bound n (reading was_open) = not was_open || ltb n bound
awaits bound n (writing was_open res) = not was_open || (not res.keep_alive || ltb n bound)

-- While the session is not closed its socket is connected and its callback was not called. When it
-- is closed the callback was called once, and nothing more happens on an open socket.
unfoldable pub agrees : State → Socket → Pending → ℕ → Bool
agrees k_closed disconnected p closes = closes == 1
agrees k_closed half_closed nothing closes = closes == 1
agrees k_closed _ _ closes = false
agrees state connected p closes = closes == 0
agrees state _ p closes = false

unfoldable pub is_valid : SessionConfig → Session → Bool
is_valid config s =
    leb s.requests_handled (most config)
    && (awaits (most config) s.requests_handled s.pending
        && (agrees s.state s.socket s.pending s.closes && s.on_close))

module _ (lib : JsonLibrary) (handler : Request → Outcome Response) (config : SessionConfig) where
  close_valid :
      (force : Bool) (s : Session)
      → is_valid config s ≡ true
      → is_valid config (close force (completed s)) ≡ true
  unfolding is_valid awaits agrees close
  close_valid force s h = ground arith

  request_close_valid :
      (s : Session) → is_valid config s ≡ true → is_valid config (request_close s) ≡ true
  unfolding is_valid awaits agrees request_close
  request_close_valid s h = ground arith

  force_close_valid :
      (s : Session) → is_valid config s ≡ true → is_valid config (force_close s) ≡ true
  unfolding is_valid awaits agrees force_close close
  force_close_valid s h = ground arith

  do_read_valid :
      (s : Session)
      → is_valid config s ≡ true
      → s.socket ≢ half_closed
      → s.requests_handled < most config
      → is_valid config (do_read lib handler config (completed s)) ≡ true
  unfolding is_valid awaits agrees do_read
  do_read_valid s h o k = ground arith

  do_write_valid :
      (res : Response) (s : Session)
      → s.pending ≡ nothing
      → s.socket ≢ half_closed
      → is_valid config s ≡ true
      → is_valid config (do_write lib handler config res s) ≡ true
  unfolding is_valid awaits agrees do_write request_close
  do_write_valid res s p o h = ground arith

  -- An operation that is still awaited says that the session was not closed the polite way.
  pub awaited :
      (s : Session) → is_valid config s ≡ true → s.pending ≢ nothing → s.socket ≢ half_closed
  unfolding is_valid awaits agrees
  awaited s h p = ground arith

  pub completed_valid :
      (s : Session) → is_valid config s ≡ true → is_valid config (completed s) ≡ true
  unfolding is_valid awaits agrees
  completed_valid s h = ground arith

  -- A session that counts one more request, which it was waiting for.
  pub counted_valid :
      (s : Session)
      → is_valid config s ≡ true
      → s.pending ≡ reading true
      → is_valid config (record s { requests_handled = s.requests_handled + 1; pending = nothing })
        ≡ true
  unfolding is_valid awaits agrees
  counted_valid s h p = ground arith

  handle_read_error_valid :
      (ec : ErrorCode) (s t : Session)
      → is_valid config s ≡ true
      → s.pending ≢ nothing
      → handle_read_error lib handler config ec (completed s) ≡ returns t
      → is_valid config t ≡ true
  handle_read_error_valid ec s t h p e = elim (failed_lem lib handler config ec (completed s) t e) [
    | inl same ↦ rw same (close_valid false s h)
    | inr (res, same) ↦
        rw same (do_write_valid _ (completed s) refl (awaited s h p) (completed_valid s h))
  ]

  handle_read_success_valid :
      (req : Request) (s t : Session)
      → is_valid config s ≡ true
      → s.pending ≡ reading true
      → handle_read_success lib handler config req (completed s) ≡ returns t
      → is_valid config t ≡ true
  handle_read_success_valid req s t h p e =
      let (res, answered, same) = handled_lem lib handler config req (completed s) t e in
      rw same (do_write_valid res _ refl (awaited s h (λ q. cc)) (counted_valid s h p))

  room_after_write :
      (res : Response) (s : Session)
      → is_valid config s ≡ true
      → s.pending ≡ writing true res
      → res.keep_alive ≡ true
      → s.requests_handled < most config
  unfolding is_valid awaits
  room_after_write res s h p k = ground arith

  write_sent_valid :
      (res : Response) (s : Session)
      → is_valid config s ≡ true
      → s.pending ≡ writing true res
      → is_valid config (write_sent lib handler config res (completed s)) ≡ true
  unfolding write_sent
  write_sent_valid res s h p = elim (Bool-cases res.keep_alive) [
    | inl kept ↦
        rw kept (do_read_valid s h (awaited s h (λ e. cc)) (room_after_write res s h p kept))
    | inr ended ↦ rw ended (close_valid false s h)
  ]

  room_at_start :
      (s : Session)
      → is_valid config s ≡ true
      → s.pending ≡ not_started
      → s.requests_handled < most config
  unfolding is_valid awaits
  room_at_start s h p = ground arith

  run_valid :
      (s : Session)
      → is_valid config s ≡ true
      → s.pending ≡ not_started
      → is_valid config (run lib handler config s) ≡ true
  unfolding run
  run_valid s h p = do_read_valid s h (awaited s h (λ e. cc)) (room_at_start s h p)

  pub Step-valid :
      {s t : Session}
      → Step lib handler config s t
      → is_valid config s ≡ true
      → is_valid config t ≡ true
  unfolding write_failed
  Step-valid (runs s p) h = run_valid s h p
  Step-valid (is_asked_to_close s) h = request_close_valid s h
  Step-valid (is_forced_to_close s) h = force_close_valid s h
  Step-valid (fails_to_read s t b ec p e) h = handle_read_error_valid ec s t h (λ q. cc) e
  Step-valid (reads s t req p e) h = handle_read_success_valid req s t h p e
  Step-valid (fails_to_write s b res p) h = close_valid false s h
  Step-valid (writes s res p) h = write_sent_valid res s h p

  pub Steps-valid :
      {s t : Session}
      → Steps lib handler config s t
      → is_valid config s ≡ true
      → is_valid config t ≡ true
  Steps-valid (done s) h = h
  Steps-valid (next p ps) h = Steps-valid ps (Step-valid p h)

  pub Reachable-valid : {s : Session} → Reachable lib handler config s → is_valid config s ≡ true
  unfolding is_valid awaits agrees
  Reachable-valid r = Steps-valid r (ground arith)

  bounded : (s : Session) → is_valid config s ≡ true → s.requests_handled ≤ most config
  unfolding is_valid
  bounded s h = ground arith

  -- Whatever happens on a connection, the session hands no more requests to the handler than the
  -- configured number, or one where the configured number is 0.
  pub requests_handled_le :
      (s : Session) → Reachable lib handler config s → s.requests_handled ≤ most config
  requests_handled_le s r = bounded s (Reachable-valid r)

  calls_of_valid :
      (s : Session)
      → is_valid config s ≡ true
      → s.closes ≡ elim s.state [ k_open ↦ 0 | k_closing ↦ 0 | k_closed ↦ 1 ]
  unfolding is_valid agrees
  calls_of_valid s h = ground arith

  -- The session's callback was called once if the session is closed, and was not called if not,
  -- however often and from wherever it was closed.
  pub closes_once :
      (s : Session)
      → Reachable lib handler config s
      → s.closes ≡ elim s.state [ k_open ↦ 0 | k_closing ↦ 0 | k_closed ↦ 1 ]
  closes_once s r = calls_of_valid s (Reachable-valid r)
