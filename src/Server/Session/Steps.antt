-- ===== src/Server/Session/Steps.antt =====
-- What a session can go through: the handlers that its strand runs, one after the other. The
-- operations of a socket that is closed all the way fail, as Asio documents it.
use ecommerce_platform.Prelude.{◌≡◌, ◌⊎◌, inl, inr, ◌+◌, Bool, true, false, arith}
use ecommerce_platform.Http.Error.{Outcome-cases, Outcome, returns}
use ecommerce_platform.Http.Json.{JsonLibrary}
use ecommerce_platform.Http.Message.{Request, Response, error_response}
use ecommerce_platform.Server.Session.{
  SessionConfig, ErrorCode, timeout, end_of_stream, close, do_write, without_keep_alive,
  default_request, make_parser_error, not_started, reading, writing, Session, new_session,
  request_close, force_close, completed, run, handle_read_error, handle_read_success, write_failed,
  write_sent,
}

module _ (lib : JsonLibrary) (handler : Request → Outcome Response) (config : SessionConfig) where
  pub data Step : Session → Session → Type 0 where
    runs : (s : Session) → s.pending ≡ not_started → Step s (run lib handler config s)
    is_asked_to_close : (s : Session) → Step s (request_close s)
    is_forced_to_close : (s : Session) → Step s (force_close s)
    fails_to_read :
        (s t : Session) (was_open : Bool) (ec : ErrorCode)
        → s.pending ≡ reading was_open
        → handle_read_error lib handler config ec (completed s) ≡ returns t
        → Step s t
    reads :
        (s t : Session) (req : Request)
        → s.pending ≡ reading true
        → handle_read_success lib handler config req (completed s) ≡ returns t
        → Step s t
    fails_to_write :
        (s : Session) (was_open : Bool) (res : Response)
        → s.pending ≡ writing was_open res
        → Step s (write_failed (completed s))
    writes :
        (s : Session) (res : Response)
        → s.pending ≡ writing true res
        → Step s (write_sent lib handler config res (completed s))

  pub data Steps : Session → Session → Type 0 where
    done : (s : Session) → Steps s s
    next : {s t u : Session} → Step s t → Steps t u → Steps s u

  -- What a new session with a callback can become.
  abbrev pub Reachable : Session → Type 0
  Reachable s = Steps (new_session true) s

  -- A request that was read has a response, and the session writes it.
  pub handled_lem :
      (req : Request) (s t : Session)
      → handle_read_success lib handler config req s ≡ returns t
      → (res : Response) × (handler req ≡ returns res)
        × (t
            ≡ do_write lib handler config res
                (record s { requests_handled = s.requests_handled + 1 }))
  unfolding handle_read_success
  handled_lem req s t h = elim (Outcome-cases (handler req)) [
    | inl (res, e) ↦ (res, e, ground arith)
    | inr (x, e) ↦ cc (rw (e, handle_read_success) at h)
  ]

  -- A read that fails for another reason than its end has a response too.
  pub failed_lem :
      (ec : ErrorCode) (s t : Session)
      → handle_read_error lib handler config ec s ≡ returns t
      → (t ≡ close false s)
        ⊎ ((res : Response) × (t ≡ do_write lib handler config (without_keep_alive res) s))
  unfolding handle_read_error
  failed_lem timeout s t h = inl (ground arith)
  failed_lem end_of_stream s t h = inl (ground arith)
  failed_lem ec s t h =
      elim (Outcome-cases (error_response lib default_request (make_parser_error ec))) [
        | inl (res, e) ↦ inr (res, of_returned res (rw e at h))
        | inr (x, e) ↦ cc (rw e at h)
      ]
    where
      of_returned :
          (res : Response)
          → returns (do_write lib handler config (without_keep_alive res) s) ≡ returns t
          → t ≡ do_write lib handler config (without_keep_alive res) s
      of_returned res k = ground arith
