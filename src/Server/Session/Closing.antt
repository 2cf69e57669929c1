-- ===== src/Server/Session/Closing.antt =====
-- How a session ends once it is asked to.
use ecommerce_platform.Prelude.{
  ℕ, ◌+◌, ◌≤◌, ◌<◌, ◌⊎◌, ◌≡◌, ◌≢◌, refl, inl, inr, Bool, true, false, ◌&&◌, arith, if◌then◌else◌,
  Bool-cases,
}
use ecommerce_platform.Http.Error.{Outcome, returns}
use ecommerce_platform.Http.Json.{JsonLibrary}
use ecommerce_platform.Http.Message.{Request, Response}
use ecommerce_platform.Server.Session.{
  SessionConfig, ErrorCode, k_open, k_closing, k_closed, Socket, connected, half_closed, Pending,
  not_started, nothing, reading, writing, Session, request_close, close, force_close, completed,
  do_read, run, do_write, is_open, handle_read_error, handle_read_success, write_failed, write_sent,
  without_keep_alive,
}
use ecommerce_platform.Server.Session.Bound.{
  is_valid, agrees, awaited, completed_valid, counted_valid, Step-valid, Reachable-valid,
}
use ecommerce_platform.Server.Session.Steps.{
  Step, runs, is_asked_to_close, is_forced_to_close, fails_to_read, reads, fails_to_write, writes,
  Steps, done, next, Reachable, failed_lem, handled_lem,
}

-- How many more requests a session that is not open can hand to the handler: one, if it reads, or
-- will read after its write.
unfoldable pub still_left : Socket → Pending → ℕ
still_left socket not_started = 1
still_left socket nothing = 0
still_left socket (reading was_open) = if was_open then 1 else 0
still_left socket (writing was_open res) =
    if was_open && (res.keep_alive && is_open socket) then 1 else 0

-- A session that is not open, and how many requests it will have handled at the end, at most.
record Ending (n : ℕ) (s : Session) : Type 0 where
  not_open : s.state ≢ k_open
  at_most : s.requests_handled + still_left s.socket s.pending ≤ n

module _ (lib : JsonLibrary) (handler : Request → Outcome Response) (config : SessionConfig)
    {n : ℕ} where
  close-Ending : (force : Bool) (s : Session) → Ending n s → Ending n (close force (completed s))
  unfolding close still_left
  close-Ending force s e = record {
    not_open = let o = e.not_open in ground arith;
    at_most = let m = e.at_most in ground arith;
  }

  force_close-Ending : (s : Session) → Ending n s → Ending n (force_close s)
  unfolding force_close close still_left
  force_close-Ending s e = record {
    not_open = let o = e.not_open in ground arith;
    at_most = let m = e.at_most in ground arith;
  }

  request_close-Ending : (s : Session) → Ending n s → Ending n (request_close s)
  unfolding request_close
  request_close-Ending s e =
      let o = e.not_open in
      let m = e.at_most in record { not_open = ground arith; at_most = ground arith }

  do_read-Ending :
      (s : Session)
      → s.state ≢ k_open
      → s.requests_handled + (if is_open s.socket then 1 else 0) ≤ n
      → Ending n (do_read lib handler config (completed s))
  unfolding do_read still_left
  do_read-Ending s o m = record { not_open = o; at_most = m }

  do_write-Ending :
      (res : Response) (s : Session)
      → s.state ≢ k_open
      → s.socket ≢ half_closed
      → is_valid config s ≡ true
      → s.requests_handled ≤ n
      → Ending n (do_write lib handler config res s)
  unfolding do_write request_close still_left is_valid agrees
  do_write-Ending res s o k h m = record { not_open = ground arith; at_most = ground arith }

  started :
      (s : Session)
      → Ending n s
      → s.pending ≡ not_started
      → s.requests_handled + (if is_open s.socket then 1 else 0) ≤ n
  unfolding still_left
  started s e p = let m = e.at_most in ground arith

  after_write :
      (res : Response) (s : Session)
      → Ending n s
      → s.pending ≡ writing true res
      → res.keep_alive ≡ true
      → s.requests_handled + (if is_open s.socket then 1 else 0) ≤ n
  unfolding still_left
  after_write res s e p k = let m = e.at_most in ground arith

  read_one : (s : Session) → Ending n s → s.pending ≡ reading true → s.requests_handled + 1 ≤ n
  unfolding still_left
  read_one s e p = let m = e.at_most in ground arith

  handled_le : (s : Session) → Ending n s → s.requests_handled ≤ n
  handled_le s e = let m = e.at_most in omega arith

  handle_read_error-Ending :
      (ec : ErrorCode) (s t : Session)
      → is_valid config s ≡ true
      → s.pending ≢ nothing
      → Ending n s
      → handle_read_error lib handler config ec (completed s) ≡ returns t
      → Ending n t
  handle_read_error-Ending ec s t h p e q =
      elim (failed_lem lib handler config ec (completed s) t q) [
        | inl same ↦ rw same (close-Ending false s e)
        | inr (res, same) ↦ rw same (
            do_write-Ending _ (completed s) e.not_open (awaited lib handler config s h p)
              (completed_valid lib handler config s h) (handled_le s e))
      ]

  handle_read_success-Ending :
      (req : Request) (s t : Session)
      → is_valid config s ≡ true
      → s.pending ≡ reading true
      → Ending n s
      → handle_read_success lib handler config req (completed s) ≡ returns t
      → Ending n t
  handle_read_success-Ending req s t h p e q =
      let (res, answered, same) = handled_lem lib handler config req (completed s) t q in
      rw same (
        do_write-Ending res _ e.not_open (awaited lib handler config s h (λ r. cc))
          (counted_valid lib handler config s h p) (read_one s e p))

  write_sent-Ending :
      (res : Response) (s : Session)
      → Ending n s
      → s.pending ≡ writing true res
      → Ending n (write_sent lib handler config res (completed s))
  unfolding write_sent
  write_sent-Ending res s e p = elim (Bool-cases res.keep_alive) [
    | inl kept ↦ rw kept (do_read-Ending s e.not_open (after_write res s e p kept))
    | inr ended ↦ rw ended (close-Ending false s e)
  ]

  Step-Ending :
      {s t : Session}
      → Step lib handler config s t
      → is_valid config s ≡ true
      → Ending n s
      → Ending n t
  unfolding run write_failed
  Step-Ending (runs s p) h e = do_read-Ending s e.not_open (started s e p)
  Step-Ending (is_asked_to_close s) h e = request_close-Ending s e
  Step-Ending (is_forced_to_close s) h e = force_close-Ending s e
  Step-Ending (fails_to_read s t b ec p q) h e = handle_read_error-Ending ec s t h (λ r. cc) e q
  Step-Ending (reads s t req p q) h e = handle_read_success-Ending req s t h p e q
  Step-Ending (fails_to_write s b res p) h e = close-Ending false s e
  Step-Ending (writes s res p) h e = write_sent-Ending res s e p

  Steps-Ending :
      {s t : Session}
      → Steps lib handler config s t
      → is_valid config s ≡ true
      → Ending n s
      → Ending n t
  Steps-Ending (done s) h e = e
  Steps-Ending (next p ps) h e =
      Steps-Ending ps (Step-valid lib handler config p h) (Step-Ending p h e)

module _ (lib : JsonLibrary) (handler : Request → Outcome Response) (config : SessionConfig) where
  at_most_one : (s : Session) → s.state ≢ k_open → Ending (s.requests_handled + 1) s
  unfolding still_left
  at_most_one s o = record { not_open = o; at_most = ground arith }

  -- Once a session is asked to close, or has closed, it hands at most one more request to the handler,
  -- whatever happens on its connection.
  pub closing_handles_one :
      (s t : Session)
      → Reachable lib handler config s
      → s.state ≢ k_open
      → Steps lib handler config s t
      → t.requests_handled ≤ s.requests_handled + 1
  closing_handles_one s t r o p =
      handled_le lib handler config t
        (Steps-Ending lib handler config p (Reachable-valid lib handler config r) (at_most_one s o))

  -- Where a request arrives at a connected session that was asked to close, or that handles its last
  -- request with it, and the handler answers, the response tells the client that the connection ends,
  -- and the session is closed when this response is sent.
  pub last_response_closes :
      (req : Request) (answered : Response) (s : Session)
      → s.socket ≡ connected
      → (s.state ≡ k_closing)
        ⊎ ((s.state ≡ k_open) × (config.max_requests_per_connection ≤ s.requests_handled + 1))
      → handler req ≡ returns answered
      → (t : Session) × (res : Response) × (handle_read_success lib handler config req s
          ≡ returns t)
        × (t.pending ≡ writing true res)
        × (res.keep_alive ≡ false)
        × ((write_sent lib handler config res (completed t)).state ≡ k_closed)
  unfolding handle_read_success do_write write_sent request_close close
  last_response_closes req answered s c h e = (
    do_write lib handler config answered (record s { requests_handled = s.requests_handled + 1 }),
    without_keep_alive answered,
    rw e,
    ground arith,
    refl,
    ground arith,
  )

  -- Where a request arrives at a connected, open session that may handle more requests after it, and
  -- the handler answers and keeps the connection, the handler's response is sent as it is, and the
  -- session then reads the next request.
  open_goes_on :
      (req : Request) (res : Response) (s : Session)
      → s.socket ≡ connected
      → s.state ≡ k_open
      → s.requests_handled + 1 < config.max_requests_per_connection
      → handler req ≡ returns res
      → res.keep_alive ≡ true
      → (t : Session) × (handle_read_success lib handler config req s ≡ returns t)
        × (t.pending ≡ writing true res)
        × ((write_sent lib handler config res (completed t)).pending ≡ reading true)
  unfolding handle_read_success do_write write_sent request_close do_read
  open_goes_on req res s c o m e k = (
    do_write lib handler config res (record s { requests_handled = s.requests_handled + 1 }),
    rw e,
    ground arith,
    ground arith,
  )
