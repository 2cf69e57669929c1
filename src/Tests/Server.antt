-- ===== src/Tests/Server.antt =====
-- Sessions and listeners at concrete events, and the theorems of Server there.
use ecommerce_platform.Prelude.{◌+◌, ◌≤◌, ◌≡◌, refl, inr, true, false, [], ◌∷◌, some, text, arith}
use ecommerce_platform.Http.Error.{Outcome, returns}
use ecommerce_platform.Http.Message.{Request, Response, error_response}
use ecommerce_platform.Http.Message.Printing.{error_reply}
use ecommerce_platform.Server.Session.Draining.{operations, forced_rests}
use ecommerce_platform.Server.Session.{
  make_parser_error, default_request, without_keep_alive, write_failed, other_error,
  handle_read_error,
}
use ecommerce_platform.Server.Session.Steps.{Steps, fails_to_read, fails_to_write}
use ecommerce_platform.Server.Session.{nothing}
use ecommerce_platform.Http.Verb.{get}
use ecommerce_platform.Server.Session.{
  SessionConfig, Session, k_open, k_closing, k_closed, new_session, completed, run, request_close,
  close, do_read, do_write, writing, handle_read_success, write_sent, force_close,
}
use ecommerce_platform.Server.Session.Steps.{
  runs, is_asked_to_close, is_forced_to_close, reads, done, next, Reachable,
}
use ecommerce_platform.Server.Session.Bound.{most, requests_handled_le, closes_once}
use ecommerce_platform.Server.Session.Closing.{closing_handles_one, last_response_closes}
use ecommerce_platform.Server.Listener.{
  Listener, new_listener, k_default_http_server_config, build_session_config, request_shutdown,
  on_session_closed, set_on_shutdown_complete, notify_if_drained, do_accept, on_accept,
  handle_accepted_socket, create_session, erase,
}
use ecommerce_platform.Server.Listener.Shutdown
use ecommerce_platform.Server.Listener.Shutdown.{sessions_le, completed_accept}
use ecommerce_platform.Server.Listener.Callback.{callback_is_posted, notified_is_final}
use ecommerce_platform.Tests.Json.{sample_json}

server : Unit {0}
unfolding handle_read_error error_response write_failed run request_close close force_close do_read
    do_write handle_read_success write_sent build_session_config request_shutdown on_session_closed
    set_on_shutdown_complete notify_if_drained do_accept on_accept handle_accepted_socket
    create_session erase
server = tt

abbrev config : SessionConfig
config = record {
  first_read_timeout = 30;
  keep_alive_timeout = 15;
  header_limit_bytes = 8192;
  body_limit_bytes = 1048576;
  max_requests_per_connection = 1;
}

abbrev greeting : Request → Response
greeting req = record {
  status = 200;
  version = req.version;
  content_type = text "text/plain";
  keep_alive = req.keep_alive;
  body = text "hello";
}

abbrev pub say : Request → Outcome Response
say req = returns (greeting req)

abbrev hello : Request
hello = record { method = get; target = text "/"; version = 11; keep_alive = true; body = [] }

abbrev waiting : Session
waiting = run sample_json say config (new_session true)

abbrev answering : Session
answering =
    do_write sample_json say config (greeting hello)
      (record waiting { requests_handled = 1; pending = nothing })

waiting-Reachable : Reachable sample_json say config waiting
unfolding server
waiting-Reachable = next (runs (new_session true) refl) (done _)

answering-Reachable : Reachable sample_json say config answering
unfolding server
answering-Reachable =
    next (runs (new_session true) refl) (next (reads waiting answering hello refl refl) (done _))

requests_handled_le_example : answering.requests_handled ≤ most config
requests_handled_le_example =
    requests_handled_le sample_json say config answering answering-Reachable

closes_once_example :
    (force_close waiting).closes
    ≡ elim (force_close waiting).state [ k_open ↦ 0 | k_closing ↦ 0 | k_closed ↦ 1 ]
unfolding server
closes_once_example =
    closes_once sample_json say config (force_close waiting)
      (next (runs (new_session true) refl) (next (is_forced_to_close waiting) (done _)))

abbrev last : Session
last =
    do_write sample_json say config (greeting hello)
      (record (request_close waiting) { requests_handled = 1; pending = nothing })

closing_handles_one_example : last.requests_handled ≤ (request_close waiting).requests_handled + 1
unfolding server
closing_handles_one_example =
    closing_handles_one sample_json say config (request_close waiting) last
      (next (runs (new_session true) refl) (next (is_asked_to_close waiting) (done _))) (λ e. cc)
      (next (reads (request_close waiting) last hello refl refl) (done _))

abbrev cut : Session
cut = force_close waiting

abbrev failing : Session
failing =
    do_write sample_json say config
      (without_keep_alive (error_reply sample_json default_request (make_parser_error other_error)))
      (completed cut)

last_words : Steps sample_json say config cut (write_failed (completed failing))
unfolding server
last_words =
    next (fails_to_read cut failing true other_error refl refl)
      (next (fails_to_write failing false _ refl) (done _))

forced_rests_example : operations sample_json say config last_words ≤ 3
unfolding server
forced_rests_example =
    forced_rests sample_json say config cut (write_failed (completed failing))
      (next (runs (new_session true) refl) (next (is_forced_to_close waiting) (done _))) refl
      last_words

abbrev listening : Listener
listening = do_accept new_listener

abbrev busy : Listener
busy = (on_accept k_default_http_server_config true (completed_accept listening)).0

abbrev hooked : Listener
hooked = set_on_shutdown_complete (some 5) busy

callback_is_posted_example : (on_session_closed 0 (request_shutdown hooked).0).posted ≡ 5 ∷ []
unfolding server
callback_is_posted_example =
    callback_is_posted k_default_http_server_config 5 busy
      (on_session_closed 0 (request_shutdown hooked).0)
      (Shutdown.step (Shutdown.starts new_listener)
        (Shutdown.step (Shutdown.accepts listening true refl) (Shutdown.same _)))
      refl
      (Shutdown.next (Shutdown.is_asked_to_stop hooked)
        (Shutdown.next (Shutdown.loses (request_shutdown hooked).0 0) (Shutdown.done _)))
      refl refl

abbrev stopped : Listener
stopped = (request_shutdown new_listener).0

notified_is_final_example : (set_on_shutdown_complete (some 5) stopped).posted ≡ stopped.posted
unfolding server
notified_is_final_example =
    notified_is_final k_default_http_server_config stopped
      (set_on_shutdown_complete (some 5) stopped) refl
      (Shutdown.set stopped (some 5) refl (Shutdown.same _))

last_response_closes_example :
    (t : Session) × (res : Response) × (handle_read_success sample_json say config hello
        (completed waiting)
      ≡ returns t)
    × (t.pending ≡ writing true res)
    × (res.keep_alive ≡ false)
    × ((write_sent sample_json say config res (completed t)).state ≡ k_closed)
unfolding server
last_response_closes_example =
    last_response_closes sample_json say config hello (greeting hello) (completed waiting) refl
      (inr (refl, omega arith)) refl

abbrev generous : SessionConfig
generous = build_session_config k_default_http_server_config
