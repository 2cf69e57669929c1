-- ===== src/Service.antt =====
-- The process of services/CreateOrdersService/main.cpp: its state after main has set it up, the
-- handlers that main installs, and the runs of the io_context. A call of the listener dispatches a
-- handler to the listener's strand, which runs such handlers in their order.
pub mod Steps
pub mod Strand
pub mod Shutdown
pub mod Graceful
pub mod Starting
pub mod Whole
use ecommerce_platform.Prelude.{
  ◌≡◌, ap, ◌∙◌, inl, inr, Option-cases, ℕ, ◌+◌, Bool, true, false, List, [], ◌∷◌, ◌++◌, Option,
  none, some, if◌then◌else◌, Text, text,
}
use ecommerce_platform.Server.Listener.{
  HttpServerConfig, Listener, new_listener, request_shutdown, force_queued, force_shutdown,
  force_shutdown-some, set_on_shutdown_complete, do_accept,
}

-- kServerConfig
abbrev pub k_server_config : HttpServerConfig
k_server_config = record {
  io_threads = 4;
  first_read_timeout = 30;
  keep_alive_timeout = 15;
  header_limit_bytes = 8192;
  body_limit_bytes = 1048576;
  max_requests_per_connection = 50;
  max_connections = 1000;
}

-- What main calls on the listener.
pub data Call : Type 0 where
  ask_shutdown ask_force : Call
  ask_notice : ℕ → Call

-- The shutdown timer: not set, set with a wait, cancelled, expired, or failed with another error.
pub data Timer : Type 0 where
  unset armed cancelled expired failed : Timer

pub record Process : Type 0 where
  pub listener : Listener
  -- The handlers that wait for the listener's strand, the next one first.
  pub calls : List Call
  pub shutdown_started : Bool
  pub timer : Timer
  -- kGracefulShutdownTimeout, once the timer is set.
  pub expires_after : ℕ
  -- The wait for a signal.
  pub waiting : Bool
  -- How many posted callbacks have run.
  pub ran : ℕ
  -- ioc.stop() was called.
  pub stopped : Bool

-- What main gives SetOnShutdownComplete.
abbrev pub stop_callback : ℕ
stop_callback = 0

-- main up to the threads: Start, SetOnShutdownComplete and the wait for a signal.
abbrev pub set_up : Process
set_up = record {
  listener = do_accept new_listener;
  calls = ask_notice stop_callback ∷ [];
  shutdown_started = false;
  timer = unset;
  expires_after = 0;
  waiting = true;
  ran = 0;
  stopped = false;
}

-- beginShutdown
unfoldable pub begin_shutdown : Process → Process
begin_shutdown p = if p.shutdown_started then p else record p {
  shutdown_started = true;
  calls = p.calls ++ ask_shutdown ∷ [];
  timer = armed;
  expires_after = 10;
}

-- The handler of the signal set, with an error or with a signal.
unfoldable pub on_signal : Bool → Process → Process
unfolding begin_shutdown
on_signal true p = record p { waiting = false }
on_signal false p = begin_shutdown (record p { waiting = false })

-- The callback of the listener. The wait of a timer that is set completes with operation_aborted.
unfoldable pub on_shutdown_complete : Process → Process
on_shutdown_complete p = record p {
  timer = elim p.timer [ armed ↦ cancelled | other ↦ other ];
  ran = p.ran + 1;
  stopped = true;
}

-- How a wait of the timer completes.
pub data WaitResult : Type 0 where
  elapsed aborted wait_error : WaitResult

-- The handler of the wait.
unfoldable pub on_timer : WaitResult → Process → Process
on_timer aborted p = p
on_timer wait_error p = record p { timer = failed }
on_timer elapsed p = record p { timer = expired; calls = p.calls ++ ask_force ∷ []; stopped = true }

-- What the strand does with a call, where a forced close waits for the strand of its session.
-- Messages to sessions are left to the sessions' strands.
unfoldable pub serve_queued : Call → Listener → Listener
serve_queued ask_shutdown l = (request_shutdown l).0
serve_queued ask_force l = (force_queued l).0
serve_queued (ask_notice callback) l = set_on_shutdown_complete (some callback) l

-- The same whatever `at_once` says of the sessions; `none` where the behaviour is undefined.
unfoldable pub serve_call : (ℕ → Bool) → Call → Listener → Option Listener
unfolding force_shutdown serve_queued
serve_call at_once ask_shutdown l = some (serve_queued ask_shutdown l)
serve_call at_once (ask_notice callback) l = some (serve_queued (ask_notice callback) l)
serve_call at_once ask_force l = elim (force_shutdown at_once l) [
  | none ↦ none
  | some r ↦ some (r.0)
]

-- A forced shutdown that is served is defined.
pub serve_call-some :
    (at_once : ℕ → Bool) (l m : Listener)
    → serve_call at_once ask_force l ≡ some m
    → force_shutdown at_once l ≡ some (force_queued l)
unfolding serve_call
serve_call-some at_once l m h = elim (Option-cases (force_shutdown at_once l)) [
  | inl undefined ↦ cc (rw (undefined, serve_call) at h)
  | inr (r, e) ↦ e ∙ ap some (force_shutdown-some at_once l r e)
]
