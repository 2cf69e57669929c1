-- ===== src/Server/Listener.antt =====
-- Listener of common/http/include/Listener.hpp and common/http/src/Listener.cpp, and the
-- configuration of common/http/include/HttpServerConfig.hpp. A handler that the listener's strand
-- runs is one function on the listener's state; what it sends to sessions are messages, which the
-- strands of the sessions run. A session is the number of sessions made before it; a callback is
-- a number.
pub mod Shutdown
pub mod Callback
use ecommerce_platform.Prelude.{
  ℕ, ◌+◌, Bool, true, false, not, ◌||◌, List, [], ◌∷◌, ◌++◌, map, Option, none, some, leb, ◌==◌,
  if◌then◌else◌, length, Text, text, ◌≡◌, inl, inr, Bool-cases, arith,
}
use ecommerce_platform.Http.Error.{Outcome, returns, throws, other_exception}
use ecommerce_platform.Server.Session.{SessionConfig}

pub record HttpServerConfig : Type 0 where
  pub io_threads : ℕ
  pub first_read_timeout : ℕ
  pub keep_alive_timeout : ℕ
  pub header_limit_bytes : ℕ
  pub body_limit_bytes : ℕ
  pub max_requests_per_connection : ℕ
  pub max_connections : ℕ

-- kDefaultHttpServerConfig
abbrev pub k_default_http_server_config : HttpServerConfig
k_default_http_server_config = record {
  io_threads = 4;
  first_read_timeout = 30;
  keep_alive_timeout = 15;
  header_limit_bytes = 8192;
  body_limit_bytes = 1048576;
  max_requests_per_connection = 50;
  max_connections = 1000;
}

-- BuildSessionConfig
unfoldable pub build_session_config : HttpServerConfig → SessionConfig
build_session_config config = record {
  first_read_timeout = config.first_read_timeout;
  keep_alive_timeout = config.keep_alive_timeout;
  header_limit_bytes = config.header_limit_bytes;
  body_limit_bytes = config.body_limit_bytes;
  max_requests_per_connection = config.max_requests_per_connection;
}

pub record Listener : Type 0 where
  pub acceptor_open : Bool
  -- An accept is under way.
  pub accepting : Bool
  pub sessions : List ℕ
  -- How many sessions were made.
  pub created : ℕ
  pub on_shutdown_complete : Option ℕ
  pub shutting_down : Bool
  pub shutdown_notified : Bool
  -- The callbacks that were posted to the io_context.
  pub posted : List ℕ

abbrev pub new_listener : Listener
new_listener = record {
  acceptor_open = true;
  accepting = false;
  sessions = [];
  created = 0;
  on_shutdown_complete = none;
  shutting_down = false;
  shutdown_notified = false;
  posted = [];
}

-- What the four calls on the acceptor report: nothing, or the message of their error.
pub record Setup : Type 0 where
  pub opened : Option Text
  pub reuse_set : Option Text
  pub bound : Option Text
  pub listening : Option Text
  -- The endpoint's address and port, printed.
  pub address : Text
  pub port : Text

-- The constructor
unfoldable pub make_listener : Setup → Outcome Listener
make_listener setup = elim setup.opened [
  | some message ↦ throws (other_exception (text "Failed to open acceptor: " ++ message))
  | none ↦ elim setup.reuse_set [
    | some message ↦
        throws (other_exception (text "Failed to set reuse_address option: " ++ message))
    | none ↦ elim setup.bound [
      | some message ↦ throws (
          other_exception (
            text "Failed to bind to endpoint "
            ++ (setup.address ++ (text ":" ++ (setup.port ++ (text ": " ++ message))))))
      | none ↦ elim setup.listening [
        | some message ↦ throws (other_exception (text "Failed to start listening: " ++ message))
        | none ↦ returns new_listener
      ]
    ]
  ]
]

-- What the listener asks of a session.
pub data Message : Type 0 where
  run request_close force_close : ℕ → Message

abbrev pub no_sessions : List ℕ → Bool
no_sessions [] = true
no_sessions (s ∷ ss) = false

-- The callback is moved out and posted, if there is one.
abbrev pub post_callback : Option ℕ → Listener → Listener
post_callback none l = l
post_callback (some callback) l = record l {
  on_shutdown_complete = none;
  posted = l.posted ++ callback ∷ [];
}

-- NotifyShutdownCompleteIfDrained
unfoldable pub notify_if_drained : Listener → Listener
notify_if_drained l =
    if not l.shutting_down || (l.shutdown_notified || not (no_sessions l.sessions))
    then l
    else post_callback l.on_shutdown_complete (record l { shutdown_notified = true })

abbrev pub stop_accepting : Listener → Listener
stop_accepting l = record l { shutting_down = true; acceptor_open = false }

-- RequestShutdown
unfoldable pub request_shutdown : Listener → Listener × List Message
unfolding notify_if_drained
request_shutdown l =
    if l.shutting_down
    then (notify_if_drained l, [])
    else (notify_if_drained (stop_accepting l), map request_close l.sessions)

-- ForceShutdown, where each ForceClose waits for the strand of its session.
unfoldable pub force_queued : Listener → Listener × List Message
unfolding notify_if_drained
force_queued l = (
  notify_if_drained (if l.shutting_down then l else stop_accepting l),
  map force_close l.sessions,
)

-- A session of the list is among those that are closed at once.
unfoldable pub some_at_once : (ℕ → Bool) → List ℕ → Bool
some_at_once at_once [] = false
some_at_once at_once (s ∷ ss) = at_once s || some_at_once at_once ss

-- ForceShutdown. The strand of a session stands on that of the listener, so that ForceClose closes
-- the session at once if nothing waits for its strand: `at_once` says of which sessions that holds.
-- Then OnSessionClosed runs at once too and erases from the set that the loop goes over, so that the
-- behaviour is undefined (`none`).
unfoldable pub force_shutdown : (ℕ → Bool) → Listener → Option (Listener × List Message)
unfolding some_at_once force_queued
force_shutdown at_once l = if some_at_once at_once l.sessions then none else some (force_queued l)

pub force_shutdown-some :
    (at_once : ℕ → Bool) (l : Listener) (r : Listener × List Message)
    → force_shutdown at_once l ≡ some r
    → r ≡ force_queued l
unfolding force_shutdown
force_shutdown-some at_once l r h = elim (Bool-cases (some_at_once at_once l.sessions)) [
  | inl undefined ↦ cc (rw (undefined, force_shutdown) at h)
  | inr defined ↦ ground arith
]

-- SetOnShutdownComplete
unfoldable pub set_on_shutdown_complete : Option ℕ → Listener → Listener
unfolding notify_if_drained
set_on_shutdown_complete callback l =
    notify_if_drained (record l { on_shutdown_complete = callback })

-- sessions_.erase
unfoldable pub erase : ℕ → List ℕ → List ℕ
erase session [] = []
erase session (s ∷ ss) = let rest = erase session ss in if s == session then rest else s ∷ rest

-- OnSessionClosed
unfoldable pub on_session_closed : ℕ → Listener → Listener
unfolding notify_if_drained
on_session_closed session l = notify_if_drained (record l { sessions = erase session l.sessions })

-- CreateSession
unfoldable pub create_session : Listener → Listener × ℕ
create_session l =
    (record l { sessions = l.sessions ++ l.created ∷ []; created = l.created + 1 }, l.created)

module _ (config : HttpServerConfig) where
  -- HandleAcceptedSocket
  unfoldable pub handle_accepted_socket : Listener → Listener × List Message
  unfolding create_session
  handle_accepted_socket l =
      if leb config.max_connections (length l.sessions)
      then (l, [])
      else let (l', session) = create_session l in (l', run session ∷ [])

-- DoAccept, and Start, which calls it
unfoldable pub do_accept : Listener → Listener
do_accept l = record l { accepting = true }

abbrev pub accept_again : Listener → Listener
accept_again l = if not l.shutting_down then record l { accepting = true } else l

module _ (config : HttpServerConfig) where
  -- The completion of an accept: it has a socket, or an error.
  unfoldable pub on_accept : Bool → Listener → Listener × List Message
  unfolding handle_accepted_socket
  on_accept false l =
      if l.shutting_down || not l.acceptor_open then (l, []) else (accept_again l, [])
  on_accept true l =
      let (l', messages) = handle_accepted_socket config l in (accept_again l', messages)
