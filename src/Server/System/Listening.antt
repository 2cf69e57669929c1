-- ===== src/Server/System/Listening.antt =====
-- What the listener's handlers do to the numbers of its sessions.
use ecommerce_platform.Prelude.{
  ℕ, ◌+◌, ◌≡◌, Bool, true, false, List, [], ◌∷◌, ◌++◌, Option, arith, length, leb, Bool-cases, inl,
  inr,
}
use ecommerce_platform.Server.Listener
use ecommerce_platform.Server.Listener.{
  HttpServerConfig, Listener, Message, create_session, handle_accepted_socket, on_accept,
  request_shutdown, force_queued, set_on_shutdown_complete, on_session_closed, notify_if_drained,
  erase,
}

-- What an accept does: nothing to the sessions, or it makes one and has it run.
pub data Accepted (l k : Listener) (messages : List Message) : Type 0 where
  none_made :
      messages ≡ [] → k.created ≡ l.created → k.sessions ≡ l.sessions → Accepted l k messages
  one_made :
      messages ≡ Listener.run l.created ∷ []
      → k.created ≡ l.created + 1
      → k.sessions ≡ l.sessions ++ l.created ∷ []
      → Accepted l k messages

pub accept_cases :
    (config : HttpServerConfig) (ok : Bool) (l : Listener)
    → Accepted l (on_accept config ok l).0 (on_accept config ok l).1
unfolding on_accept handle_accepted_socket create_session
accept_cases config false l = none_made (ground arith) (ground arith) (ground arith)
accept_cases config true l = elim (Bool-cases (leb config.max_connections (length l.sessions))) [
  | inl full ↦ none_made (ground arith) (ground arith) (ground arith)
  | inr room ↦ one_made (ground arith) (ground arith) (ground arith)
]

pub request_shutdown-created : (l : Listener) → (request_shutdown l).0.created ≡ l.created
unfolding request_shutdown notify_if_drained
request_shutdown-created l = ground arith

pub force_queued-created : (l : Listener) → (force_queued l).0.created ≡ l.created
unfolding force_queued notify_if_drained
force_queued-created l = ground arith

pub set-created :
    (callback : Option ℕ) (l : Listener) → (set_on_shutdown_complete callback l).created ≡ l.created
unfolding set_on_shutdown_complete notify_if_drained
set-created callback l = ground arith

pub closed-created : (i : ℕ) (l : Listener) → (on_session_closed i l).created ≡ l.created
unfolding on_session_closed notify_if_drained
closed-created i l = ground arith

pub request_shutdown-sessions : (l : Listener) → (request_shutdown l).0.sessions ≡ l.sessions
unfolding request_shutdown notify_if_drained
request_shutdown-sessions l = ground arith

pub force_queued-sessions : (l : Listener) → (force_queued l).0.sessions ≡ l.sessions
unfolding force_queued notify_if_drained
force_queued-sessions l = ground arith

pub set-sessions :
    (callback : Option ℕ) (l : Listener)
    → (set_on_shutdown_complete callback l).sessions ≡ l.sessions
unfolding set_on_shutdown_complete notify_if_drained
set-sessions callback l = ground arith

pub closed-sessions : (i : ℕ) (l : Listener) → (on_session_closed i l).sessions ≡ erase i l.sessions
unfolding on_session_closed notify_if_drained
closed-sessions i l = ground arith

pub closed-shutting_down :
    (i : ℕ) (l : Listener) → (on_session_closed i l).shutting_down ≡ l.shutting_down
unfolding on_session_closed notify_if_drained
closed-shutting_down i l = ground arith

pub force_queued-shutting_down : (l : Listener) → (force_queued l).0.shutting_down ≡ true
unfolding force_queued notify_if_drained
force_queued-shutting_down l = ground arith
