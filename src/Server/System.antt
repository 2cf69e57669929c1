-- ===== src/Server/System.antt =====
-- A listener and its sessions together. The listener's strand and the strand of each session run their
-- handlers in any order; what one asks of another waits in the other's queue, in the order in which
-- it was asked. The handler of the sessions is BuildHandler's, which calls Router::Route.
pub mod Numbers
pub mod Listening
pub mod Runs
pub mod Sessions
pub mod Kept
pub mod Ends
pub mod Drained
pub mod Connections
pub mod Serving
pub mod Draining
use ecommerce_platform.Prelude.{
  some, ℕ, ◌+◌, ◌<◌, ◌≡◌, Bool, true, false, List, [], ◌∷◌, ◌++◌, Option, ◌==◌, if◌then◌else◌,
}
use ecommerce_platform.Http.Error.{Outcome}
use ecommerce_platform.Http.Json.{JsonLibrary}
use ecommerce_platform.Http.Message.{Request, Response}
use ecommerce_platform.Server.Listener.{
  HttpServerConfig, Listener, Message, new_listener, build_session_config, do_accept, on_accept,
  request_shutdown, force_queued, force_shutdown, set_on_shutdown_complete, on_session_closed,
}
use ecommerce_platform.Server.Listener
use ecommerce_platform.Server.Listener.Shutdown.{completed_accept}
use ecommerce_platform.Server.Session
use ecommerce_platform.Server.Session.{Session, new_session}
use ecommerce_platform.Server.Session.Steps

-- A map of numbers, changed at one of them.
abbrev pub put_at {ℓ} : {A : Type ℓ} → (ℕ → A) → ℕ → A → ℕ → A
put_at f i x j = if i == j then x else f j

pub record System : Type 0 where
  pub listener : Listener
  -- By number; a number that is not made yet stands for a new session.
  pub sessions : ℕ → Session
  -- The handlers that wait for the strand of a session, the next one first.
  pub inbox : ℕ → List Message
  -- The calls of OnSessionClosed that wait for the listener's strand, the next one first.
  pub closed : List ℕ

abbrev pub new_system : System
new_system = record {
  listener = new_listener;
  sessions = λ i. new_session true;
  inbox = λ i. [];
  closed = [];
}

abbrev pub addressee : Message → ℕ
addressee (Listener.run i) = i
addressee (Listener.request_close i) = i
addressee (Listener.force_close i) = i

-- The session's Run, RequestClose or ForceClose, which dispatches to the session's strand.
unfoldable pub deliver : List Message → (ℕ → List Message) → ℕ → List Message
deliver [] inbox = inbox
deliver (m ∷ ms) inbox = deliver ms (put_at inbox (addressee m) (inbox (addressee m) ++ m ∷ []))

-- on_close_, when a handler of the session has called it: OnSessionClosed dispatches to the strand of
-- the listener.
abbrev pub closed_by : ℕ → Session → Session → List ℕ
closed_by i s t = if t.closes == s.closes then [] else i ∷ []

-- The listener's strand has run a handler that asks this of the sessions.
abbrev pub hears : System → Listener × List Message → System
hears s (l, messages) = record s { listener = l; inbox = deliver messages s.inbox }

-- The strand of a session has run a handler.
abbrev pub becomes : System → ℕ → Session → System
becomes s i t = record s {
  sessions = put_at s.sessions i t;
  closed = s.closed ++ closed_by i (s.sessions i) t;
}

module _ (lib : JsonLibrary) (handler : Request → Outcome Response)
    (config : HttpServerConfig) where
  -- What the strand of a session runs for a message.
  unfoldable pub serve_message : Message → Session → Session
  serve_message (Listener.run i) s = Session.run lib handler (build_session_config config) s
  serve_message (Listener.request_close i) s = Session.request_close s
  serve_message (Listener.force_close i) s = Session.force_close s

  -- A step of a session that is the completion of its read or of its write.
  unfoldable pub is_completion :
      {s t : Session} → Steps.Step lib handler (build_session_config config) s t → Bool
  is_completion (Steps.runs s p) = false
  is_completion (Steps.is_asked_to_close s) = false
  is_completion (Steps.is_forced_to_close s) = false
  is_completion (Steps.fails_to_read s t was_open ec p e) = true
  is_completion (Steps.reads s t req p e) = true
  is_completion (Steps.fails_to_write s was_open res p) = true
  is_completion (Steps.writes s res p) = true

  pub data Step : System → System → Type 0 where
    -- On the strand of the listener.
    starts : (s : System) → Step s (record s { listener = do_accept s.listener })
    accepts :
        (s : System) (ok : Bool)
        → s.listener.accepting ≡ true
        → Step s (hears s (on_accept config ok (completed_accept s.listener)))
    is_asked_to_stop : (s : System) → Step s (hears s (request_shutdown s.listener))
    is_forced_to_stop :
        (s : System) (at_once : ℕ → Bool)
        → force_shutdown at_once s.listener ≡ some (force_queued s.listener)
        → Step s (hears s (force_queued s.listener))
    sets_callback :
        (s : System) (callback : Option ℕ)
        → Step s (record s { listener = set_on_shutdown_complete callback s.listener })
    forgets :
        (s : System) (i : ℕ) (rest : List ℕ)
        → s.closed ≡ i ∷ rest
        → Step s (record s { listener = on_session_closed i s.listener; closed = rest })
    -- On the strand of a session: a message, or the completion of its read or write.
    serves :
        (s : System) (i : ℕ) (m : Message) (rest : List Message)
        → i < s.listener.created
        → s.inbox i ≡ m ∷ rest
        → Step s (record (becomes s i (serve_message m (s.sessions i))) {
          inbox = put_at s.inbox i rest;
        })
    completes :
        (s : System) (i : ℕ) (t : Session)
        (step : Steps.Step lib handler (build_session_config config) (s.sessions i) t)
        → i < s.listener.created
        → is_completion step ≡ true
        → Step s (becomes s i t)

  pub data Reachable : System → Type 0 where
    start : Reachable new_system
    then_ : {s t : System} → Reachable s → Step s t → Reachable t

-- What holds of the system at first, and is kept by each step, holds always.
module _ (lib : JsonLibrary) (handler : Request → Outcome Response)
    (config : HttpServerConfig) where
  pub invariant {ℓ} :
      (P : System → Type ℓ)
      → P new_system
      → ((s t : System) → Step lib handler config s t → P s → P t)
      → (s : System) → Reachable lib handler config s
      → P s
  invariant P first keep _ start = first
  invariant P first keep t (then_ {s} r step) = keep s t step (invariant P first keep s r)
