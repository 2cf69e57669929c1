-- ===== src/Service/Whole.antt =====
-- The whole process of services/CreateOrdersService/main.cpp: its handlers, its listener and the
-- sessions of its listener, whose requests the orders server answers.
pub mod Stopping
use ecommerce_platform.Prelude.{
  ◌≡◌, inl, inr, refl, sym, ap, subst, ◌∙◌, ◌<◌, ℕ, Bool, true, false, List, [], ◌∷◌, Option, some,
  Text, arith,
}
use ecommerce_platform.Http.Error.{Outcome}
use ecommerce_platform.Http.Json.{JsonLibrary}
use ecommerce_platform.Http.Message.{Request, Response}
use ecommerce_platform.Http.Router.{Target, route}
use ecommerce_platform.Orders.Controller.{OrdersController}
use ecommerce_platform.Orders.Routes.{orders_trie}
use ecommerce_platform.Server.Listener.{
  Listener, Message, new_listener, build_session_config, do_accept, on_accept, request_shutdown,
  force_queued, set_on_shutdown_complete, on_session_closed,
}
use ecommerce_platform.Server.Listener.Shutdown.{completed_accept}
use ecommerce_platform.Server.Session.{Session, k_closed}
use ecommerce_platform.Server.Session.Steps
use ecommerce_platform.Server.System
use ecommerce_platform.Server.System.Drained.{kept_iff}
use ecommerce_platform.Server.System.Numbers.{has, none_in}
use ecommerce_platform.Server.System.{
  System, new_system, hears, becomes, put_at, serve_message, is_completion,
}
use ecommerce_platform.Service.Graceful.{drained_waits}
use ecommerce_platform.Service.Steps as Main
use ecommerce_platform.Service.{
  Call, ask_shutdown, ask_force, ask_notice, Process, k_server_config, set_up, serve_queued,
  serve_call, stop_callback, on_signal, begin_shutdown, on_timer, on_shutdown_complete,
}

-- The listener of the process and that of the system are one; each part has a copy of it.
pub record Whole : Type 0 where
  pub process : Process
  pub system : System

abbrev pub set_up_whole : Whole
set_up_whole = record {
  process = set_up;
  system = record new_system { listener = do_accept new_listener };
}

-- What the listener's strand does with a call, and what it asks of the sessions then.
unfoldable pub system_call : Call → System → System
system_call ask_shutdown s = hears s (request_shutdown s.listener)
system_call ask_force s = hears s (force_queued s.listener)
system_call (ask_notice callback) s = record s {
  listener = set_on_shutdown_complete (some callback) s.listener;
}

-- A step of the process that leaves its listener alone: a signal, the timer or a callback.
unfoldable pub is_own : {p q : Process} → Main.Step p q → Bool
is_own (Main.calls p call rest r c at_once d) = false
is_own (Main.accepts p ok r a) = false
is_own (Main.loses p session r) = false
is_own (Main.signals p error r w) = true
is_own (Main.elapses p r t) = true
is_own (Main.fails p r t) = true
is_own (Main.aborts p r t) = true
is_own (Main.completes p r c) = true

module _ (lib : JsonLibrary) (parse_target : Text → Option Target)
    (lock : ℕ → Option OrdersController) where
  abbrev pub handler : Request → Outcome Response
  handler = route lib parse_target lock (orders_trie lib)

  pub data Step : Whole → Whole → Type 0 where
    -- On the strand of the listener.
    calls :
        (w : Whole) (call : Call) (rest : List Call)
        → w.process.stopped ≡ false
        → w.process.calls ≡ call ∷ rest
        → (at_once : ℕ → Bool)
        → serve_call at_once call w.process.listener ≡ some (serve_queued call w.process.listener)
        → Step w (record {
          process = record (w.process) {
            listener = serve_queued call w.process.listener;
            calls = rest;
          };
          system = system_call call w.system;
        })
    accepts :
        (w : Whole) (ok : Bool)
        → w.process.stopped ≡ false
        → w.process.listener.accepting ≡ true
        → Step w (record {
          process = record (w.process) {
            listener = (on_accept k_server_config ok (completed_accept w.process.listener)).0;
          };
          system =
              hears w.system (on_accept k_server_config ok (completed_accept w.system.listener));
        })
    forgets :
        (w : Whole) (i : ℕ) (rest : List ℕ)
        → w.process.stopped ≡ false
        → w.system.closed ≡ i ∷ rest
        → Step w (record {
          process = record (w.process) { listener = on_session_closed i w.process.listener };
          system = record (w.system) {
            listener = on_session_closed i w.system.listener;
            closed = rest;
          };
        })
    -- On the strand of a session.
    serves :
        (w : Whole) (i : ℕ) (m : Message) (rest : List Message)
        → w.process.stopped ≡ false
        → i < w.system.listener.created
        → w.system.inbox i ≡ m ∷ rest
        → Step w (record w {
          system =
              record (becomes w.system i
                (serve_message lib handler k_server_config m (w.system.sessions i))) {
                  inbox = put_at w.system.inbox i rest;
                };
        })
    ends :
        (w : Whole) (i : ℕ) (t : Session)
        (step : Steps.Step lib handler
          (build_session_config k_server_config)
          (w.system.sessions i)
          t)
        → w.process.stopped ≡ false
        → i < w.system.listener.created
        → is_completion lib handler k_server_config step ≡ true
        → Step w (record w { system = becomes w.system i t })
    -- The handlers of main.
    acts :
        (w : Whole) (q : Process) (step : Main.Step w.process q)
        → is_own step ≡ true
        → Step w (record w { process = q })

  pub data Reachable : Whole → Type 0 where
    start : Reachable set_up_whole
    then_ : {v w : Whole} → Reachable v → Step v w → Reachable w
