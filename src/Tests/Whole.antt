-- ===== src/Tests/Whole.antt =====
-- A run of the whole process with one connection, from its start to its end.
use ecommerce_platform.Prelude.{
  ℕ, zero, suc, ◌<◌, ◌≡◌, refl, true, false, List, [], ◌∷◌, Option, some, Text, arith,
}
use ecommerce_platform.Http.Router.{Target}
use ecommerce_platform.Orders.Controller.{OrdersController, orders_controller}
use ecommerce_platform.Server.Listener
use ecommerce_platform.Server.Listener.{
  notify_if_drained, do_accept, on_accept, handle_accepted_socket, create_session, request_shutdown,
  set_on_shutdown_complete, on_session_closed, erase, build_session_config,
}
use ecommerce_platform.Server.Listener.Shutdown.{completed_accept}
use ecommerce_platform.Server.Session
use ecommerce_platform.Server.Session.{k_closed, do_read, timeout, completed}
use ecommerce_platform.Server.Session.Steps
use ecommerce_platform.Server.System.{deliver, serve_message, hears, becomes, put_at, is_completion}
use ecommerce_platform.Service.Steps as Main
use ecommerce_platform.Service.Whole.{
  Whole, set_up_whole, handler, Step, Reachable, start, then_, calls, accepts, forgets, serves,
  ends, acts, system_call, is_own,
}
use ecommerce_platform.Service.Whole.Stopping.{closed_stops}
use ecommerce_platform.Service.{
  k_server_config, ask_shutdown, ask_notice, stop_callback, set_up, begin_shutdown, on_signal,
  serve_queued, serve_call,
}
use ecommerce_platform.Tests.Json.{sample_json}

whole : Unit {0}
unfolding notify_if_drained do_accept on_accept handle_accepted_socket create_session
    request_shutdown set_on_shutdown_complete on_session_closed erase build_session_config deliver
    serve_message is_completion system_call is_own begin_shutdown on_signal serve_queued serve_call
    Session.run do_read Session.request_close Session.close Session.handle_read_error
whole = tt

abbrev own_path : Text → Option Target
own_path target = some (record { path = target; params = [] })

abbrev shared : ℕ → Option OrdersController
shared n = some orders_controller

abbrev accepted : Whole
accepted = record {
  process = record set_up {
    listener = (on_accept k_server_config true (completed_accept set_up.listener)).0;
  };
  system =
      hears set_up_whole.system
        (on_accept k_server_config true (completed_accept set_up_whole.system.listener));
}

abbrev served : Whole → List Listener.Message → Listener.Message → Whole
served w rest m = record w {
  system =
      record (becomes w.system 0 (
        serve_message sample_json (handler sample_json own_path shared) k_server_config m
          (w.system.sessions 0))) { inbox = put_at w.system.inbox 0 rest };
}

abbrev running : Whole
running = served accepted [] (Listener.run 0)

abbrev signalled : Whole
signalled = record running { process = on_signal false running.process }

abbrev noticed : Whole
noticed = record {
  process = record (signalled.process) {
    listener = serve_queued (ask_notice stop_callback) signalled.process.listener;
    calls = ask_shutdown ∷ [];
  };
  system = system_call (ask_notice stop_callback) signalled.system;
}

abbrev asked : Whole
asked = record {
  process = record (noticed.process) {
    listener = serve_queued ask_shutdown noticed.process.listener;
    calls = [];
  };
  system = system_call ask_shutdown noticed.system;
}

abbrev closing : Whole
closing = served asked [] (Listener.request_close 0)

-- The client is idle until the read times out.
abbrev idle : Whole
idle = record closing {
  system = becomes closing.system 0 (Session.close false (completed (closing.system.sessions 0)));
}

abbrev drained : Whole
drained = record {
  process = record (idle.process) { listener = on_session_closed 0 idle.process.listener };
  system = record (idle.system) {
    listener = on_session_closed 0 idle.system.listener;
    closed = [];
  };
}

drained-Reachable : Reachable sample_json own_path shared drained
unfolding whole
drained-Reachable =
    then_
      (then_
        (then_
          (then_
            (then_
              (then_
                (then_ (then_ start (accepts set_up_whole true refl refl))
                  (serves accepted 0 (Listener.run 0) [] refl (omega arith) refl))
                (acts running _ (Main.signals running.process false refl refl) refl))
              (calls signalled (ask_notice stop_callback) (ask_shutdown ∷ []) refl refl (λ i. false)
                refl))
            (calls noticed ask_shutdown [] refl refl (λ i. false) refl))
          (serves asked 0 (Listener.request_close 0) [] refl (omega arith) refl))
        (ends closing 0 _ (Steps.fails_to_read (closing.system.sessions 0) _ true timeout refl refl)
          refl (omega arith) refl))
      (forgets idle 0 [] refl refl)

closed_stops_example :
    (drained.process.listener.posted ≡ stop_callback ∷ [])
    × ((v : Whole) × Step sample_json own_path shared drained v × (v.process.stopped ≡ true))
unfolding whole
closed_stops_example =
    closed_stops sample_json own_path shared drained drained-Reachable refl refl refl refl
      one_closed
  where
    one_closed :
        (i : ℕ)
        → i < drained.process.listener.created
        → (drained.system.sessions i).state ≡ k_closed
    one_closed zero lt = refl
    one_closed (suc i) lt = absurd (omega arith)
