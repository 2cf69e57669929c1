-- ===== src/Tests/System.antt =====
-- A listener and its sessions at concrete events, and the theorems of Server/System there.
use ecommerce_platform.Prelude.{
  ℕ, ◌≤◌, ◌<◌, ◌≡◌, ◌≢◌, ◌↔◌, ◌⊎◌, refl, true, [], ◌∷◌, length, arith, ltb, ◌&&◌, if◌then◌else◌,
}
use ecommerce_platform.Server.Listener.{
  HttpServerConfig, k_default_http_server_config, build_session_config, do_accept, on_accept,
  handle_accepted_socket, create_session,
}
use ecommerce_platform.Server.Listener.Shutdown.{completed_accept}
use ecommerce_platform.Server.Session.{k_closed, run, do_read}
use ecommerce_platform.Server.Session.Steps
use ecommerce_platform.Server.System.{
  System, Reachable, new_system, starts, accepts, start, then_, hears, deliver, serve_message,
}
use ecommerce_platform.Server.System.Connections.{open_le}
use ecommerce_platform.Server.System.Drained.{kept_iff}
use ecommerce_platform.Server.System.Numbers.{has}
use ecommerce_platform.Server.System.Serving
use ecommerce_platform.Server.System.Runs.{runs, is_unstarted}
use ecommerce_platform.Server.System.Sessions.{Reachable-session}
use ecommerce_platform.Tests.Json.{sample_json}
use ecommerce_platform.Tests.Server.{say}

server : Unit {0}
unfolding deliver serve_message do_accept on_accept handle_accepted_socket create_session run
    do_read
server = tt

abbrev defaults : HttpServerConfig
defaults = k_default_http_server_config

abbrev listening : System
listening = record new_system { listener = do_accept new_system.listener }

-- A connection came.
abbrev connected_one : System
connected_one = hears listening (on_accept defaults true (completed_accept listening.listener))

connected_one-Reachable : Reachable sample_json say defaults connected_one
unfolding server
connected_one-Reachable = then_ (then_ start (starts new_system)) (accepts listening true refl)

kept_iff_example : (has 0 connected_one.listener.sessions ≡ true) ↔ (
    (0 < connected_one.listener.created)
    × (((connected_one.sessions 0).state ≢ k_closed) ⊎ (has 0 connected_one.closed ≡ true)))
kept_iff_example = kept_iff sample_json say defaults connected_one 0 connected_one-Reachable

open_le_example : length {A = ℕ} (0 ∷ []) ≤ 1000
unfolding server
open_le_example =
    open_le sample_json say defaults connected_one (0 ∷ []) connected_one-Reachable (refl, tt)
      ((omega arith, λ e. cc e), tt)

Reachable-session_example :
    Steps.Reachable sample_json say (build_session_config defaults) (connected_one.sessions 0)
    × (runs (connected_one.inbox 0) ≡ (
        if ltb 0 connected_one.listener.created && is_unstarted (connected_one.sessions 0).pending
        then 1
        else 0))
Reachable-session_example =
    Reachable-session sample_json say defaults connected_one 0 connected_one-Reachable
