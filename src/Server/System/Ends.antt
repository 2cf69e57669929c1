-- ===== src/Server/System/Ends.antt =====
-- The callback that a session has called is never taken back by its handlers.
use ecommerce_platform.Prelude.{◌+◌, ◌≤◌, ◌≡◌, sym, ap, subst, Bool, true, false, arith, inl, inr}
use ecommerce_platform.Http.Error.{Outcome}
use ecommerce_platform.Http.Json.{JsonLibrary}
use ecommerce_platform.Http.Message.{Request, Response}
use ecommerce_platform.Server.Listener
use ecommerce_platform.Server.Listener.{
  HttpServerConfig, build_session_config, Listener, Message, create_session, handle_accepted_socket,
  on_accept, do_accept, request_shutdown, force_queued, set_on_shutdown_complete, on_session_closed,
  notify_if_drained, erase,
}
use ecommerce_platform.Server.Session.{
  Session, do_read, do_write, close, request_close, force_close, run, completed, write_failed,
  write_sent, without_keep_alive,
}
use ecommerce_platform.Server.Session.Steps
use ecommerce_platform.Server.Session.Steps.{failed_lem, handled_lem}
use ecommerce_platform.Server.System.{serve_message, is_completion}

module _ (lib : JsonLibrary) (handler : Request → Outcome Response)
    (config : HttpServerConfig) where
  written-closes :
      (res : Response) (s : Session)
      → (do_write lib handler (build_session_config config) res s).closes ≡ s.closes
  unfolding do_write request_close
  written-closes res s = ground arith

  close-closes : (force : Bool) (s : Session) → s.closes ≤ (close force s).closes
  unfolding close
  close-closes force s = ground arith

  sent-closes :
      (res : Response) (s : Session)
      → s.closes ≤ (write_sent lib handler (build_session_config config) res s).closes
  unfolding write_sent close do_read
  sent-closes res s = ground arith

  pub served-closes :
      (m : Message) (s : Session) → s.closes ≤ (serve_message lib handler config m s).closes
  unfolding serve_message run request_close force_close close do_read
  served-closes (Listener.run i) s = ground arith
  served-closes (Listener.request_close i) s = ground arith
  served-closes (Listener.force_close i) s = ground arith

  pub completed-closes :
      {s t : Session}
      → (step : Steps.Step lib handler (build_session_config config) s t)
      → is_completion lib handler config step ≡ true
      → s.closes ≤ t.closes
  unfolding is_completion write_failed
  completed-closes (Steps.runs s p) h = cc h
  completed-closes (Steps.is_asked_to_close s) h = cc h
  completed-closes (Steps.is_forced_to_close s) h = cc h
  completed-closes (Steps.fails_to_read s t was_open ec p e) h =
      elim (failed_lem lib handler (build_session_config config) ec (completed s) t e) [
        | inl closes ↦
            subst (λ (t : Session). s.closes ≤ t.closes) (sym closes)
              (close-closes false (completed s))
        | inr (res, writes) ↦ omega (
          arith,
          ap (λ (t : Session). t.closes) writes,
          written-closes (without_keep_alive res) (completed s),
        )
      ]
  completed-closes (Steps.reads s t req p e) h =
      let (res, answers, writes) =
        handled_lem lib handler (build_session_config config) req (completed s) t e in
      omega (
        arith,
        ap (λ (t : Session). t.closes) writes,
        written-closes res (record (completed s) { requests_handled = s.requests_handled + 1 }),
      )
  completed-closes (Steps.fails_to_write s was_open res p) h = close-closes false (completed s)
  completed-closes (Steps.writes s res p) h = sent-closes res (completed s)
