-- ===== src/Service/Whole/Stopping.antt =====
-- The process and the listener with its sessions as parts of one run, and how the run ends.
use ecommerce_platform.Prelude.{
  Bool, ◌≡◌, inl, inr, refl, sym, ap, subst, ◌∙◌, ◌<◌, ℕ, true, false, [], ◌∷◌, Option, some, Text,
  arith,
}
use ecommerce_platform.Http.Json.{JsonLibrary}
use ecommerce_platform.Http.Router.{Target}
use ecommerce_platform.Orders.Controller.{OrdersController}
use ecommerce_platform.Server.Listener.{
  Listener, on_accept, request_shutdown, force_queued, set_on_shutdown_complete, on_session_closed,
}
use ecommerce_platform.Server.Listener.Shutdown.{completed_accept}
use ecommerce_platform.Server.Session.{k_closed}
use ecommerce_platform.Server.System
use ecommerce_platform.Server.System.Drained.{kept_iff}
use ecommerce_platform.Server.System.Numbers.{has, none_in}
use ecommerce_platform.Server.System.{
  System, new_system, hears, becomes, put_at, serve_message, is_completion,
}
use ecommerce_platform.Service.Graceful.{drained_waits}
use ecommerce_platform.Service.Steps as Main
use ecommerce_platform.Service.{
  Call, ask_shutdown, ask_force, ask_notice, Process, k_server_config, serve_queued, serve_call,
  serve_call-some, stop_callback, on_signal, begin_shutdown, on_timer, on_shutdown_complete,
}
use ecommerce_platform.Service.Whole.{
  Whole, set_up_whole, system_call, is_own, handler, Step, Reachable, start, then_, calls, accepts,
  forgets, serves, ends, acts,
}

module _ (lib : JsonLibrary) (parse_target : Text → Option Target)
    (lock : ℕ → Option OrdersController) where
  -- What both parts make of a run.
  record IsJoint (w : Whole) : Type 0 where
    as_process : Main.Reachable w.process
    as_system : System.Reachable lib (handler lib parse_target lock) k_server_config w.system
    agree : w.process.listener ≡ w.system.listener

  called :
      (call : Call) (p : Process) (s : System)
      → p.listener ≡ s.listener
      → serve_queued call p.listener ≡ (system_call call s).listener
  unfolding serve_queued system_call
  called ask_shutdown p s e = ap (λ l. (request_shutdown l).0) e
  called ask_force p s e = ap (λ l. (force_queued l).0) e
  called (ask_notice callback) p s e = ap (set_on_shutdown_complete (some callback)) e

  called-Reachable :
      (call : Call) (s : System) (at_once : ℕ → Bool)
      → serve_call at_once call s.listener ≡ some (serve_queued call s.listener)
      → System.Reachable lib (handler lib parse_target lock) k_server_config s
      → System.Reachable lib (handler lib parse_target lock) k_server_config (system_call call s)
  unfolding system_call
  called-Reachable ask_shutdown s at_once d r = System.then_ r (System.is_asked_to_stop s)
  called-Reachable ask_force s at_once d r =
      System.then_ r (System.is_forced_to_stop s at_once (serve_call-some at_once s.listener _ d))
  called-Reachable (ask_notice callback) s at_once d r =
      System.then_ r (System.sets_callback s (some callback))

  own_listener :
      {p q : Process} (step : Main.Step p q) → is_own step ≡ true → q.listener ≡ p.listener
  unfolding is_own on_signal begin_shutdown on_timer on_shutdown_complete
  own_listener (Main.calls p call rest r c at_once d) h = cc h
  own_listener (Main.accepts p ok r a) h = cc h
  own_listener (Main.loses p session r) h = cc h
  own_listener (Main.signals p true r w) h = refl
  own_listener (Main.signals p false r w) h = ground arith
  own_listener (Main.elapses p r t) h = refl
  own_listener (Main.fails p r t) h = refl
  own_listener (Main.aborts p r t) h = refl
  own_listener (Main.completes p r c) h = refl

  Step-IsJoint : (v w : Whole) → Step lib parse_target lock v w → IsJoint v → IsJoint w
  Step-IsJoint _ _ (calls w call rest run c at_once d) h = record {
    as_process = Main.then_ h.as_process (Main.calls w.process call rest run c at_once d);
    as_system =
        called-Reachable call w.system at_once
          (subst (λ (l : Listener). serve_call at_once call l ≡ some (serve_queued call l)) h.agree
            d)
          h.as_system;
    agree = called call w.process w.system h.agree;
  }
  Step-IsJoint _ _ (accepts w ok run a) h = record {
    as_process = Main.then_ h.as_process (Main.accepts w.process ok run a);
    as_system =
        System.then_ h.as_system
          (System.accepts w.system ok (subst (λ (l : Listener). l.accepting ≡ true) h.agree a));
    agree = ap (λ (l : Listener). (on_accept k_server_config ok (completed_accept l)).0) h.agree;
  }
  Step-IsJoint _ _ (forgets w i rest run c) h = record {
    as_process = Main.then_ h.as_process (Main.loses w.process i run);
    as_system = System.then_ h.as_system (System.forgets w.system i rest c);
    agree = ap (on_session_closed i) h.agree;
  }
  Step-IsJoint _ _ (serves w i m rest run lt e) h = record {
    as_process = h.as_process;
    as_system = System.then_ h.as_system (System.serves w.system i m rest lt e);
    agree = h.agree;
  }
  Step-IsJoint _ _ (ends w i t step run lt e) h = record {
    as_process = h.as_process;
    as_system = System.then_ h.as_system (System.completes w.system i t step lt e);
    agree = h.agree;
  }
  Step-IsJoint _ _ (acts w q step own) h = record {
    as_process = Main.then_ h.as_process step;
    as_system = h.as_system;
    agree = own_listener step own ∙ h.agree;
  }

  set_up-IsJoint : IsJoint set_up_whole
  set_up-IsJoint = record {
    as_process = Main.start;
    as_system = System.then_ System.start (System.starts new_system);
    agree = refl;
  }

  Reachable-IsJoint : (w : Whole) → Reachable lib parse_target lock w → IsJoint w
  Reachable-IsJoint _ start = set_up-IsJoint
  Reachable-IsJoint w (then_ {v} r step) = Step-IsJoint v w step (Reachable-IsJoint v r)

  none_kept :
      (w : Whole)
      → IsJoint w
      → w.system.closed ≡ []
      → ((i : ℕ) → i < w.process.listener.created → (w.system.sessions i).state ≡ k_closed)
      → w.process.listener.sessions ≡ []
  none_kept w h none_waits over =
      ap (λ (l : Listener). l.sessions) h.agree
      ∙ none_in w.system.listener.sessions (λ i kept.
        let (lt, which) =
          (kept_iff lib (handler lib parse_target lock) k_server_config w.system i h.as_system).0
            kept in
        elim which [
          | inl open_ ↦ open_ (over i (subst (λ (l : Listener). i < l.created) (sym h.agree) lt))
          | inr waits ↦ cc (ap (has i) none_waits, waits)
        ])

  -- Once the shutdown has begun, every session of the orders server is closed and the strand of the
  -- listener has nothing left to run, a process that is not stopped has posted the callback of main,
  -- once, and a step of main stops it.
  pub closed_stops :
      (w : Whole)
      → Reachable lib parse_target lock w
      → w.process.shutdown_started ≡ true
      → w.process.stopped ≡ false
      → w.process.calls ≡ []
      → w.system.closed ≡ []
      → ((i : ℕ) → i < w.process.listener.created → (w.system.sessions i).state ≡ k_closed)
      → (w.process.listener.posted ≡ stop_callback ∷ [])
        × ((v : Whole) × Step lib parse_target lock w v × (v.process.stopped ≡ true))
  unfolding is_own on_shutdown_complete
  closed_stops w r s run none_left none_waits over =
      let h = Reachable-IsJoint w r in
      let (posted, waits) =
        drained_waits w.process h.as_process s run none_left (none_kept w h none_waits over) in
      (
        posted,
        (
          record w { process = on_shutdown_complete w.process },
          acts w _ (Main.completes w.process run waits) refl,
          refl,
        ),
      )
