-- ===== src/Service/Shutdown.antt =====
-- When the process stops: not before its shutdown has begun, and once that has begun, at the latest
-- when the timer expires.
use ecommerce_platform.Prelude.{
  ◌≡◌, refl, sym, subst, length, ap, ◌∙◌, ◌<◌, ℕ, ◌⊎◌, Bool, true, false, List, [], ◌∷◌, arith,
}
use ecommerce_platform.Server.Listener.{
  do_accept, Listener, notify_if_drained, set_on_shutdown_complete, on_session_closed,
  create_session, handle_accepted_socket, on_accept,
}
use ecommerce_platform.Service.{
  Call, ask_shutdown, ask_force, ask_notice, unset, armed, failed, Process, set_up, k_server_config,
  begin_shutdown, on_signal, on_shutdown_complete, on_timer, serve_queued,
}
use ecommerce_platform.Server.Listener.Shutdown.{completed_accept}
use ecommerce_platform.Service.Steps.{
  Step, calls, accepts, loses, signals, elapses, fails, aborts, completes, Reachable, invariant,
}

-- Whether a shutdown waits for the strand.
unfoldable pub asks : List Call → Bool
asks [] = false
asks (ask_notice callback ∷ cs) = asks cs
asks (ask_shutdown ∷ cs) = true
asks (ask_force ∷ cs) = true

-- Before the shutdown has begun nothing leads to the end of the process.
record Quiet (p : Process) : Type 0 where
  none_asks : asks p.calls ≡ false
  open_ : p.listener.shutting_down ≡ false
  no_timer : p.timer ≡ unset
  none_posted : p.listener.posted ≡ []
  runs : p.stopped ≡ false

abbrev IsBegun : Process → Type 0
IsBegun p = p.shutdown_started ≡ false → Quiet p

-- The calls that are served: without a shutdown among them, the listener stays open.
served-Quiet :
    (p : Process) (call : Call) (rest : List Call)
    → p.calls ≡ call ∷ rest
    → Quiet p
    → Quiet (record p { listener = serve_queued call p.listener; calls = rest })
unfolding asks serve_queued set_on_shutdown_complete notify_if_drained
served-Quiet p (ask_notice callback) rest e h =
    let o = h.open_ in
    let n = h.none_posted in
    record {
      none_asks = sym (ap asks e) ∙ h.none_asks;
      open_ = ground arith;
      no_timer = h.no_timer;
      none_posted = ground arith;
      runs = h.runs;
    }
served-Quiet p ask_shutdown rest e h = cc (sym (ap asks e) ∙ h.none_asks)
served-Quiet p ask_force rest e h = cc (sym (ap asks e) ∙ h.none_asks)

-- Only with its own calls the listener shuts down; else it stays as quiet as it was.
record IsIdle (l : Listener) : Type 0 where
  open_ : l.shutting_down ≡ false
  none_posted : l.posted ≡ []

accepted-IsIdle : (ok : Bool) (l : Listener) → IsIdle l → IsIdle (on_accept k_server_config ok l).0
unfolding on_accept handle_accepted_socket create_session
accepted-IsIdle ok l h =
    let o = h.open_ in
    let n = h.none_posted in record { open_ = ground arith; none_posted = ground arith }

closed-IsIdle : (session : ℕ) (l : Listener) → IsIdle l → IsIdle (on_session_closed session l)
unfolding on_session_closed notify_if_drained
closed-IsIdle session l h =
    let o = h.open_ in
    let n = h.none_posted in record { open_ = ground arith; none_posted = ground arith }

replaced : (p : Process) (l : Listener) → Quiet p → IsIdle l → Quiet (record p { listener = l })
replaced p l h i = record {
  none_asks = h.none_asks;
  open_ = i.open_;
  no_timer = h.no_timer;
  none_posted = i.none_posted;
  runs = h.runs;
}

idle : (p : Process) → Quiet p → IsIdle (completed_accept p.listener)
idle p h = record { open_ = h.open_; none_posted = h.none_posted }

begun : (p : Process) → (begin_shutdown p).shutdown_started ≡ true
unfolding begin_shutdown
begun p = ground arith

none_runs : {n : ℕ} → ¬ (n < length {A = ℕ} [])
none_runs h = omega arith

Step-IsBegun : (p q : Process) → Step p q → IsBegun p → IsBegun q
unfolding on_signal begin_shutdown on_timer on_shutdown_complete
Step-IsBegun _ _ (calls p call rest r c at_once d) h e = served-Quiet p call rest c (h e)
Step-IsBegun _ _ (accepts p ok r a) h e =
    replaced p _ (h e) (accepted-IsIdle ok (completed_accept p.listener) (idle p (h e)))
Step-IsBegun _ _ (loses p session r) h e = replaced p _ (h e) (
    closed-IsIdle session p.listener
      (record { open_ = (h e).open_; none_posted = (h e).none_posted }))
Step-IsBegun _ _ (signals p true r w) h e = record {
  none_asks = (h e).none_asks;
  open_ = (h e).open_;
  no_timer = (h e).no_timer;
  none_posted = (h e).none_posted;
  runs = r;
}
Step-IsBegun _ _ (signals p false r w) h e = cc (sym e ∙ begun (record p { waiting = false }))
Step-IsBegun _ _ (elapses p r t) h e = cc (sym t ∙ (h e).no_timer)
Step-IsBegun _ _ (fails p r t) h e = cc (sym t ∙ (h e).no_timer)
Step-IsBegun _ _ (aborts p r t) h e = h e
Step-IsBegun _ _ (completes p r c) h e =
    absurd (none_runs (subst (λ ns. p.ran < length ns) (h e).none_posted c))

set_up-IsBegun : IsBegun set_up
unfolding asks do_accept
set_up-IsBegun e = record {
  none_asks = refl;
  open_ = refl;
  no_timer = refl;
  none_posted = refl;
  runs = refl;
}

not_false : (b : Bool) → ¬ (b ≡ false) → b ≡ true
not_false true h = refl
not_false false h = absurd (h refl)

-- The wait of the timer goes on, or has failed.
HasTimer : Process → Type 0
HasTimer p = p.shutdown_started ≡ true → p.stopped ≡ false → (p.timer ≡ armed) ⊎ (p.timer ≡ failed)

module _ (p : Process) (r : Reachable p) where
  -- The process is not stopped before its shutdown has begun.
  stopped_begun : p.stopped ≡ true → p.shutdown_started ≡ true
  stopped_begun h =
      not_false p.shutdown_started
        (λ e. cc ((invariant IsBegun set_up-IsBegun Step-IsBegun p r e).runs, h))
