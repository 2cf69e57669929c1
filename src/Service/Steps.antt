-- ===== src/Service/Steps.antt =====
-- What the process goes through until the io_context is stopped.
use ecommerce_platform.Prelude.{◌<◌, ◌≡◌, Bool, true, false, some, List, ◌∷◌, length, ℕ}
use ecommerce_platform.Server.Listener.{on_accept, on_session_closed}
use ecommerce_platform.Server.Listener.Shutdown.{completed_accept}
use ecommerce_platform.Service.{
  Call, Process, set_up, armed, cancelled, elapsed, aborted, wait_error, on_signal,
  on_shutdown_complete, on_timer, serve_queued, serve_call, k_server_config,
}

pub data Step : Process → Process → Type 0 where
  -- The strand of the listener: the next call, an accept, or a session that has closed.
  calls :
      (p : Process) (call : Call) (rest : List Call)
      → p.stopped ≡ false
      → p.calls ≡ call ∷ rest
      → (at_once : ℕ → Bool)
      → serve_call at_once call p.listener ≡ some (serve_queued call p.listener)
      → Step p (record p { listener = serve_queued call p.listener; calls = rest })
  accepts :
      (p : Process) (ok : Bool)
      → p.stopped ≡ false
      → p.listener.accepting ≡ true
      → Step p
          (record p { listener = (on_accept k_server_config ok (completed_accept p.listener)).0 })
  loses :
      (p : Process) (session : ℕ)
      → p.stopped ≡ false
      → Step p (record p { listener = on_session_closed session p.listener })
  -- The signal set, the timer, and the callbacks that the listener has posted.
  signals :
      (p : Process) (error : Bool)
      → p.stopped ≡ false
      → p.waiting ≡ true
      → Step p (on_signal error p)
  elapses : (p : Process) → p.stopped ≡ false → p.timer ≡ armed → Step p (on_timer elapsed p)
  fails : (p : Process) → p.stopped ≡ false → p.timer ≡ armed → Step p (on_timer wait_error p)
  aborts : (p : Process) → p.stopped ≡ false → p.timer ≡ cancelled → Step p (on_timer aborted p)
  completes :
      (p : Process)
      → p.stopped ≡ false
      → p.ran < length p.listener.posted
      → Step p (on_shutdown_complete p)

pub data Reachable : Process → Type 0 where
  start : Reachable set_up
  then_ : {p q : Process} → Reachable p → Step p q → Reachable q

-- What holds of the process at first, and is kept by each step, holds always.
pub invariant {ℓ} :
    (P : Process → Type ℓ)
    → P set_up
    → ((p q : Process) → Step p q → P p → P q)
    → (p : Process) → Reachable p
    → P p
invariant P first keep _ start = first
invariant P first keep q (then_ {p} r s) = keep p q s (invariant P first keep p r)
