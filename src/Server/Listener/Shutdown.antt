-- ===== src/Server/Listener/Shutdown.antt =====
-- The listener's invariant: its sessions are bounded, and its shutdown is completed once.
use ecommerce_platform.Prelude.{
  some, ℕ, ◌≤◌, ◌≡◌, Bool, true, false, not, ◌&&◌, ◌||◌, List, [], ◌∷◌, Option, arith, leb,
  if◌then◌else◌, length, length-append, subst,
}
use ecommerce_platform.Server.Listener.{
  HttpServerConfig, Listener, new_listener, no_sessions, notify_if_drained, stop_accepting,
  request_shutdown, force_queued, force_shutdown, set_on_shutdown_complete, erase,
  on_session_closed, create_session, handle_accepted_socket, do_accept, on_accept,
}

abbrev pub completed_accept : Listener → Listener
completed_accept l = record l { accepting = false }

module _ (config : HttpServerConfig) where
  -- What the strand runs, except for the setting of a callback.
  pub data Step : Listener → Listener → Type 0 where
    starts : (l : Listener) → Step l (do_accept l)
    accepts :
        (l : Listener) (ok : Bool)
        → l.accepting ≡ true
        → Step l (on_accept config ok (completed_accept l)).0
    is_asked_to_stop : (l : Listener) → Step l (request_shutdown l).0
    is_forced_to_stop :
        (l : Listener) (at_once : ℕ → Bool)
        → force_shutdown at_once l ≡ some (force_queued l)
        → Step l (force_queued l).0
    loses : (l : Listener) (session : ℕ) → Step l (on_session_closed session l)

  pub data Steps : Listener → Listener → Type 0 where
    done : (l : Listener) → Steps l l
    next : {k l m : Listener} → Step k l → Steps l m → Steps k m

  -- The same with callbacks set between the steps.
  pub data Changes : Listener → Listener → Type 0 where
    same : (l : Listener) → Changes l l
    step : {k l m : Listener} → Step k l → Changes l m → Changes k m
    set :
        {l m : Listener} (k : Listener) (callback : Option ℕ)
        → set_on_shutdown_complete callback k ≡ l
        → Changes l m
        → Changes k m

  abbrev pub Reachable : Listener → Type 0
  Reachable l = Changes new_listener l

-- A listener is drained when it shuts down and has no sessions; then it has notified, and before
-- that nothing is posted.
unfoldable pub is_valid : HttpServerConfig → Listener → Bool
is_valid config l =
    leb (length l.sessions) config.max_connections
    && ((not (l.shutting_down && no_sessions l.sessions) || l.shutdown_notified)
        && ((l.shutdown_notified || no_sessions l.posted) && leb (length l.posted) 1))

-- The same before the listener looks whether it is drained.
unfoldable pub is_nearly_valid : HttpServerConfig → Listener → Bool
is_nearly_valid config l =
    leb (length l.sessions) config.max_connections
    && ((l.shutdown_notified || no_sessions l.posted) && leb (length l.posted) 1)

erase_le : (session : ℕ) (ss : List ℕ) → length (erase session ss) ≤ length ss
unfolding erase
erase_le session [] = omega arith
erase_le session (s ∷ ss) = ground (arith, erase_le session ss)

module _ (config : HttpServerConfig) where
  notify_valid :
      (l : Listener)
      → is_nearly_valid config l ≡ true
      → is_valid config (notify_if_drained l) ≡ true
  unfolding is_valid is_nearly_valid notify_if_drained
  notify_valid l h = ground (arith, length-append l.posted)

  nearly : (l : Listener) → is_valid config l ≡ true → is_nearly_valid config l ≡ true
  unfolding is_valid is_nearly_valid
  nearly l h = ground arith

  stopped : Listener → Listener
  stopped l = if l.shutting_down then l else stop_accepting l

  request_shutdown_eq : (l : Listener) → (request_shutdown l).0 ≡ notify_if_drained (stopped l)
  unfolding request_shutdown stopped
  request_shutdown_eq l = ground arith

  stopped_nearly :
      (l : Listener) → is_valid config l ≡ true → is_nearly_valid config (stopped l) ≡ true
  unfolding is_valid is_nearly_valid stopped
  stopped_nearly l h = ground arith

  request_shutdown_valid :
      (l : Listener) → is_valid config l ≡ true → is_valid config (request_shutdown l).0 ≡ true
  request_shutdown_valid l h = rw (request_shutdown_eq l) (notify_valid _ (stopped_nearly l h))

  force_shutdown_valid :
      (l : Listener) → is_valid config l ≡ true → is_valid config (force_queued l).0 ≡ true
  unfolding force_queued stopped
  force_shutdown_valid l h = notify_valid _ (stopped_nearly l h)

  pub set_valid :
      (callback : Option ℕ) (l : Listener)
      → is_valid config l ≡ true
      → is_valid config (set_on_shutdown_complete callback l) ≡ true
  unfolding set_on_shutdown_complete is_nearly_valid
  set_valid callback l h = notify_valid (record l { on_shutdown_complete = callback }) (nearly l h)

  smaller :
      (session : ℕ) (l : Listener)
      → is_valid config l ≡ true
      → is_nearly_valid config (record l { sessions = erase session l.sessions }) ≡ true
  unfolding is_valid is_nearly_valid
  smaller session l h = ground (arith, erase_le session l.sessions)

  on_session_closed_valid :
      (session : ℕ) (l : Listener)
      → is_valid config l ≡ true
      → is_valid config (on_session_closed session l) ≡ true
  unfolding on_session_closed
  on_session_closed_valid session l h =
      notify_valid (record l { sessions = erase session l.sessions }) (smaller session l h)

  on_accept_valid :
      (ok : Bool) (l : Listener)
      → is_valid config l ≡ true
      → is_valid config (on_accept config ok l).0 ≡ true
  unfolding on_accept handle_accepted_socket create_session is_valid
  on_accept_valid false l h = ground arith
  on_accept_valid true l h = ground (arith, length-append l.sessions (l.created ∷ []))

  pub Step-valid :
      {k l : Listener} → Step config k l → is_valid config k ≡ true → is_valid config l ≡ true
  unfolding do_accept is_valid
  Step-valid (starts l) h = h
  Step-valid (accepts l ok p) h = on_accept_valid ok (completed_accept l) h
  Step-valid (is_asked_to_stop l) h = request_shutdown_valid l h
  Step-valid (is_forced_to_stop l at_once d) h = force_shutdown_valid l h
  Step-valid (loses l session) h = on_session_closed_valid session l h

  pub Steps-valid :
      {k l : Listener} → Steps config k l → is_valid config k ≡ true → is_valid config l ≡ true
  Steps-valid (done l) h = h
  Steps-valid (next p ps) h = Steps-valid ps (Step-valid p h)

  Changes-valid :
      {k l : Listener} → Changes config k l → is_valid config k ≡ true → is_valid config l ≡ true
  Changes-valid (same l) h = h
  Changes-valid (step p ps) h = Changes-valid ps (Step-valid p h)
  Changes-valid (set k callback e ps) h =
      Changes-valid ps (subst (λ l. is_valid config l ≡ true) e (set_valid callback k h))

  new_listener_valid : is_valid config new_listener ≡ true
  unfolding is_valid
  new_listener_valid = ground arith

  pub Reachable-valid : {l : Listener} → Reachable config l → is_valid config l ≡ true
  Reachable-valid r = Changes-valid r new_listener_valid

  bounded : (l : Listener) → is_valid config l ≡ true → length l.sessions ≤ config.max_connections
  unfolding is_valid
  bounded l h = ground arith

  -- However connections, closed sessions and calls from outside interleave, the listener never has
  -- more sessions than the configured number of connections.
  pub sessions_le : (l : Listener) → Reachable config l → length l.sessions ≤ config.max_connections
  sessions_le l r = bounded l (Reachable-valid r)
