-- ===== src/Server/System/Drained.antt =====
-- The sessions that the listener keeps, and what it means that there are none.
use ecommerce_platform.Prelude.{
  ℕ, ◌≤◌, ◌<◌, ◌≡◌, ◌≢◌, ◌↔◌, ◌⊎◌, refl, ap, Bool, true, ◌&&◌, ◌||◌, List, ◌==◌, ==_iff, ltb, arith,
  inl, inr,
}
use ecommerce_platform.Http.Error.{Outcome}
use ecommerce_platform.Http.Json.{JsonLibrary}
use ecommerce_platform.Http.Message.{Request, Response}
use ecommerce_platform.Server.Listener.{
  HttpServerConfig, build_session_config, Listener, Message, on_accept, do_accept, request_shutdown,
  force_queued, set_on_shutdown_complete, on_session_closed,
}
use ecommerce_platform.Server.Listener.Shutdown.{completed_accept}
use ecommerce_platform.Server.Session.{Session, State, k_open, k_closing, k_closed}
use ecommerce_platform.Server.Session.Bound.{closes_once}
use ecommerce_platform.Server.System.Listening.{
  Accepted, none_made, one_made, accept_cases, request_shutdown-created, force_queued-created,
  set-created, closed-created, request_shutdown-sessions, force_queued-sessions, set-sessions,
  closed-sessions,
}
use ecommerce_platform.Server.System.Numbers.{has, count-has}
use ecommerce_platform.Server.System.Sessions.{
  IsRunnable, AreRunnable, Step-AreRunnable, new_system-AreRunnable,
}
use ecommerce_platform.Server.System.Ends.{served-closes, completed-closes}
use ecommerce_platform.Server.System.Kept.{
  IsKept, same-IsKept, more-IsKept, forgotten-IsKept, changed-IsKept,
}
use ecommerce_platform.Server.System.{
  System, Step, Reachable, put_at, serve_message, new_system, starts, accepts, is_asked_to_stop,
  is_forced_to_stop, sets_callback, forgets, serves, completes, hears, invariant,
}

module _ (lib : JsonLibrary) (handler : Request → Outcome Response)
    (config : HttpServerConfig) where
  -- The callback of a session in the system was called once at most.
  once : (s : System) (i : ℕ) → IsRunnable lib handler config s i → (s.sessions i).closes ≤ 1
  once s i r =
      called (s.sessions i).state
        (closes_once lib handler (build_session_config config) (s.sessions i) r.is_session)
    where
      called :
          (state : State)
          → (s.sessions i).closes ≡ elim state [ k_open ↦ 0 | k_closing ↦ 0 | k_closed ↦ 1 ]
          → (s.sessions i).closes ≤ 1
      called k_open e = omega arith
      called k_closing e = omega arith
      called k_closed e = omega arith

  abbrev AreKept : System → Type 0
  AreKept s = AreRunnable lib handler config s × ((i : ℕ) → IsKept s i)

  Accepted-IsKept :
      (s : System) (l : Listener) (messages : List Message) (i : ℕ)
      → Accepted (completed_accept s.listener) l messages
      → IsRunnable lib handler config s i
      → IsKept s i
      → IsKept (hears s (l, messages)) i
  Accepted-IsKept s l messages i (none_made none same kept) r h = same-IsKept s l _ i same kept h
  Accepted-IsKept s l messages i (one_made one more kept) r h =
      more-IsKept s l _ i more kept (λ le. ap (λ (t : Session). t.closes) (r.unmade le)) h

  own : (k : ℕ) (t : Session) (f : ℕ → Session) → (put_at f k t k).closes ≤ 1 → t.closes ≤ 1
  own k t f h = rw ((==_iff k k).1 refl) at h

  Step-IsKept :
      (s t : System)
      → Step lib handler config s t
      → AreRunnable lib handler config s
      → AreRunnable lib handler config t
      → ((i : ℕ) → IsKept s i)
      → (i : ℕ) → IsKept t i
  unfolding do_accept
  Step-IsKept _ _ (starts s) r q h i =
      same-IsKept s (do_accept s.listener) s.inbox i refl refl (h i)
  Step-IsKept _ _ (accepts s ok a) r q h i =
      let result = on_accept config ok (completed_accept s.listener) in
      Accepted-IsKept s result.0 result.1 i (accept_cases config ok (completed_accept s.listener))
        (r i) (h i)
  Step-IsKept _ _ (is_asked_to_stop s) r q h i =
      same-IsKept s (request_shutdown s.listener).0 _ i (request_shutdown-created s.listener)
        (request_shutdown-sessions s.listener) (h i)
  Step-IsKept _ _ (is_forced_to_stop s at_once d) r q h i =
      same-IsKept s (force_queued s.listener).0 _ i (force_queued-created s.listener)
        (force_queued-sessions s.listener) (h i)
  Step-IsKept _ _ (sets_callback s callback) r q h i =
      same-IsKept s (set_on_shutdown_complete callback s.listener) s.inbox i
        (set-created callback s.listener) (set-sessions callback s.listener) (h i)
  Step-IsKept _ _ (forgets s k rest e) r q h i =
      forgotten-IsKept s (on_session_closed k s.listener) k i rest (closed-created k s.listener)
        (closed-sessions k s.listener) e (once s i (r i)) (h i)
  Step-IsKept _ _ (serves s k m rest lt e) r q h i =
      changed-IsKept s k i (serve_message lib handler config m (s.sessions k)) _ lt
        (served-closes lib handler config m (s.sessions k))
        (own k (serve_message lib handler config m (s.sessions k)) s.sessions (once _ k (q k)))
        (h i)
  Step-IsKept _ _ (completes s k t step lt e) r q h i =
      changed-IsKept s k i t s.inbox lt (completed-closes lib handler config step e)
        (own k t s.sessions (once _ k (q k))) (h i)

  Step-AreKept : (s t : System) → Step lib handler config s t → AreKept s → AreKept t
  Step-AreKept s t step (r, h) =
      let q = Step-AreRunnable lib handler config s t step r in (q, Step-IsKept s t step r q h)

  new_system-AreKept : AreKept new_system
  new_system-AreKept = (
    new_system-AreRunnable lib handler config,
    λ i. record { known = ground arith; few = omega arith },
  )

  -- The listener keeps exactly the sessions that were made and are not closed, and those that are
  -- closed and whose call of OnSessionClosed still waits for its strand.
  pub kept_iff :
      (s : System) (i : ℕ)
      → Reachable lib handler config s
      → (has i s.listener.sessions ≡ true)
        ↔ ((i < s.listener.created) × (((s.sessions i).state ≢ k_closed) ⊎ (has i s.closed ≡ true)))
  kept_iff s i r =
      let (q, h) = invariant lib handler config AreKept new_system-AreKept Step-AreKept s r in
      let c =
        closes_once lib handler (build_session_config config) (s.sessions i) (q i).is_session in
      split (s.sessions i).state (s.sessions i).closes (has i s.listener.sessions) (has i s.closed)
        c (rw (count-has i s.closed) at (h i).known)
    where
      split :
          (state : State) (n : ℕ) (kept waits : Bool)
          → n ≡ elim state [ k_open ↦ 0 | k_closing ↦ 0 | k_closed ↦ 1 ]
          → kept ≡ (ltb i s.listener.created && ((n == 0) || waits))
          → (kept ≡ true) ↔ ((i < s.listener.created) × ((state ≢ k_closed) ⊎ (waits ≡ true)))
      split k_open n kept waits c e =
          ((λ k. (ground arith, inl (λ same. cc same))), λ (lt, which). ground arith)
      split k_closing n kept waits c e =
          ((λ k. (ground arith, inl (λ same. cc same))), λ (lt, which). ground arith)
      split k_closed n kept waits c e = (
        (λ k. (ground arith, inr (ground arith))),
        λ (lt, which). elim which [ inl open_ ↦ absurd (open_ refl) | inr waiting ↦ ground arith ],
      )
