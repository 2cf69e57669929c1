-- ===== src/Server/System/Connections.antt =====
-- How many connections are open at once.
use ecommerce_platform.Prelude.{
  ℕ, ◌≤◌, ◌<◌, ◌≡◌, ◌≢◌, refl, true, List, [], ◌∷◌, Option, arith, length, All, inl,
}
use ecommerce_platform.Http.Error.{Outcome}
use ecommerce_platform.Http.Json.{JsonLibrary}
use ecommerce_platform.Http.Message.{Request, Response}
use ecommerce_platform.Server.Listener.{HttpServerConfig, Listener, set_on_shutdown_complete}
use ecommerce_platform.Server.Listener.Shutdown
use ecommerce_platform.Server.Listener.Shutdown.{sessions_le}
use ecommerce_platform.Server.Session.{k_closed}
use ecommerce_platform.Server.System.Drained.{kept_iff}
use ecommerce_platform.Server.System.Numbers.{are_in, AreDistinct, distinct_le}
use ecommerce_platform.Server.System.{
  System, Step, Reachable, starts, accepts, is_asked_to_stop, is_forced_to_stop, sets_callback,
  forgets, serves, completes, invariant,
}

module _ (config : HttpServerConfig) where
  -- One more change at the end.
  steps_on :
      {k l m : Listener}
      → Shutdown.Changes config k l
      → Shutdown.Step config l m
      → Shutdown.Changes config k m
  steps_on (Shutdown.same l) p = Shutdown.step p (Shutdown.same _)
  steps_on (Shutdown.step q qs) p = Shutdown.step q (steps_on qs p)
  steps_on (Shutdown.set k callback e qs) p = Shutdown.set k callback e (steps_on qs p)

  sets_on :
      {k l : Listener} (callback : Option ℕ)
      → Shutdown.Changes config k l
      → Shutdown.Changes config k (set_on_shutdown_complete callback l)
  sets_on callback (Shutdown.same l) = Shutdown.set l callback refl (Shutdown.same _)
  sets_on callback (Shutdown.step q qs) = Shutdown.step q (sets_on callback qs)
  sets_on callback (Shutdown.set k other e qs) = Shutdown.set k other e (sets_on callback qs)

module _ (lib : JsonLibrary) (handler : Request → Outcome Response)
    (config : HttpServerConfig) where
  abbrev IsListener : System → Type 0
  IsListener s = Shutdown.Reachable config s.listener

  Step-IsListener : (s t : System) → Step lib handler config s t → IsListener s → IsListener t
  Step-IsListener _ _ (starts s) r = steps_on config r (Shutdown.starts s.listener)
  Step-IsListener _ _ (accepts s ok a) r = steps_on config r (Shutdown.accepts s.listener ok a)
  Step-IsListener _ _ (is_asked_to_stop s) r =
      steps_on config r (Shutdown.is_asked_to_stop s.listener)
  Step-IsListener _ _ (is_forced_to_stop s at_once d) r =
      steps_on config r (Shutdown.is_forced_to_stop s.listener at_once d)
  Step-IsListener _ _ (sets_callback s callback) r = sets_on config callback r
  Step-IsListener _ _ (forgets s i rest e) r = steps_on config r (Shutdown.loses s.listener i)
  Step-IsListener _ _ (serves s i m rest lt e) r = r
  Step-IsListener _ _ (completes s i t step lt e) r = r

  -- The listener of the system goes through the steps of a listener.
  pub Reachable-IsListener :
      (s : System) → Reachable lib handler config s → Shutdown.Reachable config s.listener
  Reachable-IsListener s r =
      invariant lib handler config IsListener (Shutdown.same _) Step-IsListener s r

  -- A connection that is open.
  abbrev pub IsOpen : System → ℕ → Type 0
  IsOpen s i = (i < s.listener.created) × ((s.sessions i).state ≢ k_closed)

  open_in :
      (s : System) (is : List ℕ)
      → Reachable lib handler config s
      → All (IsOpen s) is
      → are_in is s.listener.sessions ≡ true
  open_in s [] r h = refl
  open_in s (i ∷ is) r ((lt, open_), h) =
      let here = (kept_iff lib handler config s i r).1 (lt, inl open_) in
      let rest = open_in s is r h in ground arith

  -- However the handlers of the listener and of its sessions interleave, at no time are more
  -- sessions open than the configured number of connections.
  pub open_le :
      (s : System) (is : List ℕ)
      → Reachable lib handler config s
      → AreDistinct is
      → All (IsOpen s) is
      → length is ≤ config.max_connections
  open_le s is r distinct h =
      let few = sessions_le config s.listener (Reachable-IsListener s r) in
      let some = distinct_le is s.listener.sessions distinct (open_in s is r h) in omega arith
