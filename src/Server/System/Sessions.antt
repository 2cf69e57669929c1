-- ===== src/Server/System/Sessions.antt =====
-- In the system each session goes through the steps of a session, and no others; so what holds of a
-- session by itself holds of it there.
use ecommerce_platform.Prelude.{
  ℕ, ◌+◌, ◌≤◌, ◌<◌, ◌≡◌, refl, sym, ap, subst, ◌∙◌, true, false, ◌&&◌, List, [], ◌∷◌, ◌==◌, ==_iff,
  ltb, if◌then◌else◌, arith, Bool-cases, inl, inr,
}
use ecommerce_platform.Http.Error.{Outcome}
use ecommerce_platform.Http.Json.{JsonLibrary}
use ecommerce_platform.Http.Message.{Request, Response}
use ecommerce_platform.Server.Listener
use ecommerce_platform.Server.Listener.{
  HttpServerConfig, build_session_config, Listener, Message, create_session, handle_accepted_socket,
  on_accept, do_accept, request_shutdown, force_queued, set_on_shutdown_complete, on_session_closed,
  notify_if_drained,
}
use ecommerce_platform.Server.Listener.Shutdown.{completed_accept}
use ecommerce_platform.Server.Session.{
  Session, new_session, Pending, not_started, nothing, reading, writing, do_read, close,
  request_close, force_close, run,
}
use ecommerce_platform.Server.Session.Steps
use ecommerce_platform.Server.Session.Steps.{failed_lem, handled_lem}
use ecommerce_platform.Server.System.Listening.{
  Accepted, none_made, one_made, accept_cases, request_shutdown-created, force_queued-created,
  set-created, closed-created,
}
use ecommerce_platform.Server.System.{
  System, Step, Reachable, put_at, deliver, serve_message, new_system, starts, accepts,
  is_asked_to_stop, is_forced_to_stop, sets_callback, forgets, serves, completes, hears, becomes,
  invariant,
}
use ecommerce_platform.Server.System.Runs.{
  runs, is_unstarted, runs-put, runs-deliver, completion_running, runs-request_shutdown,
  runs-force_queued,
}

module _ (lib : JsonLibrary) (handler : Request → Outcome Response)
    (config : HttpServerConfig) where
  -- The Run of a session waits exactly until it runs.
  abbrev Waits : ℕ → ℕ → List Message → Session → Type 0
  Waits created i messages t =
      runs messages ≡ (if ltb i created && is_unstarted t.pending then 1 else 0)

  pub record IsRunnable (s : System) (i : ℕ) : Type 0 where
    pub waits : Waits s.listener.created i (s.inbox i) (s.sessions i)
    pub unmade : s.listener.created ≤ i → s.sessions i ≡ new_session true
    pub is_session : Steps.Reachable lib handler (build_session_config config) (s.sessions i)

module _ (lib : JsonLibrary) (handler : Request → Outcome Response)
    (config : HttpServerConfig) where
  -- The listener's strand asks nobody to run, and makes no session.
  unmade-IsRunnable :
      (s : System) (l : Listener) (messages : List Message) (i : ℕ)
      → l.created ≡ s.listener.created
      → runs messages ≡ 0
      → IsRunnable lib handler config s i
      → IsRunnable lib handler config (hears s (l, messages)) i
  unmade-IsRunnable s l messages i same none h = record {
    waits =
        runs-deliver messages s.inbox i none
        ∙ h.waits
        ∙ ap (λ (c : ℕ). if ltb i c && is_unstarted (s.sessions i).pending then 1 else 0)
            (sym same);
    unmade = λ le. h.unmade (omega arith);
    is_session = h.is_session;
  }

  made-IsRunnable :
      (s : System) (l : Listener) (i : ℕ)
      → l.created ≡ s.listener.created + 1
      → IsRunnable lib handler config s i
      → IsRunnable lib handler config (hears s (l, Listener.run s.listener.created ∷ [])) i
  unfolding deliver
  made-IsRunnable s l i more h = record {
    waits = runs-put s.inbox (Listener.run s.listener.created) s.listener.created i ∙ counted;
    unmade = λ le. h.unmade (omega arith);
    is_session = h.is_session;
  }
    where
      counted :
          runs (s.inbox i) + (if s.listener.created == i then 1 else 0)
          ≡ (if ltb i l.created && is_unstarted (s.sessions i).pending then 1 else 0)
      counted = elim (Bool-cases (s.listener.created == i)) [
        | inl new ↦
            let fresh : is_unstarted (s.sessions i).pending ≡ true =
              ap (λ (t : Session). is_unstarted t.pending) (h.unmade (ground arith)) in
            let w = h.waits in ground arith
        | inr old ↦ let w = h.waits in ground arith
      ]

  Accepted-IsRunnable :
      (s : System) (l : Listener) (messages : List Message) (i : ℕ)
      → Accepted (completed_accept s.listener) l messages
      → IsRunnable lib handler config s i
      → IsRunnable lib handler config (hears s (l, messages)) i
  Accepted-IsRunnable s l messages i (none_made none same kept) h =
      unmade-IsRunnable s l messages i same (ap runs none) h
  Accepted-IsRunnable s l messages i (one_made one more kept) h =
      subst (λ ms. IsRunnable lib handler config (hears s (l, ms)) i) (sym one)
        (made-IsRunnable s l i more h)

  snoc :
      {s t u : Session}
      → Steps.Steps lib handler (build_session_config config) s t
      → Steps.Step lib handler (build_session_config config) t u
      → Steps.Steps lib handler (build_session_config config) s u
  snoc (Steps.done s) p = Steps.next p (Steps.done _)
  snoc (Steps.next q qs) p = Steps.next q (snoc qs p)

  unstarted : (p : Pending) → is_unstarted p ≡ true → p ≡ not_started
  unstarted not_started h = refl
  unstarted nothing h = cc h
  unstarted (reading was_open) h = cc h
  unstarted (writing was_open res) h = cc h

  served-Waits :
      (c i : ℕ) (m : Message) (rest : List Message) (t : Session)
      → i < c
      → Waits lib handler config c i (m ∷ rest) t
      → Waits lib handler config c i rest (serve_message lib handler config m t)
  unfolding serve_message run request_close force_close close do_read
  served-Waits c i (Listener.run j) rest t lt h = ground arith
  served-Waits c i (Listener.request_close j) rest t lt h = ground arith
  served-Waits c i (Listener.force_close j) rest t lt h = ground arith

  served-Reachable :
      (c i : ℕ) (m : Message) (rest : List Message) (t : Session)
      → Waits lib handler config c i (m ∷ rest) t
      → Steps.Reachable lib handler (build_session_config config) t
      → Steps.Reachable lib handler
          (build_session_config config)
          (serve_message lib handler config m t)
  unfolding serve_message
  served-Reachable c i (Listener.run j) rest t h r =
      snoc r (Steps.runs t (unstarted t.pending (ground arith)))
  served-Reachable c i (Listener.request_close j) rest t h r = snoc r (Steps.is_asked_to_close t)
  served-Reachable c i (Listener.force_close j) rest t h r = snoc r (Steps.is_forced_to_close t)

  -- The strand of a session has run a handler; the queues of the others stay as they are.
  changed-IsRunnable :
      (s : System) (k i : ℕ) (t : Session) (inbox : ℕ → List Message)
      → k < s.listener.created
      → Waits lib handler config s.listener.created k (inbox k) t
      → ((k == i) ≡ false → inbox i ≡ s.inbox i)
      → Steps.Reachable lib handler (build_session_config config) t
      → IsRunnable lib handler config s i
      → IsRunnable lib handler config (record (becomes s k t) { inbox = inbox }) i
  changed-IsRunnable s k i t inbox lt w others r h = elim (Bool-cases (k == i)) [
    | inl same ↦
        let e : k ≡ i = (==_iff k i).0 same in
        record {
          waits =
              rw same (subst (λ i. Waits lib handler config s.listener.created i (inbox i) t) e w);
          unmade = λ le. absurd (omega arith);
          is_session = rw same r;
        }
    | inr other ↦ record {
      waits = rw (other, others other) h.waits;
      unmade = λ le. rw other (h.unmade le);
      is_session = rw other h.is_session;
    }
  ]

  abbrev pub AreRunnable : System → Type 0
  AreRunnable s = (i : ℕ) → IsRunnable lib handler config s i

  pub Step-AreRunnable :
      (s t : System) → Step lib handler config s t → AreRunnable s → AreRunnable t
  unfolding do_accept deliver
  Step-AreRunnable _ _ (starts s) h i =
      unmade-IsRunnable s (do_accept s.listener) [] i refl refl (h i)
  Step-AreRunnable _ _ (accepts s ok a) h i =
      let r = on_accept config ok (completed_accept s.listener) in
      Accepted-IsRunnable s r.0 r.1 i (accept_cases config ok (completed_accept s.listener)) (h i)
  Step-AreRunnable _ _ (is_asked_to_stop s) h i =
      let r = request_shutdown s.listener in
      unmade-IsRunnable s r.0 r.1 i (request_shutdown-created s.listener)
        (runs-request_shutdown s.listener) (h i)
  Step-AreRunnable _ _ (is_forced_to_stop s at_once d) h i =
      let r = force_queued s.listener in
      unmade-IsRunnable s r.0 r.1 i (force_queued-created s.listener) (runs-force_queued s.listener)
        (h i)
  Step-AreRunnable _ _ (sets_callback s callback) h i =
      unmade-IsRunnable s (set_on_shutdown_complete callback s.listener) [] i
        (set-created callback s.listener) refl (h i)
  Step-AreRunnable _ _ (forgets s k rest e) h i =
      let g =
        unmade-IsRunnable s (on_session_closed k s.listener) [] i (closed-created k s.listener) refl
          (h i) in
      record { waits = g.waits; unmade = g.unmade; is_session = g.is_session }
  Step-AreRunnable _ _ (serves s k m rest lt e) h i =
      let w =
        subst (λ ms. Waits lib handler config s.listener.created k ms (s.sessions k)) e
          (h k).waits in
      changed-IsRunnable s k i (serve_message lib handler config m (s.sessions k))
        (put_at s.inbox k rest) lt
        (rw ((==_iff k k).1 refl) (served-Waits s.listener.created k m rest (s.sessions k) lt w))
        (λ other. rw other refl)
        (served-Reachable s.listener.created k m rest (s.sessions k) w (h k).is_session) (h i)
  Step-AreRunnable _ _ (completes s k t step lt e) h i =
      let (before, after) = completion_running lib handler config step e in
      let w = (h k).waits in
      changed-IsRunnable s k i t s.inbox lt (ran after before w) (λ other. refl)
        (snoc (h k).is_session step) (h i)
    where
      ran :
          is_unstarted t.pending ≡ false
          → is_unstarted (s.sessions k).pending ≡ false
          → Waits lib handler config s.listener.created k (s.inbox k) (s.sessions k)
          → Waits lib handler config s.listener.created k (s.inbox k) t
      ran after before w = ground arith

  pub new_system-AreRunnable : AreRunnable new_system
  new_system-AreRunnable i = record {
    waits = ground arith;
    unmade = λ le. refl;
    is_session = Steps.done _;
  }

  Reachable-IsRunnable :
      (s : System) → Reachable lib handler config s → (i : ℕ) → IsRunnable lib handler config s i
  Reachable-IsRunnable s r =
      invariant lib handler config AreRunnable new_system-AreRunnable Step-AreRunnable s r

  -- In the system, each session goes through the steps of a session by itself, whatever the listener
  -- asks of it and whenever; and from when it is made until it has run, its Run waits in its queue
  -- exactly once, and not at all before and after that.
  pub Reachable-session :
      (s : System) (i : ℕ)
      → Reachable lib handler config s
      → Steps.Reachable lib handler (build_session_config config) (s.sessions i)
        × (runs (s.inbox i)
            ≡ (if ltb i s.listener.created && is_unstarted (s.sessions i).pending then 1 else 0))
  Reachable-session s i r = let h = Reachable-IsRunnable s r i in (h.is_session, h.waits)
