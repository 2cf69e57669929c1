-- ===== src/Server/System/Draining.antt =====
-- A forced shutdown: once the strands have run what waits for them, no session is left.
use ecommerce_platform.Prelude.{
  ℕ, ◌<◌, ◌≡◌, refl, sym, ap, subst, ◌∙◌, true, Bool, some, List, [], ◌∷◌, arith, inl, inr,
  Bool-cases,
}
use ecommerce_platform.Http.Error.{Outcome}
use ecommerce_platform.Http.Json.{JsonLibrary}
use ecommerce_platform.Http.Message.{Request, Response}
use ecommerce_platform.Server.Listener.{
  HttpServerConfig, Listener, Message, force_queued, force_shutdown, on_session_closed,
}
use ecommerce_platform.Server.Session.{k_closed, Session}
use ecommerce_platform.Server.System.Drained.{kept_iff}
use ecommerce_platform.Server.System.Listening.{
  force_queued-created, closed-created, closed-shutting_down,
}
use ecommerce_platform.Server.System.Serving.{
  is_over, is_doomed, cuts-deliver, settled, le_refl, not_over, over, Steps, done, next, both,
  Served, serve_sessions,
}
use ecommerce_platform.Server.System.{System, Reachable, forgets, hears}

module _ (lib : JsonLibrary) (handler : Request → Outcome Response)
    (config : HttpServerConfig) where
  -- The listener's strand hears of every end that waits for it.
  record Heard (s : System) : Type 0 where
    after : System
    steps : Steps lib handler config s after
    none_waits : after.closed ≡ []
    same_sessions : after.sessions ≡ s.sessions
    same_created : after.listener.created ≡ s.listener.created
    shuts : after.listener.shutting_down ≡ s.listener.shutting_down

  hear_ends : (queue : List ℕ) (s : System) → s.closed ≡ queue → Heard s
  hear_ends [] s e = record {
    after = s;
    steps = done s;
    none_waits = e;
    same_sessions = refl;
    same_created = refl;
    shuts = refl;
  }
  hear_ends (i ∷ is) s e =
      let later =
        hear_ends is (record s { listener = on_session_closed i s.listener; closed = is }) refl in
      record {
        after = later.after;
        steps = next (forgets s i is e) later.steps;
        none_waits = later.none_waits;
        same_sessions = later.same_sessions;
        same_created = later.same_created ∙ closed-created i s.listener;
        shuts = later.shuts ∙ closed-shutting_down i s.listener;
      }

  forced : System → System
  forced s = hears s (force_queued s.listener)

  forced_doomed :
      (s : System) (i : ℕ)
      → Reachable lib handler config s
      → i < s.listener.created
      → is_doomed (forced s) i ≡ true
  unfolding forced force_queued
  forced_doomed s i r lt =
      rw (cuts-deliver s.listener.sessions s.inbox i)
        (elim (Bool-cases (is_over (s.sessions i).state)) [
          | inl over ↦ ground arith
          | inr alive ↦
              let here =
                (kept_iff lib handler config s i r).1
                  (lt, inl (not_over (s.sessions i).state alive)) in
              ground arith
        ])

  module _ (s : System) (r : Reachable lib handler config s) (at_once : ℕ → Bool)
      (result : Listener × List Message) (d : force_shutdown at_once s.listener ≡ some result) where
    served : Served lib handler config (forced s) (λ j. j < (forced s).listener.created)
    served =
        serve_sessions lib handler config (forced s).listener.created (forced s)
          (le_refl (forced s).listener.created)

    heard : Heard served.after
    heard = hear_ends served.after.closed served.after refl

    steps : Steps lib handler config (forced s) heard.after
    steps = both lib handler config served.steps heard.steps

    all_made : heard.after.listener.created ≡ s.listener.created
    unfolding forced
    all_made =
        heard.same_created
        ∙ ap (λ (l : Listener). l.created) served.same
        ∙ force_queued-created s.listener

    closed : (i : ℕ) → i < heard.after.listener.created → (heard.after.sessions i).state ≡ k_closed
    unfolding forced
    closed i lt =
        let made : i < s.listener.created = subst (λ (n : ℕ). i < n) all_made lt in
        let asked : i < (forced s).listener.created =
          subst (λ (n : ℕ). i < n) (sym (force_queued-created s.listener)) made in
        let doomed = served.doomed i (forced_doomed s i r made) in
        let idle = served.idle i (inr asked) in
        over _ (
          ap (λ (f : ℕ → Session). is_over (f i).state) heard.same_sessions
          ∙ settled (is_over (served.after.sessions i).state) (served.after.inbox i) idle doomed)
