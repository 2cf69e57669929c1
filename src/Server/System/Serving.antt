-- ===== src/Server/System/Serving.antt =====
-- The strands of the sessions run every message that waits for them.
use ecommerce_platform.Prelude.{
  ℕ, zero, suc, ◌≤◌, ◌<◌, ◌≡◌, ◌≢◌, ◌⊎◌, refl, sym, ap, subst, ◌∙◌, Bool, true, false, ◌||◌, List,
  [], ◌∷◌, ◌++◌, map, arith, inl, inr, ◌==◌, ==_iff, Bool-cases,
}
use ecommerce_platform.Http.Error.{Outcome}
use ecommerce_platform.Http.Json.{JsonLibrary}
use ecommerce_platform.Http.Message.{Request, Response}
use ecommerce_platform.Server.Listener
use ecommerce_platform.Server.Listener.{
  HttpServerConfig, Listener, Message, build_session_config, force_queued, notify_if_drained,
  on_session_closed, erase,
}
use ecommerce_platform.Server.Session.{
  State, k_open, k_closing, k_closed, Session, run, request_close, force_close, close, do_read,
}
use ecommerce_platform.Server.System.Numbers.{has}
use ecommerce_platform.Server.System.{
  System, Step, Reachable, then_, put_at, deliver, serve_message, serves, becomes,
}

-- A message that closes its session by force waits.
abbrev pub cuts : List Message → Bool
cuts [] = false
cuts (Listener.run i ∷ ms) = cuts ms
cuts (Listener.request_close i ∷ ms) = cuts ms
cuts (Listener.force_close i ∷ ms) = true

abbrev pub is_over : State → Bool
is_over k_open = false
is_over k_closing = false
is_over k_closed = true

-- A session that is closed, or will be when its queue was run.
abbrev pub is_doomed : System → ℕ → Bool
is_doomed s i = is_over (s.sessions i).state || cuts (s.inbox i)

cuts-append : (ms ns : List Message) → cuts (ms ++ ns) ≡ (cuts ms || cuts ns)
cuts-append [] ns = refl
cuts-append (Listener.run i ∷ ms) ns = cuts-append ms ns
cuts-append (Listener.request_close i ∷ ms) ns = cuts-append ms ns
cuts-append (Listener.force_close i ∷ ms) ns = refl

-- Every session that is told to close by force has the message in its queue.
pub cuts-deliver :
    (is : List ℕ) (inbox : ℕ → List Message) (i : ℕ)
    → cuts (deliver (map Listener.force_close is) inbox i) ≡ (has i is || cuts (inbox i))
unfolding deliver
cuts-deliver [] inbox i = refl
cuts-deliver (j ∷ js) inbox i =
    cuts-deliver js (put_at inbox j (inbox j ++ Listener.force_close j ∷ [])) i ∙ put
  where
    put :
        (has i js || cuts (put_at inbox j (inbox j ++ Listener.force_close j ∷ []) i))
        ≡ ((j == i || has i js) || cuts (inbox i))
    put = elim (Bool-cases (j == i)) [
      | inl same ↦ rw (same, cuts-append (inbox j) (Listener.force_close j ∷ [])) (ground arith)
      | inr other ↦ rw other refl
    ]

pub settled : (b : Bool) (ms : List Message) → ms ≡ [] → (b || cuts ms) ≡ true → b ≡ true
settled true ms e h = refl
settled false ms e h = sym (ap cuts e) ∙ h

pub le_refl : (n : ℕ) → n ≤ n
le_refl n = omega arith

pub not_over : (state : State) → is_over state ≡ false → state ≢ k_closed
not_over k_open h e = cc e
not_over k_closing h e = cc e
not_over k_closed h e = cc h

pub over : (state : State) → is_over state ≡ true → state ≡ k_closed
over k_open h = cc h
over k_closing h = cc h
over k_closed h = refl

module _ (lib : JsonLibrary) (handler : Request → Outcome Response)
    (config : HttpServerConfig) where
  pub data Steps : System → System → Type 0 where
    done : (s : System) → Steps s s
    next : {s t u : System} → Step lib handler config s t → Steps t u → Steps s u

  pub both : {s t u : System} → Steps s t → Steps t u → Steps s u
  both (done s) q = q
  both (next p ps) q = next p (both ps q)

  pub Steps-Reachable :
      {s t : System} → Reachable lib handler config s → Steps s t → Reachable lib handler config t
  Steps-Reachable r (done s) = r
  Steps-Reachable r (next p ps) = Steps-Reachable (then_ r p) ps

  -- A message is run.
  served_doomed :
      (m : Message) (rest : List Message) (t : Session)
      → (is_over t.state || cuts (m ∷ rest)) ≡ true
      → (is_over (serve_message lib handler config m t).state || cuts rest) ≡ true
  unfolding serve_message run request_close force_close close do_read
  served_doomed (Listener.run i) rest t h = ground arith
  served_doomed (Listener.request_close i) rest t h = ground arith
  served_doomed (Listener.force_close i) rest t h = ground arith

  -- What the strands of sessions have come to, the listener's doing nothing in between.
  pub record Served (s : System) (Empties : ℕ → Type 0) : Type 0 where
    pub after : System
    pub steps : Steps s after
    pub same : after.listener ≡ s.listener
    pub doomed : (j : ℕ) → is_doomed s j ≡ true → is_doomed after j ≡ true
    pub idle : (j : ℕ) → (s.inbox j ≡ []) ⊎ Empties j → after.inbox j ≡ []

  abbrev after_message : System → ℕ → Message → List Message → System
  after_message s i m rest =
      record (becomes s i (serve_message lib handler config m (s.sessions i))) {
        inbox = put_at s.inbox i rest;
      }

  message_doomed :
      (s : System) (i : ℕ) (m : Message) (rest : List Message) (j : ℕ)
      → s.inbox i ≡ m ∷ rest
      → is_doomed s j ≡ true
      → is_doomed (after_message s i m rest) j ≡ true
  message_doomed s i m rest j e h = elim (Bool-cases (i == j)) [
    | inl same ↦
        let own : i ≡ j = (==_iff i j).0 same in
        rw same (
          served_doomed m rest (s.sessions i) (
            subst (λ ms. (is_over (s.sessions i).state || cuts ms) ≡ true) e
              (subst (λ k. is_doomed s k ≡ true) (sym own) h)))
    | inr other ↦ rw other h
  ]

  still_idle :
      (i j : ℕ) (ms : List Message) (inbox : ℕ → List Message)
      → (inbox j ≡ []) ⊎ (i ≡ j)
      → (put_at inbox i ms j ≡ []) ⊎ (i ≡ j)
  still_idle i j ms inbox (inr own) = inr own
  still_idle i j ms inbox (inl idle) = elim (Bool-cases (i == j)) [
    | inl same ↦ inr ((==_iff i j).0 same)
    | inr other ↦ inl (rw other idle)
  ]

  serve_session :
      (messages : List Message) (s : System) (i : ℕ)
      → i < s.listener.created
      → s.inbox i ≡ messages
      → Served s (λ j. i ≡ j)
  serve_session [] s i lt e = record {
    after = s;
    steps = done s;
    same = refl;
    doomed = λ j h. h;
    idle = λ j which. elim which [ inl idle ↦ idle | inr own ↦ subst (λ k. s.inbox k ≡ []) own e ];
  }
  serve_session (m ∷ ms) s i lt e =
      let t = after_message s i m ms in
      let later = serve_session ms t i lt (rw ((==_iff i i).1 refl) refl) in
      record {
        after = later.after;
        steps = next (serves s i m ms lt e) later.steps;
        same = later.same;
        doomed = λ j h. later.doomed j (message_doomed s i m ms j e h);
        idle = λ j which. later.idle j (still_idle i j ms s.inbox which);
      }

  next_idle :
      {s : System} (n j : ℕ) (first : Served s (λ j. j < n))
      → (s.inbox j ≡ []) ⊎ (j < suc n)
      → (first.after.inbox j ≡ []) ⊎ (n ≡ j)
  next_idle n j first (inl idle) = inl (first.idle j (inl idle))
  next_idle n j first (inr lt) = elim (Bool-cases (n == j)) [
    | inl same ↦ inr ((==_iff n j).0 same)
    | inr other ↦ inl (first.idle j (inr (ground arith)))
  ]

  pub serve_sessions : (n : ℕ) (s : System) → n ≤ s.listener.created → Served s (λ j. j < n)
  serve_sessions zero s le = record {
    after = s;
    steps = done s;
    same = refl;
    doomed = λ j h. h;
    idle = λ j which. elim which [ inl idle ↦ idle | inr lt ↦ absurd (omega arith) ];
  }
  serve_sessions (suc n) s le =
      let first = serve_sessions n s (omega arith) in
      let last =
        serve_session (first.after.inbox n) first.after n
          (subst (λ (l : Listener). n < l.created) (sym first.same) le) refl in
      record {
        after = last.after;
        steps = both first.steps last.steps;
        same = last.same ∙ first.same;
        doomed = λ j h. last.doomed j (first.doomed j h);
        idle = λ j which. last.idle j (next_idle n j first which);
      }
