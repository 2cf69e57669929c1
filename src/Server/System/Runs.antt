-- ===== src/Server/System/Runs.antt =====
-- How many times the messages of a queue run a session, and which sessions have run.
use ecommerce_platform.Prelude.{
  ℕ, suc, ◌+◌, ◌≡◌, refl, sym, ap, subst, ◌∙◌, Bool, true, false, List, [], ◌∷◌, ◌++◌, ◌==◌, ==_iff,
  if◌then◌else◌, arith, Bool-cases, inl, inr, map,
}
use ecommerce_platform.Http.Error.{Outcome}
use ecommerce_platform.Http.Json.{JsonLibrary}
use ecommerce_platform.Http.Message.{Request, Response}
use ecommerce_platform.Server.Listener
use ecommerce_platform.Server.Listener.{
  HttpServerConfig, build_session_config, Listener, Message, create_session, handle_accepted_socket,
  on_accept, do_accept, request_shutdown, force_queued, set_on_shutdown_complete, on_session_closed,
  notify_if_drained,
}
use ecommerce_platform.Server.Session.{
  Session, Pending, not_started, nothing, reading, writing, do_read, do_write, close, request_close,
  completed, write_failed, write_sent,
}
use ecommerce_platform.Server.Session.Steps
use ecommerce_platform.Server.Session.Steps.{failed_lem, handled_lem}
use ecommerce_platform.Server.System.{put_at, deliver, is_completion}

-- How many of the messages are Run.
abbrev pub runs : List Message → ℕ
runs [] = 0
runs (Listener.run i ∷ ms) = suc (runs ms)
runs (Listener.request_close i ∷ ms) = runs ms
runs (Listener.force_close i ∷ ms) = runs ms

runs-append : (ms ns : List Message) → runs (ms ++ ns) ≡ runs ms + runs ns
runs-append [] ns = omega arith
runs-append (Listener.run i ∷ ms) ns = omega (arith, runs-append ms ns)
runs-append (Listener.request_close i ∷ ms) ns = runs-append ms ns
runs-append (Listener.force_close i ∷ ms) ns = runs-append ms ns

-- A queue that a message is put into.
pub runs-put :
    (inbox : ℕ → List Message) (m : Message) (j i : ℕ)
    → runs (put_at inbox j (inbox j ++ m ∷ []) i)
      ≡ runs (inbox i) + (if j == i then runs (m ∷ []) else 0)
runs-put inbox m j i = elim (Bool-cases (j == i)) [
  | inl same ↦ let e : j ≡ i = (==_iff j i).0 same in rw (same, e) (runs-append (inbox i) (m ∷ []))
  | inr other ↦ rw other (omega arith)
]

-- Messages that do not run a session.
pub runs-deliver :
    (messages : List Message) (inbox : ℕ → List Message) (i : ℕ)
    → runs messages ≡ 0
    → runs (deliver messages inbox i) ≡ runs (inbox i)
unfolding deliver
runs-deliver [] inbox i h = refl
runs-deliver (Listener.run j ∷ ms) inbox i h = absurd (omega arith)
runs-deliver (Listener.request_close j ∷ ms) inbox i h = ground (
  arith,
  runs-deliver ms (put_at inbox j (inbox j ++ Listener.request_close j ∷ [])) i h,
  runs-put inbox (Listener.request_close j) j i,
)
runs-deliver (Listener.force_close j ∷ ms) inbox i h = ground (
  arith,
  runs-deliver ms (put_at inbox j (inbox j ++ Listener.force_close j ∷ [])) i h,
  runs-put inbox (Listener.force_close j) j i,
)

runs-map :
    (m : ℕ → Message) (is : List ℕ)
    → ((i : ℕ) (ms : List Message) → runs (m i ∷ ms) ≡ runs ms)
    → runs (map m is) ≡ 0
runs-map m [] h = refl
runs-map m (i ∷ is) h = h i (map m is) ∙ runs-map m is h

abbrev pub is_unstarted : Pending → Bool
is_unstarted not_started = true
is_unstarted nothing = false
is_unstarted (reading was_open) = false
is_unstarted (writing was_open res) = false

module _ (lib : JsonLibrary) (handler : Request → Outcome Response)
    (config : HttpServerConfig) where
  written_running :
      (res : Response) (s : Session)
      → is_unstarted (do_write lib handler (build_session_config config) res s).pending ≡ false
  unfolding do_write request_close
  written_running res s = ground arith

  closed_running :
      (force : Bool) (s : Session)
      → is_unstarted s.pending ≡ false
      → is_unstarted (close force s).pending ≡ false
  unfolding close
  closed_running force s h = ground arith

  sent_running :
      (res : Response) (s : Session)
      → is_unstarted s.pending ≡ false
      → is_unstarted (write_sent lib handler (build_session_config config) res s).pending ≡ false
  unfolding write_sent close do_read
  sent_running res s h = ground arith

  -- A completion belongs to a session that runs, and it still runs then.
  pub completion_running :
      {s t : Session} (step : Steps.Step lib handler (build_session_config config) s t)
      → is_completion lib handler config step ≡ true
      → (is_unstarted s.pending ≡ false) × (is_unstarted t.pending ≡ false)
  unfolding is_completion write_failed
  completion_running (Steps.runs s p) h = cc h
  completion_running (Steps.is_asked_to_close s) h = cc h
  completion_running (Steps.is_forced_to_close s) h = cc h
  completion_running (Steps.fails_to_read s t was_open ec p e) h = (
    ap is_unstarted p,
    elim (failed_lem lib handler (build_session_config config) ec (completed s) t e) [
      | inl closes ↦
          subst (λ (t : Session). is_unstarted t.pending ≡ false) (sym closes)
            (closed_running false (completed s) refl)
      | inr (res, writes) ↦
          subst (λ (t : Session). is_unstarted t.pending ≡ false) (sym writes) (written_running _ _)
    ],
  )
  completion_running (Steps.reads s t req p e) h =
      let (res, answers, writes) =
        handled_lem lib handler (build_session_config config) req (completed s) t e in
      (
        ap is_unstarted p,
        subst (λ (t : Session). is_unstarted t.pending ≡ false) (sym writes) (written_running _ _),
      )
  completion_running (Steps.fails_to_write s was_open res p) h =
      (ap is_unstarted p, closed_running false (completed s) refl)
  completion_running (Steps.writes s res p) h =
      (ap is_unstarted p, sent_running res (completed s) refl)

pub runs-request_shutdown : (l : Listener) → runs (request_shutdown l).1 ≡ 0
unfolding request_shutdown
runs-request_shutdown l = ground (arith, runs-map Listener.request_close l.sessions (λ i ms. refl))

pub runs-force_queued : (l : Listener) → runs (force_queued l).1 ≡ 0
unfolding force_queued
runs-force_queued l = runs-map Listener.force_close l.sessions (λ i ms. refl)
