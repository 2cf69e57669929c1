-- ===== src/Service/Graceful.antt =====
-- The graceful end: once the listener is drained, it has posted the callback that stops the process.
use ecommerce_platform.Prelude.{
  ◌≡◌, ◌<◌, refl, sym, ◌∙◌, subst, length, inl, inr, ◌⊎◌, Bool-cases, true, false, List, [], ◌∷◌,
  ◌++◌, arith, ℕ,
}
use ecommerce_platform.Server.Listener.{do_accept, Listener, on_session_closed, on_accept}
use ecommerce_platform.Server.Listener.Callback.{drained_notified}
use ecommerce_platform.Server.Listener.Shutdown
use ecommerce_platform.Server.Listener.Shutdown.{is_valid, completed_accept}
use ecommerce_platform.Service.{
  Call, ask_shutdown, ask_force, Process, set_up, armed, k_server_config, stop_callback,
  begin_shutdown, on_signal, on_shutdown_complete, on_timer,
}
use ecommerce_platform.Service.Shutdown.{asks}
use ecommerce_platform.Service.Steps.{
  Step, calls, accepts, loses, signals, elapses, fails, aborts, completes, Reachable, invariant,
}
use ecommerce_platform.Service.Strand.{
  no_notice, Phase, unset_, set_, asks_last, pushed-Phase, served-Phase, moved-Phase, accepts_open,
  loses_open, served_shuts, accepts_shut, loses_shut,
}

-- The shutdown that has begun waits for the strand, or the strand has run it.
abbrev IsTold : Process → Type 0
IsTold p = p.shutdown_started ≡ true → (asks p.calls ≡ true) ⊎ (p.listener.shutting_down ≡ true)

record IsOwed (p : Process) : Type 0 where
  phase : Phase p.calls p.listener
  told : IsTold p
  fresh : p.stopped ≡ false → p.ran ≡ 0

still-IsTold :
    (p : Process) (l : Listener)
    → (p.listener.shutting_down ≡ true → l.shutting_down ≡ true)
    → IsTold p
    → IsTold (record p { listener = l })
still-IsTold p l keeps h s = elim (h s) [ inl a ↦ inl a | inr b ↦ inr (keeps b) ]

begun_before : (p : Process) → p.shutdown_started ≡ true → begin_shutdown p ≡ p
unfolding begin_shutdown
begun_before p h = rw h

begins :
    (p : Process)
    → p.shutdown_started ≡ false
    → begin_shutdown p ≡ record p {
      shutdown_started = true;
      calls = p.calls ++ ask_shutdown ∷ [];
      timer = armed;
      expires_after = 10;
    }
unfolding begin_shutdown
begins p h = rw h

begun-IsOwed : (p : Process) → IsOwed p → IsOwed (begin_shutdown p)
unfolding asks no_notice
begun-IsOwed p h = elim (Bool-cases p.shutdown_started) [
  | inl begun ↦ subst IsOwed (sym (begun_before p begun)) h
  | inr early ↦ subst IsOwed (sym (begins p early)) (record {
    phase = pushed-Phase p.calls p.listener ask_shutdown refl h.phase;
    told = λ s. inl (asks_last p.calls ask_shutdown refl);
    fresh = h.fresh;
  })
]

Step-IsOwed : (p q : Process) → Step p q → IsOwed p → IsOwed q
unfolding on_signal on_timer on_shutdown_complete no_notice asks
Step-IsOwed _ _ (calls p call rest r c at_once d) h = record {
  phase = served-Phase call p.calls rest p.listener at_once d c h.phase;
  told = λ s.
      served_shuts call rest p.listener
        (subst (λ cs. (asks cs ≡ true) ⊎ (p.listener.shutting_down ≡ true)) c (h.told s));
  fresh = h.fresh;
}
Step-IsOwed _ _ (accepts p ok r a) h = record {
  phase =
      moved-Phase p.calls p.listener (on_accept k_server_config ok (completed_accept p.listener)).0
        (Shutdown.accepts p.listener ok a) (accepts_open ok p.listener) h.phase;
  told =
      still-IsTold p (on_accept k_server_config ok (completed_accept p.listener)).0
        (accepts_shut ok p.listener) h.told;
  fresh = h.fresh;
}
Step-IsOwed _ _ (loses p session r) h = record {
  phase =
      moved-Phase p.calls p.listener (on_session_closed session p.listener)
        (Shutdown.loses p.listener session) (loses_open session p.listener) h.phase;
  told =
      still-IsTold p (on_session_closed session p.listener) (loses_shut session p.listener) h.told;
  fresh = h.fresh;
}
Step-IsOwed _ _ (signals p true r w) h = record { phase = h.phase; told = h.told; fresh = h.fresh }
Step-IsOwed _ _ (signals p false r w) h =
    begun-IsOwed (record p { waiting = false })
      (record { phase = h.phase; told = h.told; fresh = h.fresh })
Step-IsOwed _ _ (elapses p r t) h = record {
  phase = pushed-Phase p.calls p.listener ask_force refl h.phase;
  told = λ s. inl (asks_last p.calls ask_force refl);
  fresh = λ run. cc run;
}
Step-IsOwed _ _ (fails p r t) h = record { phase = h.phase; told = h.told; fresh = h.fresh }
Step-IsOwed _ _ (aborts p r t) h = h
Step-IsOwed _ _ (completes p r c) h = record {
  phase = h.phase;
  told = h.told;
  fresh = λ run. cc run;
}

set_up-IsOwed : IsOwed set_up
unfolding no_notice is_valid do_accept
set_up-IsOwed = record {
  phase = unset_ _ [] _ refl refl refl refl refl;
  told = λ s. cc s;
  fresh = λ run. refl;
}

-- Once the strand has nothing left to run, a drained listener has posted the callback.
Phase-posted :
    (cs : List Call) (l : Listener)
    → Phase cs l
    → (asks cs ≡ true) ⊎ (l.shutting_down ≡ true)
    → cs ≡ []
    → l.sessions ≡ []
    → l.posted ≡ stop_callback ∷ []
unfolding asks
Phase-posted _ _ (unset_ cs rest l e n v o m) told none_left empty = cc (sym e ∙ none_left)
Phase-posted _ _ (set_ cs l n v p) (inl asked) none_left empty =
    cc (subst (λ cs. asks cs ≡ true) none_left asked)
Phase-posted _ _ (set_ cs l n v p) (inr down) none_left empty =
    p.after (drained_notified k_server_config l v down empty)

waits_to_run : (n : ℕ) (posted : List ℕ) → n ≡ 0 → posted ≡ stop_callback ∷ [] → n < length posted
waits_to_run n posted z e = rw (z, e) (omega arith)

module _ (p : Process) (r : Reachable p) where
  -- The one callback that was posted has not run.
  pub drained_waits :
      p.shutdown_started ≡ true
      → p.stopped ≡ false
      → p.calls ≡ []
      → p.listener.sessions ≡ []
      → (p.listener.posted ≡ stop_callback ∷ []) × (p.ran < length p.listener.posted)
  drained_waits s run none_left empty =
      let h = invariant IsOwed set_up-IsOwed Step-IsOwed p r in
      let posted = Phase-posted p.calls p.listener h.phase (h.told s) none_left empty in
      (posted, waits_to_run p.ran p.listener.posted (h.fresh run) posted)

  -- Once the shutdown has begun, the strand has run what was asked of it and the last session is
  -- closed, a process that is not stopped has its callback posted, once, and it stops the process.
  drained_stops :
      p.shutdown_started ≡ true
      → p.stopped ≡ false
      → p.calls ≡ []
      → p.listener.sessions ≡ []
      → (p.listener.posted ≡ stop_callback ∷ [])
        × Step p (on_shutdown_complete p)
        × ((on_shutdown_complete p).stopped ≡ true)
  unfolding on_shutdown_complete
  drained_stops s run none_left empty =
      let (posted, waits) = drained_waits s run none_left empty in
      (posted, completes p run waits, refl)
