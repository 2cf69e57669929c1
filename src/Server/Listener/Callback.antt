-- ===== src/Server/Listener/Callback.antt =====
-- Who is told that the shutdown is complete: the callback that was set before, and it once.
use ecommerce_platform.Prelude.{ℕ, ◌≡◌, refl, subst, Bool, true, false, List, [], ◌∷◌, some, arith}
use ecommerce_platform.Server.Listener.{
  HttpServerConfig, Listener, notify_if_drained, request_shutdown, force_queued,
  set_on_shutdown_complete, erase, on_session_closed, create_session, handle_accepted_socket,
  do_accept, on_accept,
}
use ecommerce_platform.Server.Listener.Shutdown.{
  Step, starts, accepts, is_asked_to_stop, is_forced_to_stop, loses, completed_accept, Steps, done,
  next, Changes, same, step, set, Reachable, is_valid, Steps-valid, Reachable-valid, set_valid,
}

-- The callback stands ready, or it was posted and nothing else was.
pub record Promised (callback : ℕ) (l : Listener) : Type 0 where
  pub before :
      l.shutdown_notified ≡ false → (l.on_shutdown_complete ≡ some callback) × (l.posted ≡ [])
  pub after : l.shutdown_notified ≡ true → l.posted ≡ callback ∷ []

module _ {callback : ℕ} where
  notify-Promised : (l : Listener) → Promised callback l → Promised callback (notify_if_drained l)
  unfolding notify_if_drained
  notify-Promised l p =
      let b = p.before in let a = p.after in record { before = ground arith; after = ground arith }

  request_shutdown-Promised :
      (l : Listener) → Promised callback l → Promised callback (request_shutdown l).0
  unfolding request_shutdown notify_if_drained
  request_shutdown-Promised l p =
      let b = p.before in let a = p.after in record { before = ground arith; after = ground arith }

  force_queued-Promised :
      (l : Listener) → Promised callback l → Promised callback (force_queued l).0
  unfolding force_queued notify_if_drained
  force_queued-Promised l p =
      let b = p.before in let a = p.after in record { before = ground arith; after = ground arith }

  on_accept-Promised :
      (config : HttpServerConfig) (ok : Bool) (l : Listener)
      → Promised callback l
      → Promised callback (on_accept config ok l).0
  unfolding on_accept handle_accepted_socket create_session
  on_accept-Promised config ok l p =
      let b = p.before in let a = p.after in record { before = ground arith; after = ground arith }

  on_session_closed-Promised :
      (session : ℕ) (l : Listener)
      → Promised callback l
      → Promised callback (on_session_closed session l)
  unfolding on_session_closed
  on_session_closed-Promised session l p =
      notify-Promised (record l { sessions = erase session l.sessions })
        (record { before = p.before; after = p.after })

  pub Step-Promised :
      {config : HttpServerConfig} {k l : Listener}
      → Step config k l
      → Promised callback k
      → Promised callback l
  unfolding do_accept
  Step-Promised (starts l) p = record { before = p.before; after = p.after }
  Step-Promised {config} (accepts l ok a) p =
      on_accept-Promised config ok (completed_accept l)
        (record { before = p.before; after = p.after })
  Step-Promised (is_asked_to_stop l) p = request_shutdown-Promised l p
  Step-Promised (is_forced_to_stop l at_once d) p = force_queued-Promised l p
  Step-Promised (loses l session) p = on_session_closed-Promised session l p

  Steps-Promised :
      {config : HttpServerConfig} {k l : Listener}
      → Steps config k l
      → Promised callback k
      → Promised callback l
  Steps-Promised (done l) p = p
  Steps-Promised (next s ss) p = Steps-Promised ss (Step-Promised s p)

  pub set-Promised :
      (config : HttpServerConfig) (k : Listener)
      → is_valid config k ≡ true
      → k.shutdown_notified ≡ false
      → Promised callback (set_on_shutdown_complete (some callback) k)
  unfolding set_on_shutdown_complete is_valid
  set-Promised config k h n =
      notify-Promised (record k { on_shutdown_complete = some callback })
        (record { before = λ e. (refl, nothing_posted k h n); after = λ e. cc })
    where
      nothing_posted :
          (k : Listener) → is_valid config k ≡ true → k.shutdown_notified ≡ false → k.posted ≡ []
      nothing_posted k h n = ground arith

pub drained_notified :
    (config : HttpServerConfig) (l : Listener)
    → is_valid config l ≡ true
    → l.shutting_down ≡ true
    → l.sessions ≡ []
    → l.shutdown_notified ≡ true
unfolding is_valid
drained_notified config l h down empty = ground arith

module _ (config : HttpServerConfig) where
  -- A callback that is set before the listener has notified, and is not replaced, is posted as soon as
  -- the listener shuts down and has no session left: then it was posted once, and nothing else was.
  pub callback_is_posted :
      (callback : ℕ) (k l : Listener)
      → Reachable config k
      → k.shutdown_notified ≡ false
      → Steps config (set_on_shutdown_complete (some callback) k) l
      → l.shutting_down ≡ true
      → l.sessions ≡ []
      → l.posted ≡ callback ∷ []
  callback_is_posted callback k l r n ss down empty =
      let valid =
        Steps-valid config ss (set_valid config (some callback) k (Reachable-valid config r)) in
      (Steps-Promised ss (set-Promised config k (Reachable-valid config r) n)).after
        (drained_notified config l valid down empty)

-- A listener that has notified, with what it has posted.
record Final (posted : List ℕ) (l : Listener) : Type 0 where
  notified : l.shutdown_notified ≡ true
  unchanged : l.posted ≡ posted

notify-Final :
    {posted : List ℕ} (l : Listener) → Final posted l → Final posted (notify_if_drained l)
unfolding notify_if_drained
notify-Final l f =
    let n = f.notified in
    let u = f.unchanged in record { notified = ground arith; unchanged = ground arith }

module _ {config : HttpServerConfig} {posted : List ℕ} where
  Step-Final : {k l : Listener} → Step config k l → Final posted k → Final posted l
  unfolding do_accept on_accept handle_accepted_socket create_session request_shutdown force_queued
      on_session_closed notify_if_drained
  Step-Final (starts l) f = record { notified = f.notified; unchanged = f.unchanged }
  Step-Final (accepts l ok a) f =
      let n = f.notified in
      let u = f.unchanged in record { notified = ground arith; unchanged = ground arith }
  Step-Final (is_asked_to_stop l) f =
      let n = f.notified in
      let u = f.unchanged in record { notified = ground arith; unchanged = ground arith }
  Step-Final (is_forced_to_stop l at_once d) f =
      let n = f.notified in
      let u = f.unchanged in record { notified = ground arith; unchanged = ground arith }
  Step-Final (loses l session) f =
      let n = f.notified in
      let u = f.unchanged in record { notified = ground arith; unchanged = ground arith }

  Changes-Final : {k l : Listener} → Changes config k l → Final posted k → Final posted l
  unfolding set_on_shutdown_complete
  Changes-Final (same l) f = f
  Changes-Final (step s ss) f = Changes-Final ss (Step-Final s f)
  Changes-Final (set k callback e ss) f = Changes-Final ss (
      subst (Final posted) e (
        notify-Final (record k { on_shutdown_complete = callback })
          (record { notified = f.notified; unchanged = f.unchanged })))

-- Once the listener has notified, nothing is posted any more: a callback that is set after that is
-- never called.
pub notified_is_final :
    (config : HttpServerConfig) (k l : Listener)
    → k.shutdown_notified ≡ true
    → Changes config k l
    → l.posted ≡ k.posted
notified_is_final config k l n ss =
    (Changes-Final ss (record { notified = n; unchanged = refl })).unchanged
