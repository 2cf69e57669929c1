-- ===== src/Service/Strand.antt =====
-- What the listener's strand makes of the process's calls: the callback is set once, and a shutdown
-- that is asked for is run.
use ecommerce_platform.Prelude.{
  ◌≡◌, refl, ap, subst, inl, inr, ◌⊎◌, Bool, true, false, List, [], ◌∷◌, ◌++◌, arith, ℕ, some,
}
use ecommerce_platform.Server.Listener.{
  Listener, notify_if_drained, request_shutdown, force_queued, set_on_shutdown_complete,
  on_session_closed, create_session, handle_accepted_socket, on_accept,
}
use ecommerce_platform.Server.Listener.Callback.{Promised, set-Promised, Step-Promised}
use ecommerce_platform.Server.Listener.Shutdown
use ecommerce_platform.Server.Listener.Shutdown.{is_valid, set_valid, Step-valid, completed_accept}
use ecommerce_platform.Service.{
  Call, ask_shutdown, ask_force, ask_notice, k_server_config, stop_callback, serve_queued,
  serve_call, serve_call-some,
}
use ecommerce_platform.Service.Shutdown.{asks}

-- No callback is set any more.
unfoldable pub no_notice : List Call → Bool
no_notice [] = true
no_notice (ask_notice callback ∷ cs) = false
no_notice (ask_shutdown ∷ cs) = no_notice cs
no_notice (ask_force ∷ cs) = no_notice cs

-- The callback of main is the first thing that the strand runs, or the listener has it.
pub data Phase : List Call → Listener → Type 0 where
  unset_ :
      (cs rest : List Call) (l : Listener)
      → cs ≡ ask_notice stop_callback ∷ rest
      → no_notice rest ≡ true
      → is_valid k_server_config l ≡ true
      → l.shutting_down ≡ false
      → l.shutdown_notified ≡ false
      → Phase cs l
  set_ :
      (cs : List Call) (l : Listener)
      → no_notice cs ≡ true
      → is_valid k_server_config l ≡ true
      → Promised stop_callback l
      → Phase cs l

pub asks_last : (cs : List Call) (c : Call) → asks (c ∷ []) ≡ true → asks (cs ++ c ∷ []) ≡ true
unfolding asks
asks_last [] c h = h
asks_last (ask_notice callback ∷ cs) c h = asks_last cs c h
asks_last (ask_shutdown ∷ cs) c h = refl
asks_last (ask_force ∷ cs) c h = refl

no_notice_last :
    (cs : List Call) (c : Call)
    → no_notice (c ∷ []) ≡ true
    → no_notice cs ≡ true
    → no_notice (cs ++ c ∷ []) ≡ true
unfolding no_notice
no_notice_last [] c h n = h
no_notice_last (ask_notice callback ∷ cs) c h n = cc n
no_notice_last (ask_shutdown ∷ cs) c h n = no_notice_last cs c h n
no_notice_last (ask_force ∷ cs) c h n = no_notice_last cs c h n

pub pushed-Phase :
    (cs : List Call) (l : Listener) (c : Call)
    → no_notice (c ∷ []) ≡ true
    → Phase cs l
    → Phase (cs ++ c ∷ []) l
pushed-Phase _ _ c h (unset_ cs rest l e n v o m) =
    unset_ _ (rest ++ c ∷ []) l (ap (λ (cs : List Call). cs ++ c ∷ []) e)
      (no_notice_last rest c h n) v o m
pushed-Phase _ _ c h (set_ cs l n v p) = set_ _ l (no_notice_last cs c h n) v p

-- A call other than the setting of a callback is a step of the listener.
served-Step :
    (c : Call) (cs : List Call) (l : Listener) (at_once : ℕ → Bool)
    → serve_call at_once c l ≡ some (serve_queued c l)
    → no_notice (c ∷ cs) ≡ true
    → Shutdown.Step k_server_config l (serve_queued c l) × no_notice cs ≡ true
unfolding no_notice serve_queued
served-Step ask_shutdown cs l at_once d n = (Shutdown.is_asked_to_stop l, n)
served-Step ask_force cs l at_once d n =
    (Shutdown.is_forced_to_stop l at_once (serve_call-some at_once l _ d), n)
served-Step (ask_notice callback) cs l at_once d n = cc n

pub served-Phase :
    (c : Call) (cs rest : List Call) (l : Listener) (at_once : ℕ → Bool)
    → serve_call at_once c l ≡ some (serve_queued c l)
    → cs ≡ c ∷ rest
    → Phase cs l
    → Phase rest (serve_queued c l)
unfolding serve_queued
served-Phase c _ rest' _ at_once d e (unset_ cs rest l e' n v o m) =
    let head : c ≡ ask_notice stop_callback = cc (e, e') in
    let tail : rest' ≡ rest = cc (e, e') in
    rw (head, tail)
      (set_ rest _ n (set_valid k_server_config (some stop_callback) l v)
        (set-Promised k_server_config l v m))
served-Phase c _ rest _ at_once d e (set_ cs l n v p) =
    let (s, n') = served-Step c rest l at_once d (subst (λ cs. no_notice cs ≡ true) e n) in
    set_ rest _ n' (Step-valid k_server_config s v) (Step-Promised s p)

-- A step of the listener that is not a shutdown.
pub moved-Phase :
    (cs : List Call) (k l : Listener)
    → Shutdown.Step k_server_config k l
    → (k.shutting_down ≡ false
        → k.shutdown_notified ≡ false
        → (l.shutting_down ≡ false) × (l.shutdown_notified ≡ false))
    → Phase cs k
    → Phase cs l
moved-Phase _ _ l s keeps (unset_ cs rest k e n v o m) =
    let (o', m') = keeps o m in unset_ cs rest l e n (Step-valid k_server_config s v) o' m'
moved-Phase _ _ l s keeps (set_ cs k n v p) =
    set_ cs l n (Step-valid k_server_config s v) (Step-Promised s p)

pub accepts_open :
    (ok : Bool) (l : Listener)
    → l.shutting_down ≡ false
    → l.shutdown_notified ≡ false
    → ((on_accept k_server_config ok (completed_accept l)).0.shutting_down ≡ false)
      × ((on_accept k_server_config ok (completed_accept l)).0.shutdown_notified ≡ false)
unfolding on_accept handle_accepted_socket create_session
accepts_open ok l o m = (ground arith, ground arith)

pub loses_open :
    (session : ℕ) (l : Listener)
    → l.shutting_down ≡ false
    → l.shutdown_notified ≡ false
    → ((on_session_closed session l).shutting_down ≡ false)
      × ((on_session_closed session l).shutdown_notified ≡ false)
unfolding on_session_closed notify_if_drained
loses_open session l o m = (ground arith, ground arith)

pub served_shuts :
    (c : Call) (cs : List Call) (l : Listener)
    → (asks (c ∷ cs) ≡ true) ⊎ (l.shutting_down ≡ true)
    → (asks cs ≡ true) ⊎ ((serve_queued c l).shutting_down ≡ true)
unfolding asks serve_queued request_shutdown force_queued set_on_shutdown_complete notify_if_drained
served_shuts ask_shutdown cs l h = inr ground arith
served_shuts ask_force cs l h = inr ground arith
served_shuts (ask_notice callback) cs l (inl h) = inl h
served_shuts (ask_notice callback) cs l (inr h) = inr ground arith

pub accepts_shut :
    (ok : Bool) (l : Listener)
    → l.shutting_down ≡ true
    → (on_accept k_server_config ok (completed_accept l)).0.shutting_down ≡ true
unfolding on_accept handle_accepted_socket create_session
accepts_shut ok l h = ground arith

pub loses_shut :
    (session : ℕ) (l : Listener)
    → l.shutting_down ≡ true
    → (on_session_closed session l).shutting_down ≡ true
unfolding on_session_closed notify_if_drained
loses_shut session l h = ground arith
