-- ===== src/Server/Session/Draining.antt =====
-- A session that was closed by force comes to rest.
use ecommerce_platform.Prelude.{
  ℕ, ◌+◌, ◌-◌, ◌≤◌, ◌≡◌, refl, inl, inr, true, false, arith, if◌then◌else◌, Bool-cases,
}
use ecommerce_platform.Http.Error.{Outcome, returns}
use ecommerce_platform.Http.Json.{JsonLibrary}
use ecommerce_platform.Http.Message.{Request, Response}
use ecommerce_platform.Server.Session.{
  SessionConfig, ErrorCode, k_closed, disconnected, Pending, not_started, nothing, reading, writing,
  Session, request_close, close, force_close, completed, do_read, run, do_write, handle_read_error,
  write_failed, write_sent,
}
use ecommerce_platform.Server.Session.Bound.{is_valid, agrees, Reachable-valid}
use ecommerce_platform.Server.Session.Steps.{
  Step, runs, is_asked_to_close, is_forced_to_close, fails_to_read, reads, fails_to_write, writes,
  Steps, done, next, Reachable, failed_lem, handled_lem,
}

-- How many operations can still complete once the socket is closed all the way: those that begin now
-- fail, but a write that is under way can still succeed and be followed by a read.
unfoldable pub load : Pending → ℕ
load not_started = 3
load nothing = 0
load (reading was_open) = 2
load (writing was_open res) = if was_open then 3 else 1

module _ (lib : JsonLibrary) (handler : Request → Outcome Response) (config : SessionConfig) where
  -- The operations of the session among the steps: its start and the completions, but not the calls
  -- from outside.
  unfoldable pub operation : {s t : Session} → Step lib handler config s t → ℕ
  operation (is_asked_to_close s) = 0
  operation (is_forced_to_close s) = 0
  operation (runs s p) = 1
  operation (fails_to_read s t was_open ec p e) = 1
  operation (reads s t req p e) = 1
  operation (fails_to_write s was_open res p) = 1
  operation (writes s res p) = 1

  unfoldable pub operations : {s t : Session} → Steps lib handler config s t → ℕ
  operations (done s) = 0
  operations (next p ps) = operation p + operations ps

record Dead (m : ℕ) (s : Session) : Type 0 where
  closed : s.state ≡ k_closed
  cut : s.socket ≡ disconnected
  few : load s.pending ≤ m

module _ (lib : JsonLibrary) (handler : Request → Outcome Response) (config : SessionConfig) where
  do_write-Dead :
      (m : ℕ) (res : Response) (s : Session)
      → s.state ≡ k_closed
      → s.socket ≡ disconnected
      → Dead (m + 1) (do_write lib handler config res s)
  unfolding do_write request_close load
  do_write-Dead m res s c d = record {
    closed = ground arith;
    cut = ground arith;
    few = ground arith;
  }

  close-Dead :
      (m : ℕ) (s : Session)
      → s.state ≡ k_closed
      → s.socket ≡ disconnected
      → Dead m (close false (completed s))
  unfolding close load
  close-Dead m s c d = record { closed = ground arith; cut = ground arith; few = ground arith }

  do_read-Dead :
      (m : ℕ) (s : Session)
      → s.state ≡ k_closed
      → s.socket ≡ disconnected
      → Dead (m + 2) (do_read lib handler config (completed s))
  unfolding do_read load
  do_read-Dead m s c d = record { closed = c; cut = d; few = omega arith }

  weaken : {k m : ℕ} {s : Session} → k ≤ m → Dead k s → Dead m s
  weaken h d = record { closed = d.closed; cut = d.cut; few = let f = d.few in omega arith }

  asked-Dead : (m : ℕ) (s : Session) → Dead m s → Dead m (request_close s)
  unfolding request_close load
  asked-Dead m s d =
      let c = d.closed in
      let u = d.cut in
      let f = d.few in record { closed = ground arith; cut = ground arith; few = ground arith }

  forced-Dead : (m : ℕ) (s : Session) → Dead m s → Dead m (force_close s)
  unfolding force_close close load
  forced-Dead m s d =
      let c = d.closed in
      let u = d.cut in
      let f = d.few in record { closed = ground arith; cut = ground arith; few = ground arith }

  -- What the pending operation adds to the load.
  load_at : {m n : ℕ} (p : Pending) {s : Session} → Dead m s → s.pending ≡ p → load p ≡ n → n ≤ m
  load_at p d e l = let f = d.few in ground arith

  failed-Dead :
      (m : ℕ) (ec : ErrorCode) (s t : Session)
      → s.state ≡ k_closed
      → s.socket ≡ disconnected
      → handle_read_error lib handler config ec (completed s) ≡ returns t
      → Dead (m + 1) t
  failed-Dead m ec s t c d e = elim (failed_lem lib handler config ec (completed s) t e) [
    | inl same ↦ rw same (close-Dead (m + 1) s c d)
    | inr (res, same) ↦ rw same (do_write-Dead m _ (completed s) c d)
  ]

  sent-Dead :
      (m : ℕ) (res : Response) (s : Session)
      → s.state ≡ k_closed
      → s.socket ≡ disconnected
      → Dead (m + 2) (write_sent lib handler config res (completed s))
  unfolding write_sent
  sent-Dead m res s c d = elim (Bool-cases res.keep_alive) [
    | inl kept ↦ rw kept (do_read-Dead m s c d)
    | inr ended ↦ rw ended (close-Dead (m + 2) s c d)
  ]

  Step-Dead :
      {m : ℕ} {s t : Session} (p : Step lib handler config s t)
      → Dead m s
      → (k : ℕ) × (operation lib handler config p + k ≡ m) × Dead k t
  unfolding operation run write_failed load
  Step-Dead {m} (is_asked_to_close s) d = (m, omega arith, asked-Dead m s d)
  Step-Dead {m} (is_forced_to_close s) d = (m, omega arith, forced-Dead m s d)
  Step-Dead {m} (runs s p) d =
      let l = load_at {n = 3} not_started d p refl in
      (m - 1, omega arith, weaken (omega arith) (do_read-Dead (m - 3) s d.closed d.cut))
  Step-Dead {m} (fails_to_read s t b ec p e) d =
      let l = load_at {n = 2} (reading b) d p refl in
      (m - 1, omega arith, weaken (omega arith) (failed-Dead 0 ec s t d.closed d.cut e))
  Step-Dead {m} (reads s t req p e) d =
      let l = load_at {n = 2} (reading true) d p refl in
      let (res, answered, same) = handled_lem lib handler config req (completed s) t e in
      (m - 1, omega arith, rw same (weaken (omega arith) (do_write-Dead 0 res _ d.closed d.cut)))
  Step-Dead {m} (fails_to_write s b res p) d =
      let l = load_at (writing b res) d p refl in
      (m - 1, ground arith, close-Dead (m - 1) s d.closed d.cut)
  Step-Dead {m} (writes s res p) d =
      let l = load_at {n = 3} (writing true res) d p refl in
      (m - 1, omega arith, weaken (omega arith) (sent-Dead 0 res s d.closed d.cut))

  Steps-Dead :
      {s t : Session} (ps : Steps lib handler config s t) (m : ℕ)
      → Dead m s
      → operations lib handler config ps ≤ m
  unfolding operations
  Steps-Dead (done s) m d = omega arith
  Steps-Dead (next p ps) m d =
      let (k, e, f) = Step-Dead p d in let ih = Steps-Dead ps k f in omega arith

  cut_closed : (s : Session) → is_valid config s ≡ true → s.socket ≡ disconnected → Dead 3 s
  unfolding is_valid agrees load
  cut_closed s h d = record { closed = ground arith; cut = d; few = ground arith }

  -- Once a session was closed by force, at most three more of its operations complete, whatever is
  -- called from outside and whatever the network does: it comes to rest.
  pub forced_rests :
      (s t : Session)
      → Reachable lib handler config s
      → s.socket ≡ disconnected
      → (ps : Steps lib handler config s t) → operations lib handler config ps ≤ 3
  forced_rests s t r d ps = Steps-Dead ps 3 (cut_closed s (Reachable-valid lib handler config r) d)
