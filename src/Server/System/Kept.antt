-- ===== src/Server/System/Kept.antt =====
-- Which sessions the listener keeps: those that are not closed, and those whose end it has not heard
-- of yet.
use ecommerce_platform.Prelude.{
  ℕ, ◌+◌, ◌≤◌, ◌<◌, ◌≡◌, sym, ap, ◌∙◌, true, false, not, ◌&&◌, ◌||◌, List, [], ◌∷◌, ◌++◌, ◌==◌,
  ==_iff, ltb, if◌then◌else◌, arith, Bool-cases, inl, inr,
}
use ecommerce_platform.Server.Listener.{Listener, Message, erase}
use ecommerce_platform.Server.Session.{Session}
use ecommerce_platform.Server.System.Numbers.{count, has, has-append, has-erase, count-append}
use ecommerce_platform.Server.System.{System, put_at, closed_by, becomes}

-- The listener keeps a session exactly if it was made, and is not closed or its end waits to be
-- heard of. An end is reported once at most.
pub record IsKept (s : System) (i : ℕ) : Type 0 where
  pub known :
      has i s.listener.sessions
      ≡ (ltb i s.listener.created && (((s.sessions i).closes == 0) || ltb 0 (count i s.closed)))
  pub few : count i s.closed ≤ (s.sessions i).closes

-- The listener's strand has changed neither its sessions nor their number.
pub same-IsKept :
    (s : System) (l : Listener) (inbox : ℕ → List Message) (i : ℕ)
    → l.created ≡ s.listener.created
    → l.sessions ≡ s.listener.sessions
    → IsKept s i
    → IsKept (record s { listener = l; inbox = inbox }) i
same-IsKept s l inbox i made kept h = record {
  known =
      ap (has i) kept
      ∙ h.known
      ∙ ap (λ c. ltb i c && (((s.sessions i).closes == 0) || ltb 0 (count i s.closed))) (sym made);
  few = h.few;
}

pub more-IsKept :
    (s : System) (l : Listener) (inbox : ℕ → List Message) (i : ℕ)
    → l.created ≡ s.listener.created + 1
    → l.sessions ≡ s.listener.sessions ++ s.listener.created ∷ []
    → (s.listener.created ≤ i → (s.sessions i).closes ≡ 0)
    → IsKept s i
    → IsKept (record s { listener = l; inbox = inbox }) i
more-IsKept s l inbox i made kept fresh h = record {
  known = ap (has i) kept ∙ has-append i s.listener.sessions (s.listener.created ∷ []) ∙ grows;
  few = h.few;
}
  where
    grows :
        (has i s.listener.sessions || (s.listener.created == i || false))
        ≡ (ltb i l.created && (((s.sessions i).closes == 0) || ltb 0 (count i s.closed)))
    grows = let k = h.known in ground (arith, fresh)

-- The listener has heard of an end.
pub forgotten-IsKept :
    (s : System) (l : Listener) (k i : ℕ) (rest : List ℕ)
    → l.created ≡ s.listener.created
    → l.sessions ≡ erase k s.listener.sessions
    → s.closed ≡ k ∷ rest
    → (s.sessions i).closes ≤ 1
    → IsKept s i
    → IsKept (record s { listener = l; closed = rest }) i
forgotten-IsKept s l k i rest made kept e once h = record {
  known = ap (has i) kept ∙ has-erase i k s.listener.sessions ∙ shrinks;
  few = fewer;
}
  where
    counted : count i s.closed ≡ (if k == i then 1 else 0) + count i rest
    counted = ap (count i) e

    shrinks :
        (not (k == i) && has i s.listener.sessions)
        ≡ (ltb i l.created && (((s.sessions i).closes == 0) || ltb 0 (count i rest)))
    shrinks = let k = h.known in let f = h.few in ground (arith, counted)

    fewer : count i rest ≤ (s.sessions i).closes
    fewer = let f = h.few in ground (arith, counted)

-- The strand of a session has run a handler.
pub changed-IsKept :
    (s : System) (k i : ℕ) (t : Session) (inbox : ℕ → List Message)
    → k < s.listener.created
    → (s.sessions k).closes ≤ t.closes
    → t.closes ≤ 1
    → IsKept s i
    → IsKept (record (becomes s k t) { inbox = inbox }) i
changed-IsKept s k i t inbox lt more once h = elim (Bool-cases (k == i)) [
  | inl same ↦
      let e : (s.sessions k).closes ≡ (s.sessions i).closes =
        ap (λ j. (s.sessions j).closes) ((==_iff k i).0 same) in
      record { known = known_same same e; few = few_same same e }
  | inr other ↦ record { known = known_other other; few = few_other other }
]
  where
    counted :
        count i (s.closed ++ closed_by k (s.sessions k) t)
        ≡ count i s.closed
          + (if t.closes == (s.sessions k).closes then 0 else if k == i then 1 else 0)
    counted = count-append i s.closed (closed_by k (s.sessions k) t) ∙ ground arith

    known_same :
        (k == i) ≡ true
        → (s.sessions k).closes ≡ (s.sessions i).closes
        → has i s.listener.sessions ≡ (
            ltb i s.listener.created
            && (((put_at s.sessions k t i).closes == 0)
                || ltb 0 (count i (s.closed ++ closed_by k (s.sessions k) t))))
    known_same same e = let g = h.known in let f = h.few in rw (same, counted) (ground arith)

    few_same :
        (k == i) ≡ true
        → (s.sessions k).closes ≡ (s.sessions i).closes
        → count i (s.closed ++ closed_by k (s.sessions k) t) ≤ (put_at s.sessions k t i).closes
    few_same same e = let f = h.few in rw (same, counted) (ground arith)

    known_other :
        (k == i) ≡ false
        → has i s.listener.sessions ≡ (
            ltb i s.listener.created
            && (((put_at s.sessions k t i).closes == 0)
                || ltb 0 (count i (s.closed ++ closed_by k (s.sessions k) t))))
    known_other other = let g = h.known in rw (other, counted) (ground arith)

    few_other :
        (k == i) ≡ false
        → count i (s.closed ++ closed_by k (s.sessions k) t) ≤ (put_at s.sessions k t i).closes
    few_other other = let f = h.few in rw (other, counted) (ground arith)
