-- ===== src/Http/Verb.antt =====
-- http::verb: the enumerators that the repository names, and any other one by its number.
use ecommerce_platform.Prelude.{ℕ, ◌≡◌, ◌↔◌, Bool, true, false, arith, ◌==◌, Eq}

pub data Verb : Type 0 where
  get post put delete_ : Verb
  other_verb : ℕ → Verb

unfoldable pub verb_eq : Verb → Verb → Bool
verb_eq get get = true
verb_eq post post = true
verb_eq put put = true
verb_eq delete_ delete_ = true
verb_eq (other_verb n) (other_verb m) = n == m
verb_eq _ _ = false

pub verb_eq_iff : (v w : Verb) → (verb_eq v w ≡ true) ↔ (v ≡ w)
unfolding verb_eq
verb_eq_iff get w = ground arith
verb_eq_iff v w = ground arith

instance abbrev pub Verb-eq : Eq Verb
Verb-eq = record { beq = verb_eq; beq_iff = verb_eq_iff }
