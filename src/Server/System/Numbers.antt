-- ===== src/Server/System/Numbers.antt =====
-- Lists of sessions' numbers: which are in them, and how often.
use ecommerce_platform.Prelude.{
  ℕ, ◌+◌, ◌≤◌, ◌<◌, ◌≡◌, refl, Bool, true, false, not, ◌&&◌, ◌||◌, List, [], ◌∷◌, ◌++◌, ◌==◌, ltb,
  if◌then◌else◌, arith, length,
}
use ecommerce_platform.Server.Listener.{erase}

abbrev pub count : ℕ → List ℕ → ℕ
count i [] = 0
count i (j ∷ js) = (if j == i then 1 else 0) + count i js

abbrev pub has : ℕ → List ℕ → Bool
has i [] = false
has i (j ∷ js) = j == i || has i js

pub has-append : (i : ℕ) (xs ys : List ℕ) → has i (xs ++ ys) ≡ (has i xs || has i ys)
has-append i [] ys = refl
has-append i (x ∷ xs) ys = ground (arith, has-append i xs ys)

pub has-erase : (i j : ℕ) (xs : List ℕ) → has i (erase j xs) ≡ (not (j == i) && has i xs)
unfolding erase
has-erase i j [] = ground arith
has-erase i j (x ∷ xs) = ground (arith, has-erase i j xs)

pub count-append : (i : ℕ) (xs ys : List ℕ) → count i (xs ++ ys) ≡ count i xs + count i ys
count-append i [] ys = omega arith
count-append i (x ∷ xs) ys = ground (arith, count-append i xs ys)

-- Each number once.
abbrev pub AreDistinct : List ℕ → Type 0
AreDistinct [] = Unit
AreDistinct (i ∷ is) = (has i is ≡ false) × AreDistinct is

abbrev pub are_in : List ℕ → List ℕ → Bool
are_in [] ys = true
are_in (x ∷ xs) ys = has x ys && are_in xs ys

erase_le : (x : ℕ) (ys : List ℕ) → length (erase x ys) ≤ length ys
unfolding erase
erase_le x [] = omega arith
erase_le x (y ∷ ys) = ground (arith, erase_le x ys)

erase_lt : (x : ℕ) (ys : List ℕ) → has x ys ≡ true → length (erase x ys) < length ys
unfolding erase
erase_lt x [] h = cc h
erase_lt x (y ∷ ys) h = ground (arith, erase_lt x ys, erase_le x ys)

are_in-erase :
    (x : ℕ) (xs ys : List ℕ)
    → has x xs ≡ false
    → are_in xs ys ≡ true
    → are_in xs (erase x ys) ≡ true
are_in-erase x [] ys h e = refl
are_in-erase x (z ∷ zs) ys h e = ground (arith, has-erase z x ys, are_in-erase x zs ys)

-- Distinct numbers of a list are no more than the list.
pub distinct_le : (xs ys : List ℕ) → AreDistinct xs → are_in xs ys ≡ true → length xs ≤ length ys
distinct_le [] ys d e = omega arith
distinct_le (x ∷ xs) ys d e =
    ground (arith, erase_lt x ys, are_in-erase x xs ys, distinct_le xs (erase x ys) d.1)

pub count-has : (i : ℕ) (xs : List ℕ) → ltb 0 (count i xs) ≡ has i xs
count-has i [] = ground arith
count-has i (x ∷ xs) = ground (arith, count-has i xs)

pub none_in : (xs : List ℕ) → ((i : ℕ) → ¬ (has i xs ≡ true)) → xs ≡ []
none_in [] h = refl
none_in (x ∷ xs) h = absurd (h x (ground arith))
