-- ===== src/Routing/Paths/Reference.antt =====
-- The index loop of SplitPathView against a recursion that collects the characters between slashes.
use ecommerce_platform.Prelude.{
  ℕ, ◌+◌, ◌-◌, ◌≡◌, refl, sym, ap, ◌∙◌, inl, inr, true, false, List, [], ◌∷◌, ◌++◌, append-nil,
  append_assoc, arith, ltb, ◌==◌, if◌then◌else◌, Bool-cases, length, length-append, drop,
  take-append, drop-append, Text,
}
use ecommerce_platform.Routing.Paths.{substr, split_loop, split_path}

-- A segment is kept unless it is empty.
unfoldable pub keep : Text → List Text → List Text
keep [] segments = segments
keep (c ∷ s) segments = (c ∷ s) ∷ segments

-- The nonempty pieces between slashes, `current` being what is read of the first one.
unfoldable pub pieces : Text → Text → List Text
pieces current [] = keep current []
pieces current (c ∷ s) =
    if c == b'/' then keep current (pieces [] s) else pieces (current ++ c ∷ []) s

-- What the loop does to its variables at a slash and at the end.
flush : Text → List Text → List Text
flush current segments = segments ++ keep current []

flush-keep :
    (current : Text) (segments more : List Text)
    → flush current segments ++ more ≡ segments ++ keep current more
unfolding flush keep
flush-keep [] segments more = rw (append-nil segments)
flush-keep (c ∷ s) segments more = append_assoc segments _ more

cut_segment :
    (before current rest : Text)
    → substr (before ++ (current ++ rest)) (length before) (length current) ≡ current
cut_segment before current rest =
    rw (drop-append before (current ++ rest)) (take-append current rest)

flush_inside :
    (path before current rest : Text) (segments : List Text) (i start : ℕ)
    → path ≡ before ++ (current ++ rest)
    → start ≡ length before
    → i ≡ length before + length current
    → (if ltb start i then segments ++ substr path start (i - start) ∷ [] else segments)
      ≡ flush current segments
unfolding flush keep
flush_inside path before [] rest segments i start p s h =
    let stop : ltb start i ≡ false = ground arith in rw stop (sym (append-nil segments))
flush_inside path before (c ∷ current) rest segments i start p s h =
    let more : ltb start i ≡ true = ground arith in
    let width : i - start ≡ length (c ∷ current) = omega arith in
    rw (more, width, s, p)
      (ap (λ seg. segments ++ seg ∷ []) (cut_segment before (c ∷ current) rest))

flush_at_end :
    (path before current : Text) (segments : List Text) (start : ℕ)
    → path ≡ before ++ (current ++ [])
    → start ≡ length before
    → (if ltb start (length path) then segments ++ drop start path ∷ [] else segments)
      ≡ flush current segments
unfolding flush keep
flush_at_end path before [] segments start p s =
    let n : length path ≡ length before = rw (p, append-nil before) in
    let stop : ltb start (length path) ≡ false = ground arith in rw stop (sym (append-nil segments))
flush_at_end path before (c ∷ current) segments start p s =
    let n : length path ≡ length before + length ((c ∷ current) ++ []) =
      rw p (length-append before _) in
    let more : ltb start (length path) ≡ true = ground arith in
    rw (more, s, p, drop-append before ((c ∷ current) ++ []), append-nil current)

split_loop-pieces :
    (path before current rest : Text) (segments : List Text) (i start : ℕ)
    → path ≡ before ++ (current ++ rest)
    → start ≡ length before
    → i ≡ length before + length current
    → split_loop path rest i start segments ≡ segments ++ pieces current rest
unfolding split_loop pieces flush
split_loop-pieces path before current [] segments i start p s h =
    flush_at_end path before current segments start p s
split_loop-pieces path before current (c ∷ rest) segments i start p s h =
    elim (Bool-cases (c == b'/')) [
      | inl slash ↦ rw slash (
          split_loop-pieces path (before ++ (current ++ c ∷ [])) [] rest _ (i + 1) (i + 1)
            (p ∙ regroup) (omega (arith, h, size)) (omega (arith, h, size))
          ∙ ap (λ l. l ++ pieces [] rest)
              (flush_inside path before current (c ∷ rest) segments i start p s h)
          ∙ flush-keep current segments (pieces [] rest))
      | inr other ↦ rw other (
          split_loop-pieces path before (current ++ c ∷ []) rest segments (i + 1) start
            (p ∙ ap (λ l. before ++ l) (sym (append_assoc current (c ∷ []) rest))) s
            (omega (arith, h, length-append current (c ∷ []))))
    ]
  where
    regroup : before ++ (current ++ c ∷ rest) ≡ (before ++ (current ++ c ∷ [])) ++ rest
    regroup = simp append_assoc

    size : length (before ++ (current ++ c ∷ [])) ≡ length before + (length current + 1)
    size = omega (arith, length-append before (current ++ c ∷ []), length-append current (c ∷ []))

-- The loop that SplitPathView runs over indices returns the nonempty pieces between the slashes of
-- the path, in order.
pub split_path-pieces : (path : Text) → split_path path ≡ pieces [] path
unfolding split_path
split_path-pieces path = split_loop-pieces path [] [] path [] 0 0 refl refl refl
