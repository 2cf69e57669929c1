-- ===== src/Routing/Paths/Splitting.antt =====
-- What splitting a path gives, and how normalising and joining bear on it.
use ecommerce_platform.Prelude.{
  ◌≡◌, ◌≢◌, refl, sym, ap, ◌∙◌, inl, inr, false, List, [], ◌∷◌, ◌++◌, append-nil, append_assoc,
  arith, ◌==◌, Bool-cases, All, All-append, Text,
}
use ecommerce_platform.Routing.Paths.{strip_front, strip_back, normalize_path, split_path}
use ecommerce_platform.Routing.Paths.Reference.{keep, pieces, split_path-pieces}

abbrev pub NoSlash : Text → Type 0
NoSlash = All (λ c. c ≢ b'/')

-- What a path is split into: a nonempty text with no slash in it.
abbrev pub IsSegment : Text → Type 0
IsSegment s = (s ≢ []) × NoSlash s

-- A path of the segments, each with a slash before it.
unfoldable pub join_path : List Text → Text
join_path [] = []
join_path (s ∷ segments) = b'/' ∷ (s ++ join_path segments)

keep-IsSegment :
    (current : Text) (segments : List Text)
    → NoSlash current
    → All IsSegment segments
    → All IsSegment (keep current segments)
unfolding keep
keep-IsSegment [] segments h k = k
keep-IsSegment (c ∷ current) segments h k = (((λ e. cc), h), k)

pieces-IsSegment : (current path : Text) → NoSlash current → All IsSegment (pieces current path)
unfolding pieces
pieces-IsSegment current [] h = keep-IsSegment current [] h tt
pieces-IsSegment current (c ∷ path) h = elim (Bool-cases (c == b'/')) [
  | inl slash ↦ rw slash (keep-IsSegment current _ h (pieces-IsSegment [] path tt))
  | inr other ↦ rw other (
      pieces-IsSegment (current ++ c ∷ []) path
        (All-append (λ d. d ≢ b'/') current (c ∷ []) h (ground arith, tt)))
]

-- Whatever the path, each of its segments is nonempty and holds no slash.
split_path-IsSegment : (path : Text) → All IsSegment (split_path path)
split_path-IsSegment path = rw (split_path-pieces path) (pieces-IsSegment [] path tt)

pieces-append :
    (current s rest : Text) → NoSlash s → pieces current (s ++ rest) ≡ pieces (current ++ s) rest
unfolding pieces
pieces-append current [] rest h = rw (append-nil current)
pieces-append current (c ∷ s) rest h =
    let other : (c == b'/') ≡ false = ground arith in
    rw other (
      pieces-append (current ++ c ∷ []) s rest h.1
      ∙ ap (λ l. pieces l rest) (append_assoc current (c ∷ []) s))

keep-cons : (s : Text) (segments : List Text) → s ≢ [] → keep s segments ≡ s ∷ segments
unfolding keep
keep-cons [] segments h = absurd (h refl)
keep-cons (c ∷ s) segments h = refl

pieces-join_path :
    (current : Text) (segments : List Text)
    → All IsSegment segments
    → pieces current (join_path segments) ≡ keep current segments
unfolding pieces join_path
pieces-join_path current [] h = refl
pieces-join_path current (s ∷ segments) ((n, clean), h) = ap (keep current) (
    pieces-append [] s (join_path segments) clean
    ∙ pieces-join_path s segments h
    ∙ keep-cons s segments n)

-- A path that is put together from segments, a slash before each, is split into these segments.
pub split_path-join_path :
    (segments : List Text) → All IsSegment segments → split_path (join_path segments) ≡ segments
unfolding keep
split_path-join_path segments h =
    split_path-pieces (join_path segments) ∙ pieces-join_path [] segments h

pieces-strip_front : (path : Text) → pieces [] (strip_front path) ≡ pieces [] path
unfolding pieces strip_front keep
pieces-strip_front [] = refl
pieces-strip_front (c ∷ path) = elim (Bool-cases (c == b'/')) [
  | inl slash ↦ rw slash
  | inr other ↦ ap (pieces []) {x = strip_front (c ∷ path)} {y = c ∷ path} (rw other)
]

pieces-strip_back : (current path : Text) → pieces current (strip_back path) ≡ pieces current path
unfolding pieces strip_back keep
pieces-strip_back current [] = refl
pieces-strip_back current (c ∷ []) = elim (Bool-cases (c == b'/')) [
  | inl slash ↦ rw slash
  | inr other ↦ ap (pieces current) {x = strip_back (c ∷ [])} {y = c ∷ []} (rw other)
]
pieces-strip_back current (c ∷ d ∷ path) = elim (Bool-cases (c == b'/')) [
  | inl slash ↦ rw slash (ap (keep current) (pieces-strip_back [] (d ∷ path)))
  | inr other ↦ rw other (pieces-strip_back (current ++ c ∷ []) (d ∷ path))
]

-- Normalising a path before it is split changes nothing: the slashes that it takes off the two ends
-- only bound empty segments, which splitting drops anyway.
pub split_path-normalize_path : (path : Text) → split_path (normalize_path path) ≡ split_path path
unfolding normalize_path
split_path-normalize_path path =
    split_path-pieces (strip_back (strip_front path))
    ∙ pieces-strip_back [] (strip_front path)
    ∙ pieces-strip_front path
    ∙ sym (split_path-pieces path)
