-- ===== src/Routing/Paths.antt =====
-- NormalizePathView, NormalizePathOwned, SplitPathView and SplitPathOwned of
-- common/http/src/RouteTrie.cpp. A view and an owned copy are the same text here.
pub mod Reference
pub mod Splitting
use ecommerce_platform.Prelude.{
  ℕ, ◌+◌, ◌-◌, List, [], ◌∷◌, ◌++◌, ltb, ◌==◌, if◌then◌else◌, length, take, drop, Text,
}

-- remove_prefix(1) if the front is a slash
unfoldable pub strip_front : Text → Text
strip_front [] = []
strip_front (c ∷ s) = if c == b'/' then s else c ∷ s

-- remove_suffix(1) if the back is a slash
unfoldable pub strip_back : Text → Text
strip_back [] = []
strip_back (c ∷ []) = if c == b'/' then [] else c ∷ []
strip_back (c ∷ d ∷ s) = c ∷ strip_back (d ∷ s)

unfoldable pub normalize_path : Text → Text
unfolding strip_front strip_back
normalize_path path = strip_back (strip_front path)

-- substr(start, count)
abbrev pub substr : Text → ℕ → ℕ → Text
substr s start count = take count (drop start s)

-- The loop of SplitPathView: `rest` holds the characters from index `i` on.
unfoldable pub split_loop : Text → Text → ℕ → ℕ → List Text → List Text
split_loop path [] i segment_start segments =
    if ltb segment_start (length path) then segments ++ drop segment_start path ∷ [] else segments
split_loop path (c ∷ rest) i segment_start segments =
    split_loop path rest (i + 1) (if c == b'/' then i + 1 else segment_start) (
      if c == b'/'
      then (if ltb segment_start i
          then segments ++ substr path segment_start (i - segment_start) ∷ []
          else segments)
      else segments)

unfoldable pub split_path : Text → List Text
unfolding split_loop
split_path path = split_loop path path 0 0 []
