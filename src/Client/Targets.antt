-- ===== src/Client/Targets.antt =====
-- The targets that the client builds, cut into the segments that the server's trie reads.
use ecommerce_platform.Prelude.{
  ◌≡◌, refl, ap, sym, true, [], ◌∷◌, ◌++◌, append-nil, arith, List, some, All, Text, text, ℤ,
}
use ecommerce_platform.Parser.Integral.{int32, int64, fits, to_string, try_parse_integral}
use ecommerce_platform.Parser.Integral.Literal.{literal_lem, fits_int64}
use ecommerce_platform.Parser.Integral.Printing.{try_parse_integral-to_string}
use ecommerce_platform.Routing.Paths.{split_path}
use ecommerce_platform.Routing.Paths.Splitting.{IsSegment, join_path, split_path-join_path}

-- A number that fits an `int` is printed as a segment that the server reads as the same number.
pub printed_literal :
    (z : ℤ) → fits int32 z ≡ true → try_parse_integral int64 (to_string z) ≡ some z
printed_literal z f = try_parse_integral-to_string int64 z refl (fits_int64 z f)

to_string-IsSegment : (z : ℤ) → fits int32 z ≡ true → IsSegment (to_string z)
to_string-IsSegment z f = literal_lem int64 (to_string z) z (printed_literal z f)

-- A path that is written with a slash before each segment.
written :
    (path : Text) (segments : List Text)
    → All IsSegment segments
    → path ≡ join_path segments
    → split_path path ≡ segments
written path segments h e = rw e (split_path-join_path segments h)

orders-IsSegment : IsSegment (text "orders")
orders-IsSegment = ((λ e. cc), omega arith)

name-IsSegment : IsSegment (text "name")
name-IsSegment = ((λ e. cc), omega arith)

pub orders_path : split_path (text "/orders") ≡ text "orders" ∷ []
unfolding join_path
orders_path = written _ (text "orders" ∷ []) (orders-IsSegment, tt) refl

pub remove_all_path :
    split_path (text "/orders/remove_all") ≡ text "orders" ∷ text "remove_all" ∷ []
unfolding join_path
remove_all_path =
    written _ (text "orders" ∷ text "remove_all" ∷ [])
      (orders-IsSegment, (((λ e. cc), omega arith), tt)) refl

module _ (z : ℤ) (f : fits int32 z ≡ true) where
  pub order_path : split_path (text "/orders/" ++ to_string z) ≡ text "orders" ∷ to_string z ∷ []
  unfolding join_path
  order_path =
      written _ (text "orders" ∷ to_string z ∷ []) (orders-IsSegment, (to_string-IsSegment z f, tt))
        (ap (λ t. text "/orders/" ++ t) (sym (append-nil (to_string z))))

  pub name_path :
      split_path (text "/orders/" ++ (to_string z ++ text "/name"))
      ≡ text "orders" ∷ to_string z ∷ text "name" ∷ []
  unfolding join_path
  name_path =
      written _ (text "orders" ∷ to_string z ∷ text "name" ∷ [])
        (orders-IsSegment, (to_string-IsSegment z f, (name-IsSegment, tt))) refl

  pub random_path :
      (r : Text)
      → IsSegment r
      → split_path (text "/orders/" ++ (to_string z ++ (text "/name/" ++ r)))
        ≡ text "orders" ∷ to_string z ∷ text "name" ∷ r ∷ []
  unfolding join_path
  random_path r h =
      written _ (text "orders" ∷ to_string z ∷ text "name" ∷ r ∷ [])
        (orders-IsSegment, (to_string-IsSegment z f, (name-IsSegment, (h, tt))))
        (ap (λ t. text "/orders/" ++ (to_string z ++ (text "/name/" ++ t))) (sym (append-nil r)))
