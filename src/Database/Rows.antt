-- ===== src/Database/Rows.antt =====
-- Rows that are read into structs, and the lines that they are printed as.
use ecommerce_platform.Prelude.{
  ◌≡◌, refl, sym, ap, ◌∙◌, List, [], ◌∷◌, ◌++◌, append_assoc, append-nil, Option, none, some, Text,
}
use ecommerce_platform.Database.{DbMapping, Field, set_field, set_fields, map_row_to}
use ecommerce_platform.Database.Reports.{Run, line, write, and_then, run_with, print_rows}
use ecommerce_platform.Http.Error.{Exception, Outcome, returns, throws, ◌>>=◌}

-- The rows stand for these values, one for one.
module _ {Row T : Type 0} (IsRowOf : Row → T → Type 0) where
  abbrev pub AreRowsOf : List Row → List T → Type 0
  AreRowsOf [] [] = Unit
  AreRowsOf (r ∷ rs) (x ∷ xs) = IsRowOf r x × AreRowsOf rs xs
  AreRowsOf [] (x ∷ xs) = ⊥
  AreRowsOf (r ∷ rs) [] = ⊥

abbrev pub all_lines {ℓ} : {T : Type ℓ} → (T → Text) → List T → Text
all_lines shown [] = []
all_lines shown (x ∷ xs) = line (shown x) ++ all_lines shown xs

-- What the first column that is not converted throws.
unfoldable pub first_failure {ℓ} :
    {Row : Type 0} {T : Type ℓ} → Row → List (Field Row T) → Option Exception
first_failure row [] = none
first_failure row (f ∷ fs) = elim (f.as_member row f.column) [
  | returns value ↦ first_failure row fs
  | throws x ↦ some x
]

and_then_nothing : (r : Run) → r ≡ and_then (write []) r
unfolding and_then
and_then_nothing r = refl

and_then_assoc :
    (s t : Text) (r : Run) → and_then (write s) (and_then (write t) r) ≡ and_then (write (s ++ t)) r
unfolding and_then
and_then_assoc s t r = rw (append_assoc s t r.output) refl

module _ {Row T : Type 0} where
  set_fields-throws :
      (row : Row) (fs : List (Field Row T)) (result : T) (x : Exception)
      → first_failure row fs ≡ some x
      → set_fields row fs result ≡ throws x
  unfolding first_failure set_fields set_field
  set_fields-throws row [] result x h = cc h
  set_fields-throws row (f ∷ fs) result x h =
      read (f.as_member row f.column)
        (λ value. set_fields-throws row fs (f.set_member value result) x) h
    where
      read :
          (o : Outcome f.Member)
          → ((value : f.Member)
              → first_failure row fs ≡ some x
              → set_fields row fs (f.set_member value result) ≡ throws x)
          → elim o [ returns value ↦ first_failure row fs | throws y ↦ some y ] ≡ some x
          → (o >>= (λ value. returns (f.set_member value result))) >>= set_fields row fs ≡ throws x
      read (returns value) later h = later value h
      read (throws y) later h = cc h

  module _ (mapping : DbMapping Row T) (shown : T → Text) where
    abbrev pub IsReadAs : Row → T → Type 0
    IsReadAs row x = map_row_to mapping row ≡ returns x

    print_rows-append :
        (rows more : List Row) (xs : List T)
        → AreRowsOf IsReadAs rows xs
        → print_rows mapping shown (rows ++ more)
          ≡ and_then (write (all_lines shown xs)) (print_rows mapping shown more)
    unfolding print_rows and_then run_with
    print_rows-append [] more [] h = and_then_nothing _
    print_rows-append [] more (x ∷ xs) h = absurd h
    print_rows-append (r ∷ rs) more [] h = absurd h
    print_rows-append (r ∷ rs) more (x ∷ xs) (e, h) =
        rw (e, print_rows-append rs more xs h) (and_then_assoc (line (shown x)) _ _)

    pub map_row_to-throws :
        (row : Row) (x : Exception)
        → first_failure row mapping.fields ≡ some x
        → map_row_to mapping row ≡ throws x
    unfolding map_row_to
    map_row_to-throws row x h = set_fields-throws row mapping.fields mapping.initial x h

    -- A table whose rows are read up to one row prints these, and ends with what the first column of
    -- that row which is not converted throws.
    print_rows-throws :
        (rows rest : List Row) (xs : List T) (bad : Row) (x : Exception)
        → AreRowsOf IsReadAs rows xs
        → first_failure bad mapping.fields ≡ some x
        → print_rows mapping shown (rows ++ bad ∷ rest)
          ≡ record { output = all_lines shown xs; ended = throws x }
    unfolding print_rows and_then run_with
    print_rows-throws rows rest xs bad x h e = print_rows-append rows (bad ∷ rest) xs h ∙ broken
      where
        broken :
            and_then (write (all_lines shown xs)) (print_rows mapping shown (bad ∷ rest))
            ≡ record { output = all_lines shown xs; ended = throws x }
        broken = rw (map_row_to-throws bad x e, append-nil (all_lines shown xs)) refl

    pub print_rows_lem :
        (rows : List Row) (xs : List T)
        → AreRowsOf IsReadAs rows xs
        → print_rows mapping shown rows ≡ write (all_lines shown xs)
    unfolding print_rows and_then
    print_rows_lem rows xs h =
        ap (print_rows mapping shown) (sym (append-nil rows))
        ∙ print_rows-append rows [] xs h
        ∙ ap write (append-nil (all_lines shown xs))

pub AreRowsOf-map :
    {Row T : Type 0} (P Q : Row → T → Type 0)
    → ((r : Row) (x : T) → P r x → Q r x)
    → (rows : List Row) (xs : List T) → AreRowsOf P rows xs
    → AreRowsOf Q rows xs
AreRowsOf-map P Q f [] [] h = h
AreRowsOf-map P Q f [] (x ∷ xs) h = absurd h
AreRowsOf-map P Q f (r ∷ rs) [] h = absurd h
AreRowsOf-map P Q f (r ∷ rs) (x ∷ xs) (p, h) = (f r x p, AreRowsOf-map P Q f rs xs h)
