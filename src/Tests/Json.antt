-- ===== src/Tests/Json.antt =====
-- A JSON library that meets its laws: a value is the text that it prints as, in an encoding with
-- lengths, and every text is printed. It shows that the laws can hold together, and serves the runs.
use ecommerce_platform.Prelude.{
  ℕ, zero, suc, ◌≡◌, refl, Bool, true, false, List, [], ◌∷◌, ◌++◌, Option, none, some,
  if◌then◌else◌, ◌==◌, length, take, drop, take-append, drop-append, lookup, Text, Text-eq, text_eq,
  ℤ, pos, negsuc,
}
use ecommerce_platform.Http.Json.{JsonLibrary}

abbrev pub encode : Text → Text → Text
encode t behind = length t ∷ (t ++ behind)

abbrev pub fields_text : List (Text × Text) → Text
fields_text [] = []
fields_text ((k, v) ∷ fields) = encode k (encode v (fields_text fields))

abbrev pub values_text : List Text → Text
values_text [] = []
values_text (v ∷ values) = encode v (values_text values)

abbrev pub count : List (Text × Text) → ℕ
count [] = 0
count (f ∷ fields) = suc (count fields)

abbrev pub first_text : Text → Text
first_text [] = []
first_text (n ∷ s) = take n s

abbrev pub behind_text : Text → Text
behind_text [] = []
behind_text (n ∷ s) = drop n s

unfoldable pub find_member : Text → ℕ → Text → Option Text
find_member key zero s = none
find_member key (suc n) s =
    let later = find_member key n (behind_text (behind_text s)) in
    if text_eq (first_text s) key then some (first_text (behind_text s)) else later

pub find_member-fields :
    (key : Text) (fields : List (Text × Text))
    → find_member key (count fields) (fields_text fields) ≡ lookup key fields
unfolding find_member lookup
find_member-fields key [] = refl
find_member-fields key ((k, v) ∷ fields) = rw (
  take-append k (encode v (fields_text fields)),
  drop-append k (encode v (fields_text fields)),
  take-append v (fields_text fields),
  drop-append v (fields_text fields),
  find_member-fields key fields,
)

abbrev pub member_of : Text → Text → Option Text
member_of key (suc zero ∷ n ∷ s) = find_member key n s
member_of key _ = none

abbrev pub is_object_text : Text → Bool
is_object_text (suc zero ∷ s) = true
is_object_text _ = false

abbrev pub string_of : Text → Option Text
string_of (suc (suc zero) ∷ s) = some s
string_of _ = none

abbrev pub integer_text : ℤ → Text
integer_text (pos n) = 3 ∷ n ∷ []
integer_text (negsuc n) = 4 ∷ n ∷ []

abbrev pub integer_of : Text → Option ℤ
integer_of (suc (suc (suc zero)) ∷ n ∷ s) = some (pos n)
integer_of (suc (suc (suc (suc zero))) ∷ n ∷ s) = some (negsuc n)
integer_of _ = none

pub integer_of-integer_text : (z : ℤ) → integer_of (integer_text z) ≡ some z
integer_of-integer_text (pos n) = refl
integer_of-integer_text (negsuc n) = refl

abbrev pub boolean_text : Bool → Text
boolean_text true = 5 ∷ 1 ∷ []
boolean_text false = 5 ∷ 0 ∷ []

abbrev pub boolean_of : Text → Option Bool
boolean_of (suc (suc (suc (suc (suc zero)))) ∷ n ∷ s) = some (n == 1)
boolean_of _ = none

pub boolean_of-boolean_text : (b : Bool) → boolean_of (boolean_text b) ≡ some b
boolean_of-boolean_text true = refl
boolean_of-boolean_text false = refl

abbrev pub is_null_text : Text → Bool
is_null_text [] = true
is_null_text _ = false

abbrev pub sample_json : JsonLibrary
sample_json = record {
  Json = Text;
  object = λ fields. 1 ∷ count fields ∷ fields_text fields;
  array = λ values. 6 ∷ values_text values;
  string = λ s. 2 ∷ s;
  integer = integer_text;
  boolean = boolean_text;
  null = [];
  is_utf8 = λ s. true;
  printable = λ j. true;
  print = λ j. j;
  invalid_utf8_what = λ j. j;
  parse = λ s. s;
  is_object = is_object_text;
  member = member_of;
  as_string = string_of;
  as_integer = integer_of;
  as_boolean = boolean_of;
  is_null = is_null_text;
  missing_key_what = λ key. key;
  type_error_what = λ j. j;
  is_utf8-ascii = λ s a. refl;
  parse-print = λ j p. refl;
  printable-object = λ fields p. refl;
  printable-member = λ key j value h p. refl;
  printable-string = λ s. refl;
  printable-integer = λ z. refl;
  printable-boolean = λ b. refl;
  printable-empty = refl;
  is_object-object = λ fields. refl;
  member-object = find_member-fields;
  as_string-string = λ s. refl;
  as_integer-integer = integer_of-integer_text;
  as_boolean-boolean = boolean_of-boolean_text;
  is_null-null = refl;
  is_null-string = λ s. refl;
}
