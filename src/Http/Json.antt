-- ===== src/Http/Json.antt =====
-- What the repository uses of the JSON library: the values it builds, its printer and its parser,
-- and the reading of values. The laws are those that the library documents. A value is printed if
-- its texts are UTF-8; `dump` throws if not.
use ecommerce_platform.Prelude.{
  ◌≡◌, Bool, true, false, ◌&&◌, List, [], ◌∷◌, Option, some, lookup, Text, Text-eq, ℤ, All, ◌<◌,
  if◌then◌else◌,
}
use ecommerce_platform.Http.Error.{Outcome, returns, throws, other_exception}

-- The keys pass one test and the values another.
abbrev pub all_fields {ℓ} : {J : Type ℓ} → (Text → Bool) → (J → Bool) → List (Text × J) → Bool
all_fields p q [] = true
all_fields p q ((k, v) ∷ fields) = p k && (q v && all_fields p q fields)

abbrev pub IsAscii : Text → Type 0
IsAscii s = All (λ c. c < 128) s

pub record JsonLibrary : Type 1 where
  pub Json : Type 0
  -- Braced lists of pairs, and of values.
  pub object : List (Text × Json) → Json
  pub array : List Json → Json
  pub string : Text → Json
  pub integer : ℤ → Json
  pub boolean : Bool → Json
  pub null : Json
  pub is_utf8 : Text → Bool
  -- All texts in the value are UTF-8.
  pub printable : Json → Bool
  pub print : Json → Text
  -- What dump throws with, where a text is not UTF-8.
  pub invalid_utf8_what : Json → Text
  -- parse(text, nullptr, false): a value, which is discarded if the text is no JSON.
  pub parse : Text → Json
  pub is_object : Json → Bool
  -- The value under a key, where the value is an object that contains the key.
  pub member : Text → Json → Option Json
  -- The text, the integer or the truth value that a value holds.
  pub as_string : Json → Option Text
  pub as_integer : Json → Option ℤ
  pub as_boolean : Json → Option Bool
  pub is_null : Json → Bool
  -- What the exceptions for a missing key and for a value of another type say.
  pub missing_key_what : Text → Text
  pub type_error_what : Json → Text
  pub is_utf8-ascii : (s : Text) → IsAscii s → is_utf8 s ≡ true
  pub parse-print : (j : Json) → printable j ≡ true → parse (print j) ≡ j
  pub printable-object :
      (fields : List (Text × Json))
      → all_fields is_utf8 printable fields ≡ true
      → printable (object fields) ≡ true
  pub printable-member :
      (key : Text) (j value : Json)
      → member key j ≡ some value
      → printable j ≡ true
      → printable value ≡ true
  pub printable-string : (s : Text) → printable (string s) ≡ is_utf8 s
  pub printable-integer : (z : ℤ) → printable (integer z) ≡ true
  pub printable-boolean : (b : Bool) → printable (boolean b) ≡ true
  pub printable-empty : printable (array []) ≡ true
  pub is_object-object : (fields : List (Text × Json)) → is_object (object fields) ≡ true
  pub member-object :
      (key : Text) (fields : List (Text × Json)) → member key (object fields) ≡ lookup key fields
  pub as_string-string : (s : Text) → as_string (string s) ≡ some s
  pub as_integer-integer : (z : ℤ) → as_integer (integer z) ≡ some z
  pub as_boolean-boolean : (b : Bool) → as_boolean (boolean b) ≡ some b
  pub is_null-null : is_null null ≡ true
  pub is_null-string : (s : Text) → is_null (string s) ≡ false

module _ (lib : JsonLibrary) where
  open lib use {Json, printable, print, invalid_utf8_what}

  unfoldable pub dump : Json → Outcome Text
  dump j = if printable j then returns (print j) else throws (other_exception (invalid_utf8_what j))
