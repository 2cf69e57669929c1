-- ===== src/Parser/Params.antt =====
-- common/parser/include/TypedParams.hpp: parameters by name, converted on request.
use ecommerce_platform.Prelude.{Option, none, some, lookup, Text, Text-eq, text, ◌++◌, List}
use ecommerce_platform.Http.Error.{Outcome, returns, throws, invalid_parameter}
use ecommerce_platform.Parser.Values.{ValueType, Value, try_parse}

-- std::unordered_map<std::string, std::string>
abbrev pub GeneralParams : Type 0
GeneralParams = List (Text × Text)

-- InvalidParameterException::what
unfoldable pub invalid_parameter_what : Text → Text
invalid_parameter_what key = text "Missing or invalid parameter: " ++ key

pub record TypedParams : Type 0 where
  pub entries : GeneralParams

-- TypedParams::TryGet<T>
unfoldable pub try_get : (t : ValueType) → TypedParams → Text → Option (Value t)
try_get t params key = elim (lookup key params.entries) [
  | none ↦ none
  | some value ↦ try_parse t value
]

-- TypedParams::Required<T>
unfoldable pub required : (t : ValueType) → TypedParams → Text → Outcome (Value t)
required t params key = elim (try_get t params key) [
  | none ↦ throws (invalid_parameter key)
  | some value ↦ returns value
]
