-- ===== src/Tests/Database.antt =====
-- A small database, and the theorems of Database there.
use ecommerce_platform.Prelude.{
  ◌≡◌, refl, List, [], ◌∷◌, ◌++◌, Option, none, some, if◌then◌else◌, Text, Text-eq, text, text_eq,
  ℤ, pos, ℕ, lookup,
}
use ecommerce_platform.Database.{Database}
use ecommerce_platform.Database.Reports.{line, process_orders_main, user_line, profile_line}
use ecommerce_platform.Database.Rows.{all_lines, first_failure}
use ecommerce_platform.Database.Collecting.{get_all_users_json, get_all_users_json_lem}
use ecommerce_platform.Database.Printing.{Holds, process_orders_main_lem}
use ecommerce_platform.Dto.User.{User, to_json}
use ecommerce_platform.Dto.UserProfile.{UserProfile}
use ecommerce_platform.Http.Error.{Outcome, returns, throws, other_exception}
use ecommerce_platform.Tests.Json.{sample_json}

data Cell : Type 0 where
  whole : ℤ → Cell
  word : Text → Cell
  null : Cell

abbrev TableRow : Type 0
TableRow = List (Text × Cell)

abbrev cell : TableRow → Text → Outcome Cell
cell row column = elim (lookup column row) [
  | none ↦ throws (other_exception (text "no such column"))
  | some c ↦ returns c
]

abbrev whole_of : Outcome Cell → Outcome ℤ
whole_of (returns (whole z)) = returns z
whole_of _ = throws (other_exception (text "no number"))

abbrev word_of : Outcome Cell → Outcome Text
word_of (returns (word s)) = returns s
word_of _ = throws (other_exception (text "no text"))

abbrev optional_of : Outcome Cell → Outcome (Option Text)
optional_of (returns null) = returns none
optional_of (returns (word s)) = returns (some s)
optional_of _ = throws (other_exception (text "no text"))

abbrev ada_row : TableRow
ada_row =
    (text "id", whole (pos 1))
    ∷ (text "status", word (text "active"))
    ∷ (text "created_at", word (text "2025-01-01"))
    ∷ (text "updated_at", word (text "2025-01-02"))
    ∷ []

abbrev ada : User
ada = record {
  id = pos 1;
  status = text "active";
  created_at = text "2025-01-01";
  updated_at = text "2025-01-02";
}

abbrev profile_row : TableRow
profile_row = (text "user_id", whole (pos 1)) ∷ (text "display_name", null) ∷ []

abbrev ada_profile : UserProfile
ada_profile = record { user_id = pos 1; display_name = none }

abbrev table : Text → List TableRow
table query =
    if text_eq query (text "SELECT * FROM \"Users\";")
    then ada_row ∷ []
    else if text_eq query (text "SELECT * FROM \"UserProfiles\";")
    then profile_row ∷ []
    else []

abbrev small : Database
small = record {
  Row = TableRow;
  Double = ℕ;
  zero_double = 0;
  as_int64 = λ row column. whole_of (cell row column);
  as_double = λ row column. throws (other_exception (text "no double"));
  as_string = λ row column. word_of (cell row column);
  as_optional_string = λ row column. optional_of (cell row column);
  exec = λ query columns. returns (table query);
  exec_first = λ query. returns (text "17");
  print_double = λ d. d ∷ [];
}

small-Holds : Holds small (text "17") [] (ada ∷ []) (ada_profile ∷ [])
unfolding text_eq lookup
small-Holds = record {
  has_version = refl;
  price_rows = [];
  has_prices = refl;
  are_prices = tt;
  user_rows = ada_row ∷ [];
  has_users = refl;
  are_users =
      (record { user_id = refl; user_status = refl; user_created = refl; user_updated = refl }, tt);
  profile_rows = profile_row ∷ [];
  has_profiles = refl;
  are_profiles = (record { profile_id = refl; profile_name = refl }, tt);
}

process_orders_main_lem_example : process_orders_main (λ s. returns small) ≡ (
  text "DB version: "
      ++ (line (text "17")
          ++ ((line (text "printing all prices:") ++ [])
              ++ ((line (text "printing all users:") ++ all_lines user_line (ada ∷ []))
                  ++ (line (text "printing all user profiles:")
                      ++ all_lines profile_line (ada_profile ∷ []))))),
  some 0,
)
process_orders_main_lem_example =
    process_orders_main_lem (λ s. returns small) small refl (text "17") [] (ada ∷ [])
      (ada_profile ∷ []) small-Holds

abbrev nameless_row : TableRow
nameless_row = (text "id", whole (pos 2)) ∷ (text "status", null) ∷ []

-- The same database with a broken second row.
abbrev torn : Database
torn = record small { exec = λ query columns. returns (ada_row ∷ nameless_row ∷ ada_row ∷ []) }

get_all_users_json_lem_example :
    (get_all_users_json sample_json small [] ≡ (to_json sample_json ada ∷ [], returns tt))
    × (get_all_users_json sample_json torn []
        ≡ (to_json sample_json ada ∷ [], throws (other_exception (text "no text"))))
unfolding text_eq lookup first_failure
get_all_users_json_lem_example = (
  (get_all_users_json_lem sample_json small (ada_row ∷ []) (ada ∷ []) [] (
    record { user_id = refl; user_status = refl; user_created = refl; user_updated = refl },
    tt,
  )).0
      refl,
  (get_all_users_json_lem sample_json torn (ada_row ∷ []) (ada ∷ []) [] (
    record { user_id = refl; user_status = refl; user_created = refl; user_updated = refl },
    tt,
  )).1
      nameless_row (ada_row ∷ []) (other_exception (text "no text")) refl refl,
)
