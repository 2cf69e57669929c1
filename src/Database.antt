-- ===== src/Database.antt =====
-- common/dto/include/DbMapping.hpp, and what services/ProcessOrdersService/main.cpp and
-- services/CreateOrdersService/main.cpp read from the database with it. Parameters: the PostgreSQL
-- library, whose rows convert a column to a type or throw, and the printing of a double.
pub mod Reports
pub mod Rows
pub mod Printing
pub mod Collecting
use ecommerce_platform.Prelude.{List, [], ◌∷◌, ◌++◌, Option, none, some, Text, text, ℤ, pos, ℕ}
use ecommerce_platform.Dto.User.{User}
use ecommerce_platform.Dto.UserProfile.{UserProfile}
use ecommerce_platform.Http.Error.{Outcome, returns, throws, ◌>>=◌}
use ecommerce_platform.Parser.Integral.{to_string}

pub record Database : Type 1 where
  pub Row : Type 0
  pub Double : Type 0
  pub zero_double : Double
  -- row[column].as<T>()
  pub as_int64 : Row → Text → Outcome ℤ
  pub as_double : Row → Text → Outcome Double
  pub as_string : Row → Text → Outcome Text
  pub as_optional_string : Row → Text → Outcome (Option Text)
  -- exec(query).expect_columns(n)
  pub exec : Text → ℕ → Outcome (List Row)
  -- exec(query).front().front().c_str()
  pub exec_first : Text → Outcome Text
  pub print_double : Double → Text

-- A pair of a column and a member: how the column is read, and how the member is set.
pub record Field {ℓ} (Row : Type 0) (T : Type ℓ) : Type (ℓ ⊔ 1) where
  pub Member : Type 0
  pub column : Text
  pub as_member : Row → Text → Outcome Member
  pub set_member : Member → T → T

-- DbMapping<T>::fields, with T{}
pub record DbMapping {ℓ} (Row : Type 0) (T : Type ℓ) : Type (ℓ ⊔ 1) where
  pub fields : List (Field Row T)
  pub initial : T

module _ {ℓ} {Row : Type 0} {T : Type ℓ} (row : Row) where
  unfoldable pub set_field : Field Row T → T → Outcome T
  set_field f result = do value ← f.as_member row f.column; returns (f.set_member value result)

  unfoldable pub set_fields : List (Field Row T) → T → Outcome T
  unfolding set_field
  set_fields [] result = returns result
  set_fields (f ∷ fs) result = set_field f result >>= set_fields fs

-- MapRowTo
unfoldable pub map_row_to {ℓ} : {Row : Type 0} {T : Type ℓ} → DbMapping Row T → Row → Outcome T
unfolding set_fields
map_row_to mapping row = set_fields row mapping.fields mapping.initial

-- FormConnectionString
unfoldable pub form_connection_string : Text → Text → Text → Text → ℤ → Text
form_connection_string dbname user password host port =
    text "dbname="
    ++ (dbname
        ++ (text " user="
            ++ (user
                ++ (text " password="
                    ++ (password
                        ++ (text " host=" ++ (host ++ (text " port=" ++ to_string port))))))))

module _ (db : Database) where
  open db use {Row, Double, as_int64, as_double, as_string, as_optional_string}

  pub record OrderPrice : Type 0 where
    pub id : ℤ
    pub total : Double

  abbrev pub price_mapping : DbMapping Row OrderPrice
  price_mapping = record {
    fields =
        record {
          Member = ℤ;
          column = text "id";
          as_member = as_int64;
          set_member = λ value p. record p { id = value };
        }
        ∷ record {
          Member = Double;
          column = text "total";
          as_member = as_double;
          set_member = λ value p. record p { total = value };
        }
        ∷ [];
    initial = record { id = pos 0; total = db.zero_double };
  }

  abbrev pub user_mapping : DbMapping Row User
  user_mapping = record {
    fields =
        record {
          Member = ℤ;
          column = text "id";
          as_member = as_int64;
          set_member = λ value u. record u { id = value };
        }
        ∷ record {
          Member = Text;
          column = text "status";
          as_member = as_string;
          set_member = λ value u. record u { status = value };
        }
        ∷ record {
          Member = Text;
          column = text "created_at";
          as_member = as_string;
          set_member = λ value u. record u { created_at = value };
        }
        ∷ record {
          Member = Text;
          column = text "updated_at";
          as_member = as_string;
          set_member = λ value u. record u { updated_at = value };
        }
        ∷ [];
    initial = record { id = pos 0; status = []; created_at = []; updated_at = [] };
  }

  abbrev pub profile_mapping : DbMapping Row UserProfile
  profile_mapping = record {
    fields =
        record {
          Member = ℤ;
          column = text "user_id";
          as_member = as_int64;
          set_member = λ value p. record p { user_id = value };
        }
        ∷ record {
          Member = Option Text;
          column = text "display_name";
          as_member = as_optional_string;
          set_member = λ value p. record p { display_name = value };
        }
        ∷ [];
    initial = record { user_id = pos 0; display_name = none };
  }
