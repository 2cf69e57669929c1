-- ===== src/Database/Reports.antt =====
-- The reports of services/ProcessOrdersService/main.cpp (GetAllUsers also in
-- services/CreateOrdersService/main.cpp), and the main that prints them.
use ecommerce_platform.Prelude.{List, [], ◌∷◌, ◌++◌, Option, none, some, Text, text, ℕ, pos}
use ecommerce_platform.Database.{
  Database, DbMapping, OrderPrice, map_row_to, price_mapping, user_mapping, profile_mapping,
  form_connection_string,
}
use ecommerce_platform.Dto.User.{User}
use ecommerce_platform.Dto.UserProfile.{UserProfile}
use ecommerce_platform.Http.Error.{Outcome, returns, throws, exit_code}
use ecommerce_platform.Parser.Integral.{to_string}

-- What is written to the standard output, and how the run ends.
pub record Run : Type 0 where
  pub output : Text
  pub ended : Outcome (Unit {0})

-- A line, ended.
abbrev pub line : Text → Text
line s = s ++ 10 ∷ []

abbrev pub write : Text → Run
write s = record { output = s; ended = returns tt }

-- The second run begins when the first one has not thrown.
unfoldable pub and_then : Run → Run → Run
and_then first second = elim first.ended [
  | returns u ↦ record second { output = first.output ++ second.output }
  | throws x ↦ first
]

-- A computation and what is done with its result.
unfoldable pub run_with {ℓ} : {A : Type ℓ} → Outcome A → (A → Run) → Run
run_with (returns a) f = f a
run_with (throws x) f = record { output = []; ended = throws x }

-- The loop over the rows.
unfoldable pub print_rows {ℓ} :
    {Row : Type 0} {T : Type ℓ} → DbMapping Row T → (T → Text) → List Row → Run
unfolding and_then run_with
print_rows mapping shown [] = write []
print_rows mapping shown (r ∷ rs) =
    let rest = print_rows mapping shown rs in
    run_with (map_row_to mapping r) (λ value. and_then (write (line (shown value))) rest)

unfoldable pub price_line : (db : Database) → OrderPrice db → Text
price_line db price = to_string price.id ++ (text " = " ++ db.print_double price.total)

unfoldable pub user_line : User → Text
user_line user =
    text "user "
    ++ (to_string user.id
        ++ (text ": "
            ++ (user.status
                ++ (text ", created_at "
                    ++ (user.created_at ++ (text ", updated_at " ++ user.updated_at))))))

-- value_or("NULL")
abbrev pub name_or_null : Option Text → Text
name_or_null none = text "NULL"
name_or_null (some name) = name

unfoldable pub profile_line : UserProfile → Text
profile_line user =
    text "user " ++ (to_string user.user_id ++ (text ": " ++ name_or_null user.display_name))

module _ (db : Database) where
  unfoldable pub calculate_order_price : Run
  unfolding run_with and_then print_rows
  calculate_order_price =
      run_with (db.exec (text "SELECT id, calculate_order_total(id) AS total FROM \"Orders\";") 2)
        (λ rows.
          and_then (write (line (text "printing all prices:")))
            (print_rows (price_mapping db) (price_line db) rows))

  unfoldable pub get_all_users : Run
  unfolding run_with and_then print_rows
  get_all_users = run_with (db.exec (text "SELECT * FROM \"Users\";") 4) (λ rows.
      and_then (write (line (text "printing all users:")))
        (print_rows (user_mapping db) user_line rows))

  unfoldable pub get_all_user_profiles : Run
  unfolding run_with and_then print_rows
  get_all_user_profiles = run_with (db.exec (text "SELECT * FROM \"UserProfiles\";") 2) (λ rows.
      and_then (write (line (text "printing all user profiles:")))
        (print_rows (profile_mapping db) profile_line rows))

  unfoldable pub get_db_version : Outcome Text
  get_db_version = db.exec_first (text "SELECT version()")

-- The body of main: the connection gives the database.
module _ (connect : Text → Outcome Database) where
  unfoldable pub report_all : Run
  unfolding run_with and_then calculate_order_price get_all_users get_all_user_profiles
      get_db_version
  report_all =
      run_with
        (connect (
          form_connection_string (text "ecommerce") (text "ecommerce") (text "ecommerce")
            (text "localhost") (pos 5432)))
        (λ db. and_then (write (text "DB version: ")) (
          and_then (run_with (get_db_version db) (λ version. write (line version))) (
            and_then (calculate_order_price db)
              (and_then (get_all_users db) (get_all_user_profiles db)))))

  -- main: what is printed, and the code that is returned.
  unfoldable pub process_orders_main : Text × Option ℕ
  unfolding exit_code report_all
  process_orders_main = ((report_all).output, exit_code (report_all).ended)
