-- ===== src/Database/Printing.antt =====
-- What the main of services/ProcessOrdersService/main.cpp prints for a database's contents.
use ecommerce_platform.Prelude.{◌≡◌, refl, ap, List, ◌++◌, some, Text, text}
use ecommerce_platform.Database.{
  Database, OrderPrice, set_field, set_fields, map_row_to, price_mapping, user_mapping,
  profile_mapping, form_connection_string,
}
use ecommerce_platform.Database.Reports.{
  Run, line, write, and_then, run_with, price_line, user_line, profile_line, calculate_order_price,
  get_all_users, get_all_user_profiles, get_db_version, report_all, process_orders_main,
}
use ecommerce_platform.Database.Rows.{AreRowsOf, IsReadAs, AreRowsOf-map, all_lines, print_rows_lem}
use ecommerce_platform.Dto.User.{User}
use ecommerce_platform.Dto.UserProfile.{UserProfile}
use ecommerce_platform.Http.Error.{Outcome, returns, exit_code}
use ecommerce_platform.Parser.Integral.{to_string}

module _ (db : Database) where
  open db use {Row, as_int64, as_double, as_string, as_optional_string}

  -- A row whose columns are converted to the members.
  pub record IsPriceRow (row : Row) (p : OrderPrice db) : Type 0 where
    pub price_id : as_int64 row (text "id") ≡ returns p.id
    pub price_total : as_double row (text "total") ≡ returns p.total

  pub record IsUserRow (row : Row) (u : User) : Type 0 where
    pub user_id : as_int64 row (text "id") ≡ returns u.id
    pub user_status : as_string row (text "status") ≡ returns u.status
    pub user_created : as_string row (text "created_at") ≡ returns u.created_at
    pub user_updated : as_string row (text "updated_at") ≡ returns u.updated_at

  pub record IsProfileRow (row : Row) (p : UserProfile) : Type 0 where
    pub profile_id : as_int64 row (text "user_id") ≡ returns p.user_id
    pub profile_name : as_optional_string row (text "display_name") ≡ returns p.display_name

  price_read :
      (row : Row) (p : OrderPrice db)
      → IsPriceRow row p
      → IsReadAs (price_mapping db) (price_line db) row p
  unfolding map_row_to set_fields set_field
  price_read row p h = rw (h.price_id, h.price_total) refl

  pub user_read :
      (row : Row) (u : User) → IsUserRow row u → IsReadAs (user_mapping db) user_line row u
  unfolding map_row_to set_fields set_field
  user_read row u h = rw (h.user_id, h.user_status, h.user_created, h.user_updated) refl

  profile_read :
      (row : Row) (p : UserProfile)
      → IsProfileRow row p
      → IsReadAs (profile_mapping db) profile_line row p
  unfolding map_row_to set_fields set_field
  profile_read row p h = rw (h.profile_id, h.profile_name) refl

  -- The tables of a database that can be read.
  pub record Holds (version : Text) (prices : List (OrderPrice db)) (users : List User)
      (profiles : List UserProfile) : Type 0 where
    pub has_version : db.exec_first (text "SELECT version()") ≡ returns version
    pub price_rows : List Row
    pub has_prices :
        db.exec (text "SELECT id, calculate_order_total(id) AS total FROM \"Orders\";") 2
        ≡ returns price_rows
    pub are_prices : AreRowsOf IsPriceRow price_rows prices
    pub user_rows : List Row
    pub has_users : db.exec (text "SELECT * FROM \"Users\";") 4 ≡ returns user_rows
    pub are_users : AreRowsOf IsUserRow user_rows users
    pub profile_rows : List Row
    pub has_profiles : db.exec (text "SELECT * FROM \"UserProfiles\";") 2 ≡ returns profile_rows
    pub are_profiles : AreRowsOf IsProfileRow profile_rows profiles

module _ (connect : Text → Outcome Database) where
  report_all_lem :
      (db : Database)
      → connect (text "dbname=ecommerce user=ecommerce password=ecommerce host=localhost port=5432")
        ≡ returns db
      → (version : Text) (prices : List (OrderPrice db)) (users : List User)
        (profiles : List UserProfile)
      → Holds db version prices users profiles
      → report_all connect
        ≡ write (
            text "DB version: "
            ++ (line version
                ++ ((line (text "printing all prices:") ++ all_lines (price_line db) prices)
                    ++ ((line (text "printing all users:") ++ all_lines user_line users)
                        ++ (line (text "printing all user profiles:")
                            ++ all_lines profile_line profiles)))))
  unfolding report_all form_connection_string to_string run_with and_then get_db_version
      calculate_order_price get_all_users get_all_user_profiles
  report_all_lem db e version prices users profiles h =
      rw
        (
          e,
          h.has_version,
          h.has_prices,
          h.has_users,
          h.has_profiles,
          print_rows_lem (price_mapping db) (price_line db) h.price_rows prices
              (AreRowsOf-map _ _ (price_read db) _ _ h.are_prices),
          print_rows_lem (user_mapping db) user_line h.user_rows users
              (AreRowsOf-map _ _ (user_read db) _ _ h.are_users),
          print_rows_lem (profile_mapping db) profile_line h.profile_rows profiles
              (AreRowsOf-map _ _ (profile_read db) _ _ h.are_profiles),
        )
        refl

  -- With a connection to a database that holds a version, order prices, users and profiles, the
  -- program prints all of them, one line for each in the order of the rows, and returns 0.
  pub process_orders_main_lem :
      (db : Database)
      → connect (text "dbname=ecommerce user=ecommerce password=ecommerce host=localhost port=5432")
        ≡ returns db
      → (version : Text) (prices : List (OrderPrice db)) (users : List User)
        (profiles : List UserProfile)
      → Holds db version prices users profiles
      → process_orders_main connect ≡ (
        text "DB version: "
            ++ (line version
                ++ ((line (text "printing all prices:") ++ all_lines (price_line db) prices)
                    ++ ((line (text "printing all users:") ++ all_lines user_line users)
                        ++ (line (text "printing all user profiles:")
                            ++ all_lines profile_line profiles)))),
        some 0,
      )
  unfolding process_orders_main exit_code
  process_orders_main_lem db e version prices users profiles h =
      ap (λ (r : Run). (r.output, exit_code r.ended))
        (report_all_lem db e version prices users profiles h)
