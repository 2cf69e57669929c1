-- ===== src/Database/Collecting.antt =====
-- GetAllUsers of services/CreateOrdersService/main.cpp that fills json["users"]: the values of that
-- array are the argument and the result, which stays also when an exception ends the loop.
use ecommerce_platform.Prelude.{
  ◌≡◌, refl, sym, ap, ◌∙◌, List, [], ◌∷◌, ◌++◌, map, append_assoc, append-nil, some, text,
}
use ecommerce_platform.Database.{Database, map_row_to, user_mapping}
use ecommerce_platform.Database.Printing.{IsUserRow, user_read}
use ecommerce_platform.Database.Reports.{user_line}
use ecommerce_platform.Database.Rows.{AreRowsOf, first_failure, map_row_to-throws}
use ecommerce_platform.Dto.User.{User, to_json}
use ecommerce_platform.Http.Error.{Exception, Outcome, returns, throws, go_on}
use ecommerce_platform.Http.Json.{JsonLibrary}

module _ (lib : JsonLibrary) (db : Database) where
  open lib use {Json}
  open db use {Row}

  -- The loop over the rows.
  unfoldable pub push_users : List Row → List Json → List Json × Outcome (Unit {0})
  push_users [] users = (users, returns tt)
  push_users (r ∷ rs) users =
      go_on (map_row_to (user_mapping db) r) users
        (λ user. push_users rs (users ++ to_json lib user ∷ []))

  unfoldable pub get_all_users_json : List Json → List Json × Outcome (Unit {0})
  unfolding push_users
  get_all_users_json users =
      go_on (db.exec (text "SELECT * FROM \"Users\";") 4) users (λ rows. push_users rows users)

  push_users-append :
      (rows more : List Row) (xs : List User) (users : List Json)
      → AreRowsOf (IsUserRow db) rows xs
      → push_users (rows ++ more) users ≡ push_users more (users ++ map (to_json lib) xs)
  unfolding push_users
  push_users-append [] more [] users h = ap (push_users more) (sym (append-nil users))
  push_users-append [] more (x ∷ xs) users h = absurd h
  push_users-append (r ∷ rs) more [] users h = absurd h
  push_users-append (r ∷ rs) more (x ∷ xs) users (e, h) = rw (user_read db r x e) (
      push_users-append rs more xs (users ++ to_json lib x ∷ []) h
      ∙ ap (push_users more) (append_assoc users (to_json lib x ∷ []) (map (to_json lib) xs)))

  -- The users of a table are put behind those that the JSON array has, in the order of the rows; if
  -- a row is not read, those of the rows before it are, and what its first column throws that is not
  -- converted ends the call.
  pub get_all_users_json_lem :
      (rows : List Row) (xs : List User) (users : List Json)
      → AreRowsOf (IsUserRow db) rows xs
      → (db.exec (text "SELECT * FROM \"Users\";") 4 ≡ returns rows
          → get_all_users_json users ≡ (users ++ map (to_json lib) xs, returns tt))
        × ((bad : Row) (rest : List Row) (x : Exception)
            → db.exec (text "SELECT * FROM \"Users\";") 4 ≡ returns (rows ++ bad ∷ rest)
            → first_failure bad (user_mapping db).fields ≡ some x
            → get_all_users_json users ≡ (users ++ map (to_json lib) xs, throws x))
  unfolding get_all_users_json
  get_all_users_json_lem rows xs users h = (
    (λ e. rw e (
        ap (λ rs. push_users rs users) (sym (append-nil rows))
        ∙ push_users-append rows [] xs users h)),
    (λ bad rest x e f. rw e (
        push_users-append rows (bad ∷ rest) xs users h
        ∙ rw (map_row_to-throws (user_mapping db) user_line bad x f) refl)),
  )
