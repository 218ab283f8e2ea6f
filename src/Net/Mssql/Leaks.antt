-- ===== src/Net/Mssql/Leaks.antt =====
-- The connections that `DBConnection` of net/mssqlConsumer.cpp opens.
use lobbysvr.Base.{ℕ, ◌≡◌, refl, sym, ◌∙◌, subst, Bool, true, false, ◌==◌, if◌then◌else◌}
use lobbysvr.Net.Mssql.{
  is_error, sql_succeeded, SqlReturn, sql_success, sql_success_with_info, sql_no_data,
  sql_need_data, sql_error, sql_invalid_handle, handle_dbc, handle_stmt, Odbc, Statics,
  DbConnection, free_unless_null, connection_failed, alloc_stmt, connect_dbc, new_connection,
  delete_connection,
}
use lobbysvr.Net.Mssql.Opening.{if_false}
use lobbysvr.Net.Mssql.Driver.{Connections}

success-is_error : (code : SqlReturn) → sql_succeeded code ≡ true → is_error code ≡ false
unfolding sql_succeeded is_error
success-is_error sql_success e = refl
success-is_error sql_success_with_info e = refl
success-is_error sql_no_data e = refl
success-is_error sql_need_data e = refl
success-is_error sql_error e = sym e
success-is_error sql_invalid_handle e = refl

module _ {O : Odbc} (L : Connections O) (h : ℕ) where
  abbrev IsOpen : O.State → Type 0
  IsOpen s = L.is_open s h ≡ true

  either : {A : Type 0} (P : A → Type 0) (b : Bool) (x y : A) → P x → P y → P (if b then x else y)
  either P true x y p q = p
  either P false x y p q = q

  -- What the constructor's result leaves of the handle, whichever way it ends.
  abbrev Left : DbConnection × Statics O → Type 0
  Left r = IsOpen (delete_connection r.0 r.1).odbc

  free_dbc-IsOpen : (d : Statics O) → IsOpen d.odbc → IsOpen (free_unless_null handle_dbc h d).odbc
  unfolding free_unless_null
  free_dbc-IsOpen d open_before =
      either (λ (e : Statics O). IsOpen e.odbc) (h == 0) _ _ open_before
        (L.free_open h d.odbc open_before)

  free_stmt-IsOpen :
      (stmt : ℕ) (d : Statics O) → IsOpen d.odbc → IsOpen (free_unless_null handle_stmt stmt d).odbc
  unfolding free_unless_null
  free_stmt-IsOpen stmt d open_before =
      either (λ (e : Statics O). IsOpen e.odbc) (stmt == 0) _ _ open_before
        (L.free_stmt_open h stmt d.odbc open_before)

  delete-IsOpen :
      (stmt : ℕ) (d : Statics O) → IsOpen d.odbc → Left (record { h_dbc = h; h_stmt = stmt }, d)
  unfolding delete_connection
  delete-IsOpen stmt d open_before = free_dbc-IsOpen _ (free_stmt-IsOpen stmt d open_before)

  failed-IsOpen : (stmt : ℕ) (d : Statics O) → IsOpen d.odbc → Left (connection_failed h stmt d)
  unfolding delete_connection connection_failed free_unless_null
  failed-IsOpen stmt d open_before = free_stmt-IsOpen stmt _ (free_dbc-IsOpen d open_before)

  alloc_stmt-IsOpen : (d : Statics O) → IsOpen d.odbc → Left (alloc_stmt h d)
  unfolding alloc_stmt
  alloc_stmt-IsOpen d open_before =
      let (code, stmt, odbc) = O.alloc_handle handle_stmt h d.odbc in
      let still = L.alloc_stmt_open h h d.odbc open_before in
      either Left (is_error code) _ _ (failed-IsOpen stmt (record d { odbc = odbc }) still)
        (delete-IsOpen stmt (record d { odbc = odbc }) still)

module _ {O : Odbc} where
  -- What the constructor gets for the handle of its connection.
  abbrev pub dbc_made : Statics O → SqlReturn × ℕ × O.State
  dbc_made d = O.alloc_handle handle_dbc d.henv d.odbc

  -- A connection that `DBConnection` has opened is still open when the object has been constructed, with a statement
  -- or without, and destroyed: `SQLDisconnect` is never called, and `SQLFreeHandle` fails on an open connection.
  pub delete_connection-new_connection :
      (L : Connections O) (d : Statics O)
      → is_error (dbc_made d).0 ≡ false
      → sql_succeeded (O.connect (dbc_made d).1 d.server d.id d.password (dbc_made d).2).0 ≡ true
      → L.is_open (delete_connection (new_connection d).0 (new_connection d).1).odbc (dbc_made d).1
        ≡ true
  unfolding new_connection connect_dbc
  delete_connection-new_connection L d made connected =
      let (code, h, odbc) = dbc_made d in
      let now = L.connect_opens h d.server d.id d.password odbc connected in
      let after = record d { odbc = (O.connect h d.server d.id d.password odbc).1 } in
      subst (Left L h) (sym (if_false _ _ _ made ∙ if_false _ _ _ (success-is_error _ connected)))
        (alloc_stmt-IsOpen L h after now)
