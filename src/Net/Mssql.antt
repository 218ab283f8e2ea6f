-- ===== src/Net/Mssql.antt =====
-- The connections of net/mssqlConsumer.cpp to a database: `DBConsumer::Open` and `Close`, and the constructor and
-- destructor of `DBConnection`, over the functions of ODBC that they call.
pub mod Consumer
pub mod Driver
pub mod Opening
pub mod Leaks
pub mod Columns
pub mod Disconnects
mod Tests
use lobbysvr.Base.{
  ℕ, zero, suc, Bool, true, false, List, [], ◌∷◌, ◌++◌, Option, none, some, ◌==◌, not, ◌&&◌,
  if◌then◌else◌,
}

-- The codes that a function of ODBC returns.
pub data SqlReturn : Type 0 where
  sql_success sql_success_with_info sql_no_data sql_need_data sql_error sql_invalid_handle :
      SqlReturn

unfoldable pub is_success : SqlReturn → Bool
is_success sql_success = true
is_success sql_success_with_info = false
is_success sql_no_data = false
is_success sql_need_data = false
is_success sql_error = false
is_success sql_invalid_handle = false

unfoldable pub is_success_with_info : SqlReturn → Bool
is_success_with_info sql_success_with_info = true
is_success_with_info sql_success = false
is_success_with_info sql_no_data = false
is_success_with_info sql_need_data = false
is_success_with_info sql_error = false
is_success_with_info sql_invalid_handle = false

-- `SQL_SUCCEEDED`.
unfoldable pub sql_succeeded : SqlReturn → Bool
sql_succeeded sql_success_with_info = true
sql_succeeded sql_success = true
sql_succeeded sql_no_data = false
sql_succeeded sql_need_data = false
sql_succeeded sql_error = false
sql_succeeded sql_invalid_handle = false

unfoldable pub is_error : SqlReturn → Bool
is_error sql_error = true
is_error sql_success = false
is_error sql_success_with_info = false
is_error sql_no_data = false
is_error sql_need_data = false
is_error sql_invalid_handle = false

pub data HandleType : Type 0 where
  handle_env handle_dbc handle_stmt : HandleType

pub data FreeOption : Type 0 where
  sql_unbind sql_close sql_reset_params : FreeOption

-- The types of C that columns are bound to.
pub data CType : Type 0 where
  c_tinyint c_long c_sbigint c_ubigint c_char c_timestamp : CType

-- A variable that a column is bound to, and the size that is passed for it.
pub record Target : Type 0 where
  pub c_type : CType
  pub variable : ℕ
  pub size : ℕ

-- ODBC, with a state of its own. A handle is a number, 0 the null handle; `alloc_handle` gives the code, the handle
-- and the state, and `get_diag_rec` the SQLSTATE of a statement's first record, if there is one;
-- `num_result_cols` takes what the variable holds and gives what it holds then.
pub record Odbc : Type 1 where
  pub State : Type 0
  pub set_connection_pooling : State → State
  pub set_odbc_version : ℕ → State → State
  pub alloc_handle : HandleType → ℕ → State → SqlReturn × ℕ × State
  pub free_handle : HandleType → ℕ → State → State
  pub connect : ℕ → List ℕ → List ℕ → List ℕ → State → SqlReturn × State
  pub free_stmt : ℕ → FreeOption → State → State
  pub exec_direct : ℕ → List ℕ → State → SqlReturn × State
  pub get_diag_rec : ℕ → State → Option (List ℕ)
  pub num_result_cols : ℕ → ℕ → State → SqlReturn × ℕ
  pub fetch : ℕ → State → SqlReturn × State
  pub more_results : ℕ → State → SqlReturn × State
  pub bind_col : ℕ → ℕ → Target → State → State

-- The static variables, with the texts that `shutdownFunc` was called with in place of the function.
pub record Statics (O : Odbc) : Type 0 where
  pub odbc : O.State
  pub henv : ℕ
  pub server : List ℕ
  pub id : List ℕ
  pub password : List ℕ
  pub shutdowns : List (List ℕ)

pub record DbConnection : Type 0 where
  pub h_dbc : ℕ
  pub h_stmt : ℕ

-- "Can't connect to SQL".
abbrev pub cannot_connect : List ℕ
cannot_connect =
    b'C' ∷ b'a' ∷ b'n' ∷ 39 ∷ b't' ∷ b' ' ∷ b'c' ∷ b'o' ∷ b'n' ∷ b'n' ∷ b'e' ∷ b'c' ∷ b't' ∷ b' '
    ∷ b't' ∷ b'o' ∷ b' ' ∷ b'S' ∷ b'Q' ∷ b'L' ∷ []

module _ {O : Odbc} where
  unfoldable pub free_unless_null : HandleType → ℕ → Statics O → Statics O
  free_unless_null type handle d =
      if handle == 0 then d else record d { odbc = O.free_handle type handle d.odbc }

  -- The loop of `Open`, for as many attempts as the first argument; `none` while every attempt fails.
  unfoldable pub connect_loop : ℕ → ℕ → Statics O → Option (Statics O)
  connect_loop zero h_dbc d = none
  connect_loop (suc attempts) h_dbc d =
      let (code, odbc) = O.connect h_dbc d.server d.id d.password d.odbc in
      let again = connect_loop attempts h_dbc (record d { odbc = odbc }) in
      if is_error code
      then again
      else some (record d { odbc = O.free_handle handle_dbc h_dbc odbc })

  -- The label `fail`.
  unfoldable pub open_failed : ℕ → Statics O → Bool × Statics O
  unfolding free_unless_null
  open_failed h_dbc d =
      let freed = free_unless_null handle_env d.henv (free_unless_null handle_dbc h_dbc d) in
      (false, record freed { henv = 0 })

  unfoldable pub opened : Option (Statics O) → Option (Bool × Statics O)
  opened none = none
  opened (some d) = some (true, d)

  unfoldable pub open_connection : ℕ → Statics O → Option (Bool × Statics O)
  unfolding opened
  open_connection attempts d =
      let (code, h_dbc, odbc) = O.alloc_handle handle_dbc d.henv d.odbc in
      let allocated = record d { odbc = odbc } in
      if is_error code
      then some (open_failed h_dbc allocated)
      else opened (connect_loop attempts h_dbc allocated)

  -- `Open`, for texts that fit their arrays.
  unfoldable pub open_db : ℕ → List ℕ → List ℕ → List ℕ → Statics O → Option (Bool × Statics O)
  unfolding open_connection open_failed
  open_db attempts server uid upw d =
      let (code, henv, odbc) = O.alloc_handle handle_env 0 (O.set_connection_pooling d.odbc) in
      let named = record d {
        odbc = odbc;
        henv = henv;
        server = server;
        id = uid;
        password = upw;
      } in
      if not (is_success code) && is_success_with_info code
      then some (open_failed 0 named)
      else open_connection attempts (record named { odbc = O.set_odbc_version henv odbc })

  -- `Close`.
  unfoldable pub close_db : Statics O → Statics O
  close_db d =
      if d.henv == 0
      then d
      else record d { odbc = O.free_handle handle_env d.henv d.odbc; henv = 0 }

  unfoldable pub shutdown : List ℕ → Statics O → Statics O
  shutdown text d = record d { shutdowns = d.shutdowns ++ text ∷ [] }

  -- The label `err`.
  unfoldable pub connection_failed : ℕ → ℕ → Statics O → DbConnection × Statics O
  unfolding free_unless_null
  connection_failed h_dbc h_stmt d =
      (record { h_dbc = 0; h_stmt = h_stmt }, free_unless_null handle_dbc h_dbc d)

  -- The constructor, from where a connection has been allocated, and from where it is connected.
  unfoldable pub alloc_stmt : ℕ → Statics O → DbConnection × Statics O
  unfolding connection_failed
  alloc_stmt h_dbc d =
      let (code, h_stmt, odbc) = O.alloc_handle handle_stmt h_dbc d.odbc in
      let allocated = record d { odbc = odbc } in
      if is_error code
      then connection_failed h_dbc h_stmt allocated
      else (record { h_dbc = h_dbc; h_stmt = h_stmt }, allocated)

  unfoldable pub connect_dbc : ℕ → Statics O → DbConnection × Statics O
  unfolding alloc_stmt connection_failed shutdown
  connect_dbc h_dbc d =
      let (code, odbc) = O.connect h_dbc d.server d.id d.password d.odbc in
      let tried = record d { odbc = odbc } in
      if is_error code
      then connection_failed h_dbc 0 (shutdown cannot_connect tried)
      else alloc_stmt h_dbc tried

  -- `DBConnection::DBConnection`.
  unfoldable pub new_connection : Statics O → DbConnection × Statics O
  unfolding connect_dbc connection_failed
  new_connection d =
      let (code, h_dbc, odbc) = O.alloc_handle handle_dbc d.henv d.odbc in
      let allocated = record d { odbc = odbc } in
      if is_error code then connection_failed h_dbc 0 allocated else connect_dbc h_dbc allocated

  -- `DBConnection::~DBConnection`.
  unfoldable pub delete_connection : DbConnection → Statics O → Statics O
  unfolding free_unless_null
  delete_connection c d =
      free_unless_null handle_dbc c.h_dbc (free_unless_null handle_stmt c.h_stmt d)
