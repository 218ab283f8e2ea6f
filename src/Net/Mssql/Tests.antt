-- ===== src/Net/Mssql/Tests.antt =====
-- The theorems on net/mssqlConsumer.cpp at a small driver.
use lobbysvr.Base.{ℕ, ◌≡◌, refl, Bool, true, false, List, [], ◌∷◌, some, none, arith}
use lobbysvr.Net.Console.{same_text}
use lobbysvr.Net.Mssql.{
  is_error, is_success, sql_succeeded, Statics, open_db, new_connection, delete_connection,
}
use lobbysvr.Net.Mssql.Driver.{Small, small, small-RefusesNull, small-Connections}
use lobbysvr.Net.Mssql.Opening.{open_db-no_env}
use lobbysvr.Net.Mssql.Leaks.{delete_connection-new_connection}
use lobbysvr.Net.Mssql.Consumer.{
  Consumer, int_at, chars_at, execute, execute_insert_unique, execute_no_data, link_failure,
  disconnected,
}
use lobbysvr.Net.Mssql.Columns.{Call, bound_to, skipped}
use lobbysvr.Net.Mssql.Disconnects.{execute-shutdowns}

abbrev driver : Bool → Small
driver memory = record {
  memory = memory;
  connections = λ h. false;
  columns = λ k. none;
  state = link_failure;
}

abbrev statics : Bool → ℕ → Statics small
statics memory henv = record {
  odbc = driver memory;
  henv = henv;
  server = [];
  id = [];
  password = [];
  shutdowns = [];
}

abbrev consumer : Consumer
consumer = record {
  h_stmt = 3;
  connection = record { h_dbc = 2; h_stmt = 3 };
  n_bind = 5;
  sz_query = [];
  result_columns = 0;
}

abbrev calls : List Call
calls = bound_to (int_at 7) ∷ skipped 2 ∷ bound_to (chars_at 8 256) ∷ []

open_db-no_env_example :
    (e : Statics small) × (open_db 4 [] [] [] (statics false 0) ≡ some (true, e))
unfolding is_error
open_db-no_env_example =
    open_db-no_env small-RefusesNull 4 [] [] [] (statics false 0) (omega arith) refl

delete_connection-new_connection_example :
    small-Connections.is_open
      (delete_connection
        (new_connection (statics true 1)).0
        (new_connection (statics true 1)).1).odbc
      2
    ≡ true
unfolding is_error sql_succeeded
delete_connection-new_connection_example =
    delete_connection-new_connection small-Connections (statics true 1) refl refl

execute-shutdowns_example :
    ((execute (some []) consumer (statics true 1)).2.shutdowns ≡ disconnected ∷ [])
    × ((execute_insert_unique (some []) consumer (statics true 1)).2.shutdowns ≡ disconnected ∷ [])
    × ((execute_no_data (some []) consumer (statics true 1)).2.shutdowns ≡ disconnected ∷ [])
unfolding is_success same_text
execute-shutdowns_example = execute-shutdowns [] consumer (statics true 1)
