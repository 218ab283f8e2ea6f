-- ===== src/Net/Mssql/Consumer.antt =====
-- `DBConsumer` of net/mssqlConsumer.cpp and net/mssqlConsumer.h: a statement, the columns it binds and the queries it
-- runs. The text of a query is what `_vsnprintf` makes of the format, `none` where it returns -1.
use lobbysvr.Base.{ℕ, suc, ◌+◌, Bool, true, false, List, [], ◌∷◌, Option, none, some, if◌then◌else◌}
use lobbysvr.Net.Console.{same_text}
use lobbysvr.Net.Mssql.{
  SqlReturn, sql_success, sql_success_with_info, sql_no_data, sql_need_data, sql_error,
  sql_invalid_handle, is_success, sql_succeeded, FreeOption, sql_unbind, sql_close,
  sql_reset_params, c_tinyint, c_long, c_sbigint, c_ubigint, c_char, c_timestamp, Target, Odbc,
  Statics, DbConnection, new_connection, shutdown,
}

pub record Consumer : Type 0 where
  pub h_stmt : ℕ
  pub connection : DbConnection
  pub n_bind : ℕ
  pub sz_query : List ℕ
  pub result_columns : ℕ

-- The states of ODBC that the code compares with.
abbrev pub link_failure : List ℕ
link_failure = b'0' ∷ b'8' ∷ b'S' ∷ b'0' ∷ b'1' ∷ []

abbrev pub integrity_violation : List ℕ
integrity_violation = b'2' ∷ b'3' ∷ b'0' ∷ b'0' ∷ b'0' ∷ []

-- "SQL Disconnected".
abbrev pub disconnected : List ℕ
disconnected =
    b'S' ∷ b'Q' ∷ b'L' ∷ b' ' ∷ b'D' ∷ b'i' ∷ b's' ∷ b'c' ∷ b'o' ∷ b'n' ∷ b'n' ∷ b'e' ∷ b'c' ∷ b't'
    ∷ b'e' ∷ b'd' ∷ []

-- A variable as the overloads of `Bind` take it, by its number; a text has a size. That `Bind` clears the variable is
-- not modelled, no more than what a fetch puts there.
pub data Variable : Type 0 where
  char_at unsigned_char_at int_at float_at int64_at uint64_at timestamp_at : ℕ → Variable
  chars_at string_at : ℕ → ℕ → Variable

-- `SQL_NTS` and so on are where the lengths go; they are not kept. A `TIMESTAMP_STRUCT` has 16 bytes.
unfoldable pub target : Variable → Target
target (char_at v) = record { c_type = c_tinyint; variable = v; size = 0 }
target (unsigned_char_at v) = record { c_type = c_tinyint; variable = v; size = 0 }
target (int_at v) = record { c_type = c_long; variable = v; size = 0 }
target (float_at v) = record { c_type = c_long; variable = v; size = 0 }
target (int64_at v) = record { c_type = c_sbigint; variable = v; size = 0 }
target (uint64_at v) = record { c_type = c_ubigint; variable = v; size = 0 }
target (timestamp_at v) = record { c_type = c_timestamp; variable = v; size = 16 }
target (chars_at v size) = record { c_type = c_char; variable = v; size = size }
target (string_at v size) = record { c_type = c_char; variable = v; size = size }

unfoldable pub skip : ℕ → Consumer → Consumer
skip n c = record c { n_bind = c.n_bind + n }

module _ {O : Odbc} where
  unfoldable pub new_consumer : Statics O → Consumer × Statics O
  new_consumer d =
      let (c, connected) = new_connection d in
      (
        record { h_stmt = c.h_stmt; connection = c; n_bind = 0; sz_query = []; result_columns = 0 },
        connected,
      )

  unfoldable pub free_stmt : FreeOption → ℕ → Statics O → Statics O
  free_stmt option h_stmt d = record d { odbc = O.free_stmt h_stmt option d.odbc }

  -- `DBConsumer::~DBConsumer`; the connection stays.
  unfoldable pub delete_consumer : Consumer → Statics O → Statics O
  unfolding free_stmt
  delete_consumer c d =
      free_stmt sql_reset_params c.h_stmt
        (free_stmt sql_close c.h_stmt (free_stmt sql_unbind c.h_stmt d))

  -- `Bind`, `Skip` and `Skip(n)`.
  unfoldable pub bind : Variable → Consumer → Statics O → Consumer × Statics O
  unfolding target
  bind v c d = (
    record c { n_bind = suc c.n_bind },
    record d { odbc = O.bind_col c.h_stmt (suc c.n_bind) (target v) d.odbc },
  )

  unfoldable pub reset : Consumer → Statics O → Consumer × Statics O
  unfolding free_stmt
  reset c d =
      (record c { n_bind = 0 }, free_stmt sql_close c.h_stmt (free_stmt sql_unbind c.h_stmt d))

  unfoldable pub un_bind : Consumer → Statics O → Consumer × Statics O
  unfolding free_stmt
  un_bind c d = (record c { n_bind = 0 }, free_stmt sql_unbind c.h_stmt d)

  -- What `szState` has the program do after a query has failed.
  unfoldable pub state_read : List ℕ → Statics O → Statics O
  unfolding shutdown
  state_read state d = if same_text state link_failure then shutdown disconnected d else d

  unfoldable pub diagnosed : Option (List ℕ) → Statics O → Statics O
  unfolding state_read
  diagnosed none d = d
  diagnosed (some state) d = state_read state d

  unfoldable pub query_failed : Consumer → Statics O → Statics O
  unfolding diagnosed
  query_failed c d = diagnosed (O.get_diag_rec c.h_stmt d.odbc) d

  unfoldable pub count_columns : Consumer → Statics O → Bool × Consumer × Statics O
  count_columns c d =
      let (code, columns) = O.num_result_cols c.h_stmt c.result_columns d.odbc in
      (sql_succeeded code, record c { result_columns = columns }, d)

  -- `Execute`, from where the query has been run, and whole.
  unfoldable pub executed : SqlReturn → Consumer → Statics O → Bool × Consumer × Statics O
  unfolding count_columns query_failed
  executed code c d = if is_success code then count_columns c d else (false, c, query_failed c d)

  unfoldable pub execute : Option (List ℕ) → Consumer → Statics O → Bool × Consumer × Statics O
  unfolding executed
  execute none c d = (false, c, d)
  execute (some query) c d =
      let (code, odbc) = O.exec_direct c.h_stmt query d.odbc in
      executed code (record c { sz_query = query }) (record d { odbc = odbc })

  -- `ExecuteInsertUnique`.
  unfoldable pub insert_diagnosed : Option (List ℕ) → Statics O → SqlReturn × Statics O
  unfolding state_read
  insert_diagnosed none d = (sql_error, d)
  insert_diagnosed (some state) d =
      if same_text state integrity_violation
      then (sql_success_with_info, d)
      else (sql_error, state_read state d)

  unfoldable pub inserted : SqlReturn → Consumer → Statics O → SqlReturn × Consumer × Statics O
  unfolding insert_diagnosed
  inserted code c d =
      let (result, after) = insert_diagnosed (O.get_diag_rec c.h_stmt d.odbc) d in
      if is_success code then (sql_success, c, d) else (result, c, after)

  unfoldable pub execute_insert_unique :
      Option (List ℕ) → Consumer → Statics O → SqlReturn × Consumer × Statics O
  unfolding inserted
  execute_insert_unique none c d = (sql_error, c, d)
  execute_insert_unique (some query) c d =
      let (code, odbc) = O.exec_direct c.h_stmt query d.odbc in
      inserted code (record c { sz_query = query }) (record d { odbc = odbc })

  -- `ExecuteNoData`.
  unfoldable pub no_data_executed : SqlReturn → Consumer → Statics O → Bool × Consumer × Statics O
  unfolding query_failed
  no_data_executed sql_success c d = (true, c, d)
  no_data_executed sql_no_data c d = (false, c, d)
  no_data_executed sql_success_with_info c d = (false, c, query_failed c d)
  no_data_executed sql_need_data c d = (false, c, query_failed c d)
  no_data_executed sql_error c d = (false, c, query_failed c d)
  no_data_executed sql_invalid_handle c d = (false, c, query_failed c d)

  unfoldable pub execute_no_data :
      Option (List ℕ) → Consumer → Statics O → Bool × Consumer × Statics O
  unfolding no_data_executed
  execute_no_data none c d = (false, c, d)
  execute_no_data (some query) c d =
      let (code, odbc) = O.exec_direct c.h_stmt query d.odbc in
      no_data_executed code (record c { sz_query = query }) (record d { odbc = odbc })

  unfoldable pub fetch : Consumer → Statics O → Bool × Statics O
  fetch c d =
      let (code, odbc) = O.fetch c.h_stmt d.odbc in (sql_succeeded code, record d { odbc = odbc })

  -- `FetchResultCode`: the variables of the code and of the message, which has 256 bytes, are the arguments.
  unfoldable pub fetch_result_code :
      (ret_code ret_msg : ℕ) → Consumer → Statics O → Bool × Consumer × Statics O
  unfolding bind fetch
  fetch_result_code ret_code ret_msg c d =
      let (one, bound) = bind (int_at ret_code) c d in
      let (two, both) = bind (chars_at ret_msg 256) one bound in
      let (found, fetched) = fetch two both in (found, two, fetched)

  unfoldable pub counted : SqlReturn → Consumer → Statics O → Bool × Consumer × Statics O
  unfolding count_columns
  counted code c d = if is_success code then count_columns c d else (false, c, d)

  unfoldable pub more_results : Consumer → Statics O → Bool × Consumer × Statics O
  unfolding un_bind counted
  more_results c d =
      let (unbound, cleared) = un_bind c d in
      let (code, odbc) = O.more_results c.h_stmt cleared.odbc in
      counted code unbound (record cleared { odbc = odbc })
