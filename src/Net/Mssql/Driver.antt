-- ===== src/Net/Mssql/Driver.antt =====
-- What net/mssqlConsumer.cpp relies on of ODBC, and a small driver that does it.
use lobbysvr.Base.{
  ℕ, zero, suc, ◌≡◌, refl, ap, ==_refl, Bool, true, false, List, Option, none, some, arith, ◌==◌,
  if◌then◌else◌,
}
use lobbysvr.Net.Mssql.{
  SqlReturn, sql_success, sql_no_data, sql_error, sql_invalid_handle, is_error, sql_succeeded,
  HandleType, handle_env, handle_dbc, handle_stmt, FreeOption, sql_unbind, sql_close,
  sql_reset_params, Target, Odbc,
}

-- A connection or statement is not made of a null handle, and an environment that is not made gives one.
pub record RefusesNull (O : Odbc) : Type 0 where
  pub env_error :
      (s : O.State)
      → is_error (O.alloc_handle handle_env 0 s).0 ≡ true
      → (O.alloc_handle handle_env 0 s).1 ≡ 0
  pub alloc_null : (s : O.State) → O.alloc_handle handle_dbc 0 s ≡ (sql_invalid_handle, 0, s)
  pub connect_null :
      (server uid upw : List ℕ) (s : O.State)
      → O.connect 0 server uid upw s ≡ (sql_invalid_handle, s)

-- Connections that are open: `connect` opens one, `SQLFreeHandle` fails on an open one and leaves it, and statements
-- are made and freed without an effect on them.
pub record Connections (O : Odbc) : Type 0 where
  pub is_open : O.State → ℕ → Bool
  pub connect_opens :
      (h : ℕ) (server uid upw : List ℕ) (s : O.State)
      → sql_succeeded (O.connect h server uid upw s).0 ≡ true
      → is_open (O.connect h server uid upw s).1 h ≡ true
  pub free_open :
      (h : ℕ) (s : O.State) → is_open s h ≡ true → is_open (O.free_handle handle_dbc h s) h ≡ true
  pub alloc_stmt_open :
      (h parent : ℕ) (s : O.State)
      → is_open s h ≡ true
      → is_open (O.alloc_handle handle_stmt parent s).2 h ≡ true
  pub free_stmt_open :
      (h stmt : ℕ) (s : O.State)
      → is_open s h ≡ true
      → is_open (O.free_handle handle_stmt stmt s) h ≡ true

-- The columns of a statement that are bound.
pub record Bindings (O : Odbc) : Type 0 where
  pub bound : O.State → ℕ → ℕ → Option Target
  pub bind_bound :
      (h column k : ℕ) (t : Target) (s : O.State)
      → bound (O.bind_col h column t s) h k ≡ (if k == column then some t else bound s h k)
  pub unbind_bound : (h k : ℕ) (s : O.State) → bound (O.free_stmt h sql_unbind s) h k ≡ none

-- A driver of one connection and one statement, which has memory or not, and fails every query with one state.
pub record Small : Type 0 where
  pub memory : Bool
  pub connections : ℕ → Bool
  pub columns : ℕ → Option Target
  pub state : List ℕ

abbrev env_handle : Bool → Small → SqlReturn × ℕ × Small
env_handle true s = (sql_success, 1, s)
env_handle false s = (sql_error, 0, s)

abbrev small_alloc : HandleType → ℕ → Small → SqlReturn × ℕ × Small
small_alloc handle_env parent s = env_handle s.memory s
small_alloc handle_dbc zero s = (sql_invalid_handle, 0, s)
small_alloc handle_dbc (suc parent) s = (sql_success, 2, s)
small_alloc handle_stmt zero s = (sql_invalid_handle, 0, s)
small_alloc handle_stmt (suc parent) s = (sql_success, 3, s)

abbrev small_connect : ℕ → List ℕ → List ℕ → List ℕ → Small → SqlReturn × Small
small_connect zero server uid upw s = (sql_invalid_handle, s)
small_connect (suc h) server uid upw s =
    (sql_success, record s { connections = λ k. if k == suc h then true else s.connections k })

abbrev small_free_stmt : ℕ → FreeOption → Small → Small
small_free_stmt h sql_unbind s = record s { columns = λ k. none }
small_free_stmt h sql_close s = s
small_free_stmt h sql_reset_params s = s

abbrev pub small : Odbc
small = record {
  State = Small;
  set_connection_pooling = λ s. s;
  set_odbc_version = λ h s. s;
  alloc_handle = small_alloc;
  free_handle = λ type h s. s;
  connect = small_connect;
  free_stmt = small_free_stmt;
  exec_direct = λ h query s. (sql_error, s);
  get_diag_rec = λ h s. some s.state;
  num_result_cols = λ h n s. (sql_success, 0);
  fetch = λ h s. (sql_no_data, s);
  more_results = λ h s. (sql_no_data, s);
  bind_col =
      λ h column t s. record s { columns = λ k. if k == column then some t else s.columns k };
}

error_refused : (m : Bool) (s : Small) → is_error (env_handle m s).0 ≡ true → (env_handle m s).1 ≡ 0
unfolding is_error
error_refused true s e = ground arith
error_refused false s e = refl

pub small-RefusesNull : RefusesNull small
small-RefusesNull = record {
  env_error = λ s e. error_refused s.memory s e;
  alloc_null = λ s. refl;
  connect_null = λ server uid upw s. refl;
}

small_opens :
    (h : ℕ) (server uid upw : List ℕ) (s : Small)
    → sql_succeeded (small_connect h server uid upw s).0 ≡ true
    → (small_connect h server uid upw s).1.connections h ≡ true
unfolding sql_succeeded
small_opens zero server uid upw s e = ground arith
small_opens (suc h) server uid upw s e =
    ap (λ b. if b then true else s.connections (suc h)) (==_refl (suc h))

small_keeps :
    (h parent : ℕ) (s : Small)
    → s.connections h ≡ true
    → (small_alloc handle_stmt parent s).2.connections h ≡ true
small_keeps h zero s e = e
small_keeps h (suc parent) s e = e

pub small-Connections : Connections small
small-Connections = record {
  is_open = λ s h. s.connections h;
  connect_opens = small_opens;
  free_open = λ h s e. e;
  alloc_stmt_open = small_keeps;
  free_stmt_open = λ h stmt s e. e;
}

pub small-Bindings : Bindings small
small-Bindings = record {
  bound = λ s h k. s.columns k;
  bind_bound = λ h column k t s. refl;
  unbind_bound = λ h k s. refl;
}
