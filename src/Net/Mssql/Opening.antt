-- ===== src/Net/Mssql/Opening.antt =====
-- What `DBConsumer::Open` of net/mssqlConsumer.cpp returns.
use lobbysvr.Base.{
  ℕ, zero, suc, ◌<◌, ◌≡◌, refl, sym, ap, ◌∙◌, Bool, true, false, List, Option, some, arith, not,
  ◌&&◌, if◌then◌else◌,
}
use lobbysvr.Net.Mssql.{
  SqlReturn, sql_success, sql_success_with_info, sql_no_data, sql_need_data, sql_error,
  sql_invalid_handle, is_success, is_success_with_info, is_error, handle_env, handle_dbc, Odbc,
  Statics, connect_loop, opened, open_connection, open_db,
}
use lobbysvr.Net.Mssql.Driver.{RefusesNull}

-- The state after some attempts to connect, and what the attempt after them returns.
abbrev pub attempted : (O : Odbc) → ℕ → ℕ → (server uid upw : List ℕ) → O.State → O.State
attempted O zero h server uid upw s = s
attempted O (suc k) h server uid upw s =
    attempted O k h server uid upw (O.connect h server uid upw s).1

abbrev pub answer : (O : Odbc) → ℕ → ℕ → (server uid upw : List ℕ) → O.State → SqlReturn
answer O k h server uid upw s = (O.connect h server uid upw (attempted O k h server uid upw s)).0

success_or_not :
    (code : SqlReturn)
    → is_success_with_info code ≡ false
    → (not (is_success code) && is_success_with_info code) ≡ false
unfolding is_success is_success_with_info
success_or_not sql_success e = refl
success_or_not sql_success_with_info e = e
success_or_not sql_no_data e = refl
success_or_not sql_need_data e = refl
success_or_not sql_error e = refl
success_or_not sql_invalid_handle e = refl

error_quiet : (code : SqlReturn) → is_error code ≡ true → is_success_with_info code ≡ false
unfolding is_error is_success_with_info
error_quiet sql_success e = refl
error_quiet sql_success_with_info e = sym e
error_quiet sql_no_data e = refl
error_quiet sql_need_data e = refl
error_quiet sql_error e = refl
error_quiet sql_invalid_handle e = refl

pub if_false : {A : Type 0} (b : Bool) (x y : A) → b ≡ false → (if b then x else y) ≡ y
if_false b x y e = ap (λ c. if c then x else y) e

module _ {O : Odbc} where
  if_either :
      (b : Bool) (o : Option (Statics O)) (p f : Statics O)
      → o ≡ some f
      → (e : Statics O) × ((if b then o else some p) ≡ some e)
  if_either true o p f g = (f, g)
  if_either false o p f g = (p, refl)

  pub connect_loop-returns :
      (k attempts h : ℕ) (d : Statics O)
      → k < attempts
      → is_error (answer O k h d.server d.id d.password d.odbc) ≡ false
      → (e : Statics O) × (connect_loop attempts h d ≡ some e)
  unfolding connect_loop
  connect_loop-returns k zero h d b e = absurd (omega arith)
  connect_loop-returns zero (suc attempts) h d b e = (
    record d { odbc = O.free_handle handle_dbc h (O.connect h d.server d.id d.password d.odbc).1 },
    ap
        (λ b.
          if b
          then connect_loop attempts h
              (record d { odbc = (O.connect h d.server d.id d.password d.odbc).1 })
          else some (record d {
            odbc = O.free_handle handle_dbc h (O.connect h d.server d.id d.password d.odbc).1;
          }))
        e,
  )
  connect_loop-returns (suc k) (suc attempts) h d b e =
      let next = record d { odbc = (O.connect h d.server d.id d.password d.odbc).1 } in
      let (f, g) = connect_loop-returns k attempts h next (omega arith) e in
      if_either (is_error (O.connect h d.server d.id d.password d.odbc).0)
        (connect_loop attempts h next) _ f g

  -- The handles of the environment and of the connection that `Open` asks for.
  abbrev pub env : Statics O → SqlReturn × ℕ × O.State
  env d = O.alloc_handle handle_env 0 (O.set_connection_pooling d.odbc)

  abbrev pub dbc : Statics O → SqlReturn × ℕ × O.State
  dbc d = O.alloc_handle handle_dbc (env d).1 (O.set_odbc_version (env d).1 (env d).2)

  -- When `k` attempts of `SQLConnect` may fail and the next does not, `Open` returns true, if the environment comes
  -- without a warning and the connection's handle without an error, and the loop may make more than `k` attempts.
  pub open_db-returns :
      (k attempts : ℕ) (server uid upw : List ℕ) (d : Statics O)
      → is_success_with_info (env d).0 ≡ false
      → is_error (dbc d).0 ≡ false
      → k < attempts
      → is_error (answer O k (dbc d).1 server uid upw (dbc d).2) ≡ false
      → (e : Statics O) × (open_db attempts server uid upw d ≡ some (true, e))
  unfolding open_db open_connection opened
  open_db-returns k attempts server uid upw d quiet made b e =
      let named = record d {
        odbc = (dbc d).2;
        henv = (env d).1;
        server = server;
        id = uid;
        password = upw;
      } in
      let (f, g) = connect_loop-returns k attempts (dbc d).1 named b e in
      (f, if_false _ _ _ (success_or_not (env d).0 quiet) ∙ if_false _ _ _ made ∙ ap opened g)

  -- `Open` returns true when the environment could not be allocated: the connection's handle is then null too, and
  -- the loop stops at the first code other than SQL_ERROR, which SQL_INVALID_HANDLE is.
  pub open_db-no_env :
      RefusesNull O
      → (attempts : ℕ) (server uid upw : List ℕ) (d : Statics O) → 0 < attempts
      → is_error (env d).0 ≡ true
      → (e : Statics O) × (open_db attempts server uid upw d ≡ some (true, e))
  unfolding is_error
  open_db-no_env refuses attempts server uid upw d b e =
      let s = O.set_odbc_version (env d).1 (env d).2 in
      let null : dbc d ≡ (sql_invalid_handle, 0, s) =
        ap (λ h. O.alloc_handle handle_dbc h s)
          (refuses.env_error (O.set_connection_pooling d.odbc) e)
        ∙ refuses.alloc_null s in
      open_db-returns 0 attempts server uid upw d (error_quiet (env d).0 e)
        (ap (λ r. is_error r.0) null) b
        (ap (λ r. is_error (O.connect r.1 server uid upw r.2).0) null
          ∙ ap (λ r. is_error r.0) (refuses.connect_null server uid upw s))
