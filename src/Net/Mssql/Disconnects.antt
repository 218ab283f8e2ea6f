-- ===== src/Net/Mssql/Disconnects.antt =====
-- When the queries of net/mssqlConsumer.cpp tell the program that the database is gone.
use lobbysvr.Base.{
  ℕ, ◌≡◌, refl, sym, ap, ◌∙◌, Bool, true, false, List, [], ◌∷◌, ◌++◌, Option, none, some, not, ◌&&◌,
  if◌then◌else◌, append-nil,
}
use lobbysvr.Net.Console.{same_text}
use lobbysvr.Net.Console.Text.{same_text→≡}
use lobbysvr.Net.Mssql.{
  SqlReturn, sql_success, sql_success_with_info, sql_no_data, sql_need_data, sql_error,
  sql_invalid_handle, is_success, Odbc, Statics, shutdown,
}
use lobbysvr.Net.Mssql.Consumer.{
  Consumer, link_failure, integrity_violation, disconnected, state_read, diagnosed, query_failed,
  count_columns, executed, execute, insert_diagnosed, inserted, execute_insert_unique,
  no_data_executed, execute_no_data,
}

abbrev pub is_link_failure : Option (List ℕ) → Bool
is_link_failure none = false
is_link_failure (some state) = same_text state link_failure

abbrev pub told : Bool → List (List ℕ)
told true = disconnected ∷ []
told false = []

abbrev pub is_no_data : SqlReturn → Bool
is_no_data sql_no_data = true
is_no_data sql_success = false
is_no_data sql_success_with_info = false
is_no_data sql_need_data = false
is_no_data sql_error = false
is_no_data sql_invalid_handle = false

module _ {O : Odbc} where
  -- A query that did not succeed for the state 08S01.
  abbrev pub is_lost : List ℕ → Consumer → Statics O → Bool
  is_lost query c d =
      let (code, odbc) = O.exec_direct c.h_stmt query d.odbc in
      not (is_success code) && is_link_failure (O.get_diag_rec c.h_stmt odbc)

  state_read-told :
      (state : List ℕ) (d : Statics O)
      → (state_read state d).shutdowns ≡ d.shutdowns ++ told (same_text state link_failure)
  unfolding state_read shutdown
  state_read-told state d = each (same_text state link_failure)
    where
      each :
          (b : Bool)
          → (if b then record d { shutdowns = d.shutdowns ++ disconnected ∷ [] } else d).shutdowns
            ≡ d.shutdowns ++ told b
      each true = refl
      each false = sym (append-nil d.shutdowns)

  diagnosed-told :
      (diag : Option (List ℕ)) (d : Statics O)
      → (diagnosed diag d).shutdowns ≡ d.shutdowns ++ told (is_link_failure diag)
  unfolding diagnosed
  diagnosed-told none d = sym (append-nil d.shutdowns)
  diagnosed-told (some state) d = state_read-told state d

  insert-told :
      (diag : Option (List ℕ)) (d : Statics O)
      → (insert_diagnosed diag d).1.shutdowns ≡ d.shutdowns ++ told (is_link_failure diag)
  unfolding insert_diagnosed same_text
  insert-told none d = sym (append-nil d.shutdowns)
  insert-told (some state) d = each (same_text state integrity_violation) refl
    where
      each :
          (b : Bool)
          → same_text state integrity_violation ≡ b
          → (if◌then◌else◌ {A = SqlReturn × Statics O} b
              (sql_success_with_info, d)
              (sql_error, state_read state d)).1.shutdowns
            ≡ d.shutdowns ++ told (same_text state link_failure)
      each true e = sym (
          ap (λ s. d.shutdowns ++ told (same_text s link_failure))
            (same_text→≡ state integrity_violation e)
          ∙ append-nil d.shutdowns)
      each false e = state_read-told state d

  executed-told :
      (code : SqlReturn) (c : Consumer) (d : Statics O)
      → (executed code c d).2.shutdowns
        ≡ d.shutdowns
          ++ told (not (is_success code) && is_link_failure (O.get_diag_rec c.h_stmt d.odbc))
  unfolding executed count_columns query_failed
  executed-told code c d = each (is_success code)
    where
      each :
          (b : Bool)
          → (if b then count_columns c d else (false, c, query_failed c d)).2.shutdowns
            ≡ d.shutdowns ++ told (not b && is_link_failure (O.get_diag_rec c.h_stmt d.odbc))
      each true = sym (append-nil d.shutdowns)
      each false = diagnosed-told (O.get_diag_rec c.h_stmt d.odbc) d

  inserted-told :
      (code : SqlReturn) (c : Consumer) (d : Statics O)
      → (inserted code c d).2.shutdowns
        ≡ d.shutdowns
          ++ told (not (is_success code) && is_link_failure (O.get_diag_rec c.h_stmt d.odbc))
  unfolding inserted
  inserted-told code c d = each (is_success code)
    where
      each :
          (b : Bool)
          → (if◌then◌else◌ {A = SqlReturn × Consumer × Statics O} b
              (sql_success, c, d)
              (
                (insert_diagnosed (O.get_diag_rec c.h_stmt d.odbc) d).0,
                c,
                (insert_diagnosed (O.get_diag_rec c.h_stmt d.odbc) d).1,
              )).2.shutdowns
            ≡ d.shutdowns ++ told (not b && is_link_failure (O.get_diag_rec c.h_stmt d.odbc))
      each true = sym (append-nil d.shutdowns)
      each false = insert-told (O.get_diag_rec c.h_stmt d.odbc) d

  no_data_executed-told :
      (code : SqlReturn) (c : Consumer) (d : Statics O)
      → (no_data_executed code c d).2.shutdowns
        ≡ d.shutdowns
          ++ told (
              not (is_no_data code)
              && (not (is_success code) && is_link_failure (O.get_diag_rec c.h_stmt d.odbc)))
  unfolding no_data_executed query_failed is_success
  no_data_executed-told sql_success c d = sym (append-nil d.shutdowns)
  no_data_executed-told sql_no_data c d = sym (append-nil d.shutdowns)
  no_data_executed-told sql_success_with_info c d =
      diagnosed-told (O.get_diag_rec c.h_stmt d.odbc) d
  no_data_executed-told sql_need_data c d = diagnosed-told (O.get_diag_rec c.h_stmt d.odbc) d
  no_data_executed-told sql_error c d = diagnosed-told (O.get_diag_rec c.h_stmt d.odbc) d
  no_data_executed-told sql_invalid_handle c d = diagnosed-told (O.get_diag_rec c.h_stmt d.odbc) d

  -- Each of the three queries calls `shutdownFunc` once when the statement failed in the state 08S01, and never
  -- otherwise; only `ExecuteNoData` does not look at the state when the code is SQL_NO_DATA.
  pub execute-shutdowns :
      (query : List ℕ) (c : Consumer) (d : Statics O)
      → let lost = is_lost query c d in
        let no_data = is_no_data (O.exec_direct c.h_stmt query d.odbc).0 in
        ((execute (some query) c d).2.shutdowns ≡ d.shutdowns ++ told lost)
        × ((execute_insert_unique (some query) c d).2.shutdowns ≡ d.shutdowns ++ told lost)
        × ((execute_no_data (some query) c d).2.shutdowns
            ≡ d.shutdowns ++ told (not no_data && lost))
  unfolding execute execute_insert_unique execute_no_data
  execute-shutdowns query c d =
      let (code, odbc) = O.exec_direct c.h_stmt query d.odbc in
      let asked = record c { sz_query = query } in
      let after = record d { odbc = odbc } in
      (
        executed-told code asked after,
        inserted-told code asked after,
        no_data_executed-told code asked after,
      )
