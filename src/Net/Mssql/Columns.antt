-- ===== src/Net/Mssql/Columns.antt =====
-- The columns that the overloads of `Bind` in net/mssqlConsumer.h bind.
use lobbysvr.Base.{ℕ, List, [], ◌∷◌, ◌++◌, Option, none, some, replicate}
use lobbysvr.Net.Mssql.{Target, Odbc, Statics}
use lobbysvr.Net.Mssql.Consumer.{Variable, target, Consumer, bind, skip}

-- The calls that say which columns a fetch fills.
pub data Call : Type 0 where
  bound_to : Variable → Call
  skipped : ℕ → Call

-- What each column is bound to, in order.
abbrev pub columns : List Call → List (Option Target)
columns [] = []
columns (bound_to v ∷ calls) = some (target v) ∷ columns calls
columns (skipped n ∷ calls) = replicate n none ++ columns calls

module _ {O : Odbc} where
  abbrev pub run_calls : List Call → Consumer → Statics O → Consumer × Statics O
  run_calls [] c d = (c, d)
  run_calls (bound_to v ∷ calls) c d = run_calls calls (bind v c d).0 (bind v c d).1
  run_calls (skipped n ∷ calls) c d = run_calls calls (skip n c) d
