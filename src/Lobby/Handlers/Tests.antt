-- ===== src/Lobby/Handlers/Tests.antt =====
-- The theorems on the handlers of requests at a server of two users, with a JSON library whose value is
-- the number that was put in last.
use lobbysvr.Base.{ℕ, true, [], ◌∷◌, Option, none, some, ◌==◌, if◌then◌else◌}
use lobbysvr.Lobby.Json.{JsonLib, pos}
use lobbysvr.Net.Memory.{Memory}
use lobbysvr.Lobby.Broker.{Broker, null_user, user_of}
use lobbysvr.Lobby.Users.{World, new_user}
use lobbysvr.Lobby.Handlers.{Server, Setting}

abbrev number_json : JsonLib
number_json = record {
  Value = Option ℕ;
  null = none;
  member = λ v key. v;
  set_member = λ v key w. w;
  is_null = λ v. true;
  as_int = λ v. some (pos 1);
  as_uint = λ v. v;
  as_uint64 = λ v. v;
  as_string = λ v. some (b'h' ∷ b'i' ∷ []);
  of_int = λ n. none;
  of_uint = λ n. some n;
  of_uint64 = λ n. some n;
  of_string = λ s. none;
  write = λ v. [];
  parse = λ text. none;
}

abbrev zeros : Memory
zeros = λ a. 0

abbrev two_users : World number_json
two_users = record {
  tags = λ j. if j == 3 then some new_user else if j == 7 then some new_user else none;
  alive = λ j. true;
  users = (3, 3) ∷ (7, 7) ∷ [];
  node_to_user = [];
  sent = [];
  broker_calls = [];
}

abbrev server : Server number_json
server = record { world = two_users; broker_idx = 1; reserved = [] }

abbrev setting : Setting number_json
setting = record { local_time = 1000; client_version = pos 1 }

-- The connector while it is connected over the connection 9.
abbrev broker : Broker
broker = record { pointer = user_of 9; tags = λ j. null_user; sent = []; reserved = [] }
