-- ===== src/Lobby/Users/Tests.antt =====
-- The theorems on lobbysvr/lobbyUserManager.cpp at a registry of two users.
use lobbysvr.Base.{ℕ, ◌≡◌, refl, true, false, List, [], ◌∷◌, none, some, arith, ◌==◌, if◌then◌else◌}
use lobbysvr.Net.Memory.{Memory}
use lobbysvr.Net.Buffer.{MsgUserManip}
use lobbysvr.Lobby.Json.{JsonLib}
use lobbysvr.Lobby.SendJson.{json_raised, convert_message, sent_value, send_json_packet}
use lobbysvr.Lobby.Tests.{text_json}
use lobbysvr.Lobby.OrderedMap.{find}
use lobbysvr.Lobby.Users.{
  World, new_user, add_user, delete_user, user_logined, user_logout,
  send_packet_from_broker_by_user_idx, send_packet_from_broker_all,
}
use lobbysvr.Lobby.Users.Registry.{
  IsRegistry, adds, connects, deletes, here, next, Acts-IsRegistry, entry,
}
use lobbysvr.Lobby.Users.Delivery.{send_all_raised, relogin_lem}

abbrev empty : World text_json
empty = record {
  tags = λ i. none;
  alive = λ i. false;
  users = [];
  node_to_user = [];
  sent = [];
  broker_calls = [];
}

empty-IsRegistry : IsRegistry text_json empty
unfolding find
empty-IsRegistry = record {
  ordered = tt;
  node_ordered = tt;
  matches = λ i. refl;
  held = λ i user e. cc;
}

abbrev one_connection : World text_json
one_connection = record empty { alive = λ j. if j == 3 then true else false }

Acts-IsRegistry_example :
    IsRegistry text_json (delete_user text_json 3 (add_user text_json 3 one_connection))
Acts-IsRegistry_example =
    Acts-IsRegistry text_json empty-IsRegistry
      (next (next (next here (connects 3)) (adds 3 refl)) (deletes 3))

abbrev two_users : World text_json
two_users = record {
  tags = λ j. if j == 3 then some new_user else if j == 7 then some new_user else none;
  alive = λ j. true;
  users = (3, 3) ∷ (7, 7) ∷ [];
  node_to_user = (100, 3) ∷ [];
  sent = [];
  broker_calls = [];
}

two_users-find : (i : ℕ) → find i two_users.users ≡ entry i (two_users.tags i)
unfolding find
two_users-find i = ground arith

two_users-IsRegistry : IsRegistry text_json two_users
two_users-IsRegistry = record {
  ordered = (omega arith, tt);
  node_ordered = tt;
  matches = two_users-find;
  held = λ i user e. refl;
}

-- `/n`, and the text `{}`.
abbrev notice_url : List ℕ
notice_url = 47 ∷ 110 ∷ []

abbrev notice : List ℕ
notice = 123 ∷ 125 ∷ []

-- A library in which `notice` has a message that is not a text.
abbrev strict_json : JsonLib
strict_json = record text_json { is_null = λ v. false; as_string = λ v. none }

abbrev strict_users : World strict_json
strict_users = record {
  tags = two_users.tags;
  alive = two_users.alive;
  users = two_users.users;
  node_to_user = two_users.node_to_user;
  sent = [];
  broker_calls = [];
}

send_all_raised_example :
    (send_packet_from_broker_all strict_json notice_url notice strict_users
      ≡ record strict_users { sent = (3, notice_url, notice) ∷ [] })
    × ((m : Memory) (manip : MsgUserManip) (enc_type : ℕ)
        → send_json_packet strict_json m manip enc_type notice_url notice ≡ json_raised)
unfolding sent_value convert_message
send_all_raised_example =
    send_all_raised strict_json strict_users notice_url notice
      (record {
        ordered = two_users-IsRegistry.ordered;
        node_ordered = two_users-IsRegistry.node_ordered;
        matches = two_users-IsRegistry.matches;
        held = two_users-IsRegistry.held;
      })
      refl

abbrev moved_login : World text_json
moved_login = (user_logined text_json 7 100 (user_logout text_json 3 100 two_users).1).1

relogin_lem_example :
    send_packet_from_broker_by_user_idx text_json 100 notice_url notice moved_login
    ≡ record moved_login { sent = (7, notice_url, notice) ∷ [] }
relogin_lem_example =
    relogin_lem text_json two_users 7 100 3 new_user notice_url notice two_users-IsRegistry refl

logged_in_first : find 100 two_users.node_to_user ≡ some 3
unfolding find
logged_in_first = refl
