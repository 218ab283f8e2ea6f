-- ===== src/Lobby/Users.antt =====
-- lobbysvr/lobbyUserManager.h and lobbysvr/lobbyUserManager.cpp: `LobbyUserManager`, the registry of the
-- connected users. A connection is its identity, which net/connectionImpl.cpp gives out once. Each
-- operation takes the lock for all that it does to the maps, so the operations are functions on one
-- state; calls of `SendJsonPacket` (`sent`) and of `BrokerConnector::sendJsonPacket` (`broker_calls`) are kept
-- in order with the value that they are given; what a call comes to is in Lobby.SendJson and Lobby.Broker.
pub mod WellFormed
pub mod Registry
pub mod Delivery
mod Tests
use lobbysvr.Base.{
  ℕ, Bool, true, false, List, [], ◌∷◌, ◌++◌, Option, none, some, ◌==◌, if◌then◌else◌,
}
use Prim.Native.String.{String}
use lobbysvr.Lobby.Json.{JsonLib, ℤ, pos, negsuc}
use lobbysvr.Lobby.SendJson.{rsp_seq, rsp_rm, sent_value}
use lobbysvr.Lobby.OrderedMap.{find, emplace, erase}

-- `chase_lobbysvr::User`, of which the registry uses these fields.
pub record User : Type 0 where
  pub user_idx : ℕ
  pub user_id : List ℕ

abbrev pub new_user : User
new_user = record { user_idx = 0; user_id = [] }

-- "/account/connected" and "/userLogout".
abbrev pub connected_url : List ℕ
connected_url =
    b'/' ∷ b'a' ∷ b'c' ∷ b'c' ∷ b'o' ∷ b'u' ∷ b'n' ∷ b't' ∷ b'/' ∷ b'c' ∷ b'o' ∷ b'n' ∷ b'n' ∷ b'e'
    ∷ b'c' ∷ b't' ∷ b'e' ∷ b'd' ∷ []

abbrev pub user_logout_url : List ℕ
user_logout_url = b'/' ∷ b'u' ∷ b's' ∷ b'e' ∷ b'r' ∷ b'L' ∷ b'o' ∷ b'g' ∷ b'o' ∷ b'u' ∷ b't' ∷ []

module _ (J : JsonLib) where
  open J use {Value, null, set_member, of_uint, of_int, of_string}

  -- `tags` is each connection's `getTag()`, `alive` says that a `weak_ptr` to it locks.
  pub record World : Type 0 where
    pub tags : ℕ → Option User
    pub alive : ℕ → Bool
    pub users : List (ℕ × ℕ)
    pub node_to_user : List (ℕ × ℕ)
    pub sent : List (ℕ × List ℕ × Value)
    pub broker_calls : List (List ℕ × Value)

  abbrev pub set_tag : ℕ → Option User → World → World
  set_tag i tag w = record w { tags = λ j. if j == i then tag else w.tags j }

  abbrev pub send_json : ℕ → List ℕ → Value → World → World
  send_json i url jv w = record w { sent = w.sent ++ (i, url, jv) ∷ [] }

  -- The three members that `addUser` sets.
  abbrev pub connected_response : Value
  connected_response =
      set_member
        (set_member (set_member null rsp_seq (of_int (pos 0))) "resultCode" (of_int (pos 0))) rsp_rm
        (of_string (b'O' ∷ b'K' ∷ []))

  abbrev pub logout_request : User → Value
  logout_request user =
      set_member (set_member null "userIDX" (of_uint user.user_idx)) "nick" (of_string user.user_id)

  inserted : ℕ → Bool × List (ℕ × ℕ) → World → World
  inserted i (true, users) w =
      send_json i connected_url connected_response (record w { users = users })
  inserted i (false, users) w = record w { users = users }

  add_untagged : ℕ → Option User → World → World
  unfolding inserted
  add_untagged i (some user) w = w
  add_untagged i none w = inserted i (emplace i i w.users) (set_tag i (some new_user) w)

  -- `addUser(conn)`.
  unfoldable pub add_user : ℕ → World → World
  unfolding add_untagged
  add_user i w = add_untagged i (w.tags i) w

  erase_found : ℕ → Option ℕ → World → World
  erase_found i (some conn) w = record w { users = erase i w.users }
  erase_found i none w = w

  delete_tagged : ℕ → Option User → World → World
  unfolding erase_found
  delete_tagged i none w = w
  delete_tagged i (some user) w = set_tag i none (
      erase_found i (find i w.users) (record w {
        broker_calls = w.broker_calls ++ (user_logout_url, logout_request user) ∷ [];
        node_to_user = erase user.user_idx w.node_to_user;
      }))

  -- `deleteUser(conn)`. The connection of the user of a connection is that connection.
  unfoldable pub delete_user : ℕ → World → World
  unfolding delete_tagged
  delete_user i w = delete_tagged i (w.tags i) w

  with_user : ℕ → Bool → Option User → (ℕ → World → ℤ × World) → World → ℤ × World
  with_user conn false tag callback w = (negsuc 1, w)
  with_user conn true none callback w = (negsuc 2, w)
  with_user conn true (some user) callback w = callback conn w

  with_found : Option ℕ → (ℕ → World → ℤ × World) → World → ℤ × World
  unfolding with_user
  with_found none callback w = (negsuc 0, w)
  with_found (some conn) callback w = with_user conn (w.alive conn) (w.tags conn) callback w

  -- `processUser2(identity, callback, …)`, with the callback applied to its parameters.
  unfoldable pub process_user2 : ℕ → (ℕ → World → ℤ × World) → World → ℤ × World
  unfolding with_found
  process_user2 identity callback w = with_found (find identity w.users) callback w

  -- `processUser(identity, callback, …)`.
  unfoldable pub process_user : ℕ → (ℕ → World → World) → World → ℤ × World
  unfolding with_found
  process_user identity callback w =
      with_found (find identity w.users) (λ conn w. (pos 0, callback conn w)) w

  -- `userLogined(identity, userIDX, …)` and `userLogout(identity, userIDX, …)`.
  unfoldable pub user_logined : ℕ → ℕ → World → Bool × World
  user_logined identity user_idx w =
      (true, record w { node_to_user = (emplace user_idx identity w.node_to_user).1 })

  unfoldable pub user_logout : ℕ → ℕ → World → Bool × World
  user_logout identity user_idx w =
      (true, record w { node_to_user = erase user_idx w.node_to_user })

  -- `getUser(identity)`, `none` for the empty `weak_ptr`.
  unfoldable pub get_user : ℕ → World → Option ℕ
  get_user identity w = find identity w.users

  -- `auto conn = connWeak.lock(); if (conn && (nullptr != conn->getTag())) …`
  send_locked : ℕ → Bool → Option User → List ℕ → Value → (ℕ → World → World) → World → World
  send_locked conn true (some user) url jv user_func w = send_json conn url jv (user_func conn w)
  send_locked conn true none url jv user_func w = w
  send_locked conn false tag url jv user_func w = w

  unfoldable pub send_weak : Option ℕ → List ℕ → Value → (ℕ → World → World) → World → World
  unfolding send_locked
  send_weak none url jv user_func w = w
  send_weak (some conn) url jv user_func w =
      send_locked conn (w.alive conn) (w.tags conn) url jv user_func w

  -- `sendPacketFromBroker(identity, url, jv, userFunc)`.
  unfoldable pub send_packet_from_broker : ℕ → List ℕ → Value → (ℕ → World → World) → World → World
  unfolding send_weak
  send_packet_from_broker identity url jv user_func w =
      send_weak (find identity w.users) url jv user_func w

  find_through : Option ℕ → World → Option ℕ
  find_through none w = none
  find_through (some identity) w = find identity w.users

  -- `sendPacketFromBroker_byUserIDX(userIDX, url, jv)`.
  unfoldable pub send_packet_from_broker_by_user_idx : ℕ → List ℕ → Value → World → World
  unfolding send_weak find_through
  send_packet_from_broker_by_user_idx user_idx url jv w =
      send_weak (find_through (find user_idx w.node_to_user) w) url jv (λ conn w. w) w

  -- After a call in the loop: the next ones get the value as the call has changed it, or there are none when it throws.
  after_call : Option Value → (Value → World → World) → World → World
  after_call none rest w = w
  after_call (some jv) rest w = rest jv w

  call_locked : ℕ → Bool → Option User → List ℕ → Value → (Value → World → World) → World → World
  unfolding after_call
  call_locked conn true (some user) url jv rest w =
      after_call (sent_value J jv) rest (send_json conn url jv w)
  call_locked conn true none url jv rest w = rest jv w
  call_locked conn false tag url jv rest w = rest jv w

  -- `sendPacketFromBroker_All(url, jv)`: the loop over the entries, which an exception of jsoncpp ends.
  unfoldable pub send_each : List (ℕ × ℕ) → List ℕ → Value → World → World
  unfolding call_locked
  send_each [] url jv w = w
  send_each ((identity, conn) ∷ entries) url jv w =
      call_locked conn (w.alive conn) (w.tags conn) url jv (send_each entries url) w

  unfoldable pub send_packet_from_broker_all : List ℕ → Value → World → World
  unfolding send_each
  send_packet_from_broker_all url jv w = send_each w.users url jv w
