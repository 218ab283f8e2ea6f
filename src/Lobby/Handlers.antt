-- ===== src/Lobby/Handlers.antt =====
-- The handlers of requests: lobbysvr/nh_lobby.cpp and lobbysvr/nh_chat.cpp for those of a client,
-- lobbysvr/connectorHandler.cpp for those of the broker, and the two `dispatch` that look their URLs up. A
-- handler gives `none` where jsoncpp throws, which `dispatch` catches; every handler reads what it
-- needs of the value before it changes anything.
pub mod Registry
pub mod Relay
mod Tests
use lobbysvr.Base.{
  ℕ, ◌%◌, Bool, true, false, List, [], ◌∷◌, ◌++◌, Option, none, some, ltb, ◌==◌, ◌&&◌,
  if◌then◌else◌, length, u32_mod,
}
use lobbysvr.Lobby.Json.{JsonLib, ℤ, pos, negsuc}
use lobbysvr.Lobby.SendJson.{rsp_seq, rsp_rm, sent_value}
use lobbysvr.Lobby.Users.{
  User, World, send_json, send_packet_from_broker, send_packet_from_broker_by_user_idx,
  send_packet_from_broker_all,
}

-- The URLs, and two texts.
abbrev pub auth_url : List ℕ
auth_url = b'/' ∷ b'a' ∷ b'u' ∷ b't' ∷ b'h' ∷ []

abbrev pub logined_user_url : List ℕ
logined_user_url =
    b'/' ∷ b'l' ∷ b'o' ∷ b'g' ∷ b'i' ∷ b'n' ∷ b'e' ∷ b'd' ∷ b'U' ∷ b's' ∷ b'e' ∷ b'r' ∷ []

abbrev pub is_online_url : List ℕ
is_online_url = b'/' ∷ b'i' ∷ b's' ∷ b'O' ∷ b'n' ∷ b'l' ∷ b'i' ∷ b'n' ∷ b'e' ∷ []

abbrev pub chat_send_msg_url : List ℕ
chat_send_msg_url =
    b'/' ∷ b'c' ∷ b'h' ∷ b'a' ∷ b't' ∷ b'S' ∷ b'e' ∷ b'n' ∷ b'd' ∷ b'M' ∷ b's' ∷ b'g' ∷ []

abbrev pub chat_receive_msg_url : List ℕ
chat_receive_msg_url =
    b'/' ∷ b'c' ∷ b'h' ∷ b'a' ∷ b't' ∷ b'R' ∷ b'e' ∷ b'c' ∷ b'e' ∷ b'i' ∷ b'v' ∷ b'e' ∷ b'M' ∷ b's'
    ∷ b'g' ∷ []

abbrev pub chat_url : List ℕ
chat_url =
    b'/' ∷ b'c' ∷ b'h' ∷ b'a' ∷ b't' ∷ b'/' ∷ b's' ∷ b'e' ∷ b'n' ∷ b'd' ∷ b'M' ∷ b's' ∷ b'g' ∷ []

abbrev pub receive_url : List ℕ
receive_url =
    b'/' ∷ b'c' ∷ b'h' ∷ b'a' ∷ b't' ∷ b'/' ∷ b'r' ∷ b'e' ∷ b'c' ∷ b'e' ∷ b'i' ∷ b'v' ∷ b'e' ∷ b'M'
    ∷ b's' ∷ b'g' ∷ []

abbrev pub friend_url : List ℕ
friend_url = b'/' ∷ b'f' ∷ b'r' ∷ b'i' ∷ b'e' ∷ b'n' ∷ b'd' ∷ b'/' ∷ b'l' ∷ b'i' ∷ b's' ∷ b't' ∷ []

abbrev pub login_url : List ℕ
login_url = b'l' ∷ b'o' ∷ b'g' ∷ b'i' ∷ b'n' ∷ []

abbrev pub version_message : List ℕ
version_message =
    b'c' ∷ b'l' ∷ b'i' ∷ b'e' ∷ b'n' ∷ b't' ∷ b' ' ∷ b'v' ∷ b'e' ∷ b'r' ∷ b's' ∷ b'i' ∷ b'o' ∷ b'n'
    ∷ []

abbrev pub ok_message : List ℕ
ok_message = b'O' ∷ b'K' ∷ []

-- A step that throws where jsoncpp does.
infixl 5 ◌>>=◌
abbrev pub ◌>>=◌ {ℓ κ} : {A : Type ℓ} {B : Type κ} → Option A → (A → Option B) → Option B
none >>= f = none
some a >>= f = f a

-- Equality of `int`s and of URLs.
abbrev pub same_int : ℤ → ℤ → Bool
same_int (pos m) (pos n) = m == n
same_int (negsuc m) (negsuc n) = m == n
same_int (pos m) (negsuc n) = false
same_int (negsuc m) (pos n) = false

abbrev pub same_url : List ℕ → List ℕ → Bool
same_url [] [] = true
same_url (x ∷ xs) (y ∷ ys) = (x == y) && same_url xs ys
same_url [] (y ∷ ys) = false
same_url (x ∷ xs) [] = false

-- `std::map<std::string, …>::find`.
abbrev pub find_url {ℓ} : {H : Type ℓ} → List ℕ → List (List ℕ × H) → Option H
find_url url [] = none
find_url url ((other, handler) ∷ handlers) =
    let rest = find_url url handlers in if same_url other url then some handler else rest

module _ (J : JsonLib) where
  open J use {
    Value, null, member, set_member, as_int, as_uint, as_uint64, as_string, of_int, of_uint,
    of_uint64, of_string,
  }

  -- The users, `g_idx4Broker`, and the connections whose `closeReserve(0)` was called.
  pub record Server : Type 0 where
    pub world : World J
    pub broker_idx : ℕ
    pub reserved : List ℕ

  -- What a handler is given besides: the time, and `Environment::m_clientVersion`.
  pub record Setting : Type 0 where
    pub local_time : ℕ
    pub client_version : ℤ

  abbrev pub Handler : Type 0
  Handler = ℕ → List ℕ → Value → Server → Option Server

  -- `sendDBFailed(-1, "client version")` of `nh_lobby::login`; when its `SendJsonPacket` throws, `closeReserve` is not
  -- reached.
  abbrev version_response : Value → Value
  version_response jv =
      let seq = set_member null rsp_seq (member jv rsp_seq) in
      set_member (set_member seq "resultCode" (of_int (negsuc 0))) rsp_rm
        (of_string version_message)

  abbrev pub reserved_after : Option Value → ℕ → List ℕ → List ℕ
  reserved_after none conn reserved = reserved
  reserved_after (some v) conn reserved = reserved ++ conn ∷ []

  abbrev version_failed : ℕ → List ℕ → Value → Server → Server
  version_failed conn url jv s = record s {
    world = send_json J conn url (version_response jv) s.world;
    reserved = reserved_after (sent_value J (version_response jv)) conn s.reserved;
  }

  login_tagged : Setting → Option User → Handler
  login_tagged setting none conn url jv s = some s
  login_tagged setting (some user) conn url jv s = do
    user_id ← as_string (member jv "userID")
    user_pw ← as_string (member jv "userPW")
    client_version ← as_int (member jv "clientVersion")
    some
        (if same_int client_version setting.client_version then s else version_failed conn url jv s)

  -- `nh_lobby::login`; what it sets of the user nothing reads.
  unfoldable pub login : Setting → Handler
  unfolding login_tagged
  login setting conn url jv s = login_tagged setting (s.world.tags conn) conn url jv s

  -- The value that `nh_chat::sendMsg` gives to the broker.
  abbrev pub chat_request : Setting → User → ℕ → Value → Server → Value
  chat_request setting user conn jv s =
      let from_idx = set_member jv "addition_fromIDX" (of_uint user.user_idx) in
      let from_svr = set_member from_idx "addition_fromSVR" (of_uint s.broker_idx) in
      let from = set_member from_svr "from" (of_string user.user_id) in
      let seq = set_member from "seq" (member from rsp_seq) in
      set_member (set_member seq "sendTime" (of_uint64 setting.local_time)) "identity"
        (of_uint (conn % u32_mod))

  -- With the call of `BrokerConnector::sendJsonPacket` kept; what the call comes to is `send_json_packet` of
  -- Lobby.Broker, and nothing comes after it here.
  abbrev pub relayed : Setting → User → ℕ → Value → Server → Server
  relayed setting user conn jv s = record s {
    world = record s.world {
      broker_calls =
          s.world.broker_calls ++ (chat_send_msg_url, chat_request setting user conn jv s) ∷ [];
    };
  }

  -- `2 == channelType && 2 > to.length()`.
  unfoldable pub short_target : Value → ℤ → Option Bool
  short_target jv channel =
      if same_int channel (pos 2)
      then (as_string (member jv "to") >>= λ to. some (ltb (length to) 2))
      else some false

  -- From the message's text on.
  unfoldable pub relay_text : Setting → User → ℕ → Value → Server → List ℕ → Option Server
  relay_text setting user conn jv s text =
      if length text == 0
      then some s
      else (as_int (member jv "channelType") >>= λ channel. short_target jv channel >>= λ short.
          some (if short then s else relayed setting user conn jv s))

  send_msg_tagged : Setting → Option User → Handler
  unfolding relay_text
  send_msg_tagged setting none conn url jv s = some s
  send_msg_tagged setting (some user) conn url jv s =
      as_string (member jv "msg") >>= relay_text setting user conn jv s

  -- `nh_chat::sendMsg`.
  unfoldable pub send_msg : Setting → Handler
  unfolding send_msg_tagged
  send_msg setting conn url jv s = send_msg_tagged setting (s.world.tags conn) conn url jv s

  -- `ConnectorHandler::auth`, `loginedUser`, `isOnline`, `chatSendMsg`, `chatReceiveMsg`.
  unfoldable pub auth : Handler
  auth conn url jv s =
      as_uint (member jv "serverIDX") >>= λ idx. some (record s { broker_idx = idx })

  unfoldable pub logined_user : Handler
  logined_user conn url jv s = as_uint64 (member jv "identity") >>= λ identity. some s

  abbrev pub online_response : Value → Value
  online_response jv =
      let done = set_member jv "resultCode" (of_int (pos 0)) in
      let said = set_member done rsp_rm (of_string ok_message) in
      set_member said rsp_seq (member said "pkSeq")

  unfoldable pub is_online : Handler
  is_online conn url jv s = as_uint64 (member (online_response jv) "identity") >>= λ identity.
      some (record s {
        world =
            send_packet_from_broker J identity friend_url (online_response jv) (λ c w. w) s.world;
      })

  unfoldable pub chat_send_msg : Handler
  chat_send_msg conn url jv s = as_uint64 (member jv "identity") >>= λ identity.
      some (record s { world = send_packet_from_broker J identity chat_url jv (λ c w. w) s.world })

  to_channel : Value → Server → ℤ → Option Server
  to_channel jv s channel =
      if same_int channel (pos 1)
      then some (record s { world = send_packet_from_broker_all J receive_url jv s.world })
      else if same_int channel (pos 2)
      then (as_uint (member jv "addition_toIDX") >>= λ idx.
          some
            (record s { world = send_packet_from_broker_by_user_idx J idx receive_url jv s.world }))
      else some s

  unfoldable pub chat_receive_msg : Handler
  unfolding to_channel
  chat_receive_msg conn url jv s = as_int (member jv "channelType") >>= to_channel jv s

  -- `m_URLs` of the two classes, as their `initHandler` fills them.
  unfoldable pub lobby_urls : Setting → List (List ℕ × Handler)
  lobby_urls setting = (login_url, login setting) ∷ (chat_url, send_msg setting) ∷ []

  unfoldable pub broker_urls : List (List ℕ × Handler)
  broker_urls =
      (auth_url, auth)
      ∷ (logined_user_url, logined_user)
      ∷ (is_online_url, is_online)
      ∷ (chat_send_msg_url, chat_send_msg)
      ∷ (chat_receive_msg_url, chat_receive_msg)
      ∷ []

  -- The call of the handler found, under `catch`.
  caught : Server → Option Server → Server
  caught s (some after) = after
  caught s none = s

  call_found : Option Handler → ℕ → List ℕ → Value → Server → Server
  unfolding caught
  call_found (some handler) conn url jv s = caught s (handler conn url jv s)
  call_found none conn url jv s = s

  -- `LobbyAcceptorReceiver::dispatch` and `BrokerConnector::dispatch`.
  unfoldable pub lobby_dispatch : Setting → ℕ → List ℕ → Value → Server → Server
  unfolding call_found lobby_urls
  lobby_dispatch setting conn url jv s =
      call_found (find_url url (lobby_urls setting)) conn url jv s

  unfoldable pub broker_dispatch : ℕ → List ℕ → Value → Server → Server
  unfolding call_found broker_urls
  broker_dispatch conn url jv s = call_found (find_url url broker_urls) conn url jv s
