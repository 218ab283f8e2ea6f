-- ===== src/Lobby/Broker.antt =====
-- lobbysvr/brokerConnector.cpp: `BrokerConnector`, the receiver of the connection to the broker, which connects again
-- when that connection is lost or not made. Its `dispatch` is in Lobby.Handlers.
pub mod Reconnect
pub mod User
pub mod Numbers
mod Tests
use lobbysvr.Base.{
  ℕ, ◌+◌, ◌%◌, ◌≡◌, refl, Bool, true, false, List, [], ◌∷◌, ◌++◌, Option, none, some, ◌==◌,
  if◌then◌else◌, u16_mod,
}
use lobbysvr.Net.Memory.{Memory}
use lobbysvr.Net.Buffer.{MessageBuffer, MsgUserManip}
use lobbysvr.Net.Receiver.{EventReceiver, ConnectorFunctions, connector_register}
use lobbysvr.Net.Service.{Connector, Network, get_connector}
use lobbysvr.Net.Service.Connects.{connect_wait}
use lobbysvr.Lobby.Json.{JsonLib}
use lobbysvr.Lobby.SendJson.{Sent, unsent, send_broker_json}
use lobbysvr.Lobby.Handlers.{auth_url}

-- `m_user`: null, a `ConnectorUser` of a connection, or the address of one that was deleted.
pub data UserPointer : Type 0 where
  null_user : UserPointer
  user_of : ℕ → UserPointer
  deleted_user : UserPointer

-- `m_user`, the tags of the connections, what each `SendJsonPacket` of a user came to, and the connections that
-- `closeReserve` was called on.
pub record Broker : Type 0 where
  pub pointer : UserPointer
  pub tags : ℕ → UserPointer
  pub sent : List (ℕ × Sent)
  pub reserved : List ℕ

-- `CONNECTOR_INDEX::BROKER_CONNECTOR`.
abbrev pub broker_connector : ℕ
broker_connector = 0

-- `delete m_user`; the address stays, and to delete it once more is undefined.
unfoldable pub delete_user_pointer : UserPointer → Option UserPointer
delete_user_pointer null_user = some null_user
delete_user_pointer (user_of conn) = some deleted_user
delete_user_pointer deleted_user = none

-- `closeReserve(0)`, which `noHandler` and `onExpiredSession` call.
unfoldable pub reserve_close : ℕ → Network Broker → Network Broker
reserve_close conn n = record n { user = record n.user { reserved = n.user.reserved ++ conn ∷ [] } }

module _ (J : JsonLib) (m : Memory) (manip : MsgUserManip) where
  open J use {Value, null, set_member, of_string}

  -- The request of `onConnect`.
  unfoldable pub auth_request : Value
  auth_request = set_member null "test" (of_string (b't' ∷ b'e' ∷ b's' ∷ b't' ∷ []))

  -- `onConnect`, on the state of the broker's receiver.
  unfoldable pub connected_user : ℕ → Broker → Broker
  unfolding auth_request
  connected_user conn b = record {
    pointer = user_of conn;
    tags = λ j. if j == conn then user_of conn else b.tags j;
    sent = b.sent ++ (conn, send_broker_json J m manip auth_url auth_request) ∷ [];
    reserved = b.reserved;
  }

  -- `sendJsonPacket(url, jv)`: 0 without a user; through the address of a deleted user it is undefined.
  unfoldable pub send_as : List ℕ → Value → Broker → UserPointer → Option (Sent × Broker)
  send_as url jv b null_user = some (unsent 0, b)
  send_as url jv b (user_of conn) =
      let result = send_broker_json J m manip url jv in
      some (result, record b { sent = b.sent ++ (conn, result) ∷ [] })
  send_as url jv b deleted_user = none

  unfoldable pub send_json_packet : List ℕ → Value → Broker → Option (Sent × Broker)
  unfolding send_as
  send_json_packet url jv b = send_as url jv b b.pointer

  -- `resolve`, `opens` and `now` are what the operating system answers when the connector is called.
  module _ (resolve : List ℕ → List ℕ → Option ℕ) (opens : Bool) (now : ℕ) where
    -- `tryConnect(sessionCnt, additionalWorkingThreadsCnt)`.
    unfoldable pub try_connect : ℕ → ℕ → Network Broker → Option (Network Broker)
    try_connect session_cnt workers n = elim (get_connector broker_connector n) [
      | none ↦ none
      | some c ↦
          some
            (connect_wait resolve opens now broker_connector (session_cnt % u16_mod) workers 0 c n)
    ]

    unfoldable pub on_connect : ℕ → Network Broker → Option (Network Broker)
    unfolding connected_user
    on_connect conn n = some (record n { user = connected_user conn n.user })

    on_connect_failed : ℕ → Network Broker → Option (Network Broker)
    unfolding try_connect
    on_connect_failed conn n = try_connect 1 0 n

    closed_user : ℕ → Network Broker → Option UserPointer → Option (Network Broker)
    unfolding try_connect
    closed_user conn n none = none
    closed_user conn n (some pointer) = try_connect 1 0 (record n {
      user = record n.user {
        pointer = pointer;
        tags = λ j. if j == conn then null_user else n.user.tags j;
      };
    })

    unfoldable pub on_close : ℕ → Network Broker → Option (Network Broker)
    unfolding closed_user delete_user_pointer
    on_close conn n = closed_user conn n (delete_user_pointer n.user.pointer)

    -- The class `BrokerConnector` as a receiver; its `initHandler` fills the table of URLs (Lobby.Handlers).
    unfoldable pub broker_functions : ConnectorFunctions (Network Broker)
    unfolding on_connect on_connect_failed on_close reserve_close
    broker_functions = record {
      on_connect = on_connect;
      on_connect_failed = on_connect_failed;
      on_close = on_close;
      on_close_failed = λ conn n. some n;
      on_expired_session = λ conn n. some (reserve_close conn n);
      on_update = λ elapse n. some n;
      no_handler = λ conn msg n. some (reserve_close conn n);
      init_handler = λ n. some n;
    }

    unfoldable pub broker_receiver : EventReceiver (Network Broker)
    unfolding broker_functions connector_register
    broker_receiver = connector_register broker_functions
