-- ===== src/Lobby/Handlers/Relay.antt =====
-- A chat message on its way: lobbysvr/nh_chat.cpp to the broker, and lobbysvr/connectorHandler.cpp to the
-- users.
use lobbysvr.Base.{◌%◌, ◌++◌, length, u16_mod}
use lobbysvr.Lobby.Json.{JsonLib}
use lobbysvr.Net.Memory.{Memory}
use lobbysvr.Net.Buffer.{MsgUserManip}
use lobbysvr.Lobby.Protocol.{broker_head_bytes, url_field, json_code}
use lobbysvr.Lobby.SendJson.{Sent, send_connector}
use lobbysvr.Lobby.Broker.{Broker, null_user}
use lobbysvr.Lobby.Handlers.{chat_send_msg_url}

module _ (J : JsonLib) where
  open J use {Value, member, set_member, as_int, as_uint64, as_string, of_uint, write}

  -- What `BrokerConnector::sendJsonPacket` gives to the connection of its user, for a text that fits.
  abbrev pub relayed_bytes : Memory → MsgUserManip → Value → Sent
  relayed_bytes m manip v = send_connector m manip (
      broker_head_bytes (record {
        code = json_code;
        url = url_field chat_send_msg_url;
        body_size = length (write v) % u16_mod;
        json_body = write v;
      })
      ++ write v)

  abbrev pub without_user : Broker → Broker
  without_user b = record b { pointer = null_user }
