-- ===== src/Lobby/Served/Tests.antt =====
-- The theorem on requests from the socket on, at a connection that has a user.
use lobbysvr.Base.{
  ℕ, ◌≤◌, ◌≡◌, refl, true, false, List, [], ◌∷◌, none, map, arith, length, ◌==◌, if◌then◌else◌,
  le32, le16,
}
use lobbysvr.Net.Buffer.{MessageBuffer, ok, max_buffer_size}
use lobbysvr.Net.Buffer.Contents.{contents}
use lobbysvr.Net.Frame.Codec.{plain_codec, encode_all}
use lobbysvr.Net.Frame.{json_test_manip}
use lobbysvr.Net.Parser.{returned}
use lobbysvr.Net.Connection.{Connection, opened, dispatch_message, filled, read_handler}
use lobbysvr.Lobby.Json.{pos}
use lobbysvr.Lobby.Tests.{text_json, zeros, requests, request_a-IsSendable, request_b-IsSendable}
use lobbysvr.Lobby.Protocol.{head_bytes, url_field}
use lobbysvr.Lobby.Users.Registry.{IsRegistry}
use lobbysvr.Lobby.Handlers.{Server, Setting}
use lobbysvr.Lobby.Events.{
  here, next, made, accepted, started, started-IsRegistry, Events-IsRegistry, on_accept,
}
use lobbysvr.Lobby.JsonParser.{packet_parser_not_use_enc_test}
use lobbysvr.Lobby.EndToEnd.{packet_of, serve}
use lobbysvr.Lobby.Served.{lobby_receiver, read_handler-serve}

abbrev setting : Setting text_json
setting = record { local_time = 1000; client_version = pos 1 }

abbrev connected : Server text_json
connected = on_accept text_json 3 (record (started text_json) {
  world = record (started text_json).world { alive = λ j. if j == 3 then true else false };
})

connected-IsRegistry : IsRegistry text_json connected.world
connected-IsRegistry =
    Events-IsRegistry text_json setting (next (next here (made 3)) (accepted 3 refl))
      (started-IsRegistry text_json)

abbrev connection : Connection
connection = record {
  status = opened;
  identity = 3;
  sync_encryption_key = λ e. false;
  keep_alive_time = 0;
  keep_timer = none;
  close_reserve_timer = none;
  read_handler_pending = 0;
  post_retry_count = 0;
  msg = record { buffer = zeros; read_pos = 0; write_pos = 0; manip = none };
  posted = [];
  reports = [];
  manip = json_test_manip;
}

abbrev incoming : List ℕ
incoming = encode_all plain_codec (map (packet_of text_json) requests)

incoming-length : length incoming ≤ max_buffer_size
unfolding le32 head_bytes url_field le16
incoming-length = omega arith

read_handler-serve_example :
    (c' : Connection) × (msg : MessageBuffer) × (read_handler 2 zeros 0
        (length incoming)
        true
        (filled incoming connection)
      ≡ ok c')
    × (c'.posted ≡ dispatch_message msg ∷ [])
    × ((packet_parser_not_use_enc_test text_json
          (lobby_receiver text_json setting 3)
          zeros
          msg
          connected).state
        ≡ serve text_json (lobby_receiver text_json setting 3) connected requests)
    × ((packet_parser_not_use_enc_test text_json
          (lobby_receiver text_json setting 3)
          zeros
          msg
          connected).ending
        ≡ returned true)
    × (contents
          (packet_parser_not_use_enc_test text_json
            (lobby_receiver text_json setting 3)
            zeros
            msg
            connected).msg
        ≡ [])
    × IsRegistry text_json
        (packet_parser_not_use_enc_test text_json
          (lobby_receiver text_json setting 3)
          zeros
          msg
          connected).state.world
read_handler-serve_example =
    read_handler-serve text_json setting 2 zeros zeros true connection connected requests refl refl
      incoming-length (request_a-IsSendable, (request_b-IsSendable, tt)) connected-IsRegistry
