-- ===== src/Lobby/Served.antt =====
-- A client's requests from the socket to the server's state: the read of net/connectionImpl.cpp, the message that it
-- posts, the parser that lobbysvr/main.cpp gives to the acceptor, and `dispatch` of lobbysvr/lobbyAcceptorReceiver.cpp.
mod Tests
use lobbysvr.Base.{
  ℕ, ◌+◌, ◌≤◌, ◌≡◌, refl, Bool, true, false, List, [], ◌∷◌, ◌++◌, Option, none, some, map, length,
  if◌then◌else◌, subst, sym,
}
use lobbysvr.Net.Memory.{Memory}
use lobbysvr.Net.Buffer.{MessageBuffer, ok, max_buffer_size}
use lobbysvr.Net.Buffer.Contents.{contents}
use lobbysvr.Net.Frame.Codec.{plain_codec, encode_all}
use lobbysvr.Net.Parser.{returned}
use lobbysvr.Net.Connection.{Connection, Task, dispatch_message, filled, read_handler}
use lobbysvr.Net.Received.{read_handler-dispatch_message}
use lobbysvr.Lobby.Json.{JsonLib}
use lobbysvr.Lobby.Users.{User, World}
use lobbysvr.Lobby.Users.Registry.{IsRegistry}
use lobbysvr.Lobby.Handlers.{Server, Setting, lobby_dispatch}
use lobbysvr.Lobby.Handlers.Registry.{dispatch-IsRegistry}
use lobbysvr.Lobby.JsonParser.{Receiver, packet_parser_not_use_enc_test}
use lobbysvr.Lobby.EndToEnd.{Request, AllSendable, packet_of, serve, requests-served}

module _ (J : JsonLib) (setting : Setting J) where
  -- `GET_USER_LOBBY`: the connection has a tag.
  unfoldable pub is_tagged : Option User → Bool
  is_tagged none = false
  is_tagged (some user) = true

  -- The lobby as the parsers see it from a connection.
  abbrev pub lobby_receiver : ℕ → Receiver J (Server J)
  lobby_receiver conn = record {
    has_user = λ s. is_tagged (s.world.tags conn);
    dispatch_url = λ s url jv. lobby_dispatch J setting conn url jv s;
    close_reserve = λ s. record s { reserved = s.reserved ++ conn ∷ [] };
  }

  serve-IsRegistry :
      (conn : ℕ) (rs : List (Request J)) (s : Server J)
      → IsRegistry J s.world
      → IsRegistry J (serve J (lobby_receiver conn) s rs).world
  serve-IsRegistry conn [] s r = r
  serve-IsRegistry conn (request ∷ rs) s r =
      serve-IsRegistry conn rs _ (each (is_tagged (s.world.tags conn)))
    where
      each :
          (b : Bool)
          → IsRegistry J
              (if b then lobby_dispatch J setting conn request.url request.value s else s).world
      each true = (dispatch-IsRegistry J setting conn request.url request.value s r).0
      each false = r

  -- One read, into an empty receive buffer, of the packets that a client's sends wrote for some requests, each of a
  -- size that its packet can hold and of a text that jsoncpp parses: one message is posted, and the lobby's parser,
  -- given that message, dispatches each request's value under its URL to the server, once and in order, while the
  -- connection has a user; then it returns true, nothing of the message is left, and the registry of users is as
  -- well formed as it was.
  pub read_handler-serve :
      (eof : ℕ) (m junk : Memory) (shut : Bool) (c : Connection) (s : Server J)
      (rs : List (Request J))
      → c.msg.read_pos ≡ 0
      → c.msg.write_pos ≡ 0
      → length (encode_all plain_codec (map (packet_of J) rs)) ≤ max_buffer_size
      → AllSendable J rs
      → IsRegistry J s.world
      → (c' : Connection) × (msg : MessageBuffer) × (read_handler eof m 0
            (length (encode_all plain_codec (map (packet_of J) rs)))
            shut
            (filled (encode_all plain_codec (map (packet_of J) rs)) c)
          ≡ ok c')
        × (c'.posted ≡ c.posted ++ dispatch_message msg ∷ [])
        × ((packet_parser_not_use_enc_test J (lobby_receiver c.identity) junk msg s).state
            ≡ serve J (lobby_receiver c.identity) s rs)
        × ((packet_parser_not_use_enc_test J (lobby_receiver c.identity) junk msg s).ending
            ≡ returned true)
        × (contents (packet_parser_not_use_enc_test J (lobby_receiver c.identity) junk msg s).msg
            ≡ [])
        × IsRegistry J
            (packet_parser_not_use_enc_test J (lobby_receiver c.identity) junk msg s).state.world
  read_handler-serve eof m junk shut c s rs empty unwritten fits sendable r =
      let bytes = encode_all plain_codec (map (packet_of J) rs) in
      let (c', msg, run, posted, valid, holds, _, _) =
        read_handler-dispatch_message eof m bytes shut c empty unwritten fits in
      let served =
        requests-served J (lobby_receiver c.identity) junk msg s rs valid sendable holds in
      (
        c',
        msg,
        run,
        posted,
        served.0,
        served.1,
        served.2,
        subst (λ t. IsRegistry J t.world) (sym served.0) (serve-IsRegistry c.identity rs s r),
      )
