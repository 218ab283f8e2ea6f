-- ===== src/Lobby/ReadJson.antt =====
-- `readJsonPacket` of lobbysvr/lobbyAcceptorReceiver.cpp and of lobbysvr/brokerConnector.cpp, up to
-- their `dispatch`. Their logging is left out.
use lobbysvr.Base.{ℕ, Bool, List, [], ◌∷◌, Option, none, some, ltb, leb, ◌==◌, ◌||◌, if◌then◌else◌}
use lobbysvr.Net.Buffer.{MessageBuffer, Outcome, ok, throws, overrun, Exception, read}
use lobbysvr.Lobby.Json.{JsonLib}
use lobbysvr.Lobby.Protocol.{
  PtJson, read_head, read_broker_head, head_size, max_body_size, broker_head_size,
  broker_max_body_size,
}

-- The text before the first NUL of a `char[32]`, and `none` where there is none, so that the
-- conversion to `std::string` reads past the end of the array.
unfoldable pub c_string : List ℕ → Option (List ℕ)
c_string [] = none
c_string (x ∷ xs) =
    let rest = c_string xs in
    if x == 0 then some [] else elim rest [ some text ↦ some (x ∷ text) | none ↦ none ]

-- What `readJsonPacket` comes to. `refused` returns with no effect but a log line, `closes` returns
-- after `closeReserve(0)`, `over_read` reads past the end of `urlString`.
pub data Reading (V : Type 0) : Type 0 where
  dispatches : List ℕ → V → Reading V
  refused closes over_read : Reading V
  escapes : Exception → Reading V

module _ (J : JsonLib) where
  open J use {Value, parse}

  -- `char urlString[…] = url; dispatch(conn, urlString, value)`.
  with_url : Value → Option (List ℕ) → Reading Value
  with_url value (some text) = dispatches text value
  with_url value none = over_read

  with_value : PtJson → Option Value → Reading Value
  unfolding with_url
  with_value req (some value) = with_url value (c_string req.url)
  with_value req none = refused

  read_text : PtJson → List ℕ → Reading Value
  unfolding with_value
  read_text req body = with_value req (parse body)

  -- `msg.read(req.jsonBody, req.bodySize)` under `catch`.
  read_body : PtJson → Outcome (List ℕ × MessageBuffer) → Reading Value
  unfolding read_text
  read_body req (ok (body, rest)) = read_text req body
  read_body req (throws e) = refused
  read_body req overrun = over_read

  sized_body : ℕ → PtJson → MessageBuffer → Reading Value
  unfolding read_body
  sized_body limit req msg =
      if ltb limit req.body_size || leb req.body_size 0
      then refused
      else read_body req (read msg req.body_size)

  after_head : Outcome (List ℕ × MessageBuffer) → Reading Value
  unfolding sized_body
  after_head (ok (head, rest)) = sized_body max_body_size (read_head head) rest
  after_head (throws e) = escapes e
  after_head overrun = over_read

  -- `LobbyAcceptorReceiver::readJsonPacket(conn, size, msg)`; the flag says that the connection has a
  -- user.
  unfoldable pub read_json_packet : Bool → ℕ → MessageBuffer → Reading Value
  unfolding after_head
  read_json_packet has_user size msg =
      if has_user
      then (if ltb size head_size then closes else after_head (read msg head_size))
      else refused

  broker_head : Outcome (List ℕ × MessageBuffer) → Reading Value
  unfolding sized_body
  broker_head (ok (head, rest)) =
      let req = read_broker_head head in
      sized_body broker_max_body_size
        (record {
          code = req.code;
          sequence_no = 0;
          is_compressed = 0;
          url = req.url;
          body_size = req.body_size;
          json_body = [];
        })
        rest
  broker_head (throws e) = escapes e
  broker_head overrun = over_read

  -- `BrokerConnector::readJsonPacket(conn, size, msg)`, which makes no test of `size`.
  unfoldable pub read_broker_packet : ℕ → MessageBuffer → Reading Value
  unfolding broker_head
  read_broker_packet size msg = broker_head (read msg broker_head_size)
