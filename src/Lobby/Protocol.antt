-- ===== src/Lobby/Protocol.antt =====
-- include/lobby_protocol.h and include/broker_protocol.h: the packed structs `PT_JSON`, as the bytes
-- that `send` and `read` copy. A field of n bytes is little-endian.
use lobbysvr.Base.{
  ℕ, ◌-◌, ◌%◌, List, [], ◌∷◌, ◌++◌, length, get_or, take, drop, replicate, le16, le32, word16,
  word32,
}

-- The constants of `LOBBY_PROTOCOL`, and those of `BROKER_PROTOCOL` that differ.
abbrev pub json_code : ℕ
json_code = 1

abbrev pub heartbeat_code : ℕ
heartbeat_code = 3

abbrev pub max_url_string : ℕ
max_url_string = 32

abbrev pub max_body_size : ℕ
max_body_size = 30000

abbrev pub head_size : ℕ
head_size = 40

abbrev pub broker_max_body_size : ℕ
broker_max_body_size = 4000

abbrev pub broker_head_size : ℕ
broker_head_size = 38

-- `LOBBY_PROTOCOL::PT_JSON`; `body` is what has been copied into `jsonBody`, from its start.
pub record PtJson : Type 0 where
  pub code : ℕ
  pub sequence_no : ℕ
  pub is_compressed : ℕ
  pub url : List ℕ
  pub body_size : ℕ
  pub json_body : List ℕ

-- The head of the struct, `HEAD_SIZE` bytes where `url` is 32.
unfoldable pub head_bytes : PtJson → List ℕ
head_bytes pk =
    (pk.code % 256)
    ∷ (le32 pk.sequence_no ++ ((pk.is_compressed % 256) ∷ (pk.url ++ le16 pk.body_size)))

-- The fields that such bytes set.
unfoldable pub read_head : List ℕ → PtJson
read_head bytes = record {
  code = get_or bytes 0 0;
  sequence_no = word32 (drop 1 bytes);
  is_compressed = get_or bytes 5 0;
  url = take 32 (drop 6 bytes);
  body_size = word16 (drop 38 bytes);
  json_body = [];
}

-- `BROKER_PROTOCOL::PT_JSON`.
pub record BrokerPtJson : Type 0 where
  pub code : ℕ
  pub url : List ℕ
  pub body_size : ℕ
  pub json_body : List ℕ

unfoldable pub broker_head_bytes : BrokerPtJson → List ℕ
broker_head_bytes pk = le32 pk.code ++ (pk.url ++ le16 pk.body_size)

unfoldable pub read_broker_head : List ℕ → BrokerPtJson
read_broker_head bytes = record {
  code = word32 bytes;
  url = take 32 (drop 4 bytes);
  body_size = word16 (drop 36 bytes);
  json_body = [];
}

-- A `char[32]` that was zeroed before `url` was copied to its start.
unfoldable pub url_field : List ℕ → List ℕ
url_field url = url ++ replicate (32 - length url) 0
