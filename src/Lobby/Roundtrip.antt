-- ===== src/Lobby/Roundtrip.antt =====
-- What a `SendJsonPacket` of the lobby sends, its own `readJsonPacket` reads.
use lobbysvr.Base.{
  ℕ, zero, suc, ◌+◌, ◌-◌, ◌≤◌, ◌<◌, ◌≡◌, ◌≢◌, refl, sym, ap, ◌∙◌, true, List, [], ◌∷◌, ◌++◌, some,
  arith, length, length-append, length-replicate, drop, replicate, le16, le32, length-le16, word16,
  word16-le16, word32-le32, take-length-append, drop-length-append, u16_mod, u32_mod, le→ltb,
  lt→leb, append-nil,
}
use lobbysvr.Net.Buffer.{MessageBuffer}
use lobbysvr.Net.Buffer.Contents.{IsValid, contents}
use lobbysvr.Net.Parser.Phases.{read_front}
use lobbysvr.Lobby.Json.{JsonLib}
use lobbysvr.Lobby.Protocol.{
  PtJson, head_bytes, read_head, url_field, json_code, max_body_size, head_size,
}
use lobbysvr.Lobby.ReadJson.{c_string, dispatches, read_json_packet}

-- No byte of a C string is 0.
abbrev pub HasNoNul : List ℕ → Type 0
HasNoNul [] = Unit {0}
HasNoNul (x ∷ xs) = (x ≢ 0) × HasNoNul xs

c_string-zeros : (n : ℕ) → 0 < n → c_string (replicate n 0) ≡ some []
unfolding c_string
c_string-zeros zero h = absurd (omega arith)
c_string-zeros (suc n) h = refl

pub c_string-append :
    (text : List ℕ) (n : ℕ) → HasNoNul text → 0 < n → c_string (text ++ replicate n 0) ≡ some text
unfolding c_string
c_string-append [] n t h = c_string-zeros n h
c_string-append (x ∷ xs) n t h = ground (arith, c_string-append xs n t.1 h)

pub length-url_field : (url : List ℕ) → length url ≤ 32 → length (url_field url) ≡ 32
unfolding url_field
length-url_field url h = omega (
  arith,
  length-append {0} url (replicate (32 - length url) 0),
  length-replicate {0} {A = ℕ} (32 - length url) 0,
)

-- The packet that a send of this text writes.
abbrev pub json_head : ℕ → List ℕ → ℕ → PtJson
json_head sequence_no url body_size = record {
  code = json_code;
  sequence_no = sequence_no;
  is_compressed = 0;
  url = url;
  body_size = body_size;
  json_body = [];
}

-- The head of a packet read back.
pub read_head-head_bytes :
    (sequence_no : ℕ) (url : List ℕ) (body_size : ℕ)
    → sequence_no < u32_mod
    → length url ≡ 32
    → body_size < u16_mod
    → read_head (head_bytes (json_head sequence_no url body_size))
      ≡ json_head sequence_no url body_size
unfolding read_head head_bytes le32 le16
read_head-head_bytes sequence_no url body_size hs hu hb = λ i. record {
  code = json_code;
  sequence_no = word32-le32 sequence_no (0 ∷ (url ++ le16 body_size)) hs i;
  is_compressed = 0;
  url = take-length-append url (le16 body_size) 32 (sym hu) i;
  body_size = sized i;
  json_body = [];
}
  where
    sized : word16 (drop 32 (url ++ le16 body_size)) ≡ body_size
    sized =
        ap word16 (drop-length-append url (le16 body_size) 32 (sym hu))
        ∙ word16-le16 body_size [] hb

pub length-head_bytes :
    (sequence_no : ℕ) (url : List ℕ) (body_size : ℕ)
    → length url ≡ 32
    → length (head_bytes (json_head sequence_no url body_size)) ≡ head_size
unfolding head_bytes le32 le16
length-head_bytes sequence_no url body_size h =
    omega (arith, length-append {0} url (le16 body_size), length-le16 body_size)

module _ (J : JsonLib) where
  open J use {Value, parse}

  -- `readJsonPacket` on a valid message that holds a packet's head and its text with a NUL behind
  -- it, where the connection has a user, the size is at least the head's, the sequence number is of
  -- 32 bits, the URL is shorter than 32 and has no NUL, the text is of at most 29999 bytes, and
  -- jsoncpp parses it: the value is dispatched under the packet's URL.
  pub read_json_packet_lem :
      {msg : MessageBuffer} (n sequence_no : ℕ) (url text : List ℕ) (value : Value)
      → IsValid msg
      → contents msg
        ≡ head_bytes (json_head sequence_no (url_field url) (length text + 1)) ++ (text ++ 0 ∷ [])
      → head_size ≤ n
      → sequence_no < u32_mod
      → length url < 32
      → HasNoNul url
      → length text + 1 ≤ max_body_size
      → parse (text ++ 0 ∷ []) ≡ some value
      → read_json_packet J true n msg ≡ dispatches url value
  unfolding read_json_packet url_field
  read_json_packet_lem {msg} n sequence_no url text value v e hn hs hu nul ht parsed =
      let (rest, eq, left, valid) =
        read_front head_size head (text ++ 0 ∷ []) v
          (sym (length-head_bytes sequence_no (url_field url) (length text + 1) sized)) e in
      let (rest', eq', left', valid') =
        read_front (length text + 1) (text ++ 0 ∷ []) [] valid
          (omega (arith, length-append {0} text (0 ∷ [])))
          (left ∙ sym (append-nil (text ++ 0 ∷ []))) in
      rw (
        le→ltb n head_size hn,
        eq,
        read_head-head_bytes sequence_no (url_field url) (length text + 1) hs sized (omega arith),
        le→ltb max_body_size (length text + 1) ht,
        lt→leb (length text + 1) 0 (omega arith),
        eq',
        parsed,
        c_string-append url (32 - length url) nul (omega arith),
      )
    where
      head : List ℕ
      head = head_bytes (json_head sequence_no (url_field url) (length text + 1))

      sized : length (url_field url) ≡ 32
      sized = length-url_field url (omega arith)
