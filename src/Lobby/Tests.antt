-- ===== src/Lobby/Tests.antt =====
-- The theorems on lobbysvr/ at concrete packets, with a JSON library whose values are their texts.
use lobbysvr.Base.{
  ℕ, ◌-◌, ◌≡◌, refl, true, List, [], ◌∷◌, ◌++◌, none, some, map, arith, length, le32, le16,
}
use lobbysvr.Net.Memory.{Memory, poke, peek-poke_exact}
use lobbysvr.Net.Buffer.{MessageBuffer}
use lobbysvr.Net.Buffer.Contents.{IsValid, contents}
use lobbysvr.Net.Frame.{json_test_manip}
use lobbysvr.Net.Frame.Codec.{plain_codec, encode, encode_all}
use lobbysvr.Net.Parser.{returned}
use lobbysvr.Lobby.Json.{JsonLib}
use lobbysvr.Lobby.Protocol.{head_bytes, url_field}
use lobbysvr.Lobby.SendJson.{sent, send_text, greeting}
use lobbysvr.Lobby.Roundtrip.{json_head, HasNoNul}
use lobbysvr.Lobby.JsonParser.{Receiver, packet_parser_not_use_enc_test}
use lobbysvr.Lobby.EndToEnd.{
  json_part, send_text_lem, Request, IsSendable, packet_of, requests-served,
}

abbrev pub zeros : Memory
zeros = λ a. 0

abbrev pub text_json : JsonLib
text_json = record {
  Value = List ℕ;
  null = [];
  member = λ v key. [];
  set_member = λ v key w. v;
  is_null = λ v. true;
  as_int = λ v. none;
  as_uint = λ v. none;
  as_uint64 = λ v. none;
  as_string = λ v. some v;
  of_int = λ n. [];
  of_uint = λ n. n ∷ [];
  of_uint64 = λ n. n ∷ [];
  of_string = λ s. s;
  write = λ v. v;
  parse = λ text. some text;
}

abbrev held : List ℕ → MessageBuffer
held bytes = record {
  buffer = poke zeros 0 bytes;
  read_pos = 0;
  write_pos = length bytes;
  manip = none;
}

contents-held : (bytes : List ℕ) → contents (held bytes) ≡ bytes
contents-held bytes = peek-poke_exact zeros 0 (length bytes - 0) bytes (omega arith)

-- `/a` and `/b`, with the texts `{}` and `[]`.
abbrev url_a : List ℕ
url_a = 47 ∷ 97 ∷ []

abbrev braces : List ℕ
braces = 123 ∷ 125 ∷ []

abbrev pub request_a : Request text_json
request_a = record { sequence_no = 1; url = url_a; text = braces; value = braces ++ 0 ∷ [] }

abbrev pub request_b : Request text_json
request_b = record {
  sequence_no = 2;
  url = 47 ∷ 98 ∷ [];
  text = 91 ∷ 93 ∷ [];
  value = 91 ∷ 93 ∷ 0 ∷ [];
}

url_a-HasNoNul : HasNoNul url_a
url_a-HasNoNul = (omega arith, (omega arith, tt))

url_b-HasNoNul : HasNoNul (47 ∷ 98 ∷ [])
url_b-HasNoNul = (omega arith, (omega arith, tt))

pub request_a-IsSendable : IsSendable text_json request_a
request_a-IsSendable = record {
  small_sequence = omega arith;
  short_url = omega arith;
  text_url = url_a-HasNoNul;
  short_text = omega arith;
  parsed = refl;
}

pub request_b-IsSendable : IsSendable text_json request_b
request_b-IsSendable = record {
  small_sequence = omega arith;
  short_url = omega arith;
  text_url = url_b-HasNoNul;
  short_text = omega arith;
  parsed = refl;
}

-- Dispatched requests by their URLs, the last first.
abbrev log_receiver : Receiver text_json (List (List ℕ))
log_receiver = record {
  has_user = λ s. true;
  dispatch_url = λ s url value. url ∷ s;
  close_reserve = λ s. s;
}

abbrev pub requests : List (Request text_json)
requests = request_a ∷ request_b ∷ []

abbrev incoming : List ℕ
incoming = encode_all plain_codec (map (packet_of text_json) requests)

incoming-IsValid : IsValid (held incoming)
unfolding le32 head_bytes url_field le16
incoming-IsValid = omega arith

requests-served_example :
    let f = packet_parser_not_use_enc_test text_json log_receiver zeros (held incoming) [] in
    (f.state ≡ (47 ∷ 98 ∷ []) ∷ url_a ∷ []) × (f.ending ≡ returned true) × (contents f.msg ≡ [])
requests-served_example =
    requests-served text_json log_receiver zeros (held incoming) [] requests incoming-IsValid
      (request_a-IsSendable, (request_b-IsSendable, tt)) (contents-held incoming)

send_text_lem_example :
    send_text text_json zeros json_test_manip greeting url_a 1 braces
    ≡ sent 43 (encode plain_codec (json_part 1 url_a braces, []))
send_text_lem_example = send_text_lem text_json zeros url_a 1 braces (omega arith) (omega arith)

abbrev packet_a : List ℕ
packet_a = head_bytes (json_head 1 (url_field url_a) 3) ++ (braces ++ 0 ∷ [])

packet_a-IsValid : IsValid (held packet_a)
unfolding head_bytes url_field le32 le16
packet_a-IsValid = omega arith
