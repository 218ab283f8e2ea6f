-- ===== src/Lobby/EndToEnd.antt =====
-- From a `SendJsonPacket` through the wire and the lobby's parser to `dispatch`.
use lobbysvr.Base.{
  ℕ, ◌+◌, ◌-◌, ◌%◌, ◌≤◌, ◌<◌, ◌≡◌, refl, sym, ap, ◌∙◌, subst, true, false, Bool, List, [], ◌∷◌,
  ◌++◌, some, map, arith, if◌then◌else◌, length, length-append, append-nil, word32, u16_mod,
  u32_mod, le→ltb, le→leb,
}
use lobbysvr.Net.Memory.{Memory, peek-poke_exact}
use lobbysvr.Net.Buffer.{MessageBuffer, max_buffer_size, size, readable_into}
use lobbysvr.Net.Buffer.Contents.{IsValid, contents, size-contents}
use lobbysvr.Net.Buffer.Reads.{readable_into_lem}
use lobbysvr.Net.Frame.{json_test_manip}
use lobbysvr.Net.Frame.Codec.{plain_codec, Packet, encode, encode_all, all_bodies}
use lobbysvr.Net.Parser.{Parser, handled, returned, packet_code, code_of}
use lobbysvr.Net.Parser.Phases.{part_buffer}
use lobbysvr.Net.Parser.Spec.{done, Delivered, Copies, deliver_body, deliver_all, carry_on}
use lobbysvr.Net.Parser.Delivery.{parse_delivers}
use lobbysvr.Net.Sending.{send_packet_plain}
use lobbysvr.Lobby.Json.{JsonLib}
use lobbysvr.Lobby.Protocol.{head_bytes, url_field, json_code, max_body_size}
use lobbysvr.Lobby.ReadJson.{read_json_packet}
use lobbysvr.Lobby.SendJson.{sent, send_text, send_user, greeting}
use lobbysvr.Lobby.Roundtrip.{
  HasNoNul, json_head, length-url_field, length-head_bytes, read_json_packet_lem,
}
use lobbysvr.Lobby.JsonParser.{
  Receiver, apply_reading, deliver_lobby, copying_parser, packet_parser_not_use_enc_test,
}
use lobbysvr.Net.Frame.{plain}

-- The part that carries a JSON packet.
abbrev pub json_part : ℕ → List ℕ → List ℕ → List ℕ
json_part sequence_no url text =
    head_bytes (json_head sequence_no (url_field url) (length text + 1)) ++ (text ++ 0 ∷ [])

length-json_part :
    (sequence_no : ℕ) (url text : List ℕ)
    → length url ≤ 32
    → length (json_part sequence_no url text) ≡ 41 + length text
length-json_part sequence_no url text h = omega (
  arith,
  length-append {0} (head_bytes (json_head sequence_no (url_field url) (length text + 1)))
      (text ++ 0 ∷ []),
  length-head_bytes sequence_no (url_field url) (length text + 1) (length-url_field url h),
  length-append {0} text (0 ∷ []),
)

-- `SendJsonPacket`, from the text of the value on, with the test manipulator: it sends a text of at
-- most 29999 bytes under a URL of at most 32 as one packet of one part, and returns the part's size.
pub send_text_lem :
    (J : JsonLib) (m : Memory) (url : List ℕ) (sequence_no : ℕ) (text : List ℕ)
    → length url ≤ 32
    → length text + 1 ≤ max_body_size
    → send_text J m json_test_manip greeting url sequence_no text
      ≡ sent (41 + length text) (encode plain_codec (json_part sequence_no url text, []))
unfolding send_text send_user head_bytes
send_text_lem J m url sequence_no text hu ht = rw (
  le→ltb 32 (length url) hu,
  le→ltb max_body_size (length text + 1) ht,
  small,
  le→ltb max_body_size (length text + 1) ht,
  send_packet_plain m (json_part sequence_no url text)
      (omega (arith, length-json_part sequence_no url text hu)),
  length-json_part sequence_no url text hu,
)
  where
    small : (length text + 1) % u16_mod ≡ length text + 1
    small = omega arith

contents-part_buffer : (junk : Memory) (body : List ℕ) → contents (part_buffer junk body) ≡ body
contents-part_buffer junk body = peek-poke_exact junk 0 (0 + length body - 0) body (omega arith)

contents-part_buffer-IsValid :
    (junk : Memory) (body : List ℕ)
    → length body ≤ max_buffer_size
    → IsValid (part_buffer junk body)
contents-part_buffer-IsValid junk body h = omega arith

packet_code-part_buffer :
    (junk : Memory) (sequence_no : ℕ) (url text : List ℕ)
    → length (json_part sequence_no url text) ≤ max_buffer_size
    → packet_code 1 (part_buffer junk (json_part sequence_no url text)) ≡ json_code
unfolding packet_code head_bytes word32
packet_code-part_buffer junk sequence_no url text h = ap code_of first
  where
    body : List ℕ
    body = json_part sequence_no url text

    v : IsValid (part_buffer junk body)
    v = contents-part_buffer-IsValid junk body h

    held : contents (part_buffer junk body) ≡ body
    held = contents-part_buffer junk body

    first : readable_into (part_buffer junk body) 1 ≡ some (json_code ∷ [])
    first =
        readable_into_lem 1 v
        ∙ rw (
          le→leb 1 (size (part_buffer junk body))
              (omega (arith, size-contents (part_buffer junk body) held)),
          held,
        )

module _ (J : JsonLib) where
  open J use {Value, parse}

  -- A request as a client sends it, and what it is parsed to.
  pub record Request : Type 0 where
    pub sequence_no : ℕ
    pub url : List ℕ
    pub text : List ℕ
    pub value : Value

  -- What the fields of a packet can hold, and that the text is JSON; jsoncpp's reader is given the
  -- text with the NUL that the sender put behind it.
  pub record IsSendable (r : Request) : Type 0 where
    pub small_sequence : r.sequence_no < u32_mod
    pub short_url : length r.url < 32
    pub text_url : HasNoNul r.url
    pub short_text : length r.text + 1 ≤ max_body_size
    pub parsed : parse (r.text ++ 0 ∷ []) ≡ some r.value

  abbrev pub AllSendable : List Request → Type 0
  AllSendable [] = Unit {0}
  AllSendable (r ∷ rs) = IsSendable r × AllSendable rs

  abbrev pub packet_of : Request → Packet
  packet_of r = (json_part r.sequence_no r.url r.text, [])

  module _ {S : Type 0} (receiver : Receiver J S) where
    -- What the server is to do with the requests: dispatch each, in order, while there is a user.
    abbrev pub serve : S → List Request → S
    serve s [] = s
    serve s (r ∷ rs) =
        serve (if receiver.has_user s then receiver.dispatch_url s r.url r.value else s) rs

    module _ (junk : Memory) where
      lobby_parser : Parser S
      lobby_parser = copying_parser J receiver junk plain 1 (deliver_lobby J receiver)

      lobby_parser-Copies : Copies lobby_parser plain_codec junk
      unfolding lobby_parser
      lobby_parser-Copies = record { same_format = refl; copies = λ s msg n. refl }

      deliver_request :
          (s : S) (r : Request)
          → IsSendable r
          → deliver_body lobby_parser junk s (json_part r.sequence_no r.url r.text)
            ≡ (if receiver.has_user s then receiver.dispatch_url s r.url r.value else s, handled)
      unfolding lobby_parser deliver_lobby
      deliver_request s r sendable =
          ap (λ code. deliver_lobby J receiver s code (length body) (part_buffer junk body))
            (packet_code-part_buffer junk r.sequence_no r.url r.text fits)
          ∙ served (receiver.has_user s)
        where
          body : List ℕ
          body = json_part r.sequence_no r.url r.text

          fits : length body ≤ max_buffer_size
          fits = omega (
            arith,
            length-json_part r.sequence_no r.url r.text,
            sendable.short_url,
            sendable.short_text,
          )

          served :
              (b : Bool)
              → apply_reading J receiver s
                  (read_json_packet J b (length body) (part_buffer junk body))
                ≡ (if b then receiver.dispatch_url s r.url r.value else s, handled)
          served true =
              unfold apply_reading in
              ap (apply_reading J receiver s) (
                read_json_packet_lem J (length body) r.sequence_no r.url r.text r.value
                  (contents-part_buffer-IsValid junk body fits) (contents-part_buffer junk body)
                  (omega (arith, length-json_part r.sequence_no r.url r.text, sendable.short_url))
                  sendable.small_sequence sendable.short_url sendable.text_url sendable.short_text
                  sendable.parsed)
          served false = unfold apply_reading read_json_packet in refl

      deliver_requests :
          (s : S) (rs : List Request)
          → AllSendable rs
          → deliver_all lobby_parser junk s (all_bodies (map packet_of rs)) ≡ (serve s rs, done)
      deliver_requests s [] all = refl
      deliver_requests s (r ∷ rs) (sendable, all) =
          ap
            (λ d.
              carry_on lobby_parser junk (part_buffer junk (json_part r.sequence_no r.url r.text)) d
                λ s'. deliver_all lobby_parser junk s' (all_bodies (map packet_of rs)))
            (deliver_request s r sendable)
          ∙ deliver_requests
              (if receiver.has_user s then receiver.dispatch_url s r.url r.value else s) rs all

      -- A valid message that holds the packets that `SendJsonPacket` writes for some requests, each
      -- with a URL that has no NUL and is shorter than 32 and a text of at most 29999 bytes that
      -- jsoncpp parses: the parser of the lobby's acceptor dispatches each request's value under its
      -- URL, once and in order, while the connection has a user, and then returns true with nothing
      -- left.
      pub requests-served :
          (msg : MessageBuffer) (s : S) (rs : List Request)
          → IsValid msg
          → AllSendable rs
          → contents msg ≡ encode_all plain_codec (map packet_of rs)
          → let f = packet_parser_not_use_enc_test J receiver junk msg s in
            (f.state ≡ serve s rs) × (f.ending ≡ returned true) × (contents f.msg ≡ [])
      unfolding packet_parser_not_use_enc_test lobby_parser
      requests-served msg s rs v all e =
          subst (λ d. Delivered d [] (packet_parser_not_use_enc_test J receiver junk msg s))
            (deliver_requests s rs all)
            (parse_delivers lobby_parser plain_codec junk lobby_parser-Copies msg s
              (map packet_of rs) [] v (e ∙ sym (append-nil _)) (omega arith))
