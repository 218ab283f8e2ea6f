-- ===== src/Lobby/SendJson.antt =====
-- `User::SendJsonPacket` and `UserBasis::Send` of lobbysvr/lobbyUser.cpp and lobbysvr/userBasis.cpp, and
-- `ConnectorUser::SendJsonPacket` of lobbysvr/connectorUser.cpp. The build without
-- USE_COMPRESS_FOR_PACKET is modelled, on a host where `MB2UTF8` returns its argument
-- (lobbysvr/mlnUtils.cpp). The result of a send is what `sendPacket` puts on the wire.
use lobbysvr.Base.{
  ℕ, ◌+◌, ◌%◌, ◌≡◌, refl, List, [], ◌∷◌, ◌++◌, Option, none, some, ltb, ◌==◌, ◌||◌, if◌then◌else◌,
  length, u16_mod,
}
use lobbysvr.Net.Memory.{Memory}
use lobbysvr.Net.Buffer.{MsgUserManip, Outcome, ok, throws, overrun, Exception}
use lobbysvr.Net.Connection.{send_packet}
use lobbysvr.Lobby.Json.{JsonLib}
use lobbysvr.Lobby.Protocol.{
  head_bytes, broker_head_bytes, url_field, json_code, max_url_string, max_body_size,
  broker_max_body_size,
}
use Prim.Native.String.{String}

-- `RSP_SEQ` and `RSP_RM` of lobbysvr/stdafx.h.
abbrev pub rsp_seq : String
rsp_seq = "packetSequenceNum"

abbrev pub rsp_rm : String
rsp_rm = "resultMsg"

-- `EncType::GREETING` of net/packetEncType.h, the value of `UserBasis::m_encType`.
abbrev pub greeting : ℕ
greeting = 0

-- What became of a send: the returned number and the bytes given to the socket, if any; an exception
-- of the buffer or of jsoncpp; or a copy past the end of `url` or `jsonBody`.
pub data Sent : Type 0 where
  sent : ℕ → List ℕ → Sent
  unsent : ℕ → Sent
  raised : Exception → Sent
  json_raised ran_over : Sent

sent_as : ℕ → Outcome (List ℕ) → Sent
sent_as size (ok bytes) = sent size bytes
sent_as size (throws e) = raised e
sent_as size overrun = ran_over

-- `UserBasis::Send(data, size)`.
unfoldable pub send_user : Memory → MsgUserManip → ℕ → List ℕ → Sent
unfolding sent_as
send_user m manip enc_type bytes =
    if enc_type == greeting then sent_as (length bytes) (send_packet m manip bytes) else unsent 0

-- `ConnectorUser::Send(data, size)`.
unfoldable pub send_connector : Memory → MsgUserManip → List ℕ → Sent
unfolding sent_as
send_connector m manip bytes = sent_as (length bytes) (send_packet m manip bytes)

module _ (J : JsonLib) where
  open J use {Value, member, set_member, is_null, as_uint, as_string, of_string, write}

  -- `jv[RSP_RM] = MB2UTF8(jv[RSP_RM].asCString())`, if there is such a member.
  unfoldable pub convert_message : Value → Option Value
  convert_message jv =
      if is_null (member jv rsp_rm) then some jv else elim (as_string (member jv rsp_rm)) [
        | some text ↦ some (set_member jv rsp_rm (of_string text))
        | none ↦ none
      ]

  unfoldable pub sequence_of : Value → Option ℕ
  sequence_of jv = if is_null (member jv rsp_seq) then some 0 else as_uint (member jv rsp_seq)

  sequenced : Value → Option ℕ → Option Value
  sequenced jv none = none
  sequenced jv (some n) = some jv

  -- What `User::SendJsonPacket` makes of `jv`, which it changes in place; `none` where jsoncpp throws.
  unfoldable pub sent_value : Value → Option Value
  unfolding convert_message sequence_of sequenced
  sent_value jv = elim (convert_message jv) [ none ↦ none | some v ↦ sequenced v (sequence_of v) ]

  module _ (m : Memory) (manip : MsgUserManip) (enc_type : ℕ) where
    -- From the serialized text on: the two copies, the size field and its test, and the send.
    unfoldable pub send_text : List ℕ → ℕ → List ℕ → Sent
    send_text url sequence_no serialized =
        let body_size : ℕ = (length serialized + 1) % u16_mod in
        if ltb max_url_string (length url) || ltb max_body_size (length serialized + 1)
        then ran_over
        else if ltb max_body_size body_size
        then unsent 0
        else send_user m manip enc_type (
            head_bytes (record {
              code = json_code;
              sequence_no = sequence_no;
              is_compressed = 0;
              url = url_field url;
              body_size = body_size;
              json_body = serialized ++ 0 ∷ [];
            })
            ++ (serialized ++ 0 ∷ []))

    send_converted : List ℕ → Option Value → Sent
    unfolding send_text sequence_of
    send_converted url none = json_raised
    send_converted url (some jv) = elim (sequence_of jv) [
      | some n ↦ send_text url n (write jv)
      | none ↦ json_raised
    ]

    -- `User::SendJsonPacket(url, jv)`.
    unfoldable pub send_json_packet : List ℕ → Value → Sent
    unfolding send_converted
    send_json_packet url jv = send_converted url (convert_message jv)

  -- The two agree on when jsoncpp throws.
  pub send_json_packet-sent_value :
      (m : Memory) (manip : MsgUserManip) (enc_type : ℕ) (url : List ℕ) (jv : Value)
      → sent_value jv ≡ none
      → send_json_packet m manip enc_type url jv ≡ json_raised
  unfolding send_json_packet send_converted sent_value sequenced
  send_json_packet-sent_value m manip enc_type url jv = of_converted (convert_message jv)
    where
      of_sequence :
          (v : Value) (o : Option ℕ)
          → sequenced v o ≡ none
          → elim o [ some n ↦ send_text m manip enc_type url n (write v) | none ↦ json_raised ]
            ≡ json_raised
      of_sequence v none e = refl
      of_sequence v (some n) e = cc

      of_converted :
          (o : Option Value)
          → elim o [ none ↦ none | some v ↦ sequenced v (sequence_of v) ] ≡ none
          → send_converted m manip enc_type url o ≡ json_raised
      of_converted none e = refl
      of_converted (some v) e = of_sequence v (sequence_of v) e

  -- `ConnectorUser::SendJsonPacket(url, jv)`.
  unfoldable pub send_broker_json : Memory → MsgUserManip → List ℕ → Value → Sent
  send_broker_json m manip url jv =
      let serialized = write jv in
      if ltb max_url_string (length url) || ltb broker_max_body_size (length serialized)
      then ran_over
      else send_connector m manip (
          broker_head_bytes (record {
            code = json_code;
            url = url_field url;
            body_size = length serialized % u16_mod;
            json_body = serialized;
          })
          ++ serialized)
