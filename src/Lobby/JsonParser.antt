-- ===== src/Lobby/JsonParser.antt =====
-- The parsers of lobbysvr/packetParserJson.cpp. Those that make no use of a cipher are the loop of
-- `Net.Parser`, each with its format, its packet code and its `readJsonPacket`. lobbysvr/main.cpp gives
-- `packetParser_notUseEncTest` to the lobby's acceptor and `packetParser_brokerTest` to the connector
-- of the broker.
use lobbysvr.Base.{ℕ, zero, suc, ◌+◌, Bool, List, [], ◌∷◌, ◌==◌, if◌then◌else◌}
use Prim.Native.Nat.{bit_xor}
use lobbysvr.Net.Memory.{Memory, poke}
use lobbysvr.Net.Buffer.{MessageBuffer}
use lobbysvr.Net.Frame.{Format, keyed, plain}
use lobbysvr.Net.Parser.{
  Parser, Verdict, handled, no_handler, raised, ran_over, Opening, opened, skipped, ended, Finish,
  parse, copy_part,
}
use lobbysvr.Net.CipherParser
use lobbysvr.Net.CipherParser.{Procedure}
use lobbysvr.Lobby.Json.{JsonLib}
use lobbysvr.Lobby.Protocol.{json_code, heartbeat_code}
use lobbysvr.Lobby.ReadJson.{
  Reading, dispatches, refused, closes, over_read, escapes, read_json_packet, read_broker_packet,
}

-- `packetParser`, which has the same text as that of net/packetParserSimple.cpp.
module _ {S : Type 0} where
  unfoldable pub packet_parser :
      Memory → (S → ℕ → Bool) → Procedure S → (S → MessageBuffer → S) → MessageBuffer → S → Finish S
  packet_parser junk is_sync procedure on_no_handler msg s =
      CipherParser.packet_parser junk is_sync procedure on_no_handler msg s

module _ (J : JsonLib) where
  open J use {Value}

  -- What the parsers' handlers do to the state of a connection and of the program around it: whether
  -- the connection has a user, `dispatch(conn, url, jv)`, which lets no exception out, and
  -- `closeReserve(0)`.
  pub record Receiver (S : Type 0) : Type 0 where
    pub has_user : S → Bool
    pub dispatch_url : S → List ℕ → Value → S
    pub close_reserve : S → S

  module _ {S : Type 0} (receiver : Receiver S) where
    -- The effect of a `readJsonPacket`.
    unfoldable pub apply_reading : S → Reading Value → S × Verdict
    apply_reading s (dispatches url value) = (receiver.dispatch_url s url value, handled)
    apply_reading s refused = (s, handled)
    apply_reading s closes = (receiver.close_reserve s, handled)
    apply_reading s over_read = (s, ran_over)
    apply_reading s (escapes e) = (s, raised e)

    -- `switch (packetCode)` of the lobby's parsers.
    unfoldable pub deliver_lobby : S → ℕ → ℕ → MessageBuffer → S × Verdict
    unfolding apply_reading
    deliver_lobby s code n proc =
        if code == json_code
        then apply_reading s (read_json_packet J (receiver.has_user s) n proc)
        else if code == heartbeat_code
        then (s, handled)
        else (s, no_handler)

    -- `if (1 == packetCode)` of the broker's parsers.
    unfoldable pub deliver_broker : S → ℕ → ℕ → MessageBuffer → S × Verdict
    unfolding apply_reading
    deliver_broker s code n proc =
        if code == 1 then apply_reading s (read_broker_packet J n proc) else (s, no_handler)

    module _ (junk : Memory) where
      -- A parser of the file, by its format, the width of its packet code and its handlers;
      -- `noHandler` of the lobby and of the broker reserves a close.
      abbrev pub copying_parser : Format → ℕ → (S → ℕ → ℕ → MessageBuffer → S × Verdict) → Parser S
      copying_parser format code_size deliver = record {
        format = format;
        code_size = code_size;
        open_part = λ s msg n. (s, copy_part junk msg n);
        deliver = deliver;
        on_no_handler = λ s proc. receiver.close_reserve s;
      }

      unfoldable pub packet_parser_not_use_enc : MessageBuffer → S → Finish S
      packet_parser_not_use_enc = parse (copying_parser keyed 4 deliver_lobby)

      unfoldable pub packet_parser_broker : MessageBuffer → S → Finish S
      packet_parser_broker = parse (copying_parser keyed 4 deliver_broker)

      unfoldable pub packet_parser_broker_test : MessageBuffer → S → Finish S
      packet_parser_broker_test = parse (copying_parser plain 4 deliver_broker)

      unfoldable pub packet_parser_not_use_enc_test : MessageBuffer → S → Finish S
      packet_parser_not_use_enc_test = parse (copying_parser plain 1 deliver_lobby)

      -- `packetParser_xor`: the body's bytes are changed in `procMsg` by five passes, one for each
      -- byte of the key from its last to its first.
      unfoldable pub xor_pass : ℕ → ℕ → ℕ → Memory → Memory
      xor_pass c zero address m = m
      xor_pass c (suc n) address m =
          xor_pass c n (address + 1) (poke m address (bit_xor (m address) c ∷ []))

      unfoldable pub xor_passes : List ℕ → ℕ → ℕ → Memory → Memory
      unfolding xor_pass
      xor_passes [] n address m = m
      xor_passes (c ∷ cs) n address m = xor_passes cs n address (xor_pass c n address m)

      -- "IgNiS", read from its end.
      abbrev pub xor_keys : List ℕ
      xor_keys = b'S' ∷ b'i' ∷ b'N' ∷ b'g' ∷ b'I' ∷ []

      xor_opened : ℕ → Opening → Opening
      unfolding xor_passes
      xor_opened n (opened proc msg) =
          opened (record proc { buffer = xor_passes xor_keys n 0 proc.buffer }) msg
      xor_opened n (skipped msg) = skipped msg
      xor_opened n (ended msg e) = ended msg e

      unfoldable pub packet_parser_xor : MessageBuffer → S → Finish S
      unfolding xor_opened
      packet_parser_xor = parse (record (copying_parser keyed 4 deliver_lobby) {
        open_part = λ s msg n. (s, xor_opened n (copy_part junk msg n));
      })
