-- ===== src/Net/SimpleParser.antt =====
-- `SIMPLE_PACKET_PARSING_SUPPORT::packetParser_notUseEnc` of net/packetParserSimple.cpp: the loop of
-- `Net.Parser` with keyed headers, a packet code of four bytes, and the handlers of a
-- `MessageProcedure` (`memberFuncMap` first, then `staticFuncMap`).
use lobbysvr.Base.{ℕ, Option, none, some}
use lobbysvr.Net.Memory.{Memory}
use lobbysvr.Net.Buffer.{MessageBuffer}
use lobbysvr.Net.Frame.{keyed}
use lobbysvr.Net.Parser.{Parser, Verdict, no_handler, Finish, parse, copy_part}
use lobbysvr.Net.Dispatch.{MessageProcedure, find_handler}

module _ {S : Type 0} where
  -- The Boolean result of a handler is not looked at.
  unfoldable pub call_handler :
      Option (S → ℕ → MessageBuffer → S × Verdict) → S → ℕ → MessageBuffer → S × Verdict
  call_handler (some handler) s n proc = handler s n proc
  call_handler none s n proc = (s, no_handler)

  module _ {I D : Type 0} (junk : Memory)
      (procedure : MessageProcedure (S → ℕ → MessageBuffer → S × Verdict) I D)
      (on_no_handler : S → MessageBuffer → S) where
    unfoldable pub simple_parser : Parser S
    unfolding call_handler
    simple_parser = record {
      format = keyed;
      code_size = 4;
      open_part = λ s msg n. (s, copy_part junk msg n);
      deliver = λ s code n proc. call_handler (find_handler procedure code) s n proc;
      on_no_handler = on_no_handler;
    }

    unfoldable pub packet_parser_not_use_enc : MessageBuffer → S → Finish S
    unfolding simple_parser
    packet_parser_not_use_enc msg s = parse simple_parser msg s
