-- ===== src/Net/CipherParser.antt =====
-- `packetParser` of net/packetParserSimple.cpp and of lobbysvr/packetParserJson.cpp, which have the same
-- text: the loop of `Net.Parser` with keyed headers, where a part's body goes through the cipher of the
-- `MessageProcedure`. The cipher's handlers are not in the repository (they are given to `setCipher`),
-- so they are parameters; each is given the message itself and may read from it.
pub mod Bodies
pub mod Handshake
mod Tests
use lobbysvr.Base.{ℕ, ◌%◌, Bool, true, false, Option, none, some, ◌==◌, if◌then◌else◌}
use lobbysvr.Net.Memory.{Memory}
use lobbysvr.Net.Buffer.{
  MessageBuffer, Outcome, ok, throws, overrun, size, readable, read_count, read_all, new_buffer,
}
use lobbysvr.Net.Frame.{keyed}
use lobbysvr.Net.Parser.{
  Parser, Verdict, Opening, opened, skipped, ended, Finish, returned, threw, overran, aborted,
  parse, copy_part,
}
use lobbysvr.Net.Dispatch.{
  MessageProcedure, EncParameters, find_handler, get_cipher_handler, not_set_cipher_value,
}
use lobbysvr.Net.SimpleParser.{call_handler}

-- `EncType::GREETING` and `EncType::AES_128_CBC`.
abbrev pub greeting_type : ℕ
greeting_type = 0

abbrev pub aes_128_cbc : ℕ
aes_128_cbc = 2

-- `msgHandlerFn_cipherInit`: its result and the message after it. `msgHandlerFn_cipherDEC`: the message
-- and `procMsg` after it; its result is not looked at.
abbrev pub CipherInit : Type 0 → Type 0
CipherInit S = S → ℕ → MessageBuffer → S × Outcome (Bool × MessageBuffer)

abbrev pub CipherDec : Type 0 → Type 0
CipherDec S = S → ℕ → MessageBuffer → MessageBuffer → S × Outcome (MessageBuffer × MessageBuffer)

abbrev pub Procedure : Type 0 → Type 0
Procedure S = MessageProcedure (S → ℕ → MessageBuffer → S × Verdict) (CipherInit S) (CipherDec S)

skip_part : MessageBuffer → Outcome MessageBuffer → Opening
skip_part msg (ok rest) = skipped rest
skip_part msg (throws e) = ended msg (threw e)
skip_part msg overrun = ended msg overran

taken_part : MessageBuffer → MessageBuffer → Outcome MessageBuffer → Opening
taken_part msg proc (ok rest) =
    if size proc == 0 then ended rest (returned true) else opened proc rest
taken_part msg proc (throws e) = ended msg (threw e)
taken_part msg proc overrun = ended msg overran

module _ {S : Type 0} where
  -- After the init handler.
  unfoldable pub init_phase : ℕ → MessageBuffer → S × Outcome (Bool × MessageBuffer) → S × Opening
  unfolding skip_part
  init_phase n msg (s, ok (true, rest)) =
      if readable rest n
      then (s, skip_part rest (read_count rest n))
      else (s, ended (read_all rest) (returned false))
  init_phase n msg (s, ok (false, rest)) = (s, ended (read_all rest) (returned false))
  init_phase n msg (s, throws e) = (s, ended msg (threw e))
  init_phase n msg (s, overrun) = (s, ended msg overran)

  -- After the decryptor.
  unfoldable pub decrypt_phase :
      ℕ → MessageBuffer → S × Outcome (MessageBuffer × MessageBuffer) → S × Opening
  unfolding taken_part
  decrypt_phase n msg (s, ok (rest, proc)) = (s, taken_part rest proc (read_count rest n))
  decrypt_phase n msg (s, throws e) = (s, ended msg (threw e))
  decrypt_phase n msg (s, overrun) = (s, ended msg overran)

  decrypt_part : Memory → Option (CipherDec S) → S → MessageBuffer → ℕ → S × Opening
  unfolding decrypt_phase
  decrypt_part junk none s msg n = (s, ended msg aborted)
  decrypt_part junk (some decrypt) s msg n = decrypt_phase n msg (decrypt s n msg (new_buffer junk))

  -- `if (std::get<1>(ciperData)) … else …`, where `is_sync` is the connection's
  -- `isSyncEncryptionKey(ciperType)`.
  unfoldable pub open_ciphered :
      Memory
      → (S → ℕ → Bool)
      → ℕ
      → Option (CipherInit S)
      → Option (CipherDec S)
      → S
      → MessageBuffer
      → ℕ
      → S × Opening
  unfolding init_phase decrypt_part
  open_ciphered junk is_sync enc_type none dec s msg n = (s, copy_part junk msg n)
  open_ciphered junk is_sync enc_type (some init) dec s msg n =
      if is_sync s enc_type
      then (if enc_type == greeting_type
          then (s, copy_part junk msg n)
          else decrypt_part junk dec s msg n)
      else init_phase n msg (init s n msg)

  -- `ciperData`.
  unfoldable pub cipher_of : Procedure S → EncParameters (CipherInit S) (CipherDec S)
  cipher_of procedure =
      if procedure.user_cipher_type == not_set_cipher_value
      then get_cipher_handler procedure aes_128_cbc
      else get_cipher_handler procedure (procedure.user_cipher_type % 256)

  module _ (junk : Memory) (is_sync : S → ℕ → Bool) (procedure : Procedure S)
      (on_no_handler : S → MessageBuffer → S) where
    abbrev pub cipher_parser : Parser S
    cipher_parser = record {
      format = keyed;
      code_size = 4;
      open_part = λ s msg n.
          open_ciphered junk is_sync (cipher_of procedure).enc_type (cipher_of procedure).init
            (cipher_of procedure).decrypt s msg n;
      deliver = λ s code n proc. call_handler (find_handler procedure code) s n proc;
      on_no_handler = on_no_handler;
    }

    unfoldable pub packet_parser : MessageBuffer → S → Finish S
    packet_parser msg s = parse cipher_parser msg s
