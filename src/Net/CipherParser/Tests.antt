-- ===== src/Net/CipherParser/Tests.antt =====
-- The theorem on `packetParser` with a cipher that adds the exchanged byte to each byte.
use lobbysvr.Base.{
  ℕ, suc, ◌+◌, ◌-◌, ◌%◌, ◌≡◌, refl, ap, Bool, true, false, List, [], ◌∷◌, ◌++◌, Option, none, some,
  arith, length, take, map, le32, word32,
}
use lobbysvr.Net.Memory.{Memory, poke, peek, peek-poke_exact}
use lobbysvr.Net.Buffer.{MessageBuffer, ok, readable_into}
use lobbysvr.Net.Buffer.Contents.{IsValid, contents}
use lobbysvr.Net.Parser.{Verdict, handled, returned, packet_code}
use lobbysvr.Net.Parser.Phases.{part_buffer}
use lobbysvr.Net.Dispatch.{get_cipher_handler, find_handler}
use lobbysvr.Net.Frame.Codec.{keyed_codec, encode}
use lobbysvr.Net.SimpleParser.{call_handler}
use lobbysvr.Net.CipherParser.{CipherInit, CipherDec, Procedure, cipher_of, packet_parser}
use lobbysvr.Net.CipherParser.Bodies.{Cipher}
use lobbysvr.Net.CipherParser.Handshake.{packets, packet_parser-handshake}

abbrev zeros : Memory
zeros = λ a. 0

-- The key, once there is one, and the bodies that the handler was given.
pub record Session : Type 0 where
  pub key : Option (List ℕ)
  pub bodies : List (List ℕ)

abbrev shift : ℕ → List ℕ → List ℕ
shift k bytes = map (λ b. (b + k) % 256) bytes

abbrev under : Option (List ℕ) → List ℕ → List ℕ
under none bytes = bytes
under (some []) bytes = bytes
under (some (k ∷ ks)) bytes = shift k bytes

abbrev with_key : Session → List ℕ → Session
with_key s key = record s { key = some key }

abbrev init : CipherInit Session
init s n msg = (with_key s (take n (contents msg)), ok (true, msg))

abbrev decrypt : CipherDec Session
decrypt s n msg proc = (s, ok (msg, part_buffer zeros (under s.key (take n (contents msg)))))

length-shift : (k : ℕ) (bytes : List ℕ) → length (shift k bytes) ≡ length bytes
length-shift k [] = refl
length-shift k (b ∷ bytes) = ap suc (length-shift k bytes)

length-under : (key : Option (List ℕ)) (bytes : List ℕ) → length (under key bytes) ≡ length bytes
length-under none bytes = refl
length-under (some []) bytes = refl
length-under (some (k ∷ ks)) bytes = length-shift k bytes

abbrev adds : Cipher zeros init decrypt
adds = record {
  started = with_key;
  decrypted = λ s bytes. under s.key bytes;
  inits = λ s n msg. refl;
  decrypts = λ s n msg. refl;
  length-decrypted = λ s bytes. length-under s.key bytes;
}

abbrev keeps_body : Session → ℕ → MessageBuffer → Session × Verdict
keeps_body s n proc = (record s { bodies = s.bodies ++ contents proc ∷ [] }, handled)

abbrev has_key : Option (List ℕ) → Bool
has_key none = false
has_key (some key) = true

abbrev procedure : Procedure Session
procedure = record {
  instance_elements = [];
  static_elements = (1, keeps_body) ∷ [];
  user_cipher_type = 2;
  cipher_handlers = λ e. record { enc_type = e; init = some init; decrypt = some decrypt };
}

-- A packet code of 1 and the byte 9, under the key 255.
abbrev secret : List ℕ
secret = 2 ∷ 1 ∷ 1 ∷ 1 ∷ 10 ∷ []

abbrev incoming : List ℕ
incoming = encode keyed_codec (255 ∷ [], []) ++ (packets (secret ∷ []) ++ [])

abbrev received : MessageBuffer
received = record {
  buffer = poke zeros 0 incoming;
  read_pos = 0;
  write_pos = length incoming;
  manip = none;
}

contents-received : contents received ≡ incoming
contents-received = peek-poke_exact zeros 0 (length incoming - 0) incoming (omega arith)

received-IsValid : IsValid received
unfolding poke le32
received-IsValid = omega arith

packet_parser-handshake_example :
    let f =
      packet_parser zeros
        (λ s enc_type. has_key s.key)
        procedure
        (λ s proc. s)
        received
        (record { key = none; bodies = [] }) in
    (f.state ≡ record { key = some (255 ∷ []); bodies = (1 ∷ 0 ∷ 0 ∷ 0 ∷ 9 ∷ []) ∷ [] })
    × (f.ending ≡ returned true)
    × (contents f.msg ≡ [])
unfolding cipher_of get_cipher_handler find_handler call_handler lobbysvr.Net.Dispatch.find
    packet_code readable_into word32 peek poke
packet_parser-handshake_example =
    packet_parser-handshake zeros (λ s enc_type. has_key s.key) procedure (λ s proc. s) adds refl
      refl (omega arith) received (record { key = none; bodies = [] }) (255 ∷ []) (secret ∷ []) []
      refl (refl, omega arith, refl, tt) received-IsValid contents-received (omega arith)
