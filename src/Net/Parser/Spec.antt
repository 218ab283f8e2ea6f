-- ===== src/Net/Parser/Spec.antt =====
-- What the parsers' loop is for: each part of each packet that a message holds is handed to the
-- handler, once and in order.
use lobbysvr.Base.{ℕ, ◌≡◌, true, false, List, [], ◌∷◌, length}
use lobbysvr.Net.Memory.{Memory}
use lobbysvr.Net.Buffer.{MessageBuffer}
use lobbysvr.Net.Buffer.Contents.{contents}
use lobbysvr.Net.Frame.Codec.{Codec}
use lobbysvr.Net.Parser.{
  Parser, Verdict, handled, no_handler, raised, ran_over, End, returned, threw, overran, Finish,
  packet_code, copy_part,
}
use lobbysvr.Net.Parser.Phases.{part_buffer}

-- How handing over a list of bodies went: to its end, or to a body that ended the parser.
pub data Progress : Type 0 where
  done : Progress
  failed : End → Progress

module _ {S : Type 0} (p : Parser S) (junk : Memory) where
  -- The handler's call for one body.
  abbrev pub deliver_body : S → List ℕ → S × Verdict
  deliver_body s body =
      p.deliver s (packet_code p.code_size (part_buffer junk body)) (length body)
        (part_buffer junk body)

  -- After the handler's call: the next bodies, or the end of the parser.
  abbrev pub carry_on : MessageBuffer → S × Verdict → (S → S × Progress) → S × Progress
  carry_on proc (s, handled) next = next s
  carry_on proc (s, no_handler) next = (p.on_no_handler s proc, failed (returned false))
  carry_on proc (s, raised e) next = (s, failed (threw e))
  carry_on proc (s, ran_over) next = (s, failed overran)

  -- What the parser should do with the bodies that arrive: the specification.
  abbrev pub deliver_all : S → List (List ℕ) → S × Progress
  deliver_all s [] = (s, done)
  deliver_all s (body ∷ bodies) =
      carry_on (part_buffer junk body) (deliver_body s body) λ s'. deliver_all s' bodies

-- The parser ended as the specification says, with these bytes left in the message.
abbrev pub Delivered : {S : Type 0} → S × Progress → List ℕ → Finish S → Type 0
Delivered (s, done) rest f = (f.state ≡ s) × (f.ending ≡ returned true) × (contents f.msg ≡ rest)
Delivered (s, failed e) rest f = (f.state ≡ s) × (f.ending ≡ e)

-- A parser that reads the codec's format and copies each part's body out of the message.
pub record Copies {S : Type 0} (p : Parser S) (c : Codec) (junk : Memory) : Type 0 where
  pub same_format : p.format ≡ c.format
  pub copies :
      (s : S) (msg : MessageBuffer) (n : ℕ) → p.open_part s msg n ≡ (s, copy_part junk msg n)
