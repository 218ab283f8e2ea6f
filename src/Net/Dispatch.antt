-- ===== src/Net/Dispatch.antt =====
-- net/messageProcedure.h and net/messageProcedure.cpp: `MessageProcedure`, the handlers that are
-- registered for packet codes, and `dispatch` of a received message.
use lobbysvr.Base.{ℕ, Bool, true, false, List, [], ◌∷◌, Option, none, some, ◌==◌, if◌then◌else◌}
use lobbysvr.Net.Buffer.{MessageBuffer}
use lobbysvr.Net.Connection.{Connection, is_open, dec_read_handler_pending_count}
use lobbysvr.Net.Parser.{Finish, End, returned, threw, overran, aborted, out_of_fuel}

-- `boost::unordered_map<uint32_t, H>`: what stands under a key, and an insertion under a new key.
module _ {H : Type 0} where
  unfoldable pub find : ℕ → List (ℕ × H) → Option H
  find code [] = none
  find code ((other, h) ∷ handlers) = if other == code then some h else find code handlers

  unfoldable pub insert : ℕ → H → List (ℕ × H) → List (ℕ × H)
  insert code h handlers = (code, h) ∷ handlers

-- A cipher's entry: its type, its init handler and its decryptor; `none` for an empty function.
pub record EncParameters (I D : Type 0) : Type 0 where
  pub enc_type : ℕ
  pub init : Option I
  pub decrypt : Option D

abbrev pub not_set_cipher_value : ℕ
not_set_cipher_value = 256

pub record MessageProcedure (H I D : Type 0) : Type 0 where
  pub instance_elements : List (ℕ × H)
  pub static_elements : List (ℕ × H)
  pub user_cipher_type : ℕ
  pub cipher_handlers : ℕ → EncParameters I D

module _ {H I D : Type 0} where
  -- `registMessage(protocol, fn)`, into the static handlers; and the template, into the instance ones.
  unfoldable pub regist_message : ℕ → H → MessageProcedure H I D → Bool × MessageProcedure H I D
  regist_message protocol fn p = elim (find protocol p.static_elements) [
    | some h ↦ (false, p)
    | none ↦ (true, record p { static_elements = insert protocol fn p.static_elements })
  ]

  unfoldable pub regist_member : ℕ → H → MessageProcedure H I D → Bool × MessageProcedure H I D
  regist_member protocol fn p = elim (find protocol p.instance_elements) [
    | some h ↦ (false, p)
    | none ↦ (true, record p { instance_elements = insert protocol fn p.instance_elements })
  ]

  unfoldable pub set_cipher : ℕ → I → D → MessageProcedure H I D → MessageProcedure H I D
  set_cipher enc_type init decrypt p = record p {
    cipher_handlers = λ e.
        if e == enc_type
        then record { enc_type = enc_type; init = some init; decrypt = some decrypt }
        else p.cipher_handlers e;
    user_cipher_type = enc_type;
  }

  unfoldable pub get_cipher_handler : MessageProcedure H I D → ℕ → EncParameters I D
  get_cipher_handler p enc_type = p.cipher_handlers enc_type

  -- How the parsers look a packet's code up: the instance handlers, then the static ones.
  unfoldable pub find_handler : MessageProcedure H I D → ℕ → Option H
  find_handler p code = elim (find code p.instance_elements) [
    | some h ↦ some h
    | none ↦ find code p.static_elements
  ]

-- What `dispatch` came to: its result, or an exception or an overrun of the parser, after which
-- nothing more of it runs.
pub data Dispatched : Type 0 where
  result : Bool → Connection → Dispatched
  broken : End → Connection → Dispatched

finish_dispatch : Finish Connection → End → Dispatched
finish_dispatch f (returned b) = result b (dec_read_handler_pending_count f.state)
finish_dispatch f (threw e) = broken (threw e) f.state
finish_dispatch f overran = broken overran f.state
finish_dispatch f aborted = broken aborted f.state
finish_dispatch f out_of_fuel = broken out_of_fuel f.state

-- `dispatch(spConn, msg)` with the parser that the procedure was made with, if any.
unfoldable pub dispatch :
    Option (MessageBuffer → Connection → Finish Connection)
    → MessageBuffer
    → Connection
    → Dispatched
unfolding finish_dispatch
dispatch parser msg c =
    if is_open c.status
    then elim parser [
      | some parse ↦ finish_dispatch (parse msg c) (parse msg c).ending
      | none ↦ result false (dec_read_handler_pending_count c)
    ]
    else result false c
