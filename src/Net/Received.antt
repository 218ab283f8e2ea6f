-- ===== src/Net/Received.antt =====
-- What `read_handler` of net/connectionImpl.cpp makes of the bytes of one read.
use lobbysvr.Base.{
  ℕ, ◌+◌, ◌-◌, ◌%◌, ◌≤◌, ◌≡◌, refl, sym, ap, ◌∙◌, Bool, List, [], ◌∷◌, ◌++◌, some, arith, length,
  u32_mod, le→ltb,
}
use lobbysvr.Net.Memory.{Memory, poke, peek, peek-poke_exact}
use lobbysvr.Net.Buffer.{
  MessageBuffer, ok, max_buffer_size, size, write_count, new_with_manip, clear,
}
use lobbysvr.Net.Buffer.Contents.{IsValid, contents}
use lobbysvr.Net.Connection.{
  Connection, dispatch_message, filled, read_handler, renew_expire_time,
  inc_read_handler_pending_count, received_msg, post_message, fresh_msg, with_fresh_msg,
}

renew_expire_time-posted : (c : Connection) → (renew_expire_time c).posted ≡ c.posted
unfolding renew_expire_time
renew_expire_time-posted c = ground arith

renew_expire_time-msg : (c : Connection) → (renew_expire_time c).msg ≡ c.msg
unfolding renew_expire_time
renew_expire_time-msg c = ground arith

abbrev next_buffer : Memory → Connection → MessageBuffer
next_buffer m c = record { buffer = m; read_pos = 0; write_pos = 0; manip = some c.manip }

abbrev received : List ℕ → Connection → MessageBuffer
received bytes c = record c.msg {
  buffer = poke c.msg.buffer c.msg.write_pos bytes;
  write_pos = c.msg.write_pos + length bytes;
}

abbrev posted_connection : Memory → List ℕ → Connection → Connection
posted_connection m bytes c = record c {
  msg = next_buffer m c;
  read_handler_pending = (c.read_handler_pending + 1) % u32_mod;
  posted = c.posted ++ dispatch_message (received bytes c) ∷ [];
}

read_handler-posted :
    (eof : ℕ) (m : Memory) (bytes : List ℕ) (shut : Bool) (c : Connection)
    → size c.msg + length bytes ≤ max_buffer_size
    → read_handler eof m 0 (length bytes) shut (filled bytes c)
      ≡ ok (renew_expire_time (posted_connection m bytes c))
unfolding read_handler write_count new_with_manip clear inc_read_handler_pending_count received_msg
    post_message fresh_msg with_fresh_msg size
read_handler-posted eof m bytes shut c fits =
    rw (le→ltb max_buffer_size (c.msg.write_pos - c.msg.read_pos + length bytes) fits) refl

-- A read without error into a receive buffer that holds nothing, of bytes that fit in it: one message is
-- posted, which holds exactly the bytes of this read, and the next read goes into a buffer that holds
-- nothing. So two reads are never dispatched as one message.
pub read_handler-dispatch_message :
    (eof : ℕ) (m : Memory) (bytes : List ℕ) (shut : Bool) (c : Connection)
    → c.msg.read_pos ≡ 0
    → c.msg.write_pos ≡ 0
    → length bytes ≤ max_buffer_size
    → (c' : Connection) × (msg : MessageBuffer) × (read_handler eof m 0
          (length bytes)
          shut
          (filled bytes c)
        ≡ ok c')
      × (c'.posted ≡ c.posted ++ dispatch_message msg ∷ [])
      × IsValid msg
      × (contents msg ≡ bytes)
      × (c'.msg.read_pos ≡ 0)
      × (c'.msg.write_pos ≡ 0)
unfolding size
read_handler-dispatch_message eof m bytes shut c empty unwritten fits = (
  renew_expire_time p,
  received bytes c,
  read_handler-posted eof m bytes shut c (omega arith),
  renew_expire_time-posted p,
  omega arith,
  ap (λ at. peek (poke c.msg.buffer c.msg.write_pos bytes) at (c.msg.write_pos + length bytes - at))
        (empty ∙ sym unwritten)
      ∙ peek-poke_exact c.msg.buffer c.msg.write_pos
          (c.msg.write_pos + length bytes - c.msg.write_pos) bytes (omega arith),
  ap (λ b. b.read_pos) (renew_expire_time-msg p),
  ap (λ b. b.write_pos) (renew_expire_time-msg p),
)
  where
    p : Connection
    p = posted_connection m bytes c
