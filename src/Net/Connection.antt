-- ===== src/Net/Connection.antt =====
-- net/connectionImpl.h and net/connectionImpl.cpp: `ConnectionImpl`, a socket with its receive buffer,
-- its two timers and its status. The event loop is not in the repository: a handler that it calls is
-- a function here, what it decides (error codes, the bytes received, whether `shutdown` succeeds) is
-- an argument, and what the code posts to it is a list of tasks in the state. An error code is its
-- number, 0 for success.
use lobbysvr.Base.{
  ℕ, ◌+◌, ◌-◌, ◌%◌, Bool, true, false, not, ◌&&◌, List, [], ◌∷◌, ◌++◌, Option, none, some, ltb,
  ◌==◌, if◌then◌else◌, u32_mod,
}
use lobbysvr.Net.Memory.{Memory, poke, peek}
use lobbysvr.Net.Buffer.{
  MessageBuffer, MsgUserManip, Outcome, ok, throws, overrun, write, write_count, new_with_manip,
  facilitate, size,
}

pub data Status : Type 0 where
  opened closing closed : Status

abbrev pub is_open : Status → Bool
is_open opened = true
is_open closing = false
is_open closed = false

-- What the code has posted to the event loop: `MessageProcedure::dispatch` of a message,
-- `read_handler` once more, and `close`.
pub data Task : Type 0 where
  dispatch_message : MessageBuffer → Task
  retry_read : ℕ → ℕ → Task
  close_socket : Task

-- A call of the event receiver.
pub data Report : Type 0 where
  on_close on_expired_session : Report

pub record Connection : Type 0 where
  pub status : Status
  pub identity : ℕ
  pub sync_encryption_key : ℕ → Bool
  pub keep_alive_time : ℕ
  pub keep_timer : Option ℕ
  pub close_reserve_timer : Option ℕ
  pub read_handler_pending : ℕ
  pub post_retry_count : ℕ
  pub msg : MessageBuffer
  pub posted : List Task
  pub reports : List Report
  pub manip : MsgUserManip

-- `status_codes::SHUTDOWN`, of mln_net_constants.dat.
abbrev pub shutdown_code : ℕ
shutdown_code = 10058

unfoldable pub renew_expire_time : Connection → Connection
renew_expire_time c =
    if c.keep_alive_time == 0 then c else record c { keep_timer = some c.keep_alive_time }

-- A new receive buffer, over the memory that its allocation gives.
unfoldable pub with_fresh_msg : Connection → Outcome MessageBuffer → Outcome Connection
with_fresh_msg c (ok b) = ok (record c { msg = b })
with_fresh_msg c (throws e) = throws e
with_fresh_msg c overrun = overrun

unfoldable pub fresh_msg : Memory → Connection → Outcome Connection
unfolding with_fresh_msg
fresh_msg m c = with_fresh_msg c (new_with_manip m c.manip false)

set_open : Outcome Connection → Outcome Connection
set_open (ok c) = ok (renew_expire_time (record c { status = opened }))
set_open (throws e) = throws e
set_open overrun = overrun

-- `start_accept()` and `start_connect()`, which have the same text.
unfoldable pub start_accept : Memory → Connection → Outcome Connection
unfolding set_open fresh_msg
start_accept m c = set_open (fresh_msg m c)

unfoldable pub start_connect : Memory → Connection → Outcome Connection
unfolding set_open fresh_msg
start_connect m c = set_open (fresh_msg m c)

unfoldable pub cancel_timers : Connection → Connection
cancel_timers c = record c { keep_timer = none; close_reserve_timer = none }

-- `closing(what)`; the flag says that `shutdown` reported no error.
unfoldable pub start_closing : Bool → Connection → Connection
start_closing shut c =
    if shut && is_open c.status
    then record (cancel_timers c) { status = closing; posted = c.posted ++ close_socket ∷ [] }
    else c

unfoldable pub close : Bool → Connection → Connection
close shut c =
    if shut
    then record (cancel_timers c) { status = closed; reports = c.reports ++ on_close ∷ [] }
    else c

unfoldable pub close_reserve : ℕ → Connection → Connection
close_reserve time_after_ms c = record c { close_reserve_timer = some time_after_ms }

unfoldable pub on_close_reserve_time : ℕ → Bool → Connection → Connection
on_close_reserve_time ec shut c = if ec == 0 && is_open c.status then close shut c else c

unfoldable pub on_expire_time : ℕ → Connection → Connection
on_expire_time ec c =
    if ec == 0 && is_open c.status
    then record c { reports = c.reports ++ on_expired_session ∷ [] }
    else c

unfoldable pub write_handler : ℕ → Bool → Connection → Connection
write_handler ec shut c = if ec == 0 then renew_expire_time c else start_closing shut c

-- `_readHandlerPending` is an `unsigned int`.
unfoldable pub inc_read_handler_pending_count : Connection → Connection
inc_read_handler_pending_count c = record c {
  read_handler_pending = (c.read_handler_pending + 1) % u32_mod;
}

unfoldable pub dec_read_handler_pending_count : Connection → Connection
dec_read_handler_pending_count c = record c {
  read_handler_pending = (c.read_handler_pending + u32_mod - 1) % u32_mod;
}

unfoldable pub set_sync_encryption_key : ℕ → Bool → Connection → Connection
set_sync_encryption_key enc_type sync c = record c {
  sync_encryption_key = λ e. if e == enc_type then sync else c.sync_encryption_key e;
}

-- The message is posted, and the next read goes into a new buffer.
unfoldable pub post_message : MessageBuffer → Outcome Connection → Outcome Connection
post_message received (ok c) =
    let counted = inc_read_handler_pending_count c in
    ok (
      renew_expire_time
        (record counted { posted = counted.posted ++ dispatch_message received ∷ [] }))
post_message received (throws e) = throws e
post_message received overrun = overrun

unfoldable pub received_msg : Memory → Connection → Outcome MessageBuffer → Outcome Connection
unfolding post_message fresh_msg
received_msg m c (ok received) = post_message received (fresh_msg m c)
received_msg m c (throws e) = throws e
received_msg m c overrun = overrun

-- The other branch of `read_handler`. `eof` is the number of `boost::asio::error::eof`.
unfoldable pub read_failed : ℕ → ℕ → ℕ → Bool → Connection → Connection
read_failed eof ec bytes_transferred shut c =
    if not (ec == shutdown_code) && not (ec == eof) && ltb 0 c.read_handler_pending
    then (let counted = record c { post_retry_count = c.post_retry_count + 1 } in
        if ltb c.post_retry_count 5
        then record counted { posted = c.posted ++ retry_read ec bytes_transferred ∷ [] }
        else start_closing shut counted)
    else start_closing shut c

unfoldable pub read_handler : ℕ → Memory → ℕ → ℕ → Bool → Connection → Outcome Connection
unfolding received_msg
read_handler eof m ec bytes_transferred shut c =
    if ec == 0
    then received_msg m c (write_count c.msg bytes_transferred)
    else ok (read_failed eof ec bytes_transferred shut c)

-- `async_read_some` has put these bytes behind what the receive buffer holds.
abbrev pub filled : List ℕ → Connection → Connection
filled bytes c = record c {
  msg = record c.msg { buffer = poke c.msg.buffer c.msg.write_pos bytes };
}

-- `send(msg)`: the bytes that `async_write` is given.
unfoldable pub send : MessageBuffer → List ℕ
send msg = let b = facilitate msg in peek b.buffer b.read_pos (size b)

written_packet : Outcome MessageBuffer → Outcome (List ℕ)
written_packet (ok msg) = ok (send msg)
written_packet (throws e) = throws e
written_packet overrun = overrun

write_body : List ℕ → Outcome MessageBuffer → Outcome MessageBuffer
write_body bytes (ok msg) = write msg bytes
write_body bytes (throws e) = throws e
write_body bytes overrun = overrun

-- `sendPacket(sendBuffer, sendSize)`, with the bytes at `sendBuffer`.
unfoldable pub send_packet : Memory → MsgUserManip → List ℕ → Outcome (List ℕ)
unfolding written_packet write_body
send_packet m manip bytes = written_packet (write_body bytes (new_with_manip m manip true))
