-- ===== src/Net/Buffer.antt =====
-- net/messageBuffer.h and net/messageBuffer.cpp: `MessageBuffer`, a byte array of fixed size with
-- a read and a write position. A pointer into `_buffer` is its distance from the start of the array;
-- a `size_t` sum of a pointer and a count is taken not to wrap. `operator new` (net/memoryPool.h) is
-- the memory that a constructor is given, whatever it holds.
pub mod Contents
pub mod Reads
pub mod Writes
mod Tests
use lobbysvr.Base.{
  ℕ, ◌+◌, ◌-◌, ◌*◌, ◌/◌, ◌%◌, ◌^◌, Bool, true, false, List, Option, none, some, ltb, leb, ◌==◌,
  if◌then◌else◌, length,
}
use lobbysvr.Net.Memory.{Memory, poke, peek}

abbrev pub max_buffer_size : ℕ
max_buffer_size = 1024 * 32

-- The two `std::runtime_error`s of the class.
pub data Exception : Type 0 where
  buffer_overrun cant_readable : Exception

-- How a call ends. `overrun` is a `memcpy` past the end of `_buffer`, which C++ leaves undefined.
pub data Outcome {ℓ} (A : Type ℓ) : Type ℓ where
  ok : A → Outcome A
  throws : Exception → Outcome A
  overrun : Outcome A

-- `MsgUserManip`: the header's size, and the call that fills a header in, which is given the size
-- of the message and the address of its first byte.
pub record MsgUserManip : Type 0 where
  pub get_header_size : ℕ
  pub facilitate : ℕ → ℕ → Memory → Memory

pub record MessageBuffer : Type 0 where
  pub buffer : Memory
  pub read_pos : ℕ
  pub write_pos : ℕ
  pub manip : Option MsgUserManip

unfoldable pub clear : MessageBuffer → MessageBuffer
clear b = record b { read_pos = 0; write_pos = 0 }

unfoldable pub size : MessageBuffer → ℕ
size b = b.write_pos - b.read_pos

facilitate_with : Option MsgUserManip → MessageBuffer → MessageBuffer
unfolding size
facilitate_with none b = b
facilitate_with (some manip) b = record b { buffer = manip.facilitate (size b) b.read_pos b.buffer }

unfoldable pub facilitate : MessageBuffer → MessageBuffer
unfolding facilitate_with
facilitate b = facilitate_with b.manip b

-- `readable(count)`.
unfoldable pub readable : MessageBuffer → ℕ → Bool
readable b count = leb (b.read_pos + count) b.write_pos

-- `readable(dst, count)`: the bytes copied to `dst`, and `none` where it returns false.
unfoldable pub readable_into : MessageBuffer → ℕ → Option (List ℕ)
unfolding readable
readable_into b count = if readable b count then some (peek b.buffer b.read_pos count) else none

unfoldable pub remain_write_size : MessageBuffer → ℕ
remain_write_size b = (2 ^ 64 + max_buffer_size - b.write_pos) % 2 ^ 64

unfoldable pub arrange : MessageBuffer → MessageBuffer
unfolding clear size
arrange b = if b.read_pos == b.write_pos then clear b else record b {
  buffer = poke b.buffer 0 (peek b.buffer b.read_pos (size b));
  read_pos = 0;
  write_pos = 0 + size b;
}

-- `write(src, count)` with the `count` bytes at `src`.
unfoldable pub write : MessageBuffer → List ℕ → Outcome MessageBuffer
unfolding size
write b src =
    if ltb max_buffer_size (size b + length src)
    then throws buffer_overrun
    else if ltb max_buffer_size (b.write_pos + length src)
    then overrun
    else ok
        (record b { buffer = poke b.buffer b.write_pos src; write_pos = b.write_pos + length src })

-- `write(count)`: bytes that are in the array already, or are filled in later.
unfoldable pub write_count : MessageBuffer → ℕ → Outcome MessageBuffer
unfolding size
write_count b count =
    if ltb max_buffer_size (size b + count)
    then throws buffer_overrun
    else ok (record b { write_pos = b.write_pos + count })

-- The `arrange()` that both forms of `read` make first, when little room is left to write.
unfoldable pub make_room : MessageBuffer → MessageBuffer
unfolding remain_write_size arrange
make_room b = if ltb (remain_write_size b) (max_buffer_size / 3 * 2) then arrange b else b

-- `read(dst, count)`: the bytes copied to `dst`, and the buffer after it.
unfoldable pub read : MessageBuffer → ℕ → Outcome (List ℕ × MessageBuffer)
unfolding readable make_room
read b count =
    let roomy = make_room b in
    if readable b count
    then ok
        (peek roomy.buffer roomy.read_pos count, record roomy { read_pos = roomy.read_pos + count })
    else throws cant_readable

-- `read(count)`.
unfoldable pub read_count : MessageBuffer → ℕ → Outcome MessageBuffer
unfolding readable make_room
read_count b count =
    let roomy = make_room b in
    if readable b count
    then ok (record roomy { read_pos = roomy.read_pos + count })
    else throws cant_readable

unfoldable pub read_all : MessageBuffer → MessageBuffer
read_all b = record b { read_pos = 0; write_pos = 0 }

-- `src.read(dst.enableBuffer(), count)`: the bytes go into the array of `dst` behind what it holds,
-- and its positions stay.
unfoldable pub read_into :
    MessageBuffer → MessageBuffer → ℕ → Outcome (MessageBuffer × MessageBuffer)
unfolding read
read_into src dst count = elim (read src count) [
  | ok (bytes, rest) ↦
      if ltb max_buffer_size (dst.write_pos + length bytes)
      then overrun
      else ok (rest, record dst { buffer = poke dst.buffer dst.write_pos bytes })
  | throws e ↦ throws e
  | overrun ↦ overrun
]

-- The constructors, over the memory that the allocation gives.
unfoldable pub new_buffer : Memory → MessageBuffer
unfolding clear
new_buffer m = clear (record { buffer = m; read_pos = 0; write_pos = 0; manip = none })

with_header : MsgUserManip → MessageBuffer → Bool → Outcome MessageBuffer
unfolding write_count
with_header manip b true = write_count b manip.get_header_size
with_header manip b false = ok b

unfoldable pub new_with_manip : Memory → MsgUserManip → Bool → Outcome MessageBuffer
unfolding clear with_header
new_with_manip m manip pre_write_as_header_size =
    with_header manip
      (clear (record { buffer = m; read_pos = 0; write_pos = 0; manip = some manip }))
      pre_write_as_header_size

-- The copy takes `size()` bytes from the start of the array, not from the read position.
unfoldable pub copy_buffer : Memory → MessageBuffer → Outcome MessageBuffer
unfolding new_buffer write size
copy_buffer m e = write (new_buffer m) (peek e.buffer 0 (size e))
