-- ===== src/Net/Buffer/Tests.antt =====
-- The theorems on net/messageBuffer.cpp at concrete buffers.
use lobbysvr.Base.{
  ℕ, ◌≡◌, ◌≢◌, refl, none, List, [], ◌∷◌, arith, length, replicate, length-replicate,
}
use lobbysvr.Net.Memory.{Memory, poke}
use lobbysvr.Net.Buffer.{
  MessageBuffer, ok, overrun, new_buffer, size, write, read, read_count, clear,
}
use lobbysvr.Net.Buffer.Contents.{IsValid}
use lobbysvr.Net.Buffer.Reads.{HasRead, read_lem}
use lobbysvr.Net.Buffer.Writes.{
  HasWritten, write_lem, write_unread-ne-overrun, write-read-write-overrun,
}

-- Near the end of the array, so that a read moves the bytes first.
abbrev moved : MessageBuffer
moved = record { buffer = λ a. a; read_pos = 30000; write_pos = 30009; manip = none }

abbrev at_front : MessageBuffer
at_front = record { buffer = λ a. a; read_pos = 0; write_pos = 5; manip = none }

moved-IsValid : IsValid moved
moved-IsValid = omega arith

at_front-IsValid : IsValid at_front
at_front-IsValid = omega arith

read_lem_example : HasRead moved 4 (read moved 4)
read_lem_example = read_lem 4 moved-IsValid

write_lem_example : HasWritten moved (7 ∷ 8 ∷ []) (write moved (7 ∷ 8 ∷ []))
write_lem_example = write_lem (7 ∷ 8 ∷ []) moved-IsValid

write_unread-ne-overrun_example : write at_front (7 ∷ []) ≢ overrun
write_unread-ne-overrun_example = write_unread-ne-overrun (7 ∷ []) at_front-IsValid refl

abbrev zeros : Memory
zeros = λ a. 0

many : List ℕ
many = replicate 32768 1

length-many : length many ≡ 32768
unfolding many
length-many = length-replicate {A = ℕ} 32768 1

abbrev written_once : MessageBuffer
written_once = record { buffer = poke zeros 0 (9 ∷ []); read_pos = 0; write_pos = 1; manip = none }

abbrev read_once : MessageBuffer
read_once = record { buffer = poke zeros 0 (9 ∷ []); read_pos = 1; write_pos = 1; manip = none }

write-once : write (new_buffer zeros) (9 ∷ []) ≡ ok written_once
unfolding write new_buffer clear
write-once = refl

read-once : read_count written_once 1 ≡ ok read_once
unfolding read_count
read-once = refl

write-read-write-overrun_example : (size read_once ≡ 0) × (write read_once many ≡ overrun)
write-read-write-overrun_example =
    write-read-write-overrun zeros (9 ∷ []) many (omega arith) (omega (arith, length-many))
      (omega (arith, length-many)) written_once read_once write-once read-once
