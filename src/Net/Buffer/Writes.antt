-- ===== src/Net/Buffer/Writes.antt =====
-- `write` and the copy constructor of net/messageBuffer.cpp against the bytes that the buffer holds.
use lobbysvr.Base.{
  ℕ, ◌+◌, ◌-◌, ◌≤◌, ◌<◌, ◌≡◌, ◌≢◌, refl, ap₂, ◌∙◌, inl, inr, false, List, ◌++◌, Bool-cases, ltb,
  ltb→lt, ltb→le, if◌then◌else◌, arith, length,
}
use lobbysvr.Net.Memory.{Memory, poke, peek, peek-poke_append}
use lobbysvr.Net.Buffer.{
  MessageBuffer, Outcome, ok, throws, overrun, buffer_overrun, max_buffer_size, size, write,
  read_count, new_buffer,
}
use lobbysvr.Net.Buffer.Contents.{IsValid, contents}

-- What a `write` of the bytes `src` that ended in the given way has done.
abbrev pub HasWritten : MessageBuffer → List ℕ → Outcome MessageBuffer → Type 0
HasWritten b src (ok after) =
    (b.write_pos + length src ≤ max_buffer_size)
    × (contents after ≡ contents b ++ src)
    × (after.read_pos ≡ b.read_pos)
    × IsValid after
HasWritten b src (throws e) = (max_buffer_size < size b + length src) × (e ≡ buffer_overrun)
HasWritten b src overrun =
    (size b + length src ≤ max_buffer_size) × (max_buffer_size < b.write_pos + length src)

contents-poke :
    {b : MessageBuffer} (src : List ℕ)
    → IsValid b
    → peek (poke b.buffer b.write_pos src) b.read_pos (b.write_pos + length src - b.read_pos)
      ≡ contents b ++ src
contents-poke {b} src v =
    ap₂ (λ a n. peek (poke b.buffer a src) b.read_pos n) (omega (arith, v.ordered))
      (omega (arith, v.ordered))
    ∙ peek-poke_append b.buffer b.read_pos (b.write_pos - b.read_pos) src

-- On a valid buffer `write(src, n)` appends the bytes at `src` where they fit behind the write
-- position, throws exactly when the bytes held and the new ones are more than the buffer's size, and
-- in the cases between, where the guard passes and the room behind the write position does not
-- suffice, copies past the end of the array.
pub write_lem : {b : MessageBuffer} (src : List ℕ) → IsValid b → HasWritten b src (write b src)
unfolding write
write_lem {b} src v = elim (Bool-cases (ltb max_buffer_size (size b + length src))) [
  | inl e ↦ rw e (ltb→lt max_buffer_size (size b + length src) e, refl)
  | inr e ↦ rw e (room e)
]
  where
    fits :
        ltb max_buffer_size (b.write_pos + length src) ≡ false
        → b.write_pos + length src ≤ max_buffer_size
    fits = ltb→le max_buffer_size (b.write_pos + length src)

    room :
        ltb max_buffer_size (size b + length src) ≡ false
        → HasWritten b src (
            if ltb max_buffer_size (b.write_pos + length src)
            then overrun
            else ok (record b {
              buffer = poke b.buffer b.write_pos src;
              write_pos = b.write_pos + length src;
            }))
    room e = elim (Bool-cases (ltb max_buffer_size (b.write_pos + length src))) [
      | inl e' ↦ rw e' (ltb→le _ _ e, ltb→lt _ _ e')
      | inr e' ↦ rw e' (fits e', contents-poke src v, refl, omega (arith, fits e', v.ordered))
    ]

-- A valid buffer whose read position is the start of its array: no `write` copies past the end.
pub write_unread-ne-overrun :
    {b : MessageBuffer} (src : List ℕ) → IsValid b → b.read_pos ≡ 0 → write b src ≢ overrun
unfolding write size
write_unread-ne-overrun src v e h = ground arith

-- A new buffer that at most 10924 bytes are written to, and that is then read to its end, holds
-- nothing: a `write` of bytes that fit in a buffer, but not behind those read, copies past the end
-- of the array.
pub write-read-write-overrun :
    (m : Memory) (xs ys : List ℕ)
    → length xs ≤ 10924
    → length ys ≤ max_buffer_size
    → max_buffer_size < length xs + length ys
    → (b : MessageBuffer) (c : MessageBuffer) → write (new_buffer m) xs ≡ ok b
    → read_count b (length xs) ≡ ok c
    → (size c ≡ 0) × (write c ys ≡ overrun)
unfolding write read_count new_buffer size
write-read-write-overrun m xs ys hx hy hxy b c eb ec = ground arith
