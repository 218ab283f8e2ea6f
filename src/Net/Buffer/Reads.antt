-- ===== src/Net/Buffer/Reads.antt =====
-- `readable` and `read` of net/messageBuffer.cpp against the bytes that the buffer holds.
use lobbysvr.Base.{
  ℕ, ◌+◌, ◌-◌, ◌≤◌, ◌<◌, ◌≡◌, refl, sym, ap, ◌∙◌, inl, inr, List, none, some, Bool-cases, leb,
  leb→le, leb→lt, if◌then◌else◌, arith, take, drop, length-take,
}
use lobbysvr.Net.Memory.{poke, peek, take-peek, drop-peek}
use lobbysvr.Net.Buffer.{
  MessageBuffer, Outcome, ok, throws, overrun, cant_readable, size, make_room, readable,
  readable_into, read, read_count, read_all, read_into, max_buffer_size,
}
use lobbysvr.Net.Buffer.Contents.{
  IsValid, contents, length-contents, make_room-IsValid, contents-make_room, size-make_room,
}

pub readable-size : {b : MessageBuffer} (n : ℕ) → IsValid b → readable b n ≡ leb n (size b)
unfolding readable size
readable-size n v = ground arith

-- What is looked at without being taken.
pub readable_into_lem :
    {b : MessageBuffer} (n : ℕ)
    → IsValid b
    → readable_into b n ≡ (if leb n (size b) then some (take n (contents b)) else none)
unfolding readable_into size
readable_into_lem {b} n v =
    ground (arith, readable-size n v, take-peek b.buffer b.read_pos n (b.write_pos - b.read_pos))

-- What a `read` of `n` bytes that ended in the given way has done.
abbrev pub HasRead : MessageBuffer → ℕ → Outcome (List ℕ × MessageBuffer) → Type 0
HasRead b n (ok (bytes, rest)) =
    (n ≤ size b)
    × (bytes ≡ take n (contents b))
    × (contents rest ≡ drop n (contents b))
    × IsValid rest
HasRead b n (throws e) = (size b < n) × (e ≡ cant_readable)
HasRead b n overrun = ⊥

take-make_room :
    {b : MessageBuffer} (n : ℕ)
    → IsValid b
    → n ≤ size b
    → peek (make_room b).buffer (make_room b).read_pos n ≡ take n (contents b)
unfolding size
take-make_room {b} n v h =
    sym
      (take-peek m.buffer m.read_pos n (m.write_pos - m.read_pos) (omega (arith, size-make_room v)))
    ∙ ap (take n) (contents-make_room v)
  where
    m : MessageBuffer
    m = make_room b

drop-make_room :
    {b : MessageBuffer} (n : ℕ)
    → IsValid b
    → n ≤ size b
    → peek
        (make_room b).buffer
        ((make_room b).read_pos + n)
        ((make_room b).write_pos - ((make_room b).read_pos + n))
      ≡ drop n (contents b)
unfolding size
drop-make_room {b} n v h =
    ap (peek m.buffer (m.read_pos + n)) (omega arith)
    ∙ sym (
        drop-peek m.buffer m.read_pos n (m.write_pos - m.read_pos)
          (omega (arith, size-make_room v)))
    ∙ ap (drop n) (contents-make_room v)
  where
    m : MessageBuffer
    m = make_room b

rest-IsValid :
    {b : MessageBuffer} (n : ℕ)
    → IsValid b
    → n ≤ size b
    → IsValid (record (make_room b) { read_pos = (make_room b).read_pos + n })
unfolding size
rest-IsValid {b} n v h = omega (
  arith,
  size-make_room v,
  (make_room-IsValid v).ordered,
  (make_room-IsValid v).within,
  v.ordered,
)

-- On a valid buffer `read(dst, n)` gives the first `n` bytes that the buffer holds, leaves the rest
-- of them and a valid buffer, and throws exactly when it holds fewer than `n`; also where `arrange`
-- has moved the bytes first.
pub read_lem : {b : MessageBuffer} (n : ℕ) → IsValid b → HasRead b n (read b n)
unfolding read
read_lem {b} n v = elim (Bool-cases (leb n (size b))) [
  | inl e ↦
      let h : n ≤ size b = leb→le n (size b) e in
      rw (readable-size n v, e) (h, take-make_room n v h, drop-make_room n v h, rest-IsValid n v h)
  | inr e ↦ rw (readable-size n v, e) (leb→lt n (size b) e, refl)
]

-- `read(n)` is `read(dst, n)` with the bytes dropped.
abbrev pub forget : Outcome (List ℕ × MessageBuffer) → Outcome MessageBuffer
forget (ok (bytes, rest)) = ok rest
forget (throws e) = throws e
forget overrun = overrun

pub read_count-read : (b : MessageBuffer) (n : ℕ) → read_count b n ≡ forget (read b n)
unfolding read_count read
read_count-read b n = ground arith

pub read_all-IsValid : (b : MessageBuffer) → IsValid (read_all b)
unfolding read_all
read_all-IsValid b = omega arith

-- A read into another buffer that has room leaves the bytes behind what that buffer holds.
pub read_into_lem :
    {src : MessageBuffer} (dst : MessageBuffer) (n : ℕ)
    → IsValid src
    → n ≤ size src
    → dst.write_pos + n ≤ max_buffer_size
    → (rest : MessageBuffer) × (read_into src dst n
        ≡ ok (rest, record dst { buffer = poke dst.buffer dst.write_pos (take n (contents src)) }))
      × (contents rest ≡ drop n (contents src))
      × IsValid rest
unfolding read_into
read_into_lem {src} dst n v h room = go (read src n) refl (read_lem n v)
  where
    go :
        (out : Outcome (List ℕ × MessageBuffer))
        → read src n ≡ out
        → HasRead src n out
        → (rest : MessageBuffer) × (read_into src dst n
            ≡ ok (
              rest,
              record dst { buffer = poke dst.buffer dst.write_pos (take n (contents src)) },
            ))
          × (contents rest ≡ drop n (contents src))
          × IsValid rest
    go (ok (bytes, rest)) e done =
        (rest, ground (arith, length-take n (contents src), length-contents src), done.2, done.3)
    go (throws x) e done = absurd (omega arith)
    go overrun e done = absurd done
