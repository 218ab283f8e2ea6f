-- ===== src/Net/Buffer/Contents.antt =====
-- The bytes that a `MessageBuffer` holds, and the operations that move none of them in or out.
use lobbysvr.Base.{
  ℕ, ◌+◌, ◌-◌, ◌≤◌, ◌≡◌, refl, sym, ap, ◌∙◌, inl, inr, List, Bool-cases, ◌==◌, ==_iff, arith,
  length,
}
use lobbysvr.Net.Memory.{peek, length-peek, peek-empty, peek-poke_exact}
use lobbysvr.Net.Buffer.{MessageBuffer, max_buffer_size, size, arrange, make_room}

-- The positions are in order and inside the array.
pub record IsValid (b : MessageBuffer) : Type 0 where
  pub ordered : b.read_pos ≤ b.write_pos
  pub within : b.write_pos ≤ max_buffer_size

-- The abstract view: the bytes that were written and not yet read.
abbrev pub contents : MessageBuffer → List ℕ
contents b = peek b.buffer b.read_pos (b.write_pos - b.read_pos)

pub length-contents : (b : MessageBuffer) → length (contents b) ≡ size b
unfolding size
length-contents b = length-peek b.buffer b.read_pos (b.write_pos - b.read_pos)

pub size-contents :
    (b : MessageBuffer) {bytes : List ℕ} → contents b ≡ bytes → size b ≡ length bytes
size-contents b e = sym (length-contents b) ∙ ap length e

module _ {b : MessageBuffer} (v : IsValid b) where
  pub size-le : size b ≤ max_buffer_size
  unfolding size
  size-le = omega (arith, v.within)

  pub arrange-IsValid : IsValid (arrange b)
  unfolding arrange
  arrange-IsValid = ground arith

  pub contents-arrange : contents (arrange b) ≡ contents b
  unfolding arrange
  contents-arrange = elim (Bool-cases (b.read_pos == b.write_pos)) [
    | inl e ↦ rw e (
        peek-empty b.buffer 0 (0 - 0) refl
        ∙ sym (
            peek-empty b.buffer b.read_pos (b.write_pos - b.read_pos)
              (omega (arith, (==_iff b.read_pos b.write_pos).0 e))))
    | inr e ↦ rw e (
        peek-poke_exact b.buffer 0 (0 + size b - 0) (peek b.buffer b.read_pos (size b))
          (omega (arith, length-peek b.buffer b.read_pos (size b))))
  ]

  pub make_room-IsValid : IsValid (make_room b)
  unfolding make_room
  make_room-IsValid = ground (arith, arrange-IsValid)

  pub contents-make_room : contents (make_room b) ≡ contents b
  unfolding make_room
  contents-make_room = ground (arith, contents-arrange)

  pub size-make_room : size (make_room b) ≡ size b
  unfolding make_room arrange size
  size-make_room = ground arith
