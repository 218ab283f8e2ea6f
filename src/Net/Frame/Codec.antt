-- ===== src/Net/Frame/Codec.antt =====
-- Packets as the parsers read them, and what a `send` puts in front of a body.
use lobbysvr.Base.{
  ℕ, ◌+◌, ◌≤◌, ◌<◌, ◌≡◌, refl, ap, true, List, [], ◌∷◌, ◌++◌, arith, length, length-append, le32,
  length-le32, u32_mod, ◌==◌,
}
use lobbysvr.Net.Buffer.{max_buffer_size}
use lobbysvr.Net.Frame.{Format, keyed, plain, main_key, part_key, make_key, get_key, get_length}

-- A format with the words that a sender writes, and what makes the two agree. The sizes are those
-- that a message buffer can hold.
pub record Codec : Type 0 where
  pub format : Format
  pub make_main : ℕ → ℕ
  pub make_part : ℕ → ℕ
  pub make_main-lt : (n : ℕ) → n ≤ max_buffer_size → make_main n < u32_mod
  pub make_part-lt : (n : ℕ) → n ≤ max_buffer_size → make_part n < u32_mod
  pub main_ok-make_main : (n : ℕ) → n ≤ max_buffer_size → format.main_ok (make_main n) ≡ true
  pub part_ok-make_part : (n : ℕ) → n ≤ max_buffer_size → format.part_ok (make_part n) ≡ true
  pub main_length-make_main : (n : ℕ) → n ≤ max_buffer_size → format.main_length (make_main n) ≡ n
  pub part_length-make_part : (n : ℕ) → n ≤ max_buffer_size → format.part_length (make_part n) ≡ n

pub make_key-lt : (n : ℕ) → make_key main_key n < u32_mod
unfolding make_key
make_key-lt n = omega arith

pub make_key-lt_part : (n : ℕ) → make_key part_key n < u32_mod
unfolding make_key
make_key-lt_part n = omega arith

pub get_key-make_key : (n : ℕ) → get_key (make_key main_key n) ≡ main_key
unfolding get_key make_key
get_key-make_key n = omega arith

pub get_key-make_key_part : (n : ℕ) → get_key (make_key part_key n) ≡ part_key
unfolding get_key make_key
get_key-make_key_part n = omega arith

pub get_length-make_key : (n : ℕ) → n ≤ max_buffer_size → get_length (make_key main_key n) ≡ n
unfolding get_length make_key
get_length-make_key n h = omega arith

pub get_length-make_key_part : (n : ℕ) → n ≤ max_buffer_size → get_length (make_key part_key n) ≡ n
unfolding get_length make_key
get_length-make_key_part n h = omega arith

abbrev pub keyed_codec : Codec
keyed_codec = record {
  format = keyed;
  make_main = make_key main_key;
  make_part = make_key part_key;
  make_main-lt = λ n h. make_key-lt n;
  make_part-lt = λ n h. make_key-lt_part n;
  main_ok-make_main = λ n h. ap (λ k. k == main_key) (get_key-make_key n);
  part_ok-make_part = λ n h. ap (λ k. k == part_key) (get_key-make_key_part n);
  main_length-make_main = get_length-make_key;
  part_length-make_part = get_length-make_key_part;
}

pub plain-lt : (n : ℕ) → n ≤ max_buffer_size → n < u32_mod
plain-lt n h = omega arith

abbrev pub plain_codec : Codec
plain_codec = record {
  format = plain;
  make_main = λ n. n;
  make_part = λ n. n;
  make_main-lt = plain-lt;
  make_part-lt = plain-lt;
  main_ok-make_main = λ n h. refl;
  part_ok-make_part = λ n h. refl;
  main_length-make_main = λ n h. refl;
  part_length-make_part = λ n h. refl;
}

-- A packet has one part or more. Its main word gives the size of all that follows it.
abbrev pub Packet : Type 0
Packet = List ℕ × List (List ℕ)

abbrev pub parts : Packet → List (List ℕ)
parts (body, bodies) = body ∷ bodies

abbrev pub parts_size : List (List ℕ) → ℕ
parts_size [] = 0
parts_size (body ∷ bodies) = 4 + length body + parts_size bodies

abbrev pub all_bodies : List Packet → List (List ℕ)
all_bodies [] = []
all_bodies (packet ∷ packets) = parts packet ++ all_bodies packets

module _ (c : Codec) where
  abbrev pub encode_parts : List (List ℕ) → List ℕ
  encode_parts [] = []
  encode_parts (body ∷ bodies) = le32 (c.make_part (length body)) ++ (body ++ encode_parts bodies)

  abbrev pub encode : Packet → List ℕ
  encode packet = le32 (c.make_main (parts_size (parts packet))) ++ encode_parts (parts packet)

  abbrev pub encode_all : List Packet → List ℕ
  encode_all [] = []
  encode_all (packet ∷ packets) = encode packet ++ encode_all packets

  pub length-encode_parts :
      (bodies : List (List ℕ)) → length (encode_parts bodies) ≡ parts_size bodies
  length-encode_parts [] = refl
  length-encode_parts (body ∷ bodies) = omega (
    arith,
    length-append {0} (le32 (c.make_part (length body))) (body ++ encode_parts bodies),
    length-append {0} body (encode_parts bodies),
    length-le32 (c.make_part (length body)),
    length-encode_parts bodies,
  )
