-- ===== src/Net/Frame.antt =====
-- The packet header: the macros and the header manipulators of net/packetParserSimple.h and
-- lobbysvr/packetParserJson.h (the two files have the same text, but for names and one manipulator
-- more in the second). An `int32_t` is its bit pattern below 2 ^ 32; `key & 0xffff0000` and
-- `len & 0x0000ffff` are the upper and the lower 16 bits of such a pattern.
pub mod Codec
use lobbysvr.Base.{ℕ, ◌+◌, ◌-◌, ◌*◌, ◌/◌, ◌%◌, ◌^◌, Bool, true, ◌==◌, le32, u16_mod, u32_mod}
use lobbysvr.Net.Memory.{Memory, poke}
use lobbysvr.Net.Buffer.{MsgUserManip}

abbrev pub main_key : ℕ
main_key = 0xffff0000

abbrev pub part_key : ℕ
part_key = 0xfff30000

-- `..._MAKEKEY(key, len)`, `..._GETKEY(key)`, `..._GETLENGTH(key)`.
unfoldable pub make_key : ℕ → ℕ → ℕ
make_key key len = key / u16_mod * u16_mod + len % u16_mod

unfoldable pub get_key : ℕ → ℕ
get_key key = key / u16_mod * u16_mod

unfoldable pub get_length : ℕ → ℕ
get_length key = key % u16_mod

-- `sizeof(HEADER)` and `PARTKEY_SIZE`.
abbrev pub header_size : ℕ
header_size = 8

abbrev pub partkey_size : ℕ
partkey_size = 4

-- `(int32_t)(currentSize - sizeof(HEADER))`.
unfoldable pub header_body_size : ℕ → ℕ
header_body_size current_size = (current_size + 2 ^ 64 - header_size) % 2 ^ 64 % u32_mod

-- `facilitate` of `message_header_manipulator_jsonParser`: the two words of the header, each with
-- its key.
unfoldable pub facilitate_keyed : ℕ → ℕ → Memory → Memory
unfolding header_body_size make_key
facilitate_keyed current_size address m =
    let body_size = header_body_size current_size in
    poke (poke m address (le32 (make_key main_key ((partkey_size + body_size) % u32_mod))))
      (address + 4) (le32 (make_key part_key body_size))

-- `facilitate` of `message_header_manipulator_jsonParser_Test`: the sizes alone.
unfoldable pub facilitate_plain : ℕ → ℕ → Memory → Memory
unfolding header_body_size
facilitate_plain current_size address m =
    let body_size = header_body_size current_size in
    poke (poke m address (le32 ((partkey_size + body_size) % u32_mod))) (address + 4)
      (le32 body_size)

-- `getMsgManipulator()` of the two files, and `getMsgManipulatorTest()`.
unfoldable pub simple_manip : MsgUserManip
unfolding facilitate_keyed
simple_manip = record { get_header_size = header_size; facilitate = facilitate_keyed }

unfoldable pub json_manip : MsgUserManip
unfolding facilitate_keyed
json_manip = record { get_header_size = header_size; facilitate = facilitate_keyed }

unfoldable pub json_test_manip : MsgUserManip
unfolding facilitate_plain
json_test_manip = record { get_header_size = header_size; facilitate = facilitate_plain }

-- How a parser reads the two words: the test of each key, and the size that each word gives.
pub record Format : Type 0 where
  pub main_ok : ℕ → Bool
  pub main_length : ℕ → ℕ
  pub part_ok : ℕ → Bool
  pub part_length : ℕ → ℕ

abbrev pub keyed : Format
keyed = record {
  main_ok = λ key. get_key key == 0xffff0000;
  main_length = get_length;
  part_ok = λ key. get_key key == 0xfff30000;
  part_length = get_length;
}

-- The parsers whose name ends in `Test` make no test of a key.
abbrev pub plain : Format
plain = record {
  main_ok = λ key. true;
  main_length = λ key. key;
  part_ok = λ key. true;
  part_length = λ key. key;
}
