-- ===== src/Net/Sending.antt =====
-- What `sendPacket` of net/connectionImpl.cpp puts on the wire, with the header manipulators of
-- net/packetParserSimple.h and lobbysvr/packetParserJson.h.
use lobbysvr.Base.{
  ℕ, ◌+◌, ◌%◌, ◌≤◌, ◌<◌, ◌≡◌, refl, sym, ap, ap₂, ◌∙◌, List, [], ◌++◌, arith, length, le32,
  length-le32, u32_mod, append-nil,
}
use lobbysvr.Net.Memory.{
  Memory, poke, peek, peek-add, peek-poke_below, peek-poke_above, peek-poke_exact,
}
use lobbysvr.Net.Buffer.{
  ok, throws, buffer_overrun, max_buffer_size, write, write_count, new_with_manip, clear,
  facilitate, size,
}
use lobbysvr.Net.Frame.{
  main_key, part_key, make_key, header_body_size, facilitate_keyed, facilitate_plain, json_manip,
  json_test_manip, simple_manip, partkey_size,
}
use lobbysvr.Net.Frame.Codec.{keyed_codec, plain_codec, encode}
use lobbysvr.Net.Connection.{send_packet, send}

-- Two words at the front and a body behind them.
framed_bytes :
    (m : Memory) (a b : ℕ) (body : List ℕ)
    → peek (poke (poke (poke m 8 body) 0 (le32 a)) 4 (le32 b)) 0 (8 + length body)
      ≡ le32 a ++ (le32 b ++ body)
framed_bytes m a b body =
    ap (peek whole 0) (omega arith)
    ∙ peek-add whole 0 4 (4 + length body)
    ∙ ap₂ ◌++◌
        (peek-poke_below middle 0 4 4 (le32 b) (omega arith)
          ∙ peek-poke_exact (poke m 8 body) 0 4 (le32 a) (sym (length-le32 a)))
        (peek-add whole 4 4 (length body)
          ∙ ap₂ ◌++◌ (peek-poke_exact middle 4 4 (le32 b) (sym (length-le32 b))) (
              peek-poke_above middle 8 (length body) 4 (le32 b) (omega (arith, length-le32 b))
              ∙ peek-poke_above (poke m 8 body) 8 (length body) 0 (le32 a)
                  (omega (arith, length-le32 a))
              ∙ peek-poke_exact m 8 (length body) body refl))
  where
    middle : Memory
    middle = poke (poke m 8 body) 0 (le32 a)

    whole : Memory
    whole = poke middle 4 (le32 b)

-- The header is left room for, the body comes behind it, and the manipulator is given both.
send_packet_with :
    (m : Memory) (f : ℕ → ℕ → Memory → Memory) (body : List ℕ)
    → 8 + length body ≤ max_buffer_size
    → send_packet m (record { get_header_size = 8; facilitate = f }) body
      ≡ ok (peek (f (8 + length body) 0 (poke m 8 body)) 0 (8 + length body))
unfolding send_packet new_with_manip write_count write clear size send facilitate
send_packet_with m f body h = ground arith

header_body_size_lem : (n : ℕ) → 8 + n ≤ max_buffer_size → header_body_size (8 + n) ≡ n
unfolding header_body_size
header_body_size_lem n h = omega arith

sent_bytes :
    (m : Memory) (body : List ℕ) {a a' b b' : ℕ}
    → a ≡ a'
    → b ≡ b'
    → peek (poke (poke (poke m 8 body) 0 (le32 a)) 4 (le32 b)) 0 (8 + length body)
      ≡ le32 a' ++ (le32 b' ++ (body ++ []))
sent_bytes m body {a' = a'} {b' = b'} ea eb =
    ap₂ (λ a b. peek (poke (poke (poke m 8 body) 0 (le32 a)) 4 (le32 b)) 0 (8 + length body)) ea eb
    ∙ framed_bytes m a' b' body
    ∙ ap (λ bytes. le32 a' ++ (le32 b' ++ bytes)) (sym (append-nil body))

main_size :
    (n : ℕ)
    → 8 + n ≤ max_buffer_size
    → (partkey_size + header_body_size (8 + n)) % u32_mod ≡ 4 + n + 0
main_size n h = omega (arith, header_body_size_lem n h)

-- `sendPacket` with the test manipulator writes the packet of one part that the plain codec gives,
-- for every body that a buffer has room for behind the header.
pub send_packet_plain :
    (m : Memory) (body : List ℕ)
    → 8 + length body ≤ max_buffer_size
    → send_packet m json_test_manip body ≡ ok (encode plain_codec (body, []))
unfolding json_test_manip facilitate_plain
send_packet_plain m body h =
    send_packet_with m facilitate_plain body h
    ∙ ap ok (sent_bytes m body (main_size (length body) h) (header_body_size_lem (length body) h))

-- `sendPacket` with the JSON or the simple manipulator writes the packet of one part that the keyed
-- codec gives, for every body that a buffer has room for behind the header.
pub send_packet_keyed :
    (m : Memory) (body : List ℕ)
    → 8 + length body ≤ max_buffer_size
    → (send_packet m json_manip body ≡ ok (encode keyed_codec (body, [])))
      × (send_packet m simple_manip body ≡ ok (encode keyed_codec (body, [])))
unfolding json_manip simple_manip facilitate_keyed
send_packet_keyed m body h =
    let sent =
      send_packet_with m facilitate_keyed body h
      ∙ ap ok (
          sent_bytes m body (ap (make_key main_key) (main_size (length body) h))
            (ap (make_key part_key) (header_body_size_lem (length body) h))) in
    (sent, sent)

-- `sendPacket` throws for a body that does not fit behind a header of 8 bytes.
pub send_packet_too_long :
    (m : Memory) (f : ℕ → ℕ → Memory → Memory) (body : List ℕ)
    → max_buffer_size < 8 + length body
    → send_packet m (record { get_header_size = 8; facilitate = f }) body ≡ throws buffer_overrun
unfolding send_packet new_with_manip write_count write clear size
send_packet_too_long m f body h = ground arith
