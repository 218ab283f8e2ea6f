-- ===== src/Net/Tests.antt =====
-- The theorems on net/ and on the loop of the packet parsers at concrete messages.
use lobbysvr.Base.{
  ℕ, ◌-◌, ◌≡◌, ◌≢◌, ◌≤◌, refl, true, false, List, [], ◌∷◌, ◌++◌, none, arith, length, le32,
}
use lobbysvr.Net.Memory.{Memory, poke, peek-poke_exact}
use lobbysvr.Net.Buffer.{MessageBuffer, ok, cant_readable}
use lobbysvr.Net.Buffer.Contents.{IsValid, contents}
use lobbysvr.Net.Frame.{plain, json_test_manip, json_manip, simple_manip}
use lobbysvr.Net.Frame.Codec.{plain_codec, keyed_codec, Packet, encode, encode_all, all_bodies}
use lobbysvr.Net.Parser.{
  Parser, handled, ran_over, Finish, returned, threw, overran, out_of_fuel, parse, copy_part,
}
use lobbysvr.Net.Parser.Spec.{Copies, Delivered, deliver_all}
use lobbysvr.Net.Parser.Delivery.{parse_delivers}
use lobbysvr.Net.Parser.Endings.{CopiesParts, parse_terminates, parse_in_bounds}
use lobbysvr.Net.Parser.Malformed.{parse_partial, parse_short_main-throws}
use lobbysvr.Net.Connection.{
  Connection, dispatch_message, filled, read_handler, opened, close, start_closing, cancel_timers,
  write_handler, send_packet,
}
use lobbysvr.Net.Received.{read_handler-dispatch_message}
use lobbysvr.Net.Lifecycle.{Turns, here, next, writes, runs_close, Keeps, closes, Turns-closes_once}
use lobbysvr.Net.Sending.{send_packet_keyed}

abbrev zeros : Memory
zeros = λ a. 0

abbrev held : List ℕ → MessageBuffer
held bytes = record {
  buffer = poke zeros 0 bytes;
  read_pos = 0;
  write_pos = length bytes;
  manip = none;
}

contents-held : (bytes : List ℕ) → contents (held bytes) ≡ bytes
contents-held bytes = peek-poke_exact zeros 0 (length bytes - 0) bytes (omega arith)

-- It keeps the sizes of the parts that it was given.
abbrev sizes_parser : Parser (List ℕ)
sizes_parser = record {
  format = plain;
  code_size = 4;
  open_part = λ s msg n. (s, copy_part zeros msg n);
  deliver = λ s code n proc. (n ∷ s, handled);
  on_no_handler = λ s proc. s;
}

sizes_parser-Copies : Copies sizes_parser plain_codec zeros
sizes_parser-Copies = record { same_format = refl; copies = λ s msg n. refl }

sizes_parser-CopiesParts : CopiesParts sizes_parser zeros
sizes_parser-CopiesParts = record { copies = λ s msg n. refl }

-- Two packets, the second of two parts, and a byte of a third.
abbrev two_packets : List Packet
two_packets = (5 ∷ 6 ∷ [], []) ∷ (7 ∷ [], (8 ∷ 9 ∷ 10 ∷ []) ∷ []) ∷ []

abbrev incoming : List ℕ
incoming = encode_all plain_codec two_packets ++ 1 ∷ []

incoming-IsValid : IsValid (held incoming)
unfolding le32
incoming-IsValid = omega arith

parse_delivers_example :
    Delivered
      (deliver_all sizes_parser zeros [] (all_bodies two_packets))
      (1 ∷ [])
      (parse sizes_parser (held incoming) [])
parse_delivers_example =
    parse_delivers sizes_parser plain_codec zeros sizes_parser-Copies (held incoming) [] two_packets
      (1 ∷ []) incoming-IsValid (contents-held incoming) (omega arith)

-- The parts of these packets, by their sizes.
two_packets_sizes : (deliver_all sizes_parser zeros [] (all_bodies two_packets)).0 ≡ 3 ∷ 1 ∷ 2 ∷ []
two_packets_sizes = refl

parse_terminates_example : (parse sizes_parser (held incoming) []).ending ≢ out_of_fuel
parse_terminates_example =
    parse_terminates sizes_parser zeros sizes_parser-CopiesParts (held incoming) [] incoming-IsValid

handled-ne-ran_over : handled ≢ ran_over
handled-ne-ran_over = cc

parse_in_bounds_example : (parse sizes_parser (held incoming) []).ending ≢ overran
parse_in_bounds_example =
    parse_in_bounds sizes_parser zeros sizes_parser-CopiesParts
      (λ s code n proc. handled-ne-ran_over) (held incoming) [] incoming-IsValid

abbrev cut_packet : List ℕ
cut_packet = 6 ∷ 0 ∷ 0 ∷ 0 ∷ 2 ∷ 0 ∷ 0 ∷ 0 ∷ 5 ∷ []

cut_packet-encode : encode plain_codec (5 ∷ 6 ∷ [], []) ≡ cut_packet ++ 6 ∷ []
unfolding le32
cut_packet-encode = refl

cut_packet-fits : length (encode plain_codec (5 ∷ 6 ∷ [], [])) ≤ 32768
unfolding le32
cut_packet-fits = omega arith

abbrev cut_off : List ℕ
cut_off = 6 ∷ []

byte-ne-nil : cut_off ≢ []
byte-ne-nil = cc

parse_partial_example :
    parse sizes_parser (held cut_packet) []
    ≡ record { msg = held cut_packet; state = []; ending = returned true }
parse_partial_example =
    parse_partial sizes_parser plain_codec refl (held cut_packet) [] (5 ∷ 6 ∷ [], []) cut_packet
      cut_off (omega arith) (contents-held cut_packet) cut_packet-encode byte-ne-nil cut_packet-fits

-- The main word gives 4, and a part with a body of two bytes takes 6.
abbrev short_main : List ℕ
short_main = le32 4 ++ (le32 2 ++ 5 ∷ 6 ∷ [])

short_main-IsValid : IsValid (held short_main)
unfolding le32
short_main-IsValid = omega arith

parse_short_main-throws_example :
    (parse sizes_parser (held short_main) []).ending ≡ threw cant_readable
parse_short_main-throws_example =
    parse_short_main-throws sizes_parser plain_codec zeros sizes_parser-Copies (held short_main) []
      4 (5 ∷ 6 ∷ []) short_main-IsValid (contents-held short_main) (omega arith) (omega arith) refl

send_packet_keyed_example :
    (send_packet zeros json_manip (5 ∷ 6 ∷ []) ≡ ok (encode keyed_codec (5 ∷ 6 ∷ [], [])))
    × (send_packet zeros simple_manip (5 ∷ 6 ∷ []) ≡ ok (encode keyed_codec (5 ∷ 6 ∷ [], [])))
send_packet_keyed_example = send_packet_keyed zeros (5 ∷ 6 ∷ []) (omega arith)

abbrev connected : Connection
connected = record {
  status = opened;
  identity = 1;
  sync_encryption_key = λ e. false;
  keep_alive_time = 0;
  keep_timer = none;
  close_reserve_timer = none;
  read_handler_pending = 0;
  post_retry_count = 0;
  msg = held [];
  posted = [];
  reports = [];
  manip = json_test_manip;
}

abbrev idle_parser : MessageBuffer → Connection → Finish Connection
idle_parser msg c = record { msg = msg; state = c; ending = returned true }

idle_parser-Keeps : Keeps idle_parser
idle_parser-Keeps = record {
  keeps_status = λ m c. refl;
  keeps_posted = λ m c. refl;
  keeps_reports = λ m c. refl;
}

-- A write fails, and the close that it posts is run.
abbrev write_failed : Connection
write_failed = write_handler 104 true connected

abbrev closed_after : Connection
closed_after = close true (record write_failed { posted = [] })

write_failed-closes : Turns 2 idle_parser connected closed_after
unfolding write_handler start_closing
write_failed-closes = next (next here (writes 104 true)) (runs_close [] [] true refl)

write_failed-reports : closes closed_after.reports ≡ 1
unfolding write_handler close start_closing cancel_timers
write_failed-reports = refl

Turns-closes_once_example : closes closed_after.reports ≤ 1
Turns-closes_once_example =
    Turns-closes_once 2 idle_parser idle_parser-Keeps refl write_failed-closes

-- A read of the packet's first nine bytes.
read_handler-dispatch_message_example :
    (c' : Connection) × (msg : MessageBuffer) × (read_handler 2 zeros 0 9 true
        (filled cut_packet connected)
      ≡ ok c')
    × (c'.posted ≡ dispatch_message msg ∷ [])
    × IsValid msg
    × (contents msg ≡ cut_packet)
    × (c'.msg.read_pos ≡ 0)
    × (c'.msg.write_pos ≡ 0)
read_handler-dispatch_message_example =
    read_handler-dispatch_message 2 zeros cut_packet true connected refl refl (omega arith)
