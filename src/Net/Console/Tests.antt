-- ===== src/Net/Console/Tests.antt =====
-- The theorems on the console at concrete commands, answered by `inputLine`.
use lobbysvr.Base.{◌≡◌, true, false, List, [], ◌∷◌, ◌++◌, arith}
use lobbysvr.Net.Console.{
  got, eof, closed, hi_msg, endline, help_string, input_line, watch_dog_session, same_text,
}
use lobbysvr.Net.Console.Commands.{
  Command, AreTypable, all_reads, watch_dog_session-answers, watch_dog_session_two,
}

-- "help" in three reads, its line end split, and "ab" in one.
abbrev typed : List Command
typed =
    record { fragments = (b'h' ∷ []) ∷ (b'e' ∷ b'l' ∷ []) ∷ []; last = b'p' ∷ []; split = true }
    ∷ record { fragments = []; last = b'a' ∷ b'b' ∷ []; split = false }
    ∷ []

typed-AreTypable : AreTypable typed
typed-AreTypable = ground arith

watch_dog_session-answers_example :
    watch_dog_session input_line true (all_reads typed ++ (eof, true) ∷ []) ≡ record {
      recv_cmd = [];
      written = hi_msg ∷ (help_string ++ endline) ∷ (b'a' ∷ b'b' ∷ endline) ∷ [];
      ending = closed;
    }
unfolding input_line same_text
watch_dog_session-answers_example = watch_dog_session-answers input_line typed typed-AreTypable

watch_dog_session_two_example :
    watch_dog_session input_line true
      ((got (b'a' ∷ b'\r' ∷ b'\n' ∷ b'b' ∷ b'\r' ∷ b'\n' ∷ []), true) ∷ (eof, true) ∷ [])
    ≡ record {
      recv_cmd = b'b' ∷ b'\r' ∷ b'\n' ∷ [];
      written = hi_msg ∷ (b'a' ∷ b'\r' ∷ b'\n' ∷ []) ∷ [];
      ending = closed;
    }
unfolding input_line same_text
watch_dog_session_two_example =
    watch_dog_session_two input_line b'a' [] (b'b' ∷ [])
      (omega arith, omega arith, omega arith, omega arith, omega arith, tt)
      (omega arith, omega arith, omega arith, omega arith, omega arith, tt) (omega arith)
