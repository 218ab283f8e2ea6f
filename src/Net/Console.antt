-- ===== src/Net/Console.antt =====
-- `watchDogSession` of net/test_interface.cpp, the console that a client reaches by a socket, and `inputLine` of
-- lobbysvr/watchDogHandler.cpp, which answers its commands. What a read gives is an argument for each pass of the loop.
pub mod Text
pub mod Reads
pub mod Commands
mod Tests
use lobbysvr.Base.{
  ℕ, zero, suc, ◌+◌, Bool, true, false, List, [], ◌∷◌, ◌++◌, Option, none, some, ◌==◌, ◌||◌, ◌&&◌,
  if◌then◌else◌, length, leb, take, drop,
}

-- The result of `read_some`.
pub data Read : Type 0 where
  got : List ℕ → Read
  eof : Read
  failed : Read

-- Why the session has ended, if it has: the peer closed it or asked to (`closedConsole` is called), an exception ended it
-- (it is not), or the text in `data` has no NUL behind it and is read past the array.
pub data Ending : Type 0 where
  running closed thrown ran_over : Ending

pub record Session : Type 0 where
  pub recv_cmd : List ℕ
  pub written : List (List ℕ)
  pub ending : Ending

-- `max_length`.
abbrev pub max_length : ℕ
max_length = 4096

abbrev pub endline : List ℕ
endline = b'\r' ∷ b'\n' ∷ []

-- `std::string::operator+=(const char *)` appends up to the first NUL.
unfoldable pub up_to_nul : List ℕ → List ℕ
up_to_nul [] = []
up_to_nul (b ∷ bs) = let rest = up_to_nul bs in if b == 0 then [] else b ∷ rest

-- Texts compared.
unfoldable pub same_text : List ℕ → List ℕ → Bool
same_text [] [] = true
same_text [] (c ∷ cs) = false
same_text (b ∷ bs) [] = false
same_text (b ∷ bs) (c ∷ cs) = let rest = same_text bs cs in b == c && rest

-- `find_first_of("\r\n")`.
one_further : Option ℕ → Option ℕ
one_further none = none
one_further (some pos) = some (suc pos)

unfoldable pub find_line_end : List ℕ → Option ℕ
unfolding one_further
find_line_end [] = none
find_line_end (b ∷ bs) =
    let rest = find_line_end bs in if b == b'\r' || b == b'\n' then some 0 else one_further rest

abbrev pub hi_msg : List ℕ
hi_msg =
    b'H' ∷ b'i' ∷ b'~' ∷ b' ' ∷ b't' ∷ b'h' ∷ b'i' ∷ b's' ∷ b' ' ∷ b'i' ∷ b's' ∷ b' ' ∷ b'w' ∷ b'a'
    ∷ b't' ∷ b'c' ∷ b'h' ∷ b'D' ∷ b'o' ∷ b'g' ∷ b' ' ∷ b'I' ∷ b'n' ∷ b't' ∷ b'e' ∷ b'r' ∷ b'f'
    ∷ b'a' ∷ b'c' ∷ b'e' ∷ b'.' ∷ b' ' ∷ b'T' ∷ b'y' ∷ b'p' ∷ b'e' ∷ b' ' ∷ 39 ∷ b'h' ∷ b'e' ∷ b'l'
    ∷ b'p' ∷ 39 ∷ b' ' ∷ b'o' ∷ b'r' ∷ b' ' ∷ 39 ∷ b'h' ∷ 39 ∷ b' ' ∷ b'a' ∷ b'n' ∷ b'd' ∷ b' '
    ∷ b'c' ∷ b'h' ∷ b'e' ∷ b'c' ∷ b'k' ∷ b' ' ∷ b'f' ∷ b'u' ∷ b'n' ∷ b'c' ∷ b't' ∷ b'i' ∷ b'o'
    ∷ b'n' ∷ b's' ∷ b'\r' ∷ b'\n' ∷ []

abbrev pub bye_msg : List ℕ
bye_msg = b'g' ∷ b'o' ∷ b'o' ∷ b'd' ∷ b'-' ∷ b'b' ∷ b'y' ∷ b'e' ∷ b'~' ∷ []

-- `boost::asio::write`, which throws where it fails.
unfoldable pub sent : Bool → List ℕ → Session → Session
sent writes bytes s =
    if writes then record s { written = s.written ++ bytes ∷ [] } else record s { ending = thrown }

-- A single byte 3 or 26, Ctrl-C or Ctrl-Z.
unfoldable pub is_end_key : List ℕ → Bool
is_end_key [] = false
is_end_key (b ∷ []) = b == 3 || b == 26
is_end_key (b ∷ c ∷ bs) = false

unfoldable pub said_bye : Session → Session
said_bye s = elim s.ending [
  | running ↦ record s { ending = closed }
  | closed ↦ s
  | thrown ↦ s
  | ran_over ↦ s
]

module _ (watchdog_callback : List ℕ → List ℕ) where
  -- From where `pos` is known: it is not there, 0, or the length of a command.
  unfoldable pub answer : Bool → Option ℕ → Session → Session
  unfolding sent
  answer writes none s = s
  answer writes (some zero) s = record s { recv_cmd = [] }
  answer writes (some (suc k)) s =
      sent writes (watchdog_callback (take (suc k) s.recv_cmd) ++ endline)
        (record s { recv_cmd = drop (suc k + 2) s.recv_cmd })

  -- After a read of these bytes.
  unfoldable pub received : Bool → List ℕ → Session → Session
  unfolding answer sent said_bye
  received writes bytes s =
      let text = up_to_nul bytes in
      let cmd = s.recv_cmd ++ text in
      if is_end_key bytes
      then said_bye (sent writes bye_msg s)
      else if leb max_length (length text)
      then record s { ending = ran_over }
      else answer writes (find_line_end cmd) (record s { recv_cmd = cmd })

  unfoldable pub pass : Read → Bool → Session → Session
  unfolding received
  pass (got bytes) writes s = received writes bytes s
  pass eof writes s = record s { ending = closed }
  pass failed writes s = record s { ending = thrown }

  -- The loop, for as many reads as there are; the flags say which writes succeed.
  unfoldable pub watch_dog_loop : List (Read × Bool) → Session → Session
  watch_dog_loop [] s = s
  watch_dog_loop ((read, writes) ∷ reads) s =
      let rest = watch_dog_loop reads (pass read writes s) in
      elim s.ending [ running ↦ rest | closed ↦ s | thrown ↦ s | ran_over ↦ s ]

  unfoldable pub watch_dog_session : Bool → List (Read × Bool) → Session
  unfolding watch_dog_loop sent
  watch_dog_session writes reads =
      watch_dog_loop reads
        (sent writes hi_msg (record { recv_cmd = []; written = []; ending = running }))

-- `watchDogHandler::inputLine`: help, or the command itself.
abbrev pub help_string : List ℕ
help_string =
    b'\r' ∷ b'\n' ∷ b'<' ∷ b'<' ∷ b' ' ∷ b'C' ∷ b'o' ∷ b'm' ∷ b'm' ∷ b'a' ∷ b'n' ∷ b'd' ∷ b' '
    ∷ b'L' ∷ b'i' ∷ b's' ∷ b't' ∷ b' ' ∷ b'>' ∷ b'>' ∷ b'\r' ∷ b'\n' ∷ b's' ∷ b't' ∷ b'a' ∷ b't'
    ∷ b'u' ∷ b's' ∷ b'\r' ∷ b'\n' ∷ b'i' ∷ b'n' ∷ b'i' ∷ b't' ∷ b' ' ∷ b'D' ∷ b'B' ∷ b'\r' ∷ b'\n'
    ∷ b'\r' ∷ b'\n' ∷ b'u' ∷ b' ' ∷ b'c' ∷ b'a' ∷ b'n' ∷ b' ' ∷ b'c' ∷ b'l' ∷ b'o' ∷ b's' ∷ b'e'
    ∷ b' ' ∷ b's' ∷ b'o' ∷ b'c' ∷ b'k' ∷ b'e' ∷ b't' ∷ b' ' ∷ b'b' ∷ b'y' ∷ b' ' ∷ b't' ∷ b'y'
    ∷ b'p' ∷ b'e' ∷ b'i' ∷ b'n' ∷ b'g' ∷ b' ' ∷ 39 ∷ b'C' ∷ b't' ∷ b'r' ∷ b'l' ∷ b' ' ∷ b'+' ∷ b' '
    ∷ b'C' ∷ 39 ∷ b' ' ∷ b'o' ∷ b'r' ∷ b' ' ∷ 39 ∷ b'C' ∷ b't' ∷ b'r' ∷ b'l' ∷ b' ' ∷ b'+' ∷ b' '
    ∷ b'Z' ∷ 39 ∷ b'\r' ∷ b'\n' ∷ b'\r' ∷ b'\n' ∷ []

unfoldable pub input_line : List ℕ → List ℕ
input_line input_msg =
    if same_text input_msg (b'h' ∷ b'e' ∷ b'l' ∷ b'p' ∷ []) || same_text input_msg (b'h' ∷ [])
    then help_string
    else input_msg
