-- ===== src/Net/Logger/Dump.antt =====
-- `Dump` of net/loggerOld.cpp: bytes in lines of sixteen, as hexadecimal digits and as characters. How boost::format
-- prints an address and which bytes `isprint` takes are arguments.
use lobbysvr.Base.{
  ℕ, zero, suc, ◌+◌, ◌-◌, ◌/◌, ◌%◌, Bool, List, [], ◌∷◌, ◌++◌, Option, none, some, ◌==◌, leb, ltb,
  if◌then◌else◌, length, drop,
}
use lobbysvr.Net.Logger.Sinks.{Logger, Sink, debug, log_simple}

-- A digit of "%X".
unfoldable pub hex_digit : ℕ → ℕ
hex_digit n = if ltb n 10 then b'0' + n else b'A' + (n - 10)

-- "%02X " of a byte.
unfoldable pub hex_byte : ℕ → List ℕ
unfolding hex_digit
hex_byte b = hex_digit (b / 16) ∷ hex_digit (b % 16) ∷ b' ' ∷ []

-- The gap in the middle of a line.
unfoldable pub gap : ℕ → List ℕ
gap i = if i == 8 then b' ' ∷ [] else []

-- The first loop over a line: as many places as the first argument, from the `i`-th on.
unfoldable pub hex_column : ℕ → ℕ → List ℕ → List ℕ
unfolding gap hex_byte
hex_column zero i bytes = []
hex_column (suc places) i [] = gap i ++ (b'?' ∷ b'?' ∷ b' ' ∷ []) ++ hex_column places (suc i) []
hex_column (suc places) i (b ∷ bytes) = gap i ++ hex_byte b ++ hex_column places (suc i) bytes

-- " start-----\r\n".
abbrev pub start_bar : List ℕ
start_bar =
    b' ' ∷ b's' ∷ b't' ∷ b'a' ∷ b'r' ∷ b't' ∷ b'-' ∷ b'-' ∷ b'-' ∷ b'-' ∷ b'-' ∷ b'\r' ∷ b'\n' ∷ []

-- `dump_bar`: TMP_SIZE is 512.
unfoldable pub dump_bar : Bool → Option (List ℕ) → List ℕ
dump_bar windows none = []
dump_bar windows (some title) =
    if windows
    then (if leb 412 (length title) then start_bar else title ++ start_bar)
    else start_bar

module _ (isprint : ℕ → Bool) where
  -- The second loop.
  unfoldable pub char_column : ℕ → List ℕ → List ℕ
  char_column zero bytes = []
  char_column (suc places) [] = b' ' ∷ char_column places []
  char_column (suc places) (b ∷ bytes) = (if isprint b then b else b'.') ∷ char_column places bytes

module _ (address : ℕ → List ℕ) (isprint : ℕ → Bool) where
  -- A line from `pOut` on.
  unfoldable pub line : ℕ → List ℕ → List ℕ
  unfolding hex_column char_column
  line p_out bytes =
      address p_out
      ++ (b':' ∷ b' ' ∷ [])
      ++ hex_column 16 0 bytes
      ++ b' ' ∷ (char_column isprint 16 bytes ++ (b'\r' ∷ b'\n' ∷ []))

  -- The loop over the lines, for as many rounds as the first argument; there are fewer than 2^32 bytes, so that `dwLoc`
  -- does not wrap.
  unfoldable pub lines : ℕ → ℕ → List ℕ → List ℕ
  unfolding line
  lines zero p_out bytes = []
  lines (suc rounds) p_out [] = []
  lines (suc rounds) p_out (b ∷ bytes) =
      line p_out (b ∷ bytes) ++ lines rounds (p_out + 16) (drop 16 (b ∷ bytes))

  -- The text that is logged; a round for each byte is more than enough.
  unfoldable pub dump_text : Bool → ℕ → List ℕ → Option (List ℕ) → List ℕ
  unfolding lines dump_bar
  dump_text windows offset bytes title =
      (b'\r' ∷ b'\n' ∷ []) ++ dump_bar windows title ++ lines (length bytes) offset bytes

  -- `Dump`: the text, and the sinks that get it.
  unfoldable pub dump : Bool → Bool → ℕ → List ℕ → Option (List ℕ) → Logger → List ℕ × List Sink
  unfolding dump_text
  dump windows present offset bytes title s =
      (dump_text windows offset bytes title, log_simple present debug s)
