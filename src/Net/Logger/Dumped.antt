-- ===== src/Net/Logger/Dumped.antt =====
-- How what `Dump` of net/loggerOld.cpp writes is read back.
use lobbysvr.Base.{
  ℕ, zero, suc, ◌+◌, ◌-◌, ◌*◌, ◌/◌, ◌%◌, ◌≤◌, ◌<◌, ◌≡◌, ◌≢◌, refl, sym, ap, ap₂, ◌∙◌, Bool, false,
  List, [], ◌∷◌, ◌++◌, arith, ◌==◌, ltb, if◌then◌else◌, length, drop, take, append_assoc,
  take-append-drop, drop-length-append, length-append, length-drop, get_or, Option, ne→==,
}
use lobbysvr.Net.Logger.Dump.{
  hex_digit, hex_byte, gap, hex_column, char_column, line, lines, dump_bar, dump_text,
}

-- The value of a digit of "%X".
abbrev pub hex_value : ℕ → ℕ
hex_value c = if ltb c b'A' then c - b'0' else c - b'A' + 10

-- What stands behind the first colon.
abbrev pub behind_colon : List ℕ → List ℕ
behind_colon [] = []
behind_colon (c ∷ text) = let rest = behind_colon text in if c == b':' then text else rest

-- A place of a line, and the bytes behind it if it is filled.
abbrev pub first_place : List ℕ → List ℕ → List ℕ
first_place text rest =
    if get_or text 0 b'?' == b'?'
    then []
    else (hex_value (get_or text 0 0) * 16 + hex_value (get_or text 1 0)) ∷ rest

-- The bytes of a line from its `i`-th place on, up to the first that is not filled.
unfoldable pub read_places : ℕ → ℕ → List ℕ → List ℕ
read_places zero i text = []
read_places (suc places) i text =
    first_place (drop (length (gap i)) text)
      (read_places places (suc i) (drop 3 (drop (length (gap i)) text)))

-- The bytes of some lines: a line has 68 characters behind its address, the colon and the blank.
unfoldable pub read_lines : ℕ → List ℕ → List ℕ
unfolding read_places
read_lines zero text = []
read_lines (suc rounds) text =
    let body = drop 1 (behind_colon text) in
    read_places 16 0 body ++ read_lines rounds (drop 68 body)

-- Bytes.
abbrev pub AreBytes : List ℕ → Type 0
AreBytes [] = Unit {0}
AreBytes (b ∷ bytes) = (b < 256) × AreBytes bytes

-- A text that has no colon.
abbrev pub HasNoColon : List ℕ → Type 0
HasNoColon [] = Unit {0}
HasNoColon (c ∷ text) = (c ≢ b':') × HasNoColon text

hex_value-hex_digit :
    (n : ℕ) → n < 16 → (hex_value (hex_digit n) ≡ n) × ((hex_digit n == b'?') ≡ false)
unfolding hex_digit
hex_value-hex_digit n h = (ground arith, ground arith)

behind_colon-append : (xs rest : List ℕ) → HasNoColon xs → behind_colon (xs ++ b':' ∷ rest) ≡ rest
behind_colon-append [] rest h = refl
behind_colon-append (x ∷ xs) rest (ne, h) =
    ap (λ b. if b then xs ++ b':' ∷ rest else behind_colon (xs ++ b':' ∷ rest)) (ne→== x b':' ne)
    ∙ behind_colon-append xs rest h

-- The width of a column does not depend on the bytes.
length-hex_column :
    (places i : ℕ) (bytes : List ℕ)
    → length (hex_column places i bytes) ≡ length (hex_column places i [])
unfolding hex_column hex_byte
length-hex_column zero i bytes = refl
length-hex_column (suc places) i [] = refl
length-hex_column (suc places) i (b ∷ bytes) =
    let same = length-hex_column places (suc i) bytes in
    let filled = length-append (gap i ++ hex_byte b) (hex_column places (suc i) bytes) in
    let blank = length-append (gap i ++ b'?' ∷ b'?' ∷ b' ' ∷ []) (hex_column places (suc i) []) in
    let one = length-append (gap i) (hex_byte b) in
    let none = length-append (gap i) (b'?' ∷ b'?' ∷ b' ' ∷ []) in omega arith

length-char_column :
    (isprint : ℕ → Bool) (places : ℕ) (bytes : List ℕ)
    → length (char_column isprint places bytes) ≡ places
unfolding char_column
length-char_column isprint zero bytes = refl
length-char_column isprint (suc places) [] = ap suc (length-char_column isprint places [])
length-char_column isprint (suc places) (b ∷ bytes) =
    ap suc (length-char_column isprint places bytes)

-- Three characters of a place behind the gap.
place_text :
    (xs : List ℕ) (a b c : ℕ) (column tail : List ℕ)
    → drop (length xs) (((xs ++ (a ∷ b ∷ c ∷ [])) ++ column) ++ tail) ≡ a ∷ b ∷ c ∷ (column ++ tail)
place_text [] a b c column tail = refl
place_text (x ∷ xs) a b c column tail = place_text xs a b c column tail

read_places-hex_column :
    (places i : ℕ) (bytes tail : List ℕ)
    → AreBytes bytes
    → read_places places i (hex_column places i bytes ++ tail) ≡ take places bytes
unfolding read_places hex_column hex_byte
read_places-hex_column zero i bytes tail h = refl
read_places-hex_column (suc places) i [] tail h =
    ap (λ t. first_place t (read_places places (suc i) (drop 3 t)))
      (place_text (gap i) b'?' b'?' b' ' (hex_column places (suc i) []) tail)
read_places-hex_column (suc places) i (b ∷ bytes) tail (small, h) =
    let (high, filled) = hex_value-hex_digit (b / 16) (omega arith) in
    let (low, second) = hex_value-hex_digit (b % 16) (omega arith) in
    let value : hex_value (hex_digit (b / 16)) * 16 + hex_value (hex_digit (b % 16)) ≡ b =
      ap₂ (λ m n. m * 16 + n) high low ∙ omega arith in
    ap (λ t. first_place t (read_places places (suc i) (drop 3 t)))
      (place_text (gap i) (hex_digit (b / 16)) (hex_digit (b % 16)) b' '
        (hex_column places (suc i) bytes) tail)
    ∙ ap
        (λ c.
          if c
          then []
          else (hex_value (hex_digit (b / 16)) * 16 + hex_value (hex_digit (b % 16)))
            ∷ read_places places (suc i) (hex_column places (suc i) bytes ++ tail))
        filled
    ∙ ap₂ ◌∷◌ value (read_places-hex_column places (suc i) bytes tail h)

-- The parts of a line in the order in which they are read.
line_shape :
    (xs hex end tail : List ℕ)
    → (((xs ++ (b':' ∷ b' ' ∷ [])) ++ hex) ++ end) ++ tail
      ≡ xs ++ b':' ∷ b' ' ∷ ((hex ++ end) ++ tail)
line_shape [] hex end tail = refl
line_shape (x ∷ xs) hex end tail = ap (◌∷◌ x) (line_shape xs hex end tail)

AreBytes-drop : (n : ℕ) (bytes : List ℕ) → AreBytes bytes → AreBytes (drop n bytes)
AreBytes-drop zero bytes h = h
AreBytes-drop (suc n) [] h = tt
AreBytes-drop (suc n) (b ∷ bytes) (small, h) = AreBytes-drop n bytes h

read_lines-nothing : (rounds : ℕ) → read_lines rounds [] ≡ []
unfolding read_lines read_places gap
read_lines-nothing zero = refl
read_lines-nothing (suc rounds) = read_lines-nothing rounds

module _ (address : ℕ → List ℕ) (isprint : ℕ → Bool) where
  abbrev line_end : List ℕ → List ℕ
  line_end bytes = b' ' ∷ (char_column isprint 16 bytes ++ (b'\r' ∷ b'\n' ∷ []))

  line_text :
      (p_out : ℕ) (bytes tail : List ℕ)
      → line address isprint p_out bytes ++ tail
        ≡ address p_out ++ b':' ∷ b' ' ∷ ((hex_column 16 0 bytes ++ line_end bytes) ++ tail)
  unfolding line
  line_text p_out bytes tail =
      line_shape (address p_out) (hex_column 16 0 bytes) (line_end bytes) tail

  body_width : (bytes : List ℕ) → length (hex_column 16 0 bytes ++ line_end bytes) ≡ 68
  unfolding hex_column gap
  body_width bytes =
      let chars = char_column isprint 16 bytes in
      let all = length-append (hex_column 16 0 bytes) (line_end bytes) in
      let hex : length (hex_column 16 0 bytes) ≡ 49 = length-hex_column 16 0 bytes in
      let ended = length-append chars (b'\r' ∷ b'\n' ∷ []) in
      let sixteen = length-char_column isprint 16 bytes in omega arith

  read_lines-lines :
      (rounds p_out : ℕ) (bytes : List ℕ)
      → ((p : ℕ) → HasNoColon (address p))
      → AreBytes bytes
      → length bytes ≤ 16 * rounds
      → read_lines rounds (lines address isprint rounds p_out bytes) ≡ bytes
  unfolding read_lines lines
  read_lines-lines zero p_out [] plain h b = refl
  read_lines-lines zero p_out (x ∷ bytes) plain h b = absurd (omega arith)
  read_lines-lines (suc rounds) p_out [] plain h b = read_lines-nothing (suc rounds)
  read_lines-lines (suc rounds) p_out (x ∷ later) plain h b =
      let bytes : List ℕ = x ∷ later in
      let rest = lines address isprint rounds (p_out + 16) (drop 16 bytes) in
      let hex = hex_column 16 0 bytes in
      let shorter : length (drop 16 bytes) ≤ 16 * rounds =
        (let d = length-drop 16 bytes in omega arith) in
      ap (λ t. read_places 16 0 (drop 1 t) ++ read_lines rounds (drop 68 (drop 1 t)))
        (ap behind_colon (line_text p_out bytes rest)
          ∙ behind_colon-append (address p_out) (b' ' ∷ ((hex ++ line_end bytes) ++ rest))
              (plain p_out))
      ∙ ap₂ (λ xs ys. xs ++ ys)
          (ap (read_places 16 0) (append_assoc hex (line_end bytes) rest)
            ∙ read_places-hex_column 16 0 bytes (line_end bytes ++ rest) h)
          (ap (read_lines rounds)
              (drop-length-append (hex ++ line_end bytes) rest 68 (sym (body_width bytes)))
            ∙ read_lines-lines rounds (p_out + 16) (drop 16 bytes) plain (AreBytes-drop 16 bytes h)
                shorter)
      ∙ take-append-drop 16 bytes

  -- Bytes that are dumped, on either platform, with a title or without, can be read back from the digits of the text's
  -- lines, if the addresses are printed without a colon.
  pub read_lines-dump_text :
      (windows : Bool) (offset : ℕ) (bytes : List ℕ) (title : Option (List ℕ))
      → ((p : ℕ) → HasNoColon (address p))
      → AreBytes bytes
      → read_lines (length bytes) (
          drop
            (2 + length (dump_bar windows title))
            (dump_text address isprint windows offset bytes title))
        ≡ bytes
  unfolding dump_text
  read_lines-dump_text windows offset bytes title plain h =
      let bar : List ℕ = b'\r' ∷ b'\n' ∷ dump_bar windows title in
      let width : 2 + length (dump_bar windows title) ≡ length bar = omega arith in
      ap (read_lines (length bytes))
        (drop-length-append bar (lines address isprint (length bytes) offset bytes) _ width)
      ∙ read_lines-lines (length bytes) offset bytes plain h (omega arith)
