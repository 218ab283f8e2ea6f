-- ===== src/Net/Parser/Phases.antt =====
-- The phases of one pass of the parsers' loop, on a message that holds what a sender wrote.
use lobbysvr.Base.{
  ℕ, ◌+◌, ◌-◌, ◌%◌, ◌≤◌, ◌<◌, ◌≡◌, refl, sym, ap, ◌∙◌, true, List, [], ◌++◌, none, arith, length,
  take, drop, length-append, take-length-append, drop-length-append, le32, length-le32, word32,
  word32-le32, u32_mod, le→ltb, le→leb, lt→leb,
}
use lobbysvr.Net.Memory.{Memory, poke}
use lobbysvr.Net.Buffer.{
  MessageBuffer, Outcome, ok, throws, overrun, max_buffer_size, size, read, read_count, write_count,
  new_buffer,
}
use lobbysvr.Net.Buffer.Contents.{IsValid, contents, size-contents, size-le}
use lobbysvr.Net.Buffer.Reads.{
  HasRead, read_lem, read_into_lem, read_count-read, readable-size, readable_into_lem, forget,
}
use lobbysvr.Net.Frame.{Format}
use lobbysvr.Net.Frame.Codec.{Codec}
use lobbysvr.Net.Parser.{
  go, halt, returned, opened, check_main, look_main, main_phase, check_part, part_phase, copy_part,
  copied_with,
}

-- A read of what stands first in the message.
pub read_front :
    {msg : MessageBuffer} (n : ℕ) (xs ys : List ℕ)
    → IsValid msg
    → n ≡ length xs
    → contents msg ≡ xs ++ ys
    → (rest : MessageBuffer) × (read msg n ≡ ok (xs, rest)) × (contents rest ≡ ys) × IsValid rest
read_front {msg} n xs ys v hn e = found (read msg n) refl (read_lem n v)
  where
    sized : n ≤ size msg
    sized = omega (arith, size-contents msg e, length-append {0} xs ys)

    found :
        (out : Outcome (List ℕ × MessageBuffer))
        → read msg n ≡ out
        → HasRead msg n out
        → (rest : MessageBuffer) × (read msg n ≡ ok (xs, rest))
          × (contents rest ≡ ys)
          × IsValid rest
    found (ok (bytes, rest)) eq done = (
      rest,
      eq ∙ ap (λ bs. ok (bs, rest)) (done.1 ∙ ap (take n) e ∙ take-length-append xs ys n hn),
      done.2 ∙ ap (drop n) e ∙ drop-length-append xs ys n hn,
      done.3,
    )
    found (throws x) eq done = absurd (omega (arith, sized))
    found overrun eq done = absurd done

pub read_count_front :
    {msg : MessageBuffer} (n : ℕ) (xs ys : List ℕ)
    → IsValid msg
    → n ≡ length xs
    → contents msg ≡ xs ++ ys
    → (rest : MessageBuffer) × (read_count msg n ≡ ok rest) × (contents rest ≡ ys) × IsValid rest
read_count_front {msg} n xs ys v hn e =
    let (rest, eq, left, valid) = read_front n xs ys v hn e in
    (rest, read_count-read msg n ∙ ap forget eq, left, valid)

header_word : (n : ℕ) (tail : List ℕ) → n < u32_mod → word32 (take 8 (le32 n ++ tail)) ≡ n
unfolding le32
header_word n tail h = word32-le32 n (take 4 tail) h

part_word : (n : ℕ) → n < u32_mod → word32 (le32 n) ≡ n
unfolding le32
part_word n h = word32-le32 n [] h

wrap_small : (n : ℕ) → n ≤ max_buffer_size → n % u32_mod ≡ n
wrap_small n h = omega arith

module _ {msg : MessageBuffer} (v : IsValid msg) where
  -- Fewer bytes than a header end the loop.
  pub main_phase_short :
      (fmt : Format) (total : ℕ)
      → size msg < 8
      → main_phase fmt true total msg ≡ halt msg (returned true)
  unfolding main_phase look_main
  main_phase_short fmt total h = rw (readable_into_lem 8 v, lt→leb 8 (size msg) h)

  -- So do fewer bytes than the main word announces.
  pub main_phase_partial :
      (c : Codec) (total n : ℕ) (tail : List ℕ)
      → contents msg ≡ le32 (c.make_main n) ++ tail
      → n ≤ max_buffer_size - 4
      → 4 ≤ length tail
      → length tail < n
      → main_phase c.format true total msg ≡ halt msg (returned true)
  unfolding main_phase look_main check_main
  main_phase_partial c total n tail e hn h4 h = rw (
    readable_into_lem 8 v,
    le→leb 8 (size msg) (omega (arith, sized)),
    e,
    header_word (c.make_main n) tail (c.make_main-lt n (omega arith)),
    c.main_ok-make_main n (omega arith),
    c.main_length-make_main n (omega arith),
    wrap_small (n + 4) (omega arith),
    readable-size (n + 4) v,
    lt→leb (n + 4) (size msg) (omega (arith, sized)),
  )
    where
      sized : size msg ≡ 4 + length tail
      sized = omega (
        arith,
        size-contents msg e,
        length-append {0} (le32 (c.make_main n)) tail,
        length-le32 (c.make_main n),
      )

  -- A packet whose bytes are all there passes, whatever follows it.
  pub main_phase_packet :
      (c : Codec) (total n : ℕ) (tail : List ℕ)
      → contents msg ≡ le32 (c.make_main n) ++ tail
      → 4 ≤ n
      → n ≤ length tail
      → (rest : MessageBuffer) × (main_phase c.format true total msg ≡ go (n + 4, rest))
        × (contents rest ≡ tail)
        × IsValid rest
  unfolding main_phase look_main check_main
  main_phase_packet c total n tail e h4 hn =
      let (rest, eq, left, valid) =
        read_count_front 4 (le32 (c.make_main n)) tail v (sym (length-le32 (c.make_main n))) e in
      (
        rest,
        rw (
          readable_into_lem 8 v,
          le→leb 8 (size msg) (omega (arith, sized)),
          e,
          header_word (c.make_main n) tail (c.make_main-lt n small),
          c.main_ok-make_main n small,
          c.main_length-make_main n small,
          wrap_small (n + 4) (omega (arith, sized, size-le v)),
          readable-size (n + 4) v,
          le→leb (n + 4) (size msg) (omega (arith, sized)),
          eq,
        ),
        left,
        valid,
      )
    where
      sized : size msg ≡ 4 + length tail
      sized = omega (
        arith,
        size-contents msg e,
        length-append {0} (le32 (c.make_main n)) tail,
        length-le32 (c.make_main n),
      )

      small : n ≤ max_buffer_size
      small = omega (arith, sized, size-le v)

  pub part_phase_part :
      (c : Codec) (n : ℕ) (tail : List ℕ)
      → contents msg ≡ le32 (c.make_part n) ++ tail
      → n ≤ length tail
      → (rest : MessageBuffer) × (part_phase c.format msg ≡ go (n, rest))
        × (contents rest ≡ tail)
        × IsValid rest
  unfolding part_phase check_part
  part_phase_part c n tail e hn =
      let (rest, eq, left, valid) =
        read_front 4 (le32 (c.make_part n)) tail v (sym (length-le32 (c.make_part n))) e in
      (
        rest,
        rw (
          eq,
          part_word (c.make_part n) (c.make_part-lt n small),
          c.part_ok-make_part n small,
          c.part_length-make_part n small,
          readable-size n valid,
          le→leb n (size rest) (omega (arith, size-contents rest left)),
        ),
        left,
        valid,
      )
    where
      small : n ≤ max_buffer_size
      small =
          omega
            (arith, size-le v, size-contents msg e, length-append {0} (le32 (c.make_part n)) tail)

-- The buffer that a part's body arrives in.
abbrev pub part_buffer : Memory → List ℕ → MessageBuffer
part_buffer junk body = record {
  buffer = poke junk 0 body;
  read_pos = 0;
  write_pos = 0 + length body;
  manip = none;
}

pub copy_part_lem :
    (junk : Memory) {msg : MessageBuffer} (body tail : List ℕ)
    → IsValid msg
    → contents msg ≡ body ++ tail
    → (rest : MessageBuffer) × (copy_part junk msg (length body)
        ≡ opened (part_buffer junk body) rest)
      × (contents rest ≡ tail)
      × IsValid rest
unfolding copy_part copied_with write_count new_buffer size
copy_part_lem junk {msg} body tail v e =
    let (rest, eq, left, valid) =
      read_into_lem (new_buffer junk) (length body) v fits (omega (arith, fits, size-le v)) in
    (
      rest,
      ap (copied_with msg (length body)) eq
          ∙ rw (
            e,
            take-length-append body tail (length body) refl,
            le→ltb max_buffer_size (0 + length body) (omega (arith, fits, size-le v)),
          ),
      left ∙ ap (drop (length body)) e ∙ drop-length-append body tail (length body) refl,
      valid,
    )
  where
    fits : length body ≤ size msg
    fits = omega (arith, size-contents msg e, length-append {0} body tail)
