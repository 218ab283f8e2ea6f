-- ===== src/Net/Console/Commands.antt =====
-- Commands that are typed into the console of net/test_interface.cpp.
use lobbysvr.Base.{
  ℕ, ◌+◌, ◌<◌, ◌≡◌, ◌≢◌, refl, sym, ap, subst, ◌∙◌, Bool, true, false, List, [], ◌∷◌, ◌++◌, map,
  arith, length, append_assoc, append-nil, length-append,
}
use lobbysvr.Net.Console.Text.{
  IsPlain, up_to_nul-plain, is_end_key-plain, IsPlain-append, line_tail, nonempty,
}
use lobbysvr.Net.Console.Reads.{
  up_to_nul-rest, received-answer, received_fragment, answered, answer-first, received_end,
  received_newline,
}
use lobbysvr.Net.Console.{
  Read, got, eof, Session, running, closed, thrown, ran_over, max_length, endline, hi_msg, sent,
  received, pass, watch_dog_loop, watch_dog_session,
}

-- A command as it is typed: the bytes of reads that do not end it, those of the read that does, and whether its line
-- end is split between two reads.
pub record Command : Type 0 where
  pub fragments : List (List ℕ)
  pub last : List ℕ
  pub split : Bool

abbrev pub join : List (List ℕ) → List ℕ
join [] = []
join (bytes ∷ fragments) = bytes ++ join fragments

abbrev pub text : Command → List ℕ
text c = join c.fragments ++ c.last

abbrev pub fragment_reads : List (List ℕ) → List (Read × Bool)
fragment_reads [] = []
fragment_reads (bytes ∷ fragments) = (got bytes, true) ∷ fragment_reads fragments

abbrev pub newline_reads : Bool → List (Read × Bool)
newline_reads true = (got (b'\n' ∷ []), true) ∷ []
newline_reads false = []

abbrev pub command_reads : Command → List (Read × Bool)
command_reads c =
    fragment_reads c.fragments
    ++ (got (c.last ++ b'\r' ∷ line_tail c.split), true) ∷ newline_reads c.split

abbrev pub all_reads : List Command → List (Read × Bool)
all_reads [] = []
all_reads (c ∷ commands) = command_reads c ++ all_reads commands

abbrev pub ArePlain : List (List ℕ) → Type 0
ArePlain [] = Unit {0}
ArePlain (bytes ∷ fragments) = IsPlain bytes × (length bytes < max_length) × ArePlain fragments

abbrev pub IsTypable : Command → Type 0
IsTypable c =
    ArePlain c.fragments × IsPlain c.last × (length c.last + 2 < max_length) × (text c ≢ [])

abbrev pub AreTypable : List Command → Type 0
AreTypable [] = Unit {0}
AreTypable (c ∷ commands) = IsTypable c × AreTypable commands

IsPlain-join : (fragments : List (List ℕ)) → ArePlain fragments → IsPlain (join fragments)
IsPlain-join [] h = tt
IsPlain-join (bytes ∷ fragments) (plain, short, later) =
    IsPlain-append bytes (join fragments) plain (IsPlain-join fragments later)

module _ (callback : List ℕ → List ℕ) where
  loop_step :
      (bytes : List ℕ) (reads : List (Read × Bool)) (s : Session)
      → s.ending ≡ running
      → watch_dog_loop callback ((got bytes, true) ∷ reads) s
        ≡ watch_dog_loop callback reads (received callback true bytes s)
  unfolding watch_dog_loop pass
  loop_step bytes reads s e =
      ap
        (λ ending. elim ending [
          | running ↦ watch_dog_loop callback reads (received callback true bytes s)
          | closed ↦ s
          | thrown ↦ s
          | ran_over ↦ s
        ])
        e

  loop-fragments :
      (fragments : List (List ℕ)) (reads : List (Read × Bool)) (s : Session)
      → s.ending ≡ running
      → IsPlain s.recv_cmd
      → ArePlain fragments
      → watch_dog_loop callback (fragment_reads fragments ++ reads) s
        ≡ watch_dog_loop callback reads (record s { recv_cmd = s.recv_cmd ++ join fragments })
  loop-fragments [] reads s e held plain =
      ap (λ r. watch_dog_loop callback reads (record s { recv_cmd = r }))
        (sym (append-nil s.recv_cmd))
  loop-fragments (bytes ∷ fragments) reads s e held (plain, short, later) =
      loop_step bytes (fragment_reads fragments ++ reads) s e
      ∙ ap (watch_dog_loop callback (fragment_reads fragments ++ reads))
          (received_fragment callback bytes s held plain short)
      ∙ loop-fragments fragments reads (record s { recv_cmd = s.recv_cmd ++ bytes }) e
          (IsPlain-append s.recv_cmd bytes held plain) later
      ∙ ap (λ r. watch_dog_loop callback reads (record s { recv_cmd = r }))
          (append_assoc s.recv_cmd bytes (join fragments))

  loop-newline :
      (split : Bool) (reads : List (Read × Bool)) (cmd : List ℕ) (s : Session)
      → s.ending ≡ running
      → watch_dog_loop callback (newline_reads split ++ reads) (answered callback cmd s)
        ≡ watch_dog_loop callback reads (answered callback cmd s)
  loop-newline true reads cmd s e =
      loop_step (b'\n' ∷ []) reads (answered callback cmd s) e
      ∙ ap (watch_dog_loop callback reads)
          (received_newline callback (answered callback cmd s) refl)
  loop-newline false reads cmd s e = refl

  loop-command :
      (c : Command) (b : ℕ) (bs : List ℕ) (reads : List (Read × Bool)) (s : Session)
      → s.ending ≡ running
      → s.recv_cmd ≡ []
      → IsTypable c
      → text c ≡ b ∷ bs
      → watch_dog_loop callback (command_reads c ++ reads) s
        ≡ watch_dog_loop callback reads (answered callback (text c) s)
  loop-command c b bs reads s e none_held typable t =
      let after = record s { recv_cmd = s.recv_cmd ++ join c.fragments } in
      let tail_reads = newline_reads c.split ++ reads in
      ap (λ rs. watch_dog_loop callback rs s)
        (append_assoc (fragment_reads c.fragments)
          ((got (c.last ++ b'\r' ∷ line_tail c.split), true) ∷ newline_reads c.split) reads)
      ∙ loop-fragments c.fragments ((got (c.last ++ b'\r' ∷ line_tail c.split), true) ∷ tail_reads)
          s e (subst IsPlain (sym none_held) tt) typable.0
      ∙ loop_step (c.last ++ b'\r' ∷ line_tail c.split) tail_reads after e
      ∙ ap (watch_dog_loop callback tail_reads) (
          received_end callback c.split b bs c.last after
            (subst IsPlain t (
              IsPlain-append (join c.fragments) c.last (IsPlain-join c.fragments typable.0)
                typable.1))
            typable.1 (ap (λ r. (r ++ join c.fragments) ++ c.last) none_held ∙ t) typable.2)
      ∙ loop-newline c.split reads (b ∷ bs) after e
      ∙ ap (λ cmd. watch_dog_loop callback reads (answered callback cmd s)) (sym t)

  loop-commands :
      (commands : List Command) (written : List (List ℕ))
      → AreTypable commands
      → watch_dog_loop callback
          (all_reads commands ++ (eof, true) ∷ [])
          (record { recv_cmd = []; written = written; ending = running })
        ≡ record {
          recv_cmd = [];
          written = written ++ map (λ c. callback (text c) ++ endline) commands;
          ending = closed;
        }
  unfolding watch_dog_loop pass
  loop-commands [] written typable =
      ap (λ w. record { recv_cmd = []; written = w; ending = closed }) (sym (append-nil written))
  loop-commands (c ∷ commands) written (typable, later) =
      let (b, bs, t) = nonempty (text c) typable.3 in
      let s : Session = record { recv_cmd = []; written = written; ending = running } in
      ap (λ rs. watch_dog_loop callback rs s)
        (append_assoc (command_reads c) (all_reads commands) ((eof, true) ∷ []))
      ∙ loop-command c b bs (all_reads commands ++ (eof, true) ∷ []) s refl refl typable t
      ∙ loop-commands commands (written ++ (callback (text c) ++ endline) ∷ []) later
      ∙ ap (λ w. record { recv_cmd = []; written = w; ending = closed })
          (append_assoc written ((callback (text c) ++ endline) ∷ [])
            (map (λ d. callback (text d) ++ endline) commands))

  -- Commands that are typed one after the other, each in any number of reads, the line end in one read with the end
  -- of the command or its second byte alone in the next, are each answered once and in order, and the session ends with
  -- `closedConsole` when the peer closes: if no command is empty or has a NUL, CR, LF, Ctrl-C or Ctrl-Z in it, no read
  -- fills the array, and writes succeed.
  pub watch_dog_session-answers :
      (commands : List Command)
      → AreTypable commands
      → watch_dog_session callback true (all_reads commands ++ (eof, true) ∷ []) ≡ record {
        recv_cmd = [];
        written = hi_msg ∷ map (λ c. callback (text c) ++ endline) commands;
        ending = closed;
      }
  unfolding watch_dog_session sent
  watch_dog_session-answers commands typable = loop-commands commands (hi_msg ∷ []) typable

  -- Of two commands that come in one read, with their line ends, only the first is answered: the second stays, with its
  -- line end, in what was received, and is given up when the peer waits for the answer and closes.
  pub watch_dog_session_two :
      (b : ℕ) (bs second : List ℕ)
      → IsPlain (b ∷ bs)
      → IsPlain second
      → length (b ∷ bs) + length second + 4 < max_length
      → watch_dog_session callback true
          ((got ((b ∷ bs) ++ b'\r' ∷ b'\n' ∷ (second ++ endline)), true) ∷ (eof, true) ∷ [])
        ≡ record {
          recv_cmd = second ++ endline;
          written = hi_msg ∷ (callback (b ∷ bs) ++ endline) ∷ [];
          ending = closed;
        }
  unfolding watch_dog_session watch_dog_loop pass sent
  watch_dog_session_two b bs second plain plain_second short =
      let rest = second ++ endline in
      let bytes = (b ∷ bs) ++ b'\r' ∷ b'\n' ∷ rest in
      let s : Session = record { recv_cmd = []; written = hi_msg ∷ []; ending = running } in
      ap (watch_dog_loop callback ((eof, true) ∷ [])) (
        received-answer callback bytes bytes s (is_end_key-plain (b ∷ bs) (b'\n' ∷ rest) plain)
          (up_to_nul-plain (b ∷ bs) (b'\r' ∷ b'\n' ∷ rest) plain
            ∙ ap (λ t. (b ∷ bs) ++ t) (up_to_nul-rest second plain_second))
          (omega
            (arith, length-append (b ∷ bs) (b'\r' ∷ b'\n' ∷ rest), length-append second endline))
        ∙ answer-first callback b bs rest (record s { recv_cmd = bytes }) plain refl)
