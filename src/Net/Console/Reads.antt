-- ===== src/Net/Console/Reads.antt =====
-- What a read of the console of net/test_interface.cpp comes to.
use lobbysvr.Base.{
  ℕ, suc, ◌+◌, ◌<◌, ◌≤◌, ◌≡◌, refl, sym, ap, ap₂, ◌∙◌, Bool, true, false, List, [], ◌∷◌, ◌++◌,
  arith, leb, if◌then◌else◌, length, take, drop, append_assoc, length-append, take-length-append,
  length-zero, length-drop, drop-length-append, lt→leb,
}
use lobbysvr.Net.Console.Text.{
  IsPlain, up_to_nul-plain, up_to_nul_plain, find_line_end-plain, find_line_end-append,
  is_end_key-plain, is_end_key_plain, IsPlain-append, line_tail, length-line_tail, up_to_nul_line,
  if_false,
}
use lobbysvr.Net.Console.{
  Session, ran_over, max_length, endline, up_to_nul, find_line_end, sent, is_end_key, answer,
  received,
}

pub up_to_nul-rest :
    (second : List ℕ)
    → IsPlain second
    → up_to_nul (b'\r' ∷ b'\n' ∷ second ++ endline) ≡ b'\r' ∷ b'\n' ∷ second ++ endline
unfolding up_to_nul
up_to_nul-rest second plain = ap (λ t. b'\r' ∷ b'\n' ∷ t) (up_to_nul-plain second endline plain)

module _ (callback : List ℕ → List ℕ) where
  pub received-answer :
      (bytes text : List ℕ) (s : Session)
      → is_end_key bytes ≡ false
      → up_to_nul bytes ≡ text
      → length text < max_length
      → received callback true bytes s
        ≡ answer callback true
            (find_line_end (s.recv_cmd ++ text))
            (record s { recv_cmd = s.recv_cmd ++ text })
  unfolding received
  received-answer bytes text s not_key e short =
      if_false (is_end_key bytes) _ _ not_key
      ∙ ap
          (λ t.
            if leb max_length (length t)
            then record s { ending = ran_over }
            else answer callback true (find_line_end (s.recv_cmd ++ t))
                (record s { recv_cmd = s.recv_cmd ++ t }))
          e
      ∙ if_false (leb max_length (length text)) _ _ (lt→leb max_length (length text) short)

  -- A fragment of a command is kept.
  pub received_fragment :
      (bytes : List ℕ) (s : Session)
      → IsPlain s.recv_cmd
      → IsPlain bytes
      → length bytes < max_length
      → received callback true bytes s ≡ record s { recv_cmd = s.recv_cmd ++ bytes }
  unfolding answer
  received_fragment bytes s held plain short =
      received-answer bytes bytes s (is_end_key_plain bytes plain) (up_to_nul_plain bytes plain)
        short
      ∙ ap (λ pos. answer callback true pos (record s { recv_cmd = s.recv_cmd ++ bytes }))
          (find_line_end-plain (s.recv_cmd ++ bytes) (IsPlain-append s.recv_cmd bytes held plain))

  -- The state after a command was answered.
  abbrev pub answered : List ℕ → Session → Session
  answered cmd s = record s { recv_cmd = []; written = s.written ++ (callback cmd ++ endline) ∷ [] }

  answer-command :
      (b : ℕ) (bs tail : List ℕ) (s : Session)
      → IsPlain (b ∷ bs)
      → length tail ≤ 1
      → s.recv_cmd ≡ b ∷ bs ++ b'\r' ∷ tail
      → answer callback true (find_line_end s.recv_cmd) s ≡ answered (b ∷ bs) s
  unfolding answer sent
  answer-command b bs tail s plain short e =
      let text = b ∷ bs in
      let n = suc (length bs) in
      ap (λ pos. answer callback true pos s)
        (ap find_line_end e ∙ find_line_end-append text tail plain)
      ∙ ap₂ (λ r c. record s { recv_cmd = r; written = s.written ++ (callback c ++ endline) ∷ [] })
          (ap (drop (n + 2)) e
            ∙ length-zero (drop (n + 2) (text ++ b'\r' ∷ tail)) (
                omega (
                  arith,
                  length-drop (n + 2) (text ++ b'\r' ∷ tail),
                  length-append text (b'\r' ∷ tail),
                )))
          (ap (take n) e ∙ take-length-append text (b'\r' ∷ tail) n refl)

  pub answer-first :
      (b : ℕ) (bs rest : List ℕ) (s : Session)
      → IsPlain (b ∷ bs)
      → s.recv_cmd ≡ (b ∷ bs) ++ b'\r' ∷ b'\n' ∷ rest
      → answer callback true (find_line_end s.recv_cmd) s
        ≡ record s { recv_cmd = rest; written = s.written ++ (callback (b ∷ bs) ++ endline) ∷ [] }
  unfolding answer sent
  answer-first b bs rest s plain e =
      let n = suc (length bs) in
      ap (λ pos. answer callback true pos s)
        (ap find_line_end e ∙ find_line_end-append (b ∷ bs) (b'\n' ∷ rest) plain)
      ∙ ap₂ (λ r c. record s { recv_cmd = r; written = s.written ++ (callback c ++ endline) ∷ [] })
          (ap (drop (n + 2)) e
            ∙ ap (drop (n + 2)) (sym (append_assoc (b ∷ bs) endline rest))
            ∙ drop-length-append ((b ∷ bs) ++ endline) rest (n + 2)
                (omega (arith, length-append (b ∷ bs) endline)))
          (ap (take n) e ∙ take-length-append (b ∷ bs) (b'\r' ∷ b'\n' ∷ rest) n refl)

  -- The end of a command, with the line end in one read, or its first byte in one.
  pub received_end :
      (split : Bool) (b : ℕ) (bs last : List ℕ) (s : Session)
      → IsPlain (b ∷ bs)
      → IsPlain last
      → s.recv_cmd ++ last ≡ b ∷ bs
      → length last + 2 < max_length
      → received callback true (last ++ b'\r' ∷ line_tail split) s ≡ answered (b ∷ bs) s
  received_end split b bs last s plain plain_last e short =
      let text = last ++ b'\r' ∷ line_tail split in
      received-answer text text s (is_end_key-plain last (line_tail split) plain_last)
        (up_to_nul-plain last (b'\r' ∷ line_tail split) plain_last
          ∙ ap (λ t. last ++ t) (up_to_nul_line split))
        (omega (arith, length-append last (b'\r' ∷ line_tail split), length-line_tail split))
      ∙ answer-command b bs (line_tail split) (record s { recv_cmd = s.recv_cmd ++ text }) plain
          (length-line_tail split)
          (sym (append_assoc s.recv_cmd last (b'\r' ∷ line_tail split))
            ∙ ap (λ t. t ++ b'\r' ∷ line_tail split) e)

  -- The second byte of a line end in a read of its own.
  pub received_newline :
      (s : Session)
      → s.recv_cmd ≡ []
      → received callback true (b'\n' ∷ []) s ≡ record s { recv_cmd = [] }
  unfolding answer find_line_end up_to_nul is_end_key
  received_newline s e =
      received-answer (b'\n' ∷ []) (b'\n' ∷ []) s refl refl (omega arith)
      ∙ ap
          (λ held.
            answer callback true (find_line_end (held ++ b'\n' ∷ []))
              (record s { recv_cmd = held ++ b'\n' ∷ [] }))
          e
