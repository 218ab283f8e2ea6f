-- ===== src/Net/Parser/Malformed.antt =====
-- The parsers' loop on messages that are no sequence of whole packets: a packet that is cut short,
-- and a packet whose main word does not fit its part.
use lobbysvr.Base.{
  ℕ, suc, ◌+◌, ◌-◌, ◌%◌, ◌≤◌, ◌<◌, ◌≡◌, ◌≢◌, refl, sym, ap, ◌∙◌, inl, inr, true, false, List, [],
  ◌∷◌, ◌++◌, arith, length, length-append, take, drop, take-append-drop, take-take-append,
  take-length-append, length-drop, le32, length-le32, u32_mod, word32, ◌==◌, ne→==, append-nil, ltb,
  Bool-cases, ltb→lt, ltb→le,
}
use lobbysvr.Net.Memory.{Memory}
use lobbysvr.Net.Buffer.{
  MessageBuffer, Outcome, ok, throws, overrun, cant_readable, max_buffer_size, size, read,
}
use lobbysvr.Net.Buffer.Contents.{IsValid, contents, size-contents, size-le}
use lobbysvr.Net.Buffer.Reads.{HasRead, read_lem}
use lobbysvr.Net.Frame.Codec.{Codec, Packet, parts_size, encode_parts, encode, length-encode_parts}
use lobbysvr.Net.Parser.{
  Parser, Verdict, handled, returned, threw, again, stop, halt, attempt, ◌>>=◌, check_part,
  dispatched, body_phase, after_part_key, part_step, after_main_key, iterate, main_phase,
  part_phase, loop, parse, loop-again, loop-stop,
}
use lobbysvr.Net.Parser.Phases.{
  main_phase_short, main_phase_partial, main_phase_packet, part_phase_part, part_buffer,
  copy_part_lem,
}
use lobbysvr.Net.Parser.Spec.{Copies, deliver_body}

main_phase_prefix :
    {msg : MessageBuffer} (c : Codec) (total : ℕ) (packet : Packet) (a b : List ℕ)
    → IsValid msg
    → contents msg ≡ a
    → encode c packet ≡ a ++ b
    → b ≢ []
    → length (encode c packet) ≤ max_buffer_size
    → main_phase c.format true total msg ≡ halt msg (returned true)
main_phase_prefix {msg} c total (body, bodies) a b v e cut more fits =
    elim (Bool-cases (ltb (length a) 8)) [
      | inl short ↦
          main_phase_short v c.format total
            (omega (arith, size-contents msg e, ltb→lt (length a) 8 short))
      | inr long ↦
          main_phase_partial v c total n (drop 4 a) (e ∙ headed (ltb→le (length a) 8 long))
            (omega (arith, sized, fits)) (omega (arith, length-drop 4 a, ltb→le (length a) 8 long))
            (omega (
              arith,
              length-drop 4 a,
              ltb→le (length a) 8 long,
              sized,
              ap length cut,
              length-append {0} a b,
              nonempty b more,
            ))
    ]
  where
    n : ℕ
    n = parts_size (body ∷ bodies)

    sized : length (encode c (body, bodies)) ≡ 4 + n
    sized = omega (
      arith,
      length-append {0} (le32 (c.make_main n)) (encode_parts c (body ∷ bodies)),
      length-le32 (c.make_main n),
      length-encode_parts c (body ∷ bodies),
    )

    nonempty : (xs : List ℕ) → xs ≢ [] → 0 < length xs
    nonempty [] h = absurd (h refl)
    nonempty (x ∷ xs) h = omega arith

    headed : 8 ≤ length a → a ≡ le32 (c.make_main n) ++ drop 4 a
    headed h =
        sym (take-append-drop 4 a)
        ∙ ap (λ front. front ++ drop 4 a)
            (sym (take-take-append 4 a b (omega arith))
              ∙ ap (take 4) (sym cut)
              ∙ take-length-append (le32 (c.make_main n)) (encode_parts c (body ∷ bodies)) 4
                  (sym (length-le32 (c.make_main n))))

module _ {S : Type 0} (p : Parser S) (c : Codec) (same_format : p.format ≡ c.format) where
  -- A valid message that holds the beginning of a packet and not all of it, where the whole would
  -- fit in a buffer: the parser returns true at once, hands nothing over and leaves the message as
  -- it was.
  pub parse_partial :
      (msg : MessageBuffer) (s : S) (packet : Packet) (a b : List ℕ)
      → IsValid msg
      → contents msg ≡ a
      → encode c packet ≡ a ++ b
      → b ≢ []
      → length (encode c packet) ≤ max_buffer_size
      → parse p msg s ≡ record { msg = msg; state = s; ending = returned true }
  unfolding parse iterate
  parse_partial msg s packet a b v e cut more fits =
      loop-stop p (msg.write_pos - msg.read_pos) true 0 msg s (
        ap (λ fmt. after_main_key p s (main_phase fmt true 0 msg)) same_format
        ∙ ap (after_main_key p s) (main_phase_prefix c 0 packet a b v e cut more fits))

-- A read from an empty buffer.
read-empty : {msg : MessageBuffer} → IsValid msg → size msg ≡ 0 → read msg 4 ≡ throws cant_readable
read-empty {msg} v h = found (read msg 4) refl (read_lem 4 v)
  where
    found :
        (r : Outcome (List ℕ × MessageBuffer))
        → read msg 4 ≡ r
        → HasRead msg 4 r
        → read msg 4 ≡ throws cant_readable
    found (ok (bytes, rest)) e d = absurd (omega (arith, d.0, h))
    found (throws x) e d = e ∙ ap throws d.1
    found overrun e d = absurd d

abbrev left_over : ℕ → ℕ → ℕ
left_over n k = (n + 4 + u32_mod - (k + 4) % u32_mod) % u32_mod

left_over-ne : (n k : ℕ) → k ≤ max_buffer_size → n < k + 4 → left_over n k ≢ 4
left_over-ne n k hk hn = omega arith

dispatched-handled :
    {S : Type 0} (p : Parser S) (total : ℕ) (proc m : MessageBuffer) (r : S × Verdict)
    → r.1 ≡ handled
    → dispatched p total proc m r ≡ again (total == 4) total m r.0
unfolding dispatched
dispatched-handled p total proc m (s, handled) e = refl
dispatched-handled p total proc m (s, Verdict.no_handler) e = cc
dispatched-handled p total proc m (s, Verdict.raised x) e = cc
dispatched-handled p total proc m (s, Verdict.ran_over) e = cc

module _ {S : Type 0} (p : Parser S) (c : Codec) (junk : Memory) (k : Copies p c junk) where
  -- The pass over the only part of such a packet.
  first_pass :
      (msg : MessageBuffer) (s : S) (n : ℕ) (body : List ℕ)
      → IsValid msg
      → contents msg ≡ le32 (c.make_main n) ++ (le32 (c.make_part (length body)) ++ body)
      → 4 ≤ n
      → n < length body + 4
      → (rest : MessageBuffer) × (iterate p true 0 msg s
          ≡ dispatched p
              (left_over n (length body))
              (part_buffer junk body)
              rest
              (deliver_body p junk s body))
        × IsValid rest
        × (size rest ≡ 0)
  unfolding iterate part_step body_phase
  first_pass msg s n body v e h4 hn =
      let (m, eq, left, valid) = main_phase_packet v c 0 n tail e h4 (omega (arith, sized)) in
      let (m', eq', left', valid') =
        part_phase_part valid c (length body) body left (omega arith) in
      let (rest, eq'', left'', valid'') =
        copy_part_lem junk body [] valid' (left' ∙ sym (append-nil body)) in
      (
        rest,
        ap (λ fmt. after_main_key p s (main_phase fmt true 0 msg)) k.same_format
            ∙ ap (after_main_key p s) eq
            ∙ ap (λ fmt. after_part_key p (n + 4) s (part_phase fmt m)) k.same_format
            ∙ ap (after_part_key p (n + 4) s) eq'
            ∙ rw (k.copies s m' (length body), eq''),
        valid'',
        size-contents rest left'',
      )
    where
      tail : List ℕ
      tail = le32 (c.make_part (length body)) ++ body

      sized : length tail ≡ 4 + length body
      sized = omega (
        arith,
        length-append {0} (le32 (c.make_part (length body))) body,
        length-le32 (c.make_part (length body)),
      )

  second_pass :
      (total : ℕ) (m : MessageBuffer) (s : S)
      → IsValid m
      → size m ≡ 0
      → iterate p false total m s ≡ stop m s (threw cant_readable)
  unfolding iterate main_phase part_step part_phase
  second_pass total m s v h =
      ap (λ r. after_part_key p total s (attempt m r >>= λ x. check_part p.format (word32 x.0) x.1))
        (read-empty v h)

  -- A valid message of one packet of one part, whose main word gives at least 4 bytes but fewer than
  -- the part takes (`n`, where the part takes `length body + 4`), and whose body the handler takes:
  -- the parser then wants a part key where the message has ended, and throws.
  pub parse_short_main-throws :
      (msg : MessageBuffer) (s : S) (n : ℕ) (body : List ℕ)
      → IsValid msg
      → contents msg ≡ le32 (c.make_main n) ++ (le32 (c.make_part (length body)) ++ body)
      → 4 ≤ n
      → n < length body + 4
      → (deliver_body p junk s body).1 ≡ handled
      → (parse p msg s).ending ≡ threw cant_readable
  unfolding parse size
  parse_short_main-throws msg s n body v e h4 hn taken =
      let (rest, first, valid, empty) = first_pass msg s n body v e h4 hn in
      let r = deliver_body p junk s body in
      let t = left_over n (length body) in
      ap (λ f. f.ending)
        (loop-again p f true 0 msg s (
            first
            ∙ dispatched-handled p t (part_buffer junk body) rest r taken
            ∙ ap (λ b. again b t rest r.0) (ne→== t 4 (left_over-ne n (length body) small hn)))
          ∙ ap (λ g. loop p g false t rest r.0) fuelled
          ∙ loop-stop p (f - 1) false t rest r.0 (second_pass t rest r.0 valid empty))
    where
      f : ℕ
      f = msg.write_pos - msg.read_pos

      sized : size msg ≡ 8 + length body
      sized = omega (
        arith,
        size-contents msg e,
        length-append {0} (le32 (c.make_main n)) (le32 (c.make_part (length body)) ++ body),
        length-append {0} (le32 (c.make_part (length body))) body,
        length-le32 (c.make_main n),
        length-le32 (c.make_part (length body)),
      )

      small : length body ≤ max_buffer_size
      small = omega (arith, sized, size-le v)

      fuelled : f ≡ suc (f - 1)
      fuelled = omega (arith, sized)
