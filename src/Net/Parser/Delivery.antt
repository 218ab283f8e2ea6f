-- ===== src/Net/Parser/Delivery.antt =====
-- The parsers' loop does what `Net.Parser.Spec` says.
use lobbysvr.Base.{
  ℕ, zero, suc, ◌+◌, ◌-◌, ◌%◌, ◌≤◌, ◌<◌, ◌≡◌, refl, sym, ap, ap₂, ◌∙◌, subst, true, false, Bool,
  List, [], ◌∷◌, ◌++◌, arith, length, length-append, append_assoc, le32, length-le32, u32_mod, ◌==◌,
  ne→==,
}
use lobbysvr.Net.Memory.{Memory}
use lobbysvr.Net.Buffer.{MessageBuffer, max_buffer_size, size}
use lobbysvr.Net.Buffer.Contents.{IsValid, contents, size-contents, size-le}
use lobbysvr.Net.Frame.Codec.{
  Codec, Packet, parts_size, all_bodies, encode_parts, encode, encode_all, length-encode_parts,
}
use lobbysvr.Net.Parser.{
  Parser, Verdict, handled, no_handler, raised, ran_over, dispatched, body_phase, part_step,
  iterate, loop, loop-again, loop-stop, after_main_key, parse, main_phase,
}
use lobbysvr.Net.Parser.Phases.{
  main_phase_short, main_phase_packet, part_phase_part, part_buffer, copy_part_lem,
}
use lobbysvr.Net.Parser.Spec.{deliver_body, carry_on, deliver_all, Delivered, Copies}

-- Where in a packet the loop stands: before a packet, or before the first of these bodies.
abbrev AtPart : Bool → ℕ → List (List ℕ) → Type 0
AtPart start total [] = start ≡ true
AtPart start total (body ∷ bodies) = (start ≡ false) × (total ≡ parts_size (body ∷ bodies) + 4)

AtPart-next :
    (bodies : List (List ℕ)) → AtPart (parts_size bodies + 4 == 4) (parts_size bodies + 4) bodies
AtPart-next [] = refl
AtPart-next (body ∷ bodies) = (ne→== _ _ (omega arith), refl)

remaining :
    (n rest : ℕ)
    → n ≤ max_buffer_size
    → rest ≤ max_buffer_size
    → (4 + n + rest + 4 + u32_mod - (n + 4) % u32_mod) % u32_mod ≡ rest + 4
remaining n rest hn hr = omega arith

module _ {S : Type 0} (p : Parser S) (c : Codec) (junk : Memory) (k : Copies p c junk) where
  -- One part: it is handed over, and what follows it is left.
  part_step_lem :
      (msg : MessageBuffer) (s : S) (body : List ℕ) (bodies : List (List ℕ)) (tail : List ℕ)
      → IsValid msg
      → contents msg ≡ encode_parts c (body ∷ bodies) ++ tail
      → (rest : MessageBuffer) × (part_step p (parts_size (body ∷ bodies) + 4) msg s
          ≡ dispatched p
              (parts_size bodies + 4)
              (part_buffer junk body)
              rest
              (deliver_body p junk s body))
        × (contents rest ≡ encode_parts c bodies ++ tail)
        × IsValid rest
  unfolding part_step body_phase
  part_step_lem msg s body bodies tail v e =
      let (m, eq, left, valid) = part_phase_part v c (length body) behind (e ∙ split) enough in
      let (rest, eq', left', valid') =
        copy_part_lem junk body (encode_parts c bodies ++ tail) valid left in
      (
        rest,
        rw (
          k.same_format,
          eq,
          k.copies s m (length body),
          eq',
          remaining (length body) (parts_size bodies) small small',
        ),
        left',
        valid',
      )
    where
      behind : List ℕ
      behind = body ++ (encode_parts c bodies ++ tail)

      split : encode_parts c (body ∷ bodies) ++ tail ≡ le32 (c.make_part (length body)) ++ behind
      split =
          append_assoc (le32 (c.make_part (length body))) (body ++ encode_parts c bodies) tail
          ∙ ap (◌++◌ (le32 (c.make_part (length body))))
              (append_assoc body (encode_parts c bodies) tail)

      enough : length body ≤ length behind
      enough = omega (arith, length-append {0} body (encode_parts c bodies ++ tail))

      sized : parts_size (body ∷ bodies) ≤ max_buffer_size
      sized = omega (
        arith,
        size-le v,
        size-contents msg e,
        length-append {0} (encode_parts c (body ∷ bodies)) tail,
        length-encode_parts c (body ∷ bodies),
      )

      small : length body ≤ max_buffer_size
      small = omega (arith, sized)

      small' : parts_size bodies ≤ max_buffer_size
      small' = omega (arith, sized)

  -- A whole packet at the front: its first part is handed over, and what follows it is left.
  iterate_packet :
      (msg : MessageBuffer) (s : S) (total : ℕ) (packet : Packet) (tail : List ℕ)
      → IsValid msg
      → contents msg ≡ encode c packet ++ tail
      → (rest : MessageBuffer) × (iterate p true total msg s
          ≡ dispatched p
              (parts_size packet.1 + 4)
              (part_buffer junk packet.0)
              rest
              (deliver_body p junk s packet.0))
        × (contents rest ≡ encode_parts c packet.1 ++ tail)
        × IsValid rest
        × (size rest < size msg)
  unfolding iterate
  iterate_packet msg s total (body, bodies) tail v e =
      let (m, eq, left, valid) =
        main_phase_packet v c total (parts_size (body ∷ bodies))
          (encode_parts c (body ∷ bodies) ++ tail) (e ∙ split) (omega arith) enough in
      let (rest, eq', left', valid') = part_step_lem m s body bodies tail valid left in
      (
        rest,
        ap (λ fmt. after_main_key p s (main_phase fmt true total msg)) k.same_format
            ∙ ap (after_main_key p s) eq
            ∙ eq',
        left',
        valid',
        shorter rest left',
      )
    where
      split :
          encode c (body, bodies) ++ tail
          ≡ le32 (c.make_main (parts_size (body ∷ bodies)))
            ++ (encode_parts c (body ∷ bodies) ++ tail)
      split =
          append_assoc (le32 (c.make_main (parts_size (body ∷ bodies))))
            (encode_parts c (body ∷ bodies)) tail

      enough : parts_size (body ∷ bodies) ≤ length (encode_parts c (body ∷ bodies) ++ tail)
      enough = omega (
        arith,
        length-append {0} (encode_parts c (body ∷ bodies)) tail,
        length-encode_parts c (body ∷ bodies),
      )

      shorter :
          (rest : MessageBuffer)
          → contents rest ≡ encode_parts c bodies ++ tail
          → size rest < size msg
      shorter rest left = omega (
        arith,
        size-contents rest left,
        size-contents msg (e ∙ split),
        length-append {0} (le32 (c.make_main (parts_size (body ∷ bodies))))
            (encode_parts c (body ∷ bodies) ++ tail),
        length-le32 (c.make_main (parts_size (body ∷ bodies))),
        length-append {0} (encode_parts c (body ∷ bodies)) tail,
        length-encode_parts c (body ∷ bodies),
        length-append {0} (encode_parts c bodies) tail,
        length-encode_parts c bodies,
      )

  -- The loop with this much fuel does what the specification says, wherever in a packet it stands.
  abbrev LoopDelivers : ℕ → Type 0
  LoopDelivers fuel =
      (start : Bool) (total : ℕ) (msg : MessageBuffer) (s : S) (bodies : List (List ℕ))
      (packets : List Packet) (rest : List ℕ)
      → AtPart start total bodies
      → IsValid msg
      → contents msg ≡ encode_parts c bodies ++ (encode_all c packets ++ rest)
      → length rest < 8
      → size msg < fuel
      → Delivered (deliver_all p junk s (bodies ++ all_bodies packets)) rest
          (loop p fuel start total msg s)

  resumed :
      (fuel : ℕ)
      → LoopDelivers fuel
      → (start : Bool) (total : ℕ) (msg : MessageBuffer) (s : S)
      → (body : List ℕ) (bodies : List (List ℕ)) (packets : List Packet) (rest : List ℕ)
      → (m : MessageBuffer)
      → iterate p start total msg s
        ≡ dispatched p
            (parts_size bodies + 4)
            (part_buffer junk body)
            m
            (deliver_body p junk s body)
      → IsValid m
      → contents m ≡ encode_parts c bodies ++ (encode_all c packets ++ rest)
      → length rest < 8
      → size m < fuel
      → Delivered
          (deliver_all p junk s (body ∷ bodies ++ all_bodies packets))
          rest
          (loop p (suc fuel) start total msg s)
  unfolding dispatched
  resumed fuel ih start total msg s body bodies packets rest m eq v e short enough =
      go_on (deliver_body p junk s body) eq
    where
      goes : S × Verdict → Type 0
      goes r =
          Delivered
            (carry_on p junk (part_buffer junk body) r
              λ s'. deliver_all p junk s' (bodies ++ all_bodies packets))
            rest (loop p (suc fuel) start total msg s)

      go_on :
          (r : S × Verdict)
          → iterate p start total msg s
            ≡ dispatched p (parts_size bodies + 4) (part_buffer junk body) m r
          → goes r
      go_on (s', handled) e' =
          subst (Delivered (deliver_all p junk s' (bodies ++ all_bodies packets)) rest)
            (sym (loop-again p fuel start total msg s e'))
            (ih (parts_size bodies + 4 == 4) (parts_size bodies + 4) m s' bodies packets rest
              (AtPart-next bodies) v e short enough)
      go_on (s', no_handler) e' = (
        ap (λ f. f.state) (loop-stop p fuel start total msg s e'),
        ap (λ f. f.ending) (loop-stop p fuel start total msg s e'),
      )
      go_on (s', raised x) e' = (
        ap (λ f. f.state) (loop-stop p fuel start total msg s e'),
        ap (λ f. f.ending) (loop-stop p fuel start total msg s e'),
      )
      go_on (s', ran_over) e' = (
        ap (λ f. f.state) (loop-stop p fuel start total msg s e'),
        ap (λ f. f.ending) (loop-stop p fuel start total msg s e'),
      )

  part_shorter :
      (msg m : MessageBuffer) (body : List ℕ) (bodies : List (List ℕ)) (tail : List ℕ)
      → contents msg ≡ encode_parts c (body ∷ bodies) ++ tail
      → contents m ≡ encode_parts c bodies ++ tail
      → size m < size msg
  part_shorter msg m body bodies tail e left = omega (
    arith,
    size-contents msg e,
    size-contents m left,
    length-append {0} (encode_parts c (body ∷ bodies)) tail,
    length-append {0} (encode_parts c bodies) tail,
    length-encode_parts c (body ∷ bodies),
    length-encode_parts c bodies,
  )

  loop_delivers : (fuel : ℕ) → LoopDelivers fuel
  unfolding iterate main_phase
  loop_delivers zero start total msg s bodies packets rest at v e short enough =
      absurd (omega arith)
  loop_delivers (suc fuel) start total msg s [] [] rest at v e short enough =
      let over = loop-stop p fuel start total msg s (
        ap (λ b. iterate p b total msg s) at
        ∙ ap (after_main_key p s)
            (main_phase_short v p.format total (omega (arith, size-contents msg e)))) in
      (ap (λ f. f.state) over, ap (λ f. f.ending) over, ap (λ f. contents f.msg) over ∙ e)
  loop_delivers (suc fuel) start total msg s [] ((body, bodies) ∷ packets) rest at v e short
        enough =
      let (m, eq, left, valid, shorter) =
        iterate_packet msg s total (body, bodies) (encode_all c packets ++ rest) v
          (e ∙ append_assoc (encode c (body, bodies)) (encode_all c packets) rest) in
      resumed fuel (loop_delivers fuel) start total msg s body bodies packets rest m
        (ap (λ b. iterate p b total msg s) at ∙ eq) valid left short (omega arith)
  loop_delivers (suc fuel) start total msg s (body ∷ bodies) packets rest at v e short enough =
      let (m, eq, left, valid) =
        part_step_lem msg s body bodies (encode_all c packets ++ rest) v e in
      resumed fuel (loop_delivers fuel) start total msg s body bodies packets rest m
        (ap₂ (λ b t. iterate p b t msg s) at.0 at.1 ∙ eq) valid left short
        (omega (arith, part_shorter msg m body bodies (encode_all c packets ++ rest) e left))

  -- A valid message that holds whole packets and then less than a header, and a parser that copies
  -- each body out: the parser hands each part to the handler, once and in the order of the message,
  -- until a handler ends it; if none does, it returns true with the bytes behind the last packet
  -- left.
  pub parse_delivers :
      (msg : MessageBuffer) (s : S) (packets : List Packet) (rest : List ℕ)
      → IsValid msg
      → contents msg ≡ encode_all c packets ++ rest
      → length rest < 8
      → Delivered (deliver_all p junk s (all_bodies packets)) rest (parse p msg s)
  unfolding parse size
  parse_delivers msg s packets rest v e short =
      loop_delivers (suc (msg.write_pos - msg.read_pos)) true 0 msg s [] packets rest refl v e short
        (omega arith)
