-- ===== src/Net/CipherParser/Handshake.antt =====
-- What `packetParser` of net/packetParserSimple.cpp does with a key exchange and with what is sent after it.
use lobbysvr.Base.{
  ℕ, zero, suc, ◌+◌, ◌-◌, ◌%◌, ◌≤◌, ◌<◌, ◌≡◌, ◌≢◌, refl, ap, ◌∙◌, Bool, true, false, List, [], ◌∷◌,
  ◌++◌, some, arith, length, length-append, append_assoc, append-nil, le32, length-le32, u32_mod,
  ◌==◌,
}
use lobbysvr.Net.Memory.{Memory}
use lobbysvr.Net.Buffer.{MessageBuffer, max_buffer_size, size}
use lobbysvr.Net.Buffer.Contents.{IsValid, contents, size-contents, size-le}
use lobbysvr.Net.Frame.Codec.{keyed_codec, encode}
use lobbysvr.Net.Parser.{
  Parser, Verdict, handled, returned, again, packet_code, dispatched, body_phase, part_step,
  after_part_key, after_main_key, iterate, main_phase, loop, parse, loop-again, loop-stop,
}
use lobbysvr.Net.Parser.Phases.{main_phase_short, main_phase_packet, part_phase_part, part_buffer}
use lobbysvr.Net.Dispatch.{find_handler}
use lobbysvr.Net.SimpleParser.{call_handler}
use lobbysvr.Net.CipherParser.Bodies.{Cipher, Synced, open_key, open_secret}
use lobbysvr.Net.CipherParser.{
  CipherInit, CipherDec, Procedure, greeting_type, cipher_of, cipher_parser, packet_parser,
}

-- One-part packets with these bodies.
abbrev pub packets : List (List ℕ) → List ℕ
packets [] = []
packets (body ∷ bodies) = encode keyed_codec (body, []) ++ packets bodies

total_left :
    (n : ℕ) → n ≤ max_buffer_size → (4 + n + 0 + 4 + u32_mod - (n + 4) % u32_mod) % u32_mod ≡ 4
total_left n h = omega arith

-- A pass over a packet of one part, up to what is done with its body.
one_part :
    {S : Type 0} (p : Parser S) {msg : MessageBuffer} (s : S) (total : ℕ) (body tail : List ℕ)
    → p.format ≡ keyed_codec.format
    → IsValid msg
    → contents msg ≡ encode keyed_codec (body, []) ++ tail
    → (m : MessageBuffer) × (iterate p true total msg s
        ≡ body_phase p 4 (length body) (p.open_part s m (length body)))
      × (contents m ≡ body ++ tail)
      × IsValid m
      × (size m + 8 ≡ size msg)
unfolding iterate part_step after_part_key
one_part {S} p {msg} s total body tail same v e =
    let (m, eq, left, valid) =
      main_phase_packet v keyed_codec total n (part ++ (body ++ tail)) (e ∙ split) (omega arith)
        (omega (arith, parts, length-append {0} body tail)) in
    let (m', eq', left', valid') =
      part_phase_part valid keyed_codec (length body) (body ++ tail) left
        (omega (arith, length-append {0} body tail)) in
    (
      m',
      ap (λ fmt. after_main_key p s (main_phase fmt true total msg)) same
          ∙ ap (after_main_key p s) eq
          ∙ rw (same, eq', total_left (length body) small) refl,
      left',
      valid',
      omega (arith, size-contents msg (e ∙ split), size-contents m' left', whole, parts),
    )
  where
    n : ℕ
    n = 4 + length body + 0

    part : List ℕ
    part = le32 (keyed_codec.make_part (length body))

    split :
        encode keyed_codec (body, []) ++ tail
        ≡ le32 (keyed_codec.make_main n) ++ (part ++ (body ++ tail))
    split =
        ap (λ b. (le32 (keyed_codec.make_main n) ++ (part ++ b)) ++ tail) (append-nil body)
        ∙ append_assoc (le32 (keyed_codec.make_main n)) (part ++ body) tail
        ∙ ap (λ t. le32 (keyed_codec.make_main n) ++ t) (append_assoc part body tail)

    parts : length (part ++ (body ++ tail)) ≡ 4 + length (body ++ tail)
    parts = omega (
      arith,
      length-append {0} part (body ++ tail),
      length-le32 (keyed_codec.make_part (length body)),
    )

    whole :
        length (le32 (keyed_codec.make_main n) ++ (part ++ (body ++ tail)))
        ≡ 4 + length (part ++ (body ++ tail))
    whole = omega (
      arith,
      length-append {0} (le32 (keyed_codec.make_main n)) (part ++ (body ++ tail)),
      length-le32 (keyed_codec.make_main n),
    )

    small : length body ≤ max_buffer_size
    small =
        omega (
          arith,
          size-le v,
          size-contents msg (e ∙ split),
          whole,
          parts,
          length-append {0} body tail,
        )

dispatched-handled :
    {S : Type 0} (p : Parser S) (total : ℕ) (proc m : MessageBuffer) (r : S × Verdict)
    → r.1 ≡ handled
    → dispatched p total proc m r ≡ again (total == 4) total m r.0
unfolding dispatched
dispatched-handled p total proc m (s, handled) e = refl
dispatched-handled p total proc m (s, Verdict.no_handler) e = cc
dispatched-handled p total proc m (s, Verdict.raised x) e = cc
dispatched-handled p total proc m (s, Verdict.ran_over) e = cc

module _ {S : Type 0} (junk : Memory) (is_sync : S → ℕ → Bool) (procedure : Procedure S)
    (on_no_handler : S → MessageBuffer → S) {init : CipherInit S} {decrypt : CipherDec S}
    (cipher : Cipher junk init decrypt) where
  parser : Parser S
  parser = cipher_parser junk is_sync procedure on_no_handler

  -- The call of the packet's handler for an encrypted body.
  abbrev pub deliver_secret : S → List ℕ → S × Verdict
  deliver_secret s secret =
      let proc = part_buffer junk (cipher.decrypted s secret) in
      call_handler (find_handler procedure (packet_code 4 proc)) s (length secret) proc

  abbrev pub deliver_secrets : S → List (List ℕ) → S
  deliver_secrets s [] = s
  deliver_secrets s (secret ∷ secrets) = deliver_secrets (deliver_secret s secret).0 secrets

  -- A body of a session that has no key yet goes to the init handler and is passed over.
  key_pass :
      {msg : MessageBuffer} (s : S) (total : ℕ) (key tail : List ℕ)
      → (cipher_of procedure).init ≡ some init
      → is_sync s (cipher_of procedure).enc_type ≡ false
      → IsValid msg
      → contents msg ≡ encode keyed_codec (key, []) ++ tail
      → (m : MessageBuffer) × (iterate parser true total msg s
          ≡ again true 4 m (cipher.started s key))
        × (contents m ≡ tail)
        × IsValid m
        × (8 + size m ≤ size msg)
  unfolding parser body_phase
  key_pass {msg} s total key tail has_init unsynced v e =
      let (m, eq, left, valid, sized) = one_part parser s total key tail refl v e in
      let (rest, eq', left', valid') =
        open_key junk is_sync procedure cipher s key tail has_init unsynced valid left in
      (
        rest,
        eq ∙ ap (body_phase parser 4 (length key)) eq',
        left',
        valid',
        omega (
          arith,
          sized,
          size-contents m left,
          size-contents rest left',
          length-append {0} key tail,
        ),
      )

  -- A body of a session that has a key is decrypted and handed over.
  secret_pass :
      {msg : MessageBuffer} (s : S) (total : ℕ) (secret tail : List ℕ)
      → (cipher_of procedure).init ≡ some init
      → (cipher_of procedure).decrypt ≡ some decrypt
      → (cipher_of procedure).enc_type ≢ greeting_type
      → Synced junk is_sync procedure cipher s
      → 0 < length secret
      → (deliver_secret s secret).1 ≡ handled
      → IsValid msg
      → contents msg ≡ encode keyed_codec (secret, []) ++ tail
      → (m : MessageBuffer) × (iterate parser true total msg s
          ≡ again true 4 m (deliver_secret s secret).0)
        × (contents m ≡ tail)
        × IsValid m
        × (8 + size m ≤ size msg)
  unfolding parser body_phase
  secret_pass {msg} s total secret tail has_init has_dec ciphered synced long taken v e =
      let (m, eq, left, valid, sized) = one_part parser s total secret tail refl v e in
      let (rest, eq', left', valid') =
        open_secret junk is_sync procedure cipher s secret tail has_init has_dec ciphered synced
          long valid left in
      (
        rest,
        eq
            ∙ ap (body_phase parser 4 (length secret)) eq'
            ∙ dispatched-handled parser 4 (part_buffer junk (cipher.decrypted s secret)) rest
                (deliver_secret s secret) taken,
        left',
        valid',
        omega (
          arith,
          sized,
          size-contents m left,
          size-contents rest left',
          length-append {0} secret tail,
        ),
      )

  -- Each body has bytes and comes while there is a key, and its packet's handler takes it.
  abbrev pub AreTaken : S → List (List ℕ) → Type 0
  AreTaken s [] = Unit {0}
  AreTaken s (secret ∷ secrets) =
      Synced junk is_sync procedure cipher s
      × (0 < length secret)
      × ((deliver_secret s secret).1 ≡ handled)
      × AreTaken (deliver_secret s secret).0 secrets

  module _ (has_init : (cipher_of procedure).init ≡ some init)
      (has_dec : (cipher_of procedure).decrypt ≡ some decrypt)
      (ciphered : (cipher_of procedure).enc_type ≢ greeting_type) where
    loop-secrets :
        (fuel total : ℕ) {msg : MessageBuffer} (s : S) (secrets : List (List ℕ)) (rest : List ℕ)
        → AreTaken s secrets
        → IsValid msg
        → contents msg ≡ packets secrets ++ rest
        → length rest < 8
        → size msg < fuel
        → let f = loop parser fuel true total msg s in
          (f.state ≡ deliver_secrets s secrets)
          × (f.ending ≡ returned true)
          × (contents f.msg ≡ rest)
    unfolding parser iterate
    loop-secrets zero total s secrets rest taken v e short enough = absurd (omega arith)
    loop-secrets (suc fuel) total {msg} s [] rest taken v e short enough =
        let over = loop-stop parser fuel true total msg s (
          ap (after_main_key parser s)
            (main_phase_short v keyed_codec.format total (omega (arith, size-contents msg e)))) in
        (ap (λ f. f.state) over, ap (λ f. f.ending) over, ap (λ f. contents f.msg) over ∙ e)
    loop-secrets (suc fuel) total {msg} s (secret ∷ secrets) rest (synced, long, taken, later) v e
          short enough =
        let (m, eq, left, valid, shorter) =
          secret_pass s total secret (packets secrets ++ rest) has_init has_dec ciphered synced long
            taken v (e ∙ append_assoc (encode keyed_codec (secret, [])) (packets secrets) rest) in
        let next = loop-again parser fuel true total msg s eq in
        let (state, ending, held) =
          loop-secrets fuel 4 (deliver_secret s secret).0 secrets rest later valid left short
            (omega (arith, shorter)) in
        (
          ap (λ f. f.state) next ∙ state,
          ap (λ f. f.ending) next ∙ ending,
          ap (λ f. contents f.msg) next ∙ held,
        )

    -- A valid message with a key exchange of a connection that has no key, then packets with one encrypted part
    -- each, none empty, and then less than a header: the exchange goes to the init handler alone, each part after it is
    -- decrypted and handed to its packet's handler, once and in order, and the parser returns true with the bytes behind
    -- the last packet left. The procedure has a cipher other than GREETING with both handlers, which leave the message
    -- and keep the length; there is a key when each part comes, and its packet's handler takes it.
    pub packet_parser-handshake :
        (msg : MessageBuffer) (s : S) (key : List ℕ) (secrets : List (List ℕ)) (rest : List ℕ)
        → is_sync s (cipher_of procedure).enc_type ≡ false
        → AreTaken (cipher.started s key) secrets
        → IsValid msg
        → contents msg ≡ encode keyed_codec (key, []) ++ (packets secrets ++ rest)
        → length rest < 8
        → let f = packet_parser junk is_sync procedure on_no_handler msg s in
          (f.state ≡ deliver_secrets (cipher.started s key) secrets)
          × (f.ending ≡ returned true)
          × (contents f.msg ≡ rest)
    unfolding packet_parser parse parser size
    packet_parser-handshake msg s key secrets rest unsynced taken v e short =
        let (m, eq, left, valid, shorter) =
          key_pass s 0 key (packets secrets ++ rest) has_init unsynced v e in
        let next = loop-again parser (msg.write_pos - msg.read_pos) true 0 msg s eq in
        let (state, ending, held) =
          loop-secrets (msg.write_pos - msg.read_pos) 4 (cipher.started s key) secrets rest taken
            valid left short (omega (arith, shorter)) in
        (
          ap (λ f. f.state) next ∙ state,
          ap (λ f. f.ending) next ∙ ending,
          ap (λ f. contents f.msg) next ∙ held,
        )
