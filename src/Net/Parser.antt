-- ===== src/Net/Parser.antt =====
-- The packet parsers' loop. All parsers of net/packetParserSimple.cpp and
-- lobbysvr/packetParserJson.cpp have this loop; they differ in how the header's words are read
-- (`Format`), in how a part's body is taken out of the message (`open_part`), in the width of the
-- packet code, and in who gets the part (`deliver`).
pub mod Phases
pub mod Spec
pub mod Delivery
pub mod Ends
pub mod Endings
pub mod Malformed
use lobbysvr.Base.{
  ℕ, zero, suc, ◌+◌, ◌-◌, ◌%◌, ◌≡◌, refl, Bool, true, false, List, Option, none, some, ◌==◌,
  if◌then◌else◌, word32, u32_mod,
}
use lobbysvr.Net.Memory.{Memory}
use lobbysvr.Net.Buffer.{
  MessageBuffer, Exception, Outcome, ok, throws, overrun, readable, readable_into, read, read_count,
  read_all, read_into, write_count, new_buffer,
}
use lobbysvr.Net.Frame.{Format, header_size}

-- How the parser ends: by a `return`, by an exception that nothing in it catches, or by a copy past
-- the end of an array, or by an `assert`. `out_of_fuel` stands for a loop that does not end.
pub data End : Type 0 where
  returned : Bool → End
  threw : Exception → End
  overran aborted out_of_fuel : End

-- What the handler of a part did.
pub data Verdict : Type 0 where
  handled no_handler : Verdict
  raised : Exception → Verdict
  ran_over : Verdict

-- What becomes of a part's body: a buffer `procMsg` to dispatch and the message behind the body; or
-- `continue`; or the end of the loop.
pub data Opening : Type 0 where
  opened : MessageBuffer → MessageBuffer → Opening
  skipped : MessageBuffer → Opening
  ended : MessageBuffer → End → Opening

-- A parser over the state `S` of the connection and of the handlers.
pub record Parser (S : Type 0) : Type 0 where
  pub format : Format
  pub code_size : ℕ
  pub open_part : S → MessageBuffer → ℕ → S × Opening
  pub deliver : S → ℕ → ℕ → MessageBuffer → S × Verdict
  pub on_no_handler : S → MessageBuffer → S

pub data Flow {ℓ} (A : Type ℓ) : Type ℓ where
  go : A → Flow A
  halt : MessageBuffer → End → Flow A

-- A call on `msg` that may throw, as a step of the parser.
abbrev pub attempt {ℓ} : {A : Type ℓ} → MessageBuffer → Outcome A → Flow A
attempt msg (ok a) = go a
attempt msg (throws e) = halt msg (threw e)
attempt msg overrun = halt msg overran

infixl 5 ◌>>=◌
abbrev pub ◌>>=◌ {ℓ κ} : {A : Type ℓ} {B : Type κ} → Flow A → (A → Flow B) → Flow B
go a >>= f = f a
halt msg e >>= f = halt msg e

-- The main key has been looked at: its test, the packet's size, and the four bytes taken.
unfoldable pub check_main : Format → ℕ → MessageBuffer → Flow (ℕ × MessageBuffer)
check_main fmt word msg =
    let total_size = (fmt.main_length word + 4) % u32_mod in
    if fmt.main_ok word
    then (if readable msg total_size
        then (attempt msg (read_count msg 4) >>= λ rest. go (total_size, rest))
        else halt msg (returned true))
    else halt (read_all msg) (returned false)

look_main : Format → Option (List ℕ) → MessageBuffer → Flow (ℕ × MessageBuffer)
look_main fmt none msg = halt msg (returned true)
look_main fmt (some header) msg = check_main fmt (word32 header) msg

-- `if (true == readStartFromMainKey) { … }`
unfoldable pub main_phase : Format → Bool → ℕ → MessageBuffer → Flow (ℕ × MessageBuffer)
unfolding look_main
main_phase fmt true total_size msg = look_main fmt (readable_into msg header_size) msg
main_phase fmt false total_size msg = go (total_size, msg)

-- The part key: four bytes taken, the test, and that the body is there.
unfoldable pub check_part : Format → ℕ → MessageBuffer → Flow (ℕ × MessageBuffer)
check_part fmt word msg =
    if fmt.part_ok word
    then (if readable msg (fmt.part_length word)
        then go (fmt.part_length word, msg)
        else halt (read_all msg) (returned false))
    else halt (read_all msg) (returned false)

unfoldable pub part_phase : Format → MessageBuffer → Flow (ℕ × MessageBuffer)
part_phase fmt msg = do (bytes, rest) ← attempt msg (read msg 4); check_part fmt (word32 bytes) rest

-- `packetCode`, which stays 0 where the body is shorter than the code.
unfoldable pub code_of : Option (List ℕ) → ℕ
code_of (some bytes) = word32 bytes
code_of none = 0

unfoldable pub packet_code : ℕ → MessageBuffer → ℕ
unfolding code_of
packet_code code_size proc = code_of (readable_into proc code_size)

-- One pass of the loop: it goes on with these values of `readStartFromMainKey`, `total_size`, the
-- message and the state, or ends.
pub data Step (S : Type 0) : Type 0 where
  again : Bool → ℕ → MessageBuffer → S → Step S
  stop : MessageBuffer → S → End → Step S

module _ {S : Type 0} (p : Parser S) where
  unfoldable pub dispatched : ℕ → MessageBuffer → MessageBuffer → S × Verdict → Step S
  dispatched total_size proc msg (s, handled) = again (total_size == 4) total_size msg s
  dispatched total_size proc msg (s, no_handler) =
      stop (read_all msg) (p.on_no_handler s proc) (returned false)
  dispatched total_size proc msg (s, raised e) = stop msg s (threw e)
  dispatched total_size proc msg (s, ran_over) = stop msg s overran

  unfoldable pub body_phase : ℕ → ℕ → S × Opening → Step S
  body_phase total_size part_body_size (s, opened proc msg) =
      dispatched total_size proc msg
        (p.deliver s (packet_code p.code_size proc) part_body_size proc)
  body_phase total_size part_body_size (s, skipped msg) = again (total_size == 4) total_size msg s
  body_phase total_size part_body_size (s, ended msg e) = stop msg s e

  -- From the part key on. `total_size -= part_size` wraps, as `uint32_t` does.
  unfoldable pub after_part_key : ℕ → S → Flow (ℕ × MessageBuffer) → Step S
  after_part_key total_size s (go (part_body_size, msg)) =
      let part_size : ℕ = (part_body_size + 4) % u32_mod in
      body_phase ((total_size + u32_mod - part_size) % u32_mod) part_body_size
        (p.open_part s msg part_body_size)
  after_part_key total_size s (halt msg e) = stop msg s e

  unfoldable pub part_step : ℕ → MessageBuffer → S → Step S
  unfolding after_part_key
  part_step total_size msg s = after_part_key total_size s (part_phase p.format msg)

  unfoldable pub after_main_key : S → Flow (ℕ × MessageBuffer) → Step S
  after_main_key s (go (total_size, msg)) = part_step total_size msg s
  after_main_key s (halt msg e) = stop msg s e

  unfoldable pub iterate : Bool → ℕ → MessageBuffer → S → Step S
  unfolding after_main_key
  iterate start total_size msg s = after_main_key s (main_phase p.format start total_size msg)

pub record Finish (S : Type 0) : Type 0 where
  pub msg : MessageBuffer
  pub state : S
  pub ending : End

module _ {S : Type 0} (p : Parser S) where
  -- `do { … } while (true)`, on fuel.
  unfoldable pub loop : ℕ → Bool → ℕ → MessageBuffer → S → Finish S
  loop zero start total_size msg s = record { msg = msg; state = s; ending = out_of_fuel }
  loop (suc fuel) start total_size msg s = elim (iterate p start total_size msg s) [
    | again start' total' msg' s' ↦ loop fuel start' total' msg' s'
    | stop msg' s' e ↦ record { msg = msg'; state = s'; ending = e }
  ]

  -- A pass that goes on has taken a part key, four bytes, so the bytes held are enough fuel.
  unfoldable pub parse : MessageBuffer → S → Finish S
  parse msg s = loop (suc (msg.write_pos - msg.read_pos)) true 0 msg s

module _ {S : Type 0} (p : Parser S) (fuel : ℕ) (start : Bool) (total_size : ℕ)
    (msg : MessageBuffer) (s : S) where
  pub loop-again :
      {start' : Bool} {total' : ℕ} {msg' : MessageBuffer} {s' : S}
      → iterate p start total_size msg s ≡ again start' total' msg' s'
      → loop p (suc fuel) start total_size msg s ≡ loop p fuel start' total' msg' s'
  unfolding loop
  loop-again e = rw (loop, e)

  pub loop-stop :
      {msg' : MessageBuffer} {s' : S} {e : End}
      → iterate p start total_size msg s ≡ stop msg' s' e
      → loop p (suc fuel) start total_size msg s ≡ record { msg = msg'; state = s'; ending = e }
  unfolding loop
  loop-stop e = rw (loop, e)

-- `MessageBuffer procMsg; msg->read(procMsg.enableBuffer(), n); procMsg.write(n);` over the memory
-- that the local variable is given.
opened_with : MessageBuffer → Outcome MessageBuffer → Opening
opened_with msg (ok proc) = opened proc msg
opened_with msg (throws e) = ended msg (threw e)
opened_with msg overrun = ended msg overran

copied_with : MessageBuffer → ℕ → Outcome (MessageBuffer × MessageBuffer) → Opening
unfolding opened_with
copied_with msg part_body_size (ok (rest, proc)) =
    opened_with rest (write_count proc part_body_size)
copied_with msg part_body_size (throws e) = ended msg (threw e)
copied_with msg part_body_size overrun = ended msg overran

unfoldable pub copy_part : Memory → MessageBuffer → ℕ → Opening
unfolding copied_with
copy_part junk msg part_body_size =
    copied_with msg part_body_size (read_into msg (new_buffer junk) part_body_size)
