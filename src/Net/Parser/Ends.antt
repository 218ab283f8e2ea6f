-- ===== src/Net/Parser/Ends.antt =====
-- The ends of the parsers' loop, step by step, for any family of ends that has those of returns and exceptions.
use lobbysvr.Base.{
  ℕ, zero, suc, ◌+◌, ◌-◌, ◌%◌, ◌≤◌, ◌<◌, ◌≡◌, ◌≢◌, refl, sym, ◌∙◌, subst, inl, inr, true, false,
  Bool, List, Option, none, some, arith, Bool-cases, leb→le, length-drop, u32_mod, word32,
}
use lobbysvr.Net.Buffer.{
  MessageBuffer, Outcome, ok, throws, overrun, Exception, size, readable, readable_into, read,
}
use lobbysvr.Net.Buffer.Contents.{IsValid, contents, length-contents, size-contents}
use lobbysvr.Net.Buffer.Reads.{HasRead, read_lem, read_count-read, forget, readable-size}
use lobbysvr.Net.Frame.{Format, header_size}
use lobbysvr.Net.Parser.{
  Parser, Verdict, handled, no_handler, raised, ran_over, Opening, opened, skipped, ended, End,
  returned, threw, overran, Step, again, stop, Flow, go, halt, attempt, ◌>>=◌, check_main,
  look_main, main_phase, check_part, part_phase, packet_code, dispatched, body_phase,
  after_part_key, part_step, after_main_key, iterate, loop, parse, loop-again, loop-stop,
}

-- A read leaves fewer bytes by what it takes.
size-read :
    (msg : MessageBuffer) (n : ℕ) {bytes : List ℕ} {rest : MessageBuffer}
    → HasRead msg n (ok (bytes, rest))
    → size rest ≡ size msg - n
size-read msg n {bytes} {rest} h =
    omega (arith, size-contents rest h.2, length-drop n (contents msg), length-contents msg)

-- A handler's verdict that leads to no other ends than those of `P`.
module _ (P : End → Type 0) where
  abbrev pub VerdictDone : Verdict → Type 0
  VerdictDone handled = Unit {0}
  VerdictDone no_handler = Unit {0}
  VerdictDone (raised e) = Unit {0}
  VerdictDone ran_over = P overran

  pub VerdictDone-all : P overran → (v : Verdict) → VerdictDone v
  VerdictDone-all h handled = tt
  VerdictDone-all h no_handler = tt
  VerdictDone-all h (raised e) = tt
  VerdictDone-all h ran_over = h

  pub VerdictDone-ne : (v : Verdict) → v ≢ ran_over → VerdictDone v
  VerdictDone-ne handled h = tt
  VerdictDone-ne no_handler h = tt
  VerdictDone-ne (raised e) h = tt
  VerdictDone-ne ran_over h = absurd (h refl)

-- An end that is no fault of the loop itself, for a family `P` of ends.
module _ (P : End → Type 0) (normal : (b : Bool) → P (returned b))
    (raising : (e : Exception) → P (threw e)) where
  abbrev MainDone : MessageBuffer → Flow (ℕ × MessageBuffer) → Type 0
  MainDone msg (go (total, rest)) = IsValid rest × (size rest ≤ size msg)
  MainDone msg (halt rest e) = P e

  abbrev PartDone : MessageBuffer → Flow (ℕ × MessageBuffer) → Type 0
  PartDone msg (go (n, rest)) = IsValid rest × (size rest < size msg) × (n ≤ size rest)
  PartDone msg (halt rest e) = P e

  abbrev pub OpenDone : MessageBuffer → Opening → Type 0
  OpenDone msg (opened proc rest) = IsValid rest × (size rest ≤ size msg)
  OpenDone msg (skipped rest) = IsValid rest × (size rest ≤ size msg)
  OpenDone msg (ended rest e) = P e

  abbrev StepDone : {S : Type 0} → MessageBuffer → Step S → Type 0
  StepDone msg (again start total rest s) = IsValid rest × (size rest < size msg)
  StepDone msg (stop rest s e) = P e

  check_main_done :
      (fmt : Format) (word : ℕ) {msg : MessageBuffer}
      → IsValid msg
      → MainDone msg (check_main fmt word msg)
  unfolding check_main
  check_main_done fmt word {msg} v = elim (Bool-cases (fmt.main_ok word)) [
    | inl e ↦ rw e (elim (Bool-cases (readable msg total)) [
      | inl e' ↦ rw (e', read_count-read msg 4) (taken (read msg 4) (read_lem 4 v))
      | inr e' ↦ rw e' (normal true)
    ])
    | inr e ↦ rw e (normal false)
  ]
    where
      total : ℕ
      total = (fmt.main_length word + 4) % u32_mod

      taken :
          (r : Outcome (List ℕ × MessageBuffer))
          → HasRead msg 4 r
          → MainDone msg (attempt msg (forget r) >>= λ rest. go (total, rest))
      taken (ok (bytes, rest)) h = (h.3, omega (arith, size-read msg 4 h))
      taken (throws e) h = raising e
      taken overrun h = absurd h

  main_phase_done :
      (fmt : Format) (start : Bool) (total : ℕ) {msg : MessageBuffer}
      → IsValid msg
      → MainDone msg (main_phase fmt start total msg)
  unfolding main_phase look_main
  main_phase_done fmt false total v = (v, omega arith)
  main_phase_done fmt true total {msg} v = found (readable_into msg header_size)
    where
      found : (r : Option (List ℕ)) → MainDone msg (look_main fmt r msg)
      found none = normal true
      found (some header) = check_main_done fmt (word32 header) v

  check_part_done :
      (fmt : Format) (word : ℕ) (msg : MessageBuffer) {rest : MessageBuffer}
      → IsValid rest
      → size rest < size msg
      → PartDone msg (check_part fmt word rest)
  unfolding check_part
  check_part_done fmt word msg {rest} v h = elim (Bool-cases (fmt.part_ok word)) [
    | inl e ↦ rw e (elim (Bool-cases (readable rest (fmt.part_length word))) [
      | inl e' ↦ rw e' (
        v,
        h,
        leb→le (fmt.part_length word) (size rest)
            (sym (readable-size (fmt.part_length word) v) ∙ e'),
      )
      | inr e' ↦ rw e' (normal false)
    ])
    | inr e ↦ rw e (normal false)
  ]

  part_phase_done :
      (fmt : Format) {msg : MessageBuffer} → IsValid msg → PartDone msg (part_phase fmt msg)
  unfolding part_phase
  part_phase_done fmt {msg} v = found (read msg 4) (read_lem 4 v)
    where
      found :
          (r : Outcome (List ℕ × MessageBuffer))
          → HasRead msg 4 r
          → PartDone msg (attempt msg r >>= λ x. check_part fmt (word32 x.0) x.1)
      found (ok (bytes, rest)) h =
          check_part_done fmt (word32 bytes) msg h.3 (omega (arith, size-read msg 4 h, h.0))
      found (throws e) h = raising e
      found overrun h = absurd h

  module _ {S : Type 0} (p : Parser S)
      (opens : (s : S) (msg : MessageBuffer) (n : ℕ)
        → IsValid msg
        → n ≤ size msg
        → OpenDone msg (p.open_part s msg n).1)
      (delivers : (s : S) (code n : ℕ) (proc : MessageBuffer)
        → VerdictDone P (p.deliver s code n proc).1) where
    dispatched_done :
        (total : ℕ) (msg proc : MessageBuffer) {rest : MessageBuffer} (r : S × Verdict)
        → IsValid rest
        → size rest < size msg
        → VerdictDone P r.1
        → StepDone msg (dispatched p total proc rest r)
    unfolding dispatched
    dispatched_done total msg proc (s, handled) v h d = (v, h)
    dispatched_done total msg proc (s, no_handler) v h d = normal false
    dispatched_done total msg proc (s, raised e) v h d = raising e
    dispatched_done total msg proc (s, ran_over) v h d = d

    body_phase_done :
        (total n : ℕ) (msg m : MessageBuffer) (r : S × Opening)
        → size m < size msg
        → OpenDone m r.1
        → StepDone msg (body_phase p total n r)
    unfolding body_phase
    body_phase_done total n msg m (s, opened proc rest) h (v, le) =
        dispatched_done total msg proc (p.deliver s (packet_code p.code_size proc) n proc) v
          (omega arith) (delivers s (packet_code p.code_size proc) n proc)
    body_phase_done total n msg m (s, skipped rest) h (v, le) = (v, omega arith)
    body_phase_done total n msg m (s, ended rest e) h o = o

    part_step_done :
        (total : ℕ) (msg : MessageBuffer) {m : MessageBuffer} (s : S)
        → IsValid m
        → size m ≤ size msg
        → StepDone msg (part_step p total m s)
    unfolding part_step
    part_step_done total msg {m} s v le = found (part_phase p.format m) (part_phase_done p.format v)
      where
        found :
            (r : Flow (ℕ × MessageBuffer))
            → PartDone m r
            → StepDone msg (after_part_key p total s r)
        found (go (n, rest)) (v', h, fits) =
            body_phase_done _ n msg rest (p.open_part s rest n) (omega arith)
              (opens s rest n v' fits)
        found (halt rest e) h = h

    iterate_done :
        (start : Bool) (total : ℕ) {msg : MessageBuffer} (s : S)
        → IsValid msg
        → StepDone msg (iterate p start total msg s)
    unfolding iterate
    iterate_done start total {msg} s v =
        found (main_phase p.format start total msg) (main_phase_done p.format start total v)
      where
        found :
            (r : Flow (ℕ × MessageBuffer)) → MainDone msg r → StepDone msg (after_main_key p s r)
        found (go (total', rest)) (v', le) = part_step_done total' msg s v' le
        found (halt rest e) h = h

    EndsWith : ℕ → Type 0
    EndsWith fuel =
        (start : Bool) (total : ℕ) (msg : MessageBuffer) (s : S)
        → IsValid msg
        → size msg < fuel
        → P (loop p fuel start total msg s).ending

    loop_done : (fuel : ℕ) → EndsWith fuel
    unfolding EndsWith
    loop_done zero start total msg s v h = absurd (omega arith)
    loop_done (suc fuel) start total msg s v h =
        found (loop_done fuel) (iterate p start total msg s) refl (iterate_done start total s v)
      where
        found :
            EndsWith fuel
            → (r : Step S) → iterate p start total msg s ≡ r
            → StepDone msg r
            → P (loop p (suc fuel) start total msg s).ending
        found ih (again start' total' rest s') e (v', less) =
            subst (λ f. P f.ending) (sym (loop-again p fuel start total msg s e))
              (ih start' total' rest s' v' (omega arith))
        found ih (stop rest s' x) e h' =
            subst (λ f. P f.ending) (sym (loop-stop p fuel start total msg s e)) h'

    pub parse_done : (msg : MessageBuffer) (s : S) → IsValid msg → P (parse p msg s).ending
    unfolding parse EndsWith size
    parse_done msg s v = loop_done (suc (msg.write_pos - msg.read_pos)) true 0 msg s v (omega arith)
