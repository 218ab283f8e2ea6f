-- ===== src/Net/Parser/Endings.antt =====
-- How the parsers' loop can end, on any message: it does end, and it copies within the arrays.
use lobbysvr.Base.{
  ℕ, ◌≤◌, ◌≡◌, ◌≢◌, sym, ap, ◌∙◌, subst, Bool, arith, length, take, drop, take-append-drop,
  length-drop, length-take,
}
use lobbysvr.Net.Memory.{Memory}
use lobbysvr.Net.Buffer.{MessageBuffer, Exception, size}
use lobbysvr.Net.Buffer.Contents.{IsValid, contents, length-contents, size-contents}
use lobbysvr.Net.Parser.{
  Parser, ran_over, End, returned, threw, overran, out_of_fuel, parse, copy_part,
}
use lobbysvr.Net.Parser.Ends.{VerdictDone, VerdictDone-ne, VerdictDone-all, OpenDone, parse_done}
use lobbysvr.Net.Parser.Phases.{copy_part_lem}

module _ (P : End → Type 0) (normal : (b : Bool) → P (returned b))
    (raising : (e : Exception) → P (threw e)) where
  -- A part's body that is there is copied, within the array of the buffer that it goes to.
  pub copy_part_done :
      (junk : Memory) (msg : MessageBuffer) (n : ℕ)
      → IsValid msg
      → n ≤ size msg
      → OpenDone P normal raising msg (copy_part junk msg n)
  copy_part_done junk msg n v h =
      let (rest, eq, left, valid) =
        copy_part_lem junk (take n (contents msg)) (drop n (contents msg)) v
          (sym (take-append-drop n (contents msg))) in
      subst (OpenDone P normal raising msg) (sym (ap (copy_part junk msg) sized ∙ eq)) (
        valid,
        omega (arith, size-contents rest left, length-drop n (contents msg), length-contents msg),
      )
    where
      sized : n ≡ length (take n (contents msg))
      sized = omega (arith, length-take n (contents msg), length-contents msg)

-- A parser that copies each part's body out of the message, whatever format it reads and whatever
-- its handlers do.
pub record CopiesParts {S : Type 0} (p : Parser S) (junk : Memory) : Type 0 where
  pub copies :
      (s : S) (msg : MessageBuffer) (n : ℕ) → p.open_part s msg n ≡ (s, copy_part junk msg n)

module _ {S : Type 0} (p : Parser S) (junk : Memory) (k : CopiesParts p junk) where
  ends :
      (P : End → Type 0)
      → ((b : Bool) → P (returned b))
      → ((e : Exception) → P (threw e))
      → ((s : S) (code n : ℕ) (proc : MessageBuffer) → VerdictDone P (p.deliver s code n proc).1)
      → (msg : MessageBuffer) (s : S) → IsValid msg
      → P (parse p msg s).ending
  ends P normal raising delivers =
      parse_done P normal raising p
        (λ s m n v h. rw (k.copies s m n) (copy_part_done P normal raising junk m n v h)) delivers

  -- The loop of a parser that copies each body out comes to an end on every valid message, of
  -- whatever bytes: the bytes that it holds are enough fuel.
  pub parse_terminates :
      (msg : MessageBuffer) (s : S) → IsValid msg → (parse p msg s).ending ≢ out_of_fuel
  parse_terminates =
      ends (λ e. e ≢ out_of_fuel) (λ b e. cc) (λ x e. cc)
        λ s code n proc.
          VerdictDone-all (λ e. e ≢ out_of_fuel) (λ e. cc) (p.deliver s code n proc).1

  -- On a valid message of whatever bytes a parser that copies each body out never copies past the
  -- end of an array, if no handler does.
  pub parse_in_bounds :
      ((s : S) (code n : ℕ) (proc : MessageBuffer) → (p.deliver s code n proc).1 ≢ ran_over)
      → (msg : MessageBuffer) (s : S) → IsValid msg
      → (parse p msg s).ending ≢ overran
  parse_in_bounds h =
      ends (λ e. e ≢ overran) (λ b e. cc) (λ x e. cc)
        λ s code n proc.
          VerdictDone-ne (λ e. e ≢ overran) (p.deliver s code n proc).1 (h s code n proc)
