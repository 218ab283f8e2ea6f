-- ===== src/Net/CipherParser/Bodies.antt =====
-- What `packetParser` of net/packetParserSimple.cpp does with the body of one part, before a key exchange and after it.
use lobbysvr.Base.{
  ℕ, ◌+◌, ◌-◌, ◌≤◌, ◌<◌, ◌≡◌, ◌≢◌, refl, ap, ◌∙◌, Bool, true, false, List, ◌++◌, some, arith,
  length, length-append, take, take-length-append, ◌==◌, ne→==, le→leb,
}
use lobbysvr.Net.Memory.{Memory}
use lobbysvr.Net.Buffer.{MessageBuffer, ok, size, new_buffer}
use lobbysvr.Net.Buffer.Contents.{IsValid, contents, size-contents}
use lobbysvr.Net.Buffer.Reads.{readable-size}
use lobbysvr.Net.Parser.{Opening, opened, skipped}
use lobbysvr.Net.Parser.Phases.{part_buffer, read_count_front}
use lobbysvr.Net.CipherParser.{
  CipherInit, CipherDec, Procedure, greeting_type, cipher_of, open_ciphered, init_phase,
  decrypt_part, decrypt_phase, skip_part, taken_part,
}

-- What a cipher's handlers do, as `setCipher` takes them: the first looks at the body and starts the session's key, the
-- second puts what it makes of the body into `procMsg`; both leave the message, which the parser then reads on.
pub record Cipher {S : Type 0} (junk : Memory) (init : CipherInit S) (decrypt : CipherDec S)
    : Type 0 where
  pub started : S → List ℕ → S
  pub decrypted : S → List ℕ → List ℕ
  pub inits :
      (s : S) (n : ℕ) (msg : MessageBuffer)
      → init s n msg ≡ (started s (take n (contents msg)), ok (true, msg))
  pub decrypts :
      (s : S) (n : ℕ) (msg : MessageBuffer)
      → decrypt s n msg (new_buffer junk)
        ≡ (s, ok (msg, part_buffer junk (decrypted s (take n (contents msg)))))
  pub length-decrypted : (s : S) (bytes : List ℕ) → length (decrypted s bytes) ≡ length bytes

take_front :
    (body tail : List ℕ) (m : MessageBuffer)
    → contents m ≡ body ++ tail
    → take (length body) (contents m) ≡ body
take_front body tail m e =
    ap (take (length body)) e ∙ take-length-append body tail (length body) refl

held_some :
    (junk : Memory) (bytes : List ℕ)
    → 0 < length bytes
    → (size (part_buffer junk bytes) == 0) ≡ false
unfolding size
held_some junk bytes h = ne→== (0 + length bytes - 0) 0 (λ e. omega arith)

module _ {S : Type 0} (junk : Memory) (is_sync : S → ℕ → Bool) (procedure : Procedure S)
    {init : CipherInit S} {decrypt : CipherDec S} (cipher : Cipher junk init decrypt) where
  abbrev pub Synced : S → Type 0
  Synced s = is_sync s (cipher_of procedure).enc_type ≡ true

  abbrev open_body : S → MessageBuffer → ℕ → S × Opening
  open_body s m n =
      open_ciphered junk is_sync (cipher_of procedure).enc_type (cipher_of procedure).init
        (cipher_of procedure).decrypt s m n

  pub open_key :
      {m : MessageBuffer} (s : S) (key tail : List ℕ)
      → (cipher_of procedure).init ≡ some init
      → is_sync s (cipher_of procedure).enc_type ≡ false
      → IsValid m
      → contents m ≡ key ++ tail
      → (rest : MessageBuffer) × (open_body s m (length key) ≡ (cipher.started s key, skipped rest))
        × (contents rest ≡ tail)
        × IsValid rest
  unfolding open_ciphered init_phase skip_part
  open_key {m} s key tail has_init unsynced v e =
      let (rest, eq, left, valid) = read_count_front (length key) key tail v refl e in
      let fits : length key ≤ size m =
        omega (arith, size-contents m e, length-append {0} key tail) in
      (
        rest,
        rw
            (
              has_init,
              unsynced,
              cipher.inits s (length key) m,
              take_front key tail m e,
              readable-size (length key) v,
              le→leb (length key) (size m) fits,
              eq,
            )
            refl,
        left,
        valid,
      )

  pub open_secret :
      {m : MessageBuffer} (s : S) (secret tail : List ℕ)
      → (cipher_of procedure).init ≡ some init
      → (cipher_of procedure).decrypt ≡ some decrypt
      → (cipher_of procedure).enc_type ≢ greeting_type
      → Synced s
      → 0 < length secret
      → IsValid m
      → contents m ≡ secret ++ tail
      → (rest : MessageBuffer) × (open_body s m (length secret)
          ≡ (s, opened (part_buffer junk (cipher.decrypted s secret)) rest))
        × (contents rest ≡ tail)
        × IsValid rest
  unfolding open_ciphered decrypt_part decrypt_phase taken_part
  open_secret {m} s secret tail has_init has_dec ciphered synced long v e =
      let (rest, eq, left, valid) = read_count_front (length secret) secret tail v refl e in
      (
        rest,
        rw
            (
              has_init,
              has_dec,
              synced,
              ne→== (cipher_of procedure).enc_type greeting_type ciphered,
              cipher.decrypts s (length secret) m,
              take_front secret tail m e,
              eq,
              held_some junk (cipher.decrypted s secret)
                  (omega (arith, cipher.length-decrypted s secret)),
            )
            refl,
        left,
        valid,
      )
