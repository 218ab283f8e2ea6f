-- ===== src/Net/Memory.antt =====
-- Bytes at addresses, and `memcpy` in and out of them: what the message buffers of
-- net/messageBuffer.cpp stand on. An address counts from the start of one `_buffer`.
use lobbysvr.Base.{
  ℕ, zero, suc, ◌+◌, ◌-◌, ◌≤◌, ◌<◌, ◌≡◌, refl, ap, ap₂, ◌∙◌, List, [], ◌∷◌, ◌++◌, arith,
  if◌then◌else◌, ◌==◌, length, take, drop,
}

abbrev pub Memory : Type 0
Memory = ℕ → ℕ

-- `memcpy(a, xs, length xs)`.
unfoldable pub poke : Memory → ℕ → List ℕ → Memory
poke m a [] k = m k
poke m a (x ∷ xs) k = if k == a then x else poke m (a + 1) xs k

-- The `n` bytes from address `a` on.
unfoldable pub peek : Memory → ℕ → ℕ → List ℕ
peek m a zero = []
peek m a (suc n) = m a ∷ peek m (a + 1) n

pub length-peek : (m : Memory) (a n : ℕ) → length (peek m a n) ≡ n
unfolding peek
length-peek m a zero = refl
length-peek m a (suc n) = ap suc (length-peek m (a + 1) n)

-- Memory that agrees on a range gives the same bytes.
pub peek-eq :
    (m m' : Memory) (a a' n : ℕ)
    → ((i : ℕ) → i < n → m (a + i) ≡ m' (a' + i))
    → peek m a n ≡ peek m' a' n
unfolding peek
peek-eq m m' a a' zero h = refl
peek-eq m m' a a' (suc n) h =
    ap₂ ◌∷◌ (ap m (omega arith) ∙ h 0 (omega arith) ∙ ap m' (omega arith)) (
      peek-eq m m' (a + 1) (a' + 1) n
        λ i lt. ap m (omega arith) ∙ h (suc i) (omega arith) ∙ ap m' (omega arith))

pub poke-below : (m : Memory) (a : ℕ) (xs : List ℕ) (k : ℕ) → k < a → poke m a xs k ≡ m k
unfolding poke
poke-below m a [] k h = refl
poke-below m a (x ∷ xs) k h = ground (arith, poke-below m (a + 1) xs k)

pub peek-poke_below :
    (m : Memory) (a n b : ℕ) (xs : List ℕ) → a + n ≤ b → peek (poke m b xs) a n ≡ peek m a n
peek-poke_below m a n b xs h =
    peek-eq (poke m b xs) m a a n λ i lt. poke-below m b xs (a + i) (omega arith)

-- What was copied in is read back.
pub peek-poke : (m : Memory) (a : ℕ) (xs : List ℕ) → peek (poke m a xs) a (length xs) ≡ xs
unfolding peek poke
peek-poke m a [] = refl
peek-poke m a (x ∷ xs) = ap₂ ◌∷◌ (ground arith) (
    peek-eq (poke m a (x ∷ xs)) (poke m (a + 1) xs) (a + 1) (a + 1) (length xs)
      (λ i lt. ground arith)
    ∙ peek-poke m (a + 1) xs)

pub peek-add : (m : Memory) (a n k : ℕ) → peek m a (n + k) ≡ peek m a n ++ peek m (a + n) k
unfolding peek
peek-add m a zero k = ap₂ (peek m) (omega arith) (omega arith)
peek-add m a (suc n) k =
    ap (peek m a) step
    ∙ ap (◌∷◌ (m a))
        (peek-add m (a + 1) n k ∙ ap (λ c. peek m (a + 1) n ++ peek m c k) (omega arith))
  where
    step : suc n + k ≡ suc (n + k)
    step = omega arith

pub take-peek : (m : Memory) (a k n : ℕ) → k ≤ n → take k (peek m a n) ≡ peek m a k
unfolding peek
take-peek m a zero n h = refl
take-peek m a (suc k) zero h = absurd (omega arith)
take-peek m a (suc k) (suc n) h = ap (◌∷◌ (m a)) (take-peek m (a + 1) k n (omega arith))

pub drop-peek : (m : Memory) (a k n : ℕ) → k ≤ n → drop k (peek m a n) ≡ peek m (a + k) (n - k)
unfolding peek
drop-peek m a zero n h = ap₂ (peek m) (omega arith) (omega arith)
drop-peek m a (suc k) zero h = absurd (omega arith)
drop-peek m a (suc k) (suc n) h =
    drop-peek m (a + 1) k n (omega arith) ∙ ap₂ (peek m) (omega arith) (omega arith)

-- Copying after a range extends what the range holds.
pub peek-poke_append :
    (m : Memory) (a n : ℕ) (xs : List ℕ)
    → peek (poke m (a + n) xs) a (n + length xs) ≡ peek m a n ++ xs
peek-poke_append m a n xs =
    peek-add (poke m (a + n) xs) a n (length xs)
    ∙ ap₂ ◌++◌ (peek-poke_below m a n (a + n) xs (omega arith)) (peek-poke m (a + n) xs)

pub peek-empty : (m : Memory) (a n : ℕ) → n ≡ 0 → peek m a n ≡ []
unfolding peek
peek-empty m a zero e = refl
peek-empty m a (suc n) e = absurd (omega arith)

pub peek-poke_exact :
    (m : Memory) (a n : ℕ) (xs : List ℕ) → n ≡ length xs → peek (poke m a xs) a n ≡ xs
peek-poke_exact m a n xs e = ap (peek (poke m a xs) a) e ∙ peek-poke m a xs

pub poke-above :
    (m : Memory) (a : ℕ) (xs : List ℕ) (k : ℕ) → a + length xs ≤ k → poke m a xs k ≡ m k
unfolding poke
poke-above m a [] k h = refl
poke-above m a (x ∷ xs) k h = ground (arith, poke-above m (a + 1) xs k)

pub peek-poke_above :
    (m : Memory) (a n b : ℕ) (xs : List ℕ) → b + length xs ≤ a → peek (poke m b xs) a n ≡ peek m a n
peek-poke_above m a n b xs h =
    peek-eq (poke m b xs) m a a n λ i lt. poke-above m b xs (a + i) (omega arith)
