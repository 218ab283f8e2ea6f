-- ===== src/Base/Words.antt =====
-- Machine words as native numbers, and their little-endian bytes (the program reads and writes
-- words by `memcpy` on a little-endian host).
use Prim.Native.Nat.{ℕ, ◌+◌, ◌*◌, ◌/◌, ◌%◌, ◌<◌}
use mathlib.Core.Path.{◌≡◌, refl}
use mathlib.Core.List.{List, [], ◌∷◌, ◌++◌}
use native.Mathlib.Omega.{arith}
use lobbysvr.Base.Lists.{length, get_or}

abbrev pub u16_mod : ℕ
u16_mod = 65536

abbrev pub u32_mod : ℕ
u32_mod = 4294967296

-- The bytes of a 16-bit and of a 32-bit word in memory.
unfoldable pub le16 : ℕ → List ℕ
le16 n = (n % 256) ∷ (n / 256 % 256) ∷ []

unfoldable pub le32 : ℕ → List ℕ
le32 n = (n % 256) ∷ (n / 256 % 256) ∷ (n / 65536 % 256) ∷ (n / 16777216 % 256) ∷ []

-- The words that stand at the head of some bytes; a missing byte reads as 0.
unfoldable pub word16 : List ℕ → ℕ
word16 bs = get_or bs 0 0 + 256 * get_or bs 1 0

unfoldable pub word32 : List ℕ → ℕ
word32 bs = get_or bs 0 0 + 256 * get_or bs 1 0 + 65536 * get_or bs 2 0 + 16777216 * get_or bs 3 0

pub length-le16 : (n : ℕ) → length (le16 n) ≡ 2
unfolding le16
length-le16 n = refl

pub length-le32 : (n : ℕ) → length (le32 n) ≡ 4
unfolding le32
length-le32 n = refl

pub word16-le16 : (n : ℕ) (bs : List ℕ) → n < u16_mod → word16 (le16 n ++ bs) ≡ n
unfolding le16 word16
word16-le16 n bs h = omega arith

pub word32-le32 : (n : ℕ) (bs : List ℕ) → n < u32_mod → word32 (le32 n ++ bs) ≡ n
unfolding le32 word32
word32-le32 n bs h = omega arith
