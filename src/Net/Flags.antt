-- ===== src/Net/Flags.antt =====
-- `flag_checker` of net/flagChecker.h: up to 64 flags in one word.
mod Tests
use lobbysvr.Base.{
  ℕ, zero, suc, ◌+◌, ◌-◌, ◌/◌, ◌%◌, ◌^◌, ◌<◌, ◌≡◌, refl, Bool, false, List, [], ◌∷◌, arith, not,
  ◌==◌, ◌||◌,
}

abbrev pub word : ℕ
word = 18446744073709551616

-- `getFlagValue`, for a flag below 64.
unfoldable pub get_flag_value : ℕ → ℕ
get_flag_value flag = 2 ^ flag

-- A bit of a word, as `&` with a power of two tests it.
unfoldable pub bit : ℕ → ℕ → ℕ
bit zero m = m % 2
bit (suc flag) m = bit flag (m / 2)

-- The members on `m_flagContainer`.
unfoldable pub is_using_flag : ℕ → ℕ → Bool
unfolding bit
is_using_flag flag m = not (bit flag m == 0)

unfoldable pub add_flag : ℕ → ℕ → ℕ
unfolding get_flag_value
add_flag flag m = (m + get_flag_value flag) % word

unfoldable pub sub_flag : ℕ → ℕ → ℕ
unfolding get_flag_value
sub_flag flag m = (m + word - get_flag_value flag) % word

unfoldable pub add_flags : List ℕ → ℕ → ℕ
unfolding add_flag
add_flags [] m = m
add_flags (flag ∷ flags) m = add_flags flags (add_flag flag m)

bit_add_bound : (f w m : ℕ) → f < w → m < 2 ^ w → bit f m ≡ 0 → m + 2 ^ f < 2 ^ w
unfolding bit
bit_add_bound f zero m h b e = absurd (omega arith)
bit_add_bound zero (suc w) m h b e = omega arith
bit_add_bound (suc f) (suc w) m h b e =
    let rest : m / 2 + 2 ^ f < 2 ^ w = bit_add_bound f w (m / 2) (omega arith) (omega arith) e in
    omega arith

bit_zero : (f : ℕ) → bit f 0 ≡ 0
unfolding bit
bit_zero zero = refl
bit_zero (suc f) = bit_zero f

-- Whether a flag is listed.
abbrev pub is_listed : ℕ → List ℕ → Bool
is_listed g [] = false
is_listed g (flag ∷ flags) = (flag == g) || is_listed g flags

-- Flags below 64, none listed twice.
abbrev pub AreFlags : List ℕ → Type 0
AreFlags [] = Unit {0}
AreFlags (flag ∷ flags) = (flag < 64) × (is_listed flag flags ≡ false) × AreFlags flags

-- A flag that is taken away just after it was added leaves the word as it was, whether or not it was in use.
pub sub_flag-add_flag : (f m : ℕ) → f < 64 → m < word → sub_flag f (add_flag f m) ≡ m
unfolding sub_flag add_flag get_flag_value
sub_flag-add_flag f m h b =
    let small : 0 + 2 ^ f < word = bit_add_bound f 64 0 h (omega arith) (bit_zero f) in omega arith
