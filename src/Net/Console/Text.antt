-- ===== src/Net/Console/Text.antt =====
-- The texts that the console of net/test_interface.cpp takes apart.
use lobbysvr.Base.{
  ℕ, ◌≤◌, ◌≡◌, ◌≢◌, refl, sym, ap, ap₂, ◌∙◌, Bool, true, false, List, [], ◌∷◌, ◌++◌, none, some,
  arith, if◌then◌else◌, length, ◌&&◌, ◌==◌, ==_iff, ==_refl, Bool-cases, inl, inr,
}
use lobbysvr.Net.Console.{up_to_nul, find_line_end, one_further, is_end_key, same_text}

-- Bytes of a command: none of NUL, CR, LF, Ctrl-C and Ctrl-Z.
abbrev pub IsPlain : List ℕ → Type 0
IsPlain [] = Unit {0}
IsPlain (b ∷ bs) = (b ≢ 0) × (b ≢ b'\r') × (b ≢ b'\n') × (b ≢ 3) × (b ≢ 26) × IsPlain bs

pub up_to_nul-plain :
    (bs tail : List ℕ) → IsPlain bs → up_to_nul (bs ++ tail) ≡ bs ++ up_to_nul tail
unfolding up_to_nul
up_to_nul-plain [] tail h = refl
up_to_nul-plain (b ∷ bs) tail h = ground (arith, up_to_nul-plain bs tail h.5)

pub find_line_end-plain : (bs : List ℕ) → IsPlain bs → find_line_end bs ≡ none
unfolding find_line_end one_further
find_line_end-plain [] h = refl
find_line_end-plain (b ∷ bs) h = ground (arith, find_line_end-plain bs h.5)

pub find_line_end-append :
    (bs tail : List ℕ) → IsPlain bs → find_line_end (bs ++ b'\r' ∷ tail) ≡ some (length bs)
unfolding find_line_end one_further
find_line_end-append [] tail h = ground arith
find_line_end-append (b ∷ bs) tail h = ground (arith, find_line_end-append bs tail h.5)

pub is_end_key-plain : (bs tail : List ℕ) → IsPlain bs → is_end_key (bs ++ b'\r' ∷ tail) ≡ false
unfolding is_end_key
is_end_key-plain [] [] h = ground arith
is_end_key-plain [] (c ∷ tail) h = refl
is_end_key-plain (b ∷ []) tail h = refl
is_end_key-plain (b ∷ c ∷ bs) tail h = refl

pub is_end_key_plain : (bs : List ℕ) → IsPlain bs → is_end_key bs ≡ false
unfolding is_end_key
is_end_key_plain [] h = refl
is_end_key_plain (b ∷ []) h = ground arith
is_end_key_plain (b ∷ c ∷ bs) h = refl

pub IsPlain-append : (bs cs : List ℕ) → IsPlain bs → IsPlain cs → IsPlain (bs ++ cs)
IsPlain-append [] cs h k = k
IsPlain-append (b ∷ bs) cs h k = (h.0, h.1, h.2, h.3, h.4, IsPlain-append bs cs h.5 k)

pub up_to_nul_plain : (bs : List ℕ) → IsPlain bs → up_to_nul bs ≡ bs
unfolding up_to_nul
up_to_nul_plain [] h = refl
up_to_nul_plain (b ∷ bs) h = ground (arith, up_to_nul_plain bs h.5)

-- What is behind the first byte of a line end in the read that has it.
abbrev pub line_tail : Bool → List ℕ
line_tail true = []
line_tail false = b'\n' ∷ []

pub length-line_tail : (split : Bool) → length (line_tail split) ≤ 1
length-line_tail true = omega arith
length-line_tail false = omega arith

pub up_to_nul_line : (split : Bool) → up_to_nul (b'\r' ∷ line_tail split) ≡ b'\r' ∷ line_tail split
unfolding up_to_nul
up_to_nul_line true = refl
up_to_nul_line false = refl

pub nonempty : (bs : List ℕ) → bs ≢ [] → (c : ℕ) × (cs : List ℕ) × (bs ≡ c ∷ cs)
nonempty [] h = absurd (h refl)
nonempty (b ∷ bs) h = (b, bs, refl)

pub if_false : {A : Type 0} (b : Bool) (x y : A) → b ≡ false → (if b then x else y) ≡ y
if_false true x y e = cc
if_false false x y e = refl

head_differs : (b rest : Bool) → b ≡ false → (b && rest) ≡ true → ⊥
head_differs true rest h e = ground arith
head_differs false rest h e = ground arith

pub same_text→≡ : (xs ys : List ℕ) → same_text xs ys ≡ true → xs ≡ ys
unfolding same_text
same_text→≡ [] [] e = refl
same_text→≡ [] (y ∷ ys) e = ground arith
same_text→≡ (x ∷ xs) [] e = ground arith
same_text→≡ (x ∷ xs) (y ∷ ys) e = elim (Bool-cases (x == y)) [
  | inl h ↦
      ap₂ ◌∷◌ ((==_iff x y).0 h) (same_text→≡ xs ys (sym (ap (λ b. b && same_text xs ys) h) ∙ e))
  | inr h ↦ absurd (head_differs _ _ h e)
]

pub same_text_refl : (xs : List ℕ) → same_text xs xs ≡ true
unfolding same_text
same_text_refl [] = refl
same_text_refl (x ∷ xs) = ap (λ b. b && same_text xs xs) (==_refl x) ∙ same_text_refl xs

pub ne→same_text : (xs ys : List ℕ) → xs ≢ ys → same_text xs ys ≡ false
ne→same_text xs ys ne = elim (Bool-cases (same_text xs ys)) [
  | inl e ↦ absurd (ne (same_text→≡ xs ys e))
  | inr e ↦ e
]
