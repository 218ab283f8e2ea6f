-- ===== src/Net/Logger/Files.antt =====
-- What net/loggerOld.cpp relies on of boost::filesystem, and a small file system that does it.

use lobbysvr.Base.{
  ℕ, ◌≡◌, ◌≢◌, refl, sym, ap, ◌∙◌, Bool, true, false, List, [], ◌∷◌, ◌++◌, Option, none, some,
  arith, ◌==◌, if◌then◌else◌,
}
use lobbysvr.Net.Console.{same_text}
use lobbysvr.Net.Console.Text.{same_text_refl, ne→same_text}
use lobbysvr.Net.Logger.{Tried, done, threw, after, Entry, file, FileSystem}

abbrev pub is_there : Option Entry → Bool
is_there none = false
is_there (some e) = true

-- A renamed file is at its new place and no more at the old, new directories disturb nothing that is there, and a
-- renaming that throws disturbs nothing.
pub record IsLawful (F : FileSystem) : Type 0 where
  pub exists_entry : (s : F.State) (p : List ℕ) → F.exists s p ≡ is_there (F.entry s (F.place p))
  pub rename_done :
      (p q : List ℕ) (c : List ℕ) (s t : F.State)
      → F.entry s (F.place p) ≡ some (file c)
      → F.place p ≢ F.place q
      → F.rename p q s ≡ done t
      → (F.entry t (F.place q) ≡ some (file c))
        × (F.entry t (F.place p) ≡ none)
        × ((r : F.Place) → r ≢ F.place p → r ≢ F.place q → F.entry t r ≡ F.entry s r)
  pub rename_threw :
      (p q : List ℕ) (s t : F.State)
      → F.rename p q s ≡ threw t
      → (r : F.Place) → F.entry t r ≡ F.entry s r
  pub create_keeps :
      (p : List ℕ) (s : F.State) (r : F.Place) (e : Entry)
      → F.entry s r ≡ some e
      → F.entry (after (F.create_directories p s)) r ≡ some e

-- A file system of files alone, whose paths are its places.
abbrev Files : Type 0
Files = List ℕ → Option Entry

abbrev last_part : List ℕ → List ℕ → List ℕ
last_part [] name = name
last_part (c ∷ path) name = last_part path (if c == b'/' then [] else name ++ c ∷ [])

abbrev moved : List ℕ → List ℕ → Option Entry → Files → Tried Files
moved p q none s = threw s
moved p q (some e) s =
    done (λ r. if same_text r q then some e else if same_text r p then none else s r)

abbrev pub flat : FileSystem
flat = record {
  State = Files;
  Place = List ℕ;
  place = λ p. p;
  entry = λ s p. s p;
  filename = λ p. last_part p [];
  exists = λ s p. is_there (s p);
  rename = λ p q s. moved p q (s p) s;
  remove = λ p s. done (λ r. if same_text r p then none else s r);
  create_directories = λ p s. done s;
}

-- A renaming that is done was of the file that is there.
moved_file :
    (p q : List ℕ) (c : List ℕ) (s t : Files)
    → p ≢ q
    → moved p q (some (file c)) s ≡ done t
    → (t q ≡ some (file c)) × (t p ≡ none) × ((r : List ℕ) → r ≢ p → r ≢ q → t r ≡ s r)
moved_file p q c s t ne e =
    let now = λ (r : List ℕ). sym (ap (λ (g : Tried Files). after g r) e) in
    (
      now q
          ∙ ap (λ b. if b then some (file c) else if same_text q p then none else s q)
              (same_text_refl q),
      now p
          ∙ ap (λ b. if b then some (file c) else if same_text p p then none else s p)
              (ne→same_text p q ne)
          ∙ ap (λ b. if b then none else s p) (same_text_refl p),
      λ r np nq.
          now r
          ∙ ap (λ b. if b then some (file c) else if same_text r p then none else s r)
              (ne→same_text r q nq)
          ∙ ap (λ b. if b then none else s r) (ne→same_text r p np),
    )

is_done : Tried Files → Bool
is_done (done s) = true
is_done (threw s) = false

moved_threw :
    (p q : List ℕ) (o : Option Entry) (s t : Files)
    → moved p q o s ≡ threw t
    → (r : List ℕ) → t r ≡ s r
unfolding is_done
moved_threw p q none s t e r = sym (ap (λ (g : Tried Files). after g r) e)
moved_threw p q (some x) s t e r = let both : true ≡ false = ap is_done e in ground arith

pub flat-IsLawful : IsLawful flat
flat-IsLawful = record {
  exists_entry = λ s p. refl;
  rename_done = λ p q c s t at ne e. moved_file p q c s t ne (sym (ap (λ o. moved p q o s) at) ∙ e);
  rename_threw = λ p q s t e. moved_threw p q (s p) s t e;
  create_keeps = λ p s r e at. at;
}
