-- ===== src/Net/CrashDump.antt =====
-- Of net/exceptionCrashDump.cpp: the directory of the crash dumps, its configuration, and the handles of a dump. The
-- calls of Windows are answers that the definitions take.
use lobbysvr.Base.{
  ℕ, zero, suc, ◌+◌, ◌≤◌, ◌≡◌, refl, sym, ap, ◌∙◌, Bool, true, false, List, [], ◌∷◌, Option, none,
  some, arith, ◌==◌, ◌||◌, ◌&&◌, not, ◌<◌, Bool-cases, Option-cases, inl, inr, if◌then◌else◌,
  length, take,
}

unfoldable pub is_slash : ℕ → Bool
is_slash c = c == b'\\' || c == b'/'

-- `find_first_of("\\/", pos)`: the first slash at `pos` or later, if there is one.
further : Option ℕ → Option ℕ
further none = none
further (some pos) = some (suc pos)

unfoldable pub find_slash : List ℕ → ℕ → Option ℕ
unfolding is_slash further
find_slash [] pos = none
find_slash (c ∷ path) zero =
    let rest = further (find_slash path zero) in if is_slash c then some 0 else rest
find_slash (c ∷ path) (suc pos) = further (find_slash path pos)

-- The directories that `generate_filename` creates, for as many rounds of its loop as the first argument; `none` while
-- the loop goes on.
unfoldable pub created_from : Option ℕ → List ℕ → Option (List (List ℕ)) → Option (List (List ℕ))
created_from none path rest = some (path ∷ [])
created_from (some pos) path none = none
created_from (some pos) path (some dirs) = some (take pos path ∷ dirs)

unfoldable pub position : Option ℕ → ℕ
position none = 0
position (some pos) = pos

unfoldable pub create_dirs : ℕ → ℕ → List ℕ → Option (List (List ℕ))
unfolding find_slash created_from position
create_dirs zero pos path = none
create_dirs (suc rounds) pos path =
    let found = find_slash path (suc pos) in
    created_from found path (create_dirs rounds (position found) path)

-- The loop of `Init` that takes slashes off the end of the path, which `none` says to run on in front of the array.
unfoldable pub trim : List ℕ → Option (List ℕ)
unfolding is_slash
trim [] = none
trim (c ∷ path) = elim (trim path) [
  | none ↦ if is_slash c then none else some (c ∷ [])
  | some kept ↦ some (c ∷ kept)
]

-- `g_dump_path` after `Init`, from a root path that is not empty or from the path of the program.
unfoldable pub dump_path : (root_path module_path : List ℕ) → Option (List ℕ)
unfolding trim
dump_path [] module_path = trim module_path
dump_path (c ∷ root_path) module_path = trim (c ∷ root_path)

-- `InitFromXML`: what `Init` is called with. A key that is missing gives its default; "dir" is read as a text and as a
-- flag.
pub record InitParams : Type 0 where
  pub root_path : List ℕ
  pub header : List ℕ
  pub is_full_dump : Bool

abbrev or_default {ℓ} : {A : Type ℓ} → Option A → A → A
or_default none a = a
or_default (some b) a = b

unfoldable pub init_from_xml : (file dir : Option (List ℕ)) (dir_flag : Option Bool) → InitParams
init_from_xml file dir dir_flag = record {
  root_path = or_default dir [];
  header = or_default file [];
  is_full_dump = or_default dir_flag true;
}

-- Which of the calls of `CreateMiniDump` and `CreateFullDump` succeed, and what they leave.
pub record Answers : Type 0 where
  pub loads : Bool
  pub creates : Bool
  pub has_function : Bool
  pub writes : Bool

pub record Left : Type 0 where
  pub library_loaded : Bool
  pub file_open : Bool
  pub dump_written : Bool

abbrev left : Bool → Bool → Bool → Left
left library file dump = record { library_loaded = library; file_open = file; dump_written = dump }

unfoldable pub create_dump : Answers → Left
create_dump a =
    if not a.loads
    then left false false false
    else if not a.creates
    then left true false false
    else if not a.has_function
    then left true true false
    else if not a.writes
    then left true true false
    else left true false true

-- A file that was created stays open unless the dump is written to it.
pub create_dump-file_open :
    (loads creates has_function writes : Bool)
    → let a : Answers = record {
      loads = loads;
      creates = creates;
      has_function = has_function;
      writes = writes;
    } in
      (create_dump a).file_open ≡ ((loads && creates) && not (create_dump a).dump_written)
unfolding create_dump
create_dump-file_open false creates has_function writes = refl
create_dump-file_open true false has_function writes = refl
create_dump-file_open true true false writes = refl
create_dump-file_open true true true false = refl
create_dump-file_open true true true true = refl

abbrev is_none : Option ℕ → Bool
is_none none = true
is_none (some q) = false

no_slash : {q : ℕ} → none ≡ some q → ⊥
no_slash e = let both : true ≡ false = ap is_none e in ground arith

further-some : (o : Option ℕ) (q : ℕ) → further o ≡ some q → (r : ℕ) × (o ≡ some r) × (suc r ≡ q)
unfolding further position
further-some none q e = absurd (no_slash e)
further-some (some r) q e = (r, refl, ap position e)

find_slash-bounds :
    (path : List ℕ) (pos q : ℕ) → find_slash path pos ≡ some q → (pos ≤ q) × (q < length path)
unfolding find_slash position
find_slash-bounds [] pos q e = absurd (no_slash e)
find_slash-bounds (c ∷ path) zero q e = elim (Bool-cases (is_slash c)) [
  | inl h ↦
      (let first : 0 ≡ q =
          ap position
            (sym (ap (λ b. if b then some 0 else further (find_slash path zero)) h) ∙ e) in
        (omega arith, omega arith))
  | inr h ↦
      (let (r, f, g) =
          further-some (find_slash path zero) q
            (sym (ap (λ b. if b then some 0 else further (find_slash path zero)) h) ∙ e) in
        let (low, high) = find_slash-bounds path zero r f in (omega arith, omega arith))
]
find_slash-bounds (c ∷ path) (suc pos) q e =
    let (r, f, g) = further-some (find_slash path pos) q e in
    let (low, high) = find_slash-bounds path pos r f in (omega arith, omega arith)

-- The loop of `generate_filename` ends: a round for each character of the path and one more are enough.
pub create_dirs-ends :
    (rounds pos : ℕ) (path : List ℕ)
    → pos ≤ length path
    → length path < pos + rounds
    → (dirs : List (List ℕ)) × (create_dirs rounds pos path ≡ some dirs)
unfolding create_dirs position created_from
create_dirs-ends zero pos path h b = absurd (omega arith)
create_dirs-ends (suc rounds) pos path h b = elim (Option-cases (find_slash path (suc pos))) [
  | inl e ↦ (path ∷ [], ap (λ f. created_from f path (create_dirs rounds (position f) path)) e)
  | inr (q, e) ↦
      (let (low, high) = find_slash-bounds path (suc pos) q e in
        let (dirs, g) = create_dirs-ends rounds q path (omega arith) (omega arith) in
        (
          take q path ∷ dirs,
          ap (λ f. created_from f path (create_dirs rounds (position f) path)) e
              ∙ ap (created_from (some q) path) g,
        ))
]
