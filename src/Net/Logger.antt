-- ===== src/Net/Logger.antt =====
-- The backups of log files: `Collector_AutoBackup` of net/loggerOld.cpp, over the functions of boost::filesystem that it
-- calls.
pub mod Files
pub mod Numbers
pub mod Backup
pub mod Sinks
pub mod Resets
pub mod Logged
pub mod Dump
pub mod Dumped
mod Tests
use lobbysvr.Base.{
  ℕ, zero, suc, Bool, true, false, List, [], ◌∷◌, ◌++◌, Option, none, some, if◌then◌else◌, ◌/◌, ◌%◌,
  ◌+◌, ltb, ◌||◌, ◌&&◌,
}
use lobbysvr.Net.Console.{same_text}

-- A call that may throw, and the state that it leaves.
pub data Tried {ℓ} (S : Type ℓ) : Type ℓ where
  done threw : S → Tried S

infixl 10 ◌>>=◌
abbrev pub ◌>>=◌ {ℓ} : {S : Type ℓ} → Tried S → (S → Tried S) → Tried S
done s >>= f = f s
threw s >>= f = threw s

abbrev pub after {ℓ} : {S : Type ℓ} → Tried S → S
after (done s) = s
after (threw s) = s

-- What stands at a place: a file with its bytes, or something else.
pub data Entry : Type 0 where
  file : List ℕ → Entry
  other : Entry

-- boost::filesystem, with a state of its own. Several paths may lead to one place; `entry` says what stands there.
pub record FileSystem : Type 1 where
  pub State : Type 0
  pub Place : Type 0
  pub place : List ℕ → Place
  pub entry : State → Place → Option Entry
  pub filename : List ℕ → List ℕ
  pub exists : State → List ℕ → Bool
  pub rename : List ℕ → List ℕ → State → Tried State
  pub remove : List ℕ → State → Tried State
  pub create_directories : List ℕ → State → Tried State

-- The decimal digits that a stream prints, for a number below 10000.
unfoldable pub digits : ℕ → List ℕ
digits n =
    if ltb n 10
    then (b'0' + n) ∷ []
    else if ltb n 100
    then (b'0' + n / 10) ∷ (b'0' + n % 10) ∷ []
    else if ltb n 1000
    then (b'0' + n / 100) ∷ (b'0' + n / 10 % 10) ∷ (b'0' + n % 10) ∷ []
    else (b'0' + n / 1000) ∷ (b'0' + n / 100 % 10) ∷ (b'0' + n / 10 % 10) ∷ (b'0' + n % 10) ∷ []

-- `path_backup_full << "_" << old_idx`.
unfoldable pub numbered : List ℕ → ℕ → List ℕ
unfolding digits
numbered full old_idx = full ++ b'_' ∷ digits old_idx

-- `std::string::find`: whether a text stands in another.
unfoldable pub starts_with : List ℕ → List ℕ → Bool
starts_with [] ys = true
starts_with (x ∷ xs) [] = false
starts_with (x ∷ xs) (y ∷ ys) = let rest = starts_with xs ys in same_text (x ∷ []) (y ∷ []) && rest

unfoldable pub contains : List ℕ → List ℕ → Bool
unfolding starts_with
contains xs [] = starts_with xs []
contains xs (y ∷ ys) = let rest = contains xs ys in starts_with xs (y ∷ ys) || rest

-- A member of the directory as its iterator gives it.
pub record Found : Type 0 where
  pub path : List ℕ
  pub is_regular_file : Bool
  pub has_filename : Bool

module _ (F : FileSystem) where
  -- The loop over `old_idx`, for as many rounds as the first argument.
  unfoldable pub rename_free : ℕ → ℕ → List ℕ → F.State → Tried F.State
  unfolding numbered
  rename_free zero old_idx full s = done s
  rename_free (suc rounds) old_idx full s =
      let rest = rename_free rounds (suc old_idx) full s in
      if F.exists s (numbered full old_idx) then rest else F.rename full (numbered full old_idx) s

  unfoldable pub remove_left : List ℕ → F.State → Tried F.State
  remove_left full s = if F.exists s full then F.remove full s else done s

  -- What is done with an earlier backup of the same name, before the 10000th number.
  unfoldable pub set_aside : List ℕ → F.State → Tried F.State
  unfolding rename_free remove_left
  set_aside full s =
      if F.exists s full then (do t ← rename_free 10000 0 full s; remove_left full t) else done s

  -- `moveFIle`, up to its `catch`; `day` is how the date is printed.
  unfoldable pub move_file : (path_root day src_path : List ℕ) → F.State → Tried F.State
  unfolding set_aside
  move_file path_root day src_path s =
      let root = path_root ++ b'/' ∷ day in
      let full = root ++ b'/' ∷ F.filename src_path in
      (do t ← set_aside full s; u ← F.create_directories root t; F.rename src_path full u)

  -- `store_file`: what was thrown has been caught.
  unfoldable pub store_file : (path_root day src_path : List ℕ) → F.State → F.State
  unfolding move_file
  store_file path_root day src_path s = after (move_file path_root day src_path s)

  -- `scan_for_files` over the members of the directory.
  unfoldable pub is_log : List ℕ → Found → Bool
  unfolding contains
  is_log filename found =
      found.is_regular_file && found.has_filename && contains filename found.path

  unfoldable pub scan_for_files :
      (filename path_root day : List ℕ) → List Found → F.State → ℕ × F.State
  unfolding is_log store_file
  scan_for_files filename path_root day [] s = (0, s)
  scan_for_files filename path_root day (found ∷ members) s =
      let is_one = is_log filename found in
      let stored = if is_one then store_file path_root day found.path s else s in
      let (count, t) = scan_for_files filename path_root day members stored in
      ((if is_one then suc count else count), t)
