-- ===== src/Net/Logger/Numbers.antt =====
-- How an earlier backup is renamed in net/loggerOld.cpp.
use lobbysvr.Base.{
  ℕ, zero, suc, ◌+◌, ◌≡◌, ◌<◌, inl, inr, ap, ◌∙◌, true, false, List, arith, if◌then◌else◌,
  Bool-cases,
}
use lobbysvr.Net.Logger.{done, ◌>>=◌, FileSystem, numbered, rename_free, remove_left, set_aside}

module _ (F : FileSystem) where
  pub at_number :
      (full : List ℕ) (s : F.State) (m n : ℕ)
      → m ≡ n
      → F.exists s (numbered full m) ≡ F.exists s (numbered full n)
  at_number full s m n e = ap (λ k. F.exists s (numbered full k)) e

  pub first_free :
      (rounds old_idx : ℕ) (full : List ℕ) (s : F.State)
      → F.exists s (numbered full old_idx) ≡ false
      → rename_free F (suc rounds) old_idx full s ≡ F.rename full (numbered full old_idx) s
  unfolding rename_free
  first_free rounds old_idx full s e =
      ap
        (λ b.
          if b
          then rename_free F rounds (suc old_idx) full s
          else F.rename full (numbered full old_idx) s)
        e

  pub first_taken :
      (rounds old_idx : ℕ) (full : List ℕ) (s : F.State)
      → F.exists s (numbered full old_idx) ≡ true
      → rename_free F (suc rounds) old_idx full s ≡ rename_free F rounds (suc old_idx) full s
  unfolding rename_free
  first_taken rounds old_idx full s e =
      ap
        (λ b.
          if b
          then rename_free F rounds (suc old_idx) full s
          else F.rename full (numbered full old_idx) s)
        e

  -- A number that no backup has yet is found in time.
  pub rename_free-found :
      (rounds old_idx : ℕ) (full : List ℕ) (s : F.State)
      → (j : ℕ) × (j < rounds) × (F.exists s (numbered full (old_idx + j)) ≡ false)
      → (j : ℕ) × (F.exists s (numbered full j) ≡ false)
        × (rename_free F rounds old_idx full s ≡ F.rename full (numbered full j) s)
  unfolding rename_free
  rename_free-found zero old_idx full s (j, h, e) = absurd (omega arith)
  rename_free-found (suc rounds) old_idx full s (zero, h, e) =
      let free = at_number full s old_idx (old_idx + 0) (omega arith) ∙ e in
      (old_idx, free, first_free rounds old_idx full s free)
  rename_free-found (suc rounds) old_idx full s (suc j, h, e) =
      elim (Bool-cases (F.exists s (numbered full old_idx))) [
        | inl taken ↦
            (let later = at_number full s (suc old_idx + j) (old_idx + suc j) (omega arith) ∙ e in
              let (k, free, found) =
                rename_free-found rounds (suc old_idx) full s (j, omega arith, later) in
              (k, free, first_taken rounds old_idx full s taken ∙ found))
        | inr free ↦ (old_idx, free, first_free rounds old_idx full s free)
      ]

module _ (F : FileSystem) (full : List ℕ) (s : F.State) where
  pub set_aside-none : F.exists s full ≡ false → set_aside F full s ≡ done s
  unfolding set_aside
  set_aside-none e =
      ap (λ b. if b then (rename_free F 10000 0 full s >>= remove_left F full) else done s) e

  pub set_aside-some :
      F.exists s full ≡ true
      → set_aside F full s ≡ (rename_free F 10000 0 full s >>= remove_left F full)
  unfolding set_aside
  set_aside-some e =
      ap (λ b. if b then (rename_free F 10000 0 full s >>= remove_left F full) else done s) e
