-- ===== src/Net/Logger/Backup.antt =====
-- What is where after net/loggerOld.cpp has moved a file to its backups.
use lobbysvr.Base.{
  ℕ, ◌+◌, ◌≡◌, ◌≢◌, ◌<◌, ◌⊎◌, inl, inr, refl, sym, ap, subst, ◌∙◌, true, false, List, ◌∷◌, ◌++◌,
  Option, none, some, arith, if◌then◌else◌, Bool-cases,
}
use lobbysvr.Net.Logger.{
  Tried, done, threw, ◌>>=◌, after, Entry, file, other, FileSystem, numbered, remove_left,
  set_aside, move_file,
}
use lobbysvr.Net.Logger.Numbers.{at_number, rename_free-found, set_aside-none, set_aside-some}
use lobbysvr.Net.Logger.Files.{is_there, IsLawful}

nowhere : (o : Option Entry) → is_there o ≡ false → o ≡ none
nowhere none e = refl
nowhere (some x) e = ground arith

somewhere : (o : Option Entry) → is_there o ≡ true → (e : Entry) × (o ≡ some e)
somewhere none e = ground arith
somewhere (some x) e = (x, refl)

-- `path_backup_full`.
abbrev pub backup : (F : FileSystem) → (path_root day src : List ℕ) → List ℕ
backup F path_root day src = (path_root ++ b'/' ∷ day) ++ b'/' ∷ F.filename src

a_file : (e : Entry) {o : Option Entry} → o ≡ some e → o ≢ some other → (d : List ℕ) × (e ≡ file d)
a_file (file d) h no_other = (d, refl)
a_file other h no_other = absurd (no_other h)

module _ (F : FileSystem) where
  abbrev Keeps : F.State → F.State → Type 0
  Keeps t u = (r : F.Place) (e : Entry) → F.entry t r ≡ some e → F.entry u r ≡ some e

  -- Nothing stands where something does: two places.
  apart :
      (s : F.State) (p q : F.Place) (e : Entry) → F.entry s p ≡ some e → F.entry s q ≡ none → p ≢ q
  apart s p q e h n same =
      let both : true ≡ false = ap is_there (sym h ∙ ap (F.entry s) same ∙ n) in ground arith

module _ (F : FileSystem) (src full : List ℕ) (s : F.State) where
  -- The earlier backup has been renamed to a number that no backup had.
  abbrev pub IsNumbered : List ℕ → F.State → Type 0
  IsNumbered d t =
      (j : ℕ) × (F.exists s (numbered full j) ≡ false)
      × (F.entry t (F.place (numbered full j)) ≡ some (file d))

  -- Whatever stands anywhere else still stands there.
  abbrev pub AreOthersKept : F.State → Type 0
  AreOthersKept t =
      (r : F.Place) (e : Entry)
      → F.entry s r ≡ some e
      → r ≢ F.place src
      → r ≢ F.place full
      → F.entry t r ≡ some e

  -- What a call for a log with the bytes `c` leaves: the log at its backup or, if something was thrown, where it was;
  -- an earlier backup of that name under a new number or, if something was thrown, possibly where it was; the rest.
  abbrev pub IsStored : List ℕ → Tried F.State → Type 0
  IsStored c (done t) =
      (F.entry t (F.place full) ≡ some (file c))
      × ((d : List ℕ) → F.entry s (F.place full) ≡ some (file d) → IsNumbered d t)
      × AreOthersKept t
  IsStored c (threw t) =
      (F.entry t (F.place src) ≡ some (file c))
      × ((d : List ℕ)
          → F.entry s (F.place full) ≡ some (file d)
          → (F.entry t (F.place full) ≡ some (file d)) ⊎ IsNumbered d t)
      × AreOthersKept t

  -- On the way there.
  abbrev Facts : List ℕ → F.State → Type 0
  Facts c t =
      (F.entry t (F.place src) ≡ some (file c))
      × ((d : List ℕ) → F.entry s (F.place full) ≡ some (file d) → IsNumbered d t)
      × AreOthersKept t

  Facts-Keeps : (c : List ℕ) (t u : F.State) → Keeps F t u → Facts c t → Facts c u
  Facts-Keeps c t u keeps (here, moved, others) = (
    keeps _ _ here,
    λ d e. (let (j, free, at) = moved d e in (j, free, keeps _ _ at)),
    λ r e h ne nf. keeps r e (others r e h ne nf),
  )

module _ {F : FileSystem} (L : IsLawful F) (src full : List ℕ) (s : F.State) where
  free_empty : (p : List ℕ) → F.exists s p ≡ false → F.entry s (F.place p) ≡ none
  free_empty p e = nowhere _ (sym (L.exists_entry s p) ∙ e)

  rename-IsStored :
      (c : List ℕ) (t : F.State)
      → F.entry s (F.place src) ≡ some (file c)
      → F.place src ≢ F.place full
      → Facts F src full s c t
      → IsStored F src full s c (F.rename src full t)
  rename-IsStored c t there ne facts = each (F.rename src full t) refl
    where
      each : (r : Tried F.State) → F.rename src full t ≡ r → IsStored F src full s c r
      each (done u) e =
          let (at, gone, rest) = L.rename_done src full c t u facts.0 ne e in
          (
            at,
            λ d h.
                (let (j, free, old) = facts.1 d h in
                  (
                    j,
                    free,
                    rest (F.place (numbered full j))
                          (λ same. apart F s _ _ _ there (free_empty _ free) (sym same))
                          (λ same. apart F s _ _ _ h (free_empty _ free) (sym same))
                        ∙ old,
                  )),
            λ r x h no nf. rest r no nf ∙ facts.2 r x h no nf,
          )
      each (threw u) e =
          let kept = L.rename_threw src full t u e in
          (
            kept _ ∙ facts.0,
            λ d h. (let (j, free, old) = facts.1 d h in inr (j, free, kept _ ∙ old)),
            λ r x h no nf. kept r ∙ facts.2 r x h no nf,
          )

  create-IsStored :
      (root c : List ℕ) (t : F.State)
      → F.entry s (F.place src) ≡ some (file c)
      → F.place src ≢ F.place full
      → Facts F src full s c t
      → IsStored F src full s c (F.create_directories root t >>= F.rename src full)
  create-IsStored root c t there ne facts =
      each (F.create_directories root t) (L.create_keeps root t)
    where
      each :
          (r : Tried F.State)
          → Keeps F t (after r)
          → IsStored F src full s c (r >>= F.rename src full)
      each (done u) keeps =
          rename-IsStored c u there ne (Facts-Keeps F src full s c t u keeps facts)
      each (threw u) keeps =
          let (here, moved, others) = Facts-Keeps F src full s c t u keeps facts in
          (here, λ d h. inr (moved d h), others)

  abbrev stored_from : List ℕ → F.State → Tried F.State
  stored_from root t = F.create_directories root t >>= F.rename src full

  gone-remove_left : (t : F.State) → F.entry t (F.place full) ≡ none → remove_left F full t ≡ done t
  unfolding remove_left
  gone-remove_left t e =
      ap (λ b. if b then F.remove full t else done t) (L.exists_entry t full ∙ ap is_there e)

  -- An earlier backup is renamed to a free number.
  rename_old-IsStored :
      (root c d : List ℕ) (j : ℕ)
      → F.entry s (F.place src) ≡ some (file c)
      → F.place src ≢ F.place full
      → F.entry s (F.place full) ≡ some (file d)
      → F.exists s (numbered full j) ≡ false
      → IsStored F src full s c
          ((F.rename full (numbered full j) s >>= remove_left F full) >>= stored_from root)
  rename_old-IsStored root c d j there ne old free = each (F.rename full (numbered full j) s) refl
    where
      each :
          (r : Tried F.State)
          → F.rename full (numbered full j) s ≡ r
          → IsStored F src full s c ((r >>= remove_left F full) >>= stored_from root)
      each (done t) e =
          let empty = free_empty (numbered full j) free in
          let (at, gone, rest) =
            L.rename_done full (numbered full j) d s t old (apart F s _ _ _ old empty) e in
          subst (λ r. IsStored F src full s c (r >>= stored_from root))
            (sym (gone-remove_left t gone))
            (create-IsStored root c t there ne (
              rest _ ne (apart F s _ _ _ there empty) ∙ there,
              λ d' h. (j, free, at ∙ sym old ∙ h),
              λ r x h no nf. rest r nf (apart F s _ _ _ h empty) ∙ h,
            ))
      each (threw t) e =
          let kept = L.rename_threw full (numbered full j) s t e in
          (kept _ ∙ there, λ d' h. inl (kept _ ∙ h), λ r x h no nf. kept r ∙ h)

  -- With a free number, whatever throws.
  set_aside-IsStored :
      (root c : List ℕ)
      → F.entry s (F.place src) ≡ some (file c)
      → F.place src ≢ F.place full
      → F.entry s (F.place full) ≢ some other
      → (j : ℕ) × (j < 10000) × (F.exists s (numbered full j) ≡ false)
      → IsStored F src full s c (set_aside F full s >>= stored_from root)
  set_aside-IsStored root c there ne no_other (j, below, free) =
      elim (Bool-cases (F.exists s full)) [
        | inr absent ↦
            subst (λ r. IsStored F src full s c (r >>= stored_from root))
              (sym (set_aside-none F full s absent))
              (create-IsStored root c s there ne (
                there,
                λ d h. absurd (apart F s _ _ _ h (free_empty full absent) refl),
                λ r e h no nf. h,
              ))
        | inl present ↦
            (let (e, h) = somewhere _ (sym (L.exists_entry s full) ∙ present) in
              let (k, unused, found) = rename_free-found F 10000 0 full s (
                j,
                below,
                (let plus : 0 + j ≡ j = omega arith in at_number F full s (0 + j) j plus) ∙ free,
              ) in
              let (d, old) = a_file e h no_other in
              subst (λ r. IsStored F src full s c (r >>= stored_from root))
                (sym (set_aside-some F full s present ∙ ap (λ r. r >>= remove_left F full) found))
                (rename_old-IsStored root c d k there ne (h ∙ ap some old) unused))
      ]

-- `moveFIle` loses no log, whatever throws, if one of the 10000 numbers is free: the file that is moved is at its
-- backup in the end, or where it was if something was thrown; an earlier backup of the same name has got a number that
-- no other had, or is where it was if something was thrown; everything else stays. The file is not its own backup, and
-- no directory stands where the backup will.
pub move_file-IsStored :
    {F : FileSystem}
    → IsLawful F
    → (path_root day src c : List ℕ) (s : F.State) → F.entry s (F.place src) ≡ some (file c)
    → F.place src ≢ F.place (backup F path_root day src)
    → F.entry s (F.place (backup F path_root day src)) ≢ some other
    → (j : ℕ) × (j < 10000) × (F.exists s (numbered (backup F path_root day src) j) ≡ false)
    → IsStored F src (backup F path_root day src) s c (move_file F path_root day src s)
unfolding move_file
move_file-IsStored L path_root day src c s there ne no_other free =
    set_aside-IsStored L src _ s (path_root ++ b'/' ∷ day) c there ne no_other free
