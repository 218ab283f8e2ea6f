-- ===== src/Lobby/OrderedMap.antt =====
-- `std::map` with unsigned keys, as the list of its entries by rising key: what
-- lobbysvr/lobbyUserManager.cpp uses of it.
use lobbysvr.Base.{
  ℕ, ◌≤◌, ◌<◌, ◌≡◌, refl, true, false, Bool, List, [], ◌∷◌, Option, none, some, arith, ltb, ◌==◌,
  if◌then◌else◌,
}

module _ {V : Type 0} where
  unfoldable pub find : ℕ → List (ℕ × V) → Option V
  find k [] = none
  find k ((j, v) ∷ m) = if j == k then some v else find k m

  -- `emplace(k, v)`, which leaves an entry that is there; the flag is `.second` of its result.
  unfoldable pub emplace : ℕ → V → List (ℕ × V) → Bool × List (ℕ × V)
  emplace k v [] = (true, (k, v) ∷ [])
  emplace k v ((j, w) ∷ m) =
      let rest = emplace k v m in
      if j == k
      then (false, (j, w) ∷ m)
      else if ltb k j
      then (true, (k, v) ∷ (j, w) ∷ m)
      else (rest.0, (j, w) ∷ rest.1)

  unfoldable pub erase : ℕ → List (ℕ × V) → List (ℕ × V)
  erase k [] = []
  erase k ((j, v) ∷ m) = let rest = erase k m in if j == k then m else (j, v) ∷ rest

  -- The keys rise, from above `low` on.
  abbrev pub Above : ℕ → List (ℕ × V) → Type 0
  Above low [] = Unit {0}
  Above low ((j, v) ∷ m) = (low < j) × Above j m

  abbrev pub IsOrdered : List (ℕ × V) → Type 0
  IsOrdered [] = Unit {0}
  IsOrdered ((j, v) ∷ m) = Above j m

  Above-IsOrdered : (low : ℕ) (m : List (ℕ × V)) → Above low m → IsOrdered m
  Above-IsOrdered low [] h = tt
  Above-IsOrdered low ((j, v) ∷ m) h = h.1

  Above-mono : (low high : ℕ) (m : List (ℕ × V)) → low ≤ high → Above high m → Above low m
  Above-mono low high [] le h = tt
  Above-mono low high ((j, v) ∷ m) le h = (omega arith, h.1)

  find-Above : (low k : ℕ) (m : List (ℕ × V)) → Above low m → k ≤ low → find k m ≡ none
  unfolding find
  find-Above low k [] h le = refl
  find-Above low k ((j, v) ∷ m) h le = ground (arith, find-Above j k m h.1)

  emplace-Above :
      (low k : ℕ) (v : V) (m : List (ℕ × V)) → Above low m → low < k → Above low (emplace k v m).1
  unfolding emplace
  emplace-Above low k v [] h lt = (lt, tt)
  emplace-Above low k v ((j, w) ∷ m) h lt = ground (arith, emplace-Above j k v m h.1)

  pub emplace-IsOrdered :
      (k : ℕ) (v : V) (m : List (ℕ × V)) → IsOrdered m → IsOrdered (emplace k v m).1
  unfolding emplace
  emplace-IsOrdered k v [] h = tt
  emplace-IsOrdered k v ((j, w) ∷ m) h = ground (arith, emplace-Above j k v m h)

  erase-Above : (low k : ℕ) (m : List (ℕ × V)) → Above low m → Above low (erase k m)
  unfolding erase
  erase-Above low k [] h = tt
  erase-Above low k ((j, v) ∷ m) h = ground (arith, erase-Above j k m h.1, Above-mono low j m)

  pub erase-IsOrdered : (k : ℕ) (m : List (ℕ × V)) → IsOrdered m → IsOrdered (erase k m)
  unfolding erase
  erase-IsOrdered k [] h = tt
  erase-IsOrdered k ((j, v) ∷ m) h = ground (arith, erase-Above j k m h, Above-IsOrdered j m)

  -- An entry that is there stays, another key's entries stay.
  find-emplace_behind :
      (low k i : ℕ) (v : V) (m : List (ℕ × V))
      → Above low m
      → find i (emplace k v m).1
        ≡ (if k == i then (elim (find k m) [ some w ↦ some w | none ↦ some v ]) else find i m)
  unfolding find emplace
  find-emplace_behind low k i v [] h = ground arith
  find-emplace_behind low k i v ((j, w) ∷ m) h =
      ground (arith, find-emplace_behind j k i v m h.1, find-Above j k m h.1)

  pub find-emplace :
      (k i : ℕ) (v : V) (m : List (ℕ × V))
      → IsOrdered m
      → find i (emplace k v m).1
        ≡ (if k == i then (elim (find k m) [ some w ↦ some w | none ↦ some v ]) else find i m)
  unfolding find emplace
  find-emplace k i v [] h = ground arith
  find-emplace k i v ((j, w) ∷ m) h =
      ground (arith, find-emplace_behind j k i v m h, find-Above j k m h)

  emplaced_Above :
      (low k : ℕ) (v : V) (m : List (ℕ × V))
      → Above low m
      → find k m ≡ none
      → (emplace k v m).0 ≡ true
  unfolding find emplace
  emplaced_Above low k v [] h e = refl
  emplaced_Above low k v ((j, w) ∷ m) h e = ground (arith, emplaced_Above j k v m h.1)

  pub emplaced_new :
      (k : ℕ) (v : V) (m : List (ℕ × V)) → IsOrdered m → find k m ≡ none → (emplace k v m).0 ≡ true
  unfolding find emplace
  emplaced_new k v [] h e = refl
  emplaced_new k v ((j, w) ∷ m) h e = ground (arith, emplaced_Above j k v m h)

  -- A key that is there is not emplaced again.
  emplaced_old_Above :
      (low k : ℕ) (v w : V) (m : List (ℕ × V))
      → Above low m
      → find k m ≡ some w
      → emplace k v m ≡ (false, m)
  unfolding find emplace
  emplaced_old_Above low k v w [] h e = cc
  emplaced_old_Above low k v w ((j, x) ∷ m) h e =
      ground (arith, emplaced_old_Above j k v w m h.1, find-Above j k m h.1)

  pub emplaced_old :
      (k : ℕ) (v w : V) (m : List (ℕ × V))
      → IsOrdered m
      → find k m ≡ some w
      → emplace k v m ≡ (false, m)
  unfolding find emplace
  emplaced_old k v w [] h e = cc
  emplaced_old k v w ((j, x) ∷ m) h e =
      ground (arith, emplaced_old_Above j k v w m h, find-Above j k m h)

  find-erase_behind :
      (low k i : ℕ) (m : List (ℕ × V))
      → Above low m
      → find i (erase k m) ≡ (if k == i then none else find i m)
  unfolding find erase
  find-erase_behind low k i [] h = ground arith
  find-erase_behind low k i ((j, v) ∷ m) h =
      ground (arith, find-erase_behind j k i m h.1, find-Above j k m h.1, find-Above j i m h.1)

  pub find-erase :
      (k i : ℕ) (m : List (ℕ × V))
      → IsOrdered m
      → find i (erase k m) ≡ (if k == i then none else find i m)
  unfolding find erase
  find-erase k i [] h = ground arith
  find-erase k i ((j, v) ∷ m) h =
      ground (arith, find-erase_behind j k i m h, find-Above j k m h, find-Above j i m h)

  erase-emplace_behind :
      (low k : ℕ) (v : V) (m : List (ℕ × V))
      → Above low m
      → find k m ≡ none
      → erase k (emplace k v m).1 ≡ m
  unfolding find erase emplace
  erase-emplace_behind low k v [] h e = ground arith
  erase-emplace_behind low k v ((j, w) ∷ m) h e = ground (arith, erase-emplace_behind j k v m h.1)

  -- What was emplaced under a new key is taken out again.
  pub erase-emplace :
      (k : ℕ) (v : V) (m : List (ℕ × V))
      → IsOrdered m
      → find k m ≡ none
      → erase k (emplace k v m).1 ≡ m
  unfolding find erase emplace
  erase-emplace k v [] h e = ground arith
  erase-emplace k v ((j, w) ∷ m) h e = ground (arith, erase-emplace_behind j k v m h)

  -- What holds of each entry.
  abbrev pub AllEntries : (ℕ → V → Type 0) → List (ℕ × V) → Type 0
  AllEntries P [] = Unit {0}
  AllEntries P ((k, v) ∷ m) = P k v × AllEntries P m

  found_Above :
      (P : ℕ → V → Type 0) (low : ℕ) (m : List (ℕ × V))
      → Above low m
      → ((k : ℕ) (v : V) → find k m ≡ some v → P k v)
      → AllEntries P m
  unfolding find
  found_Above P low [] h f = tt
  found_Above P low ((j, v) ∷ m) h f =
      (f j v (ground arith), found_Above P j m h.1 λ k w e. f k w (later k w e))
    where
      later : (k : ℕ) (w : V) → find k m ≡ some w → find k ((j, v) ∷ m) ≡ some w
      later k w e = ground (arith, find-Above j k m h.1)

  -- What holds of what is found holds of each entry.
  pub found-AllEntries :
      (P : ℕ → V → Type 0) (m : List (ℕ × V))
      → IsOrdered m
      → ((k : ℕ) (v : V) → find k m ≡ some v → P k v)
      → AllEntries P m
  unfolding find
  found-AllEntries P [] h f = tt
  found-AllEntries P ((j, v) ∷ m) h f =
      (f j v (ground arith), found_Above P j m h λ k w e. f k w (later k w e))
    where
      later : (k : ℕ) (w : V) → find k m ≡ some w → find k ((j, v) ∷ m) ≡ some w
      later k w e = ground (arith, find-Above j k m h)
