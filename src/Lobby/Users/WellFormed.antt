-- ===== src/Lobby/Users/WellFormed.antt =====
-- The registry of lobbysvr/lobbyUserManager.cpp is well formed, and its operations on single
-- connections keep it so.
use lobbysvr.Base.{
  ℕ, ◌≡◌, refl, sym, ap, ◌∙◌, subst, Bool, true, false, List, Option, none, some, arith, ◌==◌,
  ==_refl, if◌then◌else◌,
}
use lobbysvr.Lobby.Json.{JsonLib}
use lobbysvr.Lobby.OrderedMap.{
  find, emplace, IsOrdered, emplace-IsOrdered, erase-IsOrdered, find-emplace, find-erase,
}
use lobbysvr.Lobby.Users.{
  User, World, new_user, set_tag, inserted, add_untagged, add_user, erase_found, delete_tagged,
  delete_user,
}

-- The entry of a connection with this tag.
abbrev pub entry : ℕ → Option User → Option ℕ
entry i none = none
entry i (some user) = some i

abbrev pub edited : (User → User) → Option User → Option User
edited change none = none
edited change (some user) = some (change user)

module _ (J : JsonLib) where
  open J use {Value}

  -- A connection is under its identity exactly when it has a user.
  pub record IsRegistry (w : World J) : Type 0 where
    pub ordered : IsOrdered w.users
    pub node_ordered : IsOrdered w.node_to_user
    pub matches : (i : ℕ) → find i w.users ≡ entry i (w.tags i)
    -- A user holds its connection.
    pub held : (i : ℕ) (user : User) → w.tags i ≡ some user → w.alive i ≡ true

  inserted-users :
      (i : ℕ) (p : Bool × List (ℕ × ℕ)) (w : World J)
      → ((inserted J i p w).users ≡ p.1)
        × ((inserted J i p w).tags ≡ w.tags)
        × ((inserted J i p w).alive ≡ w.alive)
        × ((inserted J i p w).node_to_user ≡ w.node_to_user)
  unfolding inserted
  inserted-users i (true, users) w = (refl, refl, refl, refl)
  inserted-users i (false, users) w = (refl, refl, refl, refl)

  pub add_user-IsRegistry :
      (i : ℕ) (w : World J) → w.alive i ≡ true → IsRegistry w → IsRegistry (add_user J i w)
  unfolding add_user add_untagged
  add_user-IsRegistry i w lives r = go (w.tags i) refl
    where
      go : (t : Option User) → w.tags i ≡ t → IsRegistry (add_untagged J i t w)
      go (some user) e = r
      go none e =
          let (users_eq, tags_eq, alive_eq, nodes_eq) =
            inserted-users i (emplace i i w.users) (set_tag J i (some new_user) w) in
          record {
            ordered = subst IsOrdered (sym users_eq) (emplace-IsOrdered i i w.users r.ordered);
            node_ordered = subst IsOrdered (sym nodes_eq) r.node_ordered;
            matches = λ j.
                ap (find j) users_eq
                ∙ find-emplace i j i w.users r.ordered
                ∙ holds j
                ∙ ap (λ tags. entry j (tags j)) (sym tags_eq);
            held = λ j user tag.
                ap (λ alive. alive j) alive_eq
                ∙ lived j user (sym (ap (λ tags. tags j) tags_eq) ∙ tag);
          }
        where
          absent : find i w.users ≡ none
          absent = r.matches i ∙ ap (entry i) e

          lived :
              (j : ℕ) (user : User)
              → (if j == i then some new_user else w.tags j) ≡ some user
              → w.alive j ≡ true
          lived j user tag = ground (arith, lives, r.held j user)

          holds :
              (j : ℕ)
              → (if i == j
                  then (elim (find i w.users) [ some k ↦ some k | none ↦ some i ])
                  else find j w.users)
                ≡ entry j (if j == i then some new_user else w.tags j)
          holds j = rw absent (ground (arith, r.matches j))

  pub delete_user-IsRegistry : (i : ℕ) (w : World J) → IsRegistry w → IsRegistry (delete_user J i w)
  unfolding delete_user delete_tagged erase_found
  delete_user-IsRegistry i w r = go (w.tags i) refl
    where
      go : (t : Option User) → w.tags i ≡ t → IsRegistry (delete_tagged J i t w)
      go none e = r
      go (some user) e =
          rw (r.matches i, e)
            (record {
              ordered = erase-IsOrdered i w.users r.ordered;
              node_ordered = erase-IsOrdered user.user_idx w.node_to_user r.node_ordered;
              matches = λ j. find-erase i j w.users r.ordered ∙ removed j;
              held = λ j other tag. kept j other tag;
            })
        where
          kept :
              (j : ℕ) (other : User)
              → (if j == i then none else w.tags j) ≡ some other
              → w.alive j ≡ true
          kept j other tag = ground (arith, r.held j other)

          removed :
              (j : ℕ)
              → (if i == j then none else find j w.users)
                ≡ entry j (if j == i then none else w.tags j)
          removed j = ground (arith, r.matches j)

  pub tags-delete_user : (i : ℕ) (w : World J) → (delete_user J i w).tags i ≡ none
  unfolding delete_user delete_tagged
  tags-delete_user i w = go (w.tags i) refl
    where
      go : (t : Option User) → w.tags i ≡ t → (delete_tagged J i t w).tags i ≡ none
      go none e = e
      go (some user) e = rw (==_refl i) refl

  -- A `userFunc` that changes the user's fields.
  abbrev pub edit : (User → User) → ℕ → World J → World J
  edit change conn w = set_tag J conn (edited change (w.tags conn)) w

  pub edit-IsRegistry :
      (change : User → User) (conn : ℕ) (w : World J)
      → IsRegistry w
      → IsRegistry (edit change conn w)
  edit-IsRegistry change conn w r = record {
    ordered = r.ordered;
    node_ordered = r.node_ordered;
    matches = λ j. r.matches j ∙ entered (w.tags conn) j refl;
    held = λ j user tag. lived (w.tags conn) j user refl tag;
  }
    where
      entered :
          (t : Option User) (j : ℕ)
          → w.tags conn ≡ t
          → entry j (w.tags j) ≡ entry j (if j == conn then edited change t else w.tags j)
      entered none j e = ground (arith, e)
      entered (some user) j e = ground (arith, e)

      lived :
          (t : Option User) (j : ℕ) (user : User)
          → w.tags conn ≡ t
          → (if j == conn then edited change t else w.tags j) ≡ some user
          → w.alive j ≡ true
      lived none j user e tag = ground (arith, r.held j user)
      lived (some other) j user e tag = ground (arith, r.held j user, r.held conn other)
