-- ===== src/Lobby/Users/Registry.antt =====
-- The registry of lobbysvr/lobbyUserManager.cpp against what it is to hold: the connections that have
-- a user.
use lobbysvr.Base.{
  ℕ, ◌≡◌, Bool, true, false, List, [], ◌∷◌, Option, none, some, arith, ◌==◌, if◌then◌else◌,
}
use lobbysvr.Lobby.Json.{JsonLib}
use lobbysvr.Lobby.SendJson.{sent_value}
use lobbysvr.Lobby.OrderedMap.{find, emplace-IsOrdered, erase-IsOrdered}
use lobbysvr.Lobby.Users.{
  User, World, add_user, delete_user, user_logined, user_logout, send_locked, send_weak,
  send_packet_from_broker, find_through, send_packet_from_broker_by_user_idx, call_locked,
  after_call, send_json, send_each, send_packet_from_broker_all,
}
pub use lobbysvr.Lobby.Users.WellFormed.{entry, edited, IsRegistry, tags-delete_user, edit}
use lobbysvr.Lobby.Users.WellFormed.{add_user-IsRegistry, delete_user-IsRegistry, edit-IsRegistry}

module _ (J : JsonLib) where
  open J use {Value}

  -- One operation of the registry, or an event of the network: a connection is made, and one that
  -- nothing holds any more goes away.
  pub data Act : World J → World J → Type 0 where
    adds : {w : World J} (i : ℕ) → w.alive i ≡ true → Act w (add_user J i w)
    deletes : {w : World J} (i : ℕ) → Act w (delete_user J i w)
    logs_in : {w : World J} (i user_idx : ℕ) → Act w (user_logined J i user_idx w).1
    logs_out : {w : World J} (i user_idx : ℕ) → Act w (user_logout J i user_idx w).1
    sends :
        {w : World J} (i : ℕ) (url : List ℕ) (jv : Value) (change : User → User)
        → Act w (send_packet_from_broker J i url jv (edit J change) w)
    sends_by_idx :
        {w : World J} (user_idx : ℕ) (url : List ℕ) (jv : Value)
        → Act w (send_packet_from_broker_by_user_idx J user_idx url jv w)
    sends_all :
        {w : World J} (url : List ℕ) (jv : Value) → Act w (send_packet_from_broker_all J url jv w)
    connects :
        {w : World J} (i : ℕ) → Act w (record w { alive = λ j. if j == i then true else w.alive j })
    goes_away :
        {w : World J} (i : ℕ)
        → w.tags i ≡ none
        → Act w (record w { alive = λ j. if j == i then false else w.alive j })

  pub data Acts (w : World J) : World J → Type 0 where
    here : Acts w w
    next : {v u : World J} → Acts w v → Act v u → Acts w u

  pub send_weak-IsRegistry :
      (target : Option ℕ) (url : List ℕ) (jv : Value) (user_func : ℕ → World J → World J)
      → ((conn : ℕ) (v : World J) → IsRegistry J v → IsRegistry J (user_func conn v))
      → (w : World J) → IsRegistry J w
      → IsRegistry J (send_weak J target url jv user_func w)
  unfolding send_weak send_locked
  send_weak-IsRegistry none url jv user_func keeps w r = r
  send_weak-IsRegistry (some conn) url jv user_func keeps w r = go (w.alive conn) (w.tags conn)
    where
      go :
          (lives : Bool) (tag : Option User)
          → IsRegistry J (send_locked J conn lives tag url jv user_func w)
      go true (some user) =
          let k = keeps conn w r in
          record {
            ordered = k.ordered;
            node_ordered = k.node_ordered;
            matches = k.matches;
            held = k.held;
          }
      go true none = r
      go false tag = r

  pub send_each-IsRegistry :
      (entries : List (ℕ × ℕ)) (url : List ℕ) (jv : Value) (w : World J)
      → IsRegistry J w
      → IsRegistry J (send_each J entries url jv w)
  unfolding send_each call_locked after_call
  send_each-IsRegistry [] url jv w r = r
  send_each-IsRegistry ((i, conn) ∷ entries) url jv w r =
      locked (w.alive conn) (w.tags conn) (λ v x k. send_each-IsRegistry entries url v x k)
    where
      Going : Type 0
      Going =
          (v : Value) (x : World J) → IsRegistry J x → IsRegistry J (send_each J entries url v x)

      called : World J
      called = send_json J conn url jv w

      still : IsRegistry J called
      still = record {
        ordered = r.ordered;
        node_ordered = r.node_ordered;
        matches = r.matches;
        held = r.held;
      }

      after :
          (o : Option Value)
          → Going
          → IsRegistry J (after_call J o (send_each J entries url) called)
      after none go = still
      after (some v) go = go v called still

      locked :
          (b : Bool) (t : Option User)
          → Going
          → IsRegistry J (call_locked J conn b t url jv (send_each J entries url) w)
      locked true (some user) go = after (sent_value J jv) go
      locked true none go = go jv w r
      locked false t go = go jv w r

  pub Act-IsRegistry : {w v : World J} → Act w v → IsRegistry J w → IsRegistry J v
  unfolding user_logined user_logout send_packet_from_broker send_packet_from_broker_by_user_idx
      send_packet_from_broker_all
  Act-IsRegistry {w} (adds i lives) r = add_user-IsRegistry J i w lives r
  Act-IsRegistry {w} (deletes i) r = delete_user-IsRegistry J i w r
  Act-IsRegistry {w} (logs_in i user_idx) r = record {
    ordered = r.ordered;
    node_ordered = emplace-IsOrdered user_idx i w.node_to_user r.node_ordered;
    matches = r.matches;
    held = r.held;
  }
  Act-IsRegistry {w} (logs_out i user_idx) r = record {
    ordered = r.ordered;
    node_ordered = erase-IsOrdered user_idx w.node_to_user r.node_ordered;
    matches = r.matches;
    held = r.held;
  }
  Act-IsRegistry {w} (sends i url jv change) r =
      send_weak-IsRegistry (find i w.users) url jv (edit J change) (edit-IsRegistry J change) w r
  Act-IsRegistry {w} (sends_by_idx user_idx url jv) r =
      send_weak-IsRegistry (find_through J (find user_idx w.node_to_user) w) url jv (λ c v. v)
        (λ c v k. k) w r
  Act-IsRegistry {w} (sends_all url jv) r = send_each-IsRegistry w.users url jv w r
  Act-IsRegistry {w} (connects i) r = record {
    ordered = r.ordered;
    node_ordered = r.node_ordered;
    matches = r.matches;
    held = λ j user tag. connected j user tag;
  }
    where
      connected :
          (j : ℕ) (user : User) → w.tags j ≡ some user → (if j == i then true else w.alive j) ≡ true
      connected j user tag = ground (arith, r.held j user)
  Act-IsRegistry {w} (goes_away i gone) r = record {
    ordered = r.ordered;
    node_ordered = r.node_ordered;
    matches = r.matches;
    held = λ j user tag. remains j user tag;
  }
    where
      remains :
          (j : ℕ) (user : User)
          → w.tags j ≡ some user
          → (if j == i then false else w.alive j) ≡ true
      remains j user tag = ground (arith, r.held j user, gone)

  -- Whatever operations are made on an ordered registry that holds the connections that have a user,
  -- in whatever order, and whatever connections come and go: it stays one. Each connection that has a
  -- user is registered under its identity, is alive, and no other identity is registered.
  pub Acts-IsRegistry : {w v : World J} → IsRegistry J w → Acts w v → IsRegistry J v
  Acts-IsRegistry r here = r
  Acts-IsRegistry r (next acts act) = Act-IsRegistry act (Acts-IsRegistry r acts)
