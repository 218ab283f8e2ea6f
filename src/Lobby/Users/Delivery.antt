-- ===== src/Lobby/Users/Delivery.antt =====
-- Whom the sends of lobbysvr/lobbyUserManager.cpp reach.
use lobbysvr.Base.{
  ℕ, ◌≡◌, refl, sym, ap, ◌∙◌, Bool, true, false, List, [], ◌∷◌, ◌++◌, Option, none, some, map, take,
  arith, ◌==◌, ==_refl, if◌then◌else◌, append-nil,
}
use lobbysvr.Lobby.Json.{JsonLib}
use lobbysvr.Net.Memory.{Memory}
use lobbysvr.Net.Buffer.{MsgUserManip}
use lobbysvr.Lobby.SendJson.{sent_value, json_raised, send_json_packet, send_json_packet-sent_value}
use lobbysvr.Lobby.OrderedMap.{
  find, emplace, erase, erase-IsOrdered, find-emplace, find-erase, erase-emplace, emplaced_new,
  emplaced_old, AllEntries, found-AllEntries,
}
use lobbysvr.Lobby.Users.{
  User, World, send_packet_from_broker, new_user, set_tag, inserted, add_untagged, add_user,
  erase_found, delete_tagged, delete_user, user_logined, user_logout, send_locked, send_weak,
  find_through, send_packet_from_broker_by_user_idx, call_locked, after_call, send_each,
  send_packet_from_broker_all, user_logout_url, logout_request, connected_url, connected_response,
}
use lobbysvr.Lobby.Users.Registry.{entry, IsRegistry}

module _ (J : JsonLib) where
  open J use {Value}

  -- The connection lives and has a user, and stands under its identity.
  abbrev Reachable : World J → ℕ → ℕ → Type 0
  Reachable w i conn = (conn ≡ i) × (w.alive i ≡ true) × ((user : User) × (w.tags i ≡ some user))

  Reachable-entry :
      (w : World J)
      → IsRegistry J w
      → (i conn : ℕ) → find i w.users ≡ some conn
      → Reachable w i conn
  Reachable-entry w r i conn e = go (w.tags i) refl
    where
      go : (t : Option User) → w.tags i ≡ t → Reachable w i conn
      go none e' = absurd-none (sym e ∙ r.matches i ∙ ap (entry i) e')
        where
          absurd-none : some conn ≡ none → Reachable w i conn
          absurd-none h = cc
      go (some user) e' =
          (same (sym e ∙ r.matches i ∙ ap (entry i) e'), r.held i user e', (user, e'))
        where
          same : some conn ≡ some i → conn ≡ i
          same h = cc

  send_weak-Reachable :
      (w : World J) (i conn : ℕ) (url : List ℕ) (jv : Value)
      → Reachable w i conn
      → send_weak J (some conn) url jv (λ c v. v) w
        ≡ record w { sent = w.sent ++ (i, url, jv) ∷ [] }
  unfolding send_weak send_locked
  send_weak-Reachable w i conn url jv (e, lives, (user, tag)) = rw (e, lives, tag) refl

  abbrev calls : List (ℕ × ℕ) → List ℕ → Value → List (ℕ × List ℕ × Value)
  calls entries url jv = map (λ e. (e.0, url, jv)) entries

  -- One round of the loop, at a connection that lives and has a user.
  call_locked-Reachable :
      (w : World J) (i conn : ℕ) (url : List ℕ) (jv : Value) (rest : Value → World J → World J)
      → Reachable w i conn
      → call_locked J conn (w.alive conn) (w.tags conn) url jv rest w
        ≡ after_call J (sent_value J jv) rest (record w { sent = w.sent ++ (i, url, jv) ∷ [] })
  unfolding call_locked
  call_locked-Reachable w i conn url jv rest (e, lives, (user, tag)) = rw (e, lives, tag) refl

  -- The calls of a loop in which the first call makes `v` of the value.
  abbrev pub all_calls : List (ℕ × ℕ) → List ℕ → (jv v : Value) → List (ℕ × List ℕ × Value)
  all_calls [] url jv v = []
  all_calls (e ∷ entries) url jv v = (e.0, url, jv) ∷ map (λ f. (f.0, url, v)) entries

  send_each-raised :
      (entries : List (ℕ × ℕ)) (url : List ℕ) (jv : Value) (w : World J)
      → sent_value J jv ≡ none
      → AllEntries (Reachable w) entries
      → send_each J entries url jv w ≡ record w { sent = w.sent ++ calls (take 1 entries) url jv }
  unfolding send_each after_call
  send_each-raised [] url jv w throws all =
      ap (λ sent. record w { sent = sent }) (sym (append-nil w.sent))
  send_each-raised ((i, conn) ∷ entries) url jv w throws (h, all) =
      call_locked-Reachable w i conn url jv (send_each J entries url) h
      ∙ ap
          (λ o.
            after_call J o (send_each J entries url)
              (record w { sent = w.sent ++ (i, url, jv) ∷ [] }))
          throws

  -- On a registry that holds the connections that have a user, a send to all of a value on which jsoncpp
  -- throws ends at the entry of the lowest identity, if there is one: `SendJsonPacket` is called for that
  -- one alone, comes to the exception, on whatever connection, and nobody else gets anything.
  pub send_all_raised :
      (w : World J) (url : List ℕ) (jv : Value)
      → IsRegistry J w
      → sent_value J jv ≡ none
      → (send_packet_from_broker_all J url jv w
          ≡ record w { sent = w.sent ++ map (λ e. (e.0, url, jv)) (take 1 w.users) })
        × ((m : Memory) (manip : MsgUserManip) (enc_type : ℕ)
            → send_json_packet J m manip enc_type url jv ≡ json_raised)
  unfolding send_packet_from_broker_all
  send_all_raised w url jv r throws = (
    send_each-raised w.users url jv w throws
        (found-AllEntries (Reachable w) w.users r.ordered (Reachable-entry w r)),
    λ m manip enc_type. send_json_packet-sent_value J m manip enc_type url jv throws,
  )

  -- On a registry that holds the connections that have a user: where an index was logged out and
  -- then logged in with a connection that has a user, a send by the index makes one send, to that
  -- connection, and changes nothing else.
  pub relogin_lem :
      (w : World J) (conn user_idx old : ℕ) (user : User) (url : List ℕ) (jv : Value)
      → IsRegistry J w
      → w.tags conn ≡ some user
      → let v = (user_logined J conn user_idx (user_logout J old user_idx w).1).1 in
        send_packet_from_broker_by_user_idx J user_idx url jv v
        ≡ record v { sent = w.sent ++ (conn, url, jv) ∷ [] }
  unfolding user_logined user_logout send_packet_from_broker_by_user_idx find_through
  relogin_lem w conn user_idx old user url jv r tag =
      ap (λ target. send_weak J (find_through J target v) url jv (λ c x. x) v) indexed
      ∙ ap (λ target. send_weak J target url jv (λ c x. x) v) registered
      ∙ send_weak-Reachable v conn conn url jv (refl, r.held conn user tag, (user, tag))
    where
      v : World J
      v = (user_logined J conn user_idx (user_logout J old user_idx w).1).1

      erased : find user_idx (erase user_idx w.node_to_user) ≡ none
      erased = find-erase user_idx user_idx w.node_to_user r.node_ordered ∙ ground arith

      indexed : find user_idx v.node_to_user ≡ some conn
      indexed =
          find-emplace user_idx user_idx conn (erase user_idx w.node_to_user)
            (erase-IsOrdered user_idx w.node_to_user r.node_ordered)
          ∙ rw erased (ground arith)

      registered : find_through J (some conn) v ≡ some conn
      registered = r.matches conn ∙ ap (entry conn) tag

  -- On a registry that holds the connections that have a user: a login under an index that is logged
  -- in with a connection that has a user returns true and changes nothing, and a send by the index
  -- makes one send, to the first connection.
  pub second_login_lem :
      (w : World J) (first second user_idx : ℕ) (user : User) (url : List ℕ) (jv : Value)
      → IsRegistry J w
      → find user_idx w.node_to_user ≡ some first
      → w.tags first ≡ some user
      → let v = (user_logined J second user_idx w).1 in
        ((user_logined J second user_idx w).0 ≡ true)
        × (v ≡ w)
        × (send_packet_from_broker_by_user_idx J user_idx url jv v
            ≡ record w { sent = w.sent ++ (first, url, jv) ∷ [] })
  unfolding user_logined send_packet_from_broker_by_user_idx find_through
  second_login_lem w first second user_idx user url jv r indexed tag = (
    refl,
    unchanged,
    ap (send_packet_from_broker_by_user_idx J user_idx url jv) unchanged
        ∙ ap (λ target. send_weak J (find_through J target w) url jv (λ c x. x) w) indexed
        ∙ ap (λ target. send_weak J target url jv (λ c x. x) w)
            (r.matches first ∙ ap (entry first) tag)
        ∙ send_weak-Reachable w first first url jv (refl, r.held first user tag, (user, tag)),
  )
    where
      unchanged : (user_logined J second user_idx w).1 ≡ w
      unchanged =
          ap (λ r. record w { node_to_user = r.1 })
            (emplaced_old user_idx second first w.node_to_user r.node_ordered indexed)

  inserted-new :
      (i : ℕ) (p : Bool × List (ℕ × ℕ)) (w : World J)
      → p.0 ≡ true
      → inserted J i p w
        ≡ record w { users = p.1; sent = w.sent ++ (i, connected_url, connected_response J) ∷ [] }
  unfolding inserted
  inserted-new i (true, users) w e = refl
  inserted-new i (false, users) w e = cc

  delete_tagged-found :
      (i : ℕ) (user : User) (w : World J) {t : Option User} {conn : ℕ}
      → t ≡ some user
      → find i w.users ≡ some conn
      → delete_tagged J i t w
        ≡ set_tag J i none (record w {
          users = erase i w.users;
          broker_calls = w.broker_calls ++ (user_logout_url, logout_request J user) ∷ [];
          node_to_user = erase user.user_idx w.node_to_user;
        })
  unfolding delete_tagged erase_found
  delete_tagged-found i user w e found = rw (e, found) refl

  -- On a registry that holds the connections that have a user: when a connection without one is
  -- added and then deleted, the registered connections and the tags are as before, the connection
  -- was sent the greeting, and the broker one logout, that of a new user.
  pub delete_user-add_user :
      (w : World J) (i : ℕ)
      → IsRegistry J w
      → w.tags i ≡ none
      → let v = delete_user J i (add_user J i w) in
        (v.users ≡ w.users)
        × ((j : ℕ) → v.tags j ≡ w.tags j)
        × (v.sent ≡ w.sent ++ (i, connected_url, connected_response J) ∷ [])
        × (v.broker_calls ≡ w.broker_calls ++ (user_logout_url, logout_request J new_user) ∷ [])
  unfolding add_user add_untagged delete_user
  delete_user-add_user w i r untagged =
      rw (ap (delete_user J i) added ∙ deleted)
        (erase-emplace i i w.users r.ordered absent, untag, refl, refl)
    where
      absent : find i w.users ≡ none
      absent = r.matches i ∙ ap (entry i) untagged

      a : World J
      a = record w {
        tags = λ j. if j == i then some new_user else w.tags j;
        users = (emplace i i w.users).1;
        sent = w.sent ++ (i, connected_url, connected_response J) ∷ [];
      }

      added : add_user J i w ≡ a
      added =
          ap (λ t. add_untagged J i t w) untagged
          ∙ inserted-new i (emplace i i w.users) (set_tag J i (some new_user) w)
              (emplaced_new i i w.users r.ordered absent)

      found : find i a.users ≡ some i
      found = find-emplace i i i w.users r.ordered ∙ rw absent (ground arith)

      deleted :
          delete_user J i a
          ≡ set_tag J i none (record a {
            users = erase i a.users;
            broker_calls = a.broker_calls ++ (user_logout_url, logout_request J new_user) ∷ [];
            node_to_user = erase 0 a.node_to_user;
          })
      deleted = delete_tagged-found i new_user a (rw (==_refl i) refl) found

      untag :
          (j : ℕ) → (if j == i then none else if j == i then some new_user else w.tags j) ≡ w.tags j
      untag j = ground (arith, untagged)

  -- On a registry that holds the connections that have a user: a send from the broker to an identity
  -- whose connection has a user makes one send, to that connection.
  pub send_packet_from_broker_lem :
      (w : World J) (i : ℕ) (user : User) (url : List ℕ) (jv : Value)
      → IsRegistry J w
      → w.tags i ≡ some user
      → send_packet_from_broker J i url jv (λ c v. v) w
        ≡ record w { sent = w.sent ++ (i, url, jv) ∷ [] }
  unfolding send_packet_from_broker
  send_packet_from_broker_lem w i user url jv r tag =
      ap (λ target. send_weak J target url jv (λ c v. v) w) (r.matches i ∙ ap (entry i) tag)
      ∙ send_weak-Reachable w i i url jv (refl, r.held i user tag, (user, tag))
