-- ===== src/Lobby/Handlers/Registry.antt =====
-- The handlers of requests against the registry of users: lobbysvr/nh_lobby.cpp, lobbysvr/nh_chat.cpp,
-- lobbysvr/connectorHandler.cpp.
use lobbysvr.Base.{
  ℕ, Bool, true, false, List, [], ◌∷◌, Option, none, some, ◌==◌, inl, inr, Bool-cases,
  if◌then◌else◌, length,
}
use lobbysvr.Lobby.Json.{JsonLib, pos}
use lobbysvr.Lobby.OrderedMap.{find}
use lobbysvr.Lobby.Users.{User, World, send_packet_from_broker}
use lobbysvr.Lobby.Users.Registry.{
  IsRegistry, Act-IsRegistry, sends_all, sends_by_idx, send_weak-IsRegistry,
}
use lobbysvr.Lobby.Handlers.{
  Server, Setting, Handler, ◌>>=◌, find_url, same_int, same_url, login, login_tagged,
  version_failed, send_msg, send_msg_tagged, relay_text, relayed, short_target, auth, logined_user,
  is_online, chat_send_msg, chat_receive_msg, to_channel, lobby_urls, broker_urls, caught,
  call_found, lobby_dispatch, broker_dispatch, chat_url, friend_url, online_response,
}

module _ (J : JsonLib) where
  open J use {Value, member, as_int, as_uint, as_uint64, as_string}

  -- A handler that gives a result has kept the registry.
  abbrev Kept : Option (Server J) → Type 0
  Kept (some s) = IsRegistry J s.world
  Kept none = Unit {0}

  Keeping : Handler J → Type 0
  Keeping handler =
      (conn : ℕ) (url : List ℕ) (jv : Value) (s : Server J)
      → IsRegistry J s.world
      → Kept (handler conn url jv s)

  bind-Kept :
      {A : Type 0} (a : Option A) (f : A → Option (Server J))
      → ((x : A) → Kept (f x))
      → Kept (a >>= f)
  bind-Kept none f h = tt
  bind-Kept (some a) f h = h a

  chosen-Kept : (b : Bool) (a c : Option (Server J)) → Kept a → Kept c → Kept (if b then a else c)
  chosen-Kept true a c h k = h
  chosen-Kept false a c h k = k

  login-Keeping : (setting : Setting J) → Keeping (login J setting)
  unfolding Keeping login login_tagged
  login-Keeping setting conn url jv s r = go (s.world.tags conn)
    where
      versioned : (b : Bool) → IsRegistry J (if b then s else version_failed J conn url jv s).world
      versioned true = r
      versioned false = record {
        ordered = r.ordered;
        node_ordered = r.node_ordered;
        matches = r.matches;
        held = r.held;
      }

      go : (t : Option User) → Kept (login_tagged J setting t conn url jv s)
      go none = r
      go (some user) = bind-Kept (as_string (member jv "userID")) _ λ user_id.
          bind-Kept (as_string (member jv "userPW")) _ λ user_pw.
            bind-Kept (as_int (member jv "clientVersion")) _
              λ version. versioned (same_int version setting.client_version)

  send_msg-Keeping : (setting : Setting J) → Keeping (send_msg J setting)
  unfolding Keeping send_msg send_msg_tagged relay_text
  send_msg-Keeping setting conn url jv s r = go (s.world.tags conn)
    where
      sent :
          (user : User) (b : Bool)
          → IsRegistry J (if b then s else relayed J setting user conn jv s).world
      sent user true = r
      sent user false = record {
        ordered = r.ordered;
        node_ordered = r.node_ordered;
        matches = r.matches;
        held = r.held;
      }

      go : (t : Option User) → Kept (send_msg_tagged J setting t conn url jv s)
      go none = r
      go (some user) =
          bind-Kept (as_string (member jv "msg")) (relay_text J setting user conn jv s) λ text.
            chosen-Kept (length text == 0) (some s) _ r (
              bind-Kept (as_int (member jv "channelType")) _
                λ channel. bind-Kept (short_target J jv channel) _ λ short. sent user short)

  auth-Keeping : Keeping (auth J)
  unfolding Keeping auth
  auth-Keeping conn url jv s r = bind-Kept (as_uint (member jv "serverIDX")) _ λ idx. r

  logined_user-Keeping : Keeping (logined_user J)
  unfolding Keeping logined_user
  logined_user-Keeping conn url jv s r =
      bind-Kept (as_uint64 (member jv "identity")) _ λ identity. r

  send-Keeping :
      (identity : ℕ) (url : List ℕ) (jv : Value) (w : World J)
      → IsRegistry J w
      → IsRegistry J (send_packet_from_broker J identity url jv (λ c w. w) w)
  unfolding send_packet_from_broker
  send-Keeping identity url jv w r =
      send_weak-IsRegistry J (find identity w.users) url jv (λ c w. w) (λ c w k. k) w r

  is_online-Keeping : Keeping (is_online J)
  unfolding Keeping is_online
  is_online-Keeping conn url jv s r =
      bind-Kept (as_uint64 (member (online_response J jv) "identity")) _
        λ identity. send-Keeping identity friend_url (online_response J jv) s.world r

  chat_send_msg-Keeping : Keeping (chat_send_msg J)
  unfolding Keeping chat_send_msg
  chat_send_msg-Keeping conn url jv s r =
      bind-Kept (as_uint64 (member jv "identity")) _
        λ identity. send-Keeping identity chat_url jv s.world r

  chat_receive_msg-Keeping : Keeping (chat_receive_msg J)
  unfolding Keeping chat_receive_msg to_channel
  chat_receive_msg-Keeping conn url jv s r =
      bind-Kept (as_int (member jv "channelType")) (to_channel J jv s) λ channel.
        chosen-Kept (same_int channel (pos 1)) _ _ (Act-IsRegistry J (sends_all _ jv) r) (
          chosen-Kept (same_int channel (pos 2)) _ _
            (bind-Kept (as_uint (member jv "addition_toIDX")) _
              λ idx. Act-IsRegistry J (sends_by_idx idx _ jv) r)
            r)

  -- What is found among handlers that keep the registry keeps it.
  abbrev KeepingAll : List (List ℕ × Handler J) → Type 0
  KeepingAll [] = Unit {0}
  KeepingAll ((url, handler) ∷ handlers) = Keeping handler × KeepingAll handlers

  abbrev KeepingFound : Option (Handler J) → Type 0
  KeepingFound none = Unit {0}
  KeepingFound (some handler) = Keeping handler

  find_url-KeepingFound :
      (url : List ℕ) (handlers : List (List ℕ × Handler J))
      → KeepingAll handlers
      → KeepingFound (find_url url handlers)
  find_url-KeepingFound url [] all = tt
  find_url-KeepingFound url ((other, handler) ∷ handlers) (h, all) =
      elim (Bool-cases (same_url other url)) [
        | inl e ↦ rw e h
        | inr e ↦ rw e (find_url-KeepingFound url handlers all)
      ]

  call_found-IsRegistry :
      (handler : Option (Handler J)) (conn : ℕ) (url : List ℕ) (jv : Value) (s : Server J)
      → KeepingFound handler
      → IsRegistry J s.world
      → IsRegistry J (call_found J handler conn url jv s).world
  unfolding call_found caught Keeping
  call_found-IsRegistry none conn url jv s k r = r
  call_found-IsRegistry (some handler) conn url jv s k r =
      go (handler conn url jv s) (k conn url jv s r)
    where
      go : (o : Option (Server J)) → Kept o → IsRegistry J (caught J s o).world
      go none h = r
      go (some after) h = h

  -- Whatever value a client sends under whatever URL, and whatever the broker sends: a registry that
  -- holds the connections that have a user is one after the `dispatch` of it.
  pub dispatch-IsRegistry :
      (setting : Setting J) (conn : ℕ) (url : List ℕ) (jv : Value) (s : Server J)
      → IsRegistry J s.world
      → IsRegistry J (lobby_dispatch J setting conn url jv s).world
        × IsRegistry J (broker_dispatch J conn url jv s).world
  unfolding lobby_dispatch broker_dispatch lobby_urls broker_urls
  dispatch-IsRegistry setting conn url jv s r = (
    call_found-IsRegistry (find_url url (lobby_urls J setting)) conn url jv s
        (find_url-KeepingFound url (lobby_urls J setting)
          (login-Keeping setting, (send_msg-Keeping setting, tt)))
        r,
    call_found-IsRegistry (find_url url (broker_urls J)) conn url jv s
        (find_url-KeepingFound url (broker_urls J) (
          auth-Keeping,
          (
            logined_user-Keeping,
            (is_online-Keeping, (chat_send_msg-Keeping, (chat_receive_msg-Keeping, tt))),
          ),
        ))
        r,
  )
