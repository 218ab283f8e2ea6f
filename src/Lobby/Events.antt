-- ===== src/Lobby/Events.antt =====
-- The event receiver of the lobby, lobbysvr/lobbyAcceptorReceiver.cpp, and the events that reach the server:
-- connections that are made, closed or lost, requests of clients and requests of the broker.
mod Tests
use lobbysvr.Base.{
  ℕ, ◌≡◌, refl, sym, ap, ◌∙◌, Bool, true, false, List, [], ◌∷◌, ◌++◌, Option, none, some, arith,
  ◌==◌, ==_refl, if◌then◌else◌,
}
use lobbysvr.Lobby.Json.{JsonLib}
use lobbysvr.Lobby.OrderedMap.{find}
use lobbysvr.Lobby.Users.{User, World, add_user, delete_user, get_user}
use lobbysvr.Lobby.Users.Registry.{
  IsRegistry, Act-IsRegistry, adds, deletes, connects, goes_away, entry, tags-delete_user,
}
use lobbysvr.Lobby.Handlers.{Server, Setting, lobby_dispatch, broker_dispatch}
use lobbysvr.Lobby.Handlers.Registry.{dispatch-IsRegistry}

module _ (J : JsonLib) where
  open J use {Value}

  -- `onAccept`, `onClose`, `noHandler` and `onExpiredSession`; their logging is left out.
  unfoldable pub on_accept : ℕ → Server J → Server J
  on_accept conn s = record s { world = add_user J conn s.world }

  unfoldable pub on_close : ℕ → Server J → Server J
  on_close conn s = record s { world = delete_user J conn s.world }

  unfoldable pub no_handler : ℕ → Server J → Server J
  no_handler conn s = record s { reserved = s.reserved ++ conn ∷ [] }

  unfoldable pub on_expired_session : ℕ → Server J → Server J
  on_expired_session conn s = record s { reserved = s.reserved ++ conn ∷ [] }

  -- An event; a connection that is accepted or closed is alive, since its caller holds it.
  pub data Event (setting : Setting J) : Server J → Server J → Type 0 where
    made :
        {s : Server J} (conn : ℕ)
        → Event setting s (record s {
          world = record s.world { alive = λ j. if j == conn then true else s.world.alive j };
        })
    lost :
        {s : Server J} (conn : ℕ)
        → s.world.tags conn ≡ none
        → Event setting s (record s {
          world = record s.world { alive = λ j. if j == conn then false else s.world.alive j };
        })
    accepted :
        {s : Server J} (conn : ℕ) → s.world.alive conn ≡ true → Event setting s (on_accept conn s)
    closed : {s : Server J} (conn : ℕ) → Event setting s (on_close conn s)
    requested :
        {s : Server J} (conn : ℕ) (url : List ℕ) (jv : Value)
        → Event setting s (lobby_dispatch J setting conn url jv s)
    broker_requested :
        {s : Server J} (conn : ℕ) (url : List ℕ) (jv : Value)
        → Event setting s (broker_dispatch J conn url jv s)
    unhandled : {s : Server J} (conn : ℕ) → Event setting s (no_handler conn s)
    expired : {s : Server J} (conn : ℕ) → Event setting s (on_expired_session conn s)

  pub data Events (setting : Setting J) (s : Server J) : Server J → Type 0 where
    here : Events setting s s
    next : {t u : Server J} → Events setting s t → Event setting t u → Events setting s u

  -- The server before its first event.
  abbrev pub started : Server J
  started = record {
    world = record {
      tags = λ i. none;
      alive = λ i. false;
      users = [];
      node_to_user = [];
      sent = [];
      broker_calls = [];
    };
    broker_idx = 0;
    reserved = [];
  }

  pub started-IsRegistry : IsRegistry J started.world
  unfolding find
  started-IsRegistry = record {
    ordered = tt;
    node_ordered = tt;
    matches = λ i. refl;
    held = λ i user e. cc;
  }

  Event-IsRegistry :
      (setting : Setting J) {s t : Server J}
      → Event setting s t
      → IsRegistry J s.world
      → IsRegistry J t.world
  unfolding on_accept on_close no_handler on_expired_session
  Event-IsRegistry setting (made conn) r = Act-IsRegistry J (connects conn) r
  Event-IsRegistry setting (lost conn gone) r = Act-IsRegistry J (goes_away conn gone) r
  Event-IsRegistry setting (accepted conn lives) r = Act-IsRegistry J (adds conn lives) r
  Event-IsRegistry setting (closed conn) r = Act-IsRegistry J (deletes conn) r
  Event-IsRegistry setting {s} (requested conn url jv) r =
      (dispatch-IsRegistry J setting conn url jv s r).0
  Event-IsRegistry setting {s} (broker_requested conn url jv) r =
      (dispatch-IsRegistry J setting conn url jv s r).1
  Event-IsRegistry setting (unhandled conn) r = r
  Event-IsRegistry setting (expired conn) r = r

  pub Events-IsRegistry :
      (setting : Setting J) {s t : Server J}
      → Events setting s t
      → IsRegistry J s.world
      → IsRegistry J t.world
  Events-IsRegistry setting here r = r
  Events-IsRegistry setting (next events event) r =
      Event-IsRegistry setting event (Events-IsRegistry setting events r)

  -- Whatever events have reached the server since it started, in whatever order: `getUser` finds exactly
  -- the connections that have a user, each of them is alive, and none is found once it has closed.
  pub Events-get_user :
      (setting : Setting J) (s : Server J) (i : ℕ)
      → Events setting started s
      → (get_user J i s.world ≡ entry i (s.world.tags i))
        × ((user : User) → s.world.tags i ≡ some user → s.world.alive i ≡ true)
        × (get_user J i (on_close i s).world ≡ none)
  unfolding get_user on_close
  Events-get_user setting s i events =
      let r = Events-IsRegistry setting events started-IsRegistry in
      let closed_r = Act-IsRegistry J (deletes i) r in
      (r.matches i, r.held i, closed_r.matches i ∙ ap (entry i) (tags-delete_user J i s.world))
