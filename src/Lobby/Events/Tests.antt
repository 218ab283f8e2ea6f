-- ===== src/Lobby/Events/Tests.antt =====
-- The theorem on the events of the server at a connection that is accepted, chats, and closes.
use lobbysvr.Base.{◌≡◌, refl, true, false, ◌==◌, if◌then◌else◌, [], none, some}
use lobbysvr.Lobby.Tests.{text_json}
use lobbysvr.Lobby.Json.{pos}
use lobbysvr.Lobby.Users.{User, get_user}
use lobbysvr.Lobby.Users.Registry.{entry}
use lobbysvr.Lobby.Handlers.{Server, Setting, lobby_dispatch, chat_url}
use lobbysvr.Lobby.Events.{
  Events, here, next, made, accepted, requested, started, on_accept, on_close, Events-get_user,
}

abbrev setting : Setting text_json
setting = record { local_time = 1000; client_version = pos 1 }

abbrev connected : Server text_json
connected = record (started text_json) {
  world = record (started text_json).world { alive = λ j. if j == 3 then true else false };
}

abbrev chatted : Server text_json
chatted = lobby_dispatch text_json setting 3 chat_url [] (on_accept text_json 3 connected)

chatted-Events : Events text_json setting (started text_json) chatted
chatted-Events = next (next (next here (made 3)) (accepted 3 refl)) (requested 3 chat_url [])

Events-get_user_example :
    (get_user text_json 3 chatted.world ≡ entry 3 (chatted.world.tags 3))
    × ((user : User) → chatted.world.tags 3 ≡ some user → chatted.world.alive 3 ≡ true)
    × (get_user text_json 3 (on_close text_json 3 chatted).world ≡ none)
Events-get_user_example = Events-get_user text_json setting chatted 3 chatted-Events
