-- ===== src/Lobby/Start/Tests.antt =====
-- The start of the server with a configuration of both servers, and with one that lacks a key.
use lobbysvr.Base.{ℕ, ◌≡◌, refl, true, List, [], ◌∷◌, Option, none, some}
use lobbysvr.Net.Frame.{json_test_manip}
use lobbysvr.Net.Receiver.{AcceptorFunctions, acceptor_register}
use lobbysvr.Net.Service.{Network, accepting, connecting, back, get_acceptor, expire_timer_ready}
use lobbysvr.Lobby.Json.{pos}
use lobbysvr.Lobby.Tests.{text_json, zeros}
use lobbysvr.Lobby.Broker.{Broker, null_user, try_connect, broker_receiver}
use lobbysvr.Lobby.Start.{
  PropertyTree, SvrSetting, Environment, load_svr_setting, initialize, io_service_thread,
}
use lobbysvr.Lobby.Start.Begin.{unstarted, lobby_service, io_service_thread-pending}

abbrev quiet : ℕ → Network Broker → Option (Network Broker)
quiet arg n = some n

abbrev quiet_functions : AcceptorFunctions (Network Broker)
quiet_functions = record {
  on_accept = quiet;
  on_accept_failed = quiet;
  on_close = quiet;
  on_close_failed = quiet;
  on_expired_session = quiet;
  on_update = quiet;
  no_handler = λ conn msg n. some n;
  init_handler = λ n. some n;
}

-- Every text is "8", every number 4, every flag set.
abbrev tree : PropertyTree
tree = record {
  get_text = λ root key. some (b'8' ∷ []);
  get_number = λ root key. some 4;
  get_int = λ root key. some (pos 4);
  get_flag = λ root key. some true;
}

abbrev svr : SvrSetting
svr = record {
  activate = true;
  addr = b'8' ∷ [];
  listen_port = b'8' ∷ [];
  keep_alive_ms = 4;
  session_timeout_ms = 4;
  workers = 4;
  enc_type = 4;
  tick_time_ms = 4;
}

abbrev environment : Environment
environment = record {
  title = b'8' ∷ [];
  svr_broker = svr;
  svr_lobby = svr;
  svr_room = svr;
  client_version = pos 4;
  test_interface_port = 4;
}

initialize-tree : initialize (some tree) ≡ some environment
unfolding initialize load_svr_setting
initialize-tree = refl

initialize_missing : initialize (some (record tree { get_int = λ root key. none })) ≡ none
unfolding initialize load_svr_setting
initialize_missing = refl

abbrev no_user : Broker
no_user = record { pointer = null_user; tags = λ j. null_user; sent = []; reserved = [] }

abbrev resolve : List ℕ → List ℕ → Option ℕ
resolve addr port = some 7

io_service_thread-pending_example :
    (n : Network Broker) × (io_service_thread 2 3 true
        (acceptor_register quiet_functions)
        (broker_receiver text_json zeros json_test_manip resolve true 50)
        (try_connect text_json zeros json_test_manip resolve true 50 1 0)
        true
        50
        environment
        (unstarted no_user)
      ≡ back true n)
    × (n.pending ≡ accepting 1 1 ∷ connecting 0 7 2 0 ∷ [])
    × (n.current_ios ≡ some 3)
    × (get_acceptor 1 n ≡ some (expire_timer_ready 50 (lobby_service 2 3 50 quiet_functions svr)))
io_service_thread-pending_example =
    io_service_thread-pending 2 3 50 quiet_functions text_json zeros json_test_manip resolve true
      environment no_user 7 refl refl (λ n. refl) refl
