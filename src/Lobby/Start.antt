-- ===== src/Lobby/Start.antt =====
-- The start of the server: `Environment::Initialize` of lobbysvr/environment.cpp over what net/xmlParsingSupport.h reads,
-- and `registAcceptorReceiver`, `registConnectorReceiver` and `ioServiceThread` of lobbysvr/main.cpp.
pub mod Begin
mod Tests
use lobbysvr.Base.{
  ℕ, ◌+◌, ◌*◌, ◌≡◌, refl, ap, ◌∙◌, Bool, true, false, List, [], ◌∷◌, ◌++◌, Option, none, some, ◌==◌,
  if◌then◌else◌,
}
use Prim.Native.String.{String}
use lobbysvr.Net.Receiver.{EventReceiver}
use lobbysvr.Net.Service.{
  ServiceParams, AcceptorUserParams, ConnectorUserParams, Network, Called, back, threw, null_call,
  create_connector, run_service,
}
use lobbysvr.Net.Service.Accepts.{create_acceptor}
use lobbysvr.Lobby.Json.{ℤ}
use lobbysvr.Lobby.Handlers.{◌>>=◌}

-- `boost::property_tree`: what stands under the path `root.key`, read as a text, an unsigned number, an `int` or a
-- flag; `none` where `get` throws.
pub record PropertyTree : Type 0 where
  pub get_text : String → String → Option (List ℕ)
  pub get_number : String → String → Option ℕ
  pub get_int : String → String → Option ℤ
  pub get_flag : String → String → Option Bool

-- `MLN_SvrSetting`.
pub record SvrSetting : Type 0 where
  pub activate : Bool
  pub addr : List ℕ
  pub listen_port : List ℕ
  pub keep_alive_ms : ℕ
  pub session_timeout_ms : ℕ
  pub workers : ℕ
  pub enc_type : ℕ
  pub tick_time_ms : ℕ

pub record Environment : Type 0 where
  pub title : List ℕ
  pub svr_broker : SvrSetting
  pub svr_lobby : SvrSetting
  pub svr_room : SvrSetting
  pub client_version : ℤ
  pub test_interface_port : ℕ

-- `loadSvrSetting`.
unfoldable pub load_svr_setting : PropertyTree → String → Option SvrSetting
load_svr_setting tree root = do
  activate ← tree.get_flag root "activate"
  addr ← tree.get_text root "addr"
  listen_port ← tree.get_text root "listenPort"
  keep_alive_ms ← tree.get_number root "keep_alive_ms"
  session_timeout_ms ← tree.get_number root "session_timeout_ms"
  workers ← tree.get_number root "workers"
  enc_type ← tree.get_number root "enc_type"
  tick_time_ms ← tree.get_number root "tick_time_ms"
  some (record {
    activate = activate;
    addr = addr;
    listen_port = listen_port;
    keep_alive_ms = keep_alive_ms;
    session_timeout_ms = session_timeout_ms;
    workers = workers;
    enc_type = enc_type;
    tick_time_ms = tick_time_ms;
  })

-- `Initialize(szFileName)`: `read_xml` gives the tree of the file or throws; `none` is the result false, after which
-- `main` returns.
unfoldable pub initialize : Option PropertyTree → Option Environment
unfolding load_svr_setting
initialize file = do
  tree ← file
  title ← tree.get_text "config" "title"
  svr_broker ← load_svr_setting tree "config.servers.broker"
  svr_lobby ← load_svr_setting tree "config.servers.lobby"
  svr_room ← load_svr_setting tree "config.servers.room"
  client_version ← tree.get_int "config.misc" "clientVersion"
  test_interface_port ← tree.get_number "config.test_interface" "listenPort"
  some (record {
    title = title;
    svr_broker = svr_broker;
    svr_lobby = svr_lobby;
    svr_room = svr_room;
    client_version = client_version;
    test_interface_port = test_interface_port;
  })

-- `ACCPETOR_IDX::LOBBY` and `CONNECTOR_INDEX::BROKER_CONNECTOR`.
abbrev pub lobby_acceptor : ℕ
lobby_acceptor = 1

module _ {U : Type 0} (hardware_concurrency ios : ℕ) where
  -- `registAcceptorReceiver`; the flag says that it gives an acceptor.
  unfoldable pub regist_acceptor_receiver :
      EventReceiver (Network U) → Bool → ℕ → ℕ → SvrSetting → Network U → Called U
  unfolding create_acceptor
  regist_acceptor_receiver receiver ready now acceptor_idx setting n =
      if setting.activate
      then create_acceptor hardware_concurrency receiver ready now acceptor_idx
          (record {
            ios = ios;
            service_update_time_ms = setting.tick_time_ms;
            keep_alive_time_ms = setting.keep_alive_ms;
          })
          (record {
            addr = [];
            port = setting.listen_port;
            worker_threads_count =
                if setting.workers == 0 then hardware_concurrency * 2 else setting.workers;
          })
          n
      else back false n

  -- `registConnectorReceiver`; `try_connect` is `BrokerConnector::tryConnect`.
  unfoldable pub regist_connector_receiver :
      EventReceiver (Network U)
      → (Network U → Option (Network U))
      → ℕ
      → SvrSetting
      → Network U
      → Option (Network U)
  unfolding create_connector
  regist_connector_receiver receiver try_connect connector_idx setting n =
      if setting.activate
      then (do
        m ←
            create_connector receiver connector_idx
              (record { ios = ios; service_update_time_ms = 1000; keep_alive_time_ms = 0 })
              (record { addr = setting.addr; port = setting.listen_port }) n
        try_connect m)
      else some n

  unfoldable pub with_broker :
      EventReceiver (Network U)
      → (Network U → Option (Network U))
      → ℕ
      → SvrSetting
      → Called U
      → Called U
  unfolding regist_connector_receiver
  with_broker receiver try_connect connector_idx setting (back true n) =
      elim (regist_connector_receiver receiver try_connect connector_idx setting n) [
        | none ↦ null_call
        | some m ↦ back true m
      ]
  with_broker receiver try_connect connector_idx setting (back false n) = back false n
  with_broker receiver try_connect connector_idx setting (threw n) = threw n
  with_broker receiver try_connect connector_idx setting null_call = null_call

  -- `runService`, where it gets to the loop.
  unfoldable pub then_run : Called U → Called U
  unfolding run_service
  then_run (back b n) = elim (run_service n) [ none ↦ null_call | some m ↦ back true m ]
  then_run (threw n) = threw n
  then_run null_call = null_call

  -- `ioServiceThread()`, up to the event loop; the flag says that the build defines USE_CONNECTOR_FOR_BROKER.
  unfoldable pub io_service_thread :
      Bool
      → (ra rc : EventReceiver (Network U)) → (Network U → Option (Network U))
      → Bool
      → ℕ
      → Environment
      → Network U
      → Called U
  unfolding with_broker then_run regist_acceptor_receiver
  io_service_thread for_broker ra rc try_connect ready now env n =
      let with_lobby = regist_acceptor_receiver ra ready now lobby_acceptor env.svr_lobby n in
      then_run
        (if for_broker then with_broker rc try_connect 0 env.svr_broker with_lobby else with_lobby)
