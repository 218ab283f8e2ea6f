-- ===== src/Lobby/Start/Begin.antt =====
-- What `ioServiceThread` of lobbysvr/main.cpp has started when the event loop begins.
use lobbysvr.Base.{
  ℕ, ◌+◌, ◌*◌, ◌≡◌, refl, sym, ap, ◌∙◌, Bool, true, false, List, [], ◌∷◌, Option, none, some, arith,
  ◌==◌, if◌then◌else◌,
}
use lobbysvr.Net.Memory.{Memory}
use lobbysvr.Net.Buffer.{MsgUserManip}
use lobbysvr.Net.Receiver.{
  AcceptorFunctions, acceptor_register, connector_register, clone, invoke_init,
}
use lobbysvr.Net.Service.{
  ServiceImpl, Connector, unresolved, Operation, accepting, connecting, ServiceParams,
  AcceptorUserParams, Network, back, null_call, create_connector, new_connector, run_service,
  chosen_ios, first_acceptor_ios, slot, set_slot, grown, new_service, put_acceptor, put_connector,
  get_connector, get_acceptor, kept_receiver, create_session, new_session, pend, expire_timer_ready,
  add_worker_threads,
}
use lobbysvr.Net.Service.Connects.{set_end_point, end_point, target_ip, resolved, one_less}
use lobbysvr.Net.Service.Connecting.{waiting, connect_wait-waiting}
use lobbysvr.Net.Service.Accepts.{create_acceptor, new_acceptor, accept_wait, accept_next}
use lobbysvr.Lobby.Json.{JsonLib}
use lobbysvr.Lobby.Broker.{Broker, try_connect, broker_receiver, broker_functions}
use lobbysvr.Lobby.Start.{
  SvrSetting, Environment, regist_acceptor_receiver, regist_connector_receiver, with_broker,
  then_run, io_service_thread,
}

-- The services before the server starts.
abbrev pub unstarted : Broker → Network Broker
unstarted b = record {
  acceptors = [];
  connectors = [];
  sessions = [];
  identity_seed = 1;
  threads = 0;
  current_ios = none;
  pending = [];
  user = b;
}

expire_timer_ready-ios : (now : ℕ) (s : ServiceImpl) → (expire_timer_ready now s).ios ≡ s.ios
unfolding expire_timer_ready
expire_timer_ready-ios now s = ground arith

module _ (hardware_concurrency ios now : ℕ) (f : AcceptorFunctions (Network Broker)) where
  abbrev pub lobby_service : SvrSetting → ServiceImpl
  lobby_service setting = record {
    index = 1;
    ios = ios;
    update_time_ms = setting.tick_time_ms;
    keep_alive_time_ms = setting.keep_alive_ms;
    updater = none;
    prev_time = 0;
    receiver_event_closed = false;
  }

  abbrev workers_of : SvrSetting → ℕ
  workers_of setting = if setting.workers == 0 then hardware_concurrency * 2 else setting.workers

  abbrev params_of : SvrSetting → ServiceParams
  params_of setting = record {
    ios = ios;
    service_update_time_ms = setting.tick_time_ms;
    keep_alive_time_ms = setting.keep_alive_ms;
  }

  abbrev user_params_of : SvrSetting → AcceptorUserParams
  user_params_of setting = record {
    addr = [];
    port = setting.listen_port;
    worker_threads_count = workers_of setting;
  }

  -- The services when the acceptor waits for its first client.
  abbrev with_acceptor : SvrSetting → Broker → Network Broker
  with_acceptor setting b = record (unstarted b) {
    acceptors = none ∷ some (expire_timer_ready now (lobby_service setting)) ∷ [];
    sessions = new_session (lobby_service setting) 0 1 ∷ [];
    identity_seed = 2;
    threads = 0 + (if workers_of setting == 0 then hardware_concurrency else workers_of setting);
    pending = accepting 1 1 ∷ [];
  }

  started_acceptor :
      (setting : SvrSetting) (b : Broker)
      → setting.activate ≡ true
      → ((n : Network Broker) → f.init_handler n ≡ some n)
      → regist_acceptor_receiver hardware_concurrency ios
          (acceptor_register f)
          true
          now
          1
          setting
          (unstarted b)
        ≡ back true (with_acceptor setting b)
  unfolding regist_acceptor_receiver create_acceptor kept_receiver clone acceptor_register
      invoke_init new_acceptor accept_wait accept_next create_session pend put_acceptor
      add_worker_threads new_service grown slot set_slot
  started_acceptor setting b active init =
      let sized = record (unstarted b) { acceptors = none ∷ none ∷ [] } in
      ap
        (λ a.
          if a
          then new_acceptor hardware_concurrency true now 1 (params_of setting)
              (user_params_of setting) (f.init_handler sized)
          else back false (unstarted b))
        active
      ∙ ap
          (new_acceptor hardware_concurrency true now 1 (params_of setting)
            (user_params_of setting))
          (init sized)

  -- The services when the loop of `ios` begins.
  abbrev runs_on : Network Broker → Network Broker
  runs_on n = record n { current_ios = some ios; threads = if n.threads == 0 then 1 else n.threads }

  run_service_lem :
      (setting : SvrSetting) (n : Network Broker)
      → n.acceptors ≡ none ∷ some (expire_timer_ready now (lobby_service setting)) ∷ []
      → run_service n ≡ some (runs_on n)
  unfolding run_service chosen_ios first_acceptor_ios
  run_service_lem setting n e =
      ap (λ slots. run_service (record n { acceptors = slots })) e
      ∙ ap
          (λ i. some (record n {
            acceptors = none ∷ some (expire_timer_ready now (lobby_service setting)) ∷ [];
            current_ios = some i;
            threads = if n.threads == 0 then 1 else n.threads;
          }))
          (expire_timer_ready-ios now (lobby_service setting))
      ∙ ap (λ slots. some (record (runs_on n) { acceptors = slots })) (sym e)

  module _ (J : JsonLib) (m : Memory) (manip : MsgUserManip)
      (resolve : List ℕ → List ℕ → Option ℕ) where
    abbrev unresolved_connector : SvrSetting → Connector
    unresolved_connector setting = record {
      service = record {
        index = 0;
        ios = ios;
        update_time_ms = 1000;
        keep_alive_time_ms = 0;
        updater = none;
        prev_time = 0;
        receiver_event_closed = false;
      };
      target_addr = setting.addr;
      target_port = setting.listen_port;
      resolver = unresolved;
    }

    abbrev ready_connector : SvrSetting → Connector
    ready_connector setting =
        set_end_point resolve setting.addr setting.listen_port (unresolved_connector setting)

    started_connector :
        (setting : SvrSetting) (endpoint : ℕ) (n : Network Broker)
        → setting.activate ≡ true
        → resolve (target_ip setting.addr) setting.listen_port ≡ some endpoint
        → regist_connector_receiver hardware_concurrency ios
            (broker_receiver J m manip resolve true now)
            (try_connect J m manip resolve true now 1 0)
            0
            setting
            (record n { connectors = [] })
          ≡ some (
              waiting now 0 1 0 0 endpoint
                (ready_connector setting)
                (record n { connectors = some (unresolved_connector setting) ∷ [] }))
    unfolding regist_connector_receiver create_connector kept_receiver clone broker_receiver
        broker_functions connector_register invoke_init new_connector put_connector new_service
        grown slot set_slot try_connect get_connector set_end_point end_point resolved
    started_connector setting endpoint n active found =
        let c = unresolved_connector setting in
        let made = record n { connectors = some c ∷ [] } in
        ap
          (λ a.
            if a
            then try_connect J m manip resolve true now 1 0 made
            else some (record n { connectors = [] }))
          active
        ∙ ap some (
            connect_wait-waiting resolve now 0 1 0 0 endpoint c made
              (ap (λ r. end_point (record c { resolver = resolved r })) found))

    -- What is under way beside the accept.
    abbrev pub broker_attempt : Bool → ℕ → List Operation
    broker_attempt true endpoint = connecting 0 endpoint 2 0 ∷ []
    broker_attempt false endpoint = []

    -- With the lobby and the broker activated, an acceptor whose `initHandler` returns and changes nothing here, sockets
    -- that open, and an endpoint for the broker's address, `ioServiceThread` gets to the event loop of `ios`: one accept
    -- is under way, in the first session, for the lobby, and, in a build that defines USE_CONNECTOR_FOR_BROKER and in
    -- no other, one connect, in the second session, to that endpoint.
    pub io_service_thread-pending :
        (for_broker : Bool) (env : Environment) (b : Broker) (endpoint : ℕ)
        → env.svr_lobby.activate ≡ true
        → env.svr_broker.activate ≡ true
        → ((n : Network Broker) → f.init_handler n ≡ some n)
        → resolve (target_ip env.svr_broker.addr) env.svr_broker.listen_port ≡ some endpoint
        → (n : Network Broker) × (io_service_thread hardware_concurrency ios for_broker
              (acceptor_register f)
              (broker_receiver J m manip resolve true now)
              (try_connect J m manip resolve true now 1 0)
              true
              now
              env
              (unstarted b)
            ≡ back true n)
          × (n.pending ≡ accepting 1 1 ∷ broker_attempt for_broker endpoint)
          × (n.current_ios ≡ some ios)
          × (get_acceptor 1 n ≡ some (expire_timer_ready now (lobby_service env.svr_lobby)))
    unfolding io_service_thread with_broker then_run one_less get_acceptor slot
    io_service_thread-pending true env b endpoint lobby broker init found =
        let n1 = with_acceptor env.svr_lobby b in
        let c = unresolved_connector env.svr_broker in
        let n2 =
          waiting now 0 1 0 0 endpoint (ready_connector env.svr_broker)
            (record n1 { connectors = some c ∷ [] }) in
        (
          runs_on n2,
          ap
                (λ called. then_run hardware_concurrency ios (
                  with_broker hardware_concurrency ios (broker_receiver J m manip resolve true now)
                    (try_connect J m manip resolve true now 1 0) 0 env.svr_broker called))
                (started_acceptor env.svr_lobby b lobby init)
              ∙ ap
                  (λ o.
                    then_run hardware_concurrency ios
                      (elim o [ none ↦ null_call | some n ↦ back true n ]))
                  (started_connector env.svr_broker endpoint n1 broker found)
              ∙ ap (λ o. elim o [ none ↦ null_call | some n ↦ back true n ])
                  (run_service_lem env.svr_lobby n2 refl),
          refl,
          refl,
          refl,
        )
    io_service_thread-pending false env b endpoint lobby broker init found =
        let n1 = with_acceptor env.svr_lobby b in
        (
          runs_on n1,
          ap (then_run hardware_concurrency ios) (started_acceptor env.svr_lobby b lobby init)
              ∙ ap (λ o. elim o [ none ↦ null_call | some n ↦ back true n ])
                  (run_service_lem env.svr_lobby n1 refl),
          refl,
          refl,
          refl,
        )
