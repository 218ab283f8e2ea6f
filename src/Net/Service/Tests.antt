-- ===== src/Net/Service/Tests.antt =====
-- The theorems on the services at concrete networks: an application that keeps the connections it is told of.
use lobbysvr.Base.{
  ℕ, ◌≡◌, refl, true, false, List, [], ◌∷◌, ◌++◌, Option, none, some, arith, length, replicate,
}
use lobbysvr.Net.Receiver.{
  AcceptorFunctions, ConnectorFunctions, acceptor_register, connector_register,
}
use lobbysvr.Net.Service.{
  ServiceImpl, Connector, unresolved, accepting, Network, back, ServiceParams, ConnectorUserParams,
  get_acceptor, get_connector, slot,
}
use lobbysvr.Net.Service.Connects.{connect_wait, set_end_point, end_point, resolved}
use lobbysvr.Net.Service.Connecting.{tells, connect_wait-turns}
use lobbysvr.Net.Service.Accepting.{turns-accepted}
use lobbysvr.Net.Service.EndPoint.{Attempt, attempts, attempts-unresolved}
use lobbysvr.Net.Service.Turns.{success, refused, turns}

abbrev told : ℕ → List ℕ → List ℕ
told conn u = u ++ conn ∷ []

abbrev quiet : ℕ → Network (List ℕ) → Option (Network (List ℕ))
quiet arg n = some n

abbrev acceptor_functions : AcceptorFunctions (Network (List ℕ))
acceptor_functions = record {
  on_accept = tells told;
  on_accept_failed = quiet;
  on_close = quiet;
  on_close_failed = quiet;
  on_expired_session = quiet;
  on_update = quiet;
  no_handler = λ conn msg n. some n;
  init_handler = λ n. some n;
}

abbrev connector_functions : ConnectorFunctions (Network (List ℕ))
connector_functions = record {
  on_connect = tells told;
  on_connect_failed = quiet;
  on_close = quiet;
  on_close_failed = quiet;
  on_expired_session = quiet;
  on_update = quiet;
  no_handler = λ conn msg n. some n;
  init_handler = λ n. some n;
}

abbrev service : ServiceImpl
service = record {
  index = 0;
  ios = 3;
  update_time_ms = 1000;
  keep_alive_time_ms = 0;
  updater = none;
  prev_time = 0;
  receiver_event_closed = false;
}

abbrev connector : Connector
connector = record {
  service = service;
  target_addr = [];
  target_port = 56 ∷ [];
  resolver = unresolved;
}

abbrev network : Network (List ℕ)
network = record {
  acceptors = some service ∷ [];
  connectors = some connector ∷ [];
  sessions = [];
  identity_seed = 1;
  threads = 0;
  current_ios = none;
  pending = [];
  user = [];
}

-- An acceptor that waits for its first client.
abbrev waiting_acceptor : Network (List ℕ)
waiting_acceptor = record network { pending = accepting 0 1 ∷ []; identity_seed = 2 }

abbrev params : ServiceParams
params = record { ios = 3; service_update_time_ms = 1000; keep_alive_time_ms = 0 }

abbrev user_params : ConnectorUserParams
user_params = record { addr = []; port = 56 ∷ [] }

abbrev resolve : List ℕ → List ℕ → Option ℕ
resolve addr port = some 7

abbrev never : List ℕ → List ℕ → Option ℕ
never addr port = none

no_connectors : get_connector 2 network ≡ none
unfolding get_connector slot
no_connectors = refl

placed : end_point (set_end_point resolve [] (56 ∷ []) connector) ≡ some 7
unfolding end_point set_end_point resolved
placed = refl

first_connector : get_connector 0 network ≡ some connector
unfolding get_connector slot
first_connector = refl

first_acceptor : get_acceptor 0 waiting_acceptor ≡ some service
unfolding get_acceptor slot
first_acceptor = refl

connects_told : (connector_register connector_functions).on_connect ≡ some (tells told)
unfolding connector_register
connects_told = refl

accepts_told : (acceptor_register acceptor_functions).on_accept ≡ some (tells told)
unfolding acceptor_register
accepts_told = refl

connect_wait-turns_example :
    (m : Network (List ℕ)) × (turns
        (λ a. connector_register connector_functions)
        (replicate 3 success)
        (connect_wait resolve true 50 0 3 1 0 connector network)
      ≡ back true m)
    × (m.pending ≡ [])
    × (m.user ≡ 1 ∷ 2 ∷ 3 ∷ [])
    × (length m.sessions ≡ 3)
connect_wait-turns_example =
    connect_wait-turns told (connector_register connector_functions) resolve 50 0 3 1 0 7 connector
      network connects_told placed first_connector refl (omega arith) (omega arith) (omega arith)

turns-accepted_example :
    ((m : Network (List ℕ)) × (turns
          (λ a. acceptor_register acceptor_functions)
          (replicate 2 success)
          waiting_acceptor
        ≡ back true m)
      × (m.pending ≡ accepting 0 3 ∷ [])
      × (m.user ≡ 1 ∷ 2 ∷ []))
    × ((m : Network (List ℕ)) × (turns
            (λ a. acceptor_register acceptor_functions)
            (replicate 2 success ++ refused 24 ∷ success ∷ [])
            waiting_acceptor
          ≡ back true m)
        × (m.pending ≡ [])
        × (m.user ≡ 1 ∷ 2 ∷ []))
turns-accepted_example =
    turns-accepted told (acceptor_register acceptor_functions) service 0 1 2 23 (success ∷ [])
      waiting_acceptor accepts_told first_acceptor refl refl (omega arith)

-- An attempt whose name is not found, and one with a name that is.
abbrev lost_attempt : Attempt
lost_attempt = record {
  addr = 98 ∷ [];
  port = 56 ∷ [];
  session_cnt = 1;
  workers = 0;
  connection_id = 0;
  resolve = never;
  opens = true;
  now = 50;
}

abbrev good_attempt : Attempt
good_attempt = record lost_attempt { resolve = resolve }

attempts-unresolved_example :
    ((attempts 0 (lost_attempt ∷ good_attempt ∷ []) network).sessions ≡ [])
    × ((attempts 0 (lost_attempt ∷ good_attempt ∷ []) network).pending ≡ [])
attempts-unresolved_example =
    attempts-unresolved lost_attempt (good_attempt ∷ []) 0 connector network first_connector refl
      refl
