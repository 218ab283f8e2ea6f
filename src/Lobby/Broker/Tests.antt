-- ===== src/Lobby/Broker/Tests.antt =====
-- The theorems on the receiver of the broker's connection at a concrete network.
use lobbysvr.Base.{
  ℕ, ◌<◌, ◌≡◌, refl, true, false, List, [], ◌∷◌, ◌++◌, Option, none, some, arith, length,
}
use lobbysvr.Net.Memory.{Memory}
use lobbysvr.Net.Frame.{json_test_manip}
use lobbysvr.Net.Receiver.{unset_receiver, invoke, invoke_init, FpDefault}
use lobbysvr.Net.Service.{
  Connector, at_endpoint, accepting, Network, back, get_connector, slot, u64_mod, create_session,
  pend, put_connector, add_worker_threads,
}
use lobbysvr.Net.Service.Identity.{
  AreDistinct, identities, KeepsNumbers, AfterSome, IsCallbackOf, accepts, connects, connect_fails,
  closes, expires, updates, IsNumbered,
}
use lobbysvr.Net.Service.Identity.Steps.{here, next, waits, Steps-AreDistinct}
use lobbysvr.Net.Service.Connects.{
  connect_wait, connect_implement, connecting_to, start_session, set_end_point, end_point,
}
use lobbysvr.Net.Service.Turns.{Answer, success, refused, turns_at}
use lobbysvr.Lobby.Tests.{text_json}
use lobbysvr.Lobby.SendJson.{send_broker_json}
use lobbysvr.Lobby.Handlers.{auth_url}
use lobbysvr.Lobby.Broker.{
  Broker, null_user, user_of, broker_connector, on_connect, on_close, send_json_packet,
  auth_request,
}
use lobbysvr.Lobby.Broker.Reconnect.{receiver_in, on_close-connected}
use lobbysvr.Lobby.Broker.User.{send_json_packet-on_close}
use lobbysvr.Lobby.Broker.Numbers.{receiver_in-KeepsNumbers}

abbrev zeros : Memory
zeros = λ a. 0

abbrev resolve : List ℕ → List ℕ → Option ℕ
resolve addr port = none

abbrev connector : Connector
connector = record {
  service = record {
    index = 0;
    ios = 3;
    update_time_ms = 1000;
    keep_alive_time_ms = 0;
    updater = none;
    prev_time = 0;
    receiver_event_closed = false;
  };
  target_addr = [];
  target_port = 56 ∷ [];
  resolver = at_endpoint 7;
}

abbrev network : Network Broker
network = record {
  acceptors = [];
  connectors = some connector ∷ [];
  sessions = [];
  identity_seed = 1;
  threads = 0;
  current_ios = none;
  pending = [];
  user = record { pointer = user_of 9; tags = λ j. null_user; sent = []; reserved = [] };
}

there : get_connector broker_connector network ≡ some connector
unfolding get_connector slot
there = refl

-- The network while the lobby's acceptor waits for a client.
abbrev busy : Network Broker → Network Broker
busy n = record n { pending = accepting 1 4 ∷ [] }

-- An attempt that is refused, one that times out, and one that succeeds.
on_close-connected_example :
    (n1 : Network Broker) × (n2 : Network Broker) × (on_close text_json zeros json_test_manip
        resolve true 50 9
        (busy network)
      ≡ some n1)
    × (turns_at
          (receiver_in text_json zeros json_test_manip resolve 50)
          1
          (refused 111 ∷ record success { is_open = false } ∷ success ∷ [])
          n1
        ≡ back true n2)
    × (n2.user.pointer ≡ user_of 3)
    × (n2.user.sent
        ≡ (
          3,
          send_broker_json text_json zeros json_test_manip auth_url
              (auth_request text_json zeros json_test_manip),
        )
          ∷ [])
    × (n2.pending ≡ accepting 1 4 ∷ [])
unfolding get_connector
on_close-connected_example =
    on_close-connected text_json zeros json_test_manip resolve 50 (accepting 1 4 ∷ [])
      (refused 111 ∷ record success { is_open = false } ∷ []) 7 9 connector (busy network) there
      refl refl refl (refl, refl, (refl, refl, tt)) (omega arith)

-- The URL `/a`, and the text `{}`.
send_json_packet-on_close_example :
    ((n' : Network Broker) × (on_connect text_json zeros json_test_manip resolve true 50 9 network
        ≡ some n')
      × (send_json_packet text_json zeros json_test_manip (47 ∷ 97 ∷ []) (123 ∷ 125 ∷ []) n'.user
          ≡ some (
            send_broker_json text_json zeros json_test_manip (47 ∷ 97 ∷ []) (123 ∷ 125 ∷ []),
            record n'.user {
              sent =
                  n'.user.sent
                  ++ (
                    9,
                    send_broker_json text_json zeros json_test_manip
                        (47 ∷ 97 ∷ [])
                        (123 ∷ 125 ∷ []),
                  )
                    ∷ [];
            },
          )))
    × ((n' : Network Broker) × (on_close text_json zeros json_test_manip resolve true 50 9 network
          ≡ some n')
        × (send_json_packet text_json zeros json_test_manip (47 ∷ 97 ∷ []) (123 ∷ 125 ∷ []) n'.user
            ≡ none))
send_json_packet-on_close_example =
    send_json_packet-on_close text_json zeros json_test_manip resolve true 50 (47 ∷ 97 ∷ [])
      (123 ∷ 125 ∷ []) 9 9 connector network there refl

unset_receiver-KeepsNumbers : (a : Answer) → KeepsNumbers (unset_receiver (Network Broker))
unfolding invoke invoke_init
unset_receiver-KeepsNumbers a = record { kept = keeps; init_kept = λ n o. tt }
  where
    keeps :
        (call : Option (FpDefault (Network Broker))) (arg : ℕ) (n : Network Broker)
        → IsCallbackOf (unset_receiver (Network Broker)) call
        → IsNumbered n
        → AfterSome (invoke call arg n)
    keeps call arg n accepts o = tt
    keeps call arg n connects o = tt
    keeps call arg n connect_fails o = tt
    keeps call arg n closes o = tt
    keeps call arg n expires o = tt
    keeps call arg n updates o = tt

-- `connectWait(1, 0)`, twice.
abbrev once : Network Broker
once = connect_wait resolve true 50 0 1 0 0 connector network

abbrev twice : Network Broker
twice = connect_wait resolve true 50 0 1 0 0 connector once

twice-length : length twice.sessions < u64_mod
unfolding connect_wait connect_implement connecting_to start_session create_session set_end_point
    end_point pend put_connector add_worker_threads
twice-length = omega arith

Steps-AreDistinct_example : AreDistinct (identities twice.sessions)
Steps-AreDistinct_example =
    Steps-AreDistinct (λ a. unset_receiver (Network Broker))
      (receiver_in text_json zeros json_test_manip resolve 50) unset_receiver-KeepsNumbers
      (receiver_in-KeepsNumbers text_json zeros json_test_manip resolve 50) network twice refl refl
      (next (next here (waits resolve true 50 0 1 0 0 connector))
        (waits resolve true 50 0 1 0 0 connector))
      twice-length
