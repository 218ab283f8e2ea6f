-- ===== src/Lobby/Broker/User.antt =====
-- The user of the connection to the broker, `m_user` of lobbysvr/brokerConnector.cpp, from one event to the next.
use lobbysvr.Base.{
  ℕ, ◌+◌, ◌≡◌, refl, ap, ◌∙◌, Bool, true, false, List, [], ◌∷◌, ◌++◌, Option, none, some, ◌==◌,
  if◌then◌else◌,
}
use lobbysvr.Net.Memory.{Memory}
use lobbysvr.Net.Buffer.{MsgUserManip}
use lobbysvr.Net.Service.{Connector, Network, get_connector, put_connector, create_session, pend}
use lobbysvr.Net.Service.Connects.{
  start_session, connecting_to, connect_implement, connect_wait, set_end_point, end_point,
}
use lobbysvr.Net.Service.Connecting.{staffed_lem}
use lobbysvr.Lobby.Json.{JsonLib}
use lobbysvr.Lobby.SendJson.{send_broker_json}
use lobbysvr.Lobby.Broker.{
  Broker, null_user, user_of, deleted_user, broker_connector, delete_user_pointer, connected_user,
  send_json_packet, send_as, try_connect, on_connect, on_close, closed_user,
}

module _ {U : Type 0} where
  connecting_to-user :
      (opens : Bool) (now i session_cnt connection_id : ℕ) (c : Connector) (place : Option ℕ)
      (n : Network U)
      → (connecting_to opens now i session_cnt connection_id c place n).1.user ≡ n.user
  unfolding connecting_to start_session create_session pend put_connector
  connecting_to-user opens now i session_cnt connection_id c none n = refl
  connecting_to-user true now i session_cnt connection_id c (some endpoint) n = refl
  connecting_to-user false now i session_cnt connection_id c (some endpoint) n = refl

  connect_wait-user :
      (resolve : List ℕ → List ℕ → Option ℕ) (opens : Bool)
      (now i session_cnt workers connection_id : ℕ) (c : Connector) (n : Network U)
      → (connect_wait resolve opens now i session_cnt workers connection_id c n).user ≡ n.user
  unfolding connect_wait connect_implement put_connector
  connect_wait-user resolve opens now i session_cnt workers connection_id c n =
      let ready = set_end_point resolve c.target_addr c.target_port c in
      ap (λ m. (connect_implement resolve opens now i session_cnt connection_id c m).1.user)
        (staffed_lem workers n)
      ∙ connecting_to-user opens now i session_cnt connection_id ready (end_point ready)
          (put_connector i ready (record n { threads = n.threads + workers }))

module _ (J : JsonLib) (m : Memory) (manip : MsgUserManip) (resolve : List ℕ → List ℕ → Option ℕ)
    (opens : Bool) (now : ℕ) where
  open J use {Value}

  -- After `onConnect` a packet goes out on the new connection; after `onClose` of a connection that had a user, which
  -- returns where the broker's connector is there, `sendJsonPacket` goes through the address of the deleted user,
  -- whether an attempt to connect again is under way or not.
  pub send_json_packet-on_close :
      (url : List ℕ) (jv : Value) (conn was : ℕ) (c : Connector) (n : Network Broker)
      → get_connector broker_connector n ≡ some c
      → n.user.pointer ≡ user_of was
      → ((n' : Network Broker) × (on_connect J m manip resolve opens now conn n ≡ some n')
          × (send_json_packet J m manip url jv n'.user
              ≡ some (
                send_broker_json J m manip url jv,
                record n'.user {
                  sent = n'.user.sent ++ (conn, send_broker_json J m manip url jv) ∷ [];
                },
              )))
        × ((n' : Network Broker) × (on_close J m manip resolve opens now was n ≡ some n')
            × (send_json_packet J m manip url jv n'.user ≡ none))
  unfolding on_connect connected_user send_json_packet send_as on_close closed_user try_connect
      delete_user_pointer get_connector
  send_json_packet-on_close url jv conn was c n at u =
      let dropped = record n {
        user = record n.user {
          pointer = deleted_user;
          tags = λ j. if j == was then null_user else n.user.tags j;
        };
      } in
      (
        (_, refl, refl),
        (
          connect_wait resolve opens now broker_connector 1 0 0 c dropped,
          ap (λ p. closed_user J m manip resolve opens now was n (delete_user_pointer p)) u
              ∙ ap
                  (λ found. elim found [
                    | none ↦ none
                    | some d ↦
                        some (connect_wait resolve opens now broker_connector 1 0 0 d dropped)
                  ])
                  at,
          ap (λ b. send_as J m manip url jv b b.pointer)
              (connect_wait-user resolve opens now broker_connector 1 0 0 c dropped),
        ),
      )
