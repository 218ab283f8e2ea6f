-- ===== src/Lobby/Broker/Reconnect.antt =====
-- The connection to the broker is made again after it is lost (lobbysvr/brokerConnector.cpp over
-- net/netServiceConnector.cpp).
use lobbysvr.Base.{
  ℕ, ◌+◌, ◌<◌, ◌≡◌, refl, ap, ap₂, ◌∙◌, true, false, List, [], ◌∷◌, ◌++◌, Option, some, arith,
  length, ◌==◌, ◌&&◌, if◌then◌else◌,
}
use lobbysvr.Net.Memory.{Memory}
use lobbysvr.Net.Buffer.{MsgUserManip}
use lobbysvr.Net.Receiver.{EventReceiver, connector_register, invoke}
use lobbysvr.Net.Service.{
  ServiceImpl, Connector, at_endpoint, started, shut, connecting, Operation, Network, back,
  get_connector, set_state, mark, set_slot, u64_mod, expire_timer_ready,
}
use lobbysvr.Net.Service.Slots.{slot_below, slot-set_slot, length-set_slot}
use lobbysvr.Net.Service.Connects.{
  set_end_point, end_point, connect_handler, connect_failed, one_less,
}
use lobbysvr.Net.Service.Connecting.{waiting, connect_wait-waiting, connect_handler_last}
use lobbysvr.Net.Service.Turns.{
  Answer, success, connected, complete, then_turns, turns_at, to_front, to_front-last,
}
use lobbysvr.Lobby.Json.{JsonLib}
use lobbysvr.Lobby.SendJson.{send_broker_json}
use lobbysvr.Lobby.Handlers.{auth_url}
use lobbysvr.Lobby.Broker.{
  auth_request, Broker, null_user, user_of, deleted_user, broker_connector, delete_user_pointer,
  connected_user, try_connect, on_connect, on_connect_failed, closed_user, on_close,
  broker_functions, broker_receiver,
}

-- The answers by which a connection is not made: its socket is closed, or there is an error code. The sockets of the
-- next attempts open.
abbrev pub AllRefused : List Answer → Type 0
AllRefused [] = Unit {0}
AllRefused (a ∷ answers) =
    ((a.is_open && a.ec == 0) ≡ false) × (a.opens ≡ true) × AllRefused answers

set_end_point_placed :
    (resolve : List ℕ → List ℕ → Option ℕ) (addr port : List ℕ) (endpoint : ℕ) (c : Connector)
    → c.resolver ≡ at_endpoint endpoint
    → set_end_point resolve addr port c ≡ c
unfolding set_end_point
set_end_point_placed resolve addr port endpoint c e = ground (arith, e)

end_point_placed :
    (endpoint : ℕ) (c : Connector) → c.resolver ≡ at_endpoint endpoint → end_point c ≡ some endpoint
unfolding end_point
end_point_placed endpoint c e = ground (arith, e)

module _ (J : JsonLib) (m : Memory) (manip : MsgUserManip) (resolve : List ℕ → List ℕ → Option ℕ)
    (now : ℕ) where
  -- The receiver as the broker's connector has it in a turn with an answer.
  abbrev pub receiver_in : Answer → EventReceiver (Network Broker)
  receiver_in a = broker_receiver J m manip resolve a.opens now

  -- An attempt to connect is under way behind other operations, of a connector that has an endpoint.
  pub record IsTrying (others : List Operation) (endpoint conn : ℕ) (n : Network Broker)
      : Type 0 where
    pub connector : Connector
    pub there : get_connector broker_connector n ≡ some connector
    pub placed : connector.resolver ≡ at_endpoint endpoint
    pub trying : n.pending ≡ others ++ connecting broker_connector endpoint conn 0 ∷ []

  try_connect-IsTrying :
      (others : List Operation) (endpoint : ℕ) (c : Connector) (n : Network Broker)
      → get_connector broker_connector n ≡ some c
      → c.resolver ≡ at_endpoint endpoint
      → n.pending ≡ others
      → n.identity_seed + 1 < u64_mod
      → (n' : Network Broker) × (try_connect J m manip resolve true now 1 0 n ≡ some n')
        × IsTrying others endpoint n.identity_seed n'
        × (n'.identity_seed ≡ n.identity_seed + 1)
        × (n'.user ≡ n.user)
  unfolding try_connect set_end_point end_point get_connector one_less
  try_connect-IsTrying others endpoint c n at e p h =
      let ready = set_end_point_placed resolve c.target_addr c.target_port endpoint c e in
      let armed = record c { service = expire_timer_ready now c.service } in
      (
        waiting now broker_connector 1 0 0 endpoint c n,
        ground (arith, at)
            ∙ ap some (
                connect_wait-waiting resolve now broker_connector 1 0 0 endpoint c n
                  (ap end_point ready ∙ end_point_placed endpoint c e)
                ∙ ap (λ r. waiting now broker_connector 1 0 0 endpoint r n) ready),
        record {
          connector = armed;
          there = slot-set_slot broker_connector armed (set_slot broker_connector c n.connectors) (
              omega (
                arith,
                slot_below broker_connector c n.connectors at,
                length-set_slot broker_connector c n.connectors,
              ));
          placed = e;
          trying = ap (λ ops. ops ++ connecting broker_connector endpoint n.identity_seed 0 ∷ []) p;
        },
        omega arith,
        refl,
      )

  handler-refused :
      (a : Answer) (s : ServiceImpl) (endpoint conn : ℕ) (n n' : Network Broker)
      → (a.is_open && a.ec == 0) ≡ false
      → a.opens ≡ true
      → try_connect J m manip resolve true now 1 0 (mark conn shut n) ≡ some n'
      → connect_handler
          (receiver_in a)
          a.is_open
          a.starts
          a.opens
          a.ec
          broker_connector
          s
          endpoint
          conn
          0
          n
        ≡ back false n'
  unfolding connect_handler connect_failed invoke broker_receiver broker_functions
      connector_register on_connect_failed
  handler-refused a s endpoint conn n n' refused_code opens e =
      ground (arith, refused_code, opens, e)

  refused_turn :
      (others : List Operation) (a : Answer) (endpoint conn : ℕ) (n : Network Broker)
      → (a.is_open && a.ec == 0) ≡ false
      → a.opens ≡ true
      → n.identity_seed + 1 < u64_mod
      → IsTrying others endpoint conn n
      → (n' : Network Broker) × (complete (receiver_in a) a n (to_front (length others) n.pending)
          ≡ back false n')
        × IsTrying others endpoint n.identity_seed n'
        × (n'.identity_seed ≡ n.identity_seed + 1)
        × (n'.user ≡ n.user)
  unfolding complete connected mark get_connector
  refused_turn others a endpoint conn n refused_code opens h t =
      let n0 = record n { pending = others } in
      let next =
        try_connect-IsTrying others endpoint t.connector (mark conn shut n0) t.there t.placed refl
          h in
      (
        next.0,
        ap (λ ops. complete (receiver_in a) a n (to_front (length others) ops)) t.trying
            ∙ ap (complete (receiver_in a) a n) (to_front-last others _)
            ∙ ap (connected (receiver_in a) a broker_connector endpoint conn 0 n0) t.there
            ∙ handler-refused a t.connector.service endpoint conn n0 next.0 refused_code opens
                next.1,
        next.2,
        next.3,
        next.4,
      )

  last_turn :
      (others : List Operation) (endpoint conn : ℕ) (n : Network Broker)
      → IsTrying others endpoint conn n
      → complete (receiver_in success) success n (to_front (length others) n.pending)
        ≡ back true (record n {
          pending = others;
          sessions = set_state conn started n.sessions;
          user = connected_user J m manip conn n.user;
        })
  unfolding complete connected get_connector broker_receiver broker_functions connector_register
      on_connect
  last_turn others endpoint conn n t =
      let n0 = record n { pending = others } in
      ap (λ ops. complete (receiver_in success) success n (to_front (length others) ops)) t.trying
      ∙ ap (complete (receiver_in success) success n) (to_front-last others _)
      ∙ ap (connected (receiver_in success) success broker_connector endpoint conn 0 n0) t.there
      ∙ connect_handler_last (connected_user J m manip) (receiver_in success) t.connector.service
          broker_connector endpoint conn n0 refl

  -- The attempts go on until one succeeds.
  attempts-connected :
      (others : List Operation) (answers : List Answer) (endpoint conn : ℕ) (n : Network Broker)
      → AllRefused answers
      → n.identity_seed + length answers < u64_mod
      → n.identity_seed ≡ conn + 1
      → IsTrying others endpoint conn n
      → (n' : Network Broker) × (turns_at receiver_in (length others) (answers ++ success ∷ []) n
          ≡ back true n')
        × (n'.user ≡ connected_user J m manip (conn + length answers) n.user)
        × (n'.pending ≡ others)
  unfolding turns_at then_turns
  attempts-connected others [] endpoint conn n refused_all h seed t = (
    _,
    ap (then_turns (λ n'. back true n')) (last_turn others endpoint conn n t),
    ap (λ k. connected_user J m manip k n.user) (omega arith),
    refl,
  )
  attempts-connected others (a ∷ answers) endpoint conn n (refused_code, opens, refused_all) h seed
        t =
      let next = refused_turn others a endpoint conn n refused_code opens (omega arith) t in
      let rest =
        attempts-connected others answers endpoint n.identity_seed next.0 refused_all
          (omega (arith, next.3)) next.3 next.2 in
      (
        rest.0,
        ap (then_turns (turns_at receiver_in (length others) (answers ++ success ∷ []))) next.1
            ∙ rest.1,
        rest.2 ∙ ap₂ (connected_user J m manip) (omega (arith, seed)) next.4,
        rest.3,
      )

  closed-IsTrying :
      (others : List Operation) (endpoint conn : ℕ) (c : Connector) (n : Network Broker)
      → get_connector broker_connector n ≡ some c
      → c.resolver ≡ at_endpoint endpoint
      → n.pending ≡ others
      → n.user.pointer ≡ user_of conn
      → n.identity_seed + 1 < u64_mod
      → (n' : Network Broker) × (on_close J m manip resolve true now conn n ≡ some n')
        × IsTrying others endpoint n.identity_seed n'
        × (n'.identity_seed ≡ n.identity_seed + 1)
        × (n'.user.pointer ≡ deleted_user)
        × (n'.user.sent ≡ n.user.sent)
  unfolding on_close closed_user get_connector delete_user_pointer
  closed-IsTrying others endpoint conn c n at e p u h =
      let m' = record n {
        user = record n.user {
          pointer = deleted_user;
          tags = λ j. if j == conn then null_user else n.user.tags j;
        };
      } in
      let next = try_connect-IsTrying others endpoint c m' at e p h in
      (
        next.0,
        ap (λ p. closed_user J m manip resolve true now conn n (delete_user_pointer p)) u ∙ next.1,
        next.2,
        next.3,
        ap (λ b. b.pointer) next.4,
        ap (λ b. b.sent) next.4,
      )

  -- When the connection to the broker closes, whatever other operations are under way (the accept of the lobby), with
  -- a connector that has its endpoint, and a user of that connection, then however many of the next attempts are
  -- refused or time out, while sockets can be opened: once one succeeds, the receiver has a user of the connection that
  -- was made, no attempt is under way, only the other operations, and the one thing sent since is the request `/auth`,
  -- on that connection. The turns are those of the attempts; the other operations complete in none of them. The
  -- identities must not wrap.
  pub on_close-connected :
      (others : List Operation) (answers : List Answer) (endpoint conn : ℕ) (c : Connector)
      (n : Network Broker)
      → get_connector broker_connector n ≡ some c
      → c.resolver ≡ at_endpoint endpoint
      → n.pending ≡ others
      → n.user.pointer ≡ user_of conn
      → AllRefused answers
      → n.identity_seed + length answers + 1 < u64_mod
      → (n1 : Network Broker) × (n2 : Network Broker) × (on_close J m manip resolve true now conn n
          ≡ some n1)
        × (turns_at receiver_in (length others) (answers ++ success ∷ []) n1 ≡ back true n2)
        × (n2.user.pointer ≡ user_of (n.identity_seed + length answers))
        × (n2.user.sent
            ≡ n.user.sent
              ++ (
                n.identity_seed + length answers,
                send_broker_json J m manip auth_url (auth_request J m manip),
              )
                ∷ [])
        × (n2.pending ≡ others)
  unfolding connected_user
  on_close-connected others answers endpoint conn c n at e p u refused_all h =
      let shut_down = closed-IsTrying others endpoint conn c n at e p u (omega arith) in
      let run =
        attempts-connected others answers endpoint n.identity_seed shut_down.0 refused_all
          (omega (arith, shut_down.3)) shut_down.3 shut_down.2 in
      (
        shut_down.0,
        run.0,
        shut_down.1,
        run.1,
        ap (λ b. b.pointer) run.2,
        ap (λ b. b.sent) run.2
            ∙ ap
                (λ before.
                  before
                  ++ (
                    n.identity_seed + length answers,
                    send_broker_json J m manip auth_url (auth_request J m manip),
                  )
                    ∷ [])
                shut_down.5,
        run.3,
      )
