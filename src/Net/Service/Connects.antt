-- ===== src/Net/Service/Connects.antt =====
-- net/netServiceConnector.cpp: `NetServiceConnector`. `resolve` is the resolver of boost::asio: the first endpoint of
-- an address and a port, `none` where it throws or finds none. `opens` says that the calls on a new socket succeed,
-- `starts` that those of `start_connect` do, `now` is the clock.
use lobbysvr.Base.{
  ℕ, ◌+◌, ◌-◌, ◌%◌, Bool, true, false, not, List, [], ◌∷◌, Option, none, some, ltb, ◌==◌, ◌&&◌,
  if◌then◌else◌, u16_mod,
}
use lobbysvr.Net.Receiver.{EventReceiver, invoke}
use lobbysvr.Net.Service.{
  ServiceImpl, Resolver, unresolved, at_end, at_endpoint, Connector, started, shut, connecting,
  Network, Called, back, threw, null_call, expire_timer_ready, create_session, pend, mark,
  get_connector, put_connector, add_worker_threads, rearmed, u64_mod,
}

-- `setTargetServer(addr, port)`.
unfoldable pub set_target_server : List ℕ → List ℕ → Connector → Connector
set_target_server addr port c = record c { target_addr = addr; target_port = port }

-- "127.0.0.1", where the address is empty.
unfoldable pub target_ip : List ℕ → List ℕ
target_ip [] = 49 ∷ 50 ∷ 55 ∷ 46 ∷ 48 ∷ 46 ∷ 48 ∷ 46 ∷ 49 ∷ []
target_ip (a ∷ addr) = a ∷ addr

unfoldable pub resolved : Option ℕ → Resolver
resolved none = at_end
resolved (some endpoint) = at_endpoint endpoint

-- `setEndPoint(addr, port)`, which resolves when there is no resolver yet; the result is whether the iterator then
-- stands at an endpoint. (In a debug build an assertion stops the program where a resolver is there and it does not.)
unfoldable pub set_end_point :
    (List ℕ → List ℕ → Option ℕ) → List ℕ → List ℕ → Connector → Connector
unfolding target_ip resolved
set_end_point resolve addr port c = elim c.resolver [
  | unresolved ↦ record c { resolver = resolved (resolve (target_ip addr) port) }
  | at_end ↦ c
  | at_endpoint endpoint ↦ c
]

unfoldable pub end_point : Connector → Option ℕ
end_point c = elim c.resolver [
  | unresolved ↦ none
  | at_end ↦ none
  | at_endpoint endpoint ↦ some endpoint
]

-- `sessionCnt - 1` is an `int` that is turned into a `uint16_t`.
unfoldable pub one_less : ℕ → ℕ
one_less count = (count + 65535) % u16_mod

module _ {U : Type 0} where
  -- `createConnectSession(connectionID)` and `async_connect`; the session is there when the socket throws.
  unfoldable pub start_session : Bool → ℕ → ServiceImpl → ℕ → ℕ → ℕ → Network U → Bool × Network U
  unfolding create_session pend
  start_session opens connection_id s i endpoint remain n =
      if opens
      then (
        true,
        pend (connecting i endpoint n.identity_seed remain) (create_session s connection_id n),
      )
      else (false, create_session s connection_id n)

  unfoldable pub connecting_to :
      Bool → ℕ → ℕ → ℕ → ℕ → Connector → Option ℕ → Network U → Bool × Network U
  unfolding start_session expire_timer_ready put_connector one_less
  connecting_to opens now i session_cnt connection_id c none n = (false, n)
  connecting_to opens now i session_cnt connection_id c (some endpoint) n =
      let started =
        start_session opens connection_id c.service i endpoint (one_less session_cnt) n in
      if started.0
      then (
        true,
        put_connector i (record c { service = expire_timer_ready now c.service }) started.1,
      )
      else started

  -- `connectImplement` with the connector's own target, as `connectWait` calls it.
  unfoldable pub connect_implement :
      (List ℕ → List ℕ → Option ℕ) → Bool → ℕ → ℕ → ℕ → ℕ → Connector → Network U → Bool × Network U
  unfolding connecting_to set_end_point put_connector end_point
  connect_implement resolve opens now i session_cnt connection_id c n =
      let ready = set_end_point resolve c.target_addr c.target_port c in
      connecting_to opens now i session_cnt connection_id ready (end_point ready)
        (put_connector i ready n)

  -- `connectWait(sessionCnt, workerThreadsCount, connectionID)` of the connector at an index.
  unfoldable pub connect_wait :
      (List ℕ → List ℕ → Option ℕ) → Bool → ℕ → ℕ → ℕ → ℕ → ℕ → Connector → Network U → Network U
  unfolding connect_implement add_worker_threads
  connect_wait resolve opens now i session_cnt worker_threads_count connection_id c n =
      let staffed =
        if ltb 0 worker_threads_count then (add_worker_threads worker_threads_count n).1 else n in
      (connect_implement resolve opens now i session_cnt connection_id c staffed).1

  unfoldable pub connect_failed : Option (Network U) → Called U
  connect_failed none = null_call
  connect_failed (some n) = back false n

  -- What follows `onConnect`: the next session, if there is one to make.
  unfoldable pub next_session : Bool → ℕ → ServiceImpl → ℕ → ℕ → Option (Network U) → Called U
  unfolding start_session one_less
  next_session opens i s endpoint remain none = null_call
  next_session opens i s endpoint remain (some n) =
      if ltb 0 remain
      then (let made = start_session opens 0 s i endpoint (one_less remain) n in back made.0 made.1)
      else back true n

  -- `connect_handler`: whether the socket is open, the error code, and the arguments that it was bound to.
  unfoldable pub connect_handler :
      EventReceiver (Network U)
      → (is_open starts opens : Bool) → ℕ
      → ℕ
      → ServiceImpl
      → ℕ
      → ℕ
      → ℕ
      → Network U
      → Called U
  unfolding invoke mark connect_failed next_session
  connect_handler receiver is_open starts opens ec i s endpoint conn remain_cnt n =
      if is_open && ec == 0
      then (if starts
          then next_session opens i s endpoint remain_cnt
              (invoke receiver.on_connect conn (mark conn started n))
          else threw n)
      else connect_failed (invoke receiver.on_connect_failed conn (mark conn shut n))

  -- `connect()`, which waits for the connection: `connects` says that the socket gets it. What it gives is the
  -- connection, if it is made.
  unfoldable pub made_session : ℕ → ℕ → ℕ → Option (Network U) → Option (Option ℕ × Network U)
  unfolding put_connector get_connector expire_timer_ready
  made_session now i conn none = none
  made_session now i conn (some n) = elim (get_connector i n) [
    | none ↦ some (some conn, n)
    | some c ↦
        some
          (some conn, put_connector i (record c { service = expire_timer_ready now c.service }) n)
  ]

  unfoldable pub connect_to :
      EventReceiver (Network U)
      → (opens connects starts : Bool) → ℕ
      → ℕ
      → Connector
      → Option ℕ
      → Network U
      → Option (Option ℕ × Network U)
  unfolding create_session made_session invoke mark
  connect_to receiver opens connects starts now i c none n = some (none, n)
  connect_to receiver opens connects starts now i c (some endpoint) n =
      let conn = n.identity_seed in
      let session = create_session c.service 0 n in
      if opens && connects && starts
      then made_session now i conn (invoke receiver.on_connect conn (mark conn started session))
      else some (none, session)

  unfoldable pub connect :
      EventReceiver (Network U)
      → (List ℕ → List ℕ → Option ℕ)
      → (opens connects starts : Bool) → ℕ
      → ℕ
      → Connector
      → Network U
      → Option (Option ℕ × Network U)
  unfolding connect_to set_end_point put_connector end_point
  connect receiver resolve opens connects starts now i c n =
      let ready = set_end_point resolve c.target_addr c.target_port c in
      connect_to receiver opens connects starts now i ready (end_point ready)
        (put_connector i ready n)

  unfoldable pub rearm_connector : ℕ → ℕ → Option (Network U) → Option (Network U)
  unfolding rearmed put_connector get_connector
  rearm_connector now i none = none
  rearm_connector now i (some n) = elim (get_connector i n) [
    | none ↦ some n
    | some c ↦ some (put_connector i (record c { service = rearmed now c.service }) n)
  ]

  -- `update_handler` of a connector's service: `onUpdate` gets the time since the last one.
  unfoldable pub update_connector :
      EventReceiver (Network U) → ℕ → ℕ → ℕ → Connector → Network U → Option (Network U)
  unfolding invoke put_connector rearm_connector
  update_connector receiver ec now i c n =
      if ec == 0 && not c.service.receiver_event_closed
      then rearm_connector now i (
          invoke receiver.on_update ((now + u64_mod - c.service.prev_time) % u64_mod)
            (put_connector i (record c { service = record c.service { prev_time = now } }) n))
      else some n
