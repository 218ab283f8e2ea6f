-- ===== src/Net/Service/Accepts.antt =====
-- net/netServiceAcceptor.cpp: `NetServiceAcceptor`, and `createAcceptor` of net/netService.cpp. `ready`
-- says that the address is resolved and that those calls on the acceptor's socket succeed which throw
-- where they do not; the calls that only report an error are logged, and change nothing here, so the
-- address plays no further part. `starts` says that the calls of `start_accept` succeed, `now` is the
-- clock.
use lobbysvr.Base.{
  ℕ, ◌+◌, ◌-◌, ◌%◌, Bool, true, false, not, Option, none, some, ◌==◌, ◌&&◌, if◌then◌else◌,
}
use lobbysvr.Net.Receiver.{EventReceiver, invoke, invoke_init}
use lobbysvr.Net.Service.{
  ServiceImpl, started, accepting, Network, Called, back, threw, null_call, expire_timer_ready,
  rearmed, create_session, pend, mark, slot, grown, new_service, kept_receiver, put_acceptor,
  get_acceptor, add_worker_threads, ServiceParams, AcceptorUserParams, u64_mod,
}

module _ {U : Type 0} where
  -- A new session, which waits for the next client.
  unfoldable pub accept_next : ℕ → ServiceImpl → Network U → Network U
  unfolding create_session pend
  accept_next i s n = pend (accepting i n.identity_seed) (create_session s 0 n)

  -- `acceptWait(addr, port, workerThreadsCount)` from where the socket listens.
  unfoldable pub accept_wait :
      (hardware_concurrency : ℕ) → ℕ → ℕ → ServiceImpl → ℕ → Network U → Network U
  unfolding accept_next put_acceptor expire_timer_ready add_worker_threads
  accept_wait hardware_concurrency now i s worker_threads_count n =
      let workers =
        if worker_threads_count == 0 then hardware_concurrency else worker_threads_count in
      put_acceptor i (expire_timer_ready now s) (add_worker_threads workers (accept_next i s n)).1

  -- `createAcceptor` with an empty slot; the slot is filled before the socket is opened.
  unfoldable pub new_acceptor :
      (hardware_concurrency : ℕ)
      → Bool
      → ℕ
      → ℕ
      → ServiceParams
      → AcceptorUserParams
      → Option (Network U)
      → Called U
  unfolding new_service put_acceptor accept_wait
  new_acceptor hardware_concurrency ready now i params user_params none = null_call
  new_acceptor hardware_concurrency ready now i params user_params (some n) =
      let s = new_service params i in
      let filled = put_acceptor i s n in
      if ready
      then back true
          (accept_wait hardware_concurrency now i s user_params.worker_threads_count filled)
      else threw filled

  unfoldable pub create_acceptor :
      (hardware_concurrency : ℕ)
      → EventReceiver (Network U)
      → Bool
      → ℕ
      → ℕ
      → ServiceParams
      → AcceptorUserParams
      → Network U
      → Called U
  unfolding kept_receiver new_acceptor invoke_init
  create_acceptor hardware_concurrency receiver ready now i params user_params n =
      let sized = record n { acceptors = grown i n.acceptors } in
      elim (slot i sized.acceptors) [
        | some s ↦ back true sized
        | none ↦
            new_acceptor hardware_concurrency ready now i params user_params
              (invoke_init (kept_receiver receiver).init_handler sized)
      ]

  -- After `onAccept`: `start_accept`, which may throw, and the next accept.
  unfoldable pub accepted : Bool → ℕ → ServiceImpl → ℕ → Option (Network U) → Called U
  unfolding mark accept_next
  accepted starts i s conn none = null_call
  accepted starts i s conn (some n) =
      if starts then back true (accept_next i s (mark conn started n)) else threw n

  unfoldable pub accept_handler :
      EventReceiver (Network U) → Bool → ℕ → ℕ → ServiceImpl → ℕ → Network U → Called U
  unfolding accepted invoke
  accept_handler receiver starts ec i s conn n =
      if ec == 0 then accepted starts i s conn (invoke receiver.on_accept conn n) else back false n

  unfoldable pub rearm_acceptor : ℕ → ℕ → Option (Network U) → Option (Network U)
  unfolding rearmed put_acceptor get_acceptor
  rearm_acceptor now i none = none
  rearm_acceptor now i (some n) = elim (get_acceptor i n) [
    | none ↦ some n
    | some s ↦ some (put_acceptor i (rearmed now s) n)
  ]

  -- `update_handler` of an acceptor's service: `onUpdate` gets the time since the last one.
  unfoldable pub update_acceptor :
      EventReceiver (Network U) → ℕ → ℕ → ℕ → ServiceImpl → Network U → Option (Network U)
  unfolding invoke put_acceptor rearm_acceptor
  update_acceptor receiver ec now i s n =
      if ec == 0 && not s.receiver_event_closed
      then rearm_acceptor now i (
          invoke receiver.on_update ((now + u64_mod - s.prev_time) % u64_mod)
            (put_acceptor i (record s { prev_time = now }) n))
      else some n
