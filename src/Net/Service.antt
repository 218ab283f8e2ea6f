-- ===== src/Net/Service.antt =====
-- net/netService.cpp and net/netServiceImpl.cpp: `NetService`, the tables of acceptors and connectors with the worker
-- threads, and `NetServiceImpl`, what both kinds of service have. The sessions are the objects `ConnectionImpl` as far
-- as a service sets them (net/connectionImpl.cpp); Net.Connection has the rest of them. What a service has given to the
-- event loop is a list of operations in the state. `U` is the state of the application.
pub mod Slots
pub mod Connects
pub mod Accepts
pub mod Turns
pub mod Connecting
pub mod EndPoint
pub mod Accepting
pub mod Identity
mod Tests
use lobbysvr.Base.{
  ℕ, zero, suc, ◌+◌, ◌-◌, ◌%◌, ◌≡◌, refl, Bool, true, false, List, [], ◌∷◌, ◌++◌, Option, none,
  some, length, ltb, leb, ◌==◌, if◌then◌else◌, replicate, take, drop,
}
use lobbysvr.Net.Receiver.{EventReceiver, clone, unset_receiver, invoke_init}

-- The fields of `NetServiceImpl` and `NetService`; `updater` is the time that the update timer is set to.
pub record ServiceImpl : Type 0 where
  pub index : ℕ
  pub ios : ℕ
  pub update_time_ms : ℕ
  pub keep_alive_time_ms : ℕ
  pub updater : Option ℕ
  pub prev_time : ℕ
  pub receiver_event_closed : Bool

-- `m_resolver` with `m_endpoint_iter`: null, or the iterator, which is the end iterator or stands at an endpoint.
pub data Resolver : Type 0 where
  unresolved : Resolver
  at_end : Resolver
  at_endpoint : ℕ → Resolver

pub record Connector : Type 0 where
  pub service : ServiceImpl
  pub target_addr : List ℕ
  pub target_port : List ℕ
  pub resolver : Resolver

pub data SessionState : Type 0 where
  created started shut : SessionState

pub record Session : Type 0 where
  pub identity : ℕ
  pub service_id : ℕ
  pub connection_id : ℕ
  pub keep_timer : Option ℕ
  pub state : SessionState

-- An accept or a connect that the event loop has not completed, with the arguments that its handler is bound to.
pub data Operation : Type 0 where
  accepting : (service conn : ℕ) → Operation
  connecting : (service endpoint conn remain : ℕ) → Operation

pub record Network (U : Type 0) : Type 0 where
  pub acceptors : List (Option ServiceImpl)
  pub connectors : List (Option Connector)
  pub sessions : List Session
  pub identity_seed : ℕ
  pub threads : ℕ
  pub current_ios : Option ℕ
  pub pending : List Operation
  pub user : U

-- `ServiceParams` without the receiver, the parser and the manipulator, and the two `UserParams`.
pub record ServiceParams : Type 0 where
  pub ios : ℕ
  pub service_update_time_ms : ℕ
  pub keep_alive_time_ms : ℕ

pub record AcceptorUserParams : Type 0 where
  pub addr : List ℕ
  pub port : List ℕ
  pub worker_threads_count : ℕ

pub record ConnectorUserParams : Type 0 where
  pub addr : List ℕ
  pub port : List ℕ

abbrev pub u64_mod : ℕ
u64_mod = 18446744073709551616

-- A `std::vector` of pointers: what stands at an index, null past the end; and the vector with an entry set.
module _ {A : Type 0} where
  unfoldable pub slot : ℕ → List (Option A) → Option A
  slot i [] = none
  slot zero (a ∷ slots) = a
  slot (suc i) (a ∷ slots) = slot i slots

  unfoldable pub set_slot : ℕ → A → List (Option A) → List (Option A)
  set_slot i a [] = []
  set_slot zero a (b ∷ slots) = some a ∷ slots
  set_slot (suc i) a (b ∷ slots) = b ∷ set_slot i a slots

  -- `if (s.size() <= idx) s.resize(idx + 1)`.
  unfoldable pub grown : ℕ → List (Option A) → List (Option A)
  grown i slots =
      if leb (length slots) i then slots ++ replicate (i + 1 - length slots) none else slots

-- `NetServiceImpl::NetServiceImpl`, and the receiver that it keeps.
unfoldable pub new_service : ServiceParams → ℕ → ServiceImpl
new_service params index = record {
  index = index;
  ios = params.ios;
  update_time_ms = params.service_update_time_ms;
  keep_alive_time_ms = params.keep_alive_time_ms;
  updater = none;
  prev_time = 0;
  receiver_event_closed = false;
}

unfoldable pub kept_receiver : {W : Type 0} → EventReceiver W → EventReceiver W
unfolding clone
kept_receiver {W} receiver = clone receiver (unset_receiver W)

-- `expireTimerReady()` at the time `now`.
unfoldable pub expire_timer_ready : ℕ → ServiceImpl → ServiceImpl
expire_timer_ready now s =
    if s.update_time_ms == 0
    then s
    else record s { prev_time = now; updater = some s.update_time_ms }

-- The timer as `update_handler` sets it again.
unfoldable pub rearmed : ℕ → ServiceImpl → ServiceImpl
rearmed now s = record s { prev_time = now; updater = some s.update_time_ms }

-- What `ConnectionImpl::create` makes: the first value of a new object's fields.
unfoldable pub new_session : ServiceImpl → ℕ → ℕ → Session
new_session s connection_id identity = record {
  identity = identity;
  service_id = s.index;
  connection_id = connection_id;
  keep_timer = if s.keep_alive_time_ms == 0 then none else some s.keep_alive_time_ms;
  state = created;
}

-- What a handler comes to: it returns, an exception leaves it, or it calls through a null pointer.
pub data Called (U : Type 0) : Type 0 where
  back : Bool → Network U → Called U
  threw : Network U → Called U
  null_call : Called U

-- The sessions with the state of one of them set.
unfoldable pub set_state : ℕ → SessionState → List Session → List Session
set_state conn state [] = []
set_state conn state (session ∷ sessions) =
    let rest = set_state conn state sessions in
    if session.identity == conn then record session { state = state } ∷ rest else session ∷ rest

-- The event loop that `runService()` runs: the first acceptor's, or else the first connector's.
unfoldable pub first_acceptor_ios : List (Option ServiceImpl) → Option ℕ
first_acceptor_ios [] = none
first_acceptor_ios (some a ∷ slots) = some a.ios
first_acceptor_ios (none ∷ slots) = first_acceptor_ios slots

unfoldable pub first_connector_ios : List (Option Connector) → Option ℕ
first_connector_ios [] = none
first_connector_ios (some c ∷ slots) = some c.service.ios
first_connector_ios (none ∷ slots) = first_connector_ios slots

module _ {U : Type 0} where
  -- `ConnectionImpl::create` with `setServiceID`; `s_identitySeed` is a `size_t`.
  unfoldable pub create_session : ServiceImpl → ℕ → Network U → Network U
  unfolding new_session
  create_session s connection_id n = record n {
    sessions = new_session s connection_id n.identity_seed ∷ n.sessions;
    identity_seed = (n.identity_seed + 1) % u64_mod;
  }

  unfoldable pub pend : Operation → Network U → Network U
  pend op n = record n { pending = n.pending ++ op ∷ [] }

  unfoldable pub mark : ℕ → SessionState → Network U → Network U
  mark conn state n = record n { sessions = set_state conn state n.sessions }

  unfoldable pub get_acceptor : ℕ → Network U → Option ServiceImpl
  get_acceptor acceptor_idx n = slot acceptor_idx n.acceptors

  unfoldable pub get_connector : ℕ → Network U → Option Connector
  get_connector connector_idx n = slot connector_idx n.connectors

  unfoldable pub put_acceptor : ℕ → ServiceImpl → Network U → Network U
  put_acceptor i a n = record n { acceptors = set_slot i a n.acceptors }

  unfoldable pub put_connector : ℕ → Connector → Network U → Network U
  put_connector i c n = record n { connectors = set_slot i c n.connectors }

  -- `addWorkerThreads(workerCount, ios)`, and the one without `ios`, which gives 0 before an `ios` is set.
  unfoldable pub add_worker_threads : ℕ → Network U → ℕ × Network U
  add_worker_threads worker_count n =
      let threads = n.threads + worker_count in (threads, record n { threads = threads })

  unfoldable pub add_worker_threads_current : ℕ → Network U → ℕ × Network U
  unfolding add_worker_threads
  add_worker_threads_current worker_count n = elim n.current_ios [
    | none ↦ (0, n)
    | some ios ↦ add_worker_threads worker_count n
  ]

  -- What `createConnector` does with an empty slot; its constructor calls `initHandler` of the receiver.
  unfoldable pub new_connector : ℕ → ServiceParams → ConnectorUserParams → Network U → Network U
  unfolding new_service put_connector
  new_connector i params user_params n =
      put_connector i
        (record {
          service = new_service params i;
          target_addr = user_params.addr;
          target_port = user_params.port;
          resolver = unresolved;
        })
        n

  unfoldable pub create_connector :
      EventReceiver (Network U)
      → ℕ
      → ServiceParams
      → ConnectorUserParams
      → Network U
      → Option (Network U)
  unfolding kept_receiver new_connector invoke_init
  create_connector receiver i params user_params n =
      let sized = record n { connectors = grown i n.connectors } in
      elim (slot i sized.connectors) [
        | some c ↦ some sized
        | none ↦ elim (invoke_init (kept_receiver receiver).init_handler sized) [
          | none ↦ none
          | some m ↦ some (new_connector i params user_params m)
        ]
      ]

  -- `runService()` up to its call of `run`: `assert(s_currentIOS)` fails without a loop to run.
  unfoldable pub chosen_ios : Network U → Option ℕ
  unfolding first_acceptor_ios first_connector_ios
  chosen_ios n = elim (first_acceptor_ios n.acceptors) [
    | some ios ↦ some ios
    | none ↦ elim (first_connector_ios n.connectors) [ some ios ↦ some ios | none ↦ n.current_ios ]
  ]

  unfoldable pub run_service : Network U → Option (Network U)
  run_service n = elim (chosen_ios n) [
    | none ↦ none
    | some ios ↦
        some
          (record n { current_ios = some ios; threads = if n.threads == 0 then 1 else n.threads })
  ]

  -- `run` when the loop has stopped: the threads are joined and forgotten.
  unfoldable pub run_stopped : Network U → Network U
  run_stopped n = record n { threads = 0 }
